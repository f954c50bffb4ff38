-- ===== src/Service/Network/Laws.antt =====
-- Every message reaches the signer that it is for, and no other.
use alice_tss.Base.{
  ℕ, ◌≡◌, refl, ◌∙◌, sym, Error, ◌>>=◌, false, some, ◌⊎◌, inl, inr, [], ◌∷◌, Text, Bytes, text_eq,
  text_eq_refl, lookup, lookup-insert, Bool-cases, All, All-middle, Result, ok,
}
use alice_tss.Libs.{Libs, DkgOutcome, SignOutcome}
use alice_tss.Peer.Manager.{Heap, P2pManager, get_protocol, clone_peer_manager, target_of}
use alice_tss.Peer.Transport.{Net, AddrInfo, Sent, must_send}
use alice_tss.Store.Handler.{HandlerData}
use alice_tss.Service.Node.{Machine, Service, Node}
use alice_tss.Service.Signer.{handle_signer}
use alice_tss.Service.Lifecycle.Services.{SignCalm}
use alice_tss.Steps.{Reach, Reach-lem}
use alice_tss.Service.Sessions.{Sessions, reads}
use alice_tss.Service.Sessions.Laws.{Inv, Step-Inv}
use alice_tss.Service.Network.Handlers.{OwnHandlers, Step-OwnHandlers}
use alice_tss.Service.Network.{
  Packet, Taken, Network, with_node, took, Moves, acts, sends, delivers, loses, quiet,
}

-- Each node is in order; what is under way has the protocol of the signer that wrote it; and what was taken in was
-- read by a signer of the same message.
pub record Routed {M S : Type 0} (c : Network M S) : Type 0 where
  pub in_order : (i : Text) → Inv (c.nodes i)
  pub own : (i : Text) → OwnHandlers (c.nodes i).node
  pub stamped : All (λ (k : Packet). k.protocol ≡ get_protocol k.sender) c.flight
  pub fair : All (λ (t : Taken). t.sender ≡ t.reader) c.taken

-- What holds of the new state of a node and of all the others.
with_node-lem :
    {M S : Type 0} (P : Sessions M S → Type 0) (i : Text) (s : Sessions M S)
    (nodes : Text → Sessions M S)
    → P s
    → ((j : Text) → P (nodes j))
    → (j : Text) → P (with_node i s nodes j)
with_node-lem P i s nodes new old j = elim (Bool-cases (text_eq i j)) [
  | inl t ↦ rw t new
  | inr f ↦ rw f (old j)
]

module _ (l : Libs) (m : Machine SignOutcome) {S : Type 0} (h : HandlerData S) (calm : SignCalm h)
    {P : Type 0} (new_paillier : Result P) (new_signer : P → DkgOutcome → Bytes → Result m.M)
    (net : Net) (peers : Text → Heap) (managers : Text → P2pManager) where
  -- The signer at whose hash a packet arrives is the one of the same message as its sender.
  arrives :
      (c : Network m.M S) (k : Packet) (hash : Text) (p : Service m.M)
      → Routed c
      → k.protocol ≡ get_protocol k.sender
      → lookup k.protocol (c.nodes k.to).node.handlers ≡ some hash
      → lookup hash (c.nodes k.to).signers ≡ some p
      → k.sender ≡ p.hash
  arrives c k hash p r stamp routed there =
      sym ((r.in_order k.to).named hash p there ∙ r.own k.to k.sender hash (rw (← stamp) routed))

  Moves-Routed :
      (c d : Network m.M S)
      → Moves l m h new_paillier new_signer net peers managers c d
      → Routed c
      → Routed d
  unfolding clone_peer_manager
  Moves-Routed c d (acts i t x own_step) r = record {
    in_order =
        with_node-lem Inv i t c.nodes
          (Step-Inv l m h calm new_paillier new_signer (c.nodes i) t x (r.in_order i)) r.in_order;
    own =
        with_node-lem (λ (s : Sessions m.M S). OwnHandlers s.node) i t c.nodes
          (Step-OwnHandlers l m h calm new_paillier new_signer (c.nodes i) t x (r.own i)) r.own;
    stamped = r.stamped;
    fair = r.fair;
  }
  Moves-Routed c d (sends i hash to p body try info res st there resolved sent closed) r = record {
    in_order = r.in_order;
    own = r.own;
    stamped = (refl, r.stamped);
    fair = r.fair;
  }
  Moves-Routed c d (delivers before after k hash p under_way routed there) r =
      let (stamp, others) =
        All-middle (λ (k : Packet). k.protocol ≡ get_protocol k.sender) before k after
          (rw (← under_way) r.stamped) in
      record {
        in_order =
            with_node-lem Inv k.to (took hash (handle_signer l m h p (some k.body)) (c.nodes k.to))
              c.nodes
              (Step-Inv l m h calm new_paillier new_signer (c.nodes k.to) _
                (reads k.protocol hash p (some k.body) routed there) (r.in_order k.to))
              r.in_order;
        own =
            with_node-lem (λ (s : Sessions m.M S). OwnHandlers s.node) k.to
              (took hash (handle_signer l m h p (some k.body)) (c.nodes k.to)) c.nodes (r.own k.to)
              r.own;
        stamped = others;
        fair = (arrives c k hash p r stamp routed there, r.fair);
      }
  Moves-Routed c d (loses before after k under_way) r =
      let (stamp, others) =
        All-middle (λ (k : Packet). k.protocol ≡ get_protocol k.sender) before k after
          (rw (← under_way) r.stamped) in
      record { in_order = r.in_order; own = r.own; stamped = others; fair = r.fair }

  -- What can come of nodes without signers.
  abbrev pub Comes : (Text → Node S) → Network m.M S → Type 0
  Comes start c = Reach (Moves l m h new_paillier new_signer net peers managers) (quiet start) c

  pub Comes-Routed :
      (start : Text → Node S) {c : Network m.M S}
      → ((i : Text) → OwnHandlers (start i))
      → Comes start c
      → Routed c
  Comes-Routed start own r = Reach-lem Routed Moves-Routed r (record {
    in_order = λ i. record { named = λ k p e. cc; handled = λ k p e. cc };
    own = own;
    stamped = tt;
    fair = tt;
  })

  -- On nodes that start without signers, whose hosts have for the protocol of a hash no handler but that of the hash,
  -- and where no save of a signature panics: whatever signers they make, in whatever order their protocols
  -- report, send, and what they send arrives or is lost, every message that a signer has taken in was sent by a
  -- signer of the same message.
  pub taken_fair :
      (start : Text → Node S) {c : Network m.M S}
      → ((i : Text) → OwnHandlers (start i))
      → Comes start c
      → All (λ (t : Taken). t.sender ≡ t.reader) c.taken
  taken_fair start own r = (Comes-Routed start own r).fair

  -- On such nodes, where a signer sends a message to a peer whose address is well-formed and to which the stream is
  -- written and closed, and the node there has a signer of the same message that has not closed its channel: the
  -- stream can be handed over to that signer, which takes the message in, and it is noted as one that the sender
  -- wrote and that signer read.
  pub sent_arrives :
      (start : Text → Node S) {c : Network m.M S} (i hash to : Text) (p q : Service m.M)
      (body : Bytes) (try : ℕ → net.Stream ⊎ Error) (info : AddrInfo) (r : Sent net)
      (st : net.Stream)
      → ((j : Text) → OwnHandlers (start j))
      → Comes start c
      → lookup hash (c.nodes i).signers ≡ some p
      → (net.parse_addr (target_of (peers i) (managers i) to) >>= net.addr_info) ≡ ok info
      → must_send net try
          (peers i)
          (clone_peer_manager (managers i) (get_protocol p.hash))
          to
          (inl body)
        ≡ ok r
      → r.closed ≡ some st
      → lookup hash (c.nodes info.id).signers ≡ some q
      → q.done_closed ≡ false
      → (c1 : Network m.M S) × (c2 : Network m.M S) × Moves l m h new_paillier new_signer net peers
          managers c c1
        × Moves l m h new_paillier new_signer net peers managers c1 c2
        × (lookup hash (c2.nodes info.id).signers ≡ some (handle_signer l m h q (some body)))
        × (c2.taken ≡ record { sender = hash; reader = hash } ∷ c.taken)
  unfolding clone_peer_manager
  sent_arrives start {c} i hash to p q body try info r st own run there resolved sent closed q_there
        open_still =
      let at_end = Comes-Routed start own run in
      let named : p.hash ≡ hash = (at_end.in_order i).named hash p there in
      let q_named : q.hash ≡ hash = (at_end.in_order info.id).named hash q q_there in
      let k : Packet = record {
        to = info.id;
        protocol = get_protocol p.hash;
        body = body;
        sender = p.hash;
      } in
      let c1 : Network m.M S = record c { flight = k ∷ c.flight } in
      let new : Sessions m.M S = took hash (handle_signer l m h q (some body)) (c.nodes info.id) in
      let routed : lookup (get_protocol p.hash) (c.nodes info.id).node.handlers ≡ some hash =
        rw named ((at_end.in_order info.id).handled hash q q_there ∙ rw open_still refl) in
      (
        c1,
        record {
          nodes = with_node info.id new c.nodes;
          flight = c.flight;
          taken = record { sender = p.hash; reader = q.hash } ∷ c.taken;
        },
        sends i hash to p body try info r st there resolved sent closed,
        delivers [] c.flight k hash q refl routed q_there,
        rw (text_eq_refl info.id) (
            lookup-insert hash hash (handle_signer l m h q (some body)) (c.nodes info.id).signers
            ∙ rw (text_eq_refl hash) refl),
        rw (named, q_named) refl,
      )
