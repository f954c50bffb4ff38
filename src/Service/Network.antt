-- ===== src/Service/Network.antt =====
-- The signers of several nodes and the messages between them: `MustSend` of peer/pm.go on one side, and the stream
-- handlers of service/signer.go on the other. libp2p opens a stream for the protocol of the manager that sends, and
-- the host at its end hands it to the handler that it has for that protocol.
pub mod Handlers
pub mod Laws
use alice_tss.Base.{
  ℕ, ◌≡◌, true, false, ◌⊎◌, inl, none, some, Option, List, [], ◌∷◌, ◌++◌, Text, Bytes, text_eq,
  lookup, insert, Result, ok, Error, ◌>>=◌, if◌then◌else◌,
}
use alice_tss.Libs.{Libs, DkgOutcome, SignOutcome}
use alice_tss.Peer.Manager.{Heap, P2pManager, get_protocol, clone_peer_manager, target_of}
use alice_tss.Peer.Transport.{Net, AddrInfo, Sent, must_send}
use alice_tss.Store.Handler.{HandlerData}
use alice_tss.Service.Node.{Machine, Service, Node}
use alice_tss.Service.Signer.{handle_signer}
use alice_tss.Service.Sessions.{Sessions, Step, begins, reads, changes}

-- What was written to a stream: the host at its end, its protocol, and the signer that wrote it, by its hash.
pub record Packet : Type 0 where
  pub to : Text
  pub protocol : Text
  pub body : Bytes
  pub sender : Text

-- A message that was taken in: who wrote it, and who read it.
pub record Taken : Type 0 where
  pub sender : Text
  pub reader : Text

-- The nodes by their ids, what is under way, and what was taken in so far.
pub record Network (M S : Type 0) : Type 0 where
  pub nodes : Text → Sessions M S
  pub flight : List Packet
  pub taken : List Taken

abbrev pub with_node :
    {M S : Type 0} → Text → Sessions M S → (Text → Sessions M S) → Text → Sessions M S
with_node i s nodes j = if text_eq i j then s else nodes j

abbrev pub took : {M S : Type 0} → Text → Service M → Sessions M S → Sessions M S
took hash p s = record s { signers = insert hash p s.signers }

module _ (l : Libs) (m : Machine SignOutcome) {S : Type 0} (h : HandlerData S) {P : Type 0}
    (new_paillier : Result P) (new_signer : P → DkgOutcome → Bytes → Result m.M) where
  -- A step of a node by itself: it makes a signer, or one of its protocols reports a state.
  abbrev pub IsOwn : {s t : Sessions m.M S} → Step l m h new_paillier new_signer s t → Type 0
  IsOwn (begins cfg msg p n made fresh) = Unit
  IsOwn (reads protocol hash p x routed there) = ⊥
  IsOwn (changes hash p q n state there changed) = Unit

  -- The manager of a node and the network as it sees it; the manager of a signer is the clone that its server
  -- made for the hash.
  pub data Moves (net : Net) (peers : Text → Heap) (managers : Text → P2pManager)
      (c : Network m.M S) : Network m.M S → Type 0 where
    acts :
        (i : Text) (t : Sessions m.M S) (x : Step l m h new_paillier new_signer (c.nodes i) t)
        → IsOwn x
        → Moves net peers managers c (record c { nodes = with_node i t c.nodes })
    sends :
        (i hash to : Text) (p : Service m.M) (body : Bytes) (try : ℕ → net.Stream ⊎ Error)
        (info : AddrInfo) (r : Sent net) (st : net.Stream)
        → lookup hash (c.nodes i).signers ≡ some p
        → (net.parse_addr (target_of (peers i) (managers i) to) >>= net.addr_info) ≡ ok info
        → must_send net try
            (peers i)
            (clone_peer_manager (managers i) (get_protocol p.hash))
            to
            (inl body)
          ≡ ok r
        → r.closed ≡ some st
        → Moves net peers managers c (record c {
          flight =
              record {
                to = info.id;
                protocol = (clone_peer_manager (managers i) (get_protocol p.hash)).protocol;
                body = body;
                sender = p.hash;
              }
              ∷ c.flight;
        })
    delivers :
        (before after : List Packet) (k : Packet) (hash : Text) (p : Service m.M)
        → c.flight ≡ before ++ (k ∷ after)
        → lookup k.protocol (c.nodes k.to).node.handlers ≡ some hash
        → lookup hash (c.nodes k.to).signers ≡ some p
        → Moves net peers managers c (record {
          nodes =
              with_node k.to
                (took hash (handle_signer l m h p (some k.body)) (c.nodes k.to))
                c.nodes;
          flight = before ++ after;
          taken = record { sender = k.sender; reader = p.hash } ∷ c.taken;
        })
    loses :
        (before after : List Packet) (k : Packet)
        → c.flight ≡ before ++ (k ∷ after)
        → Moves net peers managers c (record c { flight = before ++ after })

-- The nodes before their first signers.
abbrev pub quiet : {M S : Type 0} → (Text → Node S) → Network M S
quiet start = record {
  nodes = λ i. record { signers = []; node = start i };
  flight = [];
  taken = [];
}
