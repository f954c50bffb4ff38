-- ===== src/Server/SelfService/Calls/Sign.antt =====
-- What signing over the three nodes comes to.
use alice_tss.Base.{
  ◌≡◌, ◌≢◌, refl, ◌∙◌, ap, subst, Option, none, some, List, [], ◌∷◌, ℕ, Text, lookup, lookup-insert,
  text_eq_refl, Result, ok, Error, Done,
}
use alice_tss.Libs.{Libs, SignOutcome}
use alice_tss.Types.{SignerConfig}
use alice_tss.Utils.Keys.{to_hex_hash}
use alice_tss.Peer.Manager.{Heap, P2pManager, get_protocol}
use alice_tss.Store.Handler.{HandlerData}
use alice_tss.Service.Node.{Node}
use alice_tss.Service.Lifecycle.{Event, ends}
use alice_tss.Service.Lifecycle.Services.{SignCalm}
use alice_tss.Server.Tss.{Alice, SignRequest, Called, spawned, no_call, got, sign_message}
use alice_tss.Server.Tss.Laws.{
  signer_for, hash_of, started, listening, new_signer_service_lem, final_signer,
  sign_message_finishes,
}
use alice_tss.Server.SelfService.Gather.{Gathering, Primary, answered}
use alice_tss.Server.SelfService.Gather.Invariant.{Gathers}
use alice_tss.Server.SelfService.Calls.{
  Cluster, Calls, node_request, call_of_primary, managers, call_sign, self_sign_message,
}
use alice_tss.Server.SelfService.Calls.Dkg.{outcomes, answered_nil}
use alice_tss.Server.SelfService.Calls.Laws.{Connected}

module _ (l : Libs) (a : Alice) {S : Type 0} (h : HandlerData S) where
  -- The store has the configuration of a request, and it makes the signer.
  abbrev pub Signs : S → SignRequest → a.signing.M → Type 0
  Signs store request m =
      (cfg : SignerConfig) × (h.get_signer_config store request.hash request.pubkey ≡ ok cfg)
      × (signer_for l a h request cfg ≡ ok m)

  -- Without a function to call the peers, the process of the signer is only started.
  sign_message_starts :
      (request : SignRequest) (m : a.signing.M) (n : Node S)
      → Signs n.store request m
      → sign_message l a h request no_call [] n
        ≡ (ok (spawned (started l a h request m)), listening l a h request n)
  unfolding sign_message
  sign_message_starts request m n (cfg, there, made) =
      rw (there, new_signer_service_lem l a h request cfg m n made) refl

  abbrev pub sign_node : Cluster S → Node S
  sign_node c = record { handlers = c.first; store = c.store }

  -- The three calls where the other nodes have started theirs.
  abbrev sign_around :
      SignRequest
      → Cluster S
      → a.signing.M
      → a.signing.M
      → Result (Called a.signing.M SignOutcome) × Node S
      → Calls (Called a.signing.M SignOutcome) S
  sign_around request c m1 m2 r = record {
    primary = r.0;
    node1 = ok (spawned (started l a h request m1));
    node2 = ok (spawned (started l a h request m2));
    cluster = record {
      first = r.1.handlers;
      second = (listening l a h request (record { handlers = c.second; store = c.store })).handlers;
      third = (listening l a h request (record { handlers = c.third; store = c.store })).handlers;
      store = r.1.store;
    };
  }

  call_sign_starts :
      (request : SignRequest) (pm0 pm1 pm2 : P2pManager) (m1 m2 : a.signing.M) (primary : Primary)
      (events : List Event) (c : Cluster S)
      → Signs c.store (node_request request 1) m1
      → Signs c.store (node_request request 2) m2
      → call_sign l a h request primary events c pm0 pm1 pm2
        ≡ sign_around request c m1 m2 (
            sign_message l a h
              (node_request request 0)
              (call_of_primary primary)
              events
              (sign_node c))
  call_sign_starts request pm0 pm1 pm2 m1 m2 primary events c s1 s2 =
      rw
        (
          sign_message_starts (node_request request 1) m1
              (record { handlers = c.second; store = c.store }) s1,
          sign_message_starts (node_request request 2) m2
              (record { handlers = c.third; store = c.store }) s2,
        )
        refl

  listens :
      (request : SignRequest) (n : Node S)
      → lookup (get_protocol (hash_of l a h request)) (listening l a h request n).handlers
        ≡ some (hash_of l a h request)
  listens request n = rw (
    lookup-insert (get_protocol (hash_of l a h request)) (get_protocol (hash_of l a h request))
        (hash_of l a h request) n.handlers,
    text_eq_refl (get_protocol (hash_of l a h request)),
  )

module _ {Host : Type 0} (l : Libs) (a : Alice) {S : Type 0} (h : HandlerData S)
    (discover : ℕ → Option Error) (ticks : List (List (Option ℕ)))
    (nodes : List (Option Host × Text)) (heap peers : Heap) where
  self_sign_message_over :
      (request : SignRequest) (message : Text) (pm0 pm1 pm2 : P2pManager) (primary : Primary)
      (events : List Event) (c : Cluster S)
      → request.message ≡ message
      → message ≢ []
      → managers discover ticks nodes heap (to_hex_hash l message)
        ≡ ok (some pm0 ∷ some pm1 ∷ some pm2 ∷ [])
      → self_sign_message l a discover ticks nodes heap peers
          (some h)
          (some request)
          primary
          events
          c
        ≡ ok (call_sign l a h request primary events c pm0 pm1 pm2)
  unfolding self_sign_message
  self_sign_message_over request [] pm0 pm1 pm2 primary events c same full e = absurd (full refl)
  self_sign_message_over request (x ∷ message) pm0 pm1 pm2 primary events c same full e =
      rw (same, e) refl

  -- For a message that is not empty, where the managers are made, the store has the configuration of the
  -- request under the hash of each of the three nodes and it makes a signer, no save of a signature panics and
  -- the protocol of the first node reports exactly one end: however the goroutines and the select are
  -- interleaved, once the select has answered, the other nodes have started their signers, the call returns
  -- what the signer of the first node gives at its end, or an error where it gives nothing, the first host
  -- no longer handles the streams of the message, and the other two do.
  pub self_sign_message_finishes :
      (calm : SignCalm h) (request : SignRequest) (pm0 pm1 pm2 : P2pManager)
      (m0 m1 m2 : a.signing.M) (events : List Event) (c : Cluster S) {s : Gathering} {d : Done}
      → request.message ≢ []
      → Connected l a h discover ticks nodes heap peers (to_hex_hash l request.message) pm0 pm1 pm2
      → Signs l a h c.store (node_request request 0) m0
      → Signs l a h c.store (node_request request 1) m1
      → Signs l a h c.store (node_request request 2) m2
      → ends events ≡ 1
      → Gathers (outcomes (call_sign l a h request s.primary events c pm0 pm1 pm2)) none s
      → s.primary ≡ answered d
      → (r : Calls (Called a.signing.M SignOutcome) S) × (self_sign_message l a discover ticks nodes
            heap peers
            (some h)
            (some request)
            s.primary
            events
            c
          ≡ ok r)
        × (r.primary ≡ got (a.signing.get_result (final_signer l a h m0 events)))
        × (r.node1 ≡ ok (spawned (started l a h request m1)))
        × (r.node2 ≡ ok (spawned (started l a h request m2)))
        × (lookup (get_protocol (hash_of l a h request)) r.cluster.first ≡ none)
        × (lookup (get_protocol (hash_of l a h request)) r.cluster.second
            ≡ some (hash_of l a h request))
        × (lookup (get_protocol (hash_of l a h request)) r.cluster.third
            ≡ some (hash_of l a h request))
  self_sign_message_finishes calm request pm0 pm1 pm2 m0 m1 m2 events c {s} {d} full made
        (cfg, there, signer) s1 s2 one r q =
      let start = call_sign_starts l a h request pm0 pm1 pm2 m1 m2 s.primary events c s1 s2 in
      let go = answered_nil s d (subst (λ os. Gathers os none s) (ap outcomes start) r) q in
      let p : s.primary ≡ answered (ok tt) = q ∙ ap answered go in
      let (eq, removed) =
        sign_message_finishes l a h calm (node_request request 0) cfg m0 events (sign_node l a h c)
          there signer one in
      (
        sign_around l a h request c m1 m2 (
            sign_message l a h (node_request request 0) (call_of_primary s.primary) events
              (sign_node l a h c)),
        self_sign_message_over request request.message pm0 pm1 pm2 s.primary events c refl full made
            ∙ ap ok start,
        rw (p, eq) refl,
        refl,
        refl,
        rw (p, eq) removed,
        listens l a h request (record { handlers = c.second; store = c.store }),
        listens l a h request (record { handlers = c.third; store = c.store }),
      )
