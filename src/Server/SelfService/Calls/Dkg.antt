-- ===== src/Server/SelfService/Calls/Dkg.antt =====
-- What the calls of a key generation on the three nodes come to.
use alice_tss.Base.{
  ◌≡◌, refl, ◌∙◌, false, Option, none, some, List, [], ◌∷◌, ℕ, Text, lookup, lookup-insert,
  text_eq_refl, Result, ok, err, Error, Done, inl, inr,
}
use alice_tss.Libs.{Libs, DkgOutcome}
use alice_tss.Codec.BigInt.{decimal}
use alice_tss.Peer.Manager.{Heap, P2pManager, get_protocol}
use alice_tss.Store.Handler.{HandlerData}
use alice_tss.Service.Node.{Service, Node, set_stream_handler}
use alice_tss.Service.Dkg.{contains_dash, stream_protocol, new_dkg_service}
use alice_tss.Service.Dkg.Protocols.{stream_protocol-dash}
use alice_tss.Service.Lifecycle.{Event, ends}
use alice_tss.Service.Lifecycle.Services.{SaveCalm}
use alice_tss.Server.Tss.{Alice, Called, spawned, no_call, got, register_dkg, dkg_config}
use alice_tss.Server.Tss.Laws.{register_dkg_finishes, final_keygen, final_dkg_node}
use alice_tss.Server.SelfService.Gather.{Gathering, Primary, answered}
use alice_tss.Server.SelfService.Gather.Invariant.{Gathers}
use alice_tss.Server.SelfService.Gather.Laws.{gather_answers}
use alice_tss.Server.SelfService.Calls.{
  Cluster, Calls, node_id, outcome_of, call_of_primary, call_dkg,
}

-- What the goroutines of the other nodes come to.
abbrev pub outcomes : {A S : Type 0} → Calls A S → List (Option Error)
outcomes r = outcome_of 1 r.node1 ∷ outcome_of 2 r.node2 ∷ []

-- Where all the calls of the other nodes are without an error and the context does not end, the select
-- can only have been answered with nil.
pub answered_nil :
    (s : Gathering) (d : Done)
    → Gathers (none ∷ none ∷ []) none s
    → s.primary ≡ answered d
    → d ≡ ok tt
answered_nil s d r q = elim (gather_answers (none ∷ none ∷ []) none r q) [
  | inl e ↦ e
  | inr (e, w, inl (inl x)) ↦ cc
  | inr (e, w, inl (inr (inl x))) ↦ cc
  | inr (e, w, inl (inr (inr x))) ↦ absurd x
  | inr (e, w, inr x) ↦ cc
]

module _ (l : Libs) (a : Alice) {S : Type 0} (h : HandlerData S) (peers : Heap) where
  -- A started key generation.
  abbrev pub generating : a.keygen.M → Text → Service a.keygen.M
  generating m hash = record { machine = m; hash = hash; done_closed = false }

  -- Without a function to call the peers, the process of the service is only started.
  register_dkg_starts :
      (pm : P2pManager) (hash : Text) (m : a.keygen.M) (n : Node S)
      → a.new_dkg (dkg_config l a h peers pm) ≡ ok m
      → register_dkg l a h peers pm hash no_call [] n
        ≡ (ok (spawned (generating m hash)), set_stream_handler (stream_protocol hash) hash n)
  unfolding register_dkg new_dkg_service
  register_dkg_starts pm hash m n e = rw e

  pub register_dkg_refused :
      (pm : P2pManager) (key : Text) (n : Node S) (e : Error)
      → a.new_dkg (dkg_config l a h peers pm) ≡ err e
      → register_dkg l a h peers pm key no_call [] n ≡ (err e, n)
  unfolding register_dkg new_dkg_service
  register_dkg_refused pm key n e refused = rw refused

  -- The three calls where the other nodes have started theirs.
  abbrev pub around :
      Text
      → Cluster S
      → a.keygen.M
      → a.keygen.M
      → Result (Called a.keygen.M DkgOutcome) × Node S
      → Calls (Called a.keygen.M DkgOutcome) S
  around hash c m1 m2 r = record {
    primary = r.0;
    node1 = ok (spawned (generating m1 (node_id hash 1)));
    node2 = ok (spawned (generating m2 (node_id hash 2)));
    cluster = record {
      first = r.1.handlers;
      second =
          (set_stream_handler (stream_protocol (node_id hash 1)) (node_id hash 1)
            (record { handlers = c.second; store = c.store })).handlers;
      third =
          (set_stream_handler (stream_protocol (node_id hash 2)) (node_id hash 2)
            (record { handlers = c.third; store = c.store })).handlers;
      store = r.1.store;
    };
  }

  -- The host of the first node.
  abbrev pub first_node : Cluster S → Node S
  first_node c = record { handlers = c.first; store = c.store }

  pub call_dkg_starts :
      (hash : Text) (pm0 pm1 pm2 : P2pManager) (m1 m2 : a.keygen.M) (primary : Primary)
      (events : List Event) (c : Cluster S)
      → a.new_dkg (dkg_config l a h peers pm1) ≡ ok m1
      → a.new_dkg (dkg_config l a h peers pm2) ≡ ok m2
      → call_dkg l a peers h hash primary events c pm0 pm1 pm2
        ≡ around hash c m1 m2 (
            register_dkg l a h peers pm0
              (node_id hash 0)
              (call_of_primary primary)
              events
              (first_node c))
  call_dkg_starts hash pm0 pm1 pm2 m1 m2 primary events c e1 e2 =
      rw
        (
          register_dkg_starts pm1 (node_id hash 1) m1
              (record { handlers = c.second; store = c.store }) e1,
          register_dkg_starts pm2 (node_id hash 2) m2
              (record { handlers = c.third; store = c.store }) e2,
        )
        refl

  handled :
      (hash : Text) (i : ℕ) (n : Node S)
      → contains_dash hash ≡ false
      → lookup
          (stream_protocol hash)
          (set_stream_handler (stream_protocol (node_id hash i)) (node_id hash i) n).handlers
        ≡ some (node_id hash i)
  handled hash i n free = rw (
    stream_protocol-dash hash (decimal i) free,
    lookup-insert (stream_protocol hash) (stream_protocol hash) (node_id hash i) n.handlers,
    text_eq_refl (stream_protocol hash),
  )

  stream_protocol-plain :
      (hash : Text) → contains_dash hash ≡ false → stream_protocol hash ≡ get_protocol hash
  unfolding stream_protocol
  stream_protocol-plain hash free = rw free

  -- Each of the three hosts hands the streams of the protocol of the hash to its own key generation.
  pub record Listen (hash : Text) (c : Cluster S) : Type 0 where
    pub on_first : lookup (get_protocol hash) c.first ≡ some (node_id hash 0)
    pub on_second : lookup (get_protocol hash) c.second ≡ some (node_id hash 1)
    pub on_third : lookup (get_protocol hash) c.third ≡ some (node_id hash 2)

  module _ (calm : SaveCalm h) (hash : Text) (pm0 pm1 pm2 : P2pManager) (m0 m1 m2 : a.keygen.M)
      (events : List Event) (c : Cluster S) where
    -- The calls when the first node has gone on without an error.
    abbrev pub whole : Calls (Called a.keygen.M DkgOutcome) S
    whole = around hash c m1 m2 (
      got (a.keygen.get_result (final_keygen l a h m0 events)),
      final_dkg_node l a h (node_id hash 0) m0 events (first_node c),
    )

    pub call_dkg_finishes :
        contains_dash hash ≡ false
        → a.new_dkg (dkg_config l a h peers pm0) ≡ ok m0
        → a.new_dkg (dkg_config l a h peers pm1) ≡ ok m1
        → a.new_dkg (dkg_config l a h peers pm2) ≡ ok m2
        → ends events ≡ 1
        → (call_dkg l a peers h hash (answered (ok tt)) events c pm0 pm1 pm2 ≡ whole)
          × Listen hash whole.cluster
    call_dkg_finishes free e0 e1 e2 one =
        let (eq, stays) =
          register_dkg_finishes l a h calm peers pm0 (node_id hash 0) m0 events (first_node c) e0
            one in
        let plain = stream_protocol-plain hash free in
        let dash = stream_protocol-dash hash (decimal 0) free in
        (
          call_dkg_starts hash pm0 pm1 pm2 m1 m2 (answered (ok tt)) events c e1 e2 ∙ rw eq refl,
          record {
            on_first = rw (← plain, ← dash) stays;
            on_second =
                rw (← plain)
                  (handled hash 1 (record { handlers = c.second; store = c.store }) free);
            on_third =
                rw (← plain) (handled hash 2 (record { handlers = c.third; store = c.store }) free);
          },
        )
