-- ===== src/Server/SelfService/Calls/Laws.antt =====
-- What the operations over the three nodes come to.
use alice_tss.Base.{
  ◌≡◌, refl, ◌∙◌, ap, false, Option, none, some, List, [], ◌∷◌, ℕ, Text, ok, err, Error, Done,
  node_failed, subst,
}
use alice_tss.Libs.{Libs, DkgOutcome}
use alice_tss.Peer.Manager.{Heap, P2pManager}
use alice_tss.Store.Handler.{HandlerData}
use alice_tss.Service.Dkg.{contains_dash}
use alice_tss.Service.Lifecycle.{Event, ends}
use alice_tss.Service.Lifecycle.Services.{SaveCalm}
use alice_tss.Server.Tss.{Alice, Called, spawned, got, dkg_config}
use alice_tss.Server.Tss.Laws.{register_dkg_finishes, final_keygen, final_dkg_node}
use alice_tss.Server.SelfService.{create_pm}
use alice_tss.Server.SelfService.Gather.{Gathering, Primary, answered}
use alice_tss.Server.SelfService.Gather.Invariant.{Gathers}
use alice_tss.Server.SelfService.Gather.Schedules.{gather_may_pass}
use alice_tss.Server.SelfService.Calls.{
  Cluster, Calls, node_id, managers, call_dkg, self_register_dkg,
}
use alice_tss.Server.SelfService.Calls.Dkg.{
  outcomes, answered_nil, generating, register_dkg_refused, call_dkg_starts, first_node, Listen,
  whole, call_dkg_finishes,
}

module _ {Host : Type 0} (l : Libs) (a : Alice) {S : Type 0} (h : HandlerData S)
    (discover : ℕ → Option Error) (ticks : List (List (Option ℕ)))
    (nodes : List (Option Host × Text)) (heap peers : Heap) where
  -- `CreatePm` gives the three managers.
  abbrev pub Connected : Text → P2pManager → P2pManager → P2pManager → Type 0
  Connected protocol_id pm0 pm1 pm2 =
      managers discover ticks nodes heap protocol_id ≡ ok (some pm0 ∷ some pm1 ∷ some pm2 ∷ [])

  self_register_dkg_over :
      (hash : Text) (pm0 pm1 pm2 : P2pManager) (primary : Primary) (events : List Event)
      (c : Cluster S)
      → Connected hash pm0 pm1 pm2
      → self_register_dkg l a discover ticks nodes heap peers (some h) hash primary events c
        ≡ ok (call_dkg l a peers h hash primary events c pm0 pm1 pm2)
  unfolding self_register_dkg create_pm
  self_register_dkg_over [] pm0 pm1 pm2 primary events c e = cc
  self_register_dkg_over (x ∷ hash) pm0 pm1 pm2 primary events c e = rw e refl

  module _ (calm : SaveCalm h) (hash : Text) (pm0 pm1 pm2 : P2pManager) (m0 m1 m2 : a.keygen.M)
      (events : List Event) (c : Cluster S) where
    -- For a hash without a dash, where the managers are made, alice accepts the configuration of each of the
    -- three nodes, no save of an outcome panics and the protocol of the first node reports exactly one end:
    -- however the goroutines and the select are interleaved, once the select has answered, the calls of the
    -- other nodes have started their protocols, the call returns what the protocol of the first node gives
    -- at its end, and all three hosts hand the streams of the protocol of the hash to their own key
    -- generation.
    pub self_register_dkg_finishes :
        {s : Gathering} {d : Done}
        → contains_dash hash ≡ false
        → Connected hash pm0 pm1 pm2
        → a.new_dkg (dkg_config l a h peers pm0) ≡ ok m0
        → a.new_dkg (dkg_config l a h peers pm1) ≡ ok m1
        → a.new_dkg (dkg_config l a h peers pm2) ≡ ok m2
        → ends events ≡ 1
        → Gathers (outcomes (call_dkg l a peers h hash s.primary events c pm0 pm1 pm2)) none s
        → s.primary ≡ answered d
        → (r : Calls (Called a.keygen.M DkgOutcome) S) × (self_register_dkg l a discover ticks nodes
              heap peers
              (some h)
              hash
              s.primary
              events
              c
            ≡ ok r)
          × (r.primary ≡ got (a.keygen.get_result (final_keygen l a h m0 events)))
          × (r.node1 ≡ ok (spawned (generating l a h peers m1 (node_id hash 1))))
          × (r.node2 ≡ ok (spawned (generating l a h peers m2 (node_id hash 2))))
          × Listen l a h peers hash r.cluster
    self_register_dkg_finishes {s} {d} free made e0 e1 e2 one r q =
        let fine =
          ap outcomes
            (call_dkg_starts l a h peers hash pm0 pm1 pm2 m1 m2 s.primary events c e1 e2) in
        let go = answered_nil s d (subst (λ os. Gathers os none s) fine r) q in
        let p : s.primary ≡ answered (ok tt) = q ∙ ap answered go in
        let (eq, hears) =
          call_dkg_finishes l a h peers calm hash pm0 pm1 pm2 m0 m1 m2 events c free e0 e1 e2 one in
        (
          whole l a h peers calm hash pm0 pm1 pm2 m0 m1 m2 events c,
          self_register_dkg_over hash pm0 pm1 pm2 s.primary events c made ∙ rw (p, eq) refl,
          refl,
          refl,
          refl,
          hears,
        )

    -- The same calls where alice refuses the configuration of both of the other nodes: there is a schedule
    -- on which the call of the first node goes on without an error all the same, and returns what its own
    -- protocol gives at its end, while the calls of both of the others have failed.
    pub self_register_dkg_may_hide :
        (e1 e2 : Error)
        → Connected hash pm0 pm1 pm2
        → a.new_dkg (dkg_config l a h peers pm0) ≡ ok m0
        → a.new_dkg (dkg_config l a h peers pm1) ≡ err e1
        → a.new_dkg (dkg_config l a h peers pm2) ≡ err e2
        → ends events ≡ 1
        → (s : Gathering) × (r : Calls (Called a.keygen.M DkgOutcome) S) × Gathers
            (outcomes r)
            none
            s
          × (self_register_dkg l a discover ticks nodes heap peers (some h) hash s.primary events c
              ≡ ok r)
          × (r.node1 ≡ err e1)
          × (r.node2 ≡ err e2)
          × (r.primary ≡ got (a.keygen.get_result (final_keygen l a h m0 events)))
    self_register_dkg_may_hide e1 e2 made f0 f1 f2 one =
        let first = first_node l a h peers c in
        let (eq, _) =
          register_dkg_finishes l a h calm peers pm0 (node_id hash 0) m0 events first f0 one in
        let (s, g, q) =
          gather_may_pass (some (node_failed 1 e1) ∷ some (node_failed 2 e2) ∷ []) none in
        let n0 = final_dkg_node l a h (node_id hash 0) m0 events first in
        let r : Calls (Called a.keygen.M DkgOutcome) S = record {
          primary = got (a.keygen.get_result (final_keygen l a h m0 events));
          node1 = err e1;
          node2 = err e2;
          cluster = record {
            first = n0.handlers;
            second = c.second;
            third = c.third;
            store = n0.store;
          };
        } in
        (
          s,
          r,
          g,
          self_register_dkg_over hash pm0 pm1 pm2 s.primary events c made
              ∙ rw
                  (
                    q,
                    register_dkg_refused l a h peers pm1 (node_id hash 1)
                        (record { handlers = c.second; store = c.store }) e1 f1,
                    register_dkg_refused l a h peers pm2 (node_id hash 2)
                        (record { handlers = c.third; store = c.store }) e2 f2,
                    eq,
                  )
                  refl,
          refl,
          refl,
          refl,
        )
