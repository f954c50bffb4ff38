-- ===== src/Server/SelfService/Calls.antt =====
-- server/self_service.go: `RegisterDKG` and `SignMessage`, which run an operation of server/tss.go on all three
-- nodes of this process. The maps of the managers are those at the time of the calls, as discovery has filled
-- them; how the first node waits for the others is Server/SelfService/Gather.antt.
pub mod Dkg
pub mod Laws
pub mod Sign
pub mod Shares
use alice_tss.Base.{
  ℕ, Option, none, some, List, [], ◌∷◌, ◌++◌, Text, Dict, Result, ok, err, panic, Error,
  empty_caller, empty_hash, empty_request, empty_message, node_failed, wrapped, nil_dereference,
}
use alice_tss.Libs.{Libs, DkgOutcome, SignOutcome}
use alice_tss.Codec.BigInt.{decimal}
use alice_tss.Utils.Keys.{to_hex_hash}
use alice_tss.Peer.Manager.{Heap, P2pManager}
use alice_tss.Store.Handler.{HandlerData}
use alice_tss.Service.Node.{Node}
use alice_tss.Service.Lifecycle.{Event}
use alice_tss.Server.Tss.{
  Alice, SignRequest, Called, PeerCall, no_call, not_back, back, sign_message, register_dkg,
}
use alice_tss.Server.SelfService.{create_pm}
use alice_tss.Server.SelfService.Gather.{Primary, selecting, answered}

-- The three hosts, by their stream handlers, and the store that they share.
pub record Cluster (S : Type 0) : Type 0 where
  pub first : Dict Text
  pub second : Dict Text
  pub third : Dict Text
  pub store : S

-- What the calls on the three nodes came to, and how they left the nodes.
pub record Calls (Answer S : Type 0) : Type 0 where
  pub primary : Result Answer
  pub node1 : Result Answer
  pub node2 : Result Answer
  pub cluster : Cluster S

-- `fmt.Sprintf("%s-%d", hash, i)`
abbrev pub node_id : Text → ℕ → Text
node_id hash i = hash ++ b'-' ∷ decimal i

-- The request of one of the nodes.
abbrev pub node_request : SignRequest → ℕ → SignRequest
node_request request i = record request { hash = node_id request.hash i }

-- What `call2peer` of the first node comes to.
abbrev pub call_of_primary : Primary → PeerCall
call_of_primary selecting = not_back
call_of_primary (answered d) = back d

-- The error that a goroutine reports.
abbrev pub outcome_of : {A : Type 0} → ℕ → Result A → Option Error
outcome_of i (ok _) = none
outcome_of i (err e) = some (node_failed i e)
outcome_of i (panic _) = none

-- A panic in a goroutine ends the program.
abbrev unless_panic : {A B : Type 0} → Result A → Result B → Result B
unless_panic (panic x) r = panic x
unless_panic (ok _) r = r
unless_panic (err _) r = r

module _ {Answer S : Type 0} where
  -- The calls of the nodes 1 and 2 and of the first node. Those of the goroutines touch only their own host,
  -- and neither write the store, so that their order among each other is of no account.
  abbrev pub call_nodes :
      (Node S → Result Answer × Node S)
      → (Node S → Result Answer × Node S)
      → (Node S → Result Answer × Node S)
      → Cluster S
      → Calls Answer S
  call_nodes call1 call2 call0 c =
      let (r1, n1) = call1 (record { handlers = c.second; store = c.store }) in
      let (r2, n2) = call2 (record { handlers = c.third; store = n1.store }) in
      let (r0, n0) = call0 (record { handlers = c.first; store = n2.store }) in
      record {
        primary = unless_panic r1 (unless_panic r2 r0);
        node1 = r1;
        node2 = r2;
        cluster = record {
          first = n0.handlers;
          second = n1.handlers;
          third = n2.handlers;
          store = n0.store;
        };
      }

  -- The three managers of `CreatePm`; it returns no other number of them, and none is nil.
  abbrev pub with_managers :
      Result (List (Option P2pManager))
      → (P2pManager → P2pManager → P2pManager → Calls Answer S)
      → Result (Calls Answer S)
  with_managers (ok (some pm0 ∷ some pm1 ∷ some pm2 ∷ [])) f = ok (f pm0 pm1 pm2)
  with_managers (ok _) f = panic nil_dereference
  with_managers (err e) f = err (wrapped e)
  with_managers (panic x) f = panic x

module _ {Host : Type 0} (discover : ℕ → Option Error) (ticks : List (List (Option ℕ)))
    (nodes : List (Option Host × Text)) (heap : Heap) where
  abbrev pub managers : Text → Result (List (Option P2pManager))
  managers protocol_id = (create_pm discover ticks protocol_id nodes heap).0

module _ (l : Libs) (a : Alice) {S : Type 0} (peers : Heap) where
  abbrev pub call_dkg :
      HandlerData S
      → Text
      → Primary
      → List Event
      → Cluster S
      → P2pManager
      → P2pManager
      → P2pManager
      → Calls (Called a.keygen.M DkgOutcome) S
  call_dkg h hash primary events c pm0 pm1 pm2 =
      call_nodes (register_dkg l a h peers pm1 (node_id hash 1) no_call [])
        (register_dkg l a h peers pm2 (node_id hash 2) no_call [])
        (register_dkg l a h peers pm0 (node_id hash 0) (call_of_primary primary) events) c

module _ (l : Libs) (a : Alice) {S : Type 0} where
  abbrev pub call_sign :
      HandlerData S
      → SignRequest
      → Primary
      → List Event
      → Cluster S
      → P2pManager
      → P2pManager
      → P2pManager
      → Calls (Called a.signing.M SignOutcome) S
  call_sign h request primary events c pm0 pm1 pm2 =
      call_nodes (sign_message l a h (node_request request 1) no_call [])
        (sign_message l a h (node_request request 2) no_call [])
        (sign_message l a h (node_request request 0) (call_of_primary primary) events) c

module _ {Host : Type 0} (l : Libs) (a : Alice) {S : Type 0} (discover : ℕ → Option Error)
    (ticks : List (List (Option ℕ))) (nodes : List (Option Host × Text)) (heap peers : Heap) where
  -- `SelfService.RegisterDKG`, with the caller's store.
  unfoldable pub self_register_dkg :
      Option (HandlerData S)
      → Text
      → Primary
      → List Event
      → Cluster S
      → Result (Calls (Called a.keygen.M DkgOutcome) S)
  unfolding create_pm register_dkg
  self_register_dkg none hash primary events c = err empty_caller
  self_register_dkg (some h) [] primary events c = err empty_hash
  self_register_dkg (some h) (x ∷ hash) primary events c =
      with_managers (managers discover ticks nodes heap (x ∷ hash))
        (call_dkg l a peers h (x ∷ hash) primary events c)

  abbrev sign_over :
      HandlerData S
      → SignRequest
      → Text
      → Primary
      → List Event
      → Cluster S
      → Result (Calls (Called a.signing.M SignOutcome) S)
  sign_over h request [] primary events c = err empty_message
  sign_over h request message primary events c =
      with_managers (managers discover ticks nodes heap (to_hex_hash l message))
        (call_sign l a h request primary events c)

  -- `SelfService.SignMessage`, with the caller's store.
  unfoldable pub self_sign_message :
      Option (HandlerData S)
      → Option SignRequest
      → Primary
      → List Event
      → Cluster S
      → Result (Calls (Called a.signing.M SignOutcome) S)
  unfolding create_pm sign_message
  self_sign_message none request primary events c = err empty_caller
  self_sign_message (some h) none primary events c = err empty_request
  self_sign_message (some h) (some request) primary events c =
      sign_over h request request.message primary events c
