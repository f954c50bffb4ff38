-- ===== src/Server/Cluster.antt =====
-- The nodes together: what server/rpc_server.go sends to the peers is answered by the handlers of
-- server/rpc_peer.go on each of them. gorpc finds the handler by the names of its service and method.
pub mod Signing
pub mod Keys
use alice_tss.Base.{
  ℕ, zero, suc, ◌+◌, ◌<◌, ◌≡◌, refl, ◌⊎◌, inl, inr, Option, none, some, List, [], ◌∷◌, Bytes, Text,
  codes, text_eq, Result, Done, ok, err, panic, Error, lib, arith, if◌then◌else◌, Bool, true, false,
  All, text_eq_refl,
}
use alice_tss.Libs.{Libs}
use alice_tss.Peer.Manager.{Heap, P2pManager, peer_ids, target_of}
use alice_tss.Peer.Transport.{AddrInfo}
use alice_tss.Store.Handler.{HandlerData}
use alice_tss.Service.Node.{Node}
use alice_tss.Peer.Transport.Retry.{Fails}
use alice_tss.Server.Requests.{Link, PeerArgs, args_for, msg_to_peer, rpc_to_peer}
use alice_tss.Server.Requests.Laws.{Replies, Refuses, AllReply, replies_of, rpc_to_peer_lem}
use alice_tss.Server.Tss.{Alice}
use alice_tss.Server.Peers.{Formats, peer_sign_message, peer_reshare, peer_register_dkg}

-- A node as its peers find it: its own alice, store and peers.
pub record Colleague (S : Type 0) : Type 1 where
  pub alice : Alice
  pub handler : HandlerData S
  pub formats : Formats
  pub heap : Heap
  pub manager : P2pManager
  pub node : Node S

abbrev pub outcome_only : {A S : Type 0} → Result A × Node S → Done
outcome_only (ok a, n) = ok tt
outcome_only (err e, n) = err e
outcome_only (panic x, n) = panic x

-- What a call of a handler with that outcome returns to the caller: the empty reply where the handler returns no
-- error, and an error, of gorpc's own, where it returns one. Nothing is known where it panics.
abbrev pub Returned : Done → Unit {0} ⊎ Error → Type 0
Returned (ok _) answer = answer ≡ inl tt
Returned (err e) answer = (x : Error) × (answer ≡ inr x)
Returned (panic x) answer = Unit {0}

-- gorpc's `Call`, of an id, a service, a method and the arguments, runs that method of the service that the node of
-- the id has registered, which is `TssPeerService`.
pub record Routed (l : Libs) {S : Type 0} (colleagues : Text → Colleague S)
    (remote : Text → Text → Text → Bytes → Unit {0} ⊎ Error) : Type 0 where
  pub sign_message :
      (id : Text) (payload : Bytes)
      → let x = colleagues id in
        Returned
          (outcome_only (peer_sign_message l x.alice x.handler x.formats payload x.node))
          (remote id (codes "TssPeerService") (codes "SignMessage") payload)
  pub reshare :
      (id : Text) (payload : Bytes)
      → let x = colleagues id in
        Returned
          (outcome_only (peer_reshare l x.alice x.handler x.formats payload x.node))
          (remote id (codes "TssPeerService") (codes "Reshare") payload)
  pub register_dkg :
      (id : Text) (payload : Bytes)
      → let x = colleagues id in
        Returned
          (outcome_only
            (peer_register_dkg l x.alice x.handler x.formats x.heap x.manager payload x.node))
          (remote id (codes "TssPeerService") (codes "RegisterDKG") payload)

-- The peers whose handler has run: those that replied to a call that has come back.
abbrev pub replied : {R : Type 0} → Text → List (Text × R) → Bool
replied k [] = false
replied k ((j, _) ∷ rs) = if text_eq k j then true else replied k rs

abbrev pub ran : {R : Type 0} → Option (List (Text × R)) → Text → Bool
ran none k = false
ran (some rs) k = replied k rs

module _ {R : Type 0} (links : Text → ℕ → Link R) (fuel : ℕ) where
  either_true : (x : Bool) → (if x then true else true) ≡ true
  either_true true = refl
  either_true false = refl

  replied_more :
      (ids : List Text) (j : Text) (r : R) (rs : List (Text × R))
      → All (λ k. replied k rs ≡ true) ids
      → All (λ k. replied k ((j, r) ∷ rs) ≡ true) ids
  replied_more [] j r rs all = tt
  replied_more (k ∷ ids) j r rs all =
      (rw (replied, all.0) (either_true (text_eq k j)), replied_more ids j r rs all.1)

  all_replied :
      (args : Text → PeerArgs) (ids : List Text) (h : AllReply links fuel args ids)
      → All (λ k. replied k (replies_of links fuel args ids h) ≡ true) ids
  all_replied args [] h = tt
  all_replied args (k ∷ ids) h = (
    rw (replied, text_eq_refl k) refl,
    replied_more ids k h.0.reply (replies_of links fuel args ids h.1) (all_replied args ids h.1),
  )

  -- Where each known peer replies to some attempt within the fuel, the handler of each has run.
  pub rpc_to_peer-ran :
      (peers : Heap) (pm : P2pManager) (svc_name svc_method : Text) (payload : Bytes)
      → AllReply links fuel (args_for peers pm svc_name svc_method payload) (peer_ids peers pm)
      → All
          (λ k. ran (rpc_to_peer links peers pm svc_name svc_method payload fuel) k ≡ true)
          (peer_ids peers pm)
  rpc_to_peer-ran peers pm svc_name svc_method payload all =
      rw (rpc_to_peer_lem links fuel peers pm svc_name svc_method payload all)
        (all_replied (args_for peers pm svc_name svc_method payload) (peer_ids peers pm) all)

module _ (parse_addr : Text → Text ⊎ Error) (addr_info : Text → AddrInfo ⊎ Error)
    (dials : Text → ℕ → Option Error) (remote : Text → Text → Text → Bytes → Unit {0} ⊎ Error) where
  -- The attempts at a peer, by their numbers: the connection may fail, and then there is no call.
  abbrev pub links_to : Text → ℕ → Link (Unit {0})
  links_to k i = record {
    parse_addr = parse_addr;
    addr_info = addr_info;
    dial = λ info. dials k i;
    call = remote;
  }

  -- The address that a manager has for a peer is well-formed, and the one of its id.
  pub record Addressed (peers : Heap) (pm : P2pManager) (k : Text) : Type 0 where
    pub multiaddr : Text
    pub info : AddrInfo
    pub parsed : parse_addr (target_of peers pm k) ≡ inl multiaddr
    pub resolved : addr_info multiaddr ≡ inl info
    pub own_id : info.id ≡ k

  -- Some attempt within the fuel connects, and none before.
  pub record Connects (fuel : ℕ) (k : Text) : Type 0 where
    pub first : ℕ
    pub in_time : first < fuel
    pub fails_before : (m : ℕ) → m < first → (e : Error) × (dials k m ≡ some e)
    pub connects : dials k first ≡ none

  module _ (peers : Heap) (pm : P2pManager) (svc_name svc_method k : Text) (payload : Bytes)
      (addressed : Addressed peers pm k) where
    fails_undialled :
        (i : ℕ) (e : Error)
        → dials k i ≡ some e
        → msg_to_peer (links_to k i) (args_for peers pm svc_name svc_method payload k) ≡ inr e
    unfolding msg_to_peer
    fails_undialled i e dialled = rw (addressed.parsed, addressed.resolved, dialled) refl

    answers_dialled :
        (i : ℕ) (r : Unit {0} ⊎ Error)
        → dials k i ≡ none
        → remote k svc_name svc_method payload ≡ r
        → msg_to_peer (links_to k i) (args_for peers pm svc_name svc_method payload k) ≡ r
    unfolding msg_to_peer
    answers_dialled i r dialled handled =
        rw (addressed.parsed, addressed.resolved, dialled, addressed.own_id, handled) refl

    -- A peer that can be reached replies where the call of its handler does.
    pub colleague-Replies :
        (fuel : ℕ)
        → Connects fuel k
        → remote k svc_name svc_method payload ≡ inl tt
        → Replies links_to fuel (args_for peers pm svc_name svc_method payload) k
    colleague-Replies fuel connects handled = record {
      first = connects.first;
      reply = tt;
      in_time = connects.in_time;
      fails_before = λ m lt.
          let (e, dialled) = connects.fails_before m lt in
          let same : 0 + m ≡ m = omega arith in (e, rw same (fails_undialled m e dialled));
      replies =
          let same : 0 + connects.first ≡ connects.first = omega arith in
          rw same (answers_dialled connects.first (inl tt) connects.connects handled);
    }

    refuses_attempt :
        (e : Error) (m : ℕ) (d : Option Error)
        → dials k m ≡ d
        → remote k svc_name svc_method payload ≡ inr e
        → Fails
            (λ i. msg_to_peer (links_to k i) (args_for peers pm svc_name svc_method payload k))
            m
    refuses_attempt e m none dialled handled = (e, answers_dialled m (inr e) dialled handled)
    refuses_attempt e m (some x) dialled handled = (x, fails_undialled m x dialled)

    -- A peer where the call of the handler returns an error refuses each time, whether it can be reached or not.
    pub colleague-Refuses :
        (fuel : ℕ) (e : Error)
        → remote k svc_name svc_method payload ≡ inr e
        → Refuses links_to fuel (args_for peers pm svc_name svc_method payload) k
    colleague-Refuses fuel e handled m = refuses_attempt e m _ refl handled
