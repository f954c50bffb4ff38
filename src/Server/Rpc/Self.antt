-- ===== src/Server/Rpc/Self.antt =====
-- server/rpc_server.go: the handlers that go to the self service.
pub mod Laws
use alice_tss.Base.{
  ℕ, Option, none, some, List, Text, Result, ok, err, panic, Error, self_service_unavailable,
}
use alice_tss.Libs.{Libs}
use alice_tss.Json.{Json}
use alice_tss.Utils.Keys.{to_hex_hash}
use alice_tss.Peer.Manager.{Heap}
use alice_tss.Store.Backend.{Codec}
use alice_tss.Store.Handler.{HandlerData}
use alice_tss.Service.Lifecycle.{Event}
use alice_tss.Server.Tss.{Alice}
use alice_tss.Server.Rpc.{Reply, read_sign_request, unmarshal_request_data, signed, registered}
use alice_tss.Server.SelfService.Gather.{Primary}
use alice_tss.Server.SelfService.Calls.{Cluster, Calls, self_register_dkg, self_sign_message}

-- The answer for a result.
abbrev pub answer : {A : Type 0} → (A → Reply) → Result A → Result Reply
answer f (ok r) = ok (f r)
answer f (err e) = err e
answer f (panic x) = panic x

-- The answer for the call of the first node, and the nodes as the calls leave them.
abbrev pub answering :
    {A S : Type 0} → (A → Reply) → Result (Calls A S) → Cluster S → Result Reply × Cluster S
answering f (ok r) c = (answer f r.primary, r.cluster)
answering f (err e) c = (err e, c)
answering f (panic x) c = (panic x, c)

-- Go on with the request that was read.
abbrev over_request :
    {A S : Type 0}
    → Result A
    → Cluster S
    → (A → Result Reply × Cluster S)
    → Result Reply × Cluster S
over_request (ok request) c f = f request
over_request (err e) c f = (err e, c)
over_request (panic x) c f = (panic x, c)

module _ {Host : Type 0} (l : Libs) (a : Alice) {S : Type 0} (h : HandlerData S)
    (discover : ℕ → Option Error) (ticks : List (List (Option ℕ))) (heap peers : Heap) where
  -- `RpcService.RegisterSelfDKG`, over the random hash and the hosts of the self service, if there is one.
  unfoldable pub rpc_register_self_dkg :
      Option (List (Option Host × Text))
      → Text
      → Primary
      → List Event
      → Cluster S
      → Result Reply × Cluster S
  unfolding self_register_dkg
  rpc_register_self_dkg none hash primary events c = (err self_service_unavailable, c)
  rpc_register_self_dkg (some nodes) hash primary events c =
      answering (registered l hash)
        (self_register_dkg l a discover ticks nodes heap peers (some h) hash primary events c) c

  module _ (codec : Codec) where
    -- `RpcService.SelfSignMessage`
    unfoldable pub rpc_self_sign_message :
        Option (List (Option Host × Text))
        → Json
        → Primary
        → List Event
        → Cluster S
        → Result Reply × Cluster S
    unfolding self_sign_message
    rpc_self_sign_message none value primary events c = (err self_service_unavailable, c)
    rpc_self_sign_message (some nodes) value primary events c =
        over_request (unmarshal_request_data codec read_sign_request value) c (λ request.
          answering (signed (to_hex_hash l request.message))
            (self_sign_message l a discover ticks nodes heap peers (some h) (some request) primary
              events c)
            c)
