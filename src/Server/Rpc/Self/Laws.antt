-- ===== src/Server/Rpc/Self/Laws.antt =====
-- What the handlers over the self service answer.
use alice_tss.Base.{◌≡◌, ◌≢◌, refl, Option, none, some, List, [], Bytes, Text, ℕ, ok, Error, Done}
use alice_tss.Libs.{Libs, DkgOutcome, SignOutcome}
use alice_tss.Json.{Json}
use alice_tss.Utils.Keys.{to_hex_hash, random_hash}
use alice_tss.Peer.Manager.{Heap, P2pManager}
use alice_tss.Store.Backend.{Codec}
use alice_tss.Store.Handler.{HandlerData}
use alice_tss.Service.Dkg.Protocols.{contains_dash-random_hash}
use alice_tss.Service.Signer.{signature_of}
use alice_tss.Service.Lifecycle.{Event, ends}
use alice_tss.Service.Lifecycle.Services.{SaveCalm, SignCalm}
use alice_tss.Server.Tss.{Alice, SignRequest, dkg_config}
use alice_tss.Server.Tss.Laws.{final_keygen, final_signer}
use alice_tss.Server.Rpc.{
  generated, signature, dkg_reply, unmarshal_request_data, read_sign_request,
}
use alice_tss.Server.SelfService.Gather.{Gathering, answered}
use alice_tss.Server.SelfService.Gather.Invariant.{Gathers}
use alice_tss.Server.SelfService.Calls.{Cluster, node_request, call_dkg, call_sign}
use alice_tss.Server.SelfService.Calls.Dkg.{outcomes, Listen}
use alice_tss.Server.SelfService.Calls.Laws.{Connected, self_register_dkg_finishes}
use alice_tss.Server.SelfService.Calls.Sign.{Signs, self_sign_message_finishes}
use alice_tss.Server.Rpc.Self.{rpc_register_self_dkg, rpc_self_sign_message}

module _ {Host : Type 0} (l : Libs) (a : Alice) {S : Type 0} (h : HandlerData S)
    (discover : ℕ → Option Error) (ticks : List (List (Option ℕ)))
    (nodes : List (Option Host × Text)) (heap peers : Heap) where
  -- `RegisterSelfDKG` over a random hash, where the managers are made, alice accepts the configuration of each
  -- of the three nodes, no save of an outcome panics, and the protocol of the first node reports exactly one
  -- end and has a result then: on every schedule on which the wait for the other nodes is over, it answers
  -- with the key of that result and the hash, and all three hosts hand the streams of the protocol of the
  -- hash to their own key generation.
  pub rpc_register_self_dkg_answers :
      (calm : SaveCalm h) (now : Text) (bytes : Option Bytes) (rnd : ℕ) (pm0 pm1 pm2 : P2pManager)
      (m0 m1 m2 : a.keygen.M) (events : List Event) (c : Cluster S) (result : DkgOutcome)
      {s : Gathering} {d : Done}
      → Connected l a h discover ticks nodes heap peers (random_hash l now bytes rnd) pm0 pm1 pm2
      → a.new_dkg (dkg_config l a h peers pm0) ≡ ok m0
      → a.new_dkg (dkg_config l a h peers pm1) ≡ ok m1
      → a.new_dkg (dkg_config l a h peers pm2) ≡ ok m2
      → ends events ≡ 1
      → Gathers
          (outcomes
            (call_dkg l a peers h (random_hash l now bytes rnd) s.primary events c pm0 pm1 pm2))
          none
          s
      → s.primary ≡ answered d
      → a.keygen.get_result (final_keygen l a h m0 events) ≡ some result
      → (c' : Cluster S) × (rpc_register_self_dkg l a h discover ticks heap peers
            (some nodes)
            (random_hash l now bytes rnd)
            s.primary
            events
            c
          ≡ (ok (generated (dkg_reply l (random_hash l now bytes rnd) result)), c'))
        × Listen l a h peers (random_hash l now bytes rnd) c'
  unfolding rpc_register_self_dkg
  rpc_register_self_dkg_answers calm now bytes rnd pm0 pm1 pm2 m0 m1 m2 events c result made e0 e1
        e2 one r q there =
      let (calls, eq, first, _, _, hears) =
        self_register_dkg_finishes l a h discover ticks nodes heap peers calm
          (random_hash l now bytes rnd) pm0 pm1 pm2 m0 m1 m2 events c
          (contains_dash-random_hash l now bytes rnd) made e0 e1 e2 one r q in
      (calls.cluster, rw (eq, first, there) refl, hears)

  -- `SelfSignMessage` for a request that can be read and has a message, where the managers are made, the
  -- store has what each of the three nodes needs for the request, no save of a signature panics, and the
  -- signer of the first node reports exactly one end and has a result then: on every schedule on which the
  -- wait for the other nodes is over, it answers with that signature, under the hash of the message.
  pub rpc_self_sign_message_answers :
      (codec : Codec) (calm : SignCalm h) (value : Json) (request : SignRequest)
      (pm0 pm1 pm2 : P2pManager) (m0 m1 m2 : a.signing.M) (events : List Event) (c : Cluster S)
      (result : SignOutcome) {s : Gathering} {d : Done}
      → unmarshal_request_data codec read_sign_request value ≡ ok request
      → request.message ≢ []
      → Connected l a h discover ticks nodes heap peers (to_hex_hash l request.message) pm0 pm1 pm2
      → Signs l a h c.store (node_request request 0) m0
      → Signs l a h c.store (node_request request 1) m1
      → Signs l a h c.store (node_request request 2) m2
      → ends events ≡ 1
      → Gathers (outcomes (call_sign l a h request s.primary events c pm0 pm1 pm2)) none s
      → s.primary ≡ answered d
      → a.signing.get_result (final_signer l a h m0 events) ≡ some result
      → (rpc_self_sign_message l a h discover ticks heap peers codec
          (some nodes)
          value
          s.primary
          events
          c).0
        ≡ ok (signature (signature_of (to_hex_hash l request.message) result))
  unfolding rpc_self_sign_message
  rpc_self_sign_message_answers codec calm value request pm0 pm1 pm2 m0 m1 m2 events c result read
        full made s0 s1 s2 one r q there =
      let (calls, eq, first, _, _, _, _, _) =
        self_sign_message_finishes l a h discover ticks nodes heap peers calm request pm0 pm1 pm2 m0
          m1 m2 events c full made s0 s1 s2 one r q in
      rw (read, eq, first, there) refl
