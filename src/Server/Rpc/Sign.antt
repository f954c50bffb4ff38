-- ===== src/Server/Rpc/Sign.antt =====
-- A client's request to sign, from the handler of server/rpc_server.go through the peers to the protocol.
use alice_tss.Base.{
  ℕ, ◌≡◌, refl, Option, none, some, List, Bytes, Text, codes, lookup, lookup-insert, text_eq_refl,
  ◌∙◌, Result, ok, err, lib,
}
use alice_tss.Types.{SignerConfig}
use alice_tss.Libs.{Libs, SignOutcome}
use alice_tss.Json.{Json}
use alice_tss.Utils.Keys.{to_hex_hash}
use alice_tss.Peer.Manager.{Heap, P2pManager, get_protocol, clone_peer_manager, peer_ids}
use alice_tss.Store.Backend.{Codec}
use alice_tss.Store.Handler.{HandlerData}
use alice_tss.Service.Node.{Node}
use alice_tss.Service.Signer.{signature_of}
use alice_tss.Service.Lifecycle.{Event, ends}
use alice_tss.Service.Lifecycle.Services.{SignCalm}
use alice_tss.Server.Requests.{Link, args_for}
use alice_tss.Server.Requests.Laws.{AllReply, rpc_to_peer_lem, SomeRefuses, rpc_to_peer_stuck}
use alice_tss.Server.Tss.{Alice, SignRequest, got, sign_message}
use alice_tss.Server.Tss.Laws.{
  signer_for, listening, new_signer_service_lem, final_signer, final_node, sign_message_finishes,
}
use alice_tss.Server.Rpc.{
  Reply, sent, signature, waiting, unmarshal_request_data, read_sign_request, rpc_sign_message,
  replying, signed,
}

-- The signature in hexadecimal beside the hash of the message, or the error of a protocol without a result.
abbrev pub signature_answer : Text → Option SignOutcome → Result Reply
signature_answer hash none = err (lib 30)
signature_answer hash (some r) = ok (signature (signature_of hash r))

replying-got :
    (M : Type 0) {S : Type 0} (hash : Text) (o : Option SignOutcome) (n : Node S)
    → replying (signed {M = M} hash) (got o, n) ≡ (signature_answer hash o, n)
replying-got M hash none n = refl
replying-got M hash (some r) n = refl

module _ (l : Libs) (a : Alice) (c : Codec) {S : Type 0} (h : HandlerData S) (calm : SignCalm h)
    {R : Type 0} (links : Text → ℕ → Link R) (text_of : c.Doc → Bytes) (peers : Heap)
    (pm : P2pManager) (fuel : ℕ) where
  -- A request that can be read and written again, for a configuration that is stored and makes a signer:
  -- where every known peer replies to some attempt within the fuel, no save of a signature panics and the
  -- protocol reports exactly one end, the client gets the signature of the protocol that has taken in all
  -- messages and was stopped, in hexadecimal and with the hash of the message, or an error where that has no
  -- result; and the host has no stream handler left for the message.
  pub rpc_sign_message_answers :
      (value : Json) (events : List Event) (n : Node S) (request : SignRequest) (doc : c.Doc)
      (cfg : SignerConfig) (m : a.signing.M)
      → unmarshal_request_data c read_sign_request value ≡ ok request
      → c.marshal value ≡ ok doc
      → h.get_signer_config n.store request.hash request.pubkey ≡ ok cfg
      → signer_for l a h request cfg ≡ ok m
      → AllReply links fuel
          (args_for peers
            (clone_peer_manager pm (get_protocol (to_hex_hash l request.message)))
            (codes "TssPeerService")
            (codes "SignMessage")
            (text_of doc))
          (peer_ids peers (clone_peer_manager pm (get_protocol (to_hex_hash l request.message))))
      → ends events ≡ 1
      → (rpc_sign_message l a c h links text_of peers pm fuel value events n ≡ (
        signature_answer
            (to_hex_hash l request.message)
            (a.signing.get_result (final_signer l a h m events)),
        final_node l a h request m events n,
      ))
        × (lookup
              (get_protocol (to_hex_hash l request.message))
              (final_node l a h request m events n).handlers
            ≡ none)
  unfolding rpc_sign_message
  rpc_sign_message_answers value events n request doc cfg m asked written there made replies one =
      let hash = to_hex_hash l request.message in
      let (eq, removed) = sign_message_finishes l a h calm request cfg m events n there made one in
      (
        rw
            (
              asked,
              written,
              rpc_to_peer_lem links fuel peers (clone_peer_manager pm (get_protocol hash))
                  (codes "TssPeerService") (codes "SignMessage") (text_of doc) replies,
              eq,
            )
            (replying-got a.signing.M hash (a.signing.get_result (final_signer l a h m events))
              (final_node l a h request m events n)),
        removed,
      )

  -- A request that can be read and written again, for a configuration that is stored and makes a signer,
  -- where one of the known peers fails at every attempt to reach it or refuses the request each time, as a
  -- peer without the key does: whatever the fuel and the course of the protocol, the client gets no answer,
  -- nothing is stored, and the host keeps the stream handler for the message.
  pub rpc_sign_message_stuck :
      (value : Json) (events : List Event) (n : Node S) (request : SignRequest) (doc : c.Doc)
      (cfg : SignerConfig) (m : a.signing.M)
      → unmarshal_request_data c read_sign_request value ≡ ok request
      → c.marshal value ≡ ok doc
      → h.get_signer_config n.store request.hash request.pubkey ≡ ok cfg
      → signer_for l a h request cfg ≡ ok m
      → SomeRefuses links fuel
          (args_for peers
            (clone_peer_manager pm (get_protocol (to_hex_hash l request.message)))
            (codes "TssPeerService")
            (codes "SignMessage")
            (text_of doc))
          (peer_ids peers (clone_peer_manager pm (get_protocol (to_hex_hash l request.message))))
      → (n' : Node S) × (rpc_sign_message l a c h links text_of peers pm fuel value events n
          ≡ (ok waiting, n'))
        × (n'.store ≡ n.store)
        × (lookup (get_protocol (to_hex_hash l request.message)) n'.handlers
            ≡ some (to_hex_hash l request.message))
  unfolding rpc_sign_message sign_message
  rpc_sign_message_stuck value events n request doc cfg m asked written there made refused =
      let hash = to_hex_hash l request.message in
      (
        listening l a h request n,
        rw
            (
              asked,
              written,
              rpc_to_peer_stuck links fuel peers (clone_peer_manager pm (get_protocol hash))
                  (codes "TssPeerService") (codes "SignMessage") (text_of doc) refused,
              there,
              new_signer_service_lem l a h request cfg m n made,
            )
            refl,
        refl,
        lookup-insert (get_protocol hash) (get_protocol hash) hash n.handlers
            ∙ rw (text_eq_refl (get_protocol hash)) refl,
      )

  -- Over a network on which the call to the peers does not come back, the handler waits.
  pub rpc_sign_message_waits :
      (value : Json) (events : List Event) (n : Node S) (request : SignRequest) (doc : c.Doc)
      (cfg : SignerConfig) (m : a.signing.M)
      → unmarshal_request_data c read_sign_request value ≡ ok request
      → c.marshal value ≡ ok doc
      → h.get_signer_config n.store request.hash request.pubkey ≡ ok cfg
      → signer_for l a h request cfg ≡ ok m
      → sent l a c h links text_of peers pm fuel
          (to_hex_hash l request.message)
          (codes "SignMessage")
          (text_of doc)
        ≡ none
      → rpc_sign_message l a c h links text_of peers pm fuel value events n
        ≡ (ok waiting, listening l a h request n)
  unfolding rpc_sign_message sign_message
  rpc_sign_message_waits value events n request doc cfg m asked written there made silent =
      rw (asked, written, silent, there, new_signer_service_lem l a h request cfg m n made) refl
