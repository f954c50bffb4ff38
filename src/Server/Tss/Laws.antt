-- ===== src/Server/Tss/Laws.antt =====
-- What the operations of server/tss.go come to.
use alice_tss.Base.{
  ◌≡◌, refl, false, none, some, List, Text, lookup, lookup-insert, text_eq_refl, Result, ok, err,
  panic, ◌>>=◌, Error,
}
use alice_tss.Types.{SignerConfig}
use alice_tss.Libs.{Libs}
use alice_tss.Peer.Manager.{Heap, P2pManager, get_protocol, num_peers}
use alice_tss.Utils.Keys.{to_hex_hash}
use alice_tss.Store.Handler.{HandlerData}
use alice_tss.Service.Node.{next, Service, Node, set_stream_handler}
use alice_tss.Service.Dkg.{stream_protocol, new_dkg_service}
use alice_tss.Service.Signer.{create_signer, new_signer_service}
use alice_tss.Service.Lifecycle.{machine_after, node_after, Event, ends}
use alice_tss.Service.Lifecycle.Services.{SaveCalm, SignCalm}
use alice_tss.Service.Lifecycle.Signers.{signer_leaves, signer_process_returns}
use alice_tss.Service.Lifecycle.Dkgs.{dkg_leaves, dkg_process_returns}
use alice_tss.Server.Tss.{Alice, SignRequest, PeerCall, back, got, sign_message, register_dkg}

module _ (l : Libs) (a : Alice) {S : Type 0} (h : HandlerData S) where
  -- The signer that the store's configuration gives.
  abbrev pub signer_for : SignRequest → SignerConfig → Result a.signing.M
  signer_for request cfg =
      create_signer l a.signing h a.new_paillier a.new_signer cfg request.message

  abbrev pub hash_of : SignRequest → Text
  hash_of request = to_hex_hash l request.message

  -- The service of a new signer, and the node with its stream handler.
  abbrev pub started : SignRequest → a.signing.M → Service a.signing.M
  started request m = record { machine = m; hash = hash_of request; done_closed = false }

  abbrev pub listening : SignRequest → Node S → Node S
  listening request n = set_stream_handler (get_protocol (hash_of request)) (hash_of request) n

  pub new_signer_service_lem :
      (request : SignRequest) (cfg : SignerConfig) (m : a.signing.M) (n : Node S)
      → signer_for request cfg ≡ ok m
      → new_signer_service l a.signing h a.new_paillier a.new_signer cfg request.message n
        ≡ ok (started request m, listening request n)
  unfolding new_signer_service
  new_signer_service_lem request cfg m n e = rw e

  -- What the protocol of a request has become at the end, and what it left of the node.
  abbrev pub final_signer : a.signing.M → List Event → a.signing.M
  final_signer m events = a.signing.stop (machine_after (next a.signing) events (a.signing.start m))

  abbrev pub final_node : SignRequest → a.signing.M → List Event → Node S → Node S
  final_node request m events n =
      node_after (signer_leaves l a.signing h) (next a.signing) events (a.signing.start m)
        (hash_of request) (listening request n)

  -- Where the store has the configuration and gives a signer, the other peers answer without an error, no
  -- write of the store panics and the protocol reports exactly one end: the call returns the result of the
  -- protocol that has taken in all messages and was stopped, or an error where that has none; and the host
  -- no longer has a stream handler for the message.
  pub sign_message_finishes :
      (calm : SignCalm h) (request : SignRequest) (cfg : SignerConfig) (m : a.signing.M)
      (events : List Event) (n : Node S)
      → h.get_signer_config n.store request.hash request.pubkey ≡ ok cfg
      → signer_for request cfg ≡ ok m
      → ends events ≡ 1
      → (sign_message l a h request (back (ok tt)) events n
          ≡ (got (a.signing.get_result (final_signer m events)), final_node request m events n))
        × (lookup (get_protocol (hash_of request)) (final_node request m events n).handlers ≡ none)
  unfolding sign_message
  sign_message_finishes calm request cfg m events n there made one =
      let (eq, removed) =
        signer_process_returns l a.signing h calm events (started request m) (listening request n)
          refl one in
      (rw (there, new_signer_service_lem request cfg m n made, eq) refl, removed)

  -- Where the store has the configuration and gives a signer, and the call to the other peers fails:
  -- its error is returned, the store is as it was, and the stream handler that was set for the
  -- message stays.
  pub sign_message_peer_fails :
      (request : SignRequest) (cfg : SignerConfig) (m : a.signing.M) (events : List Event)
      (n : Node S) (e : Error)
      → h.get_signer_config n.store request.hash request.pubkey ≡ ok cfg
      → signer_for request cfg ≡ ok m
      → (n' : Node S) × (sign_message l a h request (back (err e)) events n ≡ (err e, n'))
        × (n'.store ≡ n.store)
        × (lookup (get_protocol (hash_of request)) n'.handlers ≡ some (hash_of request))
  unfolding sign_message
  sign_message_peer_fails request cfg m events n e there made = (
    listening request n,
    rw (there, new_signer_service_lem request cfg m n made) refl,
    refl,
    rw (
      lookup-insert (get_protocol (hash_of request)) (get_protocol (hash_of request))
          (hash_of request) n.handlers,
      text_eq_refl (get_protocol (hash_of request)),
    ),
  )

  refused_by :
      (request : SignRequest) (call2peer : PeerCall) (events : List Event) (n : Node S) (e : Error)
      (cfg : Result SignerConfig)
      → h.get_signer_config n.store request.hash request.pubkey ≡ cfg
      → (cfg >>= signer_for request) ≡ err e
      → sign_message l a h request call2peer events n ≡ (err e, n)
  unfolding sign_message new_signer_service
  refused_by request call2peer events n e (ok cfg) there refused = rw (there, refused) refl
  refused_by request call2peer events n e (err x) there refused =
      let same : x ≡ e = cc in rw (there, same) refl
  refused_by request call2peer events n e (panic x) there refused = cc

  -- An error of the store, of the conversion of what is stored, of Paillier or of alice is returned,
  -- with the node as it was, whatever the call to the peers would come to.
  pub sign_message_refused :
      (request : SignRequest) (call2peer : PeerCall) (events : List Event) (n : Node S) (e : Error)
      → (h.get_signer_config n.store request.hash request.pubkey >>= signer_for request) ≡ err e
      → sign_message l a h request call2peer events n ≡ (err e, n)
  sign_message_refused request call2peer events n e refused =
      refused_by request call2peer events n e _ refl refused

  -- The protocol of a key generation at the end, and what it left of the node.
  abbrev pub final_keygen : a.keygen.M → List Event → a.keygen.M
  final_keygen m events = a.keygen.stop (machine_after (next a.keygen) events (a.keygen.start m))

  abbrev pub final_dkg_node : Text → a.keygen.M → List Event → Node S → Node S
  final_dkg_node hash m events n =
      node_after (dkg_leaves a.keygen h) (next a.keygen) events (a.keygen.start m) hash
        (set_stream_handler (stream_protocol hash) hash n)

  -- A key generation over the known peers: where alice accepts rank 0 and the number of those peers as the
  -- threshold, the others answer without an error, no save of an outcome panics and the protocol reports
  -- exactly one end, the call returns the result of the protocol that has taken in all messages and was
  -- stopped, or an error where that has none; the stream handler that it set is still there.
  pub register_dkg_finishes :
      (calm : SaveCalm h) (peers : Heap) (pm : P2pManager) (hash : Text) (m : a.keygen.M)
      (events : List Event) (n : Node S)
      → a.new_dkg (record { rank = 0; threshold = num_peers peers pm }) ≡ ok m
      → ends events ≡ 1
      → (register_dkg l a h peers pm hash (back (ok tt)) events n
          ≡ (got (a.keygen.get_result (final_keygen m events)), final_dkg_node hash m events n))
        × (lookup (stream_protocol hash) (final_dkg_node hash m events n).handlers ≡ some hash)
  unfolding register_dkg new_dkg_service
  register_dkg_finishes calm peers pm hash m events n made one =
      let p : Service a.keygen.M = record { machine = m; hash = hash; done_closed = false } in
      let (eq, left) =
        dkg_process_returns a.keygen h calm events p
          (set_stream_handler (stream_protocol hash) hash n) refl one in
      (
        rw (made, eq) refl,
        rw (
          left,
          lookup-insert (stream_protocol hash) (stream_protocol hash) hash n.handlers,
          text_eq_refl (stream_protocol hash),
        ),
      )
