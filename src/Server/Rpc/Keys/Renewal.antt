-- ===== src/Server/Rpc/Keys/Renewal.antt =====
-- A key gets a new share and signs on: the handler for a resharing of server/rpc_server.go, the goroutine of
-- service/reshare.go that it starts, and the handler for signing, over store/badger_handler.go.
use alice_tss.Base.{ℕ, ◌≡◌, refl, false, none, Bytes, Text, codes, ok, arith}
use alice_tss.Libs.{Libs, LibLaws, PrivateKey, DkgOutcome}
use alice_tss.Json.{Json, str, obj, field, end, IsPlain, IsAscii}
use alice_tss.Codec.Hex.{hex_encode-IsAscii}
use alice_tss.Utils.Convert.{convert_dkg_result_lem}
use alice_tss.Peer.Manager.{Heap, P2pManager, get_protocol, clone_peer_manager, peer_ids}
use alice_tss.Store.Backend.{Codec, CodecLaws, Badger, BadgerLaws}
use alice_tss.Store.Badger.{pubkey_text}
use alice_tss.Store.Badger.RoundTrip.{IsOutcome, signer_config_of}
use alice_tss.Store.Badger.Refine.{Holds, get_signer_config-Holds}
use alice_tss.Store.Badger.Steady.{Steady}
use alice_tss.Store.Handler.{badger_handler}
use alice_tss.Service.Node.{Service, Node, set_stream_handler}
use alice_tss.Service.Reshare.{new_reshare_service}
use alice_tss.Server.Requests.{Link, args_for}
use alice_tss.Server.Requests.Laws.{AllReply, rpc_to_peer_lem}
use alice_tss.Server.Tss.{Alice, reshare, reshare_config, new_reshare_of}
use alice_tss.Server.Rpc.{
  waiting, sent, reshared, unmarshal_request_data, read_reshare_request, rpc_reshare,
}

-- What a client sends to reshare the key of a hash and a public key.
abbrev pub reshare_json : Text → Text → Json
reshare_json hash pubkey =
    obj (field (codes "hash") (str hash) (field (codes "pubkey") (str pubkey) end))

module _ (l : Libs) (laws : LibLaws l) (c : Codec) (codec : CodecLaws c) (b : Badger c.Doc)
    (badger : BadgerLaws b) (key : PrivateKey) (steady : Steady c b) (a : Alice) where
  pub reshare_json-IsPlain :
      (hash : Text) (d : DkgOutcome) → IsAscii hash → IsPlain (reshare_json hash (pubkey_text l d))
  unfolding IsPlain
  reshare_json-IsPlain hash d h = (
    omega arith,
    h,
    (
      omega arith,
      hex_encode-IsAscii _ (laws.compress_pubkey-IsBytes d.public_key.x d.public_key.y),
      tt,
    ),
  )

  asked :
      (hash : Text) (d : DkgOutcome)
      → IsPlain (reshare_json hash (pubkey_text l d))
      → unmarshal_request_data c read_reshare_request (reshare_json hash (pubkey_text l d))
        ≡ ok (record { hash = hash; pubkey = pubkey_text l d })
  unfolding unmarshal_request_data read_reshare_request
  asked hash d plain = rw (codec.marshal_lem _ plain, codec.unmarshal_lem _ plain) refl

  -- The service of a resharing that alice makes for an outcome.
  abbrev pub renewing : Text → a.resharing.M → Service a.resharing.M
  renewing hash m = record { machine = m; hash = hash; done_closed = false }

  pub new_reshare_of_lem :
      (hash : Text) (d : DkgOutcome) (m : a.resharing.M) (n : Node b.Db)
      → IsOutcome d
      → l.new_ec_point d.public_key.x d.public_key.y ≡ ok d.public_key
      → a.new_reshare (reshare_config l a (badger_handler l c b key) (signer_config_of d)) d ≡ ok m
      → new_reshare_of l a (badger_handler l c b key) (signer_config_of d) hash n
        ≡ ok (renewing hash m, set_stream_handler (get_protocol hash) hash n)
  unfolding new_reshare_service
  new_reshare_of_lem hash d m n outcome curve made =
      rw (convert_dkg_result_lem l d outcome.keys curve, made) refl

  module _ {R : Type 0} (links : Text → ℕ → Link R) (text_of : c.Doc → Bytes) (peers : Heap)
      (pm : P2pManager) (fuel : ℕ) where
    -- The handler starts the service of the hash.
    pub rpc_reshare_lem :
        (hash : Text) (ascii : IsAscii hash) (d : DkgOutcome) (m : a.resharing.M) (n : Node b.Db)
        → Holds l laws c codec b badger key n.store hash d
        → l.new_ec_point d.public_key.x d.public_key.y ≡ ok d.public_key
        → AllReply links fuel
            (args_for peers
              (clone_peer_manager pm (get_protocol hash))
              (codes "TssPeerService")
              (codes "Reshare")
              (text_of (codec.text _ (reshare_json-IsPlain hash d ascii))))
            (peer_ids peers (clone_peer_manager pm (get_protocol hash)))
        → a.new_reshare (reshare_config l a (badger_handler l c b key) (signer_config_of d)) d
          ≡ ok m
        → rpc_reshare l a c
            (badger_handler l c b key)
            links
            text_of
            peers
            pm
            fuel
            (reshare_json hash (pubkey_text l d))
            n
          ≡ (ok (reshared hash), set_stream_handler (get_protocol hash) hash n)
    unfolding rpc_reshare reshare
    rpc_reshare_lem hash ascii d m n h curve replies made =
        let plain = reshare_json-IsPlain hash d ascii in
        rw
          (
            asked hash d plain,
            codec.marshal_lem _ plain,
            rpc_to_peer_lem links fuel peers (clone_peer_manager pm (get_protocol hash))
                (codes "TssPeerService") (codes "Reshare") (text_of (codec.text _ plain)) replies,
            get_signer_config-Holds l laws c codec b badger key n.store hash d h,
            new_reshare_of_lem hash d m n h.outcome curve made,
          )
          refl

    -- Over a network on which the call to the peers does not come back, the handler waits.
    pub rpc_reshare_waits :
        (hash : Text) (ascii : IsAscii hash) (d : DkgOutcome) (m : a.resharing.M) (n : Node b.Db)
        → Holds l laws c codec b badger key n.store hash d
        → l.new_ec_point d.public_key.x d.public_key.y ≡ ok d.public_key
        → sent l a c
            (badger_handler l c b key)
            links
            text_of
            peers
            pm
            fuel
            hash
            (codes "Reshare")
            (text_of (codec.text _ (reshare_json-IsPlain hash d ascii)))
          ≡ none
        → a.new_reshare (reshare_config l a (badger_handler l c b key) (signer_config_of d)) d
          ≡ ok m
        → (rpc_reshare l a c
            (badger_handler l c b key)
            links
            text_of
            peers
            pm
            fuel
            (reshare_json hash (pubkey_text l d))
            n).0
          ≡ ok waiting
    unfolding rpc_reshare reshare
    rpc_reshare_waits hash ascii d m n h curve silent made =
        let plain = reshare_json-IsPlain hash d ascii in
        rw
          (
            asked hash d plain,
            codec.marshal_lem _ plain,
            silent,
            get_signer_config-Holds l laws c codec b badger key n.store hash d h,
            new_reshare_of_lem hash d m n h.outcome curve made,
          )
          refl
