-- ===== src/Server/Cluster/Keys/Holders.antt =====
-- The nodes that hold a key in their stores sign with it: server/rpc_server.go on one of them, and
-- server/rpc_peer.go on the others.
use alice_tss.Base.{
  ℕ, ◌≡◌, refl, ◌∙◌, sym, subst, ◌⊎◌, Option, none, List, [], ◌∷◌, All, Bytes, Text, lookup, ok,
  Error,
}
use alice_tss.Libs.{Libs, LibLaws, PrivateKey, Point, DkgOutcome}
use alice_tss.Codec.Hex.{hex_encode}
use alice_tss.Json.{IsAscii, IsPlain}
use alice_tss.Utils.Keys.{to_hex_hash}
use alice_tss.Peer.Manager.{Heap, P2pManager, get_protocol, peer_ids, clone_peer_manager}
use alice_tss.Peer.Transport.{AddrInfo}
use alice_tss.Store.Backend.{Codec, CodecLaws, Badger, BadgerLaws}
use alice_tss.Store.Badger.{pubkey_text}
use alice_tss.Store.Badger.RoundTrip.{signer_config_of}
use alice_tss.Store.Badger.Refine.{Holds, get_signer_config-Holds}
use alice_tss.Store.Badger.Steady.{Steady, sign_steady}
use alice_tss.Store.Handler.{badger_handler}
use alice_tss.Service.Node.{Node}
use alice_tss.Service.Lifecycle.{Event, ends}
use alice_tss.Server.Tss.{Alice, SignRequest}
use alice_tss.Server.Tss.Laws.{final_signer, final_node}
use alice_tss.Server.Rpc.{rpc_sign_message}
use alice_tss.Server.Rpc.Sign.{signature_answer}
use alice_tss.Server.Rpc.Keys.{sign_json, sign_json-IsPlain, asked, signer_on, signer_for-Holds}
use alice_tss.Server.Cluster.{Colleague, Routed, links_to, Addressed, Connects}
use alice_tss.Server.Cluster.Signing.{Listens, CanSign, Signs, signs_together}
use alice_tss.Server.Cluster.Keys.{Fellow, as_colleague}

-- The manager of the service of a hash, which knows the same peers.
abbrev pub manager_of : P2pManager → Text → P2pManager
manager_of pm h = clone_peer_manager pm (get_protocol h)

pub same_ids :
    (peers : Heap) (pm : P2pManager) (h : Text)
    → peer_ids peers pm ≡ peer_ids peers (manager_of pm h)
unfolding peer_ids clone_peer_manager
same_ids peers pm h = refl

module _ (l : Libs) (laws : LibLaws l) (c : Codec) (codec : CodecLaws c) (b : Badger c.Doc)
    (badger : BadgerLaws b) (steady : Steady c b) (a : Alice) (key : PrivateKey)
    (parse_addr : Text → Text ⊎ Error) (addr_info : Text → AddrInfo ⊎ Error)
    (text_of : c.Doc → Bytes) (peers : Heap) (pm : P2pManager) (fuel : ℕ) (hash : Text)
    (fellows : Text → Fellow l laws c codec b badger steady) (outcome : Text → DkgOutcome) where
  abbrev pub colleagues : Text → Colleague b.Db
  colleagues k = as_colleague l laws c codec b badger steady (fellows k)

  abbrev pub HoldsIt : Text → Type 0
  HoldsIt k = Holds l laws c codec b badger (fellows k).key (fellows k).node.store hash (outcome k)

  module _ (ascii : IsAscii hash) (d : DkgOutcome) (message : Text) (readable : IsAscii message)
      (curve : l.new_ec_point d.public_key.x d.public_key.y ≡ ok d.public_key) where
    abbrev pub plain : IsPlain (sign_json hash (pubkey_text l d) message)
    plain = sign_json-IsPlain l laws c codec b badger key steady a hash d message ascii readable

    abbrev pub payload : Bytes
    payload = text_of (codec.text _ plain)

    abbrev pub request : SignRequest
    request = record { hash = hash; pubkey = pubkey_text l d; message = message }

    abbrev message_hash : Text
    message_hash = to_hex_hash l message

    module _ (dials : Text → ℕ → Option Error)
        (remote : Text → Text → Text → Bytes → Unit {0} ⊎ Error) where
      -- The peer can be reached, has an outcome with the same public key, reads the request to sign with it, and
      -- alice makes a signer on the peer's own share.
      pub record Helps (k : Text) : Type 0 where
        pub addressed :
            Addressed parse_addr addr_info dials remote peers (manager_of pm message_hash) k
        pub connects : Connects parse_addr addr_info dials remote fuel k
        pub same_key : (outcome k).public_key ≡ d.public_key
        pub read : (fellows k).formats.sign_json payload ≡ ok request
        pub signer : (fellows k).alice.signing.M
        pub signer_made :
            signer_on l laws c codec b badger
              (fellows k).key
              steady
              (fellows k).alice
              (outcome k)
              message
            ≡ ok signer

      can_sign : (k : Text) → HoldsIt k → Helps k → CanSign l colleagues request payload k
      can_sign k h x =
          let out = outcome k in
          let on_curve : l.new_ec_point out.public_key.x out.public_key.y ≡ ok out.public_key =
            subst (λ (q : Point). l.new_ec_point q.x q.y ≡ ok q) (sym x.same_key) curve in
          record {
            config = signer_config_of out;
            signer = x.signer;
            read = x.read;
            config_there =
                subst
                  (λ (q : Point).
                    (colleagues k).handler.get_signer_config (colleagues k).node.store hash
                      (hex_encode (l.compress_pubkey q.x q.y))
                    ≡ ok (signer_config_of out))
                  x.same_key
                  (get_signer_config-Holds l laws c codec b badger (fellows k).key
                    (fellows k).node.store hash out h);
            signer_made =
                signer_for-Holds l laws c codec b badger (fellows k).key steady (fellows k).alice
                  hash out message h.outcome on_curve
                ∙ x.signer_made;
          }

      helpers_sign :
          (ids : List Text) (routed : Routed l colleagues remote)
          → All HoldsIt ids
          → All Helps ids
          → All
              (Signs l a c
                (badger_handler l c b key)
                (sign_steady l laws c codec b badger key steady)
                colleagues
                parse_addr
                addr_info
                dials
                remote
                routed
                text_of
                peers
                pm
                fuel
                request
                payload)
              ids
      helpers_sign [] routed held helps = tt
      helpers_sign (k ∷ ids) routed held helps = (
        (helps.0.addressed, helps.0.connects, can_sign k held.0 helps.0),
        helpers_sign ids routed held.1 helps.1,
      )

      -- The peer's handler has run in the call of the client's handler, and hands its signer the streams.
      abbrev pub Hears : Routed l colleagues remote → Text → Type 0
      Hears routed =
          Listens l a c (badger_handler l c b key) (sign_steady l laws c codec b badger key steady)
            colleagues parse_addr addr_info dials remote routed text_of peers pm fuel request
            payload

      -- Each peer makes a signer for the message, and the client of a node that holds the key as well gets the
      -- signature of the node's signer.
      pub holders_sign :
          (events : List Event) (n : Node b.Db) (signer : a.signing.M)
          (routed : Routed l colleagues remote)
          → All HoldsIt (peer_ids peers pm)
          → All Helps (peer_ids peers pm)
          → Holds l laws c codec b badger key n.store hash d
          → signer_on l laws c codec b badger key steady a d message ≡ ok signer
          → ends events ≡ 1
          → All (Hears routed) (peer_ids peers pm)
            × (rpc_sign_message l a c
                  (badger_handler l c b key)
                  (links_to parse_addr addr_info dials remote)
                  text_of
                  peers
                  pm
                  fuel
                  (sign_json hash (pubkey_text l d) message)
                  events
                  n
                ≡ (
                  signature_answer message_hash (
                      a.signing.get_result
                        (final_signer l a (badger_handler l c b key) signer events)),
                  final_node l a (badger_handler l c b key) request signer events n,
                ))
            × (lookup
                  (get_protocol message_hash)
                  (final_node l a (badger_handler l c b key) request signer events n).handlers
                ≡ none)
      holders_sign events n signer routed held helps there signs one =
          let (listen, signed, gone) =
            signs_together l a c (badger_handler l c b key)
              (sign_steady l laws c codec b badger key steady) colleagues parse_addr addr_info dials
              remote routed text_of peers pm fuel (sign_json hash (pubkey_text l d) message) events
              n request (codec.text _ plain) (signer_config_of d) signer
              (asked l laws c codec b badger key steady a hash d message plain)
              (codec.marshal_lem _ plain)
              (get_signer_config-Holds l laws c codec b badger key n.store hash d there)
              (signer_for-Holds l laws c codec b badger key steady a hash d message there.outcome
                  curve
                ∙ signs)
              (helpers_sign (peer_ids peers (manager_of pm message_hash)) routed
                (subst (λ ids. All HoldsIt ids) (same_ids peers pm message_hash) held)
                (subst (λ ids. All Helps ids) (same_ids peers pm message_hash) helps))
              one in
          (
            subst (λ ids. All (Hears routed) ids) (sym (same_ids peers pm message_hash)) listen,
            signed,
            gone,
          )
