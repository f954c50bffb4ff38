-- ===== src/Server/Rpc/Keys.antt =====
-- The requests of a client that signs with a key, one after the other: what it sends to the handler of
-- server/rpc_server.go, and what a request needs.
pub mod Life
pub mod Renewal
use alice_tss.Base.{
  ℕ, ◌≡◌, refl, ◌∙◌, ap, false, Option, none, some, List, [], ◌∷◌, Bytes, Text, text_eq, codes,
  Result, ok, err, Error, ◌>>=◌, arith,
}
use alice_tss.Libs.{Libs, LibLaws, PrivateKey, DkgOutcome, SignOutcome}
use alice_tss.Json.{Json, str, obj, field, end, IsPlain, IsAscii}
use alice_tss.Codec.Hex.{hex_encode-IsAscii}
use alice_tss.Utils.Keys.{to_hex_hash}
use alice_tss.Utils.Convert.{convert_dkg_result_lem}
use alice_tss.Peer.Manager.{Heap, P2pManager, get_protocol, clone_peer_manager, peer_ids, num_peers}
use alice_tss.Store.Backend.{Codec, CodecLaws, Badger, BadgerLaws}
use alice_tss.Store.Badger.{pubkey_text, get_signer_config, save_dkg_result_data}
use alice_tss.Store.Badger.RoundTrip.{IsOutcome, signer_config_of}
use alice_tss.Store.Badger.Refine.{Holds, save-Holds, get_signer_config-Holds}
use alice_tss.Store.Badger.Steady.{Steady, save_steady, sign_steady}
use alice_tss.Store.Badger.Signatures.{save_signer_result_data-Holds}
use alice_tss.Store.Handler.{badger_handler}
use alice_tss.Service.Node.{
  MainState, state_init, state_done, state_failed, next, Node, remove_stream_handler,
}
use alice_tss.Service.Signer.{create_signer, signature_of}
use alice_tss.Service.Lifecycle.{Event, IsEnd, ends, machine_after, node_after, node_after_lem}
use alice_tss.Service.Lifecycle.Signers.{stored, signer_leaves}
use alice_tss.Service.Lifecycle.Dones.{to_done, ends-to_done}
use alice_tss.Server.Requests.{Link, args_for}
use alice_tss.Server.Requests.Laws.{AllReply, rpc_to_peer_lem}
use alice_tss.Server.Tss.{Alice, SignRequest, sign_message}
use alice_tss.Server.Tss.Laws.{signer_for, final_signer, final_node, listening, hash_of}
use alice_tss.Server.Tss.Kept.{final_node-Holds}
use alice_tss.Server.Rpc.{Reply, unmarshal_request_data, read_sign_request, rpc_sign_message}
use alice_tss.Server.Rpc.Sign.{signature_answer, rpc_sign_message_answers}

-- What a client sends to sign a message with the key of a hash and a public key.
abbrev pub sign_json : Text → Text → Text → Json
sign_json hash pubkey message = obj (
    field (codes "hash") (str hash)
      (field (codes "pubkey") (str pubkey) (field (codes "message") (str message) end)))

-- A request to sign, with what happens to its signer.
pub record Ask : Type 0 where
  pub message : Text
  pub events : List Event

module _ (l : Libs) (laws : LibLaws l) (c : Codec) (codec : CodecLaws c) (b : Badger c.Doc)
    (badger : BadgerLaws b) (key : PrivateKey) (steady : Steady c b) (a : Alice) where
  pub sign_json-IsPlain :
      (hash : Text) (d : DkgOutcome) (message : Text)
      → IsAscii hash
      → IsAscii message
      → IsPlain (sign_json hash (pubkey_text l d) message)
  unfolding IsPlain
  sign_json-IsPlain hash d message hh hm = (
    omega arith,
    hh,
    (
      omega arith,
      hex_encode-IsAscii _ (laws.compress_pubkey-IsBytes d.public_key.x d.public_key.y),
      (omega arith, hm, tt),
    ),
  )

  abbrev pub asks : Text → DkgOutcome → Text → SignRequest
  asks hash d message = record { hash = hash; pubkey = pubkey_text l d; message = message }

  -- The signer that alice makes for a message on an outcome.
  abbrev pub signer_on : DkgOutcome → Text → Result a.signing.M
  signer_on d message = a.new_paillier >>= λ p. a.new_signer p d (l.hex_to_bytes message)

  pub signer_for-Holds :
      (hash : Text) (d : DkgOutcome) (message : Text)
      → IsOutcome d
      → l.new_ec_point d.public_key.x d.public_key.y ≡ ok d.public_key
      → signer_for l a (badger_handler l c b key) (asks hash d message) (signer_config_of d)
        ≡ signer_on d message
  unfolding create_signer
  signer_for-Holds hash d message outcome curve =
      simp (convert_dkg_result_lem l d outcome.keys curve)

  -- A client's request for it is read as it was written.
  pub asked :
      (hash : Text) (d : DkgOutcome) (message : Text)
      → IsPlain (sign_json hash (pubkey_text l d) message)
      → unmarshal_request_data c read_sign_request (sign_json hash (pubkey_text l d) message)
        ≡ ok (asks hash d message)
  unfolding unmarshal_request_data read_sign_request
  asked hash d message plain = rw (codec.marshal_lem _ plain, codec.unmarshal_lem _ plain) refl

  module _ {R : Type 0} (links : Text → ℕ → Link R) (text_of : c.Doc → Bytes) (peers : Heap)
      (pm : P2pManager) (fuel : ℕ) where
    -- A request that can be served with the key: its message is ASCII, its hash is not that of the key, alice
    -- makes a signer for it, which reports exactly one end, and every known peer replies.
    pub record Signable (hash : Text) (ascii : IsAscii hash) (d : DkgOutcome) (q : Ask)
        : Type 0 where
      pub is_ascii : IsAscii q.message
      pub other : text_eq (to_hex_hash l q.message) hash ≡ false
      pub signer : a.signing.M
      pub made : signer_on d q.message ≡ ok signer
      pub replies :
          AllReply links fuel
            (args_for peers
              (clone_peer_manager pm (get_protocol (to_hex_hash l q.message)))
              (codes "TssPeerService")
              (codes "SignMessage")
              (text_of (codec.text _ (sign_json-IsPlain hash d q.message ascii is_ascii))))
            (peer_ids peers (clone_peer_manager pm (get_protocol (to_hex_hash l q.message))))
      pub one : ends q.events ≡ 1

    abbrev pub AllSignable : (hash : Text) → IsAscii hash → DkgOutcome → List Ask → Type 0
    AllSignable hash ascii d [] = Unit
    AllSignable hash ascii d (q ∷ qs) = Signable hash ascii d q × AllSignable hash ascii d qs

    -- What the handler answers to one request after the other.
    abbrev pub serve : Text → Text → List Ask → Node b.Db → List (Result Reply) × Node b.Db
    serve hash pubkey [] n = ([], n)
    serve hash pubkey (q ∷ qs) n =
        let (r, n1) =
          rpc_sign_message l a c (badger_handler l c b key) links text_of peers pm fuel
            (sign_json hash pubkey q.message) q.events n in
        let (rs, n2) = serve hash pubkey qs n1 in (r ∷ rs, n2)

    -- For each message the signature of its own signer.
    abbrev pub signatures :
        (hash : Text) (ascii : IsAscii hash) (d : DkgOutcome) (qs : List Ask)
        → AllSignable hash ascii d qs
        → List (Result Reply)
    signatures hash ascii d [] all = []
    signatures hash ascii d (q ∷ qs) all =
        signature_answer (to_hex_hash l q.message)
          (a.signing.get_result (final_signer l a (badger_handler l c b key) all.0.signer q.events))
        ∷ signatures hash ascii d qs all.1

    abbrev pub answer_to :
        (hash : Text) (ascii : IsAscii hash) (d : DkgOutcome) (q : Ask)
        → Signable hash ascii d q
        → Result Reply
    answer_to hash ascii d q s =
        signature_answer (to_hex_hash l q.message)
          (a.signing.get_result (final_signer l a (badger_handler l c b key) s.signer q.events))

    abbrev pub left_by :
        (hash : Text) (ascii : IsAscii hash) (d : DkgOutcome) (q : Ask)
        → Signable hash ascii d q
        → Node b.Db
        → Node b.Db
    left_by hash ascii d q s n =
        final_node l a (badger_handler l c b key) (asks hash d q.message) s.signer q.events n

    serves_one :
        (hash : Text) (ascii : IsAscii hash) (d : DkgOutcome) (q : Ask) (n : Node b.Db)
        (s : Signable hash ascii d q)
        → l.new_ec_point d.public_key.x d.public_key.y ≡ ok d.public_key
        → Holds l laws c codec b badger key n.store hash d
        → rpc_sign_message l a c
            (badger_handler l c b key)
            links
            text_of
            peers
            pm
            fuel
            (sign_json hash (pubkey_text l d) q.message)
            q.events
            n
          ≡ (answer_to hash ascii d q s, left_by hash ascii d q s n)
    serves_one hash ascii d q n s curve h =
        let plain = sign_json-IsPlain hash d q.message ascii s.is_ascii in
        (rpc_sign_message_answers l a c (badger_handler l c b key)
          (sign_steady l laws c codec b badger key steady) links text_of peers pm fuel
          (sign_json hash (pubkey_text l d) q.message) q.events n (asks hash d q.message)
          (codec.text _ plain) (signer_config_of d) s.signer (asked hash d q.message plain)
          (codec.marshal_lem _ plain)
          (get_signer_config-Holds l laws c codec b badger key n.store hash d h)
          (signer_for-Holds hash d q.message h.outcome curve ∙ s.made) s.replies s.one).0

    -- A key in the store serves any requests, and is in the store still.
    pub serve-Holds :
        (hash : Text) (ascii : IsAscii hash) (d : DkgOutcome) (qs : List Ask) (n : Node b.Db)
        (all : AllSignable hash ascii d qs)
        → l.new_ec_point d.public_key.x d.public_key.y ≡ ok d.public_key
        → Holds l laws c codec b badger key n.store hash d
        → ((serve hash (pubkey_text l d) qs n).0 ≡ signatures hash ascii d qs all)
          × Holds l laws c codec b badger key (serve hash (pubkey_text l d) qs n).1.store hash d
    serve-Holds hash ascii d [] n all curve h = (refl, h)
    serve-Holds hash ascii d (q ∷ qs) n all curve h =
        let (rest, there) =
          serve-Holds hash ascii d qs (left_by hash ascii d q all.0 n) all.1 curve (
            final_node-Holds l laws c codec b badger key steady a hash d (asks hash d q.message)
              all.0.signer q.events n all.0.other h all.0.one) in
        rw (serves_one hash ascii d q n all.0 curve h)
          (ap (λ (rs : List (Result Reply)). answer_to hash ascii d q all.0 ∷ rs) rest, there)

    -- The answers of a store that has no configuration for the key.
    abbrev pub refusals : Error → List Ask → List (Result Reply)
    refusals e [] = []
    refusals e (q ∷ qs) = err e ∷ refusals e qs

    refuses_one :
        (hash : Text) (d : DkgOutcome) (q : Ask) (n : Node b.Db) (e : Error)
        → IsPlain (sign_json hash (pubkey_text l d) q.message)
        → get_signer_config l c b key n.store hash (pubkey_text l d) ≡ err e
        → rpc_sign_message l a c
            (badger_handler l c b key)
            links
            text_of
            peers
            pm
            fuel
            (sign_json hash (pubkey_text l d) q.message)
            q.events
            n
          ≡ (err e, n)
    unfolding rpc_sign_message sign_message
    refuses_one hash d q n e plain missing =
        rw (asked hash d q.message plain, codec.marshal_lem _ plain, missing) refl

    -- A store without the key refuses each of them, and changes nothing.
    pub serve-refusals :
        (hash : Text) (ascii : IsAscii hash) (d : DkgOutcome) (qs : List Ask) (n : Node b.Db)
        (e : Error)
        → AllSignable hash ascii d qs
        → get_signer_config l c b key n.store hash (pubkey_text l d) ≡ err e
        → serve hash (pubkey_text l d) qs n ≡ (refusals e qs, n)
    serve-refusals hash ascii d [] n e all missing = refl
    serve-refusals hash ascii d (q ∷ qs) n e all missing =
        let plain = sign_json-IsPlain hash d q.message ascii all.0.is_ascii in
        rw
          (refuses_one hash d q n e plain missing, serve-refusals hash ascii d qs n e all.1 missing)
          refl
