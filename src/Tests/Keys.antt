-- ===== src/Tests/Keys.antt =====
-- The life of a concrete key over a concrete store.
use alice_tss.Base.{
  ℕ, true, ◌⊎◌, err, false, text_eq, ◌≡◌, refl, some, List, [], ◌∷◌, Text, codes, ok, arith,
}
use alice_tss.Libs.{DkgOutcome}
use alice_tss.Json.{IsAscii}
use alice_tss.Peer.Manager.{get_protocol, clone_peer_manager, peer_ids}
use alice_tss.Utils.Keys.{to_hex_hash, to_hex}
use alice_tss.Utils.Encrypto.{encrypt, new_cipher, iv_of}
use alice_tss.Codec.Hex.{hex_encode}
use alice_tss.Store.Fsm.{get, set, put}
use alice_tss.Store.Badger.{
  pubkey_text, get_signer_config, get_dkg_result_data, save_dkg_result_data,
}
use alice_tss.Store.Handler.{badger_handler}
use alice_tss.Service.Node.{state_init, set_stream_handler, Service, Node}
use alice_tss.Service.Lifecycle.{Event, received, changed}
use alice_tss.Service.Dkg.{stream_protocol}
use alice_tss.Service.Dkg.Ending.{saving, over, Ending, closes, saves, returns}
use alice_tss.Steps.{start, after}
use alice_tss.Service.Lifecycle.Services.{written_goes_on}
use alice_tss.Service.Lifecycle.Dones.{to_done}
use alice_tss.Server.Requests.{args_for}
use alice_tss.Server.Requests.Laws.{AllReply}
use alice_tss.Server.Rpc.{generated, dkg_reply, rpc_register_dkg}
use alice_tss.Server.Rpc.Keys.{Ask, Signable, AllSignable}
use alice_tss.Server.Rpc.Keys.Life.{with_key, Ends, Unserved, Served, serve-rpc_register_dkg}
use alice_tss.Tests.Toys.{
  toy_libs, toy_laws, toy_codec, toy_codec_laws, toy_badger, toy_badger_laws, toy_key, toy_outcome,
  toy_outcome-IsOutcome,
}
use alice_tss.Store.Backend.{key_not_found}
use alice_tss.Tests.Storage.{toy_Steady}
use alice_tss.Tests.Lives.{reshare_outcome, one_end}
use alice_tss.Tests.Servers.{toy_alice, known_peers, manager, toy_links, toy-Replies}
use alice_tss.Tests.Nodes.{badger_node}

abbrev two_asks : List Ask
two_asks =
    record { message = codes "00ff"; events = one_end }
    ∷ record { message = codes "aa"; events = one_end }
    ∷ []

cloned_reply :
    (protocol method payload : Text)
    → AllReply toy_links 5
        (args_for known_peers
          (clone_peer_manager manager (get_protocol protocol))
          (codes "TssPeerService")
          method
          payload)
        (peer_ids known_peers (clone_peer_manager manager (get_protocol protocol)))
unfolding peer_ids clone_peer_manager
cloned_reply protocol method payload =
    let pm = clone_peer_manager manager (get_protocol protocol) in
    (
      toy-Replies pm (codes "TssPeerService") method payload (codes "A"),
      (toy-Replies pm (codes "TssPeerService") method payload (codes "B"), tt),
    )

abbrev KeySigns : DkgOutcome → Ask → Type 0
KeySigns d q =
    Signable toy_libs toy_laws toy_codec toy_codec_laws toy_badger toy_badger_laws toy_key
      toy_Steady toy_alice toy_links (λ v. codes "data") known_peers manager 5 (codes "h")
      (omega arith) d q

signs :
    (d : DkgOutcome) (message : Text)
    → IsAscii message
    → text_eq (to_hex_hash toy_libs message) (codes "h") ≡ false
    → KeySigns d (record { message = message; events = one_end })
signs d message ascii other = record {
  is_ascii = ascii;
  other = other;
  signer = 0;
  made = refl;
  replies = cloned_reply (to_hex_hash toy_libs message) (codes "SignMessage") (codes "data");
  one = refl;
}

others :
    (text_eq (to_hex_hash toy_libs (codes "00ff")) (codes "h") ≡ false)
    × (text_eq (to_hex_hash toy_libs (codes "aa")) (codes "h") ≡ false)
unfolding to_hex_hash to_hex
others = (refl, refl)

abbrev key_asks :
    (d : DkgOutcome)
    → AllSignable toy_libs toy_laws toy_codec toy_codec_laws toy_badger toy_badger_laws toy_key
        toy_Steady toy_alice toy_links
        (λ v. codes "data")
        known_peers
        manager
        5
        (codes "h")
        (omega arith)
        d
        two_asks
key_asks d = (
  signs d (codes "00ff") (omega arith) others.0,
  (signs d (codes "aa") (omega arith) others.1, tt),
)

pub outcome_saved :
    (save_dkg_result_data toy_libs toy_codec toy_badger toy_key [] (codes "h") toy_outcome).0
    ≡ ok tt
unfolding save_dkg_result_data encrypt new_cipher iv_of set put hex_encode
outcome_saved = refl

key_missing :
    get_signer_config toy_libs toy_codec toy_badger toy_key []
      (codes "h")
      (pubkey_text toy_libs toy_outcome)
    ≡ err key_not_found
unfolding get_signer_config get_dkg_result_data get
key_missing = refl

abbrev before_done : List Event
before_done = received (some (codes "m")) ∷ changed state_init ∷ []

abbrev pub ToyEnding : Type 0
ToyEnding = Ending ℕ toy_badger.Db

abbrev pub toy_kept : Node toy_badger.Db
toy_kept =
    with_key toy_libs toy_laws toy_codec toy_codec_laws toy_badger toy_badger_laws toy_key
      toy_Steady toy_alice toy_links (λ v. codes "data") known_peers manager 5 (codes "h")
      toy_outcome badger_node

-- `Process` has returned, and then the outcome was saved.
abbrev pub kept_ending : ToyEnding
kept_ending = record {
  service = record { machine = 1; hash = codes "h"; done_closed = true };
  node = toy_kept;
  phase = over;
  returned = true;
}

abbrev pub ToyEnds : ToyEnding → Type 0
ToyEnds =
    Ends toy_libs toy_laws toy_codec toy_codec_laws toy_badger toy_badger_laws toy_key toy_Steady
      toy_alice toy_links (λ v. codes "data") known_peers manager 5 (codes "h") 0 before_done
      badger_node

pub toy_reached : ToyEnds kept_ending
toy_reached =
    after
      (after
        (after start
          (closes (record { machine = 1; hash = codes "h"; done_closed = true }) refl refl))
        (returns refl refl))
      (saves (some toy_outcome) kept_ending.service toy_kept refl (
        written_goes_on kept_ending.service
          (set_stream_handler (stream_protocol (codes "h")) (codes "h") badger_node)
          (save_dkg_result_data toy_libs toy_codec toy_badger toy_key [] (codes "h") toy_outcome)
          (λ x bad. let fine = outcome_saved in cc)))

abbrev ToyUnserved : Node toy_badger.Db → Type 0
ToyUnserved =
    Unserved toy_libs toy_laws toy_codec toy_codec_laws toy_badger toy_badger_laws toy_key
      toy_Steady toy_alice toy_links (λ v. codes "data") known_peers manager 5
      (dkg_reply toy_libs (codes "h") toy_outcome) two_asks key_not_found

serve-rpc_register_dkg_example :
    (rpc_register_dkg toy_libs toy_alice toy_codec
        (badger_handler toy_libs toy_codec toy_badger toy_key)
        toy_links
        (λ v. codes "data")
        known_peers
        manager
        5
        (codes "h")
        (to_done before_done [])
        badger_node
      ≡ (ok (generated (dkg_reply toy_libs (codes "h") toy_outcome)), toy_kept))
    × (((kept_ending.phase ≡ saving (some toy_outcome)) × ToyUnserved kept_ending.node)
        ⊎ ((kept_ending.phase ≡ over)
            × (kept_ending.node ≡ toy_kept)
            × Served toy_libs toy_laws toy_codec toy_codec_laws toy_badger toy_badger_laws toy_key
                toy_Steady toy_alice toy_links
                (λ v. codes "data")
                known_peers
                manager
                5
                (codes "h")
                (omega arith)
                toy_outcome
                two_asks
                (key_asks toy_outcome)
                kept_ending.node))
    × ((s0 : ToyEnding) × ToyEnds s0 × (s0.returned ≡ true) × ToyUnserved s0.node)
serve-rpc_register_dkg_example =
    serve-rpc_register_dkg toy_libs toy_laws toy_codec toy_codec_laws toy_badger toy_badger_laws
      toy_key toy_Steady toy_alice toy_links (λ v. codes "data") known_peers manager 5 (codes "h")
      (omega arith) 0 before_done [] badger_node toy_outcome two_asks key_not_found kept_ending
      (cloned_reply (codes "h") (codes "RegisterDKG") (codes "h")) refl refl refl refl refl
      toy_outcome-IsOutcome refl outcome_saved key_missing (key_asks toy_outcome) toy_reached refl

abbrev renewed_outcome : DkgOutcome
renewed_outcome = record toy_outcome { share = reshare_outcome.share }
