-- ===== src/Tests/Sessions.antt =====
-- Two signers on one node, for two messages and for one.
use alice_tss.Base.{
  ℕ, ◌≡◌, refl, true, false, none, some, [], some, Text, Bytes, Result, codes, lookup, insert, ok,
  traverse_map,
}
use alice_tss.Codec.BigInt.{set_string}
use alice_tss.Codec.Hex.{hex_encode}
use alice_tss.Utils.Convert.{convert_dkg_result, big_of, convert_bk}
use alice_tss.Utils.Keys.{to_hex_hash, to_hex}
use alice_tss.Peer.Manager.{get_protocol}
use alice_tss.Store.Mock.{MockDb, mock_save_signer_result_data}
use alice_tss.Store.Handler.{mock_handler}
use alice_tss.Service.Node.{state_done, Machine, Service, Node, set_stream_handler, close_done}
use alice_tss.Service.Signer.{create_signer, new_signer_service, on_signer_state_changed}
use alice_tss.Service.Lifecycle.Signers.{signer_leaves}
use alice_tss.Libs.{SignOutcome, DkgOutcome}
use alice_tss.Steps.{start, after}
use alice_tss.Service.Sessions.{Sessions, begins, changes}
use alice_tss.Service.Sessions.Laws.{Happens, signers_apart}
use alice_tss.Service.Sessions.Collisions.{signers_collide}
use alice_tss.Tests.Toys.{toy_libs}
use alice_tss.Tests.Lives.{toy_machine, sign_outcome, mock_SignCalm}
use alice_tss.Tests.Servers.{small_config, empty_node}

abbrev pub machine : Machine SignOutcome
machine = toy_machine sign_outcome

abbrev pub paillier : Result ℕ
paillier = ok 0

abbrev pub makes : ℕ → DkgOutcome → Bytes → Result ℕ
makes p d b = ok 0

abbrev pub signer_of : Text → Service ℕ
signer_of msg = record { machine = 0; hash = to_hex_hash toy_libs msg; done_closed = false }

abbrev pub with_signer : Text → Node MockDb → Node MockDb
with_signer msg n =
    set_stream_handler (get_protocol (to_hex_hash toy_libs msg)) (to_hex_hash toy_libs msg) n

pub made :
    (msg : Text) (n : Node MockDb)
    → new_signer_service toy_libs machine (mock_handler toy_libs) paillier makes small_config msg n
      ≡ ok (signer_of msg, with_signer msg n)
unfolding new_signer_service create_signer convert_dkg_result big_of convert_bk set_string
    traverse_map
made msg n = refl

abbrev pub one : Text
one = codes "01"

abbrev two : Text
two = codes "02"

abbrev both_listen : Node MockDb
both_listen = with_signer two (with_signer one empty_node)

abbrev first_ended : Node MockDb
first_ended =
    signer_leaves toy_libs machine (mock_handler toy_libs) state_done 0 (to_hex_hash toy_libs one)
      both_listen

abbrev after_one : Sessions ℕ MockDb
after_one = record {
  signers =
      insert (to_hex_hash toy_libs one) (record (signer_of one) { done_closed = true })
        (insert (to_hex_hash toy_libs two) (signer_of two)
          (insert (to_hex_hash toy_libs one) (signer_of one) []));
  node = first_ended;
}

happened :
    Happens toy_libs machine
      (mock_handler toy_libs)
      mock_SignCalm
      paillier
      makes
      empty_node
      after_one
unfolding on_signer_state_changed close_done to_hex_hash to_hex hex_encode
    mock_save_signer_result_data
happened =
    after
      (after
        (after start (
          begins small_config one (signer_of one) (with_signer one empty_node) (made one empty_node)
            (λ p e. cc)))
        (begins small_config two (signer_of two) both_listen (made two (with_signer one empty_node))
          (λ p e. cc)))
      (changes (to_hex_hash toy_libs one) (signer_of one)
        (record (signer_of one) { done_closed = true }) first_ended state_done refl refl)

signers_apart_example :
    (to_hex_hash toy_libs two ≡ to_hex_hash toy_libs two)
    × (lookup (get_protocol (to_hex_hash toy_libs two)) first_ended.handlers
        ≡ some (to_hex_hash toy_libs two))
unfolding to_hex_hash to_hex hex_encode
signers_apart_example =
    signers_apart toy_libs machine (mock_handler toy_libs) mock_SignCalm paillier makes empty_node
      (to_hex_hash toy_libs two) (signer_of two) happened refl

signers_collide_example :
    (q : Service ℕ) × (n3 : Node MockDb) × (on_signer_state_changed toy_libs machine
        (mock_handler toy_libs)
        state_done
        (signer_of one)
        (with_signer one (with_signer one empty_node))
      ≡ ok (q, n3))
    × (false ≡ false)
    × (lookup (get_protocol (to_hex_hash toy_libs one)) n3.handlers ≡ none)
signers_collide_example =
    signers_collide toy_libs machine (mock_handler toy_libs) paillier makes mock_SignCalm
      small_config small_config one empty_node (with_signer one empty_node)
      (with_signer one (with_signer one empty_node)) (signer_of one) (signer_of one) state_done
      (made one empty_node) (made one (with_signer one empty_node)) tt
