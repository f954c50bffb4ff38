-- ===== src/Tests/Shares.antt =====
-- Three key generations that end in one store, and the request to sign behind them.
use alice_tss.Base.{ℕ, ◌≡◌, refl, false, some, List, [], ◌∷◌, codes, ok}
use alice_tss.Libs.{DkgOutcome}
use alice_tss.Codec.BigInt.{pos, decimal}
use alice_tss.Codec.Hex.{hex_encode}
use alice_tss.Utils.Encrypto.{encrypt, new_cipher, iv_of}
use alice_tss.Store.Fsm.{set, put}
use alice_tss.Store.Badger.{save_dkg_result_data, pubkey_text}
use alice_tss.Store.Badger.RoundTrip.{IsOutcome}
use alice_tss.Store.Handler.{badger_handler}
use alice_tss.Service.Node.{Machine}
use alice_tss.Server.Tss.{Alice, SignRequest}
use alice_tss.Server.SelfService.Calls.{node_id, node_request}
use alice_tss.Server.SelfService.Calls.Sign.{Signs}
use alice_tss.Server.SelfService.Calls.Shares.{
  Generated, AtEnd, end_all, AllSaved, SignsWith, self_dkg_then_sign,
}
use alice_tss.Tests.Toys.{
  toy_libs, toy_laws, toy_codec, toy_codec_laws, toy_badger, toy_badger_laws, toy_key, toy_outcome,
  toy_outcome-IsOutcome,
}
use alice_tss.Tests.Lives.{toy_machine}
use alice_tss.Tests.Servers.{toy_alice}

-- The shares are numbered.
abbrev outcome : ℕ → DkgOutcome
outcome i = record toy_outcome { share = pos i }

outcome-IsOutcome : (i : ℕ) → IsOutcome (outcome i)
outcome-IsOutcome i = record {
  x = refl;
  y = refl;
  share = refl;
  keys = toy_outcome-IsOutcome.keys;
  texts = toy_outcome-IsOutcome.texts;
  ranks = toy_outcome-IsOutcome.ranks;
}

abbrev numbered : Machine DkgOutcome
numbered = record (toy_machine toy_outcome) { get_result = λ i. some (outcome i) }

abbrev numbered_alice : Alice
numbered_alice = record toy_alice { keygen = numbered; new_dkg = λ cfg. ok 0 }

abbrev asked : SignRequest
asked = record {
  hash = codes "h";
  pubkey = pubkey_text toy_libs toy_outcome;
  message = codes "00ff";
}

abbrev generated : ℕ → Generated ℕ
generated i = record {
  service = record { machine = i; hash = node_id (codes "h") i; done_closed = false };
  handlers = [];
  outcome = outcome i;
}

-- The third node ends first.
abbrev all_three : List (Generated ℕ)
all_three = generated 2 ∷ generated 0 ∷ generated 1 ∷ []

at_end : AtEnd numbered.get_result all_three
at_end = (
  (refl, refl, outcome-IsOutcome 2),
  ((refl, refl, outcome-IsOutcome 0), ((refl, refl, outcome-IsOutcome 1), tt)),
)

all_saved : AllSaved numbered (badger_handler toy_libs toy_codec toy_badger toy_key) all_three []
unfolding save_dkg_result_data encrypt new_cipher iv_of set put hex_encode
all_saved = (refl, (refl, (refl, tt)))

signs_with :
    SignsWith toy_libs toy_laws toy_codec toy_codec_laws toy_badger toy_badger_laws toy_key
      numbered_alice 0 asked
      (outcome 1)
      0
signs_with = record { good = outcome-IsOutcome 1; curve = refl; same_key = refl; made = refl }

self_dkg_then_sign_example :
    (db' : toy_badger.Db) × (end_all numbered
        (badger_handler toy_libs toy_codec toy_badger toy_key)
        all_three
        []
      ≡ ok db')
    × Signs toy_libs numbered_alice
        (badger_handler toy_libs toy_codec toy_badger toy_key)
        db'
        (node_request asked 1)
        0
unfolding decimal
self_dkg_then_sign_example =
    self_dkg_then_sign toy_libs toy_laws toy_codec toy_codec_laws toy_badger toy_badger_laws toy_key
      numbered_alice 0 all_three [] asked 1 (outcome 1) 0 refl at_end
      ((refl, (refl, tt)), ((refl, tt), (tt, tt))) all_saved refl signs_with
