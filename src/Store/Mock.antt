-- ===== src/Store/Mock.antt =====
-- store/mock.go: the store in memory. The two package variables are its state.
pub mod Laws
use alice_tss.Base.{
  ◌≡◌, Option, none, some, [], Text, Dict, lookup, insert, copy_map, Result, Done, ok, err,
  signer_config_not_found,
}
use alice_tss.Types.{Bk, DkgResult, SignerConfig, RvSignature}
use alice_tss.Libs.{Libs, DkgOutcome, ReshareOutcome}
use alice_tss.Codec.BigInt.{int_bytes, set_bytes, int_string}
use alice_tss.Store.Badger.{dkg_record, stored_bk}

pub record MockDb : Type 0 where
  pub dkg_results : Dict DkgResult
  pub signer_configs : Dict SignerConfig

-- `NewMockDB`
unfoldable pub new_mock_db : MockDb
new_mock_db = record { dkg_results = []; signer_configs = [] }

-- The configuration kept for an outcome.
unfoldable pub mock_config : DkgOutcome → SignerConfig
unfolding copy_map
mock_config d = record {
  share = int_string (set_bytes (int_bytes d.share));
  pubkey = record {
    x = int_string (set_bytes (int_bytes d.public_key.x));
    y = int_string (set_bytes (int_bytes d.public_key.y));
  };
  bks = copy_map stored_bk [] d.bks;
}

-- `SaveDKGResultData`: the share stands in the record as plain hexadecimal.
unfoldable pub mock_save_dkg_result_data : Libs → MockDb → Text → DkgOutcome → Done × MockDb
mock_save_dkg_result_data l db hash result = (
  ok tt,
  record {
    dkg_results =
        insert hash (dkg_record l result (l.bytes_to_hex (int_bytes result.share))) db.dkg_results;
    signer_configs = insert hash (mock_config result) db.signer_configs;
  },
)

abbrev or_not_found : Option SignerConfig → Result SignerConfig
or_not_found none = err signer_config_not_found
or_not_found (some cfg) = ok cfg

-- `GetSignerConfig`
unfoldable pub mock_get_signer_config : MockDb → Text → Text → Result SignerConfig
mock_get_signer_config db hash pubkey = or_not_found (lookup hash db.signer_configs)

unfoldable pub mock_update_dkg_result_data : MockDb → Text → ReshareOutcome → Done × MockDb
mock_update_dkg_result_data db hash result = (ok tt, db)

unfoldable pub mock_save_signer_result_data : MockDb → Text → RvSignature → Done × MockDb
mock_save_signer_result_data db hash result = (ok tt, db)

-- A hash that is not there gives the nil pointer, and no error.
unfoldable pub mock_get_dkg_result_data : MockDb → Text → Result (Option DkgResult)
mock_get_dkg_result_data db hash = ok (lookup hash db.dkg_results)
