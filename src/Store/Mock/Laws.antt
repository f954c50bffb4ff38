-- ===== src/Store/Mock/Laws.antt =====
-- What the store in memory gives back.
use alice_tss.Base.{
  ◌≡◌, refl, ◌∙◌, sym, Bool, true, false, Option, some, Text, text_eq, lookup, lookup-insert,
  text_eq_refl, copy_map_lem, ok, if◌then◌else◌,
}
use alice_tss.Types.{SignerConfig}
use alice_tss.Libs.{Libs, DkgOutcome, ReshareOutcome}
use alice_tss.Codec.BigInt.{set_bytes-int_bytes}
use alice_tss.Store.Badger.{stored_bk}
use alice_tss.Store.Badger.RoundTrip.{IsOutcome, signer_config_of}
use alice_tss.Store.Mock.{
  MockDb, mock_config, or_not_found, mock_save_dkg_result_data, mock_get_signer_config,
  mock_update_dkg_result_data,
}

mock_config-eq : (d : DkgOutcome) → IsOutcome d → mock_config d ≡ signer_config_of d
unfolding mock_config
mock_config-eq d h = rw (
  set_bytes-int_bytes d.share ∙ sym h.share,
  set_bytes-int_bytes d.public_key.x ∙ sym h.x,
  set_bytes-int_bytes d.public_key.y ∙ sym h.y,
  copy_map_lem stored_bk d.bks h.keys,
)

or_not_found-if :
    (t : Bool) (a : SignerConfig) (o : Option SignerConfig)
    → or_not_found (if t then some a else o) ≡ (if t then ok a else or_not_found o)
or_not_found-if true a o = refl
or_not_found-if false a o = refl

-- After a save of an outcome whose numbers are natural, whose peers have distinct ASCII names and
-- whose ranks are below 2 ^ 32, the store in memory answers under that hash with the outcome's
-- configuration, for whatever public key is asked, and under any other hash as before.
pub mock_get_signer_config-save :
    (l : Libs) (db : MockDb) (k j pubkey : Text) (d : DkgOutcome)
    → IsOutcome d
    → mock_get_signer_config (mock_save_dkg_result_data l db k d).1 j pubkey
      ≡ (if text_eq k j then ok (signer_config_of d) else mock_get_signer_config db j pubkey)
unfolding mock_get_signer_config mock_save_dkg_result_data
mock_get_signer_config-save l db k j pubkey d h =
    rw (lookup-insert k j (mock_config d) db.signer_configs, mock_config-eq d h)
      (or_not_found-if (text_eq k j) (signer_config_of d) (lookup j db.signer_configs))

-- A reshare never reaches the store in memory: after a save of an outcome whose numbers are natural,
-- whose peers have distinct ASCII names and whose ranks are below 2 ^ 32, and a reshare under the
-- same hash, the configuration still has the share that was saved.
pub mock_ignores_reshare :
    (l : Libs) (db : MockDb) (k pubkey : Text) (d : DkgOutcome) (r : ReshareOutcome)
    → IsOutcome d
    → mock_get_signer_config
        (mock_update_dkg_result_data (mock_save_dkg_result_data l db k d).1 k r).1
        k
        pubkey
      ≡ ok (signer_config_of d)
unfolding mock_update_dkg_result_data
mock_ignores_reshare l db k pubkey d r h =
    mock_get_signer_config-save l db k k pubkey d h ∙ rw (text_eq_refl k)
