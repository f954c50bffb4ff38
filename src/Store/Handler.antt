-- ===== src/Store/Handler.antt =====
-- store/store.go: the interface `HandlerData`, its two implementations, and the choice between them.
use alice_tss.Base.{
  ◌≡◌, ◌≢◌, Option, none, some, [], Text, text_eq, text_eq_iff, Result, Done, ok, err, ◌>>=◌,
  badger_path_empty, private_key_nil, if◌then◌else◌, arith,
}
use alice_tss.Types.{
  StoreConfig, DkgResult, SignerConfig, RvSignature, store_type_mock, store_type_badger,
}
use alice_tss.Libs.{Libs, PrivateKey, DkgOutcome, ReshareOutcome}
use alice_tss.Store.Backend.{Codec, Badger}
use alice_tss.Store.Badger.{
  save_dkg_result_data, get_dkg_result_data, get_signer_config, update_dkg_result_data,
  save_signer_result_data, defer_badger, new_badger_db,
}
use alice_tss.Store.Mock.{
  MockDb, new_mock_db, mock_save_dkg_result_data, mock_get_signer_config,
  mock_update_dkg_result_data, mock_save_signer_result_data, mock_get_dkg_result_data,
}

-- `HandlerData`, over the store's state. `none` of a result is a nil pointer.
pub record HandlerData (S : Type 0) : Type 0 where
  pub save_dkg_result_data : S → Text → DkgOutcome → Done × S
  pub get_signer_config : S → Text → Text → Result SignerConfig
  pub update_dkg_result_data : S → Text → ReshareOutcome → Done × S
  pub save_signer_result_data : S → Text → RvSignature → Done × S
  pub get_dkg_result_data : S → Text → Result (Option DkgResult)
  pub defer : S → Done

module _ (l : Libs) (c : Codec) (b : Badger c.Doc) where
  abbrev pub badger_handler : PrivateKey → HandlerData b.Db
  badger_handler key = record {
    save_dkg_result_data = save_dkg_result_data l c b key;
    get_signer_config = get_signer_config l c b key;
    update_dkg_result_data = update_dkg_result_data l c b key;
    save_signer_result_data = save_signer_result_data l c b key;
    get_dkg_result_data = λ db hash. get_dkg_result_data l c b key db hash >>= λ r. ok (some r);
    defer = defer_badger l c b key;
  }

abbrev pub mock_handler : Libs → HandlerData MockDb
mock_handler l = record {
  save_dkg_result_data = mock_save_dkg_result_data l;
  get_signer_config = mock_get_signer_config;
  update_dkg_result_data = mock_update_dkg_result_data;
  save_signer_result_data = mock_save_signer_result_data;
  get_dkg_result_data = mock_get_dkg_result_data;
  defer = λ db. ok tt;
}

-- An opened store.
pub data Store (Db : Type 0) : Type 0 where
  in_memory : MockDb → Store Db
  on_disk : Db → PrivateKey → Store Db

module _ (l : Libs) (c : Codec) (b : Badger c.Doc) where
  abbrev open_badger : Text → Option PrivateKey → Result (Store b.Db)
  open_badger path none = err private_key_nil
  open_badger path (some key) = new_badger_db l c b key path >>= λ db. ok (on_disk db key)

  -- `NewStoreHandler`: a type that has no name is the store in memory too.
  unfoldable pub new_store_handler : StoreConfig → Option PrivateKey → Result (Store b.Db)
  new_store_handler config private_key =
      if text_eq config.store_type store_type_mock
      then ok (in_memory new_mock_db)
      else if text_eq config.store_type store_type_badger
      then (if text_eq config.path []
          then err badger_path_empty
          else open_badger config.path private_key)
      else ok (in_memory new_mock_db)

  -- Every type but "badger" gives an empty store in memory and no error, whatever the path and the
  -- key, a misspelt type as well.
  pub new_store_handler-in_memory :
      (config : StoreConfig) (private_key : Option PrivateKey)
      → config.store_type ≢ store_type_badger
      → new_store_handler config private_key ≡ ok (in_memory new_mock_db)
  unfolding new_store_handler
  new_store_handler-in_memory config private_key h =
      ground (arith, text_eq_iff config.store_type store_type_badger)
