-- ===== src/Tests/Starts.antt =====
-- The program, with a port that is taken.
use alice_tss.Base.{ℕ, refl, true, none, some, [], Text, codes, ok, lib}
use alice_tss.Types.{AppConfig, store_type_mock}
use alice_tss.Main.{Flags, Outside, main}
use alice_tss.Main.Laws.{Abrupt, main_ends}
use alice_tss.Tests.Toys.{toy_libs, toy_codec, toy_badger, toy_key}
use alice_tss.Tests.Peers.{toy_net}

abbrev config : AppConfig
config = record {
  port = 4001;
  rpc = 5001;
  store = record { store_type = store_type_mock; path = [] };
}

abbrev outside : Outside
outside = record {
  Document = Text;
  read_in_config = ok;
  unmarshal_config = λ d. ok config;
  read_file = ok;
  decrypt_key = λ b pass. ok toy_key;
  start_mdns = λ tag. none;
  register_peer_service = none;
  register_service = none;
  Handler = ℕ;
  timeout_handler = λ seconds message. seconds;
  listen_and_serve = λ port handler. some (lib 2);
}

abbrev flags : Flags
flags = record {
  config_file = codes "config.yaml";
  keystore_file = codes "key.json";
  password = codes "secret";
  port = 0;
  self_host = true;
}

main_ends_example : Abrupt (main toy_libs toy_codec toy_badger toy_net outside flags [])
main_ends_example =
    main_ends toy_libs toy_codec toy_badger toy_net outside flags [] (λ port. (lib 2, refl))
