-- ===== src/Main.antt =====
-- main.go: what the program does from its flags to the HTTP server. `log.Crit` ends the program at once, without
-- the deferred calls, and is an error here.
pub mod Laws
use alice_tss.Base.{
  ℕ, Bool, true, false, Option, none, some, List, [], ◌∷◌, Text, Bytes, codes, Result, Done, ok,
  err, panic, ◌>>=◌, Error, ◌==◌, if◌then◌else◌,
}
use alice_tss.Types.{AppConfig}
use alice_tss.Libs.{Libs, PrivateKey}
use alice_tss.Utils.Keys.{get_private_key_from_keystore}
use alice_tss.Peer.Manager.{Heap, P2pManager, new_peer_manager}
use alice_tss.Peer.Transport.{Net, make_basic_host, make_basic_host_by_id}
use alice_tss.Peer.Discovery.{setup_discovery}
use alice_tss.Store.Backend.{Codec, Badger}
use alice_tss.Store.Handler.{Store, new_store_handler}
use alice_tss.Server.SelfService.{Member, new_self_service}

-- The flags of the program.
pub record Flags : Type 0 where
  pub config_file : Text
  pub keystore_file : Text
  pub password : Text
  pub port : ℕ
  pub self_host : Bool

-- What viper, the file system, go-ethereum's keystore, mDNS, gorpc, gorilla and net/http answer.
pub record Outside : Type 1 where
  pub Document : Type 0
  pub read_in_config : Text → Result Document
  pub unmarshal_config : Document → Result AppConfig
  pub read_file : Text → Result Bytes
  pub decrypt_key : Bytes → Text → Result PrivateKey
  pub start_mdns : Text → Option Error
  pub register_peer_service : Option Error
  pub register_service : Option Error
  pub Handler : Type 0
  pub timeout_handler : ℕ → Text → Handler
  pub listen_and_serve : ℕ → Handler → Option Error

-- `if err != nil { … }`
abbrev pub unless : Option Error → Done
unless none = ok tt
unless (some e) = err e

-- `peer.ProtocolId`
abbrev pub protocol_id : Text
protocol_id = codes "/p2p/1.0.0"

-- `readAppConfigFile`
unfoldable pub read_app_config_file : Outside → Text → Result AppConfig
read_app_config_file o file = do document ← o.read_in_config file; o.unmarshal_config document

-- What `InitRouter` is called with.
pub record Serving (Db Host : Type 0) : Type 0 where
  pub rpc : ℕ
  pub pm : P2pManager
  pub heap : Heap
  pub store : Store Db
  pub self_service : Option (List (Member Host))

-- `time.Second*5` and the text that a client gets then.
abbrev pub handler_seconds : ℕ
handler_seconds = 5

abbrev pub handler_message : Text
handler_message = codes "Timeout!"

-- `InitRouter`: `RegisterService`, and `ListenAndServe` with `TimeoutHandler` around the router.
unfoldable pub init_router : {Db Host : Type 0} → Outside → Serving Db Host → Done
init_router o s = do
  _ ← unless o.register_service
  unless (o.listen_and_serve s.rpc (o.timeout_handler handler_seconds handler_message))

-- `StartGRPC`, which `main` does not call, over `net.Listen` and `Serve`.
unfoldable pub start_grpc : (ℕ → Option Error) → Option Error → ℕ → Done
start_grpc listen serve port = do _ ← unless (listen port); unless serve

module _ (l : Libs) (c : Codec) (b : Badger c.Doc) (n : Net) (o : Outside) where
  -- The branch on `selfHost`.
  abbrev pub other_nodes : Bool → Result (Option (List (Member n.Host)))
  other_nodes true = (new_self_service (make_basic_host_by_id n)).0 >>= λ hosts. ok (some hosts)
  other_nodes false = setup_discovery o.start_mdns >>= λ _. ok none

  -- The port of the flags, if there is one.
  abbrev pub rpc_port : Flags → AppConfig → ℕ
  rpc_port flags config = if flags.port == 0 then config.rpc else flags.port

  -- What `main` has before its first `defer`.
  pub record Prepared : Type 0 where
    pub rpc : ℕ
    pub pm : P2pManager
    pub heap : Heap
    pub store : Store b.Db

  -- `main`, up to the store; the port of the flags is set later in the source.
  unfoldable pub prepare : Flags → Heap → Result Prepared
  unfolding read_app_config_file
  prepare flags heap = do
    config ← read_app_config_file o flags.config_file
    key ← get_private_key_from_keystore o.read_file o.decrypt_key flags.keystore_file flags.password
    (host, pid) ← make_basic_host n l config.port key
    let (pm, heap') = new_peer_manager heap pid protocol_id
    store ← new_store_handler l c b config.store (some key)
    ok (record { rpc = rpc_port flags config; pm = pm; heap = heap'; store = store })

  -- The deferred calls.
  pub data Deferred : Type 0 where
    close_self_service : List (Member n.Host) → Deferred
    defer_store : Store b.Db → Deferred

  -- They run in this order, when `main` returns and in a panic.
  abbrev pub deferred : Store b.Db → Option (List (Member n.Host)) → List Deferred
  deferred store none = defer_store store ∷ []
  deferred store (some hosts) = close_self_service hosts ∷ defer_store store ∷ []

  abbrev exits : List Deferred → Done → Done × List Deferred
  exits ds (ok _) = (ok tt, ds)
  exits ds (err e) = (err e, [])
  exits ds (panic x) = (panic x, ds)

  abbrev pub serving : Prepared → Option (List (Member n.Host)) → Serving b.Db n.Host
  serving p self_service = record {
    rpc = p.rpc;
    pm = p.pm;
    heap = p.heap;
    store = p.store;
    self_service = self_service;
  }

  abbrev serve : Prepared → Result (Option (List (Member n.Host))) → Done × List Deferred
  serve p (ok self_service) =
      exits (deferred p.store self_service)
        (unless o.register_peer_service >>= λ _. init_router o (serving p self_service))
  serve p (err e) = (err e, [])
  serve p (panic x) = (panic x, defer_store p.store ∷ [])

  abbrev run_prepared : Bool → Result Prepared → Done × List Deferred
  run_prepared self_host (ok p) = serve p (other_nodes self_host)
  run_prepared self_host (err e) = (err e, [])
  run_prepared self_host (panic x) = (panic x, [])

  -- `main`: how it ends, and the deferred calls that run then.
  unfoldable pub main : Flags → Heap → Done × List Deferred
  unfolding prepare init_router
  main flags heap = run_prepared flags.self_host (prepare flags heap)
