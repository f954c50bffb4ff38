-- ===== src/Main/Laws.antt =====
-- What the program comes to.
use alice_tss.Base.{
  ℕ, ◌≡◌, refl, ap, ◌∙◌, Bool, Option, none, some, List, [], Result, Done, ok, err, panic, Panic,
  ◌>>=◌, Error, Option-cases, ◌⊎◌, inl, inr, ◌==◌, if◌then◌else◌, Text,
}
use alice_tss.Types.{AppConfig}
use alice_tss.Libs.{Libs, PrivateKey}
use alice_tss.Utils.Keys.{get_private_key_from_keystore}
use alice_tss.Peer.Manager.{Heap, new_peer_manager}
use alice_tss.Peer.Transport.{Net, make_basic_host}
use alice_tss.Store.Backend.{Codec, Badger}
use alice_tss.Store.Handler.{Store, new_store_handler}
use alice_tss.Server.SelfService.{Member}
use alice_tss.Main.{
  Flags, Outside, unless, Deferred, protocol_id, rpc_port, read_app_config_file, Serving,
  handler_seconds, handler_message, init_router, other_nodes, Prepared, prepare, deferred, exits,
  serving, serve, run_prepared, main,
}

-- The server does not come back without an error.
abbrev pub Serves : Outside → Type 0
Serves o =
    (port : ℕ)
    → (e : Error) × (o.listen_and_serve port (o.timeout_handler handler_seconds handler_message)
        ≡ some e)

-- An end with an error and without any deferred call, or one in a panic.
abbrev pub Abrupt : {D : Type 0} → Done × List D → Type 0
Abrupt r = ((e : Error) × (r ≡ (err e, []))) ⊎ ((x : Panic) × (r.0 ≡ panic x))

module _ (l : Libs) (c : Codec) (b : Badger c.Doc) (n : Net) (o : Outside) where
  -- What is left of `main` before the server: the registration of the peers' service, and `InitRouter`.
  abbrev rest : Serving b.Db n.Host → Done
  rest s = unless o.register_peer_service >>= λ _. init_router o s

  rest_fails : (s : Serving b.Db n.Host) → Serves o → (e : Error) × (rest s ≡ err e)
  unfolding init_router
  rest_fails s h = elim (Option-cases o.register_peer_service) [
    | inr (e, q) ↦ (e, rw q refl)
    | inl q ↦ elim (Option-cases o.register_service) [
      | inr (e, w) ↦ (e, rw (q, w) refl)
      | inl w ↦ let (e, z) = h s.rpc in (e, rw (q, w, z) refl)
    ]
  ]

  rest_listens :
      (s : Serving b.Db n.Host)
      → o.register_peer_service ≡ none
      → o.register_service ≡ none
      → rest s
        ≡ unless (o.listen_and_serve s.rpc (o.timeout_handler handler_seconds handler_message))
  unfolding init_router
  rest_listens s peer service = rw (peer, service)

  serving_ends :
      (p : Prepared l c b n o) (r : Result (Option (List (Member n.Host))))
      → Serves o
      → Abrupt (serve l c b n o p r)
  serving_ends p (ok ss) h =
      let (e, q) = rest_fails (serving l c b n o p ss) h in
      inl (e, ap (exits l c b n o (deferred l c b n o p.store ss)) q)
  serving_ends p (err e) h = inl (e, refl)
  serving_ends p (panic x) h = inr (x, refl)

  prepared_ends :
      (self_host : Bool) (r : Result (Prepared l c b n o))
      → Serves o
      → Abrupt (run_prepared l c b n o self_host r)
  prepared_ends self_host (ok p) h = serving_ends p (other_nodes l c b n o self_host) h
  prepared_ends self_host (err e) h = inl (e, refl)
  prepared_ends self_host (panic x) h = inr (x, refl)

  -- As long as the HTTP server does not come back without an error, which it never does: for any flags and
  -- whatever else goes wrong, `main` ends with an error and none of its deferred calls has run, so that
  -- neither the store nor the hosts of the self service are closed, or it ends in a panic.
  pub main_ends : (flags : Flags) (heap : Heap) → Serves o → Abrupt (main l c b n o flags heap)
  unfolding main
  main_ends flags heap h = prepared_ends flags.self_host (prepare l c b n o flags heap) h

  -- Where everything before the server is set up and its service is registered: the server listens on the port
  -- of the flags, or on that of the configuration where the flags give none, and its error is what `main`
  -- ends with.
  pub main_listens :
      (flags : Flags) (heap : Heap) (config : AppConfig) (key : PrivateKey) (host : n.Host)
      (pid : Text) (store : Store b.Db) (self_service : Option (List (Member n.Host)))
      → read_app_config_file o flags.config_file ≡ ok config
      → get_private_key_from_keystore o.read_file o.decrypt_key flags.keystore_file flags.password
        ≡ ok key
      → make_basic_host n l config.port key ≡ ok (host, pid)
      → new_store_handler l c b config.store (some key) ≡ ok store
      → other_nodes l c b n o flags.self_host ≡ ok self_service
      → o.register_peer_service ≡ none
      → o.register_service ≡ none
      → (main l c b n o flags heap).0
        ≡ unless (
            o.listen_and_serve
              (if flags.port == 0 then config.rpc else flags.port)
              (o.timeout_handler handler_seconds handler_message))
  unfolding main prepare init_router
  main_listens flags heap config key host pid store self_service read unlocked made kept others peer
        service =
      let (pm, heap') = new_peer_manager heap pid protocol_id in
      let p : Prepared l c b n o = record {
        rpc = rpc_port l c b n o flags config;
        pm = pm;
        heap = heap';
        store = store;
      } in
      rw (read, unlocked, made, kept, others)
        (exits_outcome (deferred l c b n o store self_service) _
          ∙ rest_listens (serving l c b n o p self_service) peer service)
    where
      exits_outcome : (ds : List (Deferred l c b n o)) (d : Done) → (exits l c b n o ds d).0 ≡ d
      exits_outcome ds (ok _) = refl
      exits_outcome ds (err e) = refl
      exits_outcome ds (panic x) = refl
