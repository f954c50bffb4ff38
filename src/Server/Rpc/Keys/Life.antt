-- ===== src/Server/Rpc/Keys/Life.antt =====
-- The life of a key, over the badger store: server/rpc_server.go, service/dkg.go, service/reshare.go and
-- service/signer.go over store/badger_handler.go.
use alice_tss.Base.{
  ℕ, ◌≡◌, refl, true, false, ◌⊎◌, inl, inr, sym, subst, some, none, List, Bytes, Text, codes, ok,
  err, Error,
}
use alice_tss.Libs.{Libs, LibLaws, PrivateKey, DkgOutcome}
use alice_tss.Json.{IsAscii}
use alice_tss.Peer.Manager.{Heap, P2pManager, get_protocol, clone_peer_manager, peer_ids, num_peers}
use alice_tss.Store.Backend.{Codec, CodecLaws, Badger, BadgerLaws}
use alice_tss.Store.Badger.{pubkey_text, get_signer_config, save_dkg_result_data}
use alice_tss.Store.Badger.RoundTrip.{IsOutcome}
use alice_tss.Store.Badger.Refine.{Holds, save-Holds}
use alice_tss.Store.Badger.Steady.{Steady, save_steady}
use alice_tss.Store.Handler.{badger_handler}
use alice_tss.Service.Node.{next, Service, Node, set_stream_handler}
use alice_tss.Service.Dkg.{stream_protocol, new_dkg_service}
use alice_tss.Service.Dkg.Ending.{saving, over, Ending, Step, at_done, returned_lem, returns_first}
use alice_tss.Steps.{Reach}
use alice_tss.Service.Lifecycle.{Event, ends, machine_after}
use alice_tss.Service.Lifecycle.Dkgs.{dkg_leaves}
use alice_tss.Service.Lifecycle.Dones.{to_done, ends-to_done, node_after-to_done}
use alice_tss.Server.Requests.{Link, args_for}
use alice_tss.Server.Requests.Laws.{AllReply, rpc_to_peer_lem}
use alice_tss.Server.Tss.{Alice, register_dkg}
use alice_tss.Server.Tss.Laws.{final_keygen, final_dkg_node, register_dkg_finishes}
use alice_tss.Server.Rpc.{waiting, sent, DkgReply, generated, dkg_reply, rpc_register_dkg}
use alice_tss.Server.Rpc.Keys.{
  Ask, AllSignable, serve, signatures, refusals, serve-Holds, serve-refusals,
}

module _ (l : Libs) (laws : LibLaws l) (c : Codec) (codec : CodecLaws c) (b : Badger c.Doc)
    (badger : BadgerLaws b) (key : PrivateKey) (steady : Steady c b) (a : Alice) {R : Type 0}
    (links : Text → ℕ → Link R) (text_of : c.Doc → Bytes) (peers : Heap) (pm : P2pManager)
    (fuel : ℕ) where
  -- The node that a key generation leaves which ends done.
  pub final_dkg_node-to_done :
      (hash : Text) (m : a.keygen.M) (before after : List Event) (n : Node b.Db) (d : DkgOutcome)
      → ends before ≡ 0
      → a.keygen.get_result (machine_after (next a.keygen) before (a.keygen.start m)) ≡ some d
      → final_dkg_node l a (badger_handler l c b key) hash m (to_done before after) n
        ≡ record (set_stream_handler (stream_protocol hash) hash n) {
          store = (save_dkg_result_data l c b key n.store hash d).1;
        }
  final_dkg_node-to_done hash m before after n d quiet e =
      rw
        (
          node_after-to_done (dkg_leaves a.keygen (badger_handler l c b key)) (next a.keygen) before
              after (a.keygen.start m) hash (set_stream_handler (stream_protocol hash) hash n)
              quiet,
          e,
        )
        refl

  -- The node that the handler leaves.
  abbrev pub with_key : Text → DkgOutcome → Node b.Db → Node b.Db
  with_key hash d n = record (set_stream_handler (stream_protocol hash) hash n) {
    store = (save_dkg_result_data l c b key n.store hash d).1;
  }

  -- The key of the outcome is what the client gets, and the store holds the outcome.
  pub rpc_register_dkg-Holds :
      (hash : Text) (m : a.keygen.M) (before after : List Event) (n : Node b.Db) (d : DkgOutcome)
      → AllReply links fuel
          (args_for peers
            (clone_peer_manager pm (get_protocol hash))
            (codes "TssPeerService")
            (codes "RegisterDKG")
            hash)
          (peer_ids peers (clone_peer_manager pm (get_protocol hash)))
      → a.new_dkg (record {
        rank = 0;
        threshold = num_peers peers (clone_peer_manager pm (get_protocol hash));
      })
        ≡ ok m
      → ends before ≡ 0
      → ends after ≡ 0
      → a.keygen.get_result (machine_after (next a.keygen) before (a.keygen.start m)) ≡ some d
      → a.keygen.get_result (final_keygen l a (badger_handler l c b key) m (to_done before after))
        ≡ some d
      → IsOutcome d
      → (save_dkg_result_data l c b key n.store hash d).0 ≡ ok tt
      → (rpc_register_dkg l a c
            (badger_handler l c b key)
            links
            text_of
            peers
            pm
            fuel
            hash
            (to_done before after)
            n
          ≡ (ok (generated (dkg_reply l hash d)), with_key hash d n))
        × Holds l laws c codec b badger key (with_key hash d n).store hash d
  unfolding rpc_register_dkg
  rpc_register_dkg-Holds hash m before after n d replies made quiet still at_done result outcome
        saved =
      let (eq, _) =
        register_dkg_finishes l a (badger_handler l c b key)
          (save_steady l laws c codec b badger key steady) peers
          (clone_peer_manager pm (get_protocol hash)) hash m (to_done before after) n made
          (ends-to_done before after quiet still) in
      (
        rw
            (
              rpc_to_peer_lem links fuel peers (clone_peer_manager pm (get_protocol hash))
                  (codes "TssPeerService") (codes "RegisterDKG") hash replies,
              eq,
              result,
              final_dkg_node-to_done hash m before after n d quiet at_done,
            )
            refl,
        save-Holds l laws c codec b badger key n.store hash d outcome saved,
      )

  -- Over a network on which the call to the peers does not come back, the handler waits.
  pub rpc_register_dkg_waits :
      (hash : Text) (m : a.keygen.M) (events : List Event) (n : Node b.Db)
      → a.new_dkg (record {
        rank = 0;
        threshold = num_peers peers (clone_peer_manager pm (get_protocol hash));
      })
        ≡ ok m
      → sent l a c
          (badger_handler l c b key)
          links
          text_of
          peers
          pm
          fuel
          hash
          (codes "RegisterDKG")
          hash
        ≡ none
      → (rpc_register_dkg l a c
          (badger_handler l c b key)
          links
          text_of
          peers
          pm
          fuel
          hash
          events
          n).0
        ≡ ok waiting
  unfolding rpc_register_dkg register_dkg new_dkg_service
  rpc_register_dkg_waits hash m events n made silent = rw (made, silent) refl

  -- The service of the key generation when its protocol becomes done.
  abbrev pub doing : Text → a.keygen.M → List Event → Service a.keygen.M
  doing hash m before = record {
    machine = machine_after (next a.keygen) before (a.keygen.start m);
    hash = hash;
    done_closed = false;
  }

  -- What comes after that: the save, and the return of `Process`.
  abbrev pub Ends : Text → a.keygen.M → List Event → Node b.Db → Ending a.keygen.M b.Db → Type 0
  Ends hash m before n s =
      Reach (Step a.keygen (badger_handler l c b key))
        (at_done a.keygen (badger_handler l c b key) (doing hash m before)
          (set_stream_handler (stream_protocol hash) hash n))
        s

  -- Each request gets the error, and the node stays as it is.
  abbrev pub Unserved : DkgReply → List Ask → Error → Node b.Db → Type 0
  Unserved reply qs e n =
      serve l laws c codec b badger key steady a links text_of peers pm fuel reply.hash reply.pubkey
        qs n
      ≡ (refusals l laws c codec b badger key steady a links text_of peers pm fuel e qs, n)

  -- Each request gets its signature, and the store holds the outcome still.
  abbrev pub Served :
      (hash : Text) (ascii : IsAscii hash) (d : DkgOutcome) (qs : List Ask)
      → AllSignable l laws c codec b badger key steady a links text_of peers pm fuel hash ascii d qs
      → Node b.Db
      → Type 0
  Served hash ascii d qs all n =
      let reply = dkg_reply l hash d in
      let (answers, n') =
        serve l laws c codec b badger key steady a links text_of peers pm fuel reply.hash
          reply.pubkey qs n in
      (answers
        ≡ signatures l laws c codec b badger key steady a links text_of peers pm fuel hash ascii d
            qs all)
      × Holds l laws c codec b badger key n'.store hash d

  unserved :
      (hash : Text) (ascii : IsAscii hash) (d : DkgOutcome) (qs : List Ask) (e : Error)
      (n n' : Node b.Db)
      → get_signer_config l c b key n.store hash (pubkey_text l d) ≡ err e
      → AllSignable l laws c codec b badger key steady a links text_of peers pm fuel hash ascii d qs
      → n' ≡ set_stream_handler (stream_protocol hash) hash n
      → Unserved (dkg_reply l hash d) qs e n'
  unserved hash ascii d qs e n n' missing all same = rw same (
      serve-refusals l laws c codec b badger key steady a links text_of peers pm fuel hash ascii d
        qs (set_stream_handler (stream_protocol hash) hash n) e all missing)

  by_return :
      (hash : Text) (ascii : IsAscii hash) (d : DkgOutcome) (qs : List Ask) (e : Error)
      (n : Node b.Db) (s : Ending a.keygen.M b.Db)
      (all : AllSignable l laws c codec b badger key steady a links text_of peers pm fuel hash ascii
        d qs)
      → l.new_ec_point d.public_key.x d.public_key.y ≡ ok d.public_key
      → get_signer_config l c b key n.store hash (pubkey_text l d) ≡ err e
      → Holds l laws c codec b badger key (with_key hash d n).store hash d
      → ((s.phase ≡ saving (some d)) × (s.node ≡ set_stream_handler (stream_protocol hash) hash n))
        ⊎ ((s.phase ≡ over) × (s.node ≡ with_key hash d n))
      → ((s.phase ≡ saving (some d)) × Unserved (dkg_reply l hash d) qs e s.node)
        ⊎ ((s.phase ≡ over) × (s.node ≡ with_key hash d n) × Served hash ascii d qs all s.node)
  by_return hash ascii d qs e n s all curve missing there (inl (at, same)) =
      inl (at, unserved hash ascii d qs e n s.node missing all same)
  by_return hash ascii d qs e n s all curve missing there (inr (at, same)) = inr (
    at,
    same,
    subst (λ (x : Node b.Db). Served hash ascii d qs all x) (sym same)
        (serve-Holds l laws c codec b badger key steady a links text_of peers pm fuel hash ascii d
          qs (with_key hash d n) all curve there),
  )

  -- A key generation that a client asks for, under an ASCII hash, over a badger store that has no configuration
  -- for the hash but an error: where encoding/json and badger do not panic, every known peer replies to some
  -- attempt within the fuel, alice accepts rank 0 and the number of known peers as the threshold, the protocol
  -- reports exactly one end, a done, and has an outcome then and when it was stopped, whose numbers are natural,
  -- whose peers have distinct ASCII names and whose ranks are below 2 ^ 32, on a point that alice accepts, and
  -- its save reports no error. The client gets the key of the outcome and the hash. Let it then send any list of
  -- requests to sign ASCII messages with the hash and the public key of that reply, one after the other, none of
  -- whose messages has the hash of the key, where alice makes a signer on the outcome for each, every known peer
  -- replies and each signer reports exactly one end. The call returns once `done` is closed, at any state that the
  -- end of the key generation can come to: either the outcome is still to be saved, and every request gets the
  -- error of the store; or it has been saved, and each request is answered with the signature of its signer,
  -- or an error for one that has no result, and the store holds the outcome still. The former does come about: the
  -- call may return before the save.
  pub serve-rpc_register_dkg :
      (hash : Text) (ascii : IsAscii hash) (m : a.keygen.M) (before after : List Event)
      (n : Node b.Db) (d : DkgOutcome) (qs : List Ask) (e : Error) (s : Ending a.keygen.M b.Db)
      → AllReply links fuel
          (args_for peers
            (clone_peer_manager pm (get_protocol hash))
            (codes "TssPeerService")
            (codes "RegisterDKG")
            hash)
          (peer_ids peers (clone_peer_manager pm (get_protocol hash)))
      → a.new_dkg (record {
        rank = 0;
        threshold = num_peers peers (clone_peer_manager pm (get_protocol hash));
      })
        ≡ ok m
      → ends before ≡ 0
      → ends after ≡ 0
      → a.keygen.get_result (machine_after (next a.keygen) before (a.keygen.start m)) ≡ some d
      → a.keygen.get_result (final_keygen l a (badger_handler l c b key) m (to_done before after))
        ≡ some d
      → IsOutcome d
      → l.new_ec_point d.public_key.x d.public_key.y ≡ ok d.public_key
      → (save_dkg_result_data l c b key n.store hash d).0 ≡ ok tt
      → get_signer_config l c b key n.store hash (pubkey_text l d) ≡ err e
      → (all : AllSignable l laws c codec b badger key steady a links text_of peers pm fuel hash
          ascii d qs)
      → Ends hash m before n s
      → s.returned ≡ true
      → let reply = dkg_reply l hash d in
        (rpc_register_dkg l a c
            (badger_handler l c b key)
            links
            text_of
            peers
            pm
            fuel
            hash
            (to_done before after)
            n
          ≡ (ok (generated reply), with_key hash d n))
        × (((s.phase ≡ saving (some d)) × Unserved reply qs e s.node)
            ⊎ ((s.phase ≡ over) × (s.node ≡ with_key hash d n) × Served hash ascii d qs all s.node))
        × ((s0 : Ending a.keygen.M b.Db) × Ends hash m before n s0
            × (s0.returned ≡ true)
            × Unserved reply qs e s0.node)
  serve-rpc_register_dkg hash ascii m before after n d qs e s replies made quiet still at result
        outcome curve saved missing all reached back =
      let (answered, there) =
        rpc_register_dkg-Holds hash m before after n d replies made quiet still at result outcome
          saved in
      let (s0, reached0, back0, same0) =
        returns_first a.keygen (badger_handler l c b key) (doing hash m before)
          (set_stream_handler (stream_protocol hash) hash n) d at refl (λ x bad. cc) in
      (
        answered,
        by_return hash ascii d qs e n s all curve missing there (
            returned_lem a.keygen (badger_handler l c b key) (doing hash m before)
              (set_stream_handler (stream_protocol hash) hash n) d at refl (λ x bad. cc) s reached
              back),
        (s0, reached0, back0, unserved hash ascii d qs e n s0.node missing all same0),
      )
