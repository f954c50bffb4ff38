-- ===== src/Server/Cluster/Keys.antt =====
-- A key is generated by the nodes together, each over its own badger store: the handler of server/rpc_peer.go
-- and the goroutine of service/dkg.go that it starts.
pub mod Holders
pub mod Joining
pub mod Renewing
pub mod Renewal
pub mod Life
use alice_tss.Base.{
  ◌≡◌, refl, true, false, ◌⊎◌, inl, List, Bytes, Text, subst, some, Option, Result, Error, ok,
  codes,
}
use alice_tss.Libs.{Libs, LibLaws, PrivateKey, DkgOutcome}
use alice_tss.Peer.Manager.{Heap, P2pManager, get_protocol, clone_peer_manager}
use alice_tss.Store.Backend.{Codec, CodecLaws, Badger, BadgerLaws}
use alice_tss.Store.Badger.{save_dkg_result_data}
use alice_tss.Store.Badger.RoundTrip.{IsOutcome}
use alice_tss.Store.Badger.Refine.{Holds, save-Holds}
use alice_tss.Store.Badger.Steady.{Steady, save_steady}
use alice_tss.Store.Handler.{badger_handler}
use alice_tss.Service.Node.{next, Service, Node, set_stream_handler}
use alice_tss.Service.Dkg.{stream_protocol, new_dkg_service, handle_dkg, on_dkg_state_changed}
use alice_tss.Service.Lifecycle.{Event, ends, machine_after, node_after, process}
use alice_tss.Service.Lifecycle.Dkgs.{dkg_leaves, dkg_process_returns}
use alice_tss.Service.Lifecycle.Dones.{to_done, ends-to_done, node_after-to_done}
use alice_tss.Server.Tss.{Alice, spawned, dkg_config, register_dkg}
use alice_tss.Server.Peers.{Formats, peer_register_dkg}
use alice_tss.Server.Cluster.{Colleague, Returned, outcome_only, Routed}

module _ (l : Libs) (laws : LibLaws l) (c : Codec) (codec : CodecLaws c) (b : Badger c.Doc)
    (badger : BadgerLaws b) (steady : Steady c b) where
  -- A node over badger, with the key that it encrypts shares with.
  pub record Fellow : Type 1 where
    pub alice : Alice
    pub key : PrivateKey
    pub formats : Formats
    pub heap : Heap
    pub manager : P2pManager
    pub node : Node b.Db

  abbrev pub as_colleague : Fellow → Colleague b.Db
  as_colleague x = record {
    alice = x.alice;
    handler = badger_handler l c b x.key;
    formats = x.formats;
    heap = x.heap;
    manager = x.manager;
    node = x.node;
  }

  -- How a key generation goes on a node: what alice makes, what it takes in and reports, and its outcome.
  pub record Course (x : Fellow) : Type 0 where
    pub machine : x.alice.keygen.M
    pub before : List Event
    pub after : List Event
    pub outcome : DkgOutcome

  module _ (hash : Text) (x : Fellow) (g : Course x) where
    abbrev pub fresh : Service x.alice.keygen.M
    fresh = record { machine = g.machine; hash = hash; done_closed = false }

    abbrev pub listening : Node b.Db
    listening = set_stream_handler (stream_protocol hash) hash x.node

    -- The fellow with the outcome of the generation in its store.
    abbrev pub after_generation : Fellow
    after_generation = record x {
      node = record listening {
        store = (save_dkg_result_data l c b x.key x.node.store hash g.outcome).1;
      };
    }

    -- Alice accepts the threshold; the protocol reports one end, a done, and has the outcome then, which is
    -- well-formed; and its save reports no error.
    pub record Generates : Type 0 where
      pub made :
          x.alice.new_dkg (
            dkg_config l x.alice
              (badger_handler l c b x.key)
              x.heap
              (clone_peer_manager x.manager (get_protocol hash)))
          ≡ ok g.machine
      pub quiet : ends g.before ≡ 0
      pub still : ends g.after ≡ 0
      pub at_done :
          x.alice.keygen.get_result
            (machine_after (next x.alice.keygen) g.before (x.alice.keygen.start g.machine))
          ≡ some g.outcome
      pub well : IsOutcome g.outcome
      pub saved : (save_dkg_result_data l c b x.key x.node.store hash g.outcome).0 ≡ ok tt

    peer_registers :
        Generates
        → peer_register_dkg l x.alice
            (badger_handler l c b x.key)
            x.formats
            x.heap
            x.manager
            hash
            x.node
          ≡ (ok (spawned fresh), listening)
    unfolding peer_register_dkg register_dkg new_dkg_service
    peer_registers gen = rw gen.made refl

    -- The service at the end: its protocol has taken in all messages and was stopped.
    abbrev pub closed : Service x.alice.keygen.M
    closed = record {
      machine = x.alice.keygen.stop (
          machine_after (next x.alice.keygen) (to_done g.before g.after)
            (x.alice.keygen.start g.machine));
      hash = hash;
      done_closed = true;
    }

    -- The handler starts the service of the hash, which returns with the outcome in the store.
    pub record Generated : Type 0 where
      pub starts :
          peer_register_dkg l x.alice
            (badger_handler l c b x.key)
            x.formats
            x.heap
            x.manager
            hash
            x.node
          ≡ (ok (spawned fresh), listening)
      pub returns :
          process x.alice.keygen.start x.alice.keygen.stop
            (handle_dkg x.alice.keygen (badger_handler l c b x.key))
            (on_dkg_state_changed x.alice.keygen (badger_handler l c b x.key))
            (to_done g.before g.after)
            fresh
            listening
          ≡ ok (some (closed, after_generation.node))
      pub holds : Holds l laws c codec b badger x.key after_generation.node.store hash g.outcome

    left :
        Generates
        → node_after
            (dkg_leaves x.alice.keygen (badger_handler l c b x.key))
            (next x.alice.keygen)
            (to_done g.before g.after)
            (x.alice.keygen.start g.machine)
            hash
            listening
          ≡ after_generation.node
    left gen =
        rw
          (
            node_after-to_done (dkg_leaves x.alice.keygen (badger_handler l c b x.key))
                (next x.alice.keygen) g.before g.after (x.alice.keygen.start g.machine) hash
                listening gen.quiet,
            gen.at_done,
          )
          refl

    pub generates : Generates → Generated
    generates gen = record {
      starts = peer_registers gen;
      returns =
          rw
            (
              (dkg_process_returns x.alice.keygen (badger_handler l c b x.key)
                  (save_steady l laws c codec b badger x.key steady) (to_done g.before g.after)
                  fresh listening refl (ends-to_done g.before g.after gen.quiet gen.still)).0,
              left gen,
            )
            refl;
      holds =
          save-Holds l laws c codec b badger x.key x.node.store hash g.outcome gen.well gen.saved;
    }

  pub generates_call :
      (hash : Text) (fellows : Text → Fellow) (k : Text) (g : Course (fellows k))
      (remote : Text → Text → Text → Bytes → Unit {0} ⊎ Error)
      → Generates hash (fellows k) g
      → Routed l (λ id. as_colleague (fellows id)) remote
      → remote k (codes "TssPeerService") (codes "RegisterDKG") hash ≡ inl tt
  generates_call hash fellows k g remote gen routed =
      subst
        (λ (r : Result _ × Node b.Db).
          Returned (outcome_only r) (remote k (codes "TssPeerService") (codes "RegisterDKG") hash))
        (peer_registers hash (fellows k) g gen) (routed.register_dkg k hash)
