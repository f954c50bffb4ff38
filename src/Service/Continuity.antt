-- ===== src/Service/Continuity.antt =====
-- The whole process of a resharing that ends done, over the badger store: service/reshare.go over
-- store/badger_handler.go.
use alice_tss.Base.{◌≡◌, refl, true, false, none, some, List, Text, ok, lookup}
use alice_tss.Libs.{Libs, LibLaws, PrivateKey, DkgOutcome, ReshareOutcome}
use alice_tss.Peer.Manager.{get_protocol}
use alice_tss.Store.Backend.{Codec, CodecLaws, Badger, BadgerLaws}
use alice_tss.Store.Badger.{update_dkg_result_data}
use alice_tss.Store.Badger.RoundTrip.{IsNatural}
use alice_tss.Store.Badger.Refine.{Holds, update-Holds}
use alice_tss.Store.Badger.Steady.{Steady, update_steady}
use alice_tss.Store.Handler.{badger_handler}
use alice_tss.Service.Node.{Machine, Service, Node, next, remove_stream_handler}
use alice_tss.Service.Reshare.{handle_reshare, on_reshare_state_changed}
use alice_tss.Service.Lifecycle.{Event, ends, machine_after, node_after, process}
use alice_tss.Service.Lifecycle.Services.{removed}
use alice_tss.Service.Lifecycle.Dones.{to_done, ends-to_done, node_after-to_done}
use alice_tss.Service.Lifecycle.Reshares.{reshare_leaves, reshare_process_returns}

module _ (l : Libs) (laws : LibLaws l) (c : Codec) (codec : CodecLaws c) (b : Badger c.Doc)
    (badger : BadgerLaws b) (key : PrivateKey) (reshare : Machine ReshareOutcome) where
  -- The service at the end, and the node that it leaves.
  abbrev pub renewed : List Event → List Event → Service reshare.M → Service reshare.M
  renewed before after p = record p {
    machine =
        reshare.stop
          (machine_after (next reshare) (to_done before after) (reshare.start p.machine));
    done_closed = true;
  }

  abbrev pub with_share : Text → ReshareOutcome → Node b.Db → Node b.Db
  with_share hash r n = record (remove_stream_handler (get_protocol hash) n) {
    store = (update_dkg_result_data l c b key n.store hash r).1;
  }

  -- The node is left without its stream handler, and with the new share saved.
  leaves_updated :
      (before after : List Event) (p : Service reshare.M) (n : Node b.Db) (r : ReshareOutcome)
      → ends before ≡ 0
      → reshare.get_result (machine_after (next reshare) before (reshare.start p.machine)) ≡ some r
      → node_after
          (reshare_leaves l reshare (badger_handler l c b key))
          (next reshare)
          (to_done before after)
          (reshare.start p.machine)
          p.hash
          n
        ≡ with_share p.hash r n
  leaves_updated before after p n r quiet e =
      rw
        (
          node_after-to_done (reshare_leaves l reshare (badger_handler l c b key)) (next reshare)
              before after (reshare.start p.machine) p.hash n quiet,
          e,
        )
        refl

  -- The process of a resharing on a node that holds an outcome leaves a store that holds the outcome with the new share.
  pub on_reshare_state_changed-Holds :
      (before after : List Event) (p : Service reshare.M) (n : Node b.Db) (d : DkgOutcome)
      (r : ReshareOutcome)
      → Steady c b
      → Holds l laws c codec b badger key n.store p.hash d
      → p.done_closed ≡ false
      → ends before ≡ 0
      → ends after ≡ 0
      → reshare.get_result (machine_after (next reshare) before (reshare.start p.machine)) ≡ some r
      → IsNatural r.share
      → (update_dkg_result_data l c b key n.store p.hash r).0 ≡ ok tt
      → (process reshare.start reshare.stop
            (handle_reshare l reshare (badger_handler l c b key))
            (on_reshare_state_changed l reshare (badger_handler l c b key))
            (to_done before after)
            p
            n
          ≡ ok (some (renewed before after p, with_share p.hash r n)))
        × (lookup (get_protocol p.hash) (with_share p.hash r n).handlers ≡ none)
        × Holds l laws c codec b badger key
            (with_share p.hash r n).store
            p.hash
            (record d { share = r.share })
  on_reshare_state_changed-Holds before after p n d r steady holds o quiet still e natural updated =
      let (returns, _) =
        reshare_process_returns l reshare (badger_handler l c b key) (to_done before after) p n
          (update_steady l laws c codec b badger key steady n.store p.hash d holds) o
          (ends-to_done before after quiet still) in
      (
        rw (leaves_updated before after p n r quiet e) at returns,
        removed p.hash n,
        update-Holds l laws c codec b badger key n.store p.hash d r natural holds updated,
      )
