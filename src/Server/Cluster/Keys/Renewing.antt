-- ===== src/Server/Cluster/Keys/Renewing.antt =====
-- The other nodes of a resharing, each over its own badger store: the handler of server/rpc_peer.go and the
-- goroutine of service/reshare.go that it starts.
use alice_tss.Base.{
  ℕ, ◌≡◌, refl, sym, subst, ◌⊎◌, inl, Option, some, none, List, [], ◌∷◌, All, Bytes, Text, codes,
  lookup, Result, ok, Error,
}
use alice_tss.Libs.{Libs, LibLaws, Point, DkgOutcome, ReshareOutcome}
use alice_tss.Codec.Hex.{hex_encode}
use alice_tss.Peer.Manager.{Heap, P2pManager, get_protocol}
use alice_tss.Peer.Transport.{AddrInfo}
use alice_tss.Store.Backend.{Codec, CodecLaws, Badger, BadgerLaws}
use alice_tss.Store.Badger.{pubkey_text, update_dkg_result_data}
use alice_tss.Store.Badger.RoundTrip.{IsNatural, signer_config_of}
use alice_tss.Store.Badger.Refine.{Holds, get_signer_config-Holds}
use alice_tss.Store.Badger.Steady.{Steady}
use alice_tss.Store.Handler.{badger_handler}
use alice_tss.Service.Node.{next, Service, Node, set_stream_handler}
use alice_tss.Service.Reshare.{handle_reshare, on_reshare_state_changed}
use alice_tss.Service.Lifecycle.{Event, ends, machine_after, process}
use alice_tss.Service.Lifecycle.Dones.{to_done}
use alice_tss.Service.Continuity.{renewed, with_share, on_reshare_state_changed-Holds}
use alice_tss.Server.Requests.{args_for, unmarshal_request}
use alice_tss.Server.Requests.Laws.{AllReply}
use alice_tss.Server.Tss.{spawned, reshare_config}
use alice_tss.Server.Peers.{peer_reshare}
use alice_tss.Server.Rpc.Keys.Renewal.{renewing, new_reshare_of_lem}
use alice_tss.Server.Cluster.{
  Colleague, Returned, outcome_only, Routed, links_to, Addressed, Connects, colleague-Replies,
}
use alice_tss.Server.Cluster.Keys.{Fellow, as_colleague}
use alice_tss.Server.Cluster.Keys.Holders.{manager_of}

module _ (l : Libs) (laws : LibLaws l) (c : Codec) (codec : CodecLaws c) (b : Badger c.Doc)
    (badger : BadgerLaws b) (steady : Steady c b) where
  -- How a resharing goes on a node: the outcome that it holds, what alice makes, what it takes in and reports,
  -- and the new share.
  pub record Turn (x : Fellow l laws c codec b badger steady) : Type 0 where
    pub outcome : DkgOutcome
    pub machine : x.alice.resharing.M
    pub before : List Event
    pub after : List Event
    pub share : ReshareOutcome

  module _ (hash : Text) (d : DkgOutcome) (payload : Bytes)
      (x : Fellow l laws c codec b badger steady) (t : Turn x) where
    abbrev pub asked_of : Service x.alice.resharing.M
    asked_of = renewing l laws c codec b badger x.key steady x.alice hash t.machine

    abbrev pub hearing : Node b.Db
    hearing = set_stream_handler (get_protocol hash) hash x.node

    abbrev pub new_outcome : DkgOutcome
    new_outcome = record t.outcome { share = t.share.share }

    -- The fellow without the stream handler, and with the new share in its store.
    abbrev pub after_resharing : Fellow l laws c codec b badger steady
    after_resharing = record x {
      node = with_share l laws c codec b badger x.key x.alice.resharing hash t.share hearing;
    }

    -- The node holds an outcome with the same public key, reads the request, and alice accepts the configuration;
    -- the protocol reports one end, a done, and has then a new share that is natural; and its update reports no
    -- error.
    pub record Renews : Type 0 where
      pub holds : Holds l laws c codec b badger x.key x.node.store hash t.outcome
      pub same_key : t.outcome.public_key ≡ d.public_key
      pub read :
          x.formats.reshare_json payload ≡ ok (record { hash = hash; pubkey = pubkey_text l d })
      pub made :
          x.alice.new_reshare
            (reshare_config l x.alice (badger_handler l c b x.key) (signer_config_of t.outcome))
            t.outcome
          ≡ ok t.machine
      pub quiet : ends t.before ≡ 0
      pub still : ends t.after ≡ 0
      pub at_done :
          x.alice.resharing.get_result
            (machine_after (next x.alice.resharing) t.before (x.alice.resharing.start t.machine))
          ≡ some t.share
      pub natural : IsNatural t.share.share
      pub updated : (update_dkg_result_data l c b x.key x.node.store hash t.share).0 ≡ ok tt

    peer_renews :
        l.new_ec_point d.public_key.x d.public_key.y ≡ ok d.public_key
        → Renews
        → peer_reshare l x.alice (badger_handler l c b x.key) x.formats payload x.node
          ≡ (ok (spawned asked_of), hearing)
    unfolding peer_reshare unmarshal_request
    peer_renews curve r =
        let on_curve : l.new_ec_point t.outcome.public_key.x t.outcome.public_key.y
            ≡ ok t.outcome.public_key =
          subst (λ (q : Point). l.new_ec_point q.x q.y ≡ ok q) (sym r.same_key) curve in
        let there : (badger_handler l c b x.key).get_signer_config x.node.store hash
              (pubkey_text l d)
            ≡ ok (signer_config_of t.outcome) =
          subst
            (λ (q : Point).
              (badger_handler l c b x.key).get_signer_config x.node.store hash
                (hex_encode (l.compress_pubkey q.x q.y))
              ≡ ok (signer_config_of t.outcome))
            r.same_key
            (get_signer_config-Holds l laws c codec b badger x.key x.node.store hash t.outcome
              r.holds) in
        rw
          (
            r.read,
            there,
            new_reshare_of_lem l laws c codec b badger x.key steady x.alice hash t.outcome t.machine
                x.node r.holds.outcome on_curve r.made,
          )
          refl

    -- The handler starts the service of the hash, which returns with its stream handler gone and with the new share
    -- in the store.
    pub record Renewed : Type 0 where
      pub starts :
          peer_reshare l x.alice (badger_handler l c b x.key) x.formats payload x.node
          ≡ (ok (spawned asked_of), hearing)
      pub returns :
          process x.alice.resharing.start x.alice.resharing.stop
            (handle_reshare l x.alice.resharing (badger_handler l c b x.key))
            (on_reshare_state_changed l x.alice.resharing (badger_handler l c b x.key))
            (to_done t.before t.after)
            asked_of
            hearing
          ≡ ok (
              some (
                renewed l laws c codec b badger x.key x.alice.resharing t.before t.after asked_of,
                after_resharing.node,
              ))
      pub gone : lookup (get_protocol hash) after_resharing.node.handlers ≡ none
      pub holds_new :
          Holds l laws c codec b badger x.key after_resharing.node.store hash new_outcome

    pub renews : l.new_ec_point d.public_key.x d.public_key.y ≡ ok d.public_key → Renews → Renewed
    renews curve r =
        let (returns, gone, there) =
          on_reshare_state_changed-Holds l laws c codec b badger x.key x.alice.resharing t.before
            t.after asked_of hearing t.outcome t.share steady r.holds refl r.quiet r.still r.at_done
            r.natural r.updated in
        record { starts = peer_renews curve r; returns = returns; gone = gone; holds_new = there }

  module _ (parse_addr : Text → Text ⊎ Error) (addr_info : Text → AddrInfo ⊎ Error) (peers : Heap)
      (pm : P2pManager) (fuel : ℕ) (hash : Text) (d : DkgOutcome)
      (curve : l.new_ec_point d.public_key.x d.public_key.y ≡ ok d.public_key) (payload : Bytes)
      (fellows : Text → Fellow l laws c codec b badger steady)
      (turns : (k : Text) → Turn (fellows k)) (dials : Text → ℕ → Option Error)
      (remote : Text → Text → Text → Bytes → Unit {0} ⊎ Error) where
    abbrev pub holding_it : Text → Colleague b.Db
    holding_it k = as_colleague l laws c codec b badger steady (fellows k)

    -- The peer can be reached, and reshares the key.
    abbrev pub Rejoins : Text → Type 0
    Rejoins k =
        Addressed parse_addr addr_info dials remote peers (manager_of pm hash) k
        × Connects parse_addr addr_info dials remote fuel k
        × Renews hash d payload (fellows k) (turns k)

    called :
        (k : Text)
        → Routed l holding_it remote
        → Renews hash d payload (fellows k) (turns k)
        → remote k (codes "TssPeerService") (codes "Reshare") payload ≡ inl tt
    called k routed r =
        subst
          (λ (o : Result _ × Node b.Db).
            Returned (outcome_only o) (remote k (codes "TssPeerService") (codes "Reshare") payload))
          (peer_renews hash d payload (fellows k) (turns k) curve r) (routed.reshare k payload)

    pub rejoiners_reply :
        (ids : List Text)
        → Routed l holding_it remote
        → All Rejoins ids
        → AllReply
            (links_to parse_addr addr_info dials remote)
            fuel
            (args_for peers (manager_of pm hash) (codes "TssPeerService") (codes "Reshare") payload)
            ids
    rejoiners_reply [] routed all = tt
    rejoiners_reply (k ∷ ids) routed all = (
      colleague-Replies parse_addr addr_info dials remote peers (manager_of pm hash)
          (codes "TssPeerService") (codes "Reshare") k payload all.0.0 fuel all.0.1
          (called k routed all.0.2),
      rejoiners_reply ids routed all.1,
    )

    pub rejoiners_renew :
        (ids : List Text)
        → All Rejoins ids
        → All (λ k. Renewed hash d payload (fellows k) (turns k)) ids
    rejoiners_renew [] all = tt
    rejoiners_renew (k ∷ ids) all =
        (renews hash d payload (fellows k) (turns k) curve all.0.2, rejoiners_renew ids all.1)
