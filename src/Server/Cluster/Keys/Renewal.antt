-- ===== src/Server/Cluster/Keys/Renewal.antt =====
-- A key gets new shares on all of its nodes, and all sign with them: server/rpc_server.go on one of the nodes and
-- server/rpc_peer.go on the others.
use alice_tss.Base.{
  codes, ℕ, ◌≡◌, ◌⊎◌, Option, List, Bytes, Text, ok, Error, true, Bool, if◌then◌else◌,
}
use alice_tss.Libs.{Libs, LibLaws, PrivateKey, DkgOutcome, ReshareOutcome}
use alice_tss.Json.{IsAscii}
use alice_tss.Utils.Keys.{to_hex_hash}
use alice_tss.Peer.Manager.{Heap, P2pManager, get_protocol}
use alice_tss.Peer.Transport.{AddrInfo}
use alice_tss.Store.Backend.{Codec, CodecLaws, Badger, BadgerLaws}
use alice_tss.Store.Badger.Steady.{Steady}
use alice_tss.Store.Handler.{badger_handler}
use alice_tss.Service.Node.{Service, Node, set_stream_handler}
use alice_tss.Service.Lifecycle.{Event}
use alice_tss.Service.Continuity.{with_share}
use alice_tss.Server.Tss.{Alice}
use alice_tss.Server.Rpc.{sent}
use alice_tss.Server.Rpc.Keys.Renewal.{reshare_json-IsPlain, renewing}
use alice_tss.Server.Cluster.{Colleague, ran, Routed, links_to}
use alice_tss.Server.Cluster.Keys.{Fellow}
use alice_tss.Server.Cluster.Keys.Holders.{Hears, colleagues, payload, Helps}
use alice_tss.Server.Cluster.Keys.Renewing.{Turn, Renewed, new_outcome, after_resharing, Rejoins}

module _ (l : Libs) (laws : LibLaws l) (c : Codec) (codec : CodecLaws c) (b : Badger c.Doc)
    (badger : BadgerLaws b) (steady : Steady c b) (a : Alice) (key : PrivateKey)
    (parse_addr : Text → Text ⊎ Error) (addr_info : Text → AddrInfo ⊎ Error)
    (text_of : c.Doc → Bytes) (peers : Heap) (pm : P2pManager) (fuel : ℕ) (hash : Text)
    (ascii : IsAscii hash) (d : DkgOutcome)
    (curve : l.new_ec_point d.public_key.x d.public_key.y ≡ ok d.public_key)
    (fellows : Text → Fellow l laws c codec b badger steady)
    (turns : (k : Text) → Turn l laws c codec b badger steady (fellows k))
    (dials : Text → ℕ → Option Error) (remote : Text → Text → Text → Bytes → Unit {0} ⊎ Error) where
  -- The request to reshare, as the peers get it.
  abbrev pub asks_renewal : Bytes
  asks_renewal =
      text_of
        (codec.text _ (reshare_json-IsPlain l laws c codec b badger key steady a hash d ascii))

  -- Whether the handler of a peer has run in the call that the client's handler makes.
  abbrev pub called : Text → Bool
  called k =
      ran
        (sent l a c (badger_handler l c b key) (links_to parse_addr addr_info dials remote) text_of
          peers pm fuel hash (codes "Reshare") asks_renewal)
        k

  -- The other nodes after that call, once the resharings that it has started are over, and their outcomes.
  abbrev pub later : Text → Fellow l laws c codec b badger steady
  later k = record (fellows k) {
    node =
        if called k
        then (after_resharing l laws c codec b badger steady hash d asks_renewal (fellows k)
            (turns k)).node
        else (fellows k).node;
  }

  abbrev pub outcomes : Text → DkgOutcome
  outcomes k = new_outcome l laws c codec b badger steady hash d asks_renewal (fellows k) (turns k)

  abbrev pub after_it : Text → Colleague b.Db
  after_it =
      colleagues l laws c codec b badger steady a key parse_addr addr_info text_of peers pm fuel
        hash later outcomes

  -- The peer's handler has run, and has started a resharing that returns with the new share in the store.
  abbrev pub PeerRenewed : Text → Type 0
  PeerRenewed k =
      (called k ≡ true)
      × Renewed l laws c codec b badger steady hash d asks_renewal (fellows k) (turns k)

  -- The peer can be reached, and reshares the key.
  abbrev pub PeerRejoins : Text → Type 0
  PeerRejoins =
      Rejoins l laws c codec b badger steady parse_addr addr_info peers pm fuel hash d curve
        asks_renewal fellows turns dials remote

  abbrev pub before_it : Text → Colleague b.Db
  before_it =
      colleagues l laws c codec b badger steady a key parse_addr addr_info text_of peers pm fuel
        hash fellows (λ k. (turns k).outcome)

  -- The service of the client's node, and the nodes that its handler and its end leave.
  module _ (m : a.resharing.M) (before after : List Event) (r : ReshareOutcome)
      (n : Node b.Db) where
    abbrev pub begun : Service a.resharing.M
    begun = renewing l laws c codec b badger key steady a hash m

    abbrev pub hearing : Node b.Db
    hearing = set_stream_handler (get_protocol hash) hash n

    abbrev pub finished : Node b.Db
    finished = with_share l laws c codec b badger key a.resharing hash r hearing

  module _ (r : ReshareOutcome) (message : Text) (readable : IsAscii message) where
    -- The outcome of the node, with its new share.
    abbrev pub own : DkgOutcome
    own = record d { share = r.share }

    abbrev message_hash : Text
    message_hash = to_hex_hash l message

    abbrev pub asks_signature : Bytes
    asks_signature =
        payload l laws c codec b badger steady a key parse_addr addr_info text_of peers pm fuel hash
          later outcomes ascii own message readable curve

    -- The peer can be reached again, and makes a signer on its new share.
    abbrev pub PeerHelps :
        (Text → ℕ → Option Error) → (Text → Text → Text → Bytes → Unit {0} ⊎ Error) → Text → Type 0
    PeerHelps =
        Helps l laws c codec b badger steady a key parse_addr addr_info text_of peers pm fuel hash
          later outcomes ascii own message readable curve

    -- The peer's handler has run in the call to sign, and hands its signer the streams of the message.
    abbrev pub PeerHears :
        (dials' : Text → ℕ → Option Error) (remote' : Text → Text → Text → Bytes → Unit {0} ⊎ Error)
        → Routed l after_it remote'
        → Text
        → Type 0
    PeerHears =
        Hears l laws c codec b badger steady a key parse_addr addr_info text_of peers pm fuel hash
          later outcomes ascii own message readable curve
