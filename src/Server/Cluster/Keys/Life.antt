-- ===== src/Server/Cluster/Keys/Life.antt =====
-- The life of a key on all of its nodes: generated by server/rpc_server.go on one of them and server/rpc_peer.go on
-- the others, and used by all to sign.
use alice_tss.Base.{ℕ, ◌≡◌, ◌⊎◌, Option, Bytes, Text, codes, ok, Error, true, Bool, if◌then◌else◌}
use alice_tss.Libs.{Libs, LibLaws, PrivateKey, DkgOutcome}
use alice_tss.Json.{IsAscii}
use alice_tss.Utils.Keys.{to_hex_hash}
use alice_tss.Peer.Manager.{Heap, P2pManager}
use alice_tss.Peer.Transport.{AddrInfo}
use alice_tss.Store.Backend.{Codec, CodecLaws, Badger, BadgerLaws}
use alice_tss.Store.Badger.Steady.{Steady}
use alice_tss.Store.Handler.{badger_handler}
use alice_tss.Service.Node.{Node}
use alice_tss.Server.Tss.{Alice}
use alice_tss.Server.Rpc.{sent}
use alice_tss.Server.Cluster.{Colleague, ran, Routed, links_to}
use alice_tss.Service.Dkg.Ending.{Ending}
use alice_tss.Server.Cluster.Keys.{Fellow, Course, Generated, after_generation}
use alice_tss.Server.Cluster.Keys.Holders.{colleagues, HoldsIt, payload, Helps, Hears}

module _ (l : Libs) (laws : LibLaws l) (c : Codec) (codec : CodecLaws c) (b : Badger c.Doc)
    (badger : BadgerLaws b) (steady : Steady c b) (a : Alice) (key : PrivateKey)
    (parse_addr : Text → Text ⊎ Error) (addr_info : Text → AddrInfo ⊎ Error)
    (text_of : c.Doc → Bytes) (peers : Heap) (pm : P2pManager) (fuel : ℕ) (hash : Text)
    (fellows : Text → Fellow l laws c codec b badger steady)
    (course : (k : Text) → Course l laws c codec b badger steady (fellows k))
    (dials : Text → ℕ → Option Error) (remote : Text → Text → Text → Bytes → Unit {0} ⊎ Error) where
  -- Whether the handler of a peer has run in the call that the client's handler makes.
  abbrev pub called : Text → Bool
  called k =
      ran
        (sent l a c (badger_handler l c b key) (links_to parse_addr addr_info dials remote) text_of
          peers pm fuel hash (codes "RegisterDKG") hash)
        k

  -- The other nodes after that call, once the key generations that it has started are over.
  abbrev pub later : Text → Fellow l laws c codec b badger steady
  later k = record (fellows k) {
    node =
        if called k
        then (after_generation l laws c codec b badger steady hash (fellows k) (course k)).node
        else (fellows k).node;
  }

  abbrev pub after_it : Text → Colleague b.Db
  after_it =
      colleagues l laws c codec b badger steady a key parse_addr addr_info text_of peers pm fuel
        hash later (λ k. (course k).outcome)

  abbrev pub PeerHolds : Text → Type 0
  PeerHolds =
      HoldsIt l laws c codec b badger steady a key parse_addr addr_info text_of peers pm fuel hash
        later (λ k. (course k).outcome)

  -- The peer's handler has run, and has started a key generation that returns with its outcome in the store.
  abbrev pub Started : Text → Type 0
  Started k =
      (called k ≡ true) × Generated l laws c codec b badger steady hash (fellows k) (course k)

  module _ (ascii : IsAscii hash) (d : DkgOutcome) (message : Text) (readable : IsAscii message)
      (curve : l.new_ec_point d.public_key.x d.public_key.y ≡ ok d.public_key) where
    abbrev message_hash : Text
    message_hash = to_hex_hash l message

    abbrev pub client_asks : Bytes
    client_asks =
        payload l laws c codec b badger steady a key parse_addr addr_info text_of peers pm fuel hash
          later (λ k. (course k).outcome) ascii d message readable curve

    -- The peer can be reached again, and makes a signer on its own share.
    abbrev pub PeerHelps :
        (Text → ℕ → Option Error) → (Text → Text → Text → Bytes → Unit {0} ⊎ Error) → Text → Type 0
    PeerHelps =
        Helps l laws c codec b badger steady a key parse_addr addr_info text_of peers pm fuel hash
          later (λ k. (course k).outcome) ascii d message readable curve

    -- The peer's handler has run in the call to sign, and hands its signer the streams of the message.
    abbrev pub PeerHears :
        (dials' : Text → ℕ → Option Error) (remote' : Text → Text → Text → Bytes → Unit {0} ⊎ Error)
        → Routed l after_it remote'
        → Text
        → Type 0
    PeerHears =
        Hears l laws c codec b badger steady a key parse_addr addr_info text_of peers pm fuel hash
          later (λ k. (course k).outcome) ascii d message readable curve
