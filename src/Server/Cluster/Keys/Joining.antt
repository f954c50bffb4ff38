-- ===== src/Server/Cluster/Keys/Joining.antt =====
-- The other nodes of a key generation: they reply to server/rpc_server.go, and have the key in their stores at the
-- end.
use alice_tss.Base.{ℕ, ◌⊎◌, Option, List, [], ◌∷◌, All, Bytes, Text, codes, Error}
use alice_tss.Libs.{Libs, LibLaws}
use alice_tss.Peer.Manager.{Heap, P2pManager}
use alice_tss.Peer.Transport.{AddrInfo}
use alice_tss.Store.Backend.{Codec, CodecLaws, Badger, BadgerLaws}
use alice_tss.Store.Badger.Steady.{Steady}
use alice_tss.Server.Requests.{args_for}
use alice_tss.Server.Requests.Laws.{AllReply}
use alice_tss.Server.Cluster.{Colleague, Routed, links_to, Addressed, Connects, colleague-Replies}
use alice_tss.Server.Cluster.Keys.Holders.{manager_of}
use alice_tss.Server.Cluster.Keys.{
  Fellow, as_colleague, Course, Generates, Generated, generates, generates_call,
}

module _ (l : Libs) (laws : LibLaws l) (c : Codec) (codec : CodecLaws c) (b : Badger c.Doc)
    (badger : BadgerLaws b) (steady : Steady c b) (parse_addr : Text → Text ⊎ Error)
    (addr_info : Text → AddrInfo ⊎ Error) (peers : Heap) (pm : P2pManager) (fuel : ℕ) (hash : Text)
    (fellows : Text → Fellow l laws c codec b badger steady)
    (course : (k : Text) → Course l laws c codec b badger steady (fellows k)) where
  -- The other nodes before the key generation.
  abbrev pub before_it : Text → Colleague b.Db
  before_it k = as_colleague l laws c codec b badger steady (fellows k)

  -- The peer can be reached, and generates the key.
  abbrev pub Joins :
      (Text → ℕ → Option Error) → (Text → Text → Text → Bytes → Unit {0} ⊎ Error) → Text → Type 0
  Joins dials remote k =
      Addressed parse_addr addr_info dials remote peers (manager_of pm hash) k
      × Connects parse_addr addr_info dials remote fuel k
      × Generates l laws c codec b badger steady hash (fellows k) (course k)

  pub joiners_reply :
      (dials : Text → ℕ → Option Error) (remote : Text → Text → Text → Bytes → Unit {0} ⊎ Error)
      (ids : List Text)
      → Routed l before_it remote
      → All (Joins dials remote) ids
      → AllReply
          (links_to parse_addr addr_info dials remote)
          fuel
          (args_for peers (manager_of pm hash) (codes "TssPeerService") (codes "RegisterDKG") hash)
          ids
  joiners_reply dials remote [] routed all = tt
  joiners_reply dials remote (k ∷ ids) routed all = (
    colleague-Replies parse_addr addr_info dials remote peers (manager_of pm hash)
        (codes "TssPeerService") (codes "RegisterDKG") k hash all.0.0 fuel all.0.1
        (generates_call l laws c codec b badger steady hash fellows k (course k) remote all.0.2
          routed),
    joiners_reply dials remote ids routed all.1,
  )

  pub joiners_generate :
      (dials : Text → ℕ → Option Error) (remote : Text → Text → Text → Bytes → Unit {0} ⊎ Error)
      (ids : List Text)
      → All (Joins dials remote) ids
      → All (λ k. Generated l laws c codec b badger steady hash (fellows k) (course k)) ids
  joiners_generate dials remote [] all = tt
  joiners_generate dials remote (k ∷ ids) all = (
    generates l laws c codec b badger steady hash (fellows k) (course k) all.0.2,
    joiners_generate dials remote ids all.1,
  )
