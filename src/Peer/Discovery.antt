-- ===== src/Peer/Discovery.antt =====
-- peer/discovery.go: a peer that mDNS finds is connected and added.
pub mod Laws
use alice_tss.Base.{
  Option, none, some, List, [], ◌∷◌, Text, codes, text_eq, Result, ok, err, panic,
  slice_out_of_range, Error, if◌then◌else◌,
}
use alice_tss.Peer.Manager.{Heap, P2pManager, add_peer_id}

-- `DiscoveryServiceTag`
abbrev pub discovery_service_tag : Text
discovery_service_tag = codes "discovery-node-dkg"

-- `SetupDiscovery`, over what `Start` returns for an mDNS service of a tag.
unfoldable pub setup_discovery : (Text → Option Error) → Result (Unit {0})
setup_discovery start = elim (start discovery_service_tag) [ none ↦ ok tt | some e ↦ err e ]

pub record PeerFound : Type 0 where
  pub id : Text
  pub addrs : List Text

-- `n.pm.AddPeerID(pi.ID, pi.Addrs[0].String())`
abbrev add_first : Heap → P2pManager → Text → List Text → Result Heap
add_first h pm id [] = panic slice_out_of_range
add_first h pm id (a ∷ addrs) = ok (add_peer_id h pm id a)

-- `HandlePeerFound`: `host_id` is the id of the own host, and `dial` what `Host.Connect` answers. The
-- node itself is not dialled, and a peer that cannot be reached is not added.
unfoldable pub handle_peer_found :
    Heap → P2pManager → Text → (PeerFound → Option Error) → PeerFound → Result Heap
handle_peer_found h pm host_id dial pi =
    if text_eq pi.id host_id
    then ok h
    else (elim (dial pi) [ some e ↦ ok h | none ↦ add_first h pm pi.id pi.addrs ])
