-- ===== src/Server/Peers.antt =====
-- server/rpc_peer.go: what a node does for a request of another node. It never waits for the protocol.
use alice_tss.Base.{[], Bytes, Result, ok}
use alice_tss.Libs.{Libs, DkgOutcome, SignOutcome}
use alice_tss.Peer.Manager.{Heap, P2pManager, get_protocol, clone_peer_manager}
use alice_tss.Store.Handler.{HandlerData}
use alice_tss.Service.Node.{Node}
use alice_tss.Server.Requests.{unmarshal_request}
use alice_tss.Server.Tss.{
  Alice, SignRequest, ReshareRequest, Called, spawned, no_call, then_node, sign_message,
  new_reshare_of, register_dkg,
}

-- What JSON and proto make of the data of a request.
pub record Formats : Type 0 where
  pub sign_json : Bytes → Result SignRequest
  pub sign_proto : Bytes → Result SignRequest
  pub reshare_json : Bytes → Result ReshareRequest
  pub reshare_proto : Bytes → Result ReshareRequest

module _ (l : Libs) (a : Alice) {S : Type 0} (h : HandlerData S) (f : Formats) where
  -- `TssPeerService.SignMessage`
  unfoldable pub peer_sign_message :
      Bytes → Node S → Result (Called a.signing.M SignOutcome) × Node S
  peer_sign_message payload n =
      then_node (unmarshal_request f.sign_json f.sign_proto payload) n
        (λ request. sign_message l a h request no_call [] n)

  -- `TssPeerService.Reshare`
  unfoldable pub peer_reshare : Bytes → Node S → Result (Called a.resharing.M (Unit {0})) × Node S
  peer_reshare payload n =
      then_node (unmarshal_request f.reshare_json f.reshare_proto payload) n (λ request.
        then_node (h.get_signer_config n.store request.hash request.pubkey) n (λ cfg.
          then_node (new_reshare_of l a h cfg request.hash n) n (λ (p, n'). (ok (spawned p), n'))))

  -- `TssPeerService.RegisterDKG`: the data is the hash.
  unfoldable pub peer_register_dkg :
      Heap → P2pManager → Bytes → Node S → Result (Called a.keygen.M DkgOutcome) × Node S
  unfolding clone_peer_manager
  peer_register_dkg peers pm payload n =
      register_dkg l a h peers (clone_peer_manager pm (get_protocol payload)) payload no_call [] n
