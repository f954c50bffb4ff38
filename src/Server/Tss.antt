-- ===== src/Server/Tss.antt =====
-- server/tss.go: the operations behind all the servers. The function `call2peer` is an argument by what
-- calling it comes to.
pub mod Laws
pub mod Kept
use alice_tss.Base.{
  ℕ, Bool, false, Option, none, some, List, Bytes, Text, Result, Done, ok, err, panic, ◌>>=◌, lib,
}
use alice_tss.Types.{SignerConfig, ReshareConfig, DkgConfig}
use alice_tss.Libs.{Libs, DkgOutcome, ReshareOutcome, SignOutcome}
use alice_tss.Peer.Manager.{Heap, P2pManager, num_peers}
use alice_tss.Store.Handler.{HandlerData}
use alice_tss.Service.Node.{Machine, Service, Node}
use alice_tss.Service.Dkg.{new_dkg_service, handle_dkg, on_dkg_state_changed}
use alice_tss.Service.Reshare.{new_reshare_service}
use alice_tss.Service.Signer.{new_signer_service, handle_signer, on_signer_state_changed}
use alice_tss.Service.Lifecycle.{Event, process}

-- The protocols of alice and what makes them.
pub record Alice : Type 1 where
  pub keygen : Machine DkgOutcome
  pub signing : Machine SignOutcome
  pub resharing : Machine ReshareOutcome
  pub Paillier : Type 0
  pub new_paillier : Result Paillier
  pub new_dkg : DkgConfig → Result keygen.M
  pub new_signer : Paillier → DkgOutcome → Bytes → Result signing.M
  pub new_reshare : ReshareConfig → DkgOutcome → Result resharing.M

-- `pb.SignRequest` and `pb.ReshareRequest`
pub record SignRequest : Type 0 where
  pub hash : Text
  pub pubkey : Text
  pub message : Text

pub record ReshareRequest : Type 0 where
  pub hash : Text
  pub pubkey : Text

-- `call2peer`: the nil function, one whose call has not come back, or what its call returned.
pub data PeerCall : Type 0 where
  no_call not_back : PeerCall
  back : Done → PeerCall

-- What a call came to, where it returns no error: `go service.Process()` was started, and nil is
-- returned; or `service.Process()` returned, and the result with it; or it waits for `done`.
pub data Called (M Out : Type 0) : Type 0 where
  spawned : Service M → Called M Out
  finished : Out → Called M Out
  waits : Called M Out

-- `GetResult` gives no result.
abbrev pub got : {M Out : Type 0} → Option Out → Result (Called M Out)
got none = err (lib 30)
got (some out) = ok (finished out)

-- The threshold of a resharing.
abbrev pub reshare_threshold : ℕ
reshare_threshold = 2

module _ {S : Type 0} where
  -- Go on with what was made, or return the error; the node stays as it is then.
  abbrev pub then_node :
      {A B : Type 0} → Result A → Node S → (A → Result B × Node S) → Result B × Node S
  then_node (ok a) n f = f a
  then_node (err e) n f = (err e, n)
  then_node (panic x) n f = (panic x, n)

  abbrev pub ended :
      {Out : Type 0} (m : Machine Out)
      → Node S
      → Result (Option (Service m.M × Node S))
      → Result (Called m.M Out) × Node S
  ended m n (ok none) = (ok waits, n)
  ended m n (ok (some (q, n'))) = (got (m.get_result q.machine), n')
  ended m n (err e) = (err e, n)
  ended m n (panic x) = (panic x, n)

module _ (l : Libs) (a : Alice) {S : Type 0} (h : HandlerData S) where
  abbrev sign_run :
      List Event → Service a.signing.M → Node S → Result (Called a.signing.M SignOutcome) × Node S
  sign_run events p n = ended a.signing n (
      process a.signing.start a.signing.stop (handle_signer l a.signing h)
        (on_signer_state_changed l a.signing h) events p n)

  abbrev sign_called :
      PeerCall
      → List Event
      → Service a.signing.M
      → Node S
      → Result (Called a.signing.M SignOutcome) × Node S
  sign_called no_call events p n = (ok (spawned p), n)
  sign_called not_back events p n = (ok waits, n)
  sign_called (back r) events p n = then_node r n (λ _. sign_run events p n)

  abbrev new_signer_of : SignerConfig → Text → Node S → Result (Service a.signing.M × Node S)
  new_signer_of cfg message n =
      new_signer_service l a.signing h a.new_paillier a.new_signer cfg message n

  -- `TssCaller.SignMessage`; the events are those of the service while it is waited for.
  unfoldable pub sign_message :
      SignRequest
      → PeerCall
      → List Event
      → Node S
      → Result (Called a.signing.M SignOutcome) × Node S
  unfolding new_signer_service process
  sign_message request call2peer events n =
      then_node (h.get_signer_config n.store request.hash request.pubkey) n (λ cfg.
        then_node (new_signer_of cfg request.message n) n
          (λ (p, n'). sign_called call2peer events p n'))

  -- `TssCaller.GetSignerConfig`
  unfoldable pub get_signer_config_of : SignRequest → Node S → Result SignerConfig
  get_signer_config_of request n = do
    cfg ← h.get_signer_config n.store request.hash request.pubkey
    ok cfg

  abbrev pub reshare_config : SignerConfig → ReshareConfig
  reshare_config cfg = record {
    threshold = reshare_threshold;
    share = cfg.share;
    pubkey = cfg.pubkey;
    bks = cfg.bks;
  }

  abbrev reshare_called :
      PeerCall → Service a.resharing.M → Node S → Result (Called a.resharing.M (Unit {0})) × Node S
  reshare_called no_call p n = (ok (spawned p), n)
  reshare_called not_back p n = (ok waits, n)
  reshare_called (back r) p n = then_node r n (λ _. (ok (spawned p), n))

  abbrev pub new_reshare_of : SignerConfig → Text → Node S → Result (Service a.resharing.M × Node S)
  new_reshare_of cfg hash n =
      new_reshare_service l a.resharing h a.new_reshare (reshare_config cfg) hash n

  -- `TssCaller.Reshare` never waits for the protocol.
  unfoldable pub reshare :
      ReshareRequest → PeerCall → Node S → Result (Called a.resharing.M (Unit {0})) × Node S
  unfolding new_reshare_service
  reshare request call2peer n =
      then_node (h.get_signer_config n.store request.hash request.pubkey) n (λ cfg.
        then_node (new_reshare_of cfg request.hash n) n (λ (p, n'). reshare_called call2peer p n'))

  abbrev dkg_run :
      List Event → Service a.keygen.M → Node S → Result (Called a.keygen.M DkgOutcome) × Node S
  dkg_run events p n = ended a.keygen n (
      process a.keygen.start a.keygen.stop (handle_dkg a.keygen h) (on_dkg_state_changed a.keygen h)
        events p n)

  abbrev dkg_called :
      PeerCall
      → List Event
      → Service a.keygen.M
      → Node S
      → Result (Called a.keygen.M DkgOutcome) × Node S
  dkg_called no_call events p n = (ok (spawned p), n)
  dkg_called not_back events p n = (ok waits, n)
  dkg_called (back r) events p n = then_node r n (λ _. dkg_run events p n)

  abbrev pub dkg_config : Heap → P2pManager → DkgConfig
  dkg_config peers pm = record { rank = 0; threshold = num_peers peers pm }

  -- `TssCaller.RegisterDKG`: the threshold is the number of the other peers.
  unfoldable pub register_dkg :
      Heap
      → P2pManager
      → Text
      → PeerCall
      → List Event
      → Node S
      → Result (Called a.keygen.M DkgOutcome) × Node S
  unfolding new_dkg_service process
  register_dkg peers pm hash call2peer events n =
      then_node (new_dkg_service a.keygen h a.new_dkg (dkg_config peers pm) hash n) n
        (λ (p, n'). dkg_called call2peer events p n')
