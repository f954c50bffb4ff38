-- ===== src/Service/Sessions.antt =====
-- The signers that run on one node at the same time: service/signer.go over the stream handlers of one host. In
-- the source each stream and each state change runs in a goroutine of its own; here they come in any order.
pub mod Laws
pub mod Collisions
use alice_tss.Base.{◌≡◌, true, [], some, Option, Text, Bytes, Dict, lookup, insert, ok, Result}
use alice_tss.Types.{SignerConfig}
use alice_tss.Libs.{Libs, DkgOutcome, SignOutcome}
use alice_tss.Store.Handler.{HandlerData}
use alice_tss.Service.Node.{MainState, Machine, Service, Node}
use alice_tss.Service.Signer.{new_signer_service, handle_signer, on_signer_state_changed}

-- The signers by the hash of their message, and the node.
pub record Sessions (M S : Type 0) : Type 0 where
  pub signers : Dict (Service M)
  pub node : Node S

-- No signer for the hash is running: there is none, or it has closed its channel.
abbrev pub NotRunning : {M S : Type 0} → Text → Sessions M S → Type 0
NotRunning {M} hash s = (p : Service M) → lookup hash s.signers ≡ some p → p.done_closed ≡ true

module _ (l : Libs) (m : Machine SignOutcome) {S : Type 0} (h : HandlerData S) {P : Type 0}
    (new_paillier : Result P) (new_signer : P → DkgOutcome → Bytes → Result m.M) where
  -- A signer is made, for a message that is not being signed; a stream that comes in is read by the signer whose
  -- handler the host has for its protocol; the protocol of a signer reports a state.
  pub data Step (s : Sessions m.M S) : Sessions m.M S → Type 0 where
    begins :
        (cfg : SignerConfig) (msg : Text) (p : Service m.M) (n : Node S)
        → new_signer_service l m h new_paillier new_signer cfg msg s.node ≡ ok (p, n)
        → NotRunning p.hash s
        → Step s (record { signers = insert p.hash p s.signers; node = n })
    reads :
        (protocol hash : Text) (p : Service m.M) (x : Option Bytes)
        → lookup protocol s.node.handlers ≡ some hash
        → lookup hash s.signers ≡ some p
        → Step s (record s { signers = insert hash (handle_signer l m h p x) s.signers })
    changes :
        (hash : Text) (p q : Service m.M) (n : Node S) (state : MainState)
        → lookup hash s.signers ≡ some p
        → on_signer_state_changed l m h state p s.node ≡ ok (q, n)
        → Step s (record { signers = insert hash q s.signers; node = n })

-- A node before its first signer, whatever else it handles.
abbrev pub idle : {M S : Type 0} → Node S → Sessions M S
idle n = record { signers = []; node = n }
