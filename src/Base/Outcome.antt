-- ===== src/Base/Outcome.antt =====
-- What a Go function gives back: a value, an `error`, or a panic that no caller here recovers.
use Prim.Native.Nat.{ℕ}

-- The errors that the program makes itself, and `lib n`, one that comes from a library.
pub data Error : Type 0 where
  conversion pubkey_not_match signer_config_not_found badger_path_empty private_key_nil : Error
  invalid_length key_too_big key_not_positive invalid_private_key invalid_message : Error
  unmarshal_type empty_caller empty_hash empty_request empty_message empty_protocol : Error
  self_service_unavailable setup_failed timeout : Error
  lib : ℕ → Error
  node_failed : ℕ → Error → Error
  wrapped : Error → Error

pub data Panic : Type 0 where
  slice_out_of_range nil_dereference close_of_closed_channel type_assertion open_failed : Panic

pub data Result {ℓ} (A : Type ℓ) : Type ℓ where
  ok : A → Result A
  err : Error → Result A
  panic : Panic → Result A

-- The outcome of an operation that returns an `error` alone.
abbrev pub Done : Type 0
Done = Result (Unit {0})

infixl 10 ◌>>=◌ ◌>>◌
abbrev pub ◌>>=◌ {ℓ κ} : {A : Type ℓ} {B : Type κ} → Result A → (A → Result B) → Result B
ok a >>= f = f a
err e >>= f = err e
panic p >>= f = panic p

abbrev pub ◌>>◌ {ℓ κ} : {A : Type ℓ} {B : Type κ} → Result A → Result B → Result B
m >> k = m >>= λ _. k
