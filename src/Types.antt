-- ===== src/Types.antt =====
-- types/tss.go and types/app.go: the records that the nodes pass around and store.
use alice_tss.Base.{ℕ, [], Text, Bytes, Dict, codes}

-- `StoreType` is a string; the two named values.
abbrev pub store_type_mock : Text
store_type_mock = codes "mock"

abbrev pub store_type_badger : Text
store_type_badger = codes "badger"

pub record StoreConfig : Type 0 where
  pub store_type : Text
  pub path : Text

pub record AppConfig : Type 0 where
  pub port : ℕ
  pub rpc : ℕ
  pub store : StoreConfig

pub record Pubkey : Type 0 where
  pub x : Text
  pub y : Text

pub record Bk : Type 0 where
  pub x : Text
  pub rank : ℕ  -- uint32

pub record SignerConfig : Type 0 where
  pub share : Text
  pub pubkey : Pubkey
  pub bks : Dict Bk

pub record DkgConfig : Type 0 where
  pub rank : ℕ  -- uint32
  pub threshold : ℕ  -- uint32

-- `Address` is go-ethereum's array of twenty bytes.
pub record DkgResult : Type 0 where
  pub share : Text
  pub pubkey : Pubkey
  pub public_key : Text
  pub address : Bytes
  pub bks : Dict Bk

pub record ReshareConfig : Type 0 where
  pub threshold : ℕ  -- uint32
  pub share : Text
  pub pubkey : Pubkey
  pub bks : Dict Bk

pub record RvSignature : Type 0 where
  pub r : Text
  pub s : Text
  pub hash : Text

-- The zero values of Go.
abbrev pub no_pubkey : Pubkey
no_pubkey = record { x = []; y = [] }

abbrev pub no_bk : Bk
no_bk = record { x = []; rank = 0 }

abbrev pub no_signature : RvSignature
no_signature = record { r = []; s = []; hash = [] }
