-- ===== src/Store/Badger/Promise.antt =====
-- What store/badger_handler.go promises, without its records, keys and transactions: the writes, and for
-- each hash the outcome that was last put there.
use alice_tss.Base.{Option, none, some, Text, text_eq, if◌then◌else◌}
use alice_tss.Types.{RvSignature}
use alice_tss.Libs.{DkgOutcome, ReshareOutcome}
use alice_tss.Store.Badger.RoundTrip.{IsNatural, IsOutcome}

-- The writes of the store.
pub data Write : Type 0 where
  save : Text → DkgOutcome → Write
  update : Text → ReshareOutcome → Write
  sign : Text → RvSignature → Write

-- What is promised for each hash; `none` where nothing is.
abbrev pub Promise : Type 0
Promise = Text → Option DkgOutcome

abbrev reshared : ReshareOutcome → Option DkgOutcome → Option DkgOutcome
reshared r none = none
reshared r (some d) = some (record d { share = r.share })

-- A signature under a hash overwrites what was there.
unfoldable pub promise_after : Promise → Write → Promise
promise_after p (save k d) j = if text_eq k j then some d else p j
promise_after p (update k r) j = if text_eq k j then reshared r (p j) else p j
promise_after p (sign k g) j = if text_eq k j then none else p j

abbrev pub IsGood : Write → Type 0
IsGood (save k d) = IsOutcome d
IsGood (update k r) = IsNatural r.share
IsGood (sign k g) = Unit
