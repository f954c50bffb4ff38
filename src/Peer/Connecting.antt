-- ===== src/Peer/Connecting.antt =====
-- peer/pm.go: `EnsureAllConnected`, which starts `connectToPeer` in a goroutine for each peer and waits for all
-- of them.
pub mod Laws
pub mod Ends
use alice_tss.Base.{
  ℕ, suc, ◌+◌, ◌-◌, ◌≡◌, Bool, true, false, Option, List, [], ◌∷◌, map, Text, Dict, Result, ok, err,
  Error,
}
use alice_tss.Peer.Manager.{Heap, P2pManager, peers_of}
use alice_tss.Peer.Transport.{Net, AddrInfo, connect}
use alice_tss.Steps.{OneMoves}

-- Where the goroutine of a peer stands: before an attempt, by its number; before the deferred `wg.Done()`; at
-- its end.
pub data Phase : Type 0 where
  attempting : ℕ → Phase
  leaving gone : Phase

pub record Dialer : Type 0 where
  pub target : Text
  pub phase : Phase

-- What a move does to the wait group.
pub data Effect : Type 0 where
  nothing leaves_group : Effect

module _ (n : Net) (dial : Text → ℕ → AddrInfo → Option Error) where
  -- The attempt of a number at a target.
  abbrev pub tried : Text → ℕ → Result (Unit {0})
  tried target i = connect n (dial target i) target

  -- `connectToPeer`
  pub data Dial : Dialer → Effect → Dialer → Type 0 where
    retries :
        {t : Text} {i : ℕ} (e : Error)
        → tried t i ≡ err e
        → Dial
            (record { target = t; phase = attempting i })
            nothing
            (record { target = t; phase = attempting (suc i) })
    connects :
        {t : Text} {i : ℕ}
        → tried t i ≡ ok tt
        → Dial
            (record { target = t; phase = attempting i })
            nothing
            (record { target = t; phase = leaving })
    leave :
        {t : Text}
        → Dial
            (record { target = t; phase = leaving })
            leaves_group
            (record { target = t; phase = gone })

-- The goroutines, the counter of the wait group, and whether `wg.Wait()` has returned.
pub record Connecting : Type 0 where
  pub dialers : List Dialer
  pub left : ℕ
  pub returned : Bool

abbrev pub counted_down : Effect → ℕ → ℕ
counted_down nothing left = left
counted_down leaves_group left = left - 1

pub data Step (n : Net) (dial : Text → ℕ → AddrInfo → Option Error) (s : Connecting)
    : Connecting → Type 0 where
  work :
      {x : Effect} {ds : List Dialer}
      → OneMoves (Dial n dial) s.dialers x ds
      → Step n dial s (record s { dialers = ds; left = counted_down x s.left })
  wait_over : s.returned ≡ false → s.left ≡ 0 → Step n dial s (record s { returned = true })

abbrev pub addresses : Dict Text → List Text
addresses [] = []
addresses ((id, addr) ∷ peers) = addr ∷ addresses peers

-- `wg.Add(1)` and `go` for each address; the counter, beside the goroutines.
abbrev pub dialers_of : List Text → List Dialer
dialers_of [] = []
dialers_of (t ∷ ts) = record { target = t; phase = attempting 0 } ∷ dialers_of ts

abbrev count : List Dialer → ℕ
count [] = 0
count (d ∷ ds) = count ds + 1

-- `EnsureAllConnected`, at its `wg.Wait()`.
unfoldable pub ensure_all_connected : Heap → P2pManager → Connecting
unfolding peers_of
ensure_all_connected h pm =
    let ds = dialers_of (addresses (peers_of h pm)) in
    record { dialers = ds; left = count ds; returned = false }
