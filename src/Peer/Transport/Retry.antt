-- ===== src/Peer/Transport/Retry.antt =====
-- The loop that tries until it succeeds: `SendToPeer` of server/rpc_peer.go. `try i` is the outcome of the
-- attempt number i; the fuel bounds the attempts, and `none` means that none of them succeeded.
use alice_tss.Base.{
  ℕ, zero, suc, ◌+◌, ◌<◌, ◌≡◌, refl, ◌∙◌, Option, none, some, ◌⊎◌, inl, inr, Error, arith,
}

module _ {A : Type 0} where
  -- `for { r, err := …; if err != nil { time.Sleep(…); continue }; return r }`
  unfoldable pub retry : (ℕ → A ⊎ Error) → ℕ → ℕ → Option (A × ℕ)
  retry try zero i = none
  retry try (suc fuel) i = elim (try i) [ inl a ↦ some (a, i) | inr e ↦ retry try fuel (i + 1) ]

  -- The attempt fails.
  abbrev pub Fails : (ℕ → A ⊎ Error) → ℕ → Type 0
  Fails try i = (e : Error) × (try i ≡ inr e)

  retry_step :
      (try : ℕ → A ⊎ Error) (fuel i : ℕ) (r : A ⊎ Error)
      → try i ≡ r
      → retry try (suc fuel) i ≡ (elim r [ inl a ↦ some (a, i) | inr e ↦ retry try fuel (i + 1) ])
  unfolding retry
  retry_step try fuel i r h = rw (h, retry)

  -- With fuel for more attempts than fail before the first that succeeds, the loop ends at that one,
  -- with its result.
  pub retry_lem :
      (try : ℕ → A ⊎ Error) (n fuel i : ℕ) (a : A)
      → n < fuel
      → ((m : ℕ) → m < n → Fails try (i + m))
      → try (i + n) ≡ inl a
      → retry try fuel i ≡ some (a, i + n)
  retry_lem try n zero i a lt fails done = absurd (omega arith)
  retry_lem try zero (suc fuel) i a lt fails done =
      let e : i + 0 ≡ i = omega arith in retry_step try fuel i (inl a) (rw e at done) ∙ rw e
  retry_lem try (suc n) (suc fuel) i a lt fails done =
      let e : i + 0 ≡ i = omega arith in
      let (x, first) = fails 0 (omega arith) in
      let e' : i + suc n ≡ i + 1 + n = omega arith in
      retry_step try fuel i (inr x) (rw e at first)
      ∙ rw e' (
          retry_lem try n fuel (i + 1) a (omega arith)
            (λ m h.
              let e'' : i + 1 + m ≡ i + suc m = omega arith in rw e'' (fails (suc m) (omega arith)))
            (rw e' at done))

  -- Where every attempt fails, no fuel is enough.
  pub retry-Fails :
      (try : ℕ → A ⊎ Error) (fuel i : ℕ) → ((m : ℕ) → Fails try m) → retry try fuel i ≡ none
  unfolding retry
  retry-Fails try zero i fails = refl
  retry-Fails try (suc fuel) i fails =
      let (e, q) = fails i in retry_step try fuel i (inr e) q ∙ retry-Fails try fuel (i + 1) fails
