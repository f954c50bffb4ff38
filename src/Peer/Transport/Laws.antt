-- ===== src/Peer/Transport/Laws.antt =====
-- What `send` makes of its ten attempts.
use alice_tss.Base.{
  ℕ, zero, suc, ◌+◌, ◌≡◌, refl, ◌∙◌, ap, none, some, ◌⊎◌, inl, inr, Error, arith, Text, Bytes, ok,
  length,
}
use alice_tss.Peer.Transport.{
  Net, AddrInfo, Attempts, Sent, attempt, no_attempt, create_stream, send, sending,
  time_retry_create_stream,
}

module _ (n : Net) where
  -- How many of the attempts from `i` on open a stream.
  abbrev one_if : n.Stream ⊎ Error → ℕ
  one_if (inl s) = 1
  one_if (inr e) = 0

  pub successes : (ℕ → n.Stream ⊎ Error) → ℕ → ℕ → ℕ
  successes try zero i = 0
  successes try (suc rounds) i = one_if (try i) + successes try rounds (i + 1)

  length-attempt :
      (a : Attempts n) (r : n.Stream ⊎ Error)
      → length (attempt n a r).opened ≡ one_if r + length a.opened
  length-attempt a (inl s) = omega arith
  length-attempt a (inr e) = omega arith

  create_stream_opened :
      (try : ℕ → n.Stream ⊎ Error) (rounds i : ℕ) (a : Attempts n)
      → length (create_stream n try rounds i a).opened ≡ successes try rounds i + length a.opened
  unfolding create_stream successes
  create_stream_opened try zero i a = omega arith
  create_stream_opened try (suc rounds) i a = omega (
    arith,
    create_stream_opened try rounds (i + 1) (attempt n a (try i)),
    length-attempt a (try i),
  )

  -- Only the last attempt decides.
  create_stream_last :
      (try : ℕ → n.Stream ⊎ Error) (rounds i : ℕ) (a : Attempts n)
      → (a' : Attempts n) × (create_stream n try (suc rounds) i a ≡ attempt n a' (try (i + rounds)))
  unfolding create_stream
  create_stream_last try zero i a = let e : i + 0 ≡ i = omega arith in (a, rw e)
  create_stream_last try (suc rounds) i a =
      let (a', p) = create_stream_last try rounds (i + 1) (attempt n a (try i)) in
      let e : i + 1 + rounds ≡ i + suc rounds = omega arith in (a', rw e at p)

  -- The attempts of `send`.
  abbrev pub attempts : (ℕ → n.Stream ⊎ Error) → Attempts n
  attempts try = create_stream n try time_retry_create_stream 0 (no_attempt n)

  opened_lem :
      (try : ℕ → n.Stream ⊎ Error)
      → length (attempts try).opened ≡ successes try time_retry_create_stream 0
  opened_lem try = omega (arith, create_stream_opened try time_retry_create_stream 0 (no_attempt n))

  last_lem :
      (try : ℕ → n.Stream ⊎ Error) (r : n.Stream ⊎ Error)
      → try 9 ≡ r
      → (a : Attempts n) × (attempts try ≡ attempt n a r)
  last_lem try r e =
      let (a, p) = create_stream_last try 9 0 (no_attempt n) in (a, p ∙ ap (attempt n a) e)

  module _ (try : ℕ → n.Stream ⊎ Error) (target maddr : Text) (info : AddrInfo)
      (payload : Bytes ⊎ Error) (parsed : n.parse_addr target ≡ ok maddr)
      (known : n.addr_info maddr ≡ ok info) where
    send_eq :
        let a = attempts try in
        send n try target payload ≡ ok (sending n payload a.stream a.error a.opened)
    unfolding send
    send_eq = rw (parsed, known)

    -- To a well-formed address: when the tenth attempt fails, its error is returned and nothing is
    -- sent, however many of the nine before it opened a stream; those streams stay open.
    pub send_last_fails :
        (e : Error)
        → try 9 ≡ inr e
        → (r : Sent n) × (send n try target payload ≡ ok r)
          × (r.error ≡ some e)
          × (r.closed ≡ none)
          × (length r.opened ≡ successes try 10 0)
    send_last_fails e last =
        let (a, p) = last_lem try (inr e) last in
        (
          record { opened = (attempts try).opened; closed = none; error = some e },
          send_eq ∙ rw p,
          refl,
          refl,
          opened_lem try,
        )

    -- To a well-formed address: when the tenth attempt opens a stream and the message is encoded,
    -- written and the stream closed with no error, `send` succeeds over that stream; it has opened
    -- one stream for each attempt that did not fail, and closed that one alone.
    pub send_last_succeeds :
        (s : n.Stream) (bs : Bytes)
        → try 9 ≡ inl s
        → payload ≡ inl bs
        → n.write s bs ≡ none
        → n.close s ≡ none
        → (r : Sent n) × (send n try target payload ≡ ok r)
          × (r.error ≡ none)
          × (r.closed ≡ some s)
          × (length r.opened ≡ successes try 10 0)
    send_last_succeeds s bs last paid written closed =
        let (a, p) = last_lem try (inl s) last in
        (
          record { opened = (attempts try).opened; closed = some s; error = none },
          send_eq ∙ rw (p, paid, written, closed),
          refl,
          refl,
          opened_lem try,
        )
