-- ===== src/Tests/Peers.antt =====
-- The theorems on the package peer, each at concrete peers and streams.
use alice_tss.Base.{
  ℕ, zero, suc, ◌+◌, ◌<◌, ◌≡◌, refl, none, some, [], ◌∷◌, ◌⊎◌, inl, inr, Text, codes, length, ok,
  lib, arith, if◌then◌else◌, Error, ltb,
}
use alice_tss.Peer.Manager.{Heap, P2pManager}
use alice_tss.Peer.Transport.{Net, AddrInfo, Sent, send}
use alice_tss.Peer.Transport.Laws.{successes, send_last_fails}

abbrev pub one_peer : Heap
one_peer = ((codes "A", codes "/ip4/1") ∷ []) ∷ []

abbrev pub manager : P2pManager
manager = record { id = codes "me"; protocol = codes "/x/1.0.0"; peers = 0 }

-- A network whose addresses are the ids.
abbrev pub toy_net : Net
toy_net = record {
  Stream = ℕ;
  Host = Text;
  Identity = Text;
  parse_addr = ok;
  addr_info = λ s. ok (record { id = s; addr = s });
  key_pair = λ k. [];
  Reader = ℕ;
  new_rand = λ i. i;
  generate_key_pair = λ r. ok [];
  id_of = ok;
  new_host = λ a k. ok a;
  write = λ s b. none;
  close = λ s. none;
}

abbrev here : AddrInfo
here = record { id = codes "A"; addr = codes "A" }

-- Streams that open up to the third attempt.
abbrev early : ℕ → ℕ ⊎ Error
early i = if ltb i 3 then inl i else inr (lib 5)

send_last_fails_example :
    (r : Sent toy_net) × (send toy_net early (codes "A") (inl (codes "hello")) ≡ ok r)
    × (r.error ≡ some (lib 5))
    × (r.closed ≡ none)
    × (length r.opened ≡ successes toy_net early 10 0)
send_last_fails_example =
    send_last_fails toy_net early (codes "A") (codes "A") here (inl (codes "hello")) refl refl
      (lib 5) refl

abbrev third : ℕ → Text ⊎ Error
third i = if ltb i 2 then inr (lib 6) else inl (codes "pong")

third_fails : (m : ℕ) → m < 2 → (e : Error) × (third (0 + m) ≡ inr e)
third_fails zero h = (lib 6, refl)
third_fails (suc zero) h = (lib 6, refl)
third_fails (suc (suc m)) h = absurd (omega arith)
