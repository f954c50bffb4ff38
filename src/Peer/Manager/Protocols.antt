-- ===== src/Peer/Manager/Protocols.antt =====
-- `GetProtocol` of peer/discovery.go: each id has its own protocol.
use alice_tss.Base.{
  ◌≡◌, refl, ap, false, inl, inr, [], ◌∷◌, ◌++◌, Text, codes, text_eq, text_eq→eq, text_eq_refl,
  length, length-append, Bool-cases, arith,
}
use alice_tss.Peer.Manager.{get_protocol}

append_same : (s r t : Text) → s ++ t ≡ r ++ t → s ≡ r
append_same [] [] t e = refl
append_same [] (b ∷ r) t e = absurd (omega (arith, ap length e, length-append {0} r t))
append_same (a ∷ s) [] t e = absurd (omega (arith, ap length e, length-append {0} s t))
append_same (a ∷ s) (b ∷ r) t e =
    let rest : s ++ t ≡ r ++ t = cc in let same = append_same s r t rest in cc

-- Each id has its own protocol.
pub get_protocol_injective : (s r : Text) → get_protocol s ≡ get_protocol r → s ≡ r
unfolding get_protocol
get_protocol_injective s r e =
    let rest : s ++ codes "/1.0.0" ≡ r ++ codes "/1.0.0" = cc in
    append_same s r (codes "/1.0.0") rest

-- So ids that differ have protocols that do.
pub get_protocol_ne :
    (s r : Text) → text_eq s r ≡ false → text_eq (get_protocol s) (get_protocol r) ≡ false
get_protocol_ne s r ne = elim (Bool-cases (text_eq (get_protocol s) (get_protocol r))) [
  | inr f ↦ f
  | inl t ↦
      let same = get_protocol_injective s r (text_eq→eq (get_protocol s) (get_protocol r) t) in
      cc (rw (same, text_eq_refl r) at ne)
]
