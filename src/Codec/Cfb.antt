-- ===== src/Codec/Cfb.antt =====
-- crypto/cipher: `NewCFBEncrypter`, `NewCFBDecrypter` and their `XORKeyStream`, over any block
-- function. The register takes in the ciphertext, and a new block of key stream is drawn from it
-- each time the old one is used up.
use Prim.Native.Nat.{bit_xor}
use alice_tss.Base.{ℕ, suc, ◌<◌, ◌≡◌, refl, ap, ap₂, [], ◌∷◌, ◌++◌, Bytes, All, length, arith}
use alice_tss.Codec.Xor.{bit_xor_cancel, bit_xor-lt}

-- `next` is the register as far as it is filled, `out` the key stream that is left.
pub record Cfb : Type 0 where
  pub next : Bytes
  pub out : Bytes

-- `if x.outUsed == len(x.out) { x.b.Encrypt(x.out, x.next); x.outUsed = 0 }`
abbrev refill : (Bytes → Bytes) → Bytes → Bytes → Cfb
refill block next [] = record { next = []; out = block next }
refill block next (k ∷ ks) = record { next = next; out = k ∷ ks }

abbrev first : Bytes → ℕ
first [] = 0
first (k ∷ ks) = k

abbrev rest : Bytes → Bytes
rest [] = []
rest (k ∷ ks) = ks

-- One byte: the state before it, with key stream to use, and the state after it.
abbrev advance : Cfb → ℕ → Cfb
advance x c = record { next = x.next ++ c ∷ []; out = rest x.out }

unfoldable pub encrypt_stream : (Bytes → Bytes) → Cfb → Bytes → Bytes
encrypt_stream block x [] = []
encrypt_stream block x (p ∷ ps) =
    let y = refill block x.next x.out in
    let c = bit_xor p (first y.out) in c ∷ encrypt_stream block (advance y c) ps

unfoldable pub decrypt_stream : (Bytes → Bytes) → Cfb → Bytes → Bytes
decrypt_stream block x [] = []
decrypt_stream block x (c ∷ cs) =
    let y = refill block x.next x.out in
    bit_xor c (first y.out) ∷ decrypt_stream block (advance y c) cs

-- A new stream has its whole key stream used up, so the first byte draws a block from the iv.
abbrev pub new_stream : Bytes → Cfb
new_stream iv = record { next = iv; out = [] }

-- Whatever the block function, decryption undoes encryption from the same state.
pub decrypt_stream-encrypt_stream :
    (block : Bytes → Bytes) (x : Cfb) (ps : Bytes)
    → decrypt_stream block x (encrypt_stream block x ps) ≡ ps
unfolding encrypt_stream decrypt_stream
decrypt_stream-encrypt_stream block x [] = refl
decrypt_stream-encrypt_stream block x (p ∷ ps) =
    let y = refill block x.next x.out in
    let c = bit_xor p (first y.out) in
    ap₂ (λ a s. a ∷ s) (bit_xor_cancel p (first y.out))
      (decrypt_stream-encrypt_stream block (advance y c) ps)

pub length-encrypt_stream :
    (block : Bytes → Bytes) (x : Cfb) (ps : Bytes) → length (encrypt_stream block x ps) ≡ length ps
unfolding encrypt_stream
length-encrypt_stream block x [] = refl
length-encrypt_stream block x (p ∷ ps) =
    let y = refill block x.next x.out in
    ap suc (length-encrypt_stream block (advance y (bit_xor p (first y.out))) ps)

first-lt : (ks : Bytes) → All (λ k. k < 256) ks → first ks < 256
first-lt [] h = omega arith
first-lt (k ∷ ks) h = h.0

rest-IsBytes : (ks : Bytes) → All (λ k. k < 256) ks → All (λ k. k < 256) (rest ks)
rest-IsBytes [] h = tt
rest-IsBytes (k ∷ ks) h = h.1

module _ (block : Bytes → Bytes) (bytes : (r : Bytes) → All (λ k. k < 256) (block r)) where
  refill-IsBytes :
      (next out : Bytes) → All (λ k. k < 256) out → All (λ k. k < 256) (refill block next out).out
  refill-IsBytes next [] h = bytes next
  refill-IsBytes next (k ∷ ks) h = h

  -- A stream over a block function that gives bytes gives bytes.
  pub encrypt_stream-IsBytes :
      (x : Cfb) (ps : Bytes)
      → All (λ k. k < 256) x.out
      → All (λ p. p < 256) ps
      → All (λ c. c < 256) (encrypt_stream block x ps)
  unfolding encrypt_stream
  encrypt_stream-IsBytes x [] hx h = tt
  encrypt_stream-IsBytes x (p ∷ ps) hx h =
      let y = refill block x.next x.out in
      let hy = refill-IsBytes x.next x.out hx in
      (
        bit_xor-lt 8 p (first y.out) h.0 (first-lt y.out hy),
        encrypt_stream-IsBytes (advance y (bit_xor p (first y.out))) ps (rest-IsBytes y.out hy) h.1,
      )
