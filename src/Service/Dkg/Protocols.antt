-- ===== src/Service/Dkg/Protocols.antt =====
-- Which protocol the streams of a key generation go to, service/dkg.go and utils/utils.go.
use alice_tss.Base.{
  ℕ, ◌/◌, ◌%◌, ◌≡◌, refl, ◌∙◌, true, false, Option, none, some, [], ◌∷◌, ◌++◌, Text, Bytes, ◌==◌,
  arith,
}
use alice_tss.Libs.{Libs}
use alice_tss.Codec.BigInt.{decimal}
use alice_tss.Codec.Hex.{hex_encode, hex_digit}
use alice_tss.Peer.Manager.{get_protocol}
use alice_tss.Utils.Keys.{to_hex, to_hex_hash, random_hash}
use alice_tss.Service.Dkg.{contains_dash, before_dash, stream_protocol}

contains_dash-append : (s t : Text) → contains_dash (s ++ b'-' ∷ t) ≡ true
contains_dash-append [] t = refl
contains_dash-append (c ∷ s) t = ground (arith, contains_dash-append s t)

before_dash-append : (s t : Text) → contains_dash s ≡ false → before_dash (s ++ b'-' ∷ t) ≡ s
before_dash-append [] t h = refl
before_dash-append (c ∷ s) t h = ground (arith, before_dash-append s t)

-- A hash without a dash stands for the same protocol whatever is hung on to it behind a dash.
pub stream_protocol-dash :
    (hash suffix : Text)
    → contains_dash hash ≡ false
    → stream_protocol (hash ++ b'-' ∷ suffix) ≡ stream_protocol hash
unfolding stream_protocol
stream_protocol-dash hash suffix h =
    rw (contains_dash-append hash suffix, before_dash-append hash suffix h, h) refl

hex_digit-no_dash : (d : ℕ) → (hex_digit d == b'-') ≡ false
hex_digit-no_dash d = ground arith

contains_dash-hex_encode : (b : Bytes) → contains_dash (hex_encode b) ≡ false
unfolding hex_encode
contains_dash-hex_encode [] = refl
contains_dash-hex_encode (b ∷ bs) =
    rw (hex_digit-no_dash (b / 16), hex_digit-no_dash (b % 16)) (contains_dash-hex_encode bs)

contains_dash-to_hex : (b : Bytes) → contains_dash (to_hex b) ≡ false
unfolding to_hex
contains_dash-to_hex b = contains_dash-hex_encode b

-- A random hash has no dash.
pub contains_dash-random_hash :
    (l : Libs) (now : Text) (bytes : Option Bytes) (rnd : ℕ)
    → contains_dash (random_hash l now bytes rnd) ≡ false
unfolding random_hash to_hex_hash
contains_dash-random_hash l now none rnd = contains_dash-to_hex (l.keccak256 (now ++ decimal rnd))
contains_dash-random_hash l now (some r) rnd = contains_dash-to_hex (l.keccak256 (now ++ r))

-- All the key generations of one random hash, each under the hash, a dash and its own number, listen on
-- the protocol of the hash itself.
pub stream_protocol-random_hash :
    (l : Libs) (now : Text) (bytes : Option Bytes) (rnd : ℕ) (suffix : Text)
    → stream_protocol (random_hash l now bytes rnd ++ b'-' ∷ suffix)
      ≡ get_protocol (random_hash l now bytes rnd)
unfolding stream_protocol
stream_protocol-random_hash l now bytes rnd suffix =
    let h = contains_dash-random_hash l now bytes rnd in
    stream_protocol-dash (random_hash l now bytes rnd) suffix h ∙ rw (stream_protocol, h)
