-- ===== src/Utils/Convert.antt =====
-- utils/utils.go, `ConvertDKGResult`: a stored configuration becomes what alice's protocols take.
use alice_tss.Base.{
  ◌≡◌, Option, none, some, [], ◌∷◌, Text, Dict, Result, ok, err, ◌>>=◌, conversion, All, IsMap,
  map_values, traverse_map, traverse_map-map_values,
}
use alice_tss.Types.{Pubkey, Bk}
use alice_tss.Libs.{Libs, BkParameter, DkgOutcome}
use alice_tss.Codec.BigInt.{ℤ, int_string, set_string, set_string-int_string}

abbrev or_conversion : Option ℤ → Result ℤ
or_conversion none = err conversion
or_conversion (some x) = ok x

-- `new(big.Int).SetString(s, 10)`, and `ErrConversion` where that is not ok.
unfoldable pub big_of : Text → Result ℤ
big_of s = or_conversion (set_string s)

-- One round of the loop over `cfgBKs`.
unfoldable pub convert_bk : Bk → Result BkParameter
unfolding big_of
convert_bk bk = do x ← big_of bk.x; ok (record { x = x; rank = bk.rank })

unfoldable pub convert_dkg_result : Libs → Pubkey → Text → Dict Bk → Result DkgOutcome
convert_dkg_result l pubkey share bks = do
  x ← big_of pubkey.x
  y ← big_of pubkey.y
  point ← l.new_ec_point x y
  secret ← big_of share
  parameters ← traverse_map convert_bk [] bks
  ok (record { public_key = point; share = secret; bks = parameters })

-- The configuration that stands for an outcome.
abbrev pub write_bk : BkParameter → Bk
write_bk p = record { x = int_string p.x; rank = p.rank }

pub big_of-int_string : (x : ℤ) → big_of (int_string x) ≡ ok x
unfolding big_of
big_of-int_string x = rw (set_string-int_string x)

convert_bk-write_bk : (p : BkParameter) → convert_bk (write_bk p) ≡ ok p
unfolding convert_bk
convert_bk-write_bk p = rw (set_string-int_string p.x)

written : (m : Dict BkParameter) → All (λ e. convert_bk (write_bk e.1) ≡ ok e.1) m
written [] = tt
written ((k, p) ∷ m) = (convert_bk-write_bk p, written m)

pub convert_bks-write_bks :
    (m : Dict BkParameter) → IsMap m → traverse_map convert_bk [] (map_values write_bk m) ≡ ok m
convert_bks-write_bks m h = traverse_map-map_values convert_bk write_bk m (written m) h

-- A point that alice accepts, a share and parameters with distinct peers, written in decimal,
-- convert back to themselves.
pub convert_dkg_result_lem :
    (l : Libs) (d : DkgOutcome)
    → IsMap d.bks
    → l.new_ec_point d.public_key.x d.public_key.y ≡ ok d.public_key
    → convert_dkg_result l
        (record { x = int_string d.public_key.x; y = int_string d.public_key.y })
        (int_string d.share)
        (map_values write_bk d.bks)
      ≡ ok d
unfolding convert_dkg_result
convert_dkg_result_lem l d h on_curve = rw (
  big_of-int_string d.public_key.x,
  big_of-int_string d.public_key.y,
  on_curve,
  big_of-int_string d.share,
  convert_bks-write_bks d.bks h,
)

-- A coordinate that is no decimal number is a conversion error, whatever the rest.
pub convert_dkg_result_bad_x :
    (l : Libs) (pubkey : Pubkey) (share : Text) (bks : Dict Bk)
    → set_string pubkey.x ≡ none
    → convert_dkg_result l pubkey share bks ≡ err conversion
unfolding convert_dkg_result big_of
convert_dkg_result_bad_x l pubkey share bks h = rw h
