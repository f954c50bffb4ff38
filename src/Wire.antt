-- ===== src/Wire.antt =====
-- The JSON form of the stored records: the members that the struct tags of types/tss.go name, and how
-- a document is decoded into each struct.
use alice_tss.Base.{
  ◌^◌, ◌<◌, ◌≡◌, refl, Option, none, some, [], ◌∷◌, codes, Bytes, Dict, Result, ok, err, ◌>>=◌,
  unmarshal_type, All, IsMap, traverse_map-map_values, arith,
}
use alice_tss.Types.{Pubkey, Bk, DkgResult, RvSignature, no_pubkey, no_bk, no_signature}
use alice_tss.Libs.{Libs, LibLaws, IsAddress}
use alice_tss.Json.{
  Json, null, num, str, obj, end, field, find, read_text, read_uint32, read_map, map_json,
  members-map_json, IsAscii, IsPlain, FieldsPlain,
}

abbrev pubkey_json : Pubkey → Json
pubkey_json p = obj (field (codes "X") (str p.x) (field (codes "Y") (str p.y) end))

abbrev bk_json : Bk → Json
bk_json b = obj (field (codes "X") (str b.x) (field (codes "Rank") (num b.rank) end))

-- `json.Marshal` of a `DKGResult`.
unfoldable pub dkg_json : Libs → DkgResult → Json
dkg_json l d = obj (
    field (codes "share") (str d.share) (
      field (codes "pubkey") (pubkey_json d.pubkey) (
        field (codes "publicKey") (str d.public_key) (
          field (codes "address") (str (l.address_text d.address))
            (field (codes "bks") (obj (map_json bk_json d.bks)) end)))))

-- `json.Marshal` of an `RVSignature`.
unfoldable pub signature_json : RvSignature → Json
signature_json g = obj (
    field (codes "r") (str g.r)
      (field (codes "s") (str g.s) (field (codes "hash") (str g.hash) end)))

unfoldable pub read_pubkey : Option Json → Result Pubkey
read_pubkey none = ok no_pubkey
read_pubkey (some null) = ok no_pubkey
read_pubkey (some (obj fs)) = do
  x ← read_text (find (codes "X") fs)
  y ← read_text (find (codes "Y") fs)
  ok (record { x = x; y = y })
read_pubkey _ = err unmarshal_type

unfoldable pub read_bk : Json → Result Bk
read_bk null = ok no_bk
read_bk (obj fs) = do
  x ← read_text (find (codes "X") fs)
  rank ← read_uint32 (find (codes "Rank") fs)
  ok (record { x = x; rank = rank })
read_bk _ = err unmarshal_type

abbrev pub zero_address : Bytes
zero_address = 0 ∷ 0 ∷ 0 ∷ 0 ∷ 0 ∷ 0 ∷ 0 ∷ 0 ∷ 0 ∷ 0 ∷ 0 ∷ 0 ∷ 0 ∷ 0 ∷ 0 ∷ 0 ∷ 0 ∷ 0 ∷ 0 ∷ 0 ∷ []

-- go-ethereum's `Address` decodes itself, and from a string only.
unfoldable pub read_address : Libs → Option Json → Result Bytes
read_address l none = ok zero_address
read_address l (some (str s)) = l.parse_address s
read_address l _ = err unmarshal_type

abbrev pub no_dkg : DkgResult
no_dkg = record {
  share = [];
  pubkey = no_pubkey;
  public_key = [];
  address = zero_address;
  bks = [];
}

-- `json.Unmarshal` into a `DKGResult`.
unfoldable pub read_dkg : Libs → Json → Result DkgResult
unfolding read_pubkey read_bk read_address
read_dkg l null = ok no_dkg
read_dkg l (obj fs) = do
  share ← read_text (find (codes "share") fs)
  pubkey ← read_pubkey (find (codes "pubkey") fs)
  public_key ← read_text (find (codes "publicKey") fs)
  address ← read_address l (find (codes "address") fs)
  bks ← read_map read_bk (find (codes "bks") fs)
  ok (record {
    share = share;
    pubkey = pubkey;
    public_key = public_key;
    address = address;
    bks = bks;
  })
read_dkg l _ = err unmarshal_type

-- `json.Unmarshal` into an `RVSignature`.
unfoldable pub read_signature : Json → Result RvSignature
read_signature null = ok no_signature
read_signature (obj fs) = do
  r ← read_text (find (codes "r") fs)
  s ← read_text (find (codes "s") fs)
  hash ← read_text (find (codes "hash") fs)
  ok (record { r = r; s = s; hash = hash })
read_signature _ = err unmarshal_type

-- The ranks are of the type uint32.
abbrev pub AllRanks : Dict Bk → Type 0
AllRanks m = All (λ e. e.1.rank < 2 ^ 32) m

read_bk-bk_json : (b : Bk) → b.rank < 2 ^ 32 → read_bk (bk_json b) ≡ ok b
unfolding read_bk
read_bk-bk_json b h = ground arith

read_bks : (m : Dict Bk) → AllRanks m → All (λ e. read_bk (bk_json e.1) ≡ ok e.1) m
read_bks [] h = tt
read_bks ((k, b) ∷ m) h = (read_bk-bk_json b h.0, read_bks m h.1)

read_map-map_json :
    (m : Dict Bk) → AllRanks m → IsMap m → read_map read_bk (some (obj (map_json bk_json m))) ≡ ok m
read_map-map_json m h u =
    rw (members-map_json bk_json m) (traverse_map-map_values read_bk bk_json m (read_bks m h) u)

-- A `DKGResult` with an address of twenty bytes, ranks below 2 ^ 32 and distinct peers is read back
-- from the JSON that it is written as.
pub read_dkg-dkg_json :
    (l : Libs) (laws : LibLaws l) (d : DkgResult)
    → IsAddress d.address
    → AllRanks d.bks
    → IsMap d.bks
    → read_dkg l (dkg_json l d) ≡ ok d
unfolding read_dkg dkg_json
read_dkg-dkg_json l laws d a h u =
    rw (laws.parse_address-address_text d.address a, read_map-map_json d.bks h u)

-- A signature that was written is read back as a signature, and as a key generation's result it
-- reads as the zero value: none of its members has a name of the other struct.
pub read_signature-signature_json : (g : RvSignature) → read_signature (signature_json g) ≡ ok g
unfolding read_signature signature_json
read_signature-signature_json g = refl

pub read_dkg-signature_json :
    (l : Libs) (g : RvSignature) → read_dkg l (signature_json g) ≡ ok no_dkg
unfolding read_dkg signature_json
read_dkg-signature_json l g = refl

pub read_signature-dkg_json :
    (l : Libs) (d : DkgResult) → read_signature (dkg_json l d) ≡ ok no_signature
unfolding read_signature dkg_json
read_signature-dkg_json l d = refl

-- The stored texts are ASCII, those of the map included.
abbrev AllAscii : Dict Bk → Type 0
AllAscii m = All (λ e. IsAscii e.0 × IsAscii e.1.x) m

pub record IsStorable (d : DkgResult) : Type 0 where
  pub share : IsAscii d.share
  pub x : IsAscii d.pubkey.x
  pub y : IsAscii d.pubkey.y
  pub public_key : IsAscii d.public_key
  pub address : IsAddress d.address
  pub texts : AllAscii d.bks
  pub ranks : AllRanks d.bks
  pub keys : IsMap d.bks

map_json-IsPlain : (m : Dict Bk) → AllAscii m → AllRanks m → FieldsPlain (map_json bk_json m)
unfolding FieldsPlain
map_json-IsPlain [] a r = tt
map_json-IsPlain ((k, b) ∷ m) a r =
    (a.0.0, (omega arith, a.0.1, (omega arith, omega (arith, r.0), tt)), map_json-IsPlain m a.1 r.1)

-- The document of a storable record is one that the text form carries.
pub dkg_json-IsPlain :
    (l : Libs) (laws : LibLaws l) (d : DkgResult) → IsStorable d → IsPlain (dkg_json l d)
unfolding dkg_json IsPlain
dkg_json-IsPlain l laws d h = (
  omega arith,
  h.share,
  (
    omega arith,
    (omega arith, h.x, (omega arith, h.y, tt)),
    (
      omega arith,
      h.public_key,
      (
        omega arith,
        laws.address_text-IsAscii d.address h.address,
        (omega arith, map_json-IsPlain d.bks h.texts h.ranks, tt),
      ),
    ),
  ),
)
