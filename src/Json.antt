-- ===== src/Json.antt =====
-- encoding/json as the store and the request handlers use it. A JSON document is a value below; its
-- text is left to a codec (a section's parameter where one is used). Struct fields are matched by
-- their tag, without regard to case, and the last match wins.
use alice_tss.Base.{
  ℕ, ◌+◌, ◌^◌, ◌≤◌, ◌<◌, ◌≡◌, refl, ap, Bool, ◌&&◌, Option, none, some, [], ◌∷◌, map, leb, ltb,
  if◌then◌else◌, Text, text_eq, Dict, Result, ok, err, unmarshal_type, All, map_values,
  traverse_map,
}

mutual
  pub data Json : Type 0 where
    null : Json
    boolean : Bool → Json
    num : ℕ → Json
    -- a number that is not a natural one, by its text
    real : Text → Json
    str : Text → Json
    arr : Items → Json
    obj : Fields → Json

  pub data Items : Type 0 where
    nil : Items
    cons : Json → Items → Items

  pub data Fields : Type 0 where
    end : Fields
    field : Text → Json → Fields → Fields

abbrev lower : ℕ → ℕ
lower c = if leb b'A' c && leb c b'Z' then c + 32 else c

-- `strings.EqualFold` on ASCII names.
abbrev pub fold_eq : Text → Text → Bool
fold_eq s t = text_eq (map lower s) (map lower t)

-- The last member whose name matches the tag.
abbrev pub find : Text → Fields → Option Json
find k end = none
find k (field j v fs) =
    let rest = find k fs in
    elim rest [ some w ↦ some w | none ↦ if fold_eq j k then some v else none ]

-- A member decoded into a `string`; an absent member and `null` leave the zero value.
abbrev pub read_text : Option Json → Result Text
read_text none = ok []
read_text (some null) = ok []
read_text (some (str s)) = ok s
read_text _ = err unmarshal_type

-- A member decoded into a `uint32`.
abbrev pub read_uint32 : Option Json → Result ℕ
read_uint32 none = ok 0
read_uint32 (some null) = ok 0
read_uint32 (some (num n)) = if ltb n (2 ^ 32) then ok n else err unmarshal_type
read_uint32 _ = err unmarshal_type

-- The members of an object, in the order in which they stand.
abbrev pub members : Fields → Dict Json
members end = []
members (field k v fs) = (k, v) ∷ members fs

-- A member decoded into a `map[string]V`, value by value.
module _ {V : Type 0} where
  abbrev pub read_map : (Json → Result V) → Option Json → Result (Dict V)
  read_map read none = ok []
  read_map read (some null) = ok []
  read_map read (some (obj fs)) = traverse_map read [] (members fs)
  read_map read _ = err unmarshal_type

  -- A `map[string]V` as an object.
  abbrev pub map_json : (V → Json) → Dict V → Fields
  map_json write [] = end
  map_json write ((k, v) ∷ m) = field k (write v) (map_json write m)

  pub members-map_json :
      (write : V → Json) (m : Dict V) → members (map_json write m) ≡ map_values write m
  members-map_json write [] = refl
  members-map_json write ((k, v) ∷ m) = ap (λ r. (k, write v) ∷ r) (members-map_json write m)

abbrev pub IsAscii : Text → Type 0
IsAscii s = All (λ c. c < 128) s

-- Documents that the text form carries exactly: ASCII strings (any other byte may be replaced by the
-- replacement character) and numbers that a float64 holds.
unfoldable mutual
  pub IsPlain : Json → Type 0
  IsPlain null = Unit
  IsPlain (boolean b) = Unit
  IsPlain (num n) = n ≤ 2 ^ 53
  IsPlain (real s) = ⊥
  IsPlain (str s) = IsAscii s
  IsPlain (arr xs) = AllPlain xs
  IsPlain (obj fs) = FieldsPlain fs

  pub AllPlain : Items → Type 0
  AllPlain nil = Unit
  AllPlain (cons x xs) = IsPlain x × AllPlain xs

  pub FieldsPlain : Fields → Type 0
  FieldsPlain end = Unit
  FieldsPlain (field k v fs) = IsAscii k × IsPlain v × FieldsPlain fs
