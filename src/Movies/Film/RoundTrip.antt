-- ===== src/Movies/Film/RoundTrip.antt =====
-- The JSON of a film has the fields that `parse_film` reads, by what cJSON says of its objects.
use c_computer_networking.Prelude.{
  ℕ, ◌+◌, ◌≡◌, refl, sym, ap, ◌∙◌, Bool, true, false, ◌&&◌, not, Option, none, some, List, [], ◌∷◌,
  map, arith, length, leb, if◌then◌else◌, inl, inr, Option-cases,
}
use c_computer_networking.HashTable.Hash.{Bytes}
use c_computer_networking.HashTable.Chain.{same_key, same_key_iff}
use c_computer_networking.Movies.Text.{codes}
use c_computer_networking.Movies.Film.{
  Cjson, Film, field_names, full, field_of, read_fields, add_fields, film_json_view,
}

-- names as cJSON compares them, without regard to upper and lower case
abbrev pub folded : ℕ → ℕ
folded c = if leb 65 c && leb c 90 then c + 32 else c

abbrev pub same_name : Bytes → Bytes → Bool
same_name a b = same_key (map folded a) (map folded b)

-- What cJSON says of an object: a new one has no item, a string that is added under a new name is
-- found under it, and the items of other names stay.
pub record IsLawful (J : Cjson) : Type 0 where
  pub no_item : (name : Bytes) → Cjson.get_object_item J (Cjson.create_object J) name ≡ none
  pub found :
      (o : Cjson.Json J) (name value : Bytes)
      → Cjson.get_object_item J o name ≡ none
      → field_of J (Cjson.add_string_to_object J o name value) name ≡ some value
  pub others :
      (o : Cjson.Json J) (name value other_name : Bytes)
      → same_name name other_name ≡ false
      → Cjson.get_object_item J (Cjson.add_string_to_object J o name value) other_name
        ≡ Cjson.get_object_item J o other_name

-- none of the names is `name`; no two of the names are the same
abbrev pub is_fresh : Bytes → List Bytes → Bool
is_fresh name [] = true
is_fresh name (n ∷ names) = not (same_name name n) && is_fresh name names

abbrev pub are_distinct : List Bytes → Bool
are_distinct [] = true
are_distinct (n ∷ names) = is_fresh n names && are_distinct names

-- the value of an item, and a value before the ones that are read behind it
abbrev value_behind : (J : Cjson) → Option (Cjson.Json J) → Option Bytes
value_behind J none = none
value_behind J (some field) = Cjson.valuestring J field

abbrev put_first : Option Bytes → Option (List Bytes) → Option (List Bytes)
put_first none rest = none
put_first (some v) none = none
put_first (some v) (some vs) = some (v ∷ vs)

same_name-sym : (a b : Bytes) → same_name a b ≡ false → same_name b a ≡ false
same_name-sym a b e =
    ground (
      arith,
      same_key_iff (map folded a) (map folded b),
      same_key_iff (map folded b) (map folded a),
    )

module _ (J : Cjson) (lawful : IsLawful J) where
  open J use {Json, get_object_item, add_string_to_object, create_object}

  -- the object has none of the names
  Absent : Json → List Bytes → Type 0
  Absent o [] = Unit
  Absent o (n ∷ names) = (get_object_item o n ≡ none) × Absent o names

  Absent-add :
      (o : Json) (name value : Bytes) (names : List Bytes)
      → is_fresh name names ≡ true
      → Absent o names
      → Absent (add_string_to_object o name value) names
  unfolding Absent
  Absent-add o name value [] fresh a = tt
  Absent-add o name value (n ∷ names) fresh a = (
    lawful.others o name value n (ground arith) ∙ a.0,
    Absent-add o name value names (ground arith) a.1,
  )

  field_of-same :
      (a b : Json) (n : Bytes)
      → get_object_item a n ≡ get_object_item b n
      → field_of J a n ≡ field_of J b n
  field_of-same a b n e = ap (value_behind J) e

  read_fields-cons :
      (o : Json) (n : Bytes) (names : List Bytes)
      → read_fields J o (n ∷ names) ≡ put_first (field_of J o n) (read_fields J o names)
  unfolding read_fields
  read_fields-cons o n names = elim (Option-cases (field_of J o n)) [
    | inl e ↦ ground (arith, e)
    | inr (v, e) ↦ elim (Option-cases (read_fields J o names)) [
      | inl r ↦ ground (arith, e, r)
      | inr (vs, r) ↦ ground (arith, e, r)
    ]
  ]

  read_fields-add :
      (o : Json) (name value : Bytes) (names : List Bytes)
      → is_fresh name names ≡ true
      → read_fields J (add_string_to_object o name value) names ≡ read_fields J o names
  unfolding read_fields
  read_fields-add o name value [] fresh = refl
  read_fields-add o name value (n ∷ names) fresh =
      let o' = add_string_to_object o name value in
      let same = field_of-same o' o n (lawful.others o name value n (ground arith)) in
      let rest = read_fields-add o name value names (ground arith) in
      read_fields-cons o' n names ∙ rw (same, rest) (sym (read_fields-cons o n names))

  field_of-add_fields :
      (o : Json) (name : Bytes) (names values : List Bytes)
      → is_fresh name names ≡ true
      → field_of J (add_fields J o names values) name ≡ field_of J o name
  field_of-add_fields o name [] values fresh = refl
  field_of-add_fields o name (n ∷ names) [] fresh = refl
  field_of-add_fields o name (n ∷ names) (v ∷ values) fresh =
      field_of-add_fields (add_string_to_object o n v) name names values (ground arith)
      ∙ field_of-same (add_string_to_object o n v) o name
          (lawful.others o n v name (same_name-sym name n (ground arith)))

  read_fields-add_fields :
      (o : Json) (names values : List Bytes)
      → are_distinct names ≡ true
      → Absent o names
      → length names ≡ length values
      → read_fields J (add_fields J o names values) names ≡ some values
  unfolding Absent read_fields
  read_fields-add_fields o [] [] distinct absent same = refl
  read_fields-add_fields o [] (v ∷ values) distinct absent same = absurd (omega arith)
  read_fields-add_fields o (n ∷ names) [] distinct absent same = absurd (omega arith)
  read_fields-add_fields o (n ∷ names) (v ∷ values) distinct absent same =
      let o' = add_string_to_object o n v in
      let here =
        field_of-add_fields o' n names values (ground arith) ∙ lawful.found o n v absent.0 in
      let rest =
        read_fields-add_fields o' names values (ground arith)
          (Absent-add o n v names (ground arith) absent.1) (omega arith) in
      read_fields-cons (add_fields J o' names values) n names ∙ rw (here, rest) refl

  Absent-create : (names : List Bytes) → Absent create_object names
  unfolding Absent
  Absent-create [] = tt
  Absent-create (n ∷ names) = (lawful.no_item n, Absent-create names)

  -- If a new JSON object has no item, a string added under a new name is found under it, and the
  -- items whose names differ by more than upper and lower case stay, then the object that is
  -- written for a film with six fields has the fields of the film where `parse_film` looks for
  -- them.
  pub read_fields-film_json_view :
      (f : Film) (id : Bytes)
      → length f.fields ≡ length field_names
      → read_fields J (film_json_view J f id full) field_names ≡ some f.fields
  unfolding film_json_view same_key
  read_fields-film_json_view f id six =
      read_fields-add (add_fields J create_object field_names f.fields) (codes "href") id
        field_names refl
      ∙ read_fields-add_fields create_object field_names f.fields refl (Absent-create field_names)
          (sym six)
