-- ===== src/Movies/Film.antt =====
-- film.c: films as the texts of their fields, and their JSON. The calls of cJSON are the operations
-- of a parameter, `Cjson`; an object that a call changes is returned by it.
pub mod RoundTrip
use c_computer_networking.Prelude.{Option, none, some, List, [], ◌∷◌, get_or}
use c_computer_networking.HashTable.Hash.{Bytes}
use c_computer_networking.Movies.Text.{codes}

-- the functions of cJSON that the server calls; `valuestring` is `none` for NULL
pub record Cjson : Type 1 where
  pub Json : Type 0
  pub parse : Bytes → Json
  pub get_object_item : Json → Bytes → Option Json
  pub valuestring : Json → Option Bytes
  pub create_object : Json
  pub create_array : Json
  pub add_string_to_object : Json → Bytes → Bytes → Json
  pub add_item_to_object : Json → Bytes → Json → Json
  pub add_item_to_array : Json → Json → Json
  pub print : Json → Bytes

pub record Film : Type 0 where
  pub fields : List Bytes

-- `field_names`
abbrev pub field_names : List Bytes
field_names =
    codes "title"
    ∷ codes "originalTitle"
    ∷ codes "productionYear"
    ∷ codes "length"
    ∷ codes "director"
    ∷ codes "actors"
    ∷ []

-- `f->fields[film_title]`
abbrev pub title_of : Film → Bytes
title_of f = get_or f.fields 0 []

-- `COMPACT` and `FULL`
pub data View : Type 0 where
  compact full : View

module _ (J : Cjson) where
  open J use {Json, parse, get_object_item, valuestring, create_object, add_string_to_object}

  abbrev pub field_of : Json → Bytes → Option Bytes
  field_of root name = elim (get_object_item root name) [
    | none ↦ none
    | some field ↦ valuestring field
  ]

  -- the loop of `parse_film` over the field names
  unfoldable pub read_fields : Json → List Bytes → Option (List Bytes)
  read_fields root [] = some []
  read_fields root (name ∷ names) =
      let rest = read_fields root names in
      elim (field_of root name) [
        | none ↦ none
        | some value ↦ elim rest [ none ↦ none | some values ↦ some (value ∷ values) ]
      ]

  -- The film, or NULL where a field is missing.
  unfoldable pub parse_film : Bytes → Option Film
  unfolding read_fields
  parse_film s = elim (read_fields (parse s) field_names) [
    | none ↦ none
    | some values ↦ some (record { fields = values })
  ]

  abbrev pub add_fields : Json → List Bytes → List Bytes → Json
  add_fields obj [] values = obj
  add_fields obj (name ∷ names) [] = obj
  add_fields obj (name ∷ names) (value ∷ values) =
      add_fields (add_string_to_object obj name value) names values

  unfoldable pub film_json_view : Film → Bytes → View → Json
  film_json_view f id compact =
      add_string_to_object (add_string_to_object create_object (codes "title") (title_of f))
        (codes "href") id
  film_json_view f id full =
      add_string_to_object (add_fields create_object field_names f.fields) (codes "href") id
