-- ===== src/Tests/Movies/Json.antt =====
-- The stand-in for cJSON does what is assumed of it.
use c_computer_networking.Prelude.{◌≡◌, refl, ap, ◌∙◌, false, none, some, [], ◌∷◌, ◌++◌, arith, map}
use c_computer_networking.HashTable.Hash.{Bytes}
use c_computer_networking.HashTable.Chain.{same_key, same_key_iff}
use c_computer_networking.Movies.Text.{codes}
use c_computer_networking.Movies.Film.{field_names, read_fields, full, film_json_view}
use c_computer_networking.Movies.Film.RoundTrip.{
  folded, same_name, IsLawful, read_fields-film_json_view,
}
use c_computer_networking.Tests.Movies.{Pairs, item, value_of_item, json, film}

item-append :
    (o more : Pairs) (name : Bytes) → item o name ≡ none → item (o ++ more) name ≡ item more name
item-append [] more name e = refl
item-append ((n, v) ∷ o) more name e = ground (arith, item-append o more name)

item-other :
    (o : Pairs) (n v name : Bytes)
    → same_key n name ≡ false
    → item (o ++ (n, v) ∷ []) name ≡ item o name
item-other [] n v name e = ground arith
item-other ((m, w) ∷ o) n v name e = ground (arith, item-other o n v name)

differ : (n name : Bytes) → same_name n name ≡ false → same_key n name ≡ false
differ n name e =
    ground
      (arith, same_key_iff n name, same_key_iff (map folded n) (map folded name), ap (map folded))

item_self : (name value : Bytes) → item ((name, value) ∷ []) name ≡ some ((name, value) ∷ [])
item_self name value = ground (arith, same_key_iff name name)

item-found :
    (o : Pairs) (name value : Bytes)
    → item o name ≡ none
    → value_of_item (item (o ++ (name, value) ∷ []) name) ≡ some value
item-found o name value e =
    ap value_of_item (item-append o ((name, value) ∷ []) name e ∙ item_self name value)

json-IsLawful : IsLawful json
json-IsLawful = record {
  no_item = λ name. refl;
  found = item-found;
  others =
      λ o name value other_name e. item-other o name value other_name (differ name other_name e);
}

read_fields-film_json_view_example :
    read_fields json (film_json_view json film (codes "/films/0") full) field_names
    ≡ some film.fields
read_fields-film_json_view_example =
    read_fields-film_json_view json json-IsLawful film (codes "/films/0") refl
