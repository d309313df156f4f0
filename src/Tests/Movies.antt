-- ===== src/Tests/Movies.antt =====
-- The movie database with one film, over a small stand-in for cJSON: an object is a list of names
-- and values, and a text is parsed to the six fields of a film between bars.
pub mod Json
pub mod Shelf
use c_computer_networking.Prelude.{
  ℕ, ◌≡◌, ◌<◌, refl, sym, ap, ◌∙◌, true, false, Option, none, some, List, [], ◌∷◌, ◌++◌, arith, map,
  length, get_or, ◌==◌, if◌then◌else◌,
}
use c_computer_networking.Prelude.Int.{pos, negsuc}
use c_computer_networking.Prelude.Outcome.{ok, fault, out_of_bounds}
use c_computer_networking.HashTable.Hash.{Bytes}
use c_computer_networking.HashTable.Chain.{same_key, same_key_iff, find, assign}
use c_computer_networking.HashTable.Placed.{view}
use c_computer_networking.HashTable.Table.{
  ht_create, ht_get_value, ht_set_value, put_value, make_room,
}
use c_computer_networking.Movies.Text.{codes, decimal}
use c_computer_networking.Movies.Film.{
  Cjson, Film, title_of, field_names, parse_film, read_fields, full, film_json_view,
}
use c_computer_networking.Movies.Film.RoundTrip.{
  folded, same_name, IsLawful, read_fields-film_json_view,
}
use c_computer_networking.Movies.Database.{Database, max_films, db_create, db_contains, db_update}
use c_computer_networking.Movies.Database.Consistent.{IsConsistent, db_create-IsConsistent}
use c_computer_networking.Movies.Database.Added.{titles, added}
use c_computer_networking.Movies.Database.Changes.{updated}
use c_computer_networking.Movies.Database.Renames.{db_update-renamed, db_update-lost}
use c_computer_networking.Movies.Server.{
  HttpRequest, get, post, put, http_created, new_response, href_of, film_href, response_write_json,
  film_collection, film_resource, has_directive,
}
use c_computer_networking.Movies.Server.Plain.{IsPlain}
use c_computer_networking.Movies.Server.Created.{
  added-IsConsistent, added-here, db_get-added, film_resource-film_collection,
}
use c_computer_networking.Movies.Server.Safety.{
  Returns, KeepsTitle, Reach, start, collection_step, Reach-IsConsistent, Reach-Returns,
  film_collection-full,
}

abbrev hash : Bytes → ℕ
hash = length

abbrev Pairs : Type 0
Pairs = List (Bytes × Bytes)

abbrev to_head : ℕ → List Bytes → List Bytes
to_head c [] = (c ∷ []) ∷ []
to_head c (part ∷ parts) = (c ∷ part) ∷ parts

abbrev between_bars : Bytes → List Bytes
between_bars [] = [] ∷ []
between_bars (c ∷ s) =
    let parts = between_bars s in if c == 124 then [] ∷ parts else to_head c parts

abbrev named : List Bytes → List Bytes → Pairs
named [] values = []
named (name ∷ names) [] = []
named (name ∷ names) (value ∷ values) = (name, value) ∷ named names values

abbrev item : Pairs → Bytes → Option Pairs
item [] name = none
item ((n, v) ∷ rest) name =
    let found = item rest name in if same_key n name then some ((n, v) ∷ []) else found

abbrev value_of : Pairs → Option Bytes
value_of [] = none
value_of ((n, v) ∷ rest) = some v

abbrev value_of_item : Option Pairs → Option Bytes
value_of_item none = none
value_of_item (some o) = value_of o

abbrev text_of : Pairs → Bytes
text_of [] = []
text_of ((n, v) ∷ rest) = n ++ v ++ text_of rest

abbrev json : Cjson
json = record {
  Json = Pairs;
  parse = λ s. named field_names (between_bars s);
  get_object_item = item;
  valuestring = value_of;
  create_object = [];
  create_array = [];
  add_string_to_object = λ o n v. o ++ (n, v) ∷ [];
  add_item_to_object = λ o n i. o ++ i;
  add_item_to_array = λ o i. o ++ i;
  print = text_of;
}

-- "A", "B", "C", ... between bars, and other fields behind the same title
abbrev posted : Bytes
posted = 65 ∷ 124 ∷ 66 ∷ 124 ∷ 67 ∷ 124 ∷ 68 ∷ 124 ∷ 69 ∷ 124 ∷ 70 ∷ []

abbrev posted_again : Bytes
posted_again = 65 ∷ 124 ∷ 71 ∷ 124 ∷ 67 ∷ 124 ∷ 68 ∷ 124 ∷ 69 ∷ 124 ∷ 70 ∷ []

abbrev fields_after : Bytes → Film
fields_after second = record {
  fields = (65 ∷ []) ∷ second ∷ (67 ∷ []) ∷ (68 ∷ []) ∷ (69 ∷ []) ∷ (70 ∷ []) ∷ [];
}

abbrev film : Film
film = fields_after (66 ∷ [])

abbrev film_again : Film
film_again = fields_after (71 ∷ [])

abbrev renamed_film : Film
renamed_film = record { fields = (72 ∷ []) ∷ [] }

posted-parses : parse_film json posted ≡ some film
unfolding parse_film read_fields same_key
posted-parses = refl

posted_again-parses : parse_film json posted_again ≡ some film_again
unfolding parse_film read_fields same_key
posted_again-parses = refl

empty-parses_test : parse_film json [] ≡ none
unfolding parse_film read_fields same_key
empty-parses_test = refl

abbrev post_request : HttpRequest
post_request = record {
  method = post;
  fullpath = codes "/films";
  query = [];
  posted = some posted;
  put_data = none;
}

abbrev pub at_film : HttpRequest
at_film = record {
  method = get;
  fullpath = codes "/films/0";
  query = decimal db_create.cur_films;
  posted = none;
  put_data = none;
}

abbrev put_request : HttpRequest
put_request = record at_film { method = put; put_data = some posted_again }

-- what is posted, and the place of the film, have no `%`
posted-plain : has_directive posted ≡ false
unfolding has_directive
posted-plain = refl

posted_again-plain : has_directive posted_again ≡ false
unfolding has_directive
posted_again-plain = refl

again-plain : (text : Bytes) → some posted_again ≡ some text → has_directive text ≡ false
again-plain text e = let same : text ≡ posted_again = cc in rw same posted_again-plain

place-plain : has_directive (href_of at_film.fullpath) ≡ false
unfolding has_directive href_of
place-plain = refl

pub post_request-IsPlain : IsPlain post_request
post_request-IsPlain = record {
  posts = λ is_post. (posted, refl, posted-plain);
  gets = λ is_get. cc;
  puts = λ text is_put e. cc;
}

pub put_request-IsPlain : IsPlain put_request
put_request-IsPlain = record {
  posts = λ is_post. cc;
  gets = λ is_get. cc;
  puts = λ text is_put e. again-plain text e;
}

pub at_film-IsPlain : IsPlain at_film
at_film-IsPlain = record {
  posts = λ is_post. cc;
  gets = λ is_get. place-plain;
  puts = λ text is_put e. cc;
}

new : db_contains hash db_create (title_of film) ≡ false
unfolding db_contains db_create ht_create ht_get_value find same_key
new = refl

room : db_create.cur_films < max_films
unfolding db_create
room = omega arith

c : IsConsistent hash db_create
c = db_create-IsConsistent hash

film_resource-film_collection_example :
    (film_collection hash json db_create post_request new_response
      ≡ ok (
        added hash db_create film,
        record new_response {
          code = some http_created;
          location = some (film_href (href_of (codes "/films")) (pos db_create.cur_films));
        },
      ))
    × (film_resource hash json (negsuc 4) (pos 9) (added hash db_create film) at_film new_response
        ≡ ok (
          added hash db_create film,
          response_write_json json new_response
              (film_json_view json film (href_of (codes "/films/0")) full),
        ))
film_resource-film_collection_example =
    film_resource-film_collection hash db_create c json post_request at_film new_response
      new_response (negsuc 4) (pos 9) film posted refl refl posted-plain posted-parses new room
      at_film-IsPlain refl refl

one : Database
one = added hash db_create film

one-IsConsistent : IsConsistent hash one
unfolding one
one-IsConsistent = added-IsConsistent hash db_create c film new room

one-here : get_or one.films db_create.cur_films none ≡ some film
unfolding one
one-here = added-here hash db_create c film new room

created :
    film_collection hash json db_create post_request new_response
    ≡ ok (
      added hash db_create film,
      record new_response {
        code = some http_created;
        location = some (film_href (href_of (codes "/films")) (pos db_create.cur_films));
      },
    )
created =
    (film_resource-film_collection hash db_create c json post_request at_film new_response
      new_response (negsuc 4) (pos 9) film posted refl refl posted-plain posted-parses new room
      at_film-IsPlain refl refl).0

one-Reach : Reach hash json one
unfolding one
one-Reach =
    collection_step db_create (added hash db_create film) post_request new_response _ start
      post_request-IsPlain room created

one-room : one.cur_films < max_films
unfolding one db_create
one-room = omega arith

keeps : KeepsTitle json (negsuc 4) one put_request
unfolding one
keeps f d found is_put e =
    let same_text : d ≡ posted_again = cc in
    let same_film : f ≡ film = cc (found, db_get-added hash db_create c film new room (negsuc 4)) in
    (film_again, ap (parse_film json) same_text ∙ posted_again-parses, sym (ap title_of same_film))

Reach-IsConsistent_test : IsConsistent hash one
Reach-IsConsistent_test = Reach-IsConsistent hash json one one-Reach

Reach-Returns_example :
    Returns hash (film_collection hash json one put_request new_response)
    × Returns hash (film_resource hash json (negsuc 4) (pos 9) one put_request new_response)
Reach-Returns_example =
    Reach-Returns hash json one put_request new_response (negsuc 4) (pos 9) one-Reach
      put_request-IsPlain one-room keeps

abbrev full_database : Database
full_database = record db_create { cur_films = max_films }

full-new : db_contains hash full_database (title_of film) ≡ false
unfolding db_contains db_create ht_create ht_get_value find same_key
full-new = refl

film_collection-full_test :
    film_collection hash json full_database post_request new_response ≡ fault out_of_bounds
film_collection-full_test =
    film_collection-full hash json full_database post_request new_response film posted refl refl
      refl posted-plain posted-parses full-new

renamed-new : titles hash one (title_of renamed_film) ≡ none
unfolding one db_create ht_create ht_set_value put_value make_room assign same_key view find
renamed-new = refl

db_update-renamed_example :
    let renamed = updated hash one db_create.cur_films film (some renamed_film) in
    (db_update hash one (title_of film) (some renamed_film) ≡ ok renamed)
    × (db_contains hash renamed (title_of renamed_film) ≡ false)
    × (db_contains hash renamed (title_of film) ≡ true)
    × (db_update hash renamed (title_of renamed_film) (some film_again) ≡ fault out_of_bounds)
db_update-renamed_example =
    db_update-renamed hash one one-IsConsistent db_create.cur_films film one-here renamed_film
      film_again renamed-new

db_update-lost_test :
    let lost = updated hash one db_create.cur_films film none in
    (db_update hash one (title_of film) none ≡ ok lost)
    × (get_or lost.films db_create.cur_films none ≡ none)
    × (db_contains hash lost (title_of film) ≡ true)
db_update-lost_test = db_update-lost hash one one-IsConsistent db_create.cur_films film one-here
