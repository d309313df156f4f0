-- ===== src/Movies/Server.antt =====
-- block5.c: the handlers of the HTTP requests. What onion tells of a request is the record
-- `HttpRequest`; what the calls on a response leave is the record `HttpResponse`.
pub mod Created
pub mod Plain
pub mod Safety
pub mod Session
pub mod Shelf
use c_computer_networking.Prelude.{
  ℕ, zero, suc, ◌+◌, Bool, true, false, Option, none, some, List, [], ◌∷◌, ◌++◌, length, get_or,
  ◌==◌, if◌then◌else◌,
}
use c_computer_networking.Prelude.Int.{ℤ, pos, negsuc}
use c_computer_networking.Prelude.Outcome.{
  Outcome, ok, fault, null_pointer, bad_format, ◌>>=◌, ◌>>◌,
}
use c_computer_networking.HashTable.Hash.{Bytes}
use c_computer_networking.Movies.Text.{codes, decimal, snprintf}
use c_computer_networking.Movies.Film.{
  Cjson, Film, title_of, View, compact, full, parse_film, film_json_view,
}
use c_computer_networking.Movies.Database.{
  Database, db_create, db_get, db_contains, db_get_id, db_add, db_update, db_delete,
}

pub data Method : Type 0 where
  get post put delete other : Method

-- `posted` is the data of a POST request, NULL for a form, which onion parses itself; `put_data` is
-- the field `data` of a PUT request, NULL where it is missing; `query` is what the URL gives for
-- `films/(..*)`.
pub record HttpRequest : Type 0 where
  pub method : Method
  pub fullpath : Bytes
  pub query : Bytes
  pub posted : Option Bytes
  pub put_data : Option Bytes

pub data Code : Type 0 where
  http_ok http_created http_not_found : Code

-- The code and the headers are `none` where they are not set; `Content-Type` and `Mime-Type` are set
-- together, to the same type.
pub record HttpResponse : Type 0 where
  pub body : Bytes
  pub code : Option Code
  pub content_type : Option Bytes
  pub location : Option Bytes

abbrev pub new_response : HttpResponse
new_response = record { body = []; code = none; content_type = none; location = none }

abbrev pub base_url : Bytes
base_url = codes "http://0.0.0.0:4711"

abbrev pub max_id_len : ℕ
max_id_len = 10

-- Whether a text has a `%` that is not one of two together, read behind a `%` or not.
has_directive_after : Bool → Bytes → Bool
has_directive_after percent [] = percent
has_directive_after false (c ∷ text) = has_directive_after (c == 37) text
has_directive_after true (c ∷ text) =
    let twice = has_directive_after false text in if c == 37 then twice else true

unfoldable pub has_directive : Bytes → Bool
unfolding has_directive_after
has_directive text = has_directive_after false text

-- `ONION_INFO(text)`: the text is the format of a `printf` that has no arguments, so a directive in
-- it reads or writes what is not there.
unfoldable pub onion_info : Bytes → Outcome (Unit {0})
onion_info text = if has_directive text then fault bad_format else ok tt

-- `printf` of an `int` with `%d`
abbrev pub decimal_ℤ : ℤ → Bytes
decimal_ℤ (pos n) = decimal n
decimal_ℤ (negsuc n) = 45 ∷ decimal (n + 1)

-- `snprintf(href, strlen(BASE_URL) + strlen(path) + 1, "%s%s", BASE_URL, path)`
unfoldable pub href_of : Bytes → Bytes
href_of path = snprintf (length base_url + length path + 1) (base_url ++ path)

-- `snprintf(href, strlen(collection) + MAX_ID_LEN + 1, "%s/%d", collection, id)`
unfoldable pub film_href : Bytes → ℤ → Bytes
film_href collection id =
    snprintf (length collection + max_id_len + 1) (collection ++ 47 ∷ decimal_ℤ id)

abbrev pub Reply : Type 0
Reply = Database × HttpResponse

unfoldable pub invalid_request : Database → HttpResponse → Reply
invalid_request db res =
    (db, record res { body = res.body ++ codes "request failed\n"; code = some http_not_found })

unfoldable pub reset_db : HttpResponse → Reply
reset_db res = (db_create, res)

module _ (J : Cjson) where
  open J use {
    Json, create_object, create_array, add_string_to_object, add_item_to_object, add_item_to_array,
    print,
  }

  unfoldable pub response_write_json : HttpResponse → Json → HttpResponse
  response_write_json res obj = record res {
    body = res.body ++ print obj;
    content_type = some (codes "application/json");
  }

  -- the loop of `list_films` from number `i`, over the slots that are left
  unfoldable pub list_items : Bytes → ℕ → ℕ → List (Option Film) → Json → Json
  list_items collection zero i slots items = items
  list_items collection (suc rounds) i [] items = items
  list_items collection (suc rounds) i (none ∷ slots) items =
      list_items collection rounds (suc i) slots items
  list_items collection (suc rounds) i (some f ∷ slots) items =
      list_items collection rounds (suc i) slots
        (add_item_to_array items (film_json_view J f (film_href collection (pos i)) compact))

  -- cJSON keeps a reference to `items`, so what the loop adds to it is in the object too.
  unfoldable pub list_films : Database → HttpRequest → HttpResponse → Reply
  unfolding response_write_json
  list_films db req res =
      let collection = href_of req.fullpath in
      let items = list_items collection db.cur_films 0 db.films create_array in
      let root = add_item_to_object create_object (codes "items") items in
      let res' = response_write_json res (add_string_to_object root (codes "href") collection) in
      (db, record res' { code = some http_ok })

  unfoldable pub film_resource_get : Database → HttpRequest → HttpResponse → Film → Outcome Reply
  film_resource_get db req res f =
      let href = href_of req.fullpath in
      onion_info href >> ok (db, response_write_json res (film_json_view J f href full))

module _ (hash : Bytes → ℕ) (J : Cjson) where
  -- `add_film` with a film that was parsed
  unfoldable pub add_parsed : Database → HttpRequest → HttpResponse → Film → Outcome Reply
  add_parsed db req res f =
      if db_contains hash db (title_of f) then ok (invalid_request db res) else (do
        db' ← db_add hash db (title_of f) (some f)
        id ← db_get_id hash db' (title_of f)
        ok (
          db',
          record res {
            code = some http_created;
            location = some (film_href (href_of req.fullpath) id);
          },
        ))

  unfoldable pub add_film : Database → HttpRequest → HttpResponse → Outcome Reply
  add_film db req res = elim req.posted [
    | none ↦ fault null_pointer
    | some text ↦ onion_info text >> elim (parse_film J text) [
      | none ↦ ok (invalid_request db res)
      | some f ↦ add_parsed db req res f
    ]
  ]

  unfoldable pub film_collection : Database → HttpRequest → HttpResponse → Outcome Reply
  film_collection db req res = elim req.method [
    | get ↦ ok (list_films J db req res)
    | post ↦ add_film db req res
    | delete ↦ ok (reset_db res)
    | _ ↦ ok (invalid_request db res)
  ]

  -- The test after `parse_film` is on `f`, the film that is there, so a film that did not parse goes
  -- to `db_update` as NULL.
  unfoldable pub film_resource_update : Database → HttpRequest → HttpResponse → Film → Outcome Reply
  film_resource_update db req res f = elim req.put_data [
    | none ↦ ok (db, res)
    | some put_data ↦ do
      onion_info put_data
      db' ← db_update hash db (title_of f) (parse_film J put_data)
      ok (db', res)
  ]

  -- `kept` is what the variable of `db_delete` holds that `sscanf` leaves alone, and `stale` what
  -- that of `db_get` holds.
  unfoldable pub film_resource_found :
      ℤ → Database → HttpRequest → HttpResponse → Film → Outcome Reply
  film_resource_found kept db req res f = elim req.method [
    | get ↦ film_resource_get J db req res f
    | put ↦ film_resource_update db req res f
    | delete ↦ ok (db_delete hash kept db req.query, res)
    | _ ↦ ok (invalid_request db res)
  ]

  unfoldable pub film_resource : ℤ → ℤ → Database → HttpRequest → HttpResponse → Outcome Reply
  film_resource stale kept db req res = elim (db_get stale db req.query) [
    | none ↦ ok (invalid_request db res)
    | some f ↦ film_resource_found kept db req res f
  ]
