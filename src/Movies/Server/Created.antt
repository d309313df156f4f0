-- ===== src/Movies/Server/Created.antt =====
-- A film that is posted: where it is found afterwards.
use c_computer_networking.Prelude.{
  ℕ, ◌<◌, ◌≡◌, refl, ap, ◌∙◌, false, none, some, arith, get_or, get_or-set,
}
use c_computer_networking.Prelude.Int.{ℤ, pos}
use c_computer_networking.Prelude.Outcome.{ok}
use c_computer_networking.HashTable.Hash.{Bytes}
use c_computer_networking.Movies.Text.{decimal}
use c_computer_networking.Movies.Text.Decimal.{scan_int-decimal}
use c_computer_networking.Movies.Film.{Cjson, Film, title_of, full, parse_film, film_json_view}
use c_computer_networking.Movies.Database.{Database, max_films, db_get, db_contains}
use c_computer_networking.Movies.Database.Consistent.{IsConsistent, ht_get_value-titles}
use c_computer_networking.Movies.Database.Added.{titles, added, db_add-IsConsistent}
use c_computer_networking.Movies.Database.Changes.{db_get_id_lem}
use c_computer_networking.Movies.Server.Plain.{IsPlain, film_resource_get-plain, add_film-parsed}
use c_computer_networking.Movies.Server.{
  HttpRequest, HttpResponse, get, post, http_created, href_of, film_href, response_write_json,
  has_directive, add_parsed, film_collection, film_resource_found, film_resource,
}

module _ (hash : Bytes → ℕ) (db : Database) where
  film_resource-get :
      (J : Cjson) (req : HttpRequest) (res : HttpResponse) (stale kept : ℤ) (f : Film)
      → IsPlain req
      → req.method ≡ get
      → db_get stale db req.query ≡ some f
      → film_resource hash J stale kept db req res
        ≡ ok (db, response_write_json J res (film_json_view J f (href_of req.fullpath) full))
  unfolding film_resource film_resource_found
  film_resource-get J req res stale kept f plain is_get found =
      ground (arith, film_resource_get-plain J db req res f plain is_get)

module _ (hash : Bytes → ℕ) (db : Database) (c : IsConsistent hash db) where
  pub db_contains-titles : (t : Bytes) → db_contains hash db t ≡ false → titles hash db t ≡ none
  unfolding db_contains
  db_contains-titles t e = ground (arith, ht_get_value-titles hash db c t)

  module _ (f : Film) (new : db_contains hash db (title_of f) ≡ false)
      (room : db.cur_films < max_films) where
    pub added-IsConsistent : IsConsistent hash (added hash db f)
    added-IsConsistent =
        (db_add-IsConsistent hash db c f (db_contains-titles (title_of f) new) room).1

    pub added-here : get_or (added hash db f).films db.cur_films none ≡ some f
    added-here = ground (
      arith,
      get_or-set db.films db.cur_films db.cur_films (some f) none (omega (arith, c.width)),
    )

    -- the film gets the next number, and its place is answered
    pub add_parsed_lem :
        (J : Cjson) (req : HttpRequest) (res : HttpResponse)
        → add_parsed hash J db req res f
          ≡ ok (
            added hash db f,
            record res {
              code = some http_created;
              location = some (film_href (href_of req.fullpath) (pos db.cur_films));
            },
          )
    unfolding add_parsed
    add_parsed_lem J req res =
        let put = (db_add-IsConsistent hash db c f (db_contains-titles (title_of f) new) room).0 in
        let number =
          db_get_id_lem hash (added hash db f) added-IsConsistent db.cur_films f added-here in
        rw (new, put, number) refl

    -- the film is found by the number
    pub db_get-added : (stale : ℤ) → db_get stale (added hash db f) (decimal db.cur_films) ≡ some f
    unfolding db_get
    db_get-added stale = ground (arith, scan_int-decimal db.cur_films (omega arith), added-here)

  film_collection-post :
      (J : Cjson) (req : HttpRequest) (res : HttpResponse) (f : Film) (text : Bytes)
      → req.method ≡ post
      → req.posted ≡ some text
      → has_directive text ≡ false
      → parse_film J text ≡ some f
      → film_collection hash J db req res ≡ add_parsed hash J db req res f
  unfolding film_collection
  film_collection-post J req res f text is_post is_posted plain parsed =
      ground (arith, add_film-parsed hash J db req res text is_posted plain f parsed)

  -- On a consistent database with room, the POST of a film whose title is new, with no directive
  -- of `printf` in its body, is answered with the code for created and, as the location, the path
  -- with the next number, and a GET of the film with that number, from a place that has no such
  -- directive, is then answered with the JSON of that film.
  pub film_resource-film_collection :
      (J : Cjson) (put got : HttpRequest) (res res' : HttpResponse) (stale kept : ℤ) (f : Film)
      (text : Bytes)
      → put.method ≡ post
      → put.posted ≡ some text
      → has_directive text ≡ false
      → parse_film J text ≡ some f
      → db_contains hash db (title_of f) ≡ false
      → db.cur_films < max_films
      → IsPlain got
      → got.method ≡ get
      → got.query ≡ decimal db.cur_films
      → (film_collection hash J db put res
          ≡ ok (
            added hash db f,
            record res {
              code = some http_created;
              location = some (film_href (href_of put.fullpath) (pos db.cur_films));
            },
          ))
        × (film_resource hash J stale kept (added hash db f) got res'
            ≡ ok (
              added hash db f,
              response_write_json J res' (film_json_view J f (href_of got.fullpath) full),
            ))
  film_resource-film_collection J put got res res' stale kept f text is_post is_posted plain parsed
        new room shown is_get at =
      let found = ap (db_get stale (added hash db f)) at ∙ db_get-added f new room stale in
      (
        film_collection-post J put res f text is_post is_posted plain parsed
            ∙ add_parsed_lem f new room J put res,
        film_resource-get hash (added hash db f) J got res' stale kept f shown is_get found,
      )
