-- ===== src/Movies/Server/Plain.antt =====
-- The requests that the handlers of `block5.c` can log: the text that goes to `ONION_INFO`, which is
-- its format, is there and has no directive.
use c_computer_networking.Prelude.{ℕ, ◌≡◌, refl, false, some, none, arith}
use c_computer_networking.Prelude.Outcome.{ok}
use c_computer_networking.HashTable.Hash.{Bytes}
use c_computer_networking.Movies.Film.{Cjson, Film, parse_film, full, film_json_view}
use c_computer_networking.Movies.Database.{Database}
use c_computer_networking.Movies.Server.{
  HttpRequest, HttpResponse, get, post, put, href_of, has_directive, onion_info, invalid_request,
  response_write_json, film_resource_get, add_parsed, add_film,
}

-- A POST has data, which is no form; and no `%` is in what is logged, if not twice.
pub record IsPlain (req : HttpRequest) : Type 0 where
  pub posts :
      req.method ≡ post → (text : Bytes) × (req.posted ≡ some text) × (has_directive text ≡ false)
  pub gets : req.method ≡ get → has_directive (href_of req.fullpath) ≡ false
  pub puts :
      (text : Bytes) → req.method ≡ put → req.put_data ≡ some text → has_directive text ≡ false

pub onion_info-plain : (text : Bytes) → has_directive text ≡ false → onion_info text ≡ ok tt
unfolding onion_info
onion_info-plain text plain = ground arith

module _ (J : Cjson) (db : Database) (req : HttpRequest) (res : HttpResponse) where
  pub film_resource_get-plain :
      (f : Film)
      → IsPlain req
      → req.method ≡ get
      → film_resource_get J db req res f
        ≡ ok (db, response_write_json J res (film_json_view J f (href_of req.fullpath) full))
  unfolding film_resource_get
  film_resource_get-plain f plain is_get =
      let logged = onion_info-plain (href_of req.fullpath) (plain.gets is_get) in rw logged refl

module _ (hash : Bytes → ℕ) (J : Cjson) (db : Database) (req : HttpRequest) (res : HttpResponse)
    (text : Bytes) (is_posted : req.posted ≡ some text) (plain : has_directive text ≡ false) where
  pub add_film-unparsed :
      parse_film J text ≡ none → add_film hash J db req res ≡ ok (invalid_request db res)
  unfolding add_film
  add_film-unparsed unparsed =
      let logged = onion_info-plain text plain in rw (is_posted, logged, unparsed) refl

  pub add_film-parsed :
      (f : Film)
      → parse_film J text ≡ some f
      → add_film hash J db req res ≡ add_parsed hash J db req res f
  unfolding add_film
  add_film-parsed f parsed =
      let logged = onion_info-plain text plain in rw (is_posted, logged, parsed) refl
