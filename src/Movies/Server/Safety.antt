-- ===== src/Movies/Server/Safety.antt =====
-- No plain request stops the server or breaks its database, while the array has room and a film that is
-- put keeps its title; and what happens when the array is full.
use c_computer_networking.Prelude.{
  ℕ, ◌<◌, ◌≡◌, refl, ◌∙◌, inl, inr, false, none, some, arith, get_or, Bool-cases, Option-cases,
}
use c_computer_networking.Prelude.Int.{ℤ, pos_part}
use c_computer_networking.Prelude.Outcome.{Outcome, ok, fault, out_of_bounds}
use c_computer_networking.HashTable.Hash.{Bytes}
use c_computer_networking.Movies.Film.{Cjson, Film, title_of, parse_film}
use c_computer_networking.Movies.Database.{
  Database, db_delete, max_films, index_of, db_create, db_get, db_contains, db_add,
}
use c_computer_networking.Movies.Database.Consistent.{IsConsistent, db_create-IsConsistent}
use c_computer_networking.Movies.Database.Added.{added}
use c_computer_networking.Movies.Database.Changes.{updated, db_update_lem, db_update-IsConsistent}
use c_computer_networking.Movies.Database.Renames.{db_delete-IsConsistent}
use c_computer_networking.Movies.Server.{
  Method, get, post, put, delete, other, HttpRequest, HttpResponse, Reply, invalid_request,
  reset_db, add_parsed, add_film, list_films, film_collection, film_resource_update,
  film_resource_found, film_resource, has_directive,
}
use c_computer_networking.Movies.Server.Plain.{
  IsPlain, onion_info-plain, film_resource_get-plain, add_film-unparsed, add_film-parsed,
}
use c_computer_networking.Movies.Server.Created.{added-IsConsistent, add_parsed_lem}

-- a handler returns, and the database is consistent
pub data Returns (hash : Bytes → ℕ) (o : Outcome Reply) : Type 0 where
  returns :
      (db : Database) (res : HttpResponse)
      → o ≡ ok (db, res)
      → IsConsistent hash db
      → Returns hash o

-- A PUT request for a film that is there has a body that parses to a film of the same title, or
-- no body.
abbrev pub KeepsTitle : Cjson → ℤ → Database → HttpRequest → Type 0
KeepsTitle J stale db req =
    (f : Film) (put_data : Bytes)
    → db_get stale db req.query ≡ some f
    → req.method ≡ put
    → req.put_data ≡ some put_data
    → (g : Film) × (parse_film J put_data ≡ some g) × (title_of g ≡ title_of f)

-- The databases that the server has after some plain requests, in any order.
pub data Reach (hash : Bytes → ℕ) (J : Cjson) : Database → Type 0 where
  start : Reach hash J db_create
  collection_step :
      (db db' : Database) (req : HttpRequest) (res res' : HttpResponse)
      → Reach hash J db
      → IsPlain req
      → db.cur_films < max_films
      → film_collection hash J db req res ≡ ok (db', res')
      → Reach hash J db'
  resource_step :
      (db db' : Database) (req : HttpRequest) (res res' : HttpResponse) (stale kept : ℤ)
      → Reach hash J db
      → IsPlain req
      → KeepsTitle J stale db req
      → film_resource hash J stale kept db req res ≡ ok (db', res')
      → Reach hash J db'

same-Returns : {hash : Bytes → ℕ} (o o' : Outcome Reply) → o ≡ o' → Returns hash o' → Returns hash o
same-Returns o o' e (returns db res e' c) = returns db res (e ∙ e') c

module _ (hash : Bytes → ℕ) (J : Cjson) (db : Database) (c : IsConsistent hash db)
    (req : HttpRequest) (res : HttpResponse) where
  invalid_request-Returns : (o : Outcome Reply) → o ≡ ok (invalid_request db res) → Returns hash o
  unfolding invalid_request
  invalid_request-Returns o e = returns _ _ e c

  add_parsed-Returns :
      (f : Film) → db.cur_films < max_films → Returns hash (add_parsed hash J db req res f)
  unfolding add_parsed
  add_parsed-Returns f room = elim (Bool-cases (db_contains hash db (title_of f))) [
    | inl there ↦ invalid_request-Returns _ (ground (arith, there))
    | inr new ↦
        returns (added hash db f) _ (add_parsed_lem hash db c f new room J req res)
          (added-IsConsistent hash db c f new room)
  ]

  add_film-Returns :
      IsPlain req
      → req.method ≡ post
      → db.cur_films < max_films
      → Returns hash (add_film hash J db req res)
  add_film-Returns plain is_post room =
      let (text, posted, logged) = plain.posts is_post in
      elim (Option-cases (parse_film J text)) [
        | inl e ↦
            invalid_request-Returns _ (add_film-unparsed hash J db req res text posted logged e)
        | inr (f, e) ↦
            same-Returns _ _ (add_film-parsed hash J db req res text posted logged f e)
              (add_parsed-Returns f room)
      ]

  collection-Returns :
      (m : Method)
      → req.method ≡ m
      → IsPlain req
      → db.cur_films < max_films
      → Returns hash (film_collection hash J db req res)
  unfolding film_collection reset_db list_films
  collection-Returns get e plain room =
      same-Returns _ (ok (list_films J db req res)) (ground (arith, e)) (returns _ _ refl c)
  collection-Returns post e plain room =
      same-Returns _ _ (ground (arith, e)) (add_film-Returns plain e room)
  collection-Returns put e plain room = invalid_request-Returns _ (ground (arith, e))
  collection-Returns delete e plain room =
      returns db_create res (ground (arith, e)) (db_create-IsConsistent hash)
  collection-Returns other e plain room = invalid_request-Returns _ (ground (arith, e))

  pub db_get-slot :
      (stale : ℤ) (f : Film)
      → db_get stale db req.query ≡ some f
      → get_or db.films (pos_part (index_of stale req.query)) none ≡ some f
  unfolding db_get
  db_get-slot stale f e = ground arith

  update-Returns :
      (stale : ℤ) (f : Film)
      → IsPlain req
      → KeepsTitle J stale db req
      → req.method ≡ put
      → db_get stale db req.query ≡ some f
      → Returns hash (film_resource_update hash J db req res f)
  unfolding film_resource_update
  update-Returns stale f plain keeps is_put found = elim (Option-cases req.put_data) [
    | inl e ↦ returns db res (ground (arith, e)) c
    | inr (d, e) ↦
        let here = db_get-slot stale f found in
        let n = pos_part (index_of stale req.query) in
        let (g, parsed, same) = keeps f d found is_put e in
        let done = db_update_lem hash db c n f here (some g) in
        let logged = onion_info-plain d (plain.puts d is_put e) in
        returns (updated hash db n f (some g)) res (rw (e, logged, parsed, done) refl)
          (db_update-IsConsistent hash db c n f here g same)
  ]

  found-Returns :
      (stale kept : ℤ) (f : Film) (m : Method)
      → req.method ≡ m
      → IsPlain req
      → KeepsTitle J stale db req
      → db_get stale db req.query ≡ some f
      → Returns hash (film_resource_found hash J kept db req res f)
  unfolding film_resource_found
  found-Returns stale kept f get e plain keeps found =
      same-Returns _ _ (ground (arith, e))
        (returns _ _ (film_resource_get-plain J db req res f plain e) c)
  found-Returns stale kept f post e plain keeps found =
      invalid_request-Returns _ (ground (arith, e))
  found-Returns stale kept f put e plain keeps found =
      same-Returns _ _ (ground (arith, e)) (update-Returns stale f plain keeps e found)
  found-Returns stale kept f delete e plain keeps found =
      returns (db_delete hash kept db req.query) res (ground (arith, e))
        (db_delete-IsConsistent hash kept db req.query c)
  found-Returns stale kept f other e plain keeps found =
      invalid_request-Returns _ (ground (arith, e))

  resource-Returns :
      (stale kept : ℤ)
      → IsPlain req
      → KeepsTitle J stale db req
      → Returns hash (film_resource hash J stale kept db req res)
  unfolding film_resource
  resource-Returns stale kept plain keeps = elim (Option-cases (db_get stale db req.query)) [
    | inl e ↦ invalid_request-Returns _ (ground (arith, e))
    | inr (f, e) ↦
        same-Returns _ _ (ground (arith, e))
          (found-Returns stale kept f req.method refl plain keeps e)
  ]

module _ (hash : Bytes → ℕ) (J : Cjson) where
  -- what a handler that returned left is consistent
  Returns-IsConsistent :
      (db : Database) (res : HttpResponse) (o : Outcome Reply)
      → o ≡ ok (db, res)
      → Returns hash o
      → IsConsistent hash db
  Returns-IsConsistent db res o e (returns db' res' e' c) = let same : db' ≡ db = cc in rw⁻¹ same c

  -- Every database that the server reaches by requests that are plain, each to the collection made
  -- with room in the array and each PUT of a film with a body that keeps its title or with none, lists each
  -- film under its title with its number, and lists nothing else.
  pub Reach-IsConsistent : (db : Database) → Reach hash J db → IsConsistent hash db
  Reach-IsConsistent _ start = db_create-IsConsistent hash
  Reach-IsConsistent _ (collection_step db db' req res res' r plain room e) =
      Returns-IsConsistent db' res' _ e
        (collection-Returns hash J db (Reach-IsConsistent db r) req res req.method refl plain room)
  Reach-IsConsistent _ (resource_step db db' req res res' stale kept r plain keeps e) =
      Returns-IsConsistent db' res' _ e
        (resource-Returns hash J db (Reach-IsConsistent db r) req res stale kept plain keeps)

  -- In every database that the server reaches by plain requests, no POST of a form and no
  -- directive of `printf` in what is logged, each to the collection made with room in the array
  -- and each PUT of a film with a body that keeps its title or with none: if there is room and the
  -- next request is plain and keeps the title in the same way, then the handler of the collection
  -- and the handler of a film both return and leave a consistent database, whatever the variables
  -- that `sscanf` leaves alone hold.
  pub Reach-Returns :
      (db : Database) (req : HttpRequest) (res : HttpResponse) (stale kept : ℤ)
      → Reach hash J db
      → IsPlain req
      → db.cur_films < max_films
      → KeepsTitle J stale db req
      → Returns hash (film_collection hash J db req res)
        × Returns hash (film_resource hash J stale kept db req res)
  Reach-Returns db req res stale kept r plain room keeps =
      let c = Reach-IsConsistent db r in
      (
        collection-Returns hash J db c req res req.method refl plain room,
        resource-Returns hash J db c req res stale kept plain keeps,
      )

  -- When the array of films is full, the plain POST of a film whose title is new writes behind it.
  pub film_collection-full :
      (db : Database) (req : HttpRequest) (res : HttpResponse) (f : Film) (text : Bytes)
      → db.cur_films ≡ max_films
      → req.method ≡ post
      → req.posted ≡ some text
      → has_directive text ≡ false
      → parse_film J text ≡ some f
      → db_contains hash db (title_of f) ≡ false
      → film_collection hash J db req res ≡ fault out_of_bounds
  unfolding film_collection add_parsed db_add
  film_collection-full db req res f text full is_post is_posted plain parsed new =
      ground (arith, add_film-parsed hash J db req res text is_posted plain f parsed)
