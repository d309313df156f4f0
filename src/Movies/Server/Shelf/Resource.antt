-- ===== src/Movies/Server/Shelf/Resource.antt =====
-- The handler of a film against the shelf.
use c_computer_networking.Prelude.{
  ℕ, ◌≡◌, refl, inl, inr, none, some, arith, get_or, set, Bool, Option, not, ◌||◌, if◌then◌else◌,
  Bool-cases, Option-cases,
}
use c_computer_networking.Prelude.Int.{ℤ, pos, pos_part, ltb_ℤ}
use c_computer_networking.Prelude.Outcome.{ok}
use c_computer_networking.HashTable.Hash.{Bytes}
use c_computer_networking.Movies.Film.{Cjson, Film, parse_film, full, film_json_view}
use c_computer_networking.Movies.Database.{Database, index_of, is_outside, db_get, db_delete}
use c_computer_networking.Movies.Database.Consistent.{IsConsistent}
use c_computer_networking.Movies.Database.Changes.{
  deleted, updated, deleted-IsConsistent, db_update_lem, db_update-IsConsistent,
}
use c_computer_networking.Movies.Database.Renames.{
  db_delete-outside, db_delete-absent, db_delete-found,
}
use c_computer_networking.Movies.Server.{
  Method, get, post, put, delete, other, HttpRequest, HttpResponse, href_of, response_write_json,
  film_resource_update, film_resource_found, film_resource,
}
use c_computer_networking.Movies.Server.Plain.{IsPlain, onion_info-plain, film_resource_get-plain}
use c_computer_networking.Movies.Server.Safety.{KeepsTitle, db_get-slot}
use c_computer_networking.Movies.Server.Shelf.{
  Shelf, shelf_of, Answered, told, refused, Refines, refines, same-Refines, refused-Refines,
}

-- no film has this number
abbrev pub not_there : Shelf → ℤ → Bool
not_there s index = not (ltb_ℤ index (pos s.count)) || ltb_ℤ index (pos 0)

abbrev pub film_at : ℤ → Shelf → Option Film
film_at index s = if not_there s index then none else get_or s.films (pos_part index) none

-- the film in a place is replaced, or taken away
abbrev pub replaced : ℤ → Shelf → HttpRequest → Film → Shelf
replaced stale s req g = record s {
  films = set s.films (pos_part (index_of stale req.query)) (some g);
}

abbrev pub taken_away : ℤ → Shelf → HttpRequest → Shelf
taken_away kept s req =
    let index = index_of kept req.query in
    elim (film_at index s) [
      | none ↦ s
      | some f ↦ record s { films = set s.films (pos_part index) none }
    ]

-- A PUT with no film in its body is taken to change nothing.
abbrev pub on_film : Cjson → ℤ → ℤ → Shelf → HttpRequest → HttpResponse → Film → Answered
on_film J stale kept s req res f = elim req.method [
  | get ↦ (s, told J res (film_json_view J f (href_of req.fullpath) full))
  | put ↦ elim req.put_data [
    | none ↦ (s, res)
    | some put_data ↦ elim (parse_film J put_data) [
      | none ↦ (s, res)
      | some g ↦ (replaced stale s req g, res)
    ]
  ]
  | delete ↦ (taken_away kept s req, res)
  | _ ↦ refused s res
]

abbrev pub on_resource : Cjson → ℤ → ℤ → Shelf → HttpRequest → HttpResponse → Answered
on_resource J stale kept s req res = elim (film_at (index_of stale req.query) s) [
  | none ↦ refused s res
  | some f ↦ on_film J stale kept s req res f
]

module _ (hash : Bytes → ℕ) (J : Cjson) (db : Database) (c : IsConsistent hash db)
    (req : HttpRequest) (res : HttpResponse) (stale kept : ℤ) where
  delete-Refines :
      Refines hash
        (ok (db_delete hash kept db req.query, res))
        (taken_away kept (shelf_of db) req, res)
  delete-Refines = elim (Bool-cases (is_outside db (index_of kept req.query))) [
    | inl out ↦
        refines db res (ground (arith, db_delete-outside hash kept db req.query out))
          (ground (arith, out)) c
    | inr inside ↦ elim (Option-cases (get_or db.films (pos_part (index_of kept req.query)) none)) [
      | inl a ↦
          refines db res (ground (arith, db_delete-absent hash kept db req.query inside a))
            (ground (arith, inside, a)) c
      | inr (f, a) ↦
          refines (deleted hash db (pos_part (index_of kept req.query)) f) res
            (ground (arith, db_delete-found hash kept db req.query f inside a))
            (ground (arith, inside, a))
            (deleted-IsConsistent hash db c (pos_part (index_of kept req.query)) f a)
    ]
  ]

  update-Refines :
      (f : Film)
      → IsPlain req
      → KeepsTitle J stale db req
      → req.method ≡ put
      → db_get stale db req.query ≡ some f
      → Refines hash
          (film_resource_update hash J db req res f)
          (on_film J stale kept (shelf_of db) req res f)
  unfolding film_resource_update
  update-Refines f plain keeps is_put found = elim (Option-cases req.put_data) [
    | inl e ↦ refines db res (ground (arith, e)) (ground (arith, e, is_put)) c
    | inr (d, e) ↦
        let here = db_get-slot hash J db c req res stale f found in
        let n = pos_part (index_of stale req.query) in
        let (g, parsed, same) = keeps f d found is_put e in
        let done = db_update_lem hash db c n f here (some g) in
        let logged = onion_info-plain d (plain.puts d is_put e) in
        refines (updated hash db n f (some g)) res (rw (e, logged, parsed, done) refl)
          (ground (arith, e, parsed, is_put)) (db_update-IsConsistent hash db c n f here g same)
  ]

  found-Refines :
      (f : Film) (m : Method)
      → req.method ≡ m
      → IsPlain req
      → KeepsTitle J stale db req
      → db_get stale db req.query ≡ some f
      → Refines hash
          (film_resource_found hash J kept db req res f)
          (on_film J stale kept (shelf_of db) req res f)
  unfolding film_resource_found response_write_json
  found-Refines f get e plain keeps found =
      same-Refines hash _ _ _ _ (ground (arith, e)) (ground (arith, e)) (
        refines db (told J res (film_json_view J f (href_of req.fullpath) full))
          (film_resource_get-plain J db req res f plain e) refl c)
  found-Refines f post e plain keeps found =
      same-Refines hash _ _ _ _ (ground (arith, e)) (ground (arith, e))
        (refused-Refines hash J db c req res)
  found-Refines f put e plain keeps found =
      same-Refines hash _ _ _ _ (ground (arith, e)) refl (update-Refines f plain keeps e found)
  found-Refines f delete e plain keeps found =
      same-Refines hash _ _ _ _ (ground (arith, e)) (ground (arith, e)) delete-Refines
  found-Refines f other e plain keeps found =
      same-Refines hash _ _ _ _ (ground (arith, e)) (ground (arith, e))
        (refused-Refines hash J db c req res)

  shelf-db_get : film_at (index_of stale req.query) (shelf_of db) ≡ db_get stale db req.query
  unfolding db_get
  shelf-db_get = refl

  -- On a consistent database, for a plain request, with no directive of `printf` in what is
  -- logged, that is not a PUT of a body that does not parse to a film of the same title, the
  -- handler of a film returns: its answer and the films afterwards are those of the shelf, on
  -- which the film is shown, replaced or taken away, and the database is consistent.
  pub film_resource-Refines :
      IsPlain req
      → KeepsTitle J stale db req
      → Refines hash
          (film_resource hash J stale kept db req res)
          (on_resource J stale kept (shelf_of db) req res)
  unfolding film_resource
  film_resource-Refines plain keeps = elim (Option-cases (db_get stale db req.query)) [
    | inl e ↦
        same-Refines hash _ _ _ _ (ground (arith, e)) (ground (arith, e, shelf-db_get))
          (refused-Refines hash J db c req res)
    | inr (f, e) ↦
        same-Refines hash _ _ _ _ (ground (arith, e)) (ground (arith, e, shelf-db_get))
          (found-Refines f req.method refl plain keeps e)
  ]
