-- ===== src/Movies/Server/Session.antt =====
-- The server of `block5.c` over a whole sequence of requests, one after the other from `db_create`
-- in `main` on, against the shelf. Which of the two handlers a URL has is what onion decides.
use mathlib.Core.Path.{subst}
use c_computer_networking.Prelude.{ℕ, ◌<◌, ◌≡◌, refl, sym, ap, ◌∙◌, List, [], ◌∷◌}
use c_computer_networking.Prelude.Int.{ℤ}
use c_computer_networking.Prelude.Outcome.{Outcome, ok, ◌>>=◌}
use c_computer_networking.HashTable.Hash.{Bytes}
use c_computer_networking.HashTable.Table.{ht_create}
use c_computer_networking.Movies.Film.{Cjson}
use c_computer_networking.Movies.Database.{Database, max_films, db_create, db_get}
use c_computer_networking.Movies.Database.Consistent.{IsConsistent, db_create-IsConsistent}
use c_computer_networking.Movies.Server.{
  HttpRequest, HttpResponse, Reply, new_response, film_collection, film_resource,
}
use c_computer_networking.Movies.Server.Plain.{IsPlain}
use c_computer_networking.Movies.Server.Safety.{KeepsTitle}
use c_computer_networking.Movies.Server.Shelf.{
  Shelf, shelf_of, Answered, Refines, refines, on_collection, film_collection-Refines,
}
use c_computer_networking.Movies.Server.Shelf.Resource.{on_resource, film_resource-Refines}

-- A request, by the handler that gets it; the numbers are what the handler's variables hold before
-- `sscanf`.
pub data Call : Type 0 where
  to_collection : HttpRequest → Call
  to_film : (stale kept : ℤ) → HttpRequest → Call

unfoldable pub handle_call : (Bytes → ℕ) → Cjson → Database → Call → Outcome Reply
handle_call hash J db (to_collection req) = film_collection hash J db req new_response
handle_call hash J db (to_film stale kept req) = film_resource hash J stale kept db req new_response

unfoldable pub handle_calls :
    (Bytes → ℕ) → Cjson → Database → List Call → Outcome (Database × List HttpResponse)
handle_calls hash J db [] = ok (db, [])
handle_calls hash J db (call ∷ calls) = do
  (db', response) ← handle_call hash J db call
  (last, responses) ← handle_calls hash J db' calls
  ok (last, response ∷ responses)

-- `main` from `db_create` on
abbrev pub main : (Bytes → ℕ) → Cjson → List Call → Outcome (Database × List HttpResponse)
main hash J calls = handle_calls hash J db_create calls

-- the same on the shelf
abbrev pub on_call : Cjson → Shelf → Call → Answered
on_call J s (to_collection req) = on_collection J s req new_response
on_call J s (to_film stale kept req) = on_resource J stale kept s req new_response

unfoldable pub on_calls : Cjson → Shelf → List Call → Shelf × List HttpResponse
on_calls J s [] = (s, [])
on_calls J s (call ∷ calls) =
    let (s', response) = on_call J s call in
    let (last, responses) = on_calls J s' calls in (last, response ∷ responses)

-- a database with the films of a shelf
abbrev pub as_database : Shelf → Database
as_database s = record { films = s.films; id_map = ht_create; cur_films = s.count }

-- Each request is plain; the shelf has room when its collection is asked for, and a film is put only
-- under its title.
abbrev pub Admits : Cjson → Shelf → Call → Type 0
Admits J s (to_collection req) = IsPlain req × (s.count < max_films)
Admits J s (to_film stale kept req) = IsPlain req × KeepsTitle J stale (as_database s) req

abbrev pub AdmitsAll : Cjson → Shelf → List Call → Type 0
AdmitsAll J s [] = Unit
AdmitsAll J s (call ∷ calls) = Admits J s call × AdmitsAll J (on_call J s call).0 calls

module _ (hash : Bytes → ℕ) (J : Cjson) where
  call-Refines :
      (db : Database) (call : Call)
      → IsConsistent hash db
      → Admits J (shelf_of db) call
      → Refines hash (handle_call hash J db call) (on_call J (shelf_of db) call)
  unfolding handle_call db_get
  call-Refines db (to_collection req) c (plain, room) =
      film_collection-Refines hash J db c req new_response plain room
  call-Refines db (to_film stale kept req) c (plain, keeps) =
      film_resource-Refines hash J db c req new_response stale kept plain keeps

  -- the rest of a sequence behind a call that is refined
  calls-behind :
      (db : Database) (call : Call) (calls : List Call)
      → Refines hash (handle_call hash J db call) (on_call J (shelf_of db) call)
      → ((db' : Database)
          → IsConsistent hash db'
          → shelf_of db' ≡ (on_call J (shelf_of db) call).0
          → (last : Database) × (handle_calls hash J db' calls
              ≡ ok (last, (on_calls J (shelf_of db') calls).1))
            × (shelf_of last ≡ (on_calls J (shelf_of db') calls).0)
            × IsConsistent hash last)
      → (last : Database) × (handle_calls hash J db (call ∷ calls)
          ≡ ok (last, (on_calls J (shelf_of db) (call ∷ calls)).1))
        × (shelf_of last ≡ (on_calls J (shelf_of db) (call ∷ calls)).0)
        × IsConsistent hash last
  unfolding handle_calls on_calls
  calls-behind db call calls (refines db' res e same c) rest =
      let at_shelf : shelf_of db' ≡ (on_call J (shelf_of db) call).0 = ap (λ a. a.0) same in
      let at_res : res ≡ (on_call J (shelf_of db) call).1 = ap (λ a. a.1) same in
      let (last, run, ends, c') = rest db' c at_shelf in
      (
        last,
        rw (e, run)
            (ap (λ r. ok (last, r))
              (ap (λ x. x ∷ (on_calls J (shelf_of db') calls).1) at_res
                ∙ ap (λ s. (on_call J (shelf_of db) call).1 ∷ (on_calls J s calls).1) at_shelf)),
        ends ∙ ap (λ s. (on_calls J s calls).0) at_shelf,
        c',
      )

  calls-from :
      (calls : List Call) (db : Database)
      → IsConsistent hash db
      → AdmitsAll J (shelf_of db) calls
      → (last : Database) × (handle_calls hash J db calls
          ≡ ok (last, (on_calls J (shelf_of db) calls).1))
        × (shelf_of last ≡ (on_calls J (shelf_of db) calls).0)
        × IsConsistent hash last
  unfolding handle_calls on_calls
  calls-from [] db c admits = (db, refl, refl, c)
  calls-from (call ∷ calls) db c (here, admits) =
      calls-behind db call calls (call-Refines db call c here) (λ db' c' at_shelf.
        calls-from calls db' c' (subst (λ s. AdmitsAll J s calls) (sym at_shelf) admits))

  -- The server of films answers any sequence of requests as the shelf of films does, an array
  -- without a table, and ends with the films of the shelf and a consistent database, if the shelf
  -- has room whenever the collection is asked for, each PUT of a film has a body that parses to a
  -- film of the same title, or none, and each request is plain: a POST is not of a form, and no
  -- directive of `printf` is in what a handler logs, the body of a POST or PUT and the place of a
  -- film for a GET.
  pub main_refines :
      (calls : List Call)
      → AdmitsAll J (shelf_of db_create) calls
      → (last : Database) × (main hash J calls
          ≡ ok (last, (on_calls J (shelf_of db_create) calls).1))
        × (shelf_of last ≡ (on_calls J (shelf_of db_create) calls).0)
        × IsConsistent hash last
  main_refines calls admits = calls-from calls db_create (db_create-IsConsistent hash) admits
