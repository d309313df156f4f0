-- ===== src/Movies/Server/Shelf.antt =====
-- The handler of the collection against a shelf of films with no table: a title is there if a film
-- on the shelf has it.
pub mod Resource
use c_computer_networking.Prelude.{
  ℕ, zero, suc, ◌+◌, ◌≤◌, ◌<◌, ◌≡◌, ◌≢◌, refl, sym, ◌∙◌, ap, inl, inr, Bool, true, false, ◌||◌,
  Option, none, some, List, [], ◌∷◌, ◌++◌, take, replicate, arith, get_or, set, if◌then◌else◌,
  Bool-cases, Option-cases,
}
use c_computer_networking.Prelude.Int.{pos}
use c_computer_networking.Prelude.Outcome.{Outcome, ok}
use c_computer_networking.HashTable.Hash.{Bytes}
use c_computer_networking.HashTable.Chain.{same_key, same_key_iff}
use c_computer_networking.Movies.Film.{Cjson, Film, title_of, parse_film, compact, film_json_view}
use c_computer_networking.Movies.Database.{Database, max_films, db_create, db_contains}
use c_computer_networking.Movies.Database.Consistent.{
  IsConsistent, db_create-IsConsistent, ht_get_value-titles, none_is_not_some,
}
use c_computer_networking.Movies.Database.Added.{titles, added}
use c_computer_networking.Movies.Server.{
  Method, get, post, put, delete, other, HttpRequest, HttpResponse, Reply, http_created, http_ok,
  http_not_found, href_of, has_directive, film_href, invalid_request, reset_db, list_items,
  list_films, add_parsed, add_film, film_collection, response_write_json,
}
use c_computer_networking.Movies.Text.{codes}
use c_computer_networking.Movies.Server.Plain.{IsPlain, add_film-unparsed, add_film-parsed}
use c_computer_networking.Movies.Server.Created.{added-IsConsistent, add_parsed_lem}

pub record Shelf : Type 0 where
  pub films : List (Option Film)
  pub count : ℕ

abbrev pub shelf_of : Database → Shelf
shelf_of db = record { films = db.films; count = db.cur_films }

-- the films with their numbers
abbrev pub numbered : ℕ → List (Option Film) → List (ℕ × Film)
numbered i [] = []
numbered i (none ∷ slots) = numbered (suc i) slots
numbered i (some f ∷ slots) = (i, f) ∷ numbered (suc i) slots

abbrev pub has_title : List (Option Film) → Bytes → Bool
has_title [] t = false
has_title (none ∷ slots) t = has_title slots t
has_title (some f ∷ slots) t = same_key (title_of f) t || has_title slots t

abbrev pub Answered : Type 0
Answered = Shelf × HttpResponse

abbrev pub refused : Shelf → HttpResponse → Answered
refused s res =
    (s, record res { body = res.body ++ codes "request failed\n"; code = some http_not_found })

-- an answer in JSON
abbrev pub told : (J : Cjson) → HttpResponse → J.Json → HttpResponse
told J res json = record res {
  body = res.body ++ J.print json;
  content_type = some (codes "application/json");
}

-- films are told one behind the other, in the short view and each with its place
abbrev pub items_of : (J : Cjson) → Bytes → List (ℕ × Film) → J.Json → J.Json
items_of J place [] items = items
items_of J place ((n, f) ∷ films) items =
    items_of J place films
      (J.add_item_to_array items (film_json_view J f (film_href place (pos n)) compact))

abbrev pub listed : Cjson → Shelf → HttpRequest → HttpResponse → HttpResponse
listed J s req res =
    let place = href_of req.fullpath in
    let items = items_of J place (numbered 0 (take s.count s.films)) J.create_array in
    let root = J.add_item_to_object J.create_object (codes "items") items in
    record (told J res (J.add_string_to_object root (codes "href") place)) { code = some http_ok }

-- the film that is posted, if there is one
abbrev pub film_in : Cjson → Option Bytes → Option Film
film_in J none = none
film_in J (some text) = parse_film J text

-- a film is put behind the others, if its title is new
abbrev pub put_up : Shelf → HttpRequest → HttpResponse → Film → Answered
put_up s req res f = if has_title s.films (title_of f) then refused s res else (
  record { films = set s.films s.count (some f); count = s.count + 1 },
  record res {
    code = some http_created;
    location = some (film_href (href_of req.fullpath) (pos s.count));
  },
)

abbrev pub on_collection : Cjson → Shelf → HttpRequest → HttpResponse → Answered
on_collection J s req res = elim req.method [
  | get ↦ (s, listed J s req res)
  | post ↦ elim (film_in J req.posted) [ none ↦ refused s res | some f ↦ put_up s req res f ]
  | delete ↦ (record { films = replicate max_films none; count = 0 }, res)
  | _ ↦ refused s res
]

has_title-here :
    (slots : List (Option Film)) (i : ℕ) (f : Film)
    → get_or slots i none ≡ some f
    → has_title slots (title_of f) ≡ true
has_title-here [] i f e = cc
has_title-here (none ∷ slots) zero f e = cc
has_title-here (none ∷ slots) (suc i) f e = has_title-here slots i f e
has_title-here (some g ∷ slots) zero f e =
    ground (arith, same_key_iff (title_of g) (title_of f), ap (λ (o : Option Film). o) e)
has_title-here (some g ∷ slots) (suc i) f e = ground (arith, has_title-here slots i f e)

has_title-somewhere :
    (slots : List (Option Film)) (t : Bytes)
    → has_title slots t ≡ true
    → (i : ℕ) × (f : Film) × (get_or slots i none ≡ some f) × (title_of f ≡ t)
has_title-somewhere [] t e = cc
has_title-somewhere (none ∷ slots) t e =
    let (i, f, at, same) = has_title-somewhere slots t e in (suc i, f, at, same)
has_title-somewhere (some g ∷ slots) t e = elim (Bool-cases (same_key (title_of g) t)) [
  | inl same ↦ (zero, g, refl, (same_key_iff (title_of g) t).0 same)
  | inr differs ↦
      let (i, f, at, same) = has_title-somewhere slots t (ground arith) in (suc i, f, at, same)
]

module _ (hash : Bytes → ℕ) (db : Database) (c : IsConsistent hash db) where
  listed-has_title : (t v : Bytes) → titles hash db t ≡ some v → has_title db.films t ≡ true
  listed-has_title t v e =
      let (i, f, at, same, number) = c.only t v e in rw⁻¹ same (has_title-here db.films i f at)

  unlisted-has_title : (t : Bytes) → titles hash db t ≡ none → has_title db.films t ≡ false
  unlisted-has_title t e = elim (Bool-cases (has_title db.films t)) [
    | inr absent ↦ absent
    | inl there ↦
        let (i, f, at, same) = has_title-somewhere db.films t there in
        absurd (none_is_not_some _ (sym e ∙ rw same at (c.listed i f at).1))
  ]

  pub db_contains-has_title : (t : Bytes) → db_contains hash db t ≡ has_title db.films t
  unfolding db_contains
  db_contains-has_title t = elim (Option-cases (titles hash db t)) [
    | inl e ↦ ground (arith, ht_get_value-titles hash db c t, unlisted-has_title t e)
    | inr (v, e) ↦ ground (arith, ht_get_value-titles hash db c t, listed-has_title t v e)
  ]

-- The loop over the slots tells the films that `numbered` lists.
list_items-items_of :
    (J : Cjson) (place : Bytes) (rounds i : ℕ) (slots : List (Option Film)) (items : J.Json)
    → list_items J place rounds i slots items
      ≡ items_of J place (numbered i (take rounds slots)) items
unfolding list_items
list_items-items_of J place zero i slots items = refl
list_items-items_of J place (suc rounds) i [] items = refl
list_items-items_of J place (suc rounds) i (none ∷ slots) items =
    list_items-items_of J place rounds (suc i) slots items
list_items-items_of J place (suc rounds) i (some f ∷ slots) items =
    list_items-items_of J place rounds (suc i) slots _

list_films-listed :
    (J : Cjson) (db : Database) (req : HttpRequest) (res : HttpResponse)
    → list_films J db req res ≡ (db, listed J (shelf_of db) req res)
unfolding list_films response_write_json
list_films-listed J db req res =
    let same =
      list_items-items_of J (href_of req.fullpath) db.cur_films 0 db.films J.create_array in
    rw same refl

-- a handler that returns with what the shelf has and answers, and a consistent database
pub data Refines (hash : Bytes → ℕ) (o : Outcome Reply) (answered : Answered) : Type 0 where
  refines :
      (db : Database) (res : HttpResponse)
      → o ≡ ok (db, res)
      → (shelf_of db, res) ≡ answered
      → IsConsistent hash db
      → Refines hash o answered

pub same-Refines :
    (hash : Bytes → ℕ) (o o' : Outcome Reply) (a a' : Answered)
    → o ≡ o'
    → a ≡ a'
    → Refines hash o' a'
    → Refines hash o a
same-Refines hash o o' a a' e same (refines db res e' same' c) =
    refines db res (e ∙ e') (same' ∙ sym same) c

module _ (hash : Bytes → ℕ) (J : Cjson) (db : Database) (c : IsConsistent hash db)
    (req : HttpRequest) (res : HttpResponse) where
  pub refused-Refines : Refines hash (ok (invalid_request db res)) (refused (shelf_of db) res)
  unfolding invalid_request
  refused-Refines = refines db _ refl refl c

  add_parsed-Refines :
      (f : Film)
      → db.cur_films < max_films
      → Refines hash (add_parsed hash J db req res f) (put_up (shelf_of db) req res f)
  unfolding add_parsed
  add_parsed-Refines f room =
      let same = db_contains-has_title hash db c (title_of f) in
      elim (Bool-cases (db_contains hash db (title_of f))) [
        | inl there ↦
            same-Refines hash _ _ _ _ (ground (arith, there)) (ground (arith, same, there))
              refused-Refines
        | inr new ↦
            refines (added hash db f) _ (add_parsed_lem hash db c f new room J req res)
              (ground (arith, same, new)) (added-IsConsistent hash db c f new room)
      ]

  add_film-Refines :
      (text : Bytes) (o : Option Film)
      → req.posted ≡ some text
      → has_directive text ≡ false
      → parse_film J text ≡ o
      → db.cur_films < max_films
      → req.method ≡ post
      → Refines hash (add_film hash J db req res) (on_collection J (shelf_of db) req res)
  add_film-Refines text none posted plain e room is_post =
      same-Refines hash _ _ _ _ (add_film-unparsed hash J db req res text posted plain e)
        (ground (arith, e, is_post, posted)) refused-Refines
  add_film-Refines text (some f) posted plain e room is_post =
      same-Refines hash _ _ _ _ (add_film-parsed hash J db req res text posted plain f e)
        (ground (arith, e, is_post, posted)) (add_parsed-Refines f room)

  method-Refines :
      (m : Method)
      → req.method ≡ m
      → IsPlain req
      → db.cur_films < max_films
      → Refines hash (film_collection hash J db req res) (on_collection J (shelf_of db) req res)
  unfolding film_collection reset_db db_create
  method-Refines get e plain room =
      same-Refines hash _ _ _ _ (ground (arith, e)) (ground (arith, e)) (
        refines db (listed J (shelf_of db) req res) (ap ok (list_films-listed J db req res)) refl c)
  method-Refines post e plain room =
      let (text, posted, logged) = plain.posts e in
      same-Refines hash _ _ _ _ (ground (arith, e)) refl
        (add_film-Refines text (parse_film J text) posted logged refl room e)
  method-Refines put e plain room =
      same-Refines hash _ _ _ _ (ground (arith, e)) (ground (arith, e)) refused-Refines
  method-Refines delete e plain room =
      refines db_create res (ground (arith, e)) (ground (arith, e)) (db_create-IsConsistent hash)
  method-Refines other e plain room =
      same-Refines hash _ _ _ _ (ground (arith, e)) (ground (arith, e)) refused-Refines

  -- On a consistent database with room, the handler of the collection returns for every plain
  -- request, whose POST is not of a form and whose logged text has no directive of `printf`: its
  -- answer and the films afterwards are those of a shelf of films without a table, on which the
  -- films are listed with their numbers and a film is put up exactly if no film there has its
  -- title, and the database is consistent.
  pub film_collection-Refines :
      IsPlain req
      → db.cur_films < max_films
      → Refines hash (film_collection hash J db req res) (on_collection J (shelf_of db) req res)
  film_collection-Refines plain room = method-Refines req.method refl plain room
