-- ===== src/Movies/Database.antt =====
-- database.c: the films in an array, by number, and the hash table from titles to numbers. A slot
-- that is NULL is `none`. An access outside the array of films is a fault; in C it would touch what
-- stands before the struct, or the pointer to the table behind it.
pub mod Consistent
pub mod Added
pub mod Changes
pub mod Renames
use c_computer_networking.Prelude.{
  ℕ, ◌+◌, ◌*◌, ◌/◌, ◌%◌, ◌^◌, Bool, true, false, ◌||◌, not, Option, none, some, List, [], ◌∷◌,
  length, get_or, set, replicate, ltb, leb, ◌==◌, if◌then◌else◌,
}
use c_computer_networking.Prelude.Int.{ℤ, pos, negsuc, pos_part, ltb_ℤ}
use c_computer_networking.Prelude.Outcome.{
  Outcome, ok, fault, null_pointer, out_of_bounds, ◌>>=◌, ◌>>◌, assert,
}
use c_computer_networking.HashTable.Hash.{Bytes}
use c_computer_networking.HashTable.Table.{
  HashTable, ht_create, ht_get_value, ht_set_value, ht_delete_key,
}
use c_computer_networking.Movies.Text.{scan_int}
use c_computer_networking.Movies.Film.{Film, title_of}

abbrev pub max_films : ℕ
max_films = 1000

pub record Database : Type 0 where
  pub films : List (Option Film)
  pub id_map : HashTable
  pub cur_films : ℕ

-- the four bytes of an `int` in memory, the low one first, and the `int` that they hold
abbrev pub int_bytes : ℕ → Bytes
int_bytes n = (n % 256) ∷ (n / 256 % 256) ∷ (n / 65536 % 256) ∷ (n / 16777216 % 256) ∷ []

abbrev pub read_int : Bytes → ℕ
read_int b = get_or b 0 0 + get_or b 1 0 * 256 + get_or b 2 0 * 65536 + get_or b 3 0 * 16777216

-- the variable `index`, which holds `stale` until `sscanf` stores a number
abbrev pub index_of : ℤ → Bytes → ℤ
index_of stale key = elim (scan_int key) [ none ↦ stale | some index ↦ index ]

-- `index >= db->cur_films || index < 0`
abbrev pub is_outside : Database → ℤ → Bool
is_outside db index = not (ltb_ℤ index (pos db.cur_films)) || ltb_ℤ index (pos 0)

unfoldable pub db_get : ℤ → Database → Bytes → Option Film
db_get stale db key =
    let index = index_of stale key in
    if is_outside db index then none else get_or db.films (pos_part index) none

-- `db->films[id]` as a place to read or write
abbrev pub slot : ℤ → Outcome ℕ
slot (pos n) = if ltb n max_films then ok n else fault out_of_bounds
slot (negsuc n) = fault out_of_bounds

unfoldable pub db_delete : (Bytes → ℕ) → ℤ → Database → Bytes → Database
db_delete hash stale db id =
    let index = index_of stale id in
    let found = get_or db.films (pos_part index) none in
    if is_outside db index then db else elim found [
      | none ↦ db
      | some f ↦ record db {
        films = set db.films (pos_part index) none;
        id_map = (ht_delete_key hash db.id_map (title_of f)).1;
      }
    ]

unfoldable pub db_create : Database
db_create = record { films = replicate max_films none; id_map = ht_create; cur_films = 0 }

module _ (hash : Bytes → ℕ) where
  unfoldable pub db_contains : Database → Bytes → Bool
  db_contains db title = elim (ht_get_value hash db.id_map title).1 [
    | none ↦ false
    | some id ↦ true
  ]

  -- -1 for a title that is not there
  unfoldable pub db_get_id : Database → Bytes → Outcome ℤ
  db_get_id db title = elim (ht_get_value hash db.id_map title).1 [
    | none ↦ ok (negsuc 0)
    | some id ↦ assert (length id == 4) >> ok (pos (read_int id))
  ]

  unfoldable pub db_add : Database → Bytes → Option Film → Outcome Database
  db_add db title value = do
    n ← slot (pos db.cur_films)
    ok (record {
      films = set db.films n value;
      id_map = (ht_set_value hash db.id_map title (int_bytes db.cur_films)).1;
      cur_films = db.cur_films + 1;
    })

  -- `db_update` for the slot `n` that it finds, with the film that stands there
  abbrev pub update_slot : Database → Bytes → Option Film → ℕ → Option Film → Outcome Database
  update_slot db title value n none = fault null_pointer
  update_slot db title value n (some prev_film) =
      let id_map = (ht_delete_key hash db.id_map (title_of prev_film)).1 in
      ok (record db {
        films = set db.films n value;
        id_map = (ht_set_value hash id_map title (int_bytes n)).1;
      })

  -- `value` is `none` where the caller passes NULL.
  unfoldable pub db_update : Database → Bytes → Option Film → Outcome Database
  db_update db title value = do
    id ← db_get_id db title
    n ← slot id
    update_slot db title value n (get_or db.films n none)
