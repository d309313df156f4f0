-- ===== src/Movies/Database/Consistent.antt =====
-- What a database means: the films by number, and the number of each title.
use c_computer_networking.Prelude.{
  ℕ, zero, suc, sym, ◌∙◌, replicate, ◌+◌, ◌*◌, ◌^◌, ◌≤◌, ◌<◌, ◌≡◌, refl, Option, none, some, arith,
  length, get_or, length-replicate,
}
use c_computer_networking.HashTable.Hash.{Bytes}
use c_computer_networking.HashTable.Table.{ht_create, ht_get_value}
use c_computer_networking.HashTable.Placed.{view}
use c_computer_networking.HashTable.Methods.{IsValid, Fits, ht_create-Models, ht_get_value-view}
use c_computer_networking.Movies.Film.{Film, title_of}
use c_computer_networking.Movies.Database.{Database, max_films, int_bytes, read_int, db_create}

-- an `int` is read back from its bytes
pub read_int-int_bytes : (n : ℕ) → n < 2 ^ 31 → read_int (int_bytes n) ≡ n
read_int-int_bytes n h = omega arith

get_or-replicate_self : (n i : ℕ) → get_or {A = Option Film} (replicate n none) i none ≡ none
get_or-replicate_self zero i = refl
get_or-replicate_self (suc n) zero = refl
get_or-replicate_self (suc n) (suc i) = get_or-replicate_self n i

pub none_is_not_some {ℓ} : {A : Type ℓ} (a : A) → ¬ (none ≡ some a)
none_is_not_some a h = cc

module _ (hash : Bytes → ℕ) where
  -- Every film is listed under its title, and nothing else is listed.
  pub record IsConsistent (db : Database) : Type 0 where
    pub room : db.cur_films ≤ max_films
    pub width : length db.films ≡ max_films
    pub table : IsValid hash db.id_map
    pub few : db.id_map.n_elems ≤ db.cur_films
    pub small : db.id_map.size ≤ 3 * db.cur_films + 3
    pub listed :
        (i : ℕ) (f : Film)
        → get_or db.films i none ≡ some f
        → (i < db.cur_films) × (view hash db.id_map.elems (title_of f) ≡ some (int_bytes i))
    pub only :
        (q v : Bytes)
        → view hash db.id_map.elems q ≡ some v
        → (i : ℕ) × (f : Film) × (get_or db.films i none ≡ some f)
          × (title_of f ≡ q)
          × (v ≡ int_bytes i)

  pub id_map-Fits : (db : Database) → IsConsistent db → Fits hash db.id_map
  id_map-Fits db c = (omega (arith, c.small, c.room), omega (arith, c.few, c.room))

  -- a lookup answers from the table's dictionary
  pub ht_get_value-titles :
      (db : Database)
      → IsConsistent db
      → (q : Bytes) → (ht_get_value hash db.id_map q).1 ≡ view hash db.id_map.elems q
  ht_get_value-titles db c q = ground (arith, ht_get_value-view hash db.id_map q c.table)

  none_anywhere : (i : ℕ) → get_or {A = Option Film} (replicate max_films none) i none ≡ none
  none_anywhere i = get_or-replicate_self max_films i

  -- A new database is consistent.
  pub db_create-IsConsistent : IsConsistent db_create
  unfolding db_create ht_create
  db_create-IsConsistent = record {
    room = omega arith;
    width = length-replicate {A = Option Film} max_films none;
    table = (ht_create-Models hash).0;
    few = omega arith;
    small = omega arith;
    listed = λ i f e. absurd (none_is_not_some f (sym (none_anywhere i) ∙ e));
    only = λ q v e. absurd (none_is_not_some v (sym ((ht_create-Models hash).1 q) ∙ e));
  }
