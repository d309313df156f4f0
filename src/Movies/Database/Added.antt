-- ===== src/Movies/Database/Added.antt =====
-- `db_add` keeps a consistent database.
use c_computer_networking.Prelude.{
  ℕ, ◌+◌, ◌<◌, ◌≡◌, ◌∙◌, inl, inr, Option, none, some, arith, set, length-set, get_or-set,
  Bool-cases,
}
use c_computer_networking.Prelude.Outcome.{ok}
use c_computer_networking.HashTable.Hash.{Bytes}
use c_computer_networking.HashTable.Chain.{same_key, same_key_iff}
use c_computer_networking.HashTable.Table.{ht_set_value}
use c_computer_networking.HashTable.Placed.{view}
use c_computer_networking.HashTable.Methods.{ht_set_value-Writes, size-ht_set_value}
use c_computer_networking.Movies.Film.{Film, title_of}
use c_computer_networking.Movies.Database.{Database, max_films, int_bytes, db_add}
use c_computer_networking.Movies.Database.Consistent.{IsConsistent, id_map-Fits}

-- what the table holds for a title
abbrev pub titles : (Bytes → ℕ) → Database → Bytes → Option Bytes
titles hash db q = view hash db.id_map.elems q

-- the database after `db_add`
abbrev pub added : (Bytes → ℕ) → Database → Film → Database
added hash db f = record {
  films = set db.films db.cur_films (some f);
  id_map = (ht_set_value hash db.id_map (title_of f) (int_bytes db.cur_films)).1;
  cur_films = db.cur_films + 1;
}

module _ (hash : Bytes → ℕ) (db : Database) (c : IsConsistent hash db) where
  -- A new title is added while there is room, and the database stays consistent.
  pub db_add-IsConsistent :
      (f : Film)
      → titles hash db (title_of f) ≡ none
      → db.cur_films < max_films
      → (db_add hash db (title_of f) (some f) ≡ ok (added hash db f))
        × IsConsistent hash (added hash db f)
  unfolding db_add
  db_add-IsConsistent f new room =
      let n = db.cur_films in
      let w =
        ht_set_value-Writes hash db.id_map (title_of f) (int_bytes n) c.table
          (id_map-Fits hash db c) in
      (
        ground arith,
        record {
          room = omega arith;
          width = length-set db.films n (some f) ∙ c.width;
          table = w.models.0;
          few = ground (arith, w.counts, new, c.few);
          small = ground (
            arith,
            size-ht_set_value hash db.id_map (title_of f) (int_bytes n) c.table
                (id_map-Fits hash db c),
            c.few,
            c.small,
          );
          listed = λ i g e. ground (
            arith,
            get_or-set db.films n i (some f) none (omega (arith, c.width)),
            c.listed i g,
            w.models.1 (title_of g),
            same_key_iff (title_of f) (title_of g),
            new,
          );
          only = λ q v e. elim (Bool-cases (same_key (title_of f) q)) [
            | inl same ↦ (
              n,
              f,
              ground (arith, get_or-set db.films n n (some f) none (omega (arith, c.width))),
              (same_key_iff (title_of f) q).0 same,
              ground (arith, w.models.1 q),
            )
            | inr differs ↦
                let e' : titles hash db q ≡ some v = ground (arith, w.models.1 q) in
                let (i, g, at, t, number) = c.only q v e' in
                (
                  i,
                  g,
                  ground (
                    arith,
                    get_or-set db.films n i (some f) none (omega (arith, c.width)),
                    c.listed i g at,
                  ),
                  t,
                  number,
                )
          ];
        },
      )
