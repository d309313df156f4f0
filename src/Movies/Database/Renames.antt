-- ===== src/Movies/Database/Renames.antt =====
-- `db_delete`, and the calls of `db_update` that break the database: with a film of another title,
-- and with NULL.
use c_computer_networking.Prelude.{
  ℕ, ◌≡◌, refl, ◌∙◌, inl, inr, true, false, Option, none, some, arith, get_or, get_or-set,
  Bool-cases, Option-cases,
}
use c_computer_networking.Prelude.Int.{ℤ, pos_part}
use c_computer_networking.Prelude.Outcome.{ok, fault, out_of_bounds}
use c_computer_networking.HashTable.Hash.{Bytes}
use c_computer_networking.HashTable.Table.{ht_get_value}
use c_computer_networking.HashTable.Methods.{ht_get_value-view}
use c_computer_networking.Movies.Film.{Film, title_of}
use c_computer_networking.Movies.Database.{
  Database, index_of, is_outside, db_contains, db_get_id, db_update, db_delete,
}
use c_computer_networking.Movies.Database.Consistent.{IsConsistent}
use c_computer_networking.Movies.Database.Added.{titles}
use c_computer_networking.Movies.Database.Changes.{
  deleted, deleted-IsConsistent, updated, relisted, inside, db_update_lem,
}

module _ (hash : Bytes → ℕ) (stale : ℤ) (db : Database) (id : Bytes) where
  pub db_delete-outside : is_outside db (index_of stale id) ≡ true → db_delete hash stale db id ≡ db
  unfolding db_delete
  db_delete-outside e = rw e refl

  pub db_delete-absent :
      is_outside db (index_of stale id) ≡ false
      → get_or db.films (pos_part (index_of stale id)) none ≡ none
      → db_delete hash stale db id ≡ db
  unfolding db_delete
  db_delete-absent e a = rw (e, a) refl

  pub db_delete-found :
      (f : Film)
      → is_outside db (index_of stale id) ≡ false
      → get_or db.films (pos_part (index_of stale id)) none ≡ some f
      → db_delete hash stale db id ≡ deleted hash db (pos_part (index_of stale id)) f
  unfolding db_delete
  db_delete-found f e a = rw (e, a) refl

  -- `db_delete` keeps a database consistent, whatever the text and the stale variable are.
  pub db_delete-IsConsistent : IsConsistent hash db → IsConsistent hash (db_delete hash stale db id)
  db_delete-IsConsistent c = elim (Bool-cases (is_outside db (index_of stale id))) [
    | inl out ↦ rw (db_delete-outside out) c
    | inr in_range ↦ elim (Option-cases (get_or db.films (pos_part (index_of stale id)) none)) [
      | inl a ↦ rw (db_delete-absent in_range a) c
      | inr (f, a) ↦
          rw (db_delete-found f in_range a)
            (deleted-IsConsistent hash db c (pos_part (index_of stale id)) f a)
    ]
  ]

module _ (hash : Bytes → ℕ) (db : Database) (title : Bytes) where
  db_contains-found :
      (v : Bytes)
      → (ht_get_value hash db.id_map title).1 ≡ some v
      → db_contains hash db title ≡ true
  unfolding db_contains
  db_contains-found v e = rw (e, db_contains) refl

  db_contains-absent :
      (ht_get_value hash db.id_map title).1 ≡ none → db_contains hash db title ≡ false
  unfolding db_contains
  db_contains-absent e = rw (e, db_contains) refl

  db_update-unlisted :
      (value : Option Film)
      → (ht_get_value hash db.id_map title).1 ≡ none
      → db_update hash db title value ≡ fault out_of_bounds
  unfolding db_update db_get_id
  db_update-unlisted value e = ground arith

module _ (hash : Bytes → ℕ) (db : Database) (c : IsConsistent hash db) (n : ℕ) (f : Film)
    (here : get_or db.films n none ≡ some f) where
  -- the table answers as before, whatever stands in the slot
  updated-titles :
      (value : Option Film) (q : Bytes)
      → (ht_get_value hash (updated hash db n f value).id_map q).1 ≡ titles hash db q
  updated-titles value q = ground (
    arith,
    ht_get_value-view hash (updated hash db n f value).id_map q (relisted hash db c n f here).table,
    (relisted hash db c n f here).same_titles q,
  )

  -- In a consistent database, an update of a film by one with a title that is not listed leaves
  -- the new title unlisted and the old one listed, and the next update under the new title reads
  -- outside the array of films.
  pub db_update-renamed :
      (g h : Film)
      → titles hash db (title_of g) ≡ none
      → let renamed = updated hash db n f (some g) in
        (db_update hash db (title_of f) (some g) ≡ ok renamed)
        × (db_contains hash renamed (title_of g) ≡ false)
        × (db_contains hash renamed (title_of f) ≡ true)
        × (db_update hash renamed (title_of g) (some h) ≡ fault out_of_bounds)
  db_update-renamed g h new =
      let renamed = updated hash db n f (some g) in
      let unlisted = updated-titles (some g) (title_of g) ∙ new in
      (
        db_update_lem hash db c n f here (some g),
        db_contains-absent hash renamed (title_of g) unlisted,
        db_contains-found hash renamed (title_of f) _
            (updated-titles (some g) (title_of f) ∙ (c.listed n f here).1),
        db_update-unlisted hash renamed (title_of g) (some h) unlisted,
      )

  -- In a consistent database, an update of a film by NULL leaves its slot empty and its title
  -- listed.
  pub db_update-lost :
      let lost = updated hash db n f none in
      (db_update hash db (title_of f) none ≡ ok lost)
      × (get_or lost.films n none ≡ none)
      × (db_contains hash lost (title_of f) ≡ true)
  db_update-lost =
      let lost = updated hash db n f none in
      (
        db_update_lem hash db c n f here none,
        ground (arith, get_or-set db.films n n none none (inside hash db c n f here)),
        db_contains-found hash lost (title_of f) _
            (updated-titles none (title_of f) ∙ (c.listed n f here).1),
      )
