-- ===== src/Movies/Database/Changes.antt =====
-- `db_delete` and `db_update` of a film that is there keep a consistent database.
use c_computer_networking.Prelude.{
  ℕ, ◌+◌, ◌*◌, ◌^◌, ◌≤◌, ◌<◌, ◌≡◌, sym, ap, ◌∙◌, ◌≢◌, inl, inr, Option, none, some, arith, length,
  get_or, set, length-set, get_or-set, ◌==◌, Bool-cases,
}
use c_computer_networking.Prelude.Int.{pos}
use c_computer_networking.Prelude.Outcome.{ok}
use c_computer_networking.HashTable.Hash.{Bytes}
use c_computer_networking.HashTable.Chain.{same_key, same_key_iff}
use c_computer_networking.HashTable.Table.{HashTable, ht_set_value, ht_delete_key}
use c_computer_networking.HashTable.Placed.{view}
use c_computer_networking.HashTable.Methods.{
  IsValid, Fits, ht_set_value-Writes, ht_delete_key-Writes, size-ht_set_value, size-ht_delete_key,
}
use c_computer_networking.Movies.Film.{Film, title_of}
use c_computer_networking.Movies.Database.{Database, int_bytes, read_int, db_get_id, db_update}
use c_computer_networking.Movies.Database.Added.{titles}
use c_computer_networking.Movies.Database.Consistent.{
  IsConsistent, id_map-Fits, ht_get_value-titles, none_is_not_some, read_int-int_bytes,
}

-- the database after `db_delete` of the film `f` in slot `n`, and after `db_update` of that slot,
-- called with the film's title
abbrev forgotten : (Bytes → ℕ) → Database → Film → HashTable
forgotten hash db f = (ht_delete_key hash db.id_map (title_of f)).1

abbrev pub deleted : (Bytes → ℕ) → Database → ℕ → Film → Database
deleted hash db n f = record db { films = set db.films n none; id_map = forgotten hash db f }

abbrev pub updated : (Bytes → ℕ) → Database → ℕ → Film → Option Film → Database
updated hash db n f value = record db {
  films = set db.films n value;
  id_map = (ht_set_value hash (forgotten hash db f) (title_of f) (int_bytes n)).1;
}

module _ (hash : Bytes → ℕ) (db : Database) (c : IsConsistent hash db) where
  -- two numbers below the capacity with the same bytes
  int_bytes-injective : (i j : ℕ) → i < 2 ^ 31 → j < 2 ^ 31 → int_bytes i ≡ int_bytes j → i ≡ j
  int_bytes-injective i j hi hj e =
      sym (read_int-int_bytes i hi) ∙ ap read_int e ∙ read_int-int_bytes j hj

  -- No two films have one title.
  pub same_title :
      (i j : ℕ) (f g : Film)
      → get_or db.films i none ≡ some f
      → get_or db.films j none ≡ some g
      → title_of f ≡ title_of g
      → i ≡ j
  same_title i j f g hi hj e =
      let (lt, at) = c.listed i f hi in
      let (lt', at') = c.listed j g hj in
      int_bytes-injective i j (omega (arith, c.room)) (omega (arith, c.room))
        (cc (sym at ∙ ap (titles hash db) e ∙ at'))

  module _ (n : ℕ) (f : Film) (here : get_or db.films n none ≡ some f) where
    pub inside : n < length db.films
    inside = omega (arith, (c.listed n f here).0, c.room, c.width)

    pub deleted-IsConsistent : IsConsistent hash (deleted hash db n f)
    deleted-IsConsistent =
        let (w, status) =
          ht_delete_key-Writes hash db.id_map c.table (title_of f) (id_map-Fits hash db c).1 in
        let apart : (i : ℕ) (g : Film)
            → get_or db.films i none ≡ some g
            → i ≢ n
            → title_of f ≢ title_of g =
          λ i g e ne same. ne (same_title i n g f e here (sym same)) in
        record {
          room = c.room;
          width = length-set db.films n none ∙ c.width;
          table = w.models.0;
          few = ground (arith, w.counts, c.few);
          small = omega (arith, size-ht_delete_key hash db.id_map c.table (title_of f), c.small);
          listed = λ i g e. ground (
            arith,
            get_or-set db.films n i none none inside,
            c.listed i g,
            w.models.1 (title_of g),
            same_key_iff (title_of f) (title_of g),
            apart i g,
          );
          only = λ q v e. elim (Bool-cases (same_key (title_of f) q)) [
            | inl same ↦ absurd (none_is_not_some v (ground (arith, w.models.1 q)))
            | inr differs ↦
                let e' : titles hash db q ≡ some v = ground (arith, w.models.1 q) in
                let (i, g, at, t, number) = c.only q v e' in
                (
                  i,
                  g,
                  ground (
                    arith,
                    get_or-set db.films n i none none inside,
                    same_key_iff (title_of f) q,
                  ),
                  t,
                  number,
                )
          ];
        }

    -- The table has the titles that it had.
    pub record Relisted : Type 0 where
      pub table : IsValid hash (updated hash db n f none).id_map
      pub same_count : (updated hash db n f none).id_map.n_elems ≡ db.id_map.n_elems
      pub small : (updated hash db n f none).id_map.size ≤ 3 * db.cur_films + 3
      pub same_titles :
          (q : Bytes) → view hash (updated hash db n f none).id_map.elems q ≡ titles hash db q

    pub relisted : Relisted
    relisted =
        let w =
          (ht_delete_key-Writes hash db.id_map c.table (title_of f) (id_map-Fits hash db c).1).0 in
        let same_size = size-ht_delete_key hash db.id_map c.table (title_of f) in
        let fits : Fits hash (forgotten hash db f) =
          (omega (arith, same_size, c.small, c.room), omega (arith, w.counts, c.few, c.room)) in
        let w' =
          ht_set_value-Writes hash (forgotten hash db f) (title_of f) (int_bytes n) w.models.0
            fits in
        let at = (c.listed n f here).1 in
        record {
          table = w'.models.0;
          same_count = ground (
            arith,
            w.counts,
            w'.counts,
            w.models.1 (title_of f),
            at,
            same_key_iff (title_of f) (title_of f),
          );
          small = ground (
            arith,
            size-ht_set_value hash (forgotten hash db f) (title_of f) (int_bytes n) w.models.0 fits,
            same_size,
            w.counts,
            c.few,
            c.small,
          );
          same_titles =
              λ q. ground (arith, w'.models.1 q, w.models.1 q, at, same_key_iff (title_of f) q);
        }

    -- The number of the film's title is found.
    pub db_get_id_lem : db_get_id hash db (title_of f) ≡ ok (pos n)
    unfolding db_get_id
    db_get_id_lem =
        let found = ht_get_value-titles hash db c (title_of f) ∙ (c.listed n f here).1 in
        let number = read_int-int_bytes n (omega (arith, inside, c.width)) in
        ground (arith, found, number)

    -- Its slot is written.
    pub db_update_lem :
        (value : Option Film)
        → db_update hash db (title_of f) value ≡ ok (updated hash db n f value)
    unfolding db_update
    db_update_lem value = ground (arith, db_get_id_lem, inside, c.width)

    -- An update by a film of the same title keeps a database consistent.
    pub db_update-IsConsistent :
        (g : Film) → title_of g ≡ title_of f → IsConsistent hash (updated hash db n f (some g))
    db_update-IsConsistent g same = record {
      room = c.room;
      width = length-set db.films n (some g) ∙ c.width;
      table = relisted.table;
      few = omega (arith, relisted.same_count, c.few);
      small = relisted.small;
      listed = λ i h e. ground (
        arith,
        get_or-set db.films n i (some g) none inside,
        c.listed i h,
        c.listed n f here,
        relisted.same_titles (title_of h),
        same,
      );
      only = λ q v e.
          let (i, h, at, t, number) = c.only q v (sym (relisted.same_titles q) ∙ e) in
          elim (Bool-cases (n == i)) [
            | inl here_too ↦ (
              n,
              g,
              ground (arith, get_or-set db.films n n (some g) none inside),
              ground arith,
              ground arith,
            )
            | inr elsewhere ↦
                (i, h, ground (arith, get_or-set db.films n i (some g) none inside), t, number)
          ];
    }
