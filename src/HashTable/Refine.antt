-- ===== src/HashTable/Refine.antt =====
-- The contract of hash_table.c: a client that creates a table and makes any calls sees the replies
-- of a dictionary, a function from keys to values.
use c_computer_networking.Prelude.{
  ℕ, suc, ◌+◌, ◌*◌, ◌^◌, ◌≤◌, ◌<◌, ◌≡◌, refl, ap, ◌∙◌, Option, none, some, List, [], ◌∷◌, arith,
  length,
}
use c_computer_networking.HashTable.Hash.{Bytes}
use c_computer_networking.HashTable.Table.{
  Status, success, HashTable, ht_create, ht_get_value, ht_set_value, ht_delete_key,
}
use c_computer_networking.HashTable.Placed.{view}
use c_computer_networking.HashTable.Methods.{
  Fits, Models, update, answer, ht_create-Models, ht_get_value-view, ht_delete_key-Writes,
  ht_set_value-Writes, size-ht_set_value, size-ht_delete_key,
}

-- a call of a client
pub data Op : Type 0 where
  get : Bytes → Op
  set : Bytes → Bytes → Op
  delete : Bytes → Op

-- the status, and what a `get` finds
abbrev pub Reply : Type 0
Reply = Status × Option Bytes

abbrev pub Dictionary : Type 0
Dictionary = Bytes → Option Bytes

-- The dictionary's own answers to the same calls.
unfoldable pub run_dictionary : Dictionary → List Op → List Reply
run_dictionary f [] = []
run_dictionary f (get k ∷ ops) = answer (f k) ∷ run_dictionary f ops
run_dictionary f (set k v ∷ ops) = (success, none) ∷ run_dictionary (update f k (some v)) ops
run_dictionary f (delete k ∷ ops) = ((answer (f k)).0, none) ∷ run_dictionary (update f k none) ops

module _ (hash : Bytes → ℕ) where
  -- the calls, one after the other on one table
  unfoldable pub run : HashTable → List Op → List Reply
  run tbl [] = []
  run tbl (get k ∷ ops) = ht_get_value hash tbl k ∷ run tbl ops
  run tbl (set k v ∷ ops) =
      let (status, tbl') = ht_set_value hash tbl k v in (status, none) ∷ run tbl' ops
  run tbl (delete k ∷ ops) =
      let (status, tbl') = ht_delete_key hash tbl k in (status, none) ∷ run tbl' ops

  -- a table that at most `m` sets have been made on
  pub record Bounded (m : ℕ) (f : Dictionary) (tbl : HashTable) : Type 0 where
    pub models : Models hash f tbl
    pub few : tbl.n_elems ≤ m
    pub small : tbl.size ≤ 3 * m + 3

  pub update_congr :
      (f : Dictionary) (tbl r : HashTable) (k : Bytes) (v : Option Bytes)
      → Models hash f tbl
      → Models hash (update (view hash tbl.elems) k v) r
      → Models hash (update f k v) r
  update_congr f tbl r k v same new = (new.0, λ q. ground (arith, new.1 q, same.1 q))

  -- A set on a table that fewer than 2 ^ 60 sets have been made on.
  pub set-Bounded :
      (m : ℕ) (f : Dictionary) (tbl : HashTable) (k v : Bytes)
      → m < 2 ^ 60
      → Bounded m f tbl
      → Bounded (suc m) (update f k (some v)) (ht_set_value hash tbl k v).1
  set-Bounded m f tbl k v fits b =
      let valid = b.models.0 in
      let ranges : Fits hash tbl = omega (arith, b.few, b.small) in
      let w = ht_set_value-Writes hash tbl k v valid ranges in
      record {
        models = update_congr f tbl _ k (some v) b.models w.models;
        few = omega (arith, w.counts, b.few);
        small = ground (arith, size-ht_set_value hash tbl k v valid ranges, b.few, b.small);
      }

  pub delete-Bounded :
      (m : ℕ) (f : Dictionary) (tbl : HashTable) (k : Bytes)
      → m < 2 ^ 60
      → Bounded m f tbl
      → Bounded m (update f k none) (ht_delete_key hash tbl k).1
        × ((ht_delete_key hash tbl k).0 ≡ (answer (f k)).0)
  delete-Bounded m f tbl k fits b =
      let valid = b.models.0 in
      let (w, status) = ht_delete_key-Writes hash tbl valid k (omega (arith, b.few)) in
      (
        record {
          models = update_congr f tbl _ k none b.models w.models;
          few = omega (arith, w.counts, b.few);
          small = omega (arith, size-ht_delete_key hash tbl valid k, b.small);
        },
        status ∙ ap (λ o. (answer o).0) (b.models.1 k),
      )

  run_from :
      (ops : List Op) (m : ℕ) (f : Dictionary) (tbl : HashTable)
      → m + length ops < 2 ^ 60
      → Bounded m f tbl
      → run tbl ops ≡ run_dictionary f ops
  unfolding run run_dictionary ht_set_value
  run_from [] m f tbl fits b = refl
  run_from (get k ∷ ops) m f tbl fits b =
      rw (
        ht_get_value-view hash tbl k b.models.0,
        b.models.1 k,
        run_from ops m f tbl (omega arith) b,
      )
  run_from (set k v ∷ ops) m f tbl fits b =
      ap (λ rest. (success, none) ∷ rest)
        (run_from ops (suc m) (update f k (some v)) (ht_set_value hash tbl k v).1 (omega arith)
          (set-Bounded m f tbl k v (omega arith) b))
  run_from (delete k ∷ ops) m f tbl fits b =
      let (b', status) = delete-Bounded m f tbl k (omega arith) b in
      rw (status, run_from ops m (update f k none) (ht_delete_key hash tbl k).1 (omega arith) b')

  -- A new table is an empty dictionary.
  pub ht_create-Bounded : Bounded 0 (λ q. none) ht_create
  unfolding ht_create
  ht_create-Bounded = record {
    models = ht_create-Models hash;
    few = omega arith;
    small = omega arith;
  }

  -- Fewer than 2 ^ 60 calls of get, set and delete on a new table get the replies that an empty
  -- dictionary, a function from keys to values, gives to the same calls, whatever the hash
  -- function.
  pub run_refines :
      (ops : List Op) → length ops < 2 ^ 60 → run ht_create ops ≡ run_dictionary (λ q. none) ops
  run_refines ops fits = run_from ops 0 (λ q. none) ht_create (omega arith) ht_create-Bounded
