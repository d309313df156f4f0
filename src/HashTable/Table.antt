-- ===== src/HashTable/Table.antt =====
-- The table of hash_table.c and its operations, over the hash function of the copy at hand (`Hash`).
-- A bucket that is read or written out of range would be undefined in C; `Placed.index_in_bounds`
-- rules it out.
use c_computer_networking.Prelude.{
  ℕ, ◌+◌, ◌-◌, ◌*◌, ◌%◌, ◌^◌, Option, none, some, List, [], ◌∷◌, get_or, set, replicate, ltb,
  if◌then◌else◌,
}
use c_computer_networking.HashTable.Hash.{Bytes}
use c_computer_networking.HashTable.Chain.{Chain, find, assign, unlink}

-- the `int` that the operations return, 0 or -1
pub data Status : Type 0 where
  success failure : Status

pub record HashTable : Type 0 where
  pub size : ℕ
  pub n_elems : ℕ
  pub elems : List Chain

abbrev pub initial_size : ℕ
initial_size = 3

unfoldable pub ht_create : HashTable
ht_create = record { size = initial_size; n_elems = 0; elems = replicate initial_size [] }

module _ (hash : Bytes → ℕ) where
  unfoldable pub get_hash : HashTable → Bytes → ℕ
  get_hash tbl key = hash key % tbl.size

  -- The status, and the value behind `*res` (`none` for NULL) with its length.
  unfoldable pub ht_get_value : HashTable → Bytes → Status × Option Bytes
  unfolding get_hash
  ht_get_value tbl key = elim (find key (get_or tbl.elems (get_hash tbl key) [])) [
    | some value ↦ (success, some value)
    | none ↦ (failure, none)
  ]

  -- The inner loop of `resize`: each element goes to the front of its new chain.
  unfoldable pub rehash_chain : ℕ → Chain → List Chain → List Chain
  rehash_chain size [] new_elems = new_elems
  rehash_chain size (e ∷ list) new_elems =
      let h = hash e.key % size in
      rehash_chain size list (set new_elems h (e ∷ get_or new_elems h []))

  -- The outer loop, over the old array.
  unfoldable pub rehash_all : ℕ → List Chain → List Chain → List Chain
  unfolding rehash_chain
  rehash_all size [] new_elems = new_elems
  rehash_all size (list ∷ lists) new_elems =
      rehash_all size lists (rehash_chain size list new_elems)

  unfoldable pub resize : HashTable → HashTable
  unfolding rehash_all
  resize tbl =
      let size = (tbl.size * 2) % 2 ^ 64 in
      record tbl { size = size; elems = rehash_all size tbl.elems (replicate size []) }

  -- `ht_set_value` after the test of the load
  unfoldable pub put_value : HashTable → Bytes → Bytes → HashTable
  unfolding get_hash
  put_value tbl key value =
      let h = get_hash tbl key in
      let list = get_or tbl.elems h [] in
      elim (assign key value list) [
        | some list' ↦ record tbl { elems = set tbl.elems h list' }
        | none ↦ record tbl {
          n_elems = (tbl.n_elems + 1) % 2 ^ 64;
          elems = set tbl.elems h (record { key = key; value = value } ∷ list);
        }
      ]

  -- `if (4 * tbl->n_elems > 3 * tbl->size) resize(tbl);`
  unfoldable pub make_room : HashTable → HashTable
  make_room tbl =
      if ltb ((3 * tbl.size) % 2 ^ 64) ((4 * tbl.n_elems) % 2 ^ 64) then resize tbl else tbl

  unfoldable pub ht_set_value : HashTable → Bytes → Bytes → Status × HashTable
  ht_set_value tbl key value = (success, put_value (make_room tbl) key value)

  -- Where nothing stands before the element that is found, it is the head of the chain as it was read,
  -- which is what the assert says.
  unfoldable pub ht_delete_key : HashTable → Bytes → Status × HashTable
  unfolding get_hash
  ht_delete_key tbl key =
      let h = get_hash tbl key in
      elim (unlink key (get_or tbl.elems h [])) [
        | some list' ↦ (
          success,
          record tbl {
            n_elems = (tbl.n_elems + 2 ^ 64 - 1) % 2 ^ 64;
            elems = set tbl.elems h list';
          },
        )
        | none ↦ (failure, tbl)
      ]
