-- ===== src/Tests/Tables.antt =====
-- hash_table.c on small tables, with the hash of `Distributed Hash Table/hash_table.c`.
use c_computer_networking.Prelude.{◌%◌, ◌^◌, ◌≡◌, ◌<◌, refl, none, some, List, [], ◌∷◌, arith}
use c_computer_networking.HashTable.Hash.{Bytes, string_hash, string_hash16, string_hash-mod}
use c_computer_networking.HashTable.Table.{
  success, failure, HashTable, ht_create, ht_set_value, ht_delete_key, resize, ht_get_value,
  put_value, make_room,
}
use c_computer_networking.HashTable.Chain.{find, assign, same_key, unlink}
use c_computer_networking.HashTable.Placed.{view}
use c_computer_networking.HashTable.Resize.{Resized, resize-Resized}
use c_computer_networking.HashTable.Methods.{
  IsValid, Fits, Writes, IsSparse, answer, ht_create-Models, ht_set_value-Writes,
  ht_delete_key-Writes, ht_set_value-IsSparse, size-ht_set_value,
}
use c_computer_networking.HashTable.Refine.{Op, get, set, delete, run, run_dictionary, run_refines}

-- "ab", "cd" and a key with a byte from 128 on
abbrev key : Bytes
key = 97 ∷ 98 ∷ []

abbrev other : Bytes
other = 99 ∷ 100 ∷ []

abbrev high : Bytes
high = 200 ∷ []

abbrev calls : List Op
calls =
    set key (1 ∷ [])
    ∷ set other (2 ∷ [])
    ∷ set high []
    ∷ set (120 ∷ []) (3 ∷ [])
    ∷ set key (4 ∷ [])
    ∷ get key
    ∷ delete other
    ∷ get other
    ∷ delete other
    ∷ get high
    ∷ []

-- Five sets, on the fourth of which the table has grown, then reads and deletes.
run_test :
    run string_hash ht_create calls
    ≡ (success, none)
      ∷ (success, none)
      ∷ (success, none)
      ∷ (success, none)
      ∷ (success, none)
      ∷ (success, some (4 ∷ []))
      ∷ (success, none)
      ∷ (failure, none)
      ∷ (failure, none)
      ∷ (success, some [])
      ∷ []
unfolding run ht_create string_hash ht_set_value ht_get_value ht_delete_key find put_value assign
    make_room same_key resize unlink
run_test = refl

run_refines_example : run string_hash ht_create calls ≡ run_dictionary (λ q. none) calls
run_refines_example = run_refines string_hash calls (omega arith)

string_hash-mod_test : string_hash high % 2 ^ 16 ≡ string_hash16 high
string_hash-mod_test = string_hash-mod high

abbrev one_key : HashTable
one_key = (ht_set_value string_hash ht_create key (1 ∷ [])).1

new_Fits : Fits string_hash ht_create
unfolding ht_create
new_Fits = (omega arith, omega arith)

one_key-Writes : Writes string_hash ht_create key (some (1 ∷ [])) one_key
one_key-Writes =
    ht_set_value-Writes string_hash ht_create key (1 ∷ []) (ht_create-Models string_hash).0 new_Fits

one_key-IsValid : IsValid string_hash one_key
one_key-IsValid = one_key-Writes.models.0

one_key-small : one_key.n_elems < 2 ^ 62
unfolding ht_create
one_key-small = omega (arith, one_key-Writes.counts)

one_key-size : (0 < one_key.size) × (one_key.size < 2 ^ 62)
unfolding ht_create
one_key-size = ground (
  arith,
  size-ht_set_value string_hash ht_create key (1 ∷ []) (ht_create-Models string_hash).0 new_Fits,
)

resize-Resized_example : Resized string_hash one_key (resize string_hash one_key)
resize-Resized_example =
    resize-Resized string_hash one_key one_key-size.0 one_key-size.1 one_key-IsValid.placed

ht_set_value-Writes_test :
    Writes string_hash one_key other
      (some (2 ∷ []))
      (ht_set_value string_hash one_key other (2 ∷ [])).1
ht_set_value-Writes_test =
    ht_set_value-Writes string_hash one_key other (2 ∷ []) one_key-IsValid
      (one_key-size.1, one_key-small)

ht_delete_key-Writes_test :
    Writes string_hash one_key key none (ht_delete_key string_hash one_key key).1
    × ((ht_delete_key string_hash one_key key).0 ≡ (answer (view string_hash one_key.elems key)).0)
ht_delete_key-Writes_test =
    ht_delete_key-Writes string_hash one_key one_key-IsValid key one_key-small

new_IsSparse : IsSparse string_hash ht_create
unfolding ht_create
new_IsSparse = omega arith

ht_set_value-IsSparse_example : IsSparse string_hash one_key
ht_set_value-IsSparse_example =
    ht_set_value-IsSparse string_hash ht_create key (1 ∷ []) (ht_create-Models string_hash).0
      new_Fits new_IsSparse
