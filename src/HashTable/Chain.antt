-- ===== src/HashTable/Chain.antt =====
-- One bucket of the table, the linked list that starts at `tbl->elems[i]`, and the three walks over
-- it. An element owns its key and its value, so a pointer with its length is a list of bytes.
use c_computer_networking.Prelude.{
  ℕ, zero, suc, ◌+◌, ◌≤◌, ◌<◌, ◌≡◌, refl, ◌↔◌, inl, inr, Bool, true, false, ◌&&◌, Option, none,
  some, List, [], ◌∷◌, ◌++◌, arith, length, ◌==◌, if◌then◌else◌, Option-cases,
}
use mathlib.Core.Option
use c_computer_networking.HashTable.Hash.{Bytes}

-- `memcmp(a, b, n) == 0`
memcmp_zero : Bytes → Bytes → ℕ → Bool
memcmp_zero a b zero = true
memcmp_zero [] b (suc n) = false
memcmp_zero (x ∷ a) [] (suc n) = false
memcmp_zero (x ∷ a) (y ∷ b) (suc n) = x == y && memcmp_zero a b n

-- `list->key_len == key_len && memcmp(list->key, key, key_len) == 0`
unfoldable pub same_key : Bytes → Bytes → Bool
unfolding memcmp_zero
same_key a b = length a == length b && memcmp_zero a b (length b)

same_key_refl : (a : Bytes) → same_key a a ≡ true
unfolding same_key
same_key_refl [] = refl
same_key_refl (x ∷ a) = ground (arith, same_key_refl a)

same_key_eq : (a b : Bytes) → same_key a b ≡ true → a ≡ b
unfolding same_key
same_key_eq [] [] h = refl
same_key_eq [] (y ∷ b) h = ground arith
same_key_eq (x ∷ a) [] h = ground arith
same_key_eq (x ∷ a) (y ∷ b) h = ground (arith, same_key_eq a b)

-- The comparison of two keys answers whether they are equal.
pub same_key_iff : (a b : Bytes) → (same_key a b ≡ true) ↔ (a ≡ b)
same_key_iff a b = (same_key_eq a b, λ e. rw e (same_key_refl b))

-- `hash_table_elem`, less its `next`
pub record Elem : Type 0 where
  pub key : Bytes
  pub value : Bytes

abbrev pub Chain : Type 0
Chain = List Elem

-- the walk of `ht_get_value`
unfoldable pub find : Bytes → Chain → Option Bytes
find k [] = none
find k (e ∷ c) = if same_key e.key k then some e.value else find k c

-- the walk of `ht_set_value`: the chain with the new value at the key, `none` at the end
unfoldable pub assign : Bytes → Bytes → Chain → Option Chain
assign k v [] = none
assign k v (e ∷ c) =
    if same_key e.key k
    then some (record e { value = v } ∷ c)
    else Option.map (λ r. e ∷ r) (assign k v c)

-- the walk of `ht_delete_key`: the chain without the element, `none` at the end
unfoldable pub unlink : Bytes → Chain → Option Chain
unlink k [] = none
unlink k (e ∷ c) = if same_key e.key k then some c else Option.map (λ r. e ∷ r) (unlink k c)

-- how many elements of a chain have a key
unfoldable pub occurs : Bytes → Chain → ℕ
occurs q [] = 0
occurs q (e ∷ c) = (if same_key e.key q then 1 else 0) + occurs q c

pub occurs-append : (q : Bytes) (a b : Chain) → occurs q (a ++ b) ≡ occurs q a + occurs q b
unfolding occurs
occurs-append q [] b = omega arith
occurs-append q (e ∷ a) b = omega (arith, occurs-append q a b)

pub find-absent : (q : Bytes) (c : Chain) → occurs q c ≡ 0 → find q c ≡ none
unfolding occurs find
find-absent q [] h = refl
find-absent q (e ∷ c) h = ground (arith, find-absent q c)

-- An element found by a walk is counted.
pub occurs-found : (q : Bytes) (c : Chain) (v : Bytes) → find q c ≡ some v → 0 < occurs q c
unfolding occurs find
occurs-found q [] v h = ground arith
occurs-found q (e ∷ c) v h = ground (arith, occurs-found q c v)

-- What the writing walks leave: the chain `c'` reads `v` at `k` and as `c` elsewhere, and counts
-- every other key as `c` does.
pub record Rewritten (k : Bytes) (v : Option Bytes) (c c' : Chain) (q : Bytes) : Type 0 where
  pub reads : occurs q c ≤ 1 → find q c' ≡ (if same_key k q then v else find q c)
  pub others : same_key k q ≡ false → occurs q c' ≡ occurs q c
  pub at_most : occurs q c' ≤ occurs q c

-- `assign` ends with `none` exactly where the walk of `ht_get_value` does.
pub assign-absent : (k v : Bytes) (c : Chain) → assign k v c ≡ none → occurs k c ≡ 0
unfolding assign occurs
assign-absent k v [] h = refl
assign-absent k v (e ∷ c) h = ground (arith, assign-absent k v c)

pub unlink-absent : (k : Bytes) (c : Chain) → unlink k c ≡ none → occurs k c ≡ 0
unfolding unlink occurs
unlink-absent k [] h = refl
unlink-absent k (e ∷ c) h = ground (arith, unlink-absent k c)

-- Where `assign` succeeds it rewrites one value in place.
pub assign-Rewritten :
    (k v : Bytes) (c c' : Chain) (q : Bytes) → assign k v c ≡ some c' → Rewritten k (some v) c c' q
unfolding assign occurs find
assign-Rewritten k v [] c' q h = ground arith
assign-Rewritten k v (e ∷ c) c' q h = elim (Option-cases (assign k v c)) [
  | inl none_left ↦ ground (arith, same_key_iff e.key k, same_key_iff e.key q, same_key_iff k q)
  | inr (r, rest) ↦ ground (
    arith,
    same_key_iff e.key k,
    same_key_iff e.key q,
    same_key_iff k q,
    assign-Rewritten k v c r q rest,
  )
]

pub length-assign :
    (k v : Bytes) (c c' : Chain)
    → assign k v c ≡ some c'
    → (length c' ≡ length c) × (0 < occurs k c)
unfolding assign occurs
length-assign k v [] c' h = ground arith
length-assign k v (e ∷ c) c' h = elim (Option-cases (assign k v c)) [
  | inl none_left ↦ ground arith
  | inr (r, rest) ↦ ground (arith, length-assign k v c r rest)
]

-- Where `unlink` succeeds it takes one element out.
pub unlink-Rewritten :
    (k : Bytes) (c c' : Chain) (q : Bytes) → unlink k c ≡ some c' → Rewritten k none c c' q
unfolding unlink occurs find
unlink-Rewritten k [] c' q h = ground arith
unlink-Rewritten k (e ∷ c) c' q h = elim (Option-cases (unlink k c)) [
  | inl none_left ↦
      ground (arith, same_key_iff e.key k, same_key_iff e.key q, same_key_iff k q, find-absent q c)
  | inr (r, rest) ↦ ground (
    arith,
    same_key_iff e.key k,
    same_key_iff e.key q,
    same_key_iff k q,
    find-absent q c,
    unlink-Rewritten k c r q rest,
  )
]

pub length-unlink :
    (k : Bytes) (c c' : Chain)
    → unlink k c ≡ some c'
    → (length c' + 1 ≡ length c) × (0 < occurs k c)
unfolding unlink occurs
length-unlink k [] c' h = ground arith
length-unlink k (e ∷ c) c' h = elim (Option-cases (unlink k c)) [
  | inl none_left ↦ ground arith
  | inr (r, rest) ↦ ground (arith, length-unlink k c r rest)
]
