-- ===== src/HashTable/Placed.antt =====
-- Where the elements of a table stand, what the table means, and a write to one bucket.
use c_computer_networking.Prelude.{
  get_or-set, ℕ, zero, suc, ◌+◌, ◌%◌, ◌≤◌, ◌<◌, ◌≡◌, ◌≢◌, Option, List, [], ◌∷◌, arith, length,
  get_or, set, length-set, if◌then◌else◌,
}
use c_computer_networking.HashTable.Hash.{Bytes}
use c_computer_networking.HashTable.Chain.{Chain, same_key, same_key_iff, find, occurs}

-- how many elements all the buckets hold
unfoldable pub total : List Chain → ℕ
total [] = 0
total (c ∷ cs) = length c + total cs

pub total-set :
    (es : List Chain) (i : ℕ) (c : Chain)
    → i < length es
    → total (set es i c) + length (get_or es i []) ≡ total es + length c
unfolding total
total-set [] i c h = absurd (omega arith)
total-set (x ∷ es) zero c h = omega arith
total-set (x ∷ es) (suc i) c h = omega (arith, total-set es i c (omega arith))

module _ (hash : Bytes → ℕ) where
  -- the bucket of a key among the buckets `es`
  abbrev pub home : List Chain → Bytes → ℕ
  home es q = hash q % length es

  abbrev pub bucket : List Chain → Bytes → Chain
  bucket es q = get_or es (home es q) []

  -- What the buckets mean: the value of each key, if it has one.
  unfoldable pub view : List Chain → Bytes → Option Bytes
  view es q = find q (bucket es q)

  -- A key occurs at most once, and only in its own bucket.
  abbrev pub IsPlaced : List Chain → Type 0
  IsPlaced es =
      (q : Bytes) (i : ℕ)
      → (occurs q (get_or es i []) ≤ 1) × (home es q ≢ i → occurs q (get_or es i []) ≡ 0)

  -- The array index that every operation computes lies inside the array.
  pub index_in_bounds : (es : List Chain) (q : Bytes) → 0 < length es → home es q < length es
  index_in_bounds es q h = omega arith

  -- the bucket of `k` is replaced by a chain that holds no key of another bucket
  module _ (es : List Chain) (pos : 0 < length es) (placed : IsPlaced es) (k : Bytes)
      (c : Chain) where
    module _ (once : (q : Bytes) → occurs q c ≤ 1)
        (home_only : (q : Bytes) → home es q ≢ home es k → occurs q c ≡ 0) where
      pub set-IsPlaced : IsPlaced (set es (home es k) c)
      set-IsPlaced q i =
          let here = index_in_bounds es k pos in
          ground (
            arith,
            get_or-set es (home es k) i c [] here,
            length-set es (home es k) c,
            placed q i,
            once q,
            home_only q,
          )

      pub view-set :
          (v : Option Bytes)
          → ((q : Bytes) → find q c ≡ (if same_key k q then v else find q (bucket es k)))
          → (q : Bytes) → view (set es (home es k) c) q ≡ (if same_key k q then v else view es q)
      unfolding view
      view-set v reads q =
          let here = index_in_bounds es k pos in
          ground (
            arith,
            get_or-set es (home es k) (home es q) c [] here,
            length-set es (home es k) c,
            reads q,
            same_key_iff k q,
          )
