-- ===== src/HashTable/Resize.antt =====
-- `resize`: moving every element to a fresh array of twice the size keeps what the table means.
use c_computer_networking.Prelude.{
  get_or-set, ℕ, zero, suc, ◌+◌, ◌*◌, ◌%◌, ◌^◌, ◌≤◌, ◌<◌, ◌≡◌, refl, ◌≢◌, sym, ◌∙◌, Option, none,
  some, List, [], ◌∷◌, ◌++◌, arith, length, get_or, set, replicate, length-append, length-set,
  length-replicate, if◌then◌else◌,
}
use c_computer_networking.HashTable.Hash.{Bytes}
use c_computer_networking.HashTable.Chain.{
  Elem, Chain, same_key, same_key_iff, find, occurs, occurs-append, find-absent,
}
use c_computer_networking.HashTable.Table.{HashTable, rehash_chain, rehash_all, resize}
use c_computer_networking.HashTable.Placed.{
  total, total-set, bucket, home, view, IsPlaced, index_in_bounds, set-IsPlaced, view-set,
}

-- all the elements, in the order in which `resize` meets them
unfoldable pub entries : List Chain → Chain
entries [] = []
entries (c ∷ cs) = c ++ entries cs

length-entries : (es : List Chain) → length (entries es) ≡ total es
unfolding entries total
length-entries [] = refl
length-entries (c ∷ cs) = omega (arith, length-append c (entries cs), length-entries cs)

abbrev pub or_else : Option Bytes → Option Bytes → Option Bytes
or_else (some v) w = some v
or_else none w = w

find-append : (q : Bytes) (a b : Chain) → find q (a ++ b) ≡ or_else (find q a) (find q b)
unfolding find
find-append q [] b = refl
find-append q (e ∷ a) b = ground (arith, find-append q a b)

-- A key that stands in no bucket stands nowhere.
occurs-entries_zero :
    (q : Bytes) (es : List Chain)
    → ((i : ℕ) → occurs q (get_or es i []) ≡ 0)
    → occurs q (entries es) ≡ 0
unfolding entries occurs
occurs-entries_zero q [] h = refl
occurs-entries_zero q (c ∷ cs) h =
    omega (arith, occurs-append q c (entries cs), h 0, occurs-entries_zero q cs (λ i. h (suc i)))

-- A key that can stand in bucket `j` alone is read and counted there.
entries_only :
    (q : Bytes) (es : List Chain) (j : ℕ)
    → ((i : ℕ) → i ≢ j → occurs q (get_or es i []) ≡ 0)
    → (occurs q (entries es) ≡ occurs q (get_or es j []))
      × (find q (entries es) ≡ find q (get_or es j []))
unfolding entries occurs find
entries_only q [] j h = (refl, refl)
entries_only q (c ∷ cs) zero h =
    let rest = occurs-entries_zero q cs (λ i. h (suc i) (omega arith)) in
    ground (
      arith,
      rest,
      occurs-append q c (entries cs),
      find-append q c (entries cs),
      find-absent q (entries cs) rest,
    )
entries_only q (c ∷ cs) (suc j) h =
    let here = h 0 (omega arith) in
    let (counted, found) = entries_only q cs j (λ i n. h (suc i) (omega arith)) in
    ground (
      arith,
      occurs-append q c (entries cs),
      find-append q c (entries cs),
      find-absent q c here,
      counted,
      found,
    )

rehash_chain-append :
    (hash : Bytes → ℕ) (n : ℕ) (a b : Chain) (es : List Chain)
    → rehash_chain hash n (a ++ b) es ≡ rehash_chain hash n b (rehash_chain hash n a es)
unfolding rehash_chain
rehash_chain-append hash n [] b es = refl
rehash_chain-append hash n (e ∷ a) b es =
    rehash_chain-append hash n a b (set es (hash e.key % n) (e ∷ get_or es (hash e.key % n) []))

-- The nested loops are one loop over all the elements.
rehash_all-entries :
    (hash : Bytes → ℕ) (n : ℕ) (cs es : List Chain)
    → rehash_all hash n cs es ≡ rehash_chain hash n (entries cs) es
unfolding rehash_all entries
rehash_all-entries hash n [] es = refl
rehash_all-entries hash n (c ∷ cs) es =
    rehash_all-entries hash n cs (rehash_chain hash n c es)
    ∙ sym (rehash_chain-append hash n c (entries cs) es)

module _ (hash : Bytes → ℕ) where
  -- The elements of `list` have been added to the buckets `es`, which gave `es'`.
  record Moved (list : Chain) (es es' : List Chain) : Type 0 where
    width : length es' ≡ length es
    placed : IsPlaced hash es'
    counted : total es' ≡ total es + length list
    reads : (q : Bytes) → view hash es' q ≡ or_else (find q list) (view hash es q)

  -- one element goes to the front of its bucket
  abbrev front : Elem → List Chain → List Chain
  front e es = set es (home hash es e.key) (e ∷ bucket hash es e.key)

  module _ (e : Elem) (es : List Chain) (pos : 0 < length es) (placed : IsPlaced hash es) where
    module _ (fresh : occurs e.key (bucket hash es e.key) ≡ 0) where
      occurs-front :
          (q : Bytes)
          → occurs q (bucket hash (front e es) q)
            ≡ (if same_key e.key q then 1 else 0) + occurs q (bucket hash es q)
      unfolding occurs
      occurs-front q = ground (
        arith,
        get_or-set es (home hash es e.key) (home hash es q) (e ∷ bucket hash es e.key) []
            (index_in_bounds hash es e.key pos),
        length-set es (home hash es e.key) (e ∷ bucket hash es e.key),
        same_key_iff e.key q,
      )

      front-Moved : Moved (e ∷ []) es (front e es)
      unfolding find occurs
      front-Moved =
          let c = e ∷ bucket hash es e.key in
          let here = index_in_bounds hash es e.key pos in
          let once : (q : Bytes) → occurs q c ≤ 1 =
            λ q. ground (arith, same_key_iff e.key q, placed q (home hash es e.key)) in
          let home_only : (q : Bytes) → home hash es q ≢ home hash es e.key → occurs q c ≡ 0 =
            λ q ne. ground (arith, same_key_iff e.key q, placed q (home hash es e.key)) in
          record {
            width = length-set es (home hash es e.key) c;
            placed = set-IsPlaced hash es pos placed e.key c once home_only;
            counted = omega (arith, total-set es (home hash es e.key) c here);
            reads = λ q. ground (
              arith,
              view-set hash es pos placed e.key c once home_only (some e.value) (λ p. refl) q,
            );
          }

  rehash_chain-Moved :
      (list : Chain) (es : List Chain)
      → 0 < length es
      → IsPlaced hash es
      → ((q : Bytes) → occurs q list + occurs q (bucket hash es q) ≤ 1)
      → Moved list es (rehash_chain hash (length es) list es)
  unfolding rehash_chain find occurs
  rehash_chain-Moved [] es pos placed few = record {
    width = refl;
    placed = placed;
    counted = omega arith;
    reads = λ q. refl;
  }
  rehash_chain-Moved (e ∷ list) es pos placed few =
      let fresh : occurs e.key (bucket hash es e.key) ≡ 0 =
        ground (arith, few e.key, same_key_iff e.key e.key) in
      let first = front-Moved e es pos placed fresh in
      let rest =
        rehash_chain-Moved list (front e es) (omega (arith, first.width)) first.placed
          (λ q. omega (arith, few q, occurs-front e es pos placed fresh q)) in
      let rest' : Moved list (front e es) (rehash_chain hash (length es) list (front e es)) =
        rw first.width at rest in
      record {
        width = rest'.width ∙ first.width;
        placed = rest'.placed;
        counted = omega (arith, rest'.counted, first.counted);
        reads = λ q. ground (arith, rest'.reads q, first.reads q, few q, find-absent q list);
      }

get_or-replicate : (n i : ℕ) → get_or (replicate {A = Chain} n []) i [] ≡ []
get_or-replicate zero i = refl
get_or-replicate (suc n) zero = refl
get_or-replicate (suc n) (suc i) = get_or-replicate n i

-- An array of empty buckets holds no element.
pub replicate-IsPlaced : (hash : Bytes → ℕ) (n : ℕ) → IsPlaced hash (replicate n [])
unfolding occurs
replicate-IsPlaced hash n q i = rw get_or-replicate (omega arith)

pub view-replicate : (hash : Bytes → ℕ) (n : ℕ) (q : Bytes) → view hash (replicate n []) q ≡ none
unfolding view find
view-replicate hash n q = rw get_or-replicate

pub total-replicate : (n : ℕ) → total (replicate n []) ≡ 0
unfolding total
total-replicate zero = refl
total-replicate (suc n) = omega (arith, total-replicate n)

-- `resize` doubles the array, keeps every element in its place, and keeps every lookup.
pub record Resized (hash : Bytes → ℕ) (tbl r : HashTable) : Type 0 where
  pub doubled : r.size ≡ tbl.size * 2
  pub same_count : r.n_elems ≡ tbl.n_elems
  pub width : length r.elems ≡ tbl.size * 2
  pub placed : IsPlaced hash r.elems
  pub counted : total r.elems ≡ total tbl.elems
  pub reads : (q : Bytes) → view hash r.elems q ≡ view hash tbl.elems q

-- Over buckets in order the list of all elements reads and counts as the table does.
entries-home :
    (hash : Bytes → ℕ) (es : List Chain) (q : Bytes)
    → IsPlaced hash es
    → (occurs q (entries es) ≤ 1) × (find q (entries es) ≡ view hash es q)
unfolding view
entries-home hash es q placed =
    let (counted, found) =
      entries_only q es (home hash es q) (λ i ne. (placed q i).1 (λ e. ne (sym e))) in
    (omega (arith, placed q (home hash es q)), found)

occurs-replicate :
    (hash : Bytes → ℕ) (n : ℕ) (q : Bytes) → occurs q (bucket hash (replicate n []) q) ≡ 0
unfolding occurs
occurs-replicate hash n q = rw get_or-replicate

module _ (hash : Bytes → ℕ) (tbl : HashTable) where
  module _ (pos : 0 < tbl.size) (fits : tbl.size < 2 ^ 62) where
    -- For a table of a size above 0 and below 2 ^ 62 in which each key occurs at most once and
    -- only in its own bucket, `resize` doubles the size, keeps the number of elements and the
    -- value that each key has, and places each key once and in its new bucket.
    pub resize-Resized : IsPlaced hash tbl.elems → Resized hash tbl (resize hash tbl)
    unfolding resize
    resize-Resized placed =
        let n = (tbl.size * 2) % 2 ^ 64 in
        let exact : n ≡ tbl.size * 2 = omega arith in
        let wide = length-replicate {A = Chain} n [] in
        let moved =
          rehash_chain-Moved hash (entries tbl.elems) (replicate n []) (omega (arith, wide))
            (replicate-IsPlaced hash n)
            (λ q. omega (arith, occurs-replicate hash n q, entries-home hash tbl.elems q placed)) in
        let moved' : Moved hash (entries tbl.elems) (replicate n [])
            (rehash_chain hash n (entries tbl.elems) (replicate n [])) =
          rw wide at moved in
        rw (rehash_all-entries hash n tbl.elems (replicate n [])) (record {
          doubled = exact;
          same_count = refl;
          width = omega (arith, moved'.width);
          placed = moved'.placed;
          counted = omega (arith, moved'.counted, total-replicate n, length-entries tbl.elems);
          reads = λ q. ground (
            arith,
            moved'.reads q,
            view-replicate hash n q,
            entries-home hash tbl.elems q placed,
          );
        })
