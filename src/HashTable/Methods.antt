-- ===== src/HashTable/Methods.antt =====
-- The operations of hash_table.c against the dictionary that a table stands for: the invariant is
-- kept, every lookup is that of a function from keys to values, and `n_elems` counts the keys.
use c_computer_networking.Prelude.{
  ℕ, ◌+◌, ◌-◌, ◌*◌, ◌%◌, ◌^◌, ◌≤◌, ◌<◌, ◌≡◌, refl, ◌≢◌, sym, ◌∙◌, inl, inr, true, false, Option,
  none, some, [], ◌∷◌, arith, length, set, length-set, ltb, if◌then◌else◌, Option-cases, Bool-cases,
}
use c_computer_networking.HashTable.Hash.{Bytes}
use c_computer_networking.HashTable.Chain.{
  Chain, same_key, same_key_iff, find, assign, unlink, occurs, find-absent, assign-absent,
  assign-Rewritten, length-assign, unlink-absent, unlink-Rewritten, length-unlink,
}
use c_computer_networking.HashTable.Table.{
  Status, success, failure, HashTable, initial_size, ht_create, ht_get_value, resize, put_value,
  make_room, ht_set_value, ht_delete_key,
}
use c_computer_networking.HashTable.Placed.{
  total, total-set, bucket, home, view, IsPlaced, index_in_bounds, set-IsPlaced, view-set,
}
use c_computer_networking.HashTable.Resize.{
  replicate-IsPlaced, view-replicate, total-replicate, resize-Resized,
}

-- one for a key that is there
abbrev pub found : Option Bytes → ℕ
found none = 0
found (some v) = 1

found-find : (k : Bytes) (c : Chain) → occurs k c ≤ 1 → found (find k c) ≡ occurs k c
unfolding occurs find
found-find k [] h = refl
found-find k (e ∷ c) h = ground (arith, found-find k c, find-absent k c)

abbrev pub update : (Bytes → Option Bytes) → Bytes → Option Bytes → Bytes → Option Bytes
update f k v q = if same_key k q then v else f q

-- what `ht_get_value` answers for a value of the dictionary
abbrev pub answer : Option Bytes → Status × Option Bytes
answer none = (failure, none)
answer (some v) = (success, some v)

module _ (hash : Bytes → ℕ) where
  pub record IsValid (tbl : HashTable) : Type 0 where
    pub pos : initial_size ≤ tbl.size
    pub width : length tbl.elems ≡ tbl.size
    pub counted : total tbl.elems ≡ tbl.n_elems
    pub placed : IsPlaced hash tbl.elems

  -- no product of the load test wraps; memory holds far fewer elements
  abbrev pub Fits : HashTable → Type 0
  Fits tbl = (tbl.size < 2 ^ 62) × (tbl.n_elems < 2 ^ 62)

  -- the table is valid and means the dictionary `f`
  abbrev pub Models : (Bytes → Option Bytes) → HashTable → Type 0
  Models f tbl = IsValid tbl × ((q : Bytes) → view hash tbl.elems q ≡ f q)

  -- `ht_create` gives a valid table that holds no key.
  pub ht_create-Models : Models (λ q. none) ht_create
  unfolding ht_create
  ht_create-Models = (
    record {
      pos = omega arith;
      width = refl;
      counted = total-replicate 3;
      placed = replicate-IsPlaced hash 3;
    },
    view-replicate hash 3,
  )

  pub ht_get_value-view :
      (tbl : HashTable) (k : Bytes)
      → IsValid tbl
      → ht_get_value hash tbl k ≡ answer (view hash tbl.elems k)
  unfolding ht_get_value view
  ht_get_value-view tbl k valid = rw valid.width (ground arith)

  -- the effect of an operation that writes `v` at `k`
  pub record Writes (tbl : HashTable) (k : Bytes) (v : Option Bytes) (r : HashTable) : Type 0 where
    pub models : Models (update (view hash tbl.elems) k v) r
    pub counts : r.n_elems + found (view hash tbl.elems k) ≡ tbl.n_elems + found v

  -- a write of the chain `c` in the place of the bucket of `k`
  module _ (tbl : HashTable) (valid : IsValid tbl) (k : Bytes) where
    abbrev list : Chain
    list = bucket hash tbl.elems k

    abbrev slot : ℕ
    slot = home hash tbl.elems k

    pos_width : 0 < length tbl.elems
    pos_width = omega (arith, valid.pos, valid.width)

    -- The three ends of the walks, at the bucket of the key.
    put_value-assigned :
        (v : Bytes) (c : Chain)
        → assign k v list ≡ some c
        → put_value hash tbl k v ≡ record tbl { elems = set tbl.elems slot c }
    unfolding put_value
    put_value-assigned v c e = ground (arith, valid.width)

    put_value-new :
        (v : Bytes)
        → assign k v list ≡ none
        → put_value hash tbl k v ≡ record {
          size = tbl.size;
          n_elems = (tbl.n_elems + 1) % 2 ^ 64;
          elems = set tbl.elems slot (record { key = k; value = v } ∷ list);
        }
    unfolding put_value
    put_value-new v e = ground (arith, valid.width)

    ht_delete_key-unlinked :
        (c : Chain)
        → unlink k list ≡ some c
        → ht_delete_key hash tbl k ≡ (
          success,
          record {
            size = tbl.size;
            n_elems = (tbl.n_elems + 2 ^ 64 - 1) % 2 ^ 64;
            elems = set tbl.elems slot c;
          },
        )
    unfolding ht_delete_key
    ht_delete_key-unlinked c e = ground (arith, valid.width)

    ht_delete_key-absent : unlink k list ≡ none → ht_delete_key hash tbl k ≡ (failure, tbl)
    unfolding ht_delete_key
    ht_delete_key-absent e = ground (arith, valid.width)

    once_here : (q : Bytes) → occurs q list ≤ 1
    once_here q = (valid.placed q slot).0

    found-list : found (view hash tbl.elems k) ≡ occurs k list
    unfolding view
    found-list = found-find k list (once_here k)

    write_bucket :
        (v : Option Bytes) (c : Chain) (n : ℕ)
        → ((q : Bytes) → occurs q c ≤ (if same_key k q then 1 else occurs q list))
        → ((q : Bytes) → find q c ≡ (if same_key k q then v else find q list))
        → n + length list ≡ tbl.n_elems + length c
        → Models
            (update (view hash tbl.elems) k v)
            (record tbl { n_elems = n; elems = set tbl.elems slot c })
    write_bucket v c n few reads size =
        let once : (q : Bytes) → occurs q c ≤ 1 = λ q. ground (arith, few q, valid.placed q slot) in
        let home_only : (q : Bytes) → home hash tbl.elems q ≢ slot → occurs q c ≡ 0 =
          λ q ne. ground (arith, few q, valid.placed q slot, same_key_iff k q) in
        (
          record {
            pos = valid.pos;
            width = length-set tbl.elems slot c ∙ valid.width;
            counted = omega (
              arith,
              total-set tbl.elems slot c (index_in_bounds hash tbl.elems k pos_width),
              valid.counted,
            );
            placed = set-IsPlaced hash tbl.elems pos_width valid.placed k c once home_only;
          },
          view-set hash tbl.elems pos_width valid.placed k c once home_only v reads,
        )

    put_value-Writes :
        (v : Bytes) → tbl.n_elems < 2 ^ 62 → Writes tbl k (some v) (put_value hash tbl k v)
    unfolding find occurs
    put_value-Writes v fits = elim (Option-cases (assign k v list)) [
      | inr (c, e) ↦ rw (put_value-assigned v c e) (record {
        models =
            write_bucket (some v) c tbl.n_elems
              (λ q. ground (arith, assign-Rewritten k v list c q e, once_here q))
              (λ q. (assign-Rewritten k v list c q e).reads (once_here q))
              (omega (arith, length-assign k v list c e));
        counts = omega (arith, found-list, length-assign k v list c e, once_here k);
      })
      | inl e ↦
          let absent = assign-absent k v list e in
          rw (put_value-new v e) (record {
            models =
                write_bucket (some v) (record { key = k; value = v } ∷ list)
                  ((tbl.n_elems + 1) % 2 ^ 64) (λ q. ground (arith, absent, same_key_iff k q))
                  (λ q. refl) (omega arith);
            counts = omega (arith, found-list, absent);
          })
    ]

    unlink-found :
        (c : Chain) → unlink k list ≡ some c → (answer (view hash tbl.elems k)).0 ≡ success
    unfolding view
    unlink-found c e =
        ground (arith, found-list, length-unlink k list c e, found-find k list (once_here k))

    unlink-not_found : unlink k list ≡ none → view hash tbl.elems k ≡ none
    unfolding view
    unlink-not_found e = find-absent k list (unlink-absent k list e)

    -- On a valid table with a count below 2 ^ 62, `ht_delete_key` leaves a valid table whose
    -- dictionary lacks the key and is otherwise the same, lowers the count by one exactly if the
    -- key was there, and returns whether it was.
    pub ht_delete_key-Writes :
        tbl.n_elems < 2 ^ 62
        → Writes tbl k none (ht_delete_key hash tbl k).1
          × ((ht_delete_key hash tbl k).0 ≡ (answer (view hash tbl.elems k)).0)
    ht_delete_key-Writes fits = elim (Option-cases (unlink k list)) [
      | inr (c, e) ↦
          let shorter = length-unlink k list c e in
          let some_left =
            total-set tbl.elems slot [] (index_in_bounds hash tbl.elems k pos_width) in
          rw (ht_delete_key-unlinked c e) (
            record {
              models =
                  write_bucket none c ((tbl.n_elems + 2 ^ 64 - 1) % 2 ^ 64)
                    (λ q. ground (arith, unlink-Rewritten k list c q e, once_here q))
                    (λ q. (unlink-Rewritten k list c q e).reads (once_here q))
                    (omega (arith, valid.counted));
              counts = omega (arith, found-list, valid.counted, once_here k);
            },
            sym (unlink-found c e),
          )
      | inl e ↦
          let absent = unlink-not_found e in
          rw (ht_delete_key-absent e) (
            record {
              models = (valid, λ q. ground (arith, same_key_iff k q, absent));
              counts = rw absent;
            },
            rw absent,
          )
    ]

    -- The test of the load doubles the array or leaves it, and the dictionary stays.
    make_room-Models :
        Fits tbl
        → Models (view hash tbl.elems) (make_room hash tbl)
          × ((make_room hash tbl).n_elems ≡ tbl.n_elems)
          × ((make_room hash tbl).size
              ≡ (if ltb (3 * tbl.size) (4 * tbl.n_elems) then tbl.size * 2 else tbl.size))
    unfolding make_room
    make_room-Models fits =
        let bigger = resize-Resized hash tbl (omega (arith, valid.pos)) fits.0 valid.placed in
        let valid' : IsValid (resize hash tbl) = record {
          pos = omega (arith, valid.pos, bigger.doubled);
          width = omega (arith, bigger.width, bigger.doubled);
          counted = omega (arith, bigger.counted, bigger.same_count, valid.counted);
          placed = bigger.placed;
        } in
        elim (Bool-cases (ltb (3 * tbl.size) (4 * tbl.n_elems))) [
          | inl full ↦
              let wrapped : ltb ((3 * tbl.size) % 2 ^ 64) ((4 * tbl.n_elems) % 2 ^ 64) ≡ true =
                ground arith in
              rw (wrapped, full) ((valid', bigger.reads), bigger.same_count, bigger.doubled)
          | inr room ↦
              let wrapped : ltb ((3 * tbl.size) % 2 ^ 64) ((4 * tbl.n_elems) % 2 ^ 64) ≡ false =
                ground arith in
              rw (wrapped, room) ((valid, λ q. refl), refl, refl)
        ]

    pub size-put_value : (v : Bytes) → (put_value hash tbl k v).size ≡ tbl.size
    unfolding put_value
    size-put_value v = ground arith

    pub size-ht_delete_key : (ht_delete_key hash tbl k).1.size ≡ tbl.size
    unfolding ht_delete_key
    size-ht_delete_key = ground arith

  -- At most one element over three quarters of the buckets, whatever was deleted since.
  abbrev pub IsSparse : HashTable → Type 0
  IsSparse tbl = 4 * tbl.n_elems ≤ 3 * tbl.size + 4

  module _ (tbl : HashTable) (k v : Bytes) (valid : IsValid tbl) (fits : Fits tbl) where
    -- On a valid table with size and count below 2 ^ 62, `ht_set_value` leaves a valid table whose
    -- dictionary has the value at the key and is otherwise the same, and whose count grows by one
    -- exactly if the key was new.
    pub ht_set_value-Writes : Writes tbl k (some v) (ht_set_value hash tbl k v).1
    unfolding ht_set_value
    ht_set_value-Writes =
        let ((valid', same), count, size) = make_room-Models tbl valid k fits in
        let w = put_value-Writes (make_room hash tbl) valid' k v (omega arith) in
        record {
          models = (w.models.0, λ q. ground (arith, w.models.1 q, same q));
          counts = ground (arith, w.counts, same k);
        }

    pub size-ht_set_value :
        (ht_set_value hash tbl k v).1.size
        ≡ (if ltb (3 * tbl.size) (4 * tbl.n_elems) then tbl.size * 2 else tbl.size)
    unfolding ht_set_value
    size-ht_set_value =
        let ((valid', same), count, size) = make_room-Models tbl valid k fits in
        size-put_value (make_room hash tbl) valid' k v ∙ size

    -- On a valid table with size and count below 2 ^ 62, `ht_set_value` keeps the bound on the
    -- load: four times the count is at most three times the size plus four.
    pub ht_set_value-IsSparse : IsSparse tbl → IsSparse (ht_set_value hash tbl k v).1
    ht_set_value-IsSparse sparse =
        ground (arith, ht_set_value-Writes.counts, size-ht_set_value, valid.pos)
