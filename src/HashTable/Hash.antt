-- ===== src/HashTable/Hash.antt =====
-- `string_hash` of the two versions of hash_table.c. `Distributed Hash Table/hash_table.c` (and the
-- Onion copy) accumulates in a `size_t`, `Hash Table/hash_table.c` (and the Simple copy) in a
-- `uint16_t`. A `char` is signed, as in the x86 ABI of the linked libraries, so a byte from 128 on
-- is sign-extended by the conversion to `int`.
use c_computer_networking.Prelude.{
  ℕ, ◌+◌, ◌-◌, ◌*◌, ◌%◌, ◌^◌, ◌<◌, ◌≡◌, refl, List, [], ◌∷◌, arith, ltb, if◌then◌else◌,
}

abbrev pub Bytes : Type 0
Bytes = List ℕ

-- `(uintW_t) (int) (char) b`: a negative `char` becomes `modulus - 256 + b`.
sign_extend : ℕ → ℕ → ℕ
sign_extend modulus b = if ltb b 128 then b else modulus - 256 + b

-- `hash = ((hash << 5) + hash) + (size_t) c`
hash_step : ℕ → ℕ → ℕ → ℕ
unfolding sign_extend
hash_step modulus hash c = ((hash * 32) % modulus + hash + sign_extend modulus c) % modulus

hash_from : ℕ → ℕ → Bytes → ℕ
unfolding hash_step
hash_from modulus hash [] = hash
hash_from modulus hash (c ∷ str) = hash_from modulus (hash_step modulus hash c) str

-- the version over `size_t`
unfoldable pub string_hash : Bytes → ℕ
unfolding hash_from
string_hash str = hash_from (2 ^ 64) 5381 str

-- the version over `uint16_t`
unfoldable pub string_hash16 : Bytes → ℕ
unfolding hash_from
string_hash16 str = hash_from (2 ^ 16) 5381 str

hash_from-mod :
    (h g : ℕ) (str : Bytes)
    → h % 2 ^ 16 ≡ g
    → hash_from (2 ^ 64) h str % 2 ^ 16 ≡ hash_from (2 ^ 16) g str
unfolding hash_from
hash_from-mod h g [] e = e
hash_from-mod h g (c ∷ str) e =
    hash_from-mod (hash_step (2 ^ 64) h c) (hash_step (2 ^ 16) g c) str (ground arith)

-- The 16-bit hash of every string is its 64-bit hash modulo 2 ^ 16, so both versions of the
-- program place a key at the same point of the ring.
pub string_hash-mod : (str : Bytes) → string_hash str % 2 ^ 16 ≡ string_hash16 str
unfolding string_hash string_hash16
string_hash-mod str = hash_from-mod 5381 5381 str refl

hash_from-lt : (m h : ℕ) (str : Bytes) → 0 < m → h < m → hash_from m h str < m
unfolding hash_from
hash_from-lt m h [] p q = q
hash_from-lt m h (c ∷ str) p q = hash_from-lt m (hash_step m h c) str p (omega arith)

-- A hash fits its word.
pub string_hash-lt : (str : Bytes) → string_hash str < 2 ^ 64
unfolding string_hash string_hash16
string_hash-lt str = hash_from-lt (2 ^ 64) 5381 str (omega arith) (omega arith)

pub string_hash16-lt : (str : Bytes) → string_hash16 str < 2 ^ 16
unfolding string_hash16
string_hash16-lt str = hash_from-lt (2 ^ 16) 5381 str (omega arith) (omega arith)
