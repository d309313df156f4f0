-- ===== src/Chunks/First.antt =====
-- The length of a chunk is read as it was written; the loop ends after the first chunk.
use c_computer_networking.Prelude.{
  ℕ, zero, suc, ◌+◌, ◌-◌, ◌*◌, ◌^◌, ◌≤◌, ◌<◌, ◌≡◌, ◌≢◌, refl, ap, ◌∙◌, inl, inr, Bool, true, ◌&&◌,
  ◌||◌, some, [], ◌∷◌, ◌++◌, arith, length, length-drop, take-append, drop, drop-append, get_or,
  leb, if◌then◌else◌, Bool-cases,
}
use native.Mathlib.Nat.{pow-suc}
use c_computer_networking.Prelude.Int.{ℤ, pos, negsuc, ◌+ℤ◌, ◌*ℤ◌}
use c_computer_networking.Prelude.Outcome.{Outcome, ok, fault, >>=-eq-ok, Outcome-cases}
use c_computer_networking.HashTable.Hash.{Bytes}
use c_computer_networking.Rpc.Film.{write_at}
use c_computer_networking.Chunks.{
  digits_len, peek_digits, add_digits, get_chunk_len, receive_chunk, is_zero, receive_chunks,
}

-- the digits of a hexadecimal number, in lower case
abbrev pub is_hex : ℕ → Bool
is_hex c = (leb 48 c && leb c 57) || (leb 97 c && leb c 102)

abbrev pub all_hex : Bytes → Bool
all_hex [] = true
all_hex (c ∷ cs) = is_hex c && all_hex cs

abbrev pub hex_digit : ℕ → ℕ
hex_digit c = if leb c 57 then c - 48 else c - 87

-- the number, from its first digit on
abbrev pub hex_value : ℕ → Bytes → ℕ
hex_value n [] = n
hex_value n (c ∷ cs) = hex_value (16 * n + hex_digit c) cs

weighed : Bytes → ℕ
weighed [] = 0
weighed (c ∷ cs) = hex_digit c * 16 ^ length cs + weighed cs

shifted : (n d p : ℕ) → (16 * n + d) * p ≡ n * (p * 16) + d * p
shifted n d p = grind arith

hex_value-weighed : (n : ℕ) (cs : Bytes) → hex_value n cs ≡ n * 16 ^ length cs + weighed cs
unfolding weighed
hex_value-weighed n [] = omega arith
hex_value-weighed n (c ∷ cs) =
    let p = 16 ^ length cs in
    let step = shifted n (hex_digit c) p in
    let e = hex_value-weighed (16 * n + hex_digit c) cs in
    let power = pow-suc 16 (length cs) in rw power (omega (arith, e, step))

add_digits-weighed : (cs : Bytes) → all_hex cs ≡ true → add_digits cs ≡ pos (weighed cs)
unfolding add_digits weighed ◌+ℤ◌ ◌*ℤ◌
add_digits-weighed [] h = refl
add_digits-weighed (c ∷ cs) h = grind (arith, add_digits-weighed cs)

get_or-drop : (i : ℕ) (xs : Bytes) → get_or xs i 0 ≡ get_or (drop i xs) 0 0
get_or-drop zero xs = refl
get_or-drop (suc i) [] = refl
get_or-drop (suc i) (x ∷ xs) = get_or-drop i xs

drop-suc : (i : ℕ) (xs : Bytes) → drop (suc i) xs ≡ drop 1 (drop i xs)
drop-suc zero [] = refl
drop-suc zero (x ∷ xs) = refl
drop-suc (suc i) [] = refl
drop-suc (suc i) (x ∷ xs) = drop-suc i xs

drop_behind :
    (ds : Bytes) (n : ℕ) (rest : Bytes) → n ≡ length ds + 2 → drop n (ds ++ 13 ∷ 10 ∷ rest) ≡ rest
drop_behind [] zero rest e = absurd (omega arith)
drop_behind [] (suc zero) rest e = absurd (omega arith)
drop_behind [] (suc (suc zero)) rest e = refl
drop_behind [] (suc (suc (suc n))) rest e = absurd (omega arith)
drop_behind (d ∷ ds) zero rest e = absurd (omega arith)
drop_behind (d ∷ ds) (suc n) rest e = drop_behind ds n rest (omega arith)

drop_line : (ds rest : Bytes) → drop (length ds + 2) (ds ++ 13 ∷ 10 ∷ rest) ≡ rest
drop_line ds rest = drop_behind ds (length ds + 2) rest (omega arith)

module _ (arrived : ℕ → ℕ) (prompt : (i : ℕ) → i < arrived i) where
  peek_digits-hex :
      (input ds rest : Bytes) (rounds i : ℕ)
      → drop i input ≡ ds ++ 13 ∷ rest
      → all_hex ds ≡ true
      → length ds < rounds
      → peek_digits arrived input rounds i ≡ ok (i + length ds)
  unfolding peek_digits
  peek_digits-hex input ds rest zero i e hex room = absurd (omega arith)
  peek_digits-hex input [] rest (suc rounds) i e hex room =
      ground (arith, prompt i, get_or-drop i input ∙ ap (λ xs. get_or xs 0 0) e)
  peek_digits-hex input (c ∷ ds) rest (suc rounds) i e hex room =
      let next : drop (suc i) input ≡ ds ++ 13 ∷ rest = drop-suc i input ∙ ap (drop 1) e in
      ground (
        arith,
        prompt i,
        get_or-drop i input ∙ ap (λ xs. get_or xs 0 0) e,
        peek_digits-hex input ds rest rounds (suc i) next (ground arith) (omega arith),
      )

  -- If the bytes have arrived when they are peeked at, a line of at most eight hexadecimal digits
  -- in lower case is read as the number that they are, and what follows the line is left.
  pub get_chunk_len-hex :
      (ds rest : Bytes)
      → all_hex ds ≡ true
      → length ds ≤ 8
      → get_chunk_len arrived (ds ++ 13 ∷ 10 ∷ rest) ≡ ok (pos (hex_value 0 ds), rest)
  unfolding get_chunk_len
  get_chunk_len-hex ds rest hex short =
      let input = ds ++ 13 ∷ 10 ∷ rest in
      let peeked = peek_digits-hex input ds (10 ∷ rest) digits_len 0 refl hex (omega arith) in
      let same : weighed ds ≡ hex_value 0 ds = omega (arith, hex_value-weighed 0 ds) in
      let value = add_digits-weighed ds hex ∙ ap pos same in
      ground (arith, peeked, take-append ds (13 ∷ 10 ∷ rest), drop_line ds rest, value)

module _ (arrived : ℕ → ℕ → ℕ) (prompt : (k i : ℕ) → i < arrived k i) where
  -- If the bytes have arrived when they are peeked at, a chunk that is not empty, fits the buffer
  -- and has its length in at most eight hexadecimal digits before it is the only one that the loop
  -- takes: the line end behind it is read as a chunk of length zero, whatever comes after.
  pub receive_chunks-first :
      (fuel k : ℕ) (buffer ds chunk rest : Bytes)
      → all_hex ds ≡ true
      → length ds ≤ 8
      → hex_value 0 ds ≡ length chunk
      → length chunk ≢ 0
      → length chunk ≤ length buffer
      → receive_chunks arrived
          (suc (suc fuel))
          k
          buffer
          0
          (ds ++ 13 ∷ 10 ∷ (chunk ++ 13 ∷ 10 ∷ rest))
        ≡ some (ok (write_at buffer 0 chunk, length chunk))
  unfolding receive_chunks
  receive_chunks-first fuel k buffer ds chunk rest hex short len some_data room =
      let first = get_chunk_len-hex (arrived k) (prompt k) ds (chunk ++ 13 ∷ 10 ∷ rest) hex short in
      let second =
        get_chunk_len-hex (arrived (k + 1)) (prompt (k + 1)) [] rest refl (omega arith) in
      ground (
        arith,
        first,
        second,
        len,
        take-append chunk (13 ∷ 10 ∷ rest),
        drop-append chunk (13 ∷ 10 ∷ rest),
      )

-- What `get_chunk_len` leaves is shorter than what it was given.
peek_digits-inside :
    (arrived : ℕ → ℕ) (input : Bytes) (rounds i n : ℕ)
    → peek_digits arrived input rounds i ≡ ok n
    → get_or input n 0 ≡ 13
unfolding peek_digits
peek_digits-inside arrived input zero i n e = cc
peek_digits-inside arrived input (suc rounds) i n e =
    ground (arith, peek_digits-inside arrived input rounds (suc i) n)

inside-length : (xs : Bytes) (n : ℕ) → get_or xs n 0 ≡ 13 → n < length xs
inside-length [] n e = absurd (omega arith)
inside-length (x ∷ xs) zero e = omega arith
inside-length (x ∷ xs) (suc n) e = omega (arith, inside-length xs n e)

get_chunk_len-shrinks :
    (arrived : ℕ → ℕ) (input rest : Bytes) (chunk_len : ℤ)
    → get_chunk_len arrived input ≡ ok (chunk_len, rest)
    → length rest < length input
unfolding get_chunk_len
get_chunk_len-shrinks arrived input rest chunk_len e =
    let (n, peeked, left) = >>=-eq-ok (peek_digits arrived input digits_len 0) _ _ e in
    let inside = inside-length input n (peek_digits-inside arrived input digits_len 0 n peeked) in
    ground (arith, inside, length-drop (n + 2) input)

receive_chunk-keeps :
    (buffer buffer' input input' : Bytes) (peaked peaked' : ℕ) (chunk_len : ℤ)
    → receive_chunk buffer peaked chunk_len input ≡ ok (buffer', peaked', input')
    → length input' ≤ length input
receive_chunk-keeps buffer buffer' input input' peaked peaked' (negsuc n) e = cc
receive_chunk-keeps buffer buffer' input input' peaked peaked' (pos n) e =
    ground (arith, length-drop n input)

-- With fuel above the length of the input, the loop over the chunks ends, with a body or with a
-- fault.
pub receive_chunks-returns :
    (arrived : ℕ → ℕ → ℕ) (fuel k : ℕ) (buffer : Bytes) (peaked : ℕ) (input : Bytes)
    → length input < fuel
    → (result : Outcome (Bytes × ℕ)) × (receive_chunks arrived fuel k buffer peaked input
        ≡ some result)
unfolding receive_chunks
receive_chunks-returns arrived zero k buffer peaked input h = absurd (omega arith)
receive_chunks-returns arrived (suc fuel) k buffer peaked input h =
    elim (Outcome-cases (get_chunk_len (arrived k) input)) [
      | inr (e, stop) ↦ (fault e, ground (arith, stop))
      | inl ((chunk_len, input'), got) ↦ elim (Bool-cases (is_zero chunk_len)) [
        | inl last ↦ (ok (buffer, peaked), ground (arith, got, last))
        | inr more ↦ elim (Outcome-cases (receive_chunk buffer peaked chunk_len input')) [
          | inr (e, stop) ↦ (fault e, ground (arith, got, more, stop))
          | inl ((buffer', peaked', input''), taken) ↦
              let shorter = get_chunk_len-shrinks (arrived k) input input' chunk_len got in
              let kept =
                receive_chunk-keeps buffer buffer' input' input'' peaked peaked' chunk_len taken in
              let (result, e) =
                receive_chunks-returns arrived fuel (k + 1) buffer' peaked' input''
                  (omega (arith, shorter, kept)) in
              (result, ground (arith, got, more, taken, e))
        ]
      ]
    ]
