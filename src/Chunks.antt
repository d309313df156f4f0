-- ===== src/Chunks.antt =====
-- The chunks of an HTTP response, in `TCP_IP_and_Drgramms/ex7.c`: `get_chunk_len`, and the loop of
-- `get_http` that collects the body. `int` is taken to be unbounded.
pub mod First
pub mod News
use c_computer_networking.Prelude.{
  ℕ, zero, suc, ◌+◌, ◌-◌, ◌*◌, ◌^◌, Bool, true, false, Option, none, some, List, [], ◌∷◌, length,
  take, drop, get_or, ltb, leb, ◌==◌, if◌then◌else◌,
}
use c_computer_networking.Prelude.Int.{ℤ, pos, negsuc, sub_ℕ, ◌+ℤ◌, ◌*ℤ◌}
use c_computer_networking.Prelude.Outcome.{Outcome, ok, fault, out_of_bounds, ◌>>=◌}
use c_computer_networking.HashTable.Hash.{Bytes}
use c_computer_networking.Rpc.Film.{write_at}

-- the array `length`
abbrev pub digits_len : ℕ
digits_len = 10

-- The loop over `recv` with MSG_PEEK, from index `i`: how many bytes come before the carriage
-- return. By the call for index `i`, `arrived i` bytes have arrived; the array starts with zeros.
unfoldable pub peek_digits : (ℕ → ℕ) → Bytes → ℕ → ℕ → Outcome ℕ
peek_digits arrived input zero i = fault out_of_bounds
peek_digits arrived input (suc rounds) i =
    let c = if ltb i (arrived i) then get_or input i 0 else 0 in
    let rest = peek_digits arrived input rounds (suc i) in if c == 13 then ok i else rest

-- `convert[i]` for a byte, which is negative as a `char` from 128 on
abbrev pub convert : ℕ → ℤ
convert c = if leb c 57 then sub_ℕ c 48 else if leb c 127 then sub_ℕ c 87 else sub_ℕ c 304

-- the loop that adds the digits up
unfoldable pub add_digits : Bytes → ℤ
add_digits [] = pos 0
add_digits (c ∷ cs) = convert c *ℤ pos (16 ^ length cs) +ℤ add_digits cs

-- The length of a chunk, and what is left of the input behind the two bytes that end the line.
unfoldable pub get_chunk_len : (ℕ → ℕ) → Bytes → Outcome (ℤ × Bytes)
get_chunk_len arrived input = do
  n ← peek_digits arrived input digits_len 0
  (if leb (n + 2) digits_len
      then ok (add_digits (take n input), drop (n + 2) input)
      else fault out_of_bounds)

-- One turn of the loop for a chunk of `chunk_len` bytes: the buffer, and `peaked`. A negative length
-- is a huge one for `recv`.
abbrev pub receive_chunk : Bytes → ℕ → ℤ → Bytes → Outcome (Bytes × ℕ × Bytes)
receive_chunk buffer peaked (negsuc n) input = fault out_of_bounds
receive_chunk buffer peaked (pos n) input =
    if leb (peaked + length (take n input)) (length buffer)
    then ok (write_at buffer peaked (take n input), peaked + n, drop n input)
    else fault out_of_bounds

abbrev pub is_zero : ℤ → Bool
is_zero (pos n) = n == 0
is_zero (negsuc n) = false

-- The loop from its call number `k` of `get_chunk_len`, or `none` where the fuel does not suffice:
-- the buffer with the body, and the length of the body.
unfoldable pub receive_chunks :
    (ℕ → ℕ → ℕ) → ℕ → ℕ → Bytes → ℕ → Bytes → Option (Outcome (Bytes × ℕ))
receive_chunks arrived zero k buffer peaked input = none
receive_chunks arrived (suc fuel) k buffer peaked input = elim (get_chunk_len (arrived k) input) [
  | fault e ↦ some (fault e)
  | ok (chunk_len, input') ↦ elim (is_zero chunk_len) [
    | true ↦ some (ok (buffer, peaked))
    | false ↦ elim (receive_chunk buffer peaked chunk_len input') [
      | fault e ↦ some (fault e)
      | ok (buffer', peaked', input'') ↦ receive_chunks arrived fuel (k + 1) buffer' peaked' input''
    ]
  ]
]
