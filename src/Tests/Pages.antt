-- ===== src/Tests/Pages.antt =====
-- A response in two chunks.
pub mod News
use c_computer_networking.Prelude.{ℕ, suc, ◌≡◌, ◌<◌, refl, some, [], ◌∷◌, ◌++◌, arith, replicate}
use c_computer_networking.Prelude.Int.{pos}
use c_computer_networking.Prelude.Outcome.{Outcome, ok}
use c_computer_networking.HashTable.Hash.{Bytes}
use c_computer_networking.Movies.Text.{codes}
use c_computer_networking.Rpc.Film.{write_at}
use c_computer_networking.Chunks.{get_chunk_len, receive_chunks}
use c_computer_networking.Chunks.First.{
  hex_value, get_chunk_len-hex, receive_chunks-first, receive_chunks-returns,
}

-- all the bytes are there at once
abbrev arrived : ℕ → ℕ
arrived i = suc i

prompt : (i : ℕ) → i < arrived i
prompt i = omega arith

-- "a", ten bytes, and a second chunk
abbrev ten : Bytes
ten = codes "0123456789"

abbrev second : Bytes
second = codes "3" ++ 13 ∷ 10 ∷ (codes "abc" ++ 13 ∷ 10 ∷ codes "0" ++ 13 ∷ 10 ∷ [])

abbrev response : Bytes
response = codes "a" ++ 13 ∷ 10 ∷ (ten ++ 13 ∷ 10 ∷ second)

abbrev buffer : Bytes
buffer = replicate 12 0

get_chunk_len-hex_test :
    get_chunk_len arrived (codes "1f" ++ 13 ∷ 10 ∷ ten) ≡ ok (pos (hex_value 0 (codes "1f")), ten)
get_chunk_len-hex_test = get_chunk_len-hex arrived prompt (codes "1f") ten refl (omega arith)

hex_value_test : hex_value 0 (codes "1f") ≡ 31
hex_value_test = refl

receive_chunks-first_example :
    receive_chunks (λ k. arrived) 5 0 buffer 0 response ≡ some (ok (write_at buffer 0 ten, 10))
receive_chunks-first_example =
    receive_chunks-first (λ k. arrived) (λ k. prompt) 3 0 buffer (codes "a") ten second refl
      (omega arith) refl (omega arith) (omega arith)

receive_chunks-returns_test :
    (result : Outcome (Bytes × ℕ)) × (receive_chunks (λ k. arrived) 40 0 buffer 0 response
      ≡ some result)
receive_chunks-returns_test =
    receive_chunks-returns (λ k. arrived) 40 0 buffer 0 response (omega arith)
