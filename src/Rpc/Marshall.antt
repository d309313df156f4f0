-- ===== src/Rpc/Marshall.antt =====
-- `marshall` and `set` of `client_malte.c`: the bytes that are sent for a key and a text of fields
-- between semicolons.
pub mod Sent
use c_computer_networking.Prelude.{
  ℕ, zero, suc, ◌+◌, ◌-◌, ◌*◌, ◌/◌, ◌%◌, ◌^◌, Bool, true, false, Option, none, some, List, [], ◌∷◌,
  ◌++◌, length, take, drop, replicate, ltb, leb, ◌==◌, if◌then◌else◌,
}
use c_computer_networking.Prelude.Outcome.{
  Outcome, ok, fault, assertion, null_pointer, out_of_bounds, ◌>>=◌, ◌>>◌, assert,
}
use c_computer_networking.HashTable.Hash.{Bytes}
use c_computer_networking.Rpc.Film.{word, write_at, packet}
use c_computer_networking.Rpc.Csv.{semicolon, strtok}

abbrev pub max_msg_len : ℕ
max_msg_len = 4096

-- the count of the semicolons
abbrev pub entries : Bytes → ℕ
entries [] = 0
entries (c ∷ s) = let rest = entries s in if c == semicolon then suc rest else rest

-- The array on the stack that a `memcpy` writes; a write past its end is a fault.
abbrev pub copy_in : Bytes → ℕ → Bytes → Outcome Bytes
copy_in buffer copied bytes =
    if leb (copied + length bytes) (length buffer)
    then ok (write_at buffer copied bytes)
    else fault out_of_bounds

-- The loop over the tokens, at most `rounds` of them. `copied` and `token_len` have 16 bits.
unfoldable pub copy_tokens : ℕ → Bytes → Bytes → ℕ → Outcome Bytes
copy_tokens zero s buffer copied = ok buffer
copy_tokens (suc rounds) s buffer copied = elim (strtok s) [
  | none ↦ ok buffer
  | some (token, s') ↦ do
    let token_len = length token % 2 ^ 16
    let next = (copied + 2) % 2 ^ 16
    buffer' ← copy_in buffer copied (word token_len)
    buffer'' ← copy_in buffer' next (take token_len token)
    copy_tokens rounds s' buffer'' ((next + token_len) % 2 ^ 16)
]

-- the value that is sent; a text of `n` bytes has at most `n` tokens
unfoldable pub marshall_value : Bytes → Outcome Bytes
marshall_value value =
    let value_len = (length value + 2 * (entries value + 1) - entries value) % 2 ^ 16 in
    copy_tokens (length value) value (replicate value_len 0) 0

-- `header` is the action and the transaction.
unfoldable pub marshall : ℕ → ℕ → Bytes → Bytes → Outcome Bytes
marshall action id key value = do
  let key_len = length key % 2 ^ 16
  let value_len = (length value + 2 * (entries value + 1) - entries value) % 2 ^ 16
  marshalled ← marshall_value value
  ok (packet action id key_len value_len (take key_len key) marshalled)

-- The bytes of a SET and `transaction_id` afterwards.
unfoldable pub set : ℕ → Bytes → Bytes → Outcome (Bytes × ℕ)
set transaction_id key value = do
  message ← marshall 2 transaction_id key value
  ok (message, (transaction_id + 1) % 2 ^ 8)

-- `strtok(NULL, "")`: all that is left, or NULL
abbrev pub remainder : Bytes → Option Bytes
remainder [] = none
remainder (c ∷ s) = some (c ∷ s)

-- a line of the file, with its newline; the texts are measured, so NULL is a fault
unfoldable pub set_line : ℕ → Bytes → Outcome (Bytes × ℕ)
set_line transaction_id line = assert (leb (length line) max_msg_len) >> elim (strtok line) [
  | none ↦ fault null_pointer
  | some (key, s) ↦ elim (remainder s) [
    | none ↦ fault null_pointer
    | some value ↦ set transaction_id key value
  ]
]

-- The messages for the lines of the file, in their order; a file that is not opened is `none`.
unfoldable pub set_lines : ℕ → List Bytes → Outcome (List Bytes)
set_lines transaction_id [] = ok []
set_lines transaction_id (line ∷ lines) = do
  (message, transaction_id') ← set_line transaction_id line
  messages ← set_lines transaction_id' lines
  ok (message ∷ messages)

unfoldable pub read_file : Option (List Bytes) → Outcome (List Bytes)
read_file none = fault null_pointer
read_file (some lines) = set_lines 0 lines
