-- ===== src/Rpc/Film.antt =====
-- The requests of `Movie Parser/client.c`: `build_request`, and the part of `perform_action` that
-- takes a film out of a response.
pub mod RoundTrip
use c_computer_networking.Prelude.{
  ℕ, zero, suc, ◌+◌, ◌*◌, ◌/◌, ◌%◌, ◌^◌, Option, none, some, List, [], ◌∷◌, ◌++◌, length, take,
  drop, ltb, leb, if◌then◌else◌,
}
use c_computer_networking.Prelude.Outcome.{Outcome, ok, fault, out_of_bounds, ◌>>=◌, ◌>>◌}
use c_computer_networking.HashTable.Hash.{Bytes}
use c_computer_networking.Dht.Wire.{read16}

-- `N_FIELDS`
abbrev pub n_fields : ℕ
n_fields = 5

-- `MAX_REQUEST_LEN`: the macros are not in parentheses, so `(6 + 2*1 << 16)` shifts the sum.
abbrev pub max_request_len : ℕ
max_request_len = (6 + 2 * 1) * 2 ^ 16

-- `film`
pub record Film : Type 0 where
  pub title : Bytes
  pub fields : List Bytes

-- two bytes of a number, as `htons` and `memcpy` leave them
abbrev pub word : ℕ → Bytes
word n = (n / 256 % 256) ∷ (n % 256) ∷ []

-- a `memcpy` to the offset `i` of a buffer that holds `written` so far
abbrev pub write_at : Bytes → ℕ → Bytes → Bytes
write_at written i bytes = take i written ++ bytes ++ drop (i + length bytes) written

-- The loop over the fields. The offset in the value, `value_len`, has 16 bits; `start` is where the
-- value starts in the request, which has `max_request_len` bytes.
unfoldable pub write_fields : ℕ → ℕ → List Bytes → Bytes → ℕ → Outcome (Bytes × ℕ)
write_fields start zero val written value_len = ok (written, value_len)
write_fields start (suc rounds) [] written value_len = fault out_of_bounds
write_fields start (suc rounds) (field ∷ val) written value_len =
    let next = (value_len + 2) % 2 ^ 16 in
    let written' = write_at (write_at written value_len (word (length field))) next field in
    let rest = write_fields start rounds val written' ((next + length field) % 2 ^ 16) in
    if leb (start + value_len + 2) max_request_len
    then (if leb (start + next + length field) max_request_len then rest else fault out_of_bounds)
    else fault out_of_bounds

-- `htons` of the two lengths between the action with the transaction and the key with the value
abbrev pub packet : ℕ → ℕ → ℕ → ℕ → Bytes → Bytes → Bytes
packet action transaction_id key_len value_len key value =
    action ∷ transaction_id ∷ (word key_len ++ word value_len ++ key ++ value)

-- `val` is NULL for `none`.
unfoldable pub build_request : ℕ → ℕ → Bytes → Option (List Bytes) → Outcome Bytes
build_request action transaction_id key val =
    let key_len = length key % 2 ^ 16 in
    elim val [
      | none ↦ ok (packet action transaction_id key_len 0 (take key_len key) [])
      | some fields ↦ do
        (written, value_len) ← write_fields (6 + key_len) n_fields fields [] 0
        ok (
            packet action transaction_id key_len value_len (take key_len key)
              (take value_len written))
    ]

-- The fields out of `val_buffer`; a read behind its end is a fault.
unfoldable pub unmarshal_fields : ℕ → Bytes → Outcome (List Bytes)
unmarshal_fields zero val = ok []
unmarshal_fields (suc rounds) val =
    let field_len = read16 val 0 in
    let rest = unmarshal_fields rounds (drop (2 + field_len) val) in
    if leb (2 + field_len) (length val)
    then (do fields ← rest; ok (take field_len (drop 2 val) ∷ fields))
    else fault out_of_bounds
