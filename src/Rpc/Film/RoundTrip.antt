-- ===== src/Rpc/Film/RoundTrip.antt =====
-- A film that fits is marshalled to the bytes of its fields, and taken out as it was put in.
use c_computer_networking.Prelude.{
  ℕ, zero, suc, ◌+◌, ◌%◌, ◌^◌, ◌≤◌, ◌<◌, ◌≡◌, refl, sym, ap, ◌∙◌, none, some, List, [], ◌∷◌, ◌++◌,
  append_assoc, append-nil, arith, length, length-append, take-append, take-all, drop, drop-append,
}
use c_computer_networking.Prelude.Outcome.{ok}
use c_computer_networking.HashTable.Hash.{Bytes}
use c_computer_networking.Dht.Request.{Request, build_response}
use c_computer_networking.Dht.Request.Codec.{word_bytes}
use c_computer_networking.Rpc.Film.{
  n_fields, word, write_at, write_fields, build_request, unmarshal_fields,
}

-- the bytes of the fields, each behind its length
abbrev pub marshalled : List Bytes → Bytes
marshalled [] = []
marshalled (field ∷ fields) = word (length field) ++ (field ++ marshalled fields)

drop-past : (xs : Bytes) (n : ℕ) → length xs ≤ n → drop n xs ≡ []
drop-past [] zero h = refl
drop-past [] (suc n) h = refl
drop-past (x ∷ xs) zero h = absurd (omega arith)
drop-past (x ∷ xs) (suc n) h = drop-past xs n (omega arith)

write_at-end : (xs ys : Bytes) → write_at xs (length xs) ys ≡ xs ++ ys
write_at-end xs ys =
    rw (take-all xs, drop-past xs (length xs + length ys) (omega arith), append-nil (xs ++ ys)) refl

pub write_fields-fits :
    (start : ℕ) (fields : List Bytes) (written : Bytes)
    → length written + length (marshalled fields) < 2 ^ 16
    → start < 2 ^ 17
    → write_fields start (length fields) fields written (length written)
      ≡ ok (written ++ marshalled fields, length (written ++ marshalled fields))
unfolding write_fields
write_fields-fits start [] written h small = rw (append-nil written) refl
write_fields-fits start (field ∷ fields) written h small =
    let w = word (length field) in
    let whole = length-append field (marshalled fields) in
    let once = write_at-end written w in
    let len1 = length-append written w in
    let twice = write_at-end (written ++ w) field in
    let len2 = length-append (written ++ w) field in
    let rest =
      write_fields-fits start fields (written ++ w ++ field) (omega (arith, whole, len1, len2, h))
        small in
    let assoc =
      append_assoc (written ++ w) field (marshalled fields)
      ∙ append_assoc written w (field ++ marshalled fields) in
    ground (arith, whole, once, len1, twice, len2, rest, assoc)

pub unmarshal_fields-marshalled :
    (fields : List Bytes)
    → length (marshalled fields) < 2 ^ 16
    → unmarshal_fields (length fields) (marshalled fields) ≡ ok fields
unfolding unmarshal_fields
unmarshal_fields-marshalled [] h = refl
unmarshal_fields-marshalled (field ∷ fields) h =
    let whole = length-append field (marshalled fields) in
    ground (
      arith,
      whole,
      word_bytes (length field) (omega (arith, whole, h)),
      take-append field (marshalled fields),
      drop-append field (marshalled fields),
      unmarshal_fields-marshalled fields (omega (arith, whole, h)),
    )

-- the request as a record, and the value that a call sends
abbrev pub request : ℕ → ℕ → Bytes → Bytes → Request
request action transaction_id key value = record {
  action = action;
  transaction_id = transaction_id;
  key = key;
  value = value;
}

pub build_request-no_value :
    (action transaction_id : ℕ) (key : Bytes)
    → length key < 2 ^ 16
    → build_request action transaction_id key none
      ≡ ok (build_response (request action transaction_id key []))
unfolding build_request build_response
build_request-no_value action transaction_id key fits = ground (arith, take-all key)

pub build_request-fields :
    (action transaction_id : ℕ) (key : Bytes) (fields : List Bytes)
    → length key < 2 ^ 16
    → length fields ≡ n_fields
    → length (marshalled fields) < 2 ^ 16
    → build_request action transaction_id key (some fields)
      ≡ ok (build_response (request action transaction_id key (marshalled fields)))
unfolding build_request build_response
build_request-fields action transaction_id key fields fits five few =
    let written =
      ap (λ n. write_fields (6 + length key % 2 ^ 16) n fields [] 0) (sym five)
      ∙ write_fields-fits (6 + length key % 2 ^ 16) fields [] (omega (arith, few)) (omega arith) in
    ground (arith, take-all key, written, take-all (marshalled fields))
