-- ===== src/Rpc/Marshall/Sent.antt =====
-- The value that `marshall` builds: the tokens behind their lengths, and zeros to the length that is
-- sent. With no empty field it is what the other client sends.
use c_computer_networking.Prelude.{
  ℕ, zero, suc, ◌+◌, ◌-◌, ◌*◌, ◌%◌, ◌^◌, ◌≤◌, ◌<◌, ◌≡◌, refl, ap, ◌∙◌, inl, inr, some, List, [],
  ◌∷◌, ◌++◌, append_assoc, append-nil, arith, length, length-append, length-replicate, take-append,
  take-all, drop, replicate, ◌==◌, Bool-cases, Option-cases,
}
use c_computer_networking.Prelude.Outcome.{ok}
use c_computer_networking.HashTable.Hash.{Bytes}
use c_computer_networking.Rpc.Film.{n_fields, word, build_request}
use c_computer_networking.Dht.Request.{set_bit, build_response}
use c_computer_networking.Rpc.Film.RoundTrip.{marshalled, request, build_request-fields}
use c_computer_networking.Rpc.Csv.{semicolon, cut, strtok}
use c_computer_networking.Rpc.Csv.Tokens.{
  to_first, parts_of, parts_of-cut, non_empty, strtok-parts, strtok-shrinks,
}
use c_computer_networking.Rpc.Marshall.{
  max_msg_len, entries, copy_in, copy_tokens, marshall_value, marshall, set,
}

-- the tokens of a text
abbrev pub tokens : Bytes → List Bytes
tokens s = non_empty (parts_of s)

length-to_first :
    (c : ℕ) (part : Bytes) (parts : List Bytes)
    → length (marshalled (to_first c (part ∷ parts))) ≡ suc (length (marshalled (part ∷ parts)))
length-to_first c part parts = omega arith

length-parts_of : (s : Bytes) → length (marshalled (parts_of s)) ≡ length s + entries s + 2
length-parts_of [] = omega arith
length-parts_of (c ∷ s) = elim (Bool-cases (c == semicolon)) [
  | inl stop ↦ ground (arith, length-parts_of s)
  | inr go ↦
      let (parts, e, same) = parts_of-cut s in
      ground (arith, e, length-parts_of s, length-to_first c (cut s).0 parts)
]

length-non_empty : (ps : List Bytes) → length (marshalled (non_empty ps)) ≤ length (marshalled ps)
length-non_empty [] = omega arith
length-non_empty ([] ∷ ps) = omega (arith, length-non_empty ps)
length-non_empty ((c ∷ p) ∷ ps) = omega (
  arith,
  length-non_empty ps,
  length-append p (marshalled ps),
  length-append p (marshalled (non_empty ps)),
)

abbrev pub zeros : ℕ → Bytes
zeros k = replicate k 0

drop-zeros : (i n : ℕ) → drop i (zeros n) ≡ zeros (n - i)
drop-zeros zero n = ground arith
drop-zeros (suc i) zero = ground arith
drop-zeros (suc i) (suc n) = ground (arith, drop-zeros i n)

length-zeros : (n : ℕ) → length (zeros n) ≡ n
length-zeros n = length-replicate {A = ℕ} n 0

drop-more : (xs ys : Bytes) (n m : ℕ) → m ≡ length xs + n → drop m (xs ++ ys) ≡ drop n ys
drop-more [] ys n m e = ap (λ k. drop k ys) (omega arith)
drop-more (x ∷ xs) ys n zero e = absurd (omega arith)
drop-more (x ∷ xs) ys n (suc m) e = drop-more xs ys n m (omega arith)

-- a write over the zeros behind what is done
write_at-zeros :
    (done bytes : Bytes) (k : ℕ)
    → length bytes ≤ k
    → copy_in (done ++ zeros k) (length done) bytes ≡ ok (done ++ bytes ++ zeros (k - length bytes))
write_at-zeros done bytes k fits = ground (
  arith,
  take-append done (zeros k),
  drop-more done (zeros k) (length bytes) (length done + length bytes) refl,
  drop-zeros (length bytes) k,
  length-append done (zeros k),
  length-zeros k,
)

-- one turn of the loop
copy_tokens-turn :
    (rounds : ℕ) (s token s' done : Bytes) (k : ℕ)
    → strtok s ≡ some (token, s')
    → length token + 2 ≤ k
    → length done + k < 2 ^ 16
    → let done' = done ++ word (length token) ++ token in
      copy_tokens (suc rounds) s (done ++ zeros k) (length done)
      ≡ copy_tokens rounds s' (done' ++ zeros (k - 2 - length token)) (length done')
unfolding copy_tokens
copy_tokens-turn rounds s token s' done k e fits few =
    let w = word (length token) in
    let once = write_at-zeros done w k (omega arith) in
    let twice = write_at-zeros (done ++ w) token (k - 2) (omega arith) in
    ground
      (arith, e, once, twice, length-append done w, length-append (done ++ w) token, take-all token)

copy_tokens-copies :
    (rounds : ℕ) (s done : Bytes) (k : ℕ)
    → length s ≤ rounds
    → length (marshalled (tokens s)) ≤ k
    → length done + k < 2 ^ 16
    → copy_tokens rounds s (done ++ zeros k) (length done)
      ≡ ok (done ++ marshalled (tokens s) ++ zeros (k - length (marshalled (tokens s))))
unfolding copy_tokens
copy_tokens-copies zero [] done k short room few = ground (arith, append-nil done)
copy_tokens-copies zero (c ∷ s) done k short room few = absurd (omega arith)
copy_tokens-copies (suc rounds) s done k short room few = elim (Option-cases (strtok s)) [
  | inl e ↦ ground (arith, strtok-parts s, e, append-nil done)
  | inr ((token, s'), e) ↦
      let toks : tokens s ≡ token ∷ tokens s' = ground (arith, strtok-parts s, e) in
      let size = ap (λ ts. length (marshalled ts)) toks in
      let whole = length-append token (marshalled (tokens s')) in
      let w = word (length token) in
      let done' = done ++ w ++ token in
      let longer = length-append (done ++ w) token in
      let longer' = length-append done w in
      let rest =
        copy_tokens-copies rounds s' done' (k - 2 - length token)
          (omega (arith, strtok-shrinks s token s' e)) (omega (arith, size, whole))
          (omega (arith, size, whole, longer, longer')) in
      let assoc =
        append_assoc (done ++ w) token (marshalled (tokens s'))
        ∙ append_assoc done w (token ++ marshalled (tokens s')) in
      copy_tokens-turn rounds s token s' done k e (omega (arith, size, whole)) few
      ∙ rest
      ∙ ground (arith, toks, assoc, whole, size)
]

entries-below : (s : Bytes) → entries s ≤ length s
entries-below [] = omega arith
entries-below (c ∷ s) = ground (arith, entries-below s)

-- the bytes that are sent behind the tokens
abbrev pub surplus : Bytes → ℕ
surplus value = length value + entries value + 2 - length (marshalled (tokens value))

tokens-fit : (s : Bytes) → length (marshalled (tokens s)) ≤ length s + entries s + 2
tokens-fit s = omega (arith, length-non_empty (parts_of s), length-parts_of s)

-- For a text of at most 4096 bytes the array is not left: it holds the tokens behind their
-- lengths, and zeros behind them.
pub marshall_value-marshalled :
    (value : Bytes)
    → length value ≤ max_msg_len
    → marshall_value value ≡ ok (marshalled (tokens value) ++ zeros (surplus value))
unfolding marshall_value
marshall_value-marshalled value short =
    let len : (length value + 2 * (entries value + 1) - entries value) % 2 ^ 16
        ≡ length value + entries value + 2 =
      omega (arith, entries-below value) in
    rw len (
      copy_tokens-copies (length value) value [] (length value + entries value + 2) (omega arith)
        (tokens-fit value) (omega (arith, entries-below value)))

no_surplus : (value : Bytes) → tokens value ≡ parts_of value → surplus value ≡ 0
no_surplus value e = omega (arith, ap (λ ts. length (marshalled ts)) e, length-parts_of value)

-- For a key of less than 2 ^ 16 bytes and a text of at most 4096 bytes with five fields, none of
-- them empty, the client of the root directory sends the same bytes as the client of the movie
-- parser for these fields, and counts up its transaction.
pub set-build_request :
    (transaction_id : ℕ) (key value : Bytes)
    → length key < 2 ^ 16
    → length value ≤ max_msg_len
    → tokens value ≡ parts_of value
    → length (tokens value) ≡ n_fields
    → (bytes : Bytes) × (set transaction_id key value ≡ ok (bytes, (transaction_id + 1) % 2 ^ 8))
      × (build_request (2 ^ set_bit) transaction_id key (some (tokens value)) ≡ ok bytes)
unfolding set marshall build_response
set-build_request transaction_id key value fits short full five =
    let none_left = no_surplus value full in
    let few : length (marshalled (tokens value)) < 2 ^ 16 =
      omega (arith, tokens-fit value, entries-below value) in
    let exact : length (marshalled (tokens value)) ≡ length value + entries value + 2 =
      omega (arith, tokens-fit value, none_left) in
    (
      build_response (request 2 transaction_id key (marshalled (tokens value))),
      ground (
        arith,
        marshall_value-marshalled value short,
        none_left,
        exact,
        entries-below value,
        take-all key,
        append-nil (marshalled (tokens value)),
      ),
      build_request-fields (2 ^ set_bit) transaction_id key (tokens value) fits five few,
    )
