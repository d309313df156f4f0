-- ===== src/Dht/Request/Codec.antt =====
-- The bytes of a response of `Hash Table/server.c`: they are read back, and what a forward makes of
-- them.
use c_computer_networking.Prelude.{
  ℕ, zero, suc, ◌+◌, ◌*◌, ◌/◌, ◌%◌, ◌^◌, ◌≤◌, ◌<◌, ◌≡◌, refl, ap, false, Option, none, some, [],
  ◌∷◌, ◌++◌, arith, length, length-append, take, take-append, take-all, drop, drop-append, get_or,
  ltb, if◌then◌else◌,
}
use c_computer_networking.Prelude.Outcome.{ok}
use c_computer_networking.HashTable.Hash.{Bytes}
use c_computer_networking.Dht.Wire.{has_bit, internal_bit, read16}
use c_computer_networking.Dht.Request.{
  Request, ext_header_len, receive_over, claimed_len, read_request, build_response, relay,
}

pub receive_over-all :
    (stale : ℕ → ℕ) (i : ℕ) (xs : Bytes) → receive_over stale i (length xs) xs ≡ xs
receive_over-all stale i [] = refl
receive_over-all stale i (x ∷ xs) = ap (λ r. x ∷ r) (receive_over-all stale (suc i) xs)

pub receive_over-prefix :
    (stale : ℕ → ℕ) (i : ℕ) (xs ys : Bytes) → receive_over stale i (length xs) (xs ++ ys) ≡ xs
receive_over-prefix stale i [] ys = refl
receive_over-prefix stale i (x ∷ xs) ys = ap (λ r. x ∷ r) (receive_over-prefix stale (suc i) xs ys)

-- the key and the value have lengths of 16 bits
pub record IsRequest (r : Request) : Type 0 where
  pub key_fits : length r.key < 2 ^ 16
  pub value_fits : length r.value < 2 ^ 16

pub claimed_len-build_response :
    (r : Request) → IsRequest r → claimed_len (build_response r) ≡ length (build_response r)
unfolding build_response
claimed_len-build_response r h =
    omega (arith, length-append r.key r.value, h.key_fits, h.value_fits)

-- two bytes with the high one first
pub word_bytes : (n : ℕ) → n < 2 ^ 16 → n / 256 % 256 * 256 + n % 256 ≡ n
word_bytes n h = omega arith

-- `read_request` on a datagram as long as it claims
abbrev taken_apart : Bytes → Option Request
taken_apart msg =
    if ltb (length msg) ext_header_len
    then none
    else some (record {
      action = get_or msg 0 0;
      transaction_id = get_or msg 1 0;
      key = take (read16 msg 2) (drop ext_header_len msg);
      value = take (read16 msg 4) (drop (read16 msg 2) (drop ext_header_len msg));
    })

taken_apart-build_response : (r : Request) → IsRequest r → taken_apart (build_response r) ≡ some r
unfolding build_response
taken_apart-build_response r h =
    rw
      (
        word_bytes (length r.key) h.key_fits,
        word_bytes (length r.value) h.value_fits,
        take-append r.key r.value,
        drop-append r.key r.value,
        take-all r.value,
      )
      (ground arith)

-- A message with a key and a value of less than 2 ^ 16 bytes each is read back from its bytes as
-- it was, whatever the receive buffer held before.
pub read_request-build_response :
    (stale : ℕ → ℕ) (r : Request) → IsRequest r → read_request stale (build_response r) ≡ some r
unfolding read_request
read_request-build_response stale r h =
    rw (claimed_len-build_response r h, receive_over-all stale 0 (build_response r))
      (taken_apart-build_response r h)

pub length-receive_over :
    (stale : ℕ → ℕ) (i n : ℕ) (xs : Bytes) → length (receive_over stale i n xs) ≡ n
length-receive_over stale i zero xs = refl
length-receive_over stale i (suc n) [] = omega (arith, length-receive_over stale (suc i) n [])
length-receive_over stale i (suc n) (x ∷ xs) = omega (arith, length-receive_over stale (suc i) n xs)

receive_over-take :
    (stale : ℕ → ℕ) (i n : ℕ) (xs : Bytes) → n ≤ length xs → receive_over stale i n xs ≡ take n xs
receive_over-take stale i zero xs h = refl
receive_over-take stale i (suc n) [] h = elim h [ ]
receive_over-take stale i (suc n) (x ∷ xs) h =
    ap (λ r. x ∷ r) (receive_over-take stale (suc i) n xs (omega arith))

pub relay-returns :
    (stale : ℕ → ℕ) (msg response : Bytes)
    → has_bit (get_or response 0 0) internal_bit ≡ false
    → get_or response 1 0 ≡ get_or msg 1 0
    → relay stale msg response ≡ ok (receive_over stale 0 (claimed_len msg) response)
unfolding relay
relay-returns stale msg response external same = ground arith

claimed_len-no_value :
    (r : Request)
    → IsRequest r
    → r.value ≡ []
    → claimed_len (build_response r) ≡ ext_header_len + length r.key
unfolding build_response
claimed_len-no_value r h e = rw e (omega (arith, h.key_fits))

-- The response to a request without a value, relayed by another node, is cut after the key: for a
-- request with lengths below 2 ^ 16 and an external response with the same transaction and key,
-- the relayed bytes are the header and the key alone.
pub relay-cuts :
    (stale : ℕ → ℕ) (request response : Request)
    → IsRequest request
    → has_bit response.action internal_bit ≡ false
    → response.transaction_id ≡ request.transaction_id
    → request.value ≡ []
    → response.key ≡ request.key
    → relay stale (build_response request) (build_response response)
      ≡ ok (take (ext_header_len + length request.key) (build_response response))
unfolding build_response
relay-cuts stale request response h external same no_value same_key =
    let bytes = build_response response in
    let long : ext_header_len + length request.key ≤ length bytes =
      omega (arith, ap length same_key, length-append response.key response.value) in
    rw
      (
        relay-returns stale (build_response request) bytes external same,
        claimed_len-no_value request h no_value,
        receive_over-take stale 0 (ext_header_len + length request.key) bytes long,
      )
      refl
