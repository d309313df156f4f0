-- ===== src/Rpc/Client/Retries.antt =====
-- The attempts of `perform_action`: which of them answers, and what is left when none does.
use c_computer_networking.Prelude.{
  ℕ, zero, suc, ◌+◌, ◌%◌, ◌^◌, ◌<◌, ◌≡◌, refl, sym, ap, ◌∙◌, true, false, ◌&&◌, ◌||◌, not, Option,
  none, some, List, [], ◌∷◌, ◌++◌, append-nil, arith, length, take, ◌==◌,
}
use c_computer_networking.Prelude.Outcome.{ok}
use c_computer_networking.HashTable.Hash.{Bytes}
use c_computer_networking.HashTable.Table.{success, failure}
use c_computer_networking.Dht.Wire.{has_bit}
use c_computer_networking.Dht.Node.{received}
use c_computer_networking.Dht.Request.{Request, set_bit, ext_header_len, build_response}
use c_computer_networking.Dht.Request.Codec.{IsRequest, word_bytes}
use c_computer_networking.Rpc.Stream.{recv}
use c_computer_networking.Rpc.Serve.Answer.{whole, recv-whole}
use c_computer_networking.Rpc.Film.{Film, build_request}
use c_computer_networking.Rpc.Client.{
  retries, Attempt, response_film, receive_body, attempt, attempts, perform_action,
}

-- every one of these attempts ends at the label `retry`
abbrev pub AllRetry : ℕ → Bytes → List Attempt → Type 0
AllRetry bit request [] = Unit
AllRetry bit request (net ∷ nets) = (attempt bit request net ≡ ok none) × AllRetry bit request nets

module _ (bit : ℕ) (request : Bytes) where
  attempts-none :
      (n : ℕ) (nets : List Attempt)
      → AllRetry bit request nets
      → attempts n bit request nets ≡ ok none
  unfolding attempts
  attempts-none zero nets all = refl
  attempts-none (suc n) [] all = refl
  attempts-none (suc n) (net ∷ nets) all = rw (all.0, attempts-none n nets all.1) refl

  attempts-first :
      (n : ℕ) (before after : List Attempt) (net : Attempt) (f : Option Film)
      → AllRetry bit request before
      → length before < n
      → attempt bit request net ≡ ok (some f)
      → attempts n bit request (before ++ net ∷ after) ≡ ok (some f)
  unfolding attempts
  attempts-first zero before after net f all h e = absurd (omega arith)
  attempts-first (suc n) [] after net f all h e = rw e refl
  attempts-first (suc n) (net' ∷ before) after net f all h e =
      rw (all.0, attempts-first n before after net f all.1 (omega arith) e) refl

module _ (transaction_id bit : ℕ) (key : Bytes) (val : Option (List Bytes)) (request : Bytes)
    (built : build_request (2 ^ bit) transaction_id key val ≡ ok request)
    (given : (not (bit == set_bit) || elim val [ none ↦ false | some fields ↦ true ]) ≡ true) where
  -- If the request can be built, a SET has a value, and every attempt ends at the label `retry`,
  -- the call fails and counts up its transaction.
  pub perform_action-fails :
      (nets : List Attempt)
      → AllRetry bit request nets
      → perform_action transaction_id bit key val nets
        ≡ ok (record {
          status = failure;
          film = none;
          transaction_id = (transaction_id + 1) % 2 ^ 8;
        })
  unfolding perform_action
  perform_action-fails nets all = rw (given, built, attempts-none bit request retries nets all) refl

  -- If the request can be built, a SET has a value, and fewer than five attempts end at the label
  -- `retry` before one succeeds, then `perform_action` succeeds with the film of that attempt and
  -- keeps its transaction number.
  pub perform_action-first :
      (before after : List Attempt) (net : Attempt) (f : Option Film)
      → AllRetry bit request before
      → length before < retries
      → attempt bit request net ≡ ok (some f)
      → perform_action transaction_id bit key val (before ++ net ∷ after)
        ≡ ok (record { status = success; film = f; transaction_id = transaction_id })
  unfolding perform_action
  perform_action-first before after net f all few e =
      rw (given, built, attempts-first bit request retries before after net f all few e) refl

-- what makes an attempt end at `retry`: a call that fails, or a header without the action
pub attempt-refused :
    (bit : ℕ) (request : Bytes) (net : Attempt)
    → (net.connects && net.sends) ≡ false
    → attempt bit request net ≡ ok none
unfolding attempt
attempt-refused bit request net e = rw e refl

pub received-all : (xs : Bytes) → received (length xs) xs ≡ xs
received-all [] = refl
received-all (x ∷ xs) = ap (λ r. x ∷ r) (received-all xs)

recv-all : (xs : Bytes) → recv (length xs) (whole xs) ≡ some (xs, whole [])
recv-all xs = sym (ap (λ ys. recv (length xs) (whole ys)) (append-nil xs)) ∙ recv-whole xs []

module _ (bit : ℕ) (request : Bytes) (net : Attempt) (r : Request) (h : IsRequest r)
    (up : (net.connects && net.sends) ≡ true)
    (back : net.answer request ≡ whole (build_response r)) where
  attempt-body :
      attempt bit request net
      ≡ receive_body bit (take ext_header_len (build_response r)) (whole (r.key ++ r.value))
  unfolding attempt build_response recv
  attempt-body = ground (arith, up, back)

  -- A response without the bit of the action is not taken as an answer.
  pub attempt-unacknowledged : has_bit r.action bit ≡ false → attempt bit request net ≡ ok none
  unfolding receive_body build_response
  attempt-unacknowledged e = attempt-body ∙ ground (arith, e)

  pub attempt-acknowledged :
      (f : Option Film)
      → has_bit r.action bit ≡ true
      → response_film bit r.key r.value ≡ ok f
      → attempt bit request net ≡ ok (some f)
  unfolding receive_body build_response
  attempt-acknowledged f e film =
      attempt-body
      ∙ ground (
        arith,
        e,
        film,
        word_bytes (length r.key) h.key_fits,
        word_bytes (length r.value) h.value_fits,
        recv-whole r.key r.value,
        recv-all r.value,
        received-all r.key,
        received-all r.value,
      )
