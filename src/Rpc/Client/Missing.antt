-- ===== src/Rpc/Client/Missing.antt =====
-- The calls of `Movie Parser/client.c` for a key that the server does not have, and `ht_delete` for
-- one that it has.
use c_computer_networking.Prelude.{
  ℕ, zero, suc, ◌+◌, ◌%◌, ◌^◌, ◌<◌, ◌≡◌, ◌≢◌, refl, sym, ap, ◌∙◌, none, some, List, [], ◌∷◌,
  append-nil, arith, length, replicate,
}
use c_computer_networking.Prelude.Outcome.{ok}
use c_computer_networking.HashTable.Hash.{Bytes}
use c_computer_networking.HashTable.Table.{HashTable, success, failure}
use c_computer_networking.HashTable.Methods.{Fits, Models, update}
use c_computer_networking.HashTable.Refine.{Dictionary}
use c_computer_networking.Dht.Request.{
  delete_bit, get_bit, build_response, process_request, process_delete, process_set,
}
use c_computer_networking.Dht.Request.Codec.{IsRequest}
use c_computer_networking.Rpc.Serve.{serve}
use c_computer_networking.Rpc.Serve.Answer.{whole, serve-whole}
use c_computer_networking.Rpc.Film.{build_request}
use c_computer_networking.Rpc.Film.RoundTrip.{request, build_request-no_value}
use c_computer_networking.Rpc.Client.{Attempt, attempt, response_film, ht_get, ht_delete}
use c_computer_networking.Rpc.Client.Retries.{
  AllRetry, perform_action-first, perform_action-fails, attempt-acknowledged,
  attempt-unacknowledged,
}
use c_computer_networking.Rpc.Client.Exchange.{served, attempt_at, served_lem}

AllRetry-replicate :
    (bit : ℕ) (bytes : Bytes) (net : Attempt) (n : ℕ)
    → attempt bit bytes net ≡ ok none
    → AllRetry bit bytes (replicate n net)
AllRetry-replicate bit bytes net zero e = tt
AllRetry-replicate bit bytes net (suc n) e = (e, AllRetry-replicate bit bytes net n e)

module _ (stale_key stale_value stale : ℕ → ℕ) (hash : Bytes → ℕ) (tbl : HashTable) (d : Dictionary)
    (m : Models hash d tbl) (fits : Fits hash tbl) (transaction_id : ℕ) (key : Bytes)
    (full : length key ≢ 0) (fits_key : length key < 2 ^ 16) where
  abbrev net : Attempt
  net = attempt_at stale_key stale_value stale hash tbl

  is_asked : (bit : ℕ) → IsRequest (request (2 ^ bit) transaction_id key [])
  is_asked bit = record { key_fits = fits_key; value_fits = omega arith }

  is_reply : (action : ℕ) → IsRequest (request action transaction_id [] [])
  is_reply action = record { key_fits = omega arith; value_fits = omega arith }

  -- the server keeps its table when it is asked for a key
  served-get :
      (served stale_key stale_value stale hash tbl
        (build_response (request (2 ^ get_bit) transaction_id key []))).0
      ≡ tbl
  unfolding process_request process_delete process_set
  served-get =
      let r = request (2 ^ get_bit) transaction_id key [] in
      let e = serve-whole stale_key stale_value hash tbl r [] (is_asked get_bit) full in
      let e' =
        ap (λ bytes. serve stale_key stale_value hash tbl (some (whole bytes)))
          (sym (append-nil (build_response r)))
        ∙ e in
      rw e' refl

  -- If the server's table stands for a dictionary without the key, which is not empty and has less
  -- than 2 ^ 16 bytes, and is below 2 ^ 62 in size and count, then the server keeps its table, and
  -- `ht_get` fails and counts up its transaction, however many attempts reach the server.
  pub ht_get-missing :
      (n : ℕ)
      → d key ≡ none
      → (bytes : Bytes) × (build_request (2 ^ get_bit) transaction_id key none ≡ ok bytes)
        × ((served stale_key stale_value stale hash tbl bytes).0 ≡ tbl)
        × (ht_get transaction_id key (replicate n (attempt_at stale_key stale_value stale hash tbl))
            ≡ ok (record {
              status = failure;
              film = none;
              transaction_id = (transaction_id + 1) % 2 ^ 8;
            }))
  unfolding ht_get
  ht_get-missing n absent =
      let r = request (2 ^ get_bit) transaction_id key [] in
      let built = build_request-no_value (2 ^ get_bit) transaction_id key fits_key in
      let (back, models) =
        served_lem stale_key stale_value stale hash tbl d m fits r (is_asked get_bit) full in
      let back' : net.answer (build_response r)
          ≡ whole (build_response (request 8 transaction_id [] [])) =
        back ∙ ground (arith, absent) in
      let refused =
        attempt-unacknowledged get_bit (build_response r) net (request 8 transaction_id [] [])
          (is_reply 8) refl back' refl in
      let done =
        perform_action-fails transaction_id get_bit key none (build_response r) built refl
          (replicate n net) (AllRetry-replicate get_bit (build_response r) net n refused) in
      (build_response r, built, served-get, rw done refl)

  -- A key that the server has is deleted in the first attempt that reaches it.
  pub ht_delete-served :
      (value : Bytes) (nets : List Attempt)
      → d key ≡ some value
      → (bytes : Bytes) × (build_request (2 ^ delete_bit) transaction_id key none ≡ ok bytes)
        × (ht_delete transaction_id key (attempt_at stale_key stale_value stale hash tbl ∷ nets)
            ≡ ok (record { status = success; film = none; transaction_id = transaction_id }))
        × Models hash (update d key none) (served stale_key stale_value stale hash tbl bytes).0
  unfolding ht_delete response_film
  ht_delete-served value nets there =
      let r = request (2 ^ delete_bit) transaction_id key [] in
      let built = build_request-no_value (2 ^ delete_bit) transaction_id key fits_key in
      let (back, models) =
        served_lem stale_key stale_value stale hash tbl d m fits r (is_asked delete_bit) full in
      let back' : net.answer (build_response r)
          ≡ whole (build_response (request 9 transaction_id [] [])) =
        back ∙ ground (arith, there) in
      let answered =
        attempt-acknowledged delete_bit (build_response r) net (request 9 transaction_id [] [])
          (is_reply 9) refl back' none refl refl in
      let done =
        perform_action-first transaction_id delete_bit key none (build_response r) built refl []
          nets net none tt (omega arith) answered in
      (build_response r, built, rw done refl, models)
