-- ===== src/Rpc/Client/Exchange.antt =====
-- The client of `Movie Parser/client.c` against the server of `Distributed Hash Table/server.c`:
-- the bytes that `perform_action` sends are served, and it reads the bytes of the answer.
use c_computer_networking.Prelude.{
  ℕ, ◌^◌, ◌<◌, ◌≡◌, ◌≢◌, refl, sym, ap, ◌∙◌, true, Option, none, some, List, [], ◌∷◌, append-nil,
  arith, length,
}
use c_computer_networking.Prelude.Outcome.{Outcome, ok, fault}
use c_computer_networking.HashTable.Hash.{Bytes}
use c_computer_networking.HashTable.Table.{HashTable, success}
use c_computer_networking.HashTable.Methods.{Fits, Models, update}
use c_computer_networking.HashTable.Refine.{Dictionary}
use c_computer_networking.Dht.Request.{Request, set_bit, get_bit, build_response}
use c_computer_networking.Dht.Request.Codec.{IsRequest}
use c_computer_networking.Dht.Request.Served.{after_delete, after_set, reply_of}
use c_computer_networking.Rpc.Stream.{Connection}
use c_computer_networking.Rpc.Serve.{serve}
use c_computer_networking.Rpc.Serve.Answer.{whole, serve-Models}
use c_computer_networking.Rpc.Film.{n_fields, build_request, unmarshal_fields}
use c_computer_networking.Rpc.Film.RoundTrip.{
  marshalled, request, build_request-no_value, build_request-fields, unmarshal_fields-marshalled,
}
use c_computer_networking.Rpc.Client.{Attempt, response_film, ht_get, ht_set}
use c_computer_networking.Rpc.Client.Retries.{perform_action-first, attempt-acknowledged}

-- the film in the response to a GET
taken_out :
    (key : Bytes) (fields : List Bytes)
    → length fields ≡ n_fields
    → length (marshalled fields) < 2 ^ 16
    → response_film get_bit key (marshalled fields)
      ≡ ok (some (record { title = key; fields = fields }))
unfolding response_film
taken_out key [] five few = absurd (omega (arith, five))
taken_out key (f ∷ fs) five few =
    let film =
      ap (λ n. unmarshal_fields n (marshalled (f ∷ fs))) (sym five)
      ∙ unmarshal_fields-marshalled (f ∷ fs) few in
    ground (arith, film)

-- what the client receives from a call of `serve`, and the table that the call leaves
abbrev pub answer_of : HashTable → Outcome (HashTable × Option Bytes) → HashTable × Connection
answer_of tbl (ok (tbl', some bytes)) = (tbl', whole bytes)
answer_of tbl (ok (tbl', none)) = (tbl', whole [])
answer_of tbl (fault e) = (tbl, whole [])

module _ (stale_key stale_value stale : ℕ → ℕ) (hash : Bytes → ℕ) where
  -- the server's side of an attempt
  abbrev pub served : HashTable → Bytes → HashTable × Connection
  served tbl bytes = answer_of tbl (serve stale_key stale_value hash tbl (some (whole bytes)))

  -- an attempt in which the network does its part
  abbrev pub attempt_at : HashTable → Attempt
  attempt_at tbl = record {
    connects = true;
    sends = true;
    answer = λ bytes. (served tbl bytes).1;
    stale = stale;
  }

  module _ (tbl : HashTable) (d : Dictionary) (m : Models hash d tbl) (fits : Fits hash tbl) where
    pub served_lem :
        (r : Request)
        → IsRequest r
        → length r.key ≢ 0
        → ((served tbl (build_response r)).1 ≡ whole (build_response (reply_of r d)))
          × Models hash (after_set r (after_delete r d)) (served tbl (build_response r)).0
    served_lem r h full =
        let (tbl', e, models) = serve-Models stale_key stale_value hash tbl r [] h d m fits full in
        let e' =
          ap (λ bytes. serve stale_key stale_value hash tbl (some (whole bytes)))
            (sym (append-nil (build_response r)))
          ∙ e in
        rw e' (refl, models)

    module _ (transaction_id : ℕ) (key : Bytes) (full : length key ≢ 0)
        (fits_key : length key < 2 ^ 16) where
      is_reply : (action : ℕ) → IsRequest (request action transaction_id [] [])
      is_reply action = record { key_fits = omega arith; value_fits = omega arith }

      -- If the server's table stands for the dictionary `d` and is below 2 ^ 62 in size and count,
      -- the key is not empty, key and marshalled fields have less than 2 ^ 16 bytes, and there are
      -- five fields, then `ht_set` succeeds in its first attempt at the server, and the table of
      -- the server stands for `d` with the marshalled fields at the key.
      pub ht_set-served :
          (fields : List Bytes) (nets : List Attempt)
          → length fields ≡ n_fields
          → length (marshalled fields) < 2 ^ 16
          → (bytes : Bytes) × (build_request (2 ^ set_bit) transaction_id key (some fields)
              ≡ ok bytes)
            × (ht_set transaction_id key fields (attempt_at tbl ∷ nets)
                ≡ ok (record { status = success; film = none; transaction_id = transaction_id }))
            × Models hash (update d key (some (marshalled fields))) (served tbl bytes).0
      unfolding ht_set response_film
      ht_set-served fields nets five few =
          let r = request (2 ^ set_bit) transaction_id key (marshalled fields) in
          let built =
            build_request-fields (2 ^ set_bit) transaction_id key fields fits_key five few in
          let (back, models) =
            served_lem r (record { key_fits = fits_key; value_fits = few }) full in
          let answered =
            attempt-acknowledged set_bit (build_response r) (attempt_at tbl)
              (request 10 transaction_id [] []) (is_reply 10) refl back none refl refl in
          let done =
            perform_action-first transaction_id set_bit key (some fields) (build_response r) built
              refl [] nets (attempt_at tbl) none tt (omega arith) answered in
          (build_response r, built, rw done refl, models)

      -- If the server's table stands for a dictionary that has the five marshalled fields of a
      -- film at a key that is not empty, is below 2 ^ 62 in size and count, and key and marshalled
      -- fields have less than 2 ^ 16 bytes, then `ht_get` succeeds in its first attempt at the
      -- server and gives the film with the key as its title and the same fields.
      pub ht_get-served :
          (fields : List Bytes) (nets : List Attempt)
          → length fields ≡ n_fields
          → length (marshalled fields) < 2 ^ 16
          → d key ≡ some (marshalled fields)
          → ht_get transaction_id key (attempt_at tbl ∷ nets)
            ≡ ok (record {
              status = success;
              film = some (record { title = key; fields = fields });
              transaction_id = transaction_id;
            })
      unfolding ht_get response_film
      ht_get-served fields nets five few found =
          let r = request (2 ^ get_bit) transaction_id key [] in
          let built = build_request-no_value (2 ^ get_bit) transaction_id key fits_key in
          let (back, models) =
            served_lem r (record { key_fits = fits_key; value_fits = omega arith }) full in
          let reply = request 12 transaction_id key (marshalled fields) in
          let back' : (attempt_at tbl).answer (build_response r) ≡ whole (build_response reply) =
            back ∙ ground (arith, found) in
          let answered =
            attempt-acknowledged get_bit (build_response r) (attempt_at tbl) reply
              (record { key_fits = fits_key; value_fits = few }) refl back' _ refl
              (taken_out key fields five few) in
          let done =
            perform_action-first transaction_id get_bit key none (build_response r) built refl []
              nets (attempt_at tbl) _ tt (omega arith) answered in
          rw done refl
