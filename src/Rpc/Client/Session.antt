-- ===== src/Rpc/Client/Session.antt =====
-- The turn of the loop of `main` in `Movie Parser/client.c` against the server: a film that is set is
-- found, deleted, and not found again.
use c_computer_networking.Prelude.{
  ℕ, ◌+◌, ◌%◌, ◌^◌, ◌<◌, ◌≡◌, ◌≢◌, refl, sym, ap, ◌∙◌, none, some, List, [], ◌∷◌, append-nil, arith,
  length, replicate,
}
use c_computer_networking.Prelude.Outcome.{ok}
use c_computer_networking.HashTable.Hash.{Bytes}
use c_computer_networking.HashTable.Chain.{same_key_iff}
use c_computer_networking.HashTable.Table.{HashTable, success, failure, ht_set_value, ht_delete_key}
use c_computer_networking.HashTable.Methods.{
  Fits, Models, update, ht_set_value-Writes, ht_delete_key-Writes, size-ht_set_value,
  size-ht_delete_key,
}
use c_computer_networking.HashTable.Refine.{Dictionary}
use c_computer_networking.Dht.Request.{
  delete_bit, set_bit, build_response, process_request, process_delete, process_set,
}
use c_computer_networking.Dht.Request.Codec.{IsRequest}
use c_computer_networking.Rpc.Serve.{serve}
use c_computer_networking.Rpc.Serve.Answer.{whole, serve-whole}
use c_computer_networking.Rpc.Film.{Film, n_fields}
use c_computer_networking.Rpc.Film.RoundTrip.{
  marshalled, request, build_request-no_value, build_request-fields,
}
use c_computer_networking.Rpc.Client.{Attempt, film_turn}
use c_computer_networking.Rpc.Client.Exchange.{
  answer_of, served, attempt_at, ht_set-served, ht_get-served,
}
use c_computer_networking.Rpc.Client.Missing.{ht_get-missing, ht_delete-served}

module _ (stale_key stale_value stale : ℕ → ℕ) (hash : Bytes → ℕ) where
  -- the table of the server after a request
  abbrev pub after : HashTable → ℕ → ℕ → Bytes → Bytes → HashTable
  after tbl transaction_id action key value =
      (served stale_key stale_value stale hash tbl
        (build_response (request action transaction_id key value))).0

module _ (stale_key stale_value stale : ℕ → ℕ) (hash : Bytes → ℕ) (tbl : HashTable)
    (transaction_id : ℕ) (key : Bytes) (full : length key ≢ 0)
    (fits_key : length key < 2 ^ 16) where
  abbrev kept : ℕ → Bytes → HashTable
  kept action value = after stale_key stale_value stale hash tbl transaction_id action key value

  after_lem :
      (action : ℕ) (value : Bytes)
      → length value < 2 ^ 16
      → kept action value ≡ (process_request hash tbl (request action transaction_id key value)).1
  after_lem action value few =
      let r = request action transaction_id key value in
      let h : IsRequest r = record { key_fits = fits_key; value_fits = few } in
      let e = serve-whole stale_key stale_value hash tbl r [] h full in
      let e' =
        ap (λ bytes. serve stale_key stale_value hash tbl (some (whole bytes)))
          (sym (append-nil (build_response r)))
        ∙ e in
      ap (λ o. (answer_of tbl o).0) e'

  after_set :
      (value : Bytes)
      → length value < 2 ^ 16
      → kept (2 ^ set_bit) value ≡ (ht_set_value hash tbl key value).1
  unfolding process_request process_delete process_set
  after_set value few = after_lem (2 ^ set_bit) value few

  after_delete : kept (2 ^ delete_bit) [] ≡ (ht_delete_key hash tbl key).1
  unfolding process_request process_delete process_set
  after_delete = after_lem (2 ^ delete_bit) [] (omega arith) ∙ ground arith

  -- the table after the set and after the delete is below 2 ^ 62
  after_set-Fits :
      (d : Dictionary) (value : Bytes)
      → Models hash d tbl
      → tbl.size < 2 ^ 61
      → tbl.n_elems < 2 ^ 61
      → length value < 2 ^ 16
      → Fits hash (kept (2 ^ set_bit) value)
  after_set-Fits d value m size count few =
      let fits : Fits hash tbl = (omega arith, omega arith) in
      let w = ht_set_value-Writes hash tbl key value m.0 fits in
      let s = size-ht_set_value hash tbl key value m.0 fits in
      rw (after_set value few) (ground (arith, s), ground (arith, w.counts))

  after_delete-Fits :
      (d : Dictionary) → Models hash d tbl → Fits hash tbl → Fits hash (kept (2 ^ delete_bit) [])
  after_delete-Fits d m fits =
      let (w, status) = ht_delete_key-Writes hash tbl m.0 key fits.1 in
      let s = size-ht_delete_key hash tbl m.0 key in
      rw after_delete (omega (arith, s, fits.0), ground (arith, w.counts, fits.1))

  moved :
      (d : Dictionary) (bytes bytes' : Bytes)
      → bytes ≡ bytes'
      → Models hash d (served stale_key stale_value stale hash tbl bytes).0
      → Models hash d (served stale_key stale_value stale hash tbl bytes').0
  moved d bytes bytes' e m = rw⁻¹ e m

module _ (stale_key stale_value stale : ℕ → ℕ) (hash : Bytes → ℕ) where
  -- Against a server whose table stands for the dictionary `d` and is below 2 ^ 61 in size and
  -- count, for a film with five fields, a title that is not empty, and title and marshalled fields
  -- of less than 2 ^ 16 bytes: in the turn of the loop of `main` the set succeeds, the get finds
  -- the film, the delete succeeds, and the last get fails, however many attempts reach the server;
  -- the table then stands for `d` without the title.
  pub film_turn-served :
      (tbl : HashTable) (d : Dictionary) (transaction_id n : ℕ) (f : Film)
      (more_set more_get more_delete : List Attempt)
      → Models hash d tbl
      → tbl.size < 2 ^ 61
      → tbl.n_elems < 2 ^ 61
      → length f.title ≢ 0
      → length f.title < 2 ^ 16
      → length f.fields ≡ n_fields
      → length (marshalled f.fields) < 2 ^ 16
      → let at = attempt_at stale_key stale_value stale hash in
        let next = after stale_key stale_value stale hash in
        let tbl1 = next tbl transaction_id (2 ^ set_bit) f.title (marshalled f.fields) in
        let tbl2 = next tbl1 transaction_id (2 ^ delete_bit) f.title [] in
        (film_turn transaction_id f
            (at tbl ∷ more_set)
            (at tbl1 ∷ more_get)
            (at tbl1 ∷ more_delete)
            (replicate n (at tbl2))
          ≡ ok (
            record { status = success; film = none; transaction_id = transaction_id },
            record { status = success; film = some f; transaction_id = transaction_id },
            record { status = success; film = none; transaction_id = transaction_id },
            record { status = failure; film = none; transaction_id = (transaction_id + 1) % 2 ^ 8 },
          ))
        × Models hash (update (update d f.title (some (marshalled f.fields))) f.title none) tbl2
  unfolding film_turn
  film_turn-served tbl d tid n f more_set more_get more_delete m size count full fits_key five few =
      let key = f.title in
      let value = marshalled f.fields in
      let fits : Fits hash tbl = (omega arith, omega arith) in
      let d1 = update d key (some value) in
      let d2 = update d1 key none in
      let set_bytes = build_response (request (2 ^ set_bit) tid key value) in
      let delete_bytes = build_response (request (2 ^ delete_bit) tid key []) in
      let tbl1 = after stale_key stale_value stale hash tbl tid (2 ^ set_bit) key value in
      let (b1, built1, set_done, m1) =
        ht_set-served stale_key stale_value stale hash tbl d m fits tid key full fits_key f.fields
          more_set five few in
      let same1 : b1 ≡ set_bytes =
        cc (built1, build_request-fields (2 ^ set_bit) tid key f.fields fits_key five few) in
      let models1 =
        moved stale_key stale_value stale hash tbl tid key full fits_key d1 b1 set_bytes same1 m1 in
      let fits1 =
        after_set-Fits stale_key stale_value stale hash tbl tid key full fits_key d value m size
          count few in
      let there : d1 key ≡ some value = ground (arith, same_key_iff key key) in
      let get_done =
        ht_get-served stale_key stale_value stale hash tbl1 d1 models1 fits1 tid key full fits_key
          f.fields more_get five few there in
      let (b2, built2, delete_done, m2) =
        ht_delete-served stale_key stale_value stale hash tbl1 d1 models1 fits1 tid key full
          fits_key value more_delete there in
      let same2 : b2 ≡ delete_bytes =
        cc (built2, build_request-no_value (2 ^ delete_bit) tid key fits_key) in
      let models2 =
        moved stale_key stale_value stale hash tbl1 tid key full fits_key d2 b2 delete_bytes same2
          m2 in
      let fits2 =
        after_delete-Fits stale_key stale_value stale hash tbl1 tid key full fits_key d1 models1
          fits1 in
      let tbl2 = after stale_key stale_value stale hash tbl1 tid (2 ^ delete_bit) key [] in
      let gone : d2 key ≡ none = ground (arith, same_key_iff key key) in
      let (b3, built3, same3, again_done) =
        ht_get-missing stale_key stale_value stale hash tbl2 d2 models2 fits2 tid key full fits_key
          n gone in
      (rw (set_done, get_done, delete_done, again_done) refl, models2)
