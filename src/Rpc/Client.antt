-- ===== src/Rpc/Client.antt =====
-- `perform_action` of `Movie Parser/client.c` and the calls on the remote hash table over it. What
-- the network does in an attempt is a value of `Attempt`.
pub mod Retries
pub mod Exchange
pub mod Missing
pub mod Session
use c_computer_networking.Prelude.{
  ℕ, zero, suc, ◌+◌, ◌*◌, ◌%◌, ◌^◌, Bool, true, false, ◌&&◌, ◌||◌, not, Option, none, some, List,
  [], ◌∷◌, length, get_or, ltb, ◌==◌, if◌then◌else◌,
}
use c_computer_networking.Prelude.Outcome.{Outcome, ok, ◌>>=◌, ◌>>◌, assert}
use c_computer_networking.HashTable.Hash.{Bytes}
use c_computer_networking.HashTable.Table.{Status, success, failure}
use c_computer_networking.Dht.Wire.{has_bit, read16}
use c_computer_networking.Dht.Node.{received}
use c_computer_networking.Dht.Request.{delete_bit, set_bit, get_bit, ext_header_len, receive_over}
use c_computer_networking.Rpc.Stream.{Connection, recv}
use c_computer_networking.Rpc.Film.{Film, n_fields, build_request, unmarshal_fields}

-- `RETRIES`
abbrev pub retries : ℕ
retries = 5

-- Whether `connect` and `send` succeed, what comes back for the bytes that are sent, and what the
-- buffer for the header holds before.
pub record Attempt : Type 0 where
  pub connects : Bool
  pub sends : Bool
  pub answer : Bytes → Connection
  pub stale : ℕ → ℕ

-- the film in a response, for a GET with a value
unfoldable pub response_film : ℕ → Bytes → Bytes → Outcome (Option Film)
response_film bit key_buffer val_buffer =
    if (bit == get_bit) && not (length val_buffer == 0)
    then (do
      fields ← unmarshal_fields n_fields val_buffer
      ok (some (record { title = key_buffer; fields = fields })))
    else ok none

-- An attempt after the header is received: `some` of the film for success, `none` for `goto retry`.
-- The buffers for the key and the value start with zeros.
unfoldable pub receive_body : ℕ → Bytes → Connection → Outcome (Option (Option Film))
receive_body bit header conn =
    let key_len = read16 header 2 in
    let val_len = read16 header 4 in
    if not (has_bit (get_or header 0 0) bit) then ok none else elim (recv key_len conn) [
      | none ↦ ok none
      | some (key, conn') ↦ elim (recv val_len conn') [
        | none ↦ ok none
        | some (val, conn'') ↦ do
          f ← response_film bit (received key_len key) (received val_len val)
          ok (some f)
      ]
    ]

-- one turn of the loop
unfoldable pub attempt : ℕ → Bytes → Attempt → Outcome (Option (Option Film))
attempt bit request net =
    if not (net.connects && net.sends)
    then ok none
    else elim (recv ext_header_len (net.answer request)) [
      | none ↦ ok none
      | some (bytes, conn) ↦ receive_body bit (receive_over net.stale 0 ext_header_len bytes) conn
    ]

-- The loop: the film of the first attempt that succeeds, or `none` where all of them fail. The
-- network's part in the attempts is `nets`; where the list ends, nothing connects.
unfoldable pub attempts : ℕ → ℕ → Bytes → List Attempt → Outcome (Option (Option Film))
attempts zero bit request nets = ok none
attempts (suc n) bit request [] = ok none
attempts (suc n) bit request (net ∷ nets) =
    let rest = attempts n bit request nets in
    do result ← attempt bit request net; elim result [ none ↦ rest | some f ↦ ok (some f) ]

-- the status, `*f`, and `transaction_id` afterwards
pub record Performed : Type 0 where
  pub status : Status
  pub film : Option Film
  pub transaction_id : ℕ

-- `action` is `1 << bit`; `transaction_id` has eight bits.
unfoldable pub perform_action :
    ℕ → ℕ → Bytes → Option (List Bytes) → List Attempt → Outcome Performed
perform_action transaction_id bit key val nets = do
  assert (not (bit == set_bit) || elim val [ none ↦ false | some fields ↦ true ])
  request ← build_request (2 ^ bit) transaction_id key val
  result ← attempts retries bit request nets
  ok (elim result [
    | none ↦ record { status = failure; film = none; transaction_id = (transaction_id + 1) % 2 ^ 8 }
    | some f ↦ record { status = success; film = f; transaction_id = transaction_id }
  ])

-- `assert(f == NULL)`
abbrev pub is_null : Option Film → Bool
is_null none = true
is_null (some f) = false

-- `assert((*f) == NULL)` where the status is negative
unfoldable pub ht_get : ℕ → Bytes → List Attempt → Outcome Performed
ht_get transaction_id key nets = do
  done ← perform_action transaction_id get_bit key none nets
  assert (elim done.status [ success ↦ true | failure ↦ is_null done.film ])
  ok done

unfoldable pub ht_set : ℕ → Bytes → List Bytes → List Attempt → Outcome Performed
ht_set transaction_id key val nets = do
  done ← perform_action transaction_id set_bit key (some val) nets
  assert (is_null done.film)
  ok done

unfoldable pub ht_delete : ℕ → Bytes → List Attempt → Outcome Performed
ht_delete transaction_id key nets = do
  done ← perform_action transaction_id delete_bit key none nets
  assert (is_null done.film)
  ok done

-- The turn of the loop of `main` for a film, with the attempts of its four calls: what `ht_set`,
-- `ht_get`, `ht_delete` and the last `ht_get` leave.
unfoldable pub film_turn :
    ℕ
    → Film
    → List Attempt
    → List Attempt
    → List Attempt
    → List Attempt
    → Outcome (Performed × Performed × Performed × Performed)
film_turn transaction_id f nets_set nets_get nets_delete nets_again = do
  stored ← ht_set transaction_id f.title f.fields nets_set
  found ← ht_get stored.transaction_id f.title nets_get
  deleted ← ht_delete found.transaction_id f.title nets_delete
  again ← ht_get deleted.transaction_id f.title nets_again
  ok (stored, found, deleted, again)
