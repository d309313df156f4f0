-- ===== src/Tests/Remote.antt =====
-- The clients and the server over TCP on short messages.
pub mod Lines
use c_computer_networking.Prelude.{
  ℕ, ◌+◌, ◌%◌, ◌^◌, ◌<◌, ◌≡◌, refl, Bool, true, false, none, some, List, [], ◌∷◌, ◌++◌, arith,
  length, replicate, ltb, ◌&&◌,
}
use c_computer_networking.Prelude.Outcome.{ok, fault, assertion}
use c_computer_networking.HashTable.Hash.{Bytes}
use c_computer_networking.HashTable.Chain.{same_key, assign}
use c_computer_networking.HashTable.Placed.{view}
use c_computer_networking.HashTable.Table.{
  HashTable, success, failure, ht_create, ht_set_value, put_value, make_room,
}
use c_computer_networking.HashTable.Methods.{
  Fits, Models, update, ht_create-Models, ht_set_value-Writes,
}
use c_computer_networking.HashTable.Refine.{Dictionary}
use c_computer_networking.Dht.Node.{DhtNode, new_node}
use c_computer_networking.Dht.Request.{
  Request, respond, receive_over, delete_bit, set_bit, get_bit, process_request, build_response,
}
use c_computer_networking.Dht.Request.Codec.{IsRequest}
use c_computer_networking.Rpc.Stream.{Connection, recv}
use c_computer_networking.Rpc.Serve.{serve}
use c_computer_networking.Rpc.Serve.Answer.{whole, serve-empty_key}
use c_computer_networking.Rpc.Film.{Film, build_request}
use c_computer_networking.Rpc.Film.RoundTrip.{marshalled, request}
use c_computer_networking.Rpc.Client.{
  Attempt, attempt, receive_body, response_film, perform_action, ht_get, ht_set, film_turn,
}
use c_computer_networking.Rpc.Client.Retries.{perform_action-first}
use c_computer_networking.Rpc.Client.Exchange.{served, attempt_at, ht_set-served, ht_get-served}
use c_computer_networking.Rpc.Client.Missing.{ht_get-missing}
use c_computer_networking.Rpc.Client.Session.{after, film_turn-served}
use c_computer_networking.Rpc.Csv.{read_film, strtok, read_fields}
use c_computer_networking.Rpc.Csv.Tokens.{parts_of, non_empty, film_of, read_film-film_of}
use c_computer_networking.Rpc.Marshall.{marshall_value, set}
use c_computer_networking.Rpc.Marshall.Sent.{
  tokens, zeros, surplus, marshall_value-marshalled, set-build_request,
}

abbrev hash : Bytes → ℕ
hash = length

abbrev stale : ℕ → ℕ
stale i = 200 + i

abbrev node : DhtNode
node = new_node (record { ip = 1; port = 2; id = 3 })

abbrev following : Bytes
following = 9 ∷ []

abbrev no_key : Request
no_key = request 2 7 [] (120 ∷ 121 ∷ [])

no_key-IsRequest : IsRequest no_key
no_key-IsRequest = record { key_fits = omega arith; value_fits = omega arith }

serve-empty_key_test :
    serve stale stale hash ht_create (some (whole (build_response no_key ++ following))) ≡ (
      let req = record no_key { value = receive_over stale 0 2 [] } in
      ok (
        (process_request hash ht_create req).1,
        some (build_response (process_request hash ht_create req).0),
      ))
serve-empty_key_test =
    serve-empty_key stale stale hash ht_create no_key following no_key-IsRequest refl

-- a header that claims a key and a value, of which the connection breaks off
abbrev broken : Connection
broken = record { input = 4 ∷ 0 ∷ 0 ∷ 1 ∷ 0 ∷ 5 ∷ 65 ∷ []; breaks = some 2 }

abbrev all_small : Bytes → Bool
all_small [] = true
all_small (b ∷ bs) = ltb b 256 && all_small bs

-- five fields of a film
abbrev fields : List Bytes
fields = (65 ∷ []) ∷ (66 ∷ 67 ∷ []) ∷ (68 ∷ []) ∷ (69 ∷ []) ∷ (70 ∷ 10 ∷ []) ∷ []

abbrev title : Bytes
title = 84 ∷ []

new-Fits : Fits hash ht_create
unfolding ht_create
new-Fits = (omega arith, omega arith)

new-small : ht_create.size < 2 ^ 61
unfolding ht_create
new-small = omega arith

new-few : ht_create.n_elems < 2 ^ 61
unfolding ht_create
new-few = omega arith

ht_set-served_test :
    (bytes : Bytes) × (build_request (2 ^ set_bit) 3 title (some fields) ≡ ok bytes)
    × (ht_set 3 title fields (attempt_at stale stale stale hash ht_create ∷ [])
        ≡ ok (record { status = success; film = none; transaction_id = 3 }))
    × Models hash
        (update (λ q. none) title (some (marshalled fields)))
        (served stale stale stale hash ht_create bytes).0
ht_set-served_test =
    ht_set-served stale stale stale hash ht_create (λ q. none) (ht_create-Models hash) new-Fits 3
      title (omega arith) (omega arith) fields [] refl (omega arith)

abbrev film : Film
film = record { title = title; fields = fields }

abbrev next : HashTable → ℕ → ℕ → Bytes → Bytes → HashTable
next = after stale stale stale hash

abbrev tbl1 : HashTable
tbl1 = next ht_create 9 (2 ^ set_bit) title (marshalled fields)

abbrev tbl2 : HashTable
tbl2 = next tbl1 9 (2 ^ delete_bit) title []

film_turn-served_example :
    (film_turn 9 film
        (attempt_at stale stale stale hash ht_create ∷ [])
        (attempt_at stale stale stale hash tbl1 ∷ [])
        (attempt_at stale stale stale hash tbl1 ∷ [])
        (replicate 5 (attempt_at stale stale stale hash tbl2))
      ≡ ok (
        record { status = success; film = none; transaction_id = 9 },
        record { status = success; film = some film; transaction_id = 9 },
        record { status = success; film = none; transaction_id = 9 },
        record { status = failure; film = none; transaction_id = (9 + 1) % 2 ^ 8 },
      ))
    × Models hash (update (update (λ q. none) title (some (marshalled fields))) title none) tbl2
film_turn-served_example =
    film_turn-served stale stale stale hash ht_create (λ q. none) 9 5 film [] [] []
      (ht_create-Models hash) new-small new-few (omega arith) (omega arith) refl (omega arith)

-- the table with the film
stored : HashTable
stored = (ht_set_value hash ht_create title (marshalled fields)).1

abbrev dictionary : Dictionary
dictionary = update (view hash ht_create.elems) title (some (marshalled fields))

stored-Models : Models hash dictionary stored
unfolding stored
stored-Models =
    (ht_set_value-Writes hash ht_create title (marshalled fields) (ht_create-Models hash).0
      new-Fits).models

stored-Fits : Fits hash stored
unfolding stored ht_set_value put_value make_room ht_create assign
stored-Fits = (omega arith, omega arith)

dictionary-title : dictionary title ≡ some (marshalled fields)
unfolding same_key
dictionary-title = refl

ht_get-served_test :
    ht_get 3 title (attempt_at stale stale stale hash stored ∷ [])
    ≡ ok (record {
      status = success;
      film = some (record { title = title; fields = fields });
      transaction_id = 3;
    })
ht_get-served_test =
    ht_get-served stale stale stale hash stored dictionary stored-Models stored-Fits 3 title
      (omega arith) (omega arith) fields [] refl (omega arith) dictionary-title

ht_get-missing_example :
    (bytes : Bytes) × (build_request (2 ^ get_bit) 255 title none ≡ ok bytes)
    × ((served stale stale stale hash ht_create bytes).0 ≡ ht_create)
    × (ht_get 255 title (replicate 7 (attempt_at stale stale stale hash ht_create))
        ≡ ok (record { status = failure; film = none; transaction_id = (255 + 1) % 2 ^ 8 }))
ht_get-missing_example =
    ht_get-missing stale stale stale hash ht_create (λ q. none) (ht_create-Models hash) new-Fits 255
      title (omega arith) (omega arith) 7 refl

-- a server that does not answer, and one that answers a DELETE
abbrev down : Attempt
down = record { connects = false; sends = false; answer = λ b. whole b; stale = stale }

abbrev up : Attempt
up = record {
  connects = true;
  sends = true;
  answer = λ b. whole (9 ∷ 0 ∷ 0 ∷ 0 ∷ 0 ∷ 0 ∷ []);
  stale = stale;
}

abbrev delete_request : Bytes
delete_request = 1 ∷ 3 ∷ 0 ∷ 1 ∷ 0 ∷ 0 ∷ 84 ∷ []

delete_request-built : build_request (2 ^ delete_bit) 3 title none ≡ ok delete_request
unfolding build_request
delete_request-built = refl

down-retries : attempt delete_bit delete_request down ≡ ok none
unfolding attempt
down-retries = refl

up-answers : attempt delete_bit delete_request up ≡ ok (some none)
unfolding attempt recv receive_body response_film
up-answers = refl

perform_action-first_example :
    perform_action 3 delete_bit title none (down ∷ down ∷ up ∷ down ∷ [])
    ≡ ok (record { status = success; film = none; transaction_id = 3 })
perform_action-first_example =
    perform_action-first 3 delete_bit title none delete_request delete_request-built refl
      (down ∷ down ∷ []) (down ∷ []) up none (down-retries, (down-retries, tt)) (omega arith)
      up-answers
