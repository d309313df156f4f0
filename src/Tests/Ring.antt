-- ===== src/Tests/Ring.antt =====
-- `Hash Table/server.c` on three nodes and one request.
use c_computer_networking.Prelude.{
  ℕ, ◌≡◌, refl, true, false, ◌||◌, ◌&&◌, none, some, [], ◌∷◌, arith,
}
use c_computer_networking.Prelude.Outcome.{ok}
use c_computer_networking.HashTable.Hash.{Bytes, string_hash}
use c_computer_networking.HashTable.Table.{ht_create}
use c_computer_networking.HashTable.Methods.{Fits, Models, ht_create-Models}
use c_computer_networking.Dht.Wire.{
  ServerInfo, IsServerInfo, join, notify, stabilize, fill_intl_msg, parse_msg,
  parse_msg-fill_intl_msg,
}
use c_computer_networking.Dht.Range.{is_in_range}
use c_computer_networking.Dht.Node.{is_key_in_range, handle_intl_msg}
use c_computer_networking.Dht.Node.Splice.{
  node_of, message, Handles, Shrinks, join-splices, join-pairs, join-divides, equal_ids-unserved,
  handle_intl_msg-Shrinks,
}
use c_computer_networking.Dht.Request.{
  Request, respond, forward, read_request, build_response, handle_ext_msg, relay,
}
use c_computer_networking.Dht.Request.Codec.{IsRequest, read_request-build_response, relay-cuts}
use c_computer_networking.Dht.Request.Served.{after_delete, after_set, reply_of}
use c_computer_networking.Dht.Request.Handler.{handle_ext_msg-responds, handle_ext_msg-forwards}

abbrev a : ServerInfo
a = record { ip = 2130706433; port = 4000; id = 60000 }

abbrev b : ServerInfo
b = record { ip = 2130706433; port = 4001; id = 1000 }

abbrev n : ServerInfo
n = record { ip = 2130706433; port = 4002; id = 65000 }

a-IsServerInfo : IsServerInfo a
a-IsServerInfo = record { ip_fits = omega arith; port_fits = omega arith; id_fits = omega arith }

b-IsServerInfo : IsServerInfo b
b-IsServerInfo = record { ip_fits = omega arith; port_fits = omega arith; id_fits = omega arith }

n-IsServerInfo : IsServerInfo n
n-IsServerInfo = record { ip_fits = omega arith; port_fits = omega arith; id_fits = omega arith }

-- The arc from `a` to `b` runs over zero and holds `n`.
n-inside : is_in_range a b n ≡ true
unfolding is_in_range
n-inside = refl

fill_intl_msg_test : fill_intl_msg notify b ≡ 130 ∷ 127 ∷ 0 ∷ 0 ∷ 1 ∷ 15 ∷ 161 ∷ 3 ∷ 232 ∷ []
unfolding fill_intl_msg
fill_intl_msg_test = refl

parse_msg-fill_intl_msg_test : parse_msg (fill_intl_msg join n) ≡ ok n
parse_msg-fill_intl_msg_test = parse_msg-fill_intl_msg join n n-IsServerInfo

join-splices_example :
    Handles
      (node_of a none (some b))
      join
      n
      (node_of a none (some n))
      (message notify b n ∷ message stabilize a n ∷ [])
    × Handles (node_of n none none) notify b (node_of n none (some b)) (message stabilize n b ∷ [])
    × Handles
        (node_of n none (some b))
        stabilize
        a
        (node_of n (some a) (some b))
        (message notify a a ∷ [])
    × Handles
        (node_of b (some a) (some a))
        stabilize
        n
        (node_of b (some n) (some a))
        (message notify n n ∷ [])
    × Handles (node_of a none (some n)) notify a (node_of a none (some n)) []
    × Handles (node_of n (some a) (some b)) notify n (node_of n (some a) (some b)) []
join-splices_example =
    join-splices a b n none (some a) a-IsServerInfo b-IsServerInfo n-IsServerInfo n-inside
      (omega arith)

join-pairs_test :
    Handles
      (node_of a none none)
      join
      n
      (node_of a none (some n))
      (message notify a n ∷ message stabilize a n ∷ [])
    × Handles (node_of n none none) notify a (node_of n none (some a)) (message stabilize n a ∷ [])
    × Handles
        (node_of n none (some a))
        stabilize
        a
        (node_of n (some a) (some a))
        (message notify a a ∷ [])
    × Handles
        (node_of a none (some n))
        stabilize
        n
        (node_of a (some n) (some n))
        (message notify n n ∷ [])
    × Handles (node_of a none (some n)) notify a (node_of a none (some n)) []
    × Handles (node_of n (some a) (some a)) notify n (node_of n (some a) (some a)) []
join-pairs_test = join-pairs a n a-IsServerInfo n-IsServerInfo

abbrev key : Bytes
key = 97 ∷ 98 ∷ []

join-divides_test :
    (is_key_in_range (node_of a none (some b)) key ≡ (
      is_key_in_range (node_of a none (some n)) key
      || is_key_in_range (node_of n (some a) (some b)) key))
    × ((is_key_in_range (node_of a none (some n)) key
          && is_key_in_range (node_of n (some a) (some b)) key)
        ≡ false)
join-divides_test =
    join-divides a b n none none (some a) key a-IsServerInfo b-IsServerInfo n-IsServerInfo n-inside

-- two nodes that were started without an identifier
abbrev c : ServerInfo
c = record { ip = 2130706433; port = 4003; id = 0 }

abbrev d : ServerInfo
d = record { ip = 2130706433; port = 4004; id = 0 }

equal_ids-unserved_test :
    (is_key_in_range (node_of c none (some d)) key ≡ false)
    × (is_key_in_range (node_of d none (some c)) key ≡ false)
equal_ids-unserved_test = equal_ids-unserved c d none none key refl

handle_intl_msg-Shrinks_example :
    Shrinks
      (node_of a none (some b))
      (handle_intl_msg (node_of a none (some b)) (fill_intl_msg join n))
handle_intl_msg-Shrinks_example =
    handle_intl_msg-Shrinks (node_of a none (some b)) (fill_intl_msg join n) (omega arith)

-- set and get in one request, and a get alone
abbrev request : Request
request = record { action = 6; transaction_id = 9; key = key; value = 5 ∷ 6 ∷ [] }

abbrev get_request : Request
get_request = record { action = 4; transaction_id = 9; key = key; value = [] }

abbrev get_response : Request
get_response = record { action = 12; transaction_id = 9; key = key; value = 5 ∷ 6 ∷ [] }

abbrev zeros : ℕ → ℕ
zeros i = 0

request-IsRequest : IsRequest request
request-IsRequest = record { key_fits = omega arith; value_fits = omega arith }

get_request-IsRequest : IsRequest get_request
get_request-IsRequest = record { key_fits = omega arith; value_fits = omega arith }

new_Fits : Fits string_hash ht_create
unfolding ht_create
new_Fits = (omega arith, omega arith)

alone : is_key_in_range (node_of a none none) key ≡ true
unfolding is_key_in_range
alone = refl

elsewhere : is_key_in_range (node_of c none (some d)) key ≡ false
elsewhere = (equal_ids-unserved c d none none key refl).0

read_request-build_response_test : read_request zeros (build_response request) ≡ some request
read_request-build_response_test = read_request-build_response zeros request request-IsRequest

handle_ext_msg-responds_example :
    ((handle_ext_msg string_hash zeros (node_of a none none) ht_create (build_response request)).1
      ≡ some (respond (build_response (reply_of request (λ q. none)))))
    × Models string_hash
        (after_set request (after_delete request (λ q. none)))
        (handle_ext_msg string_hash zeros
          (node_of a none none)
          ht_create
          (build_response request)).0
handle_ext_msg-responds_example =
    handle_ext_msg-responds string_hash zeros ht_create request (λ q. none) (node_of a none none)
      (ht_create-Models string_hash) new_Fits request-IsRequest alone

handle_ext_msg-forwards_test :
    handle_ext_msg string_hash zeros (node_of c none (some d)) ht_create (build_response request)
    ≡ (ht_create, some (forward (record { dest = d; payload = build_response request })))
handle_ext_msg-forwards_test =
    handle_ext_msg-forwards string_hash zeros ht_create request c d none request-IsRequest elsewhere

relay-cuts_test :
    relay zeros (build_response get_request) (build_response get_response)
    ≡ ok (12 ∷ 9 ∷ 0 ∷ 2 ∷ 0 ∷ 2 ∷ 97 ∷ 98 ∷ [])
unfolding build_response
relay-cuts_test =
    relay-cuts zeros get_request get_response get_request-IsRequest refl refl refl refl
