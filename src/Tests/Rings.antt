-- ===== src/Tests/Rings.antt =====
-- `Hash Table/server.c` on a ring of three nodes, that a fourth one joins.
use c_computer_networking.Prelude.{
  ℕ, length, ◌≡◌, refl, ap, Option, none, some, [], ◌∷◌, arith, ◌==◌, if◌then◌else◌,
}
use c_computer_networking.Prelude.Outcome.{ok}
use c_computer_networking.HashTable.Hash.{Bytes, string_hash, string_hash16}
use c_computer_networking.HashTable.Chain.{same_key}
use c_computer_networking.HashTable.Table.{HashTable, ht_create}
use c_computer_networking.HashTable.Methods.{Fits, Models, ht_create-Models}
use c_computer_networking.HashTable.Refine.{Dictionary}
use c_computer_networking.Dht.Wire.{ServerInfo, join, fill_intl_msg}
use c_computer_networking.Dht.Range.{in_arc}
use c_computer_networking.Dht.Node.{DhtNode}
use c_computer_networking.Dht.Node.Splice.{node_of}
use c_computer_networking.Dht.Request.{Request, build_response, process_request}
use c_computer_networking.Dht.Request.Codec.{IsRequest}
use c_computer_networking.Dht.Request.Served.{after_delete, after_set}
use c_computer_networking.Dht.Ring.{Peers, Answer, Follows, Nearest, ask}
use c_computer_networking.Dht.Ring.Answered.{ask-answered}
use c_computer_networking.Dht.Ring.Joins.{carry, taken_in}
use c_computer_networking.Dht.Node.{new_node}
use c_computer_networking.Dht.Program.{Arrival, serve_loop, parse_arguments}
use c_computer_networking.Dht.Program.Safe.{EndsStanding, serve_loop-Models}
use c_computer_networking.Dht.Ring.Grown.{Joined, join-Follows}

-- a node with this identifier
abbrev at : ℕ → ServerInfo
at id = record { ip = 2130706433; port = 4000; id = id }

-- the node before is not known, as after a start
abbrev no_prev : ServerInfo → Option ServerInfo
no_prev s = none

abbrev new_table : ServerInfo → HashTable
new_table s = ht_create

-- 60000, 1000 and 30000, which is the order of the ring
abbrev next_of : ServerInfo → Option ServerInfo
next_of x =
    if x.id == 60000
    then some (at 1000)
    else if x.id == 1000
    then some (at 30000)
    else some (at 60000)

-- and 40000 behind 30000
abbrev next_after_join : ServerInfo → Option ServerInfo
next_after_join x =
    if x.id == 30000 then some (at 40000) else if x.id == 40000 then some (at 60000) else next_of x

abbrev network : (ServerInfo → Option ServerInfo) → Peers
network next x = some (node_of x none (next x), ht_create)

ring-Follows :
    Follows (network next_of) no_prev new_table (at 60000) (at 60000) (at 1000 ∷ at 30000 ∷ [])
ring-Follows = (refl, omega arith, omega arith, (refl, omega arith, omega arith, refl))

abbrev key : Bytes
key = 97 ∷ 98 ∷ []

abbrev request : Request
request = record { action = 6; transaction_id = 9; key = key; value = 5 ∷ [] }

request-IsRequest : IsRequest request
request-IsRequest = record { key_fits = omega arith; value_fits = omega arith }

new_Fits : Fits string_hash ht_create
unfolding ht_create
new_Fits = (omega arith, omega arith)

abbrev zeros : ℕ → ℕ
zeros i = 0

abbrev empty : ServerInfo → Dictionary
empty s q = none

-- set and get, and the value comes back with the get
abbrev answer : Answer
answer = record {
  response = ok (14 ∷ 9 ∷ 0 ∷ 2 ∷ 0 ∷ 1 ∷ 97 ∷ 98 ∷ 5 ∷ []);
  served_by = at 30000;
  table = (process_request string_hash ht_create request).1;
}

ask-answered_example :
    (ask string_hash zeros (network next_of) 3 (at 60000) (build_response request) ≡ some answer)
    × Models string_hash
        (after_set request (after_delete request (λ q. none)))
        (process_request string_hash ht_create request).1
    × Nearest (string_hash16 key) (at 30000) (at 60000 ∷ at 1000 ∷ at 30000 ∷ [])
unfolding in_arc string_hash16 build_response same_key
ask-answered_example =
    ask-answered string_hash zeros (network next_of) no_prev new_table empty request
      request-IsRequest (omega arith) (λ s. ht_create-Models string_hash) (λ s. new_Fits) (at 60000)
      (at 1000) (at 30000 ∷ []) 2 (omega arith) ring-Follows (omega arith)

-- the next node of what answers at an address
abbrev next_at : Option (DhtNode × HashTable) → Option ServerInfo
next_at none = none
next_at (some (node, tbl)) = node.next

network-Joined :
    Joined
      (network next_of)
      no_prev
      new_table
      (network next_after_join)
      no_prev
      new_table
      (at 40000)
      (at 30000)
      (at 60000)
network-Joined = record {
  before = refl;
  behind = refl;
  keep = λ x y not_s not_n link. ground (arith, ap next_at link);
}

join-Follows_example :
    (carry (network next_of) 3 (at 60000) (fill_intl_msg join (at 40000))
      ≡ some (taken_in no_prev (at 40000) (at 30000) (at 60000)))
    × Follows
        (network next_after_join)
        no_prev
        new_table
        (at 60000)
        (at 60000)
        (at 1000 ∷ at 30000 ∷ at 40000 ∷ [])
join-Follows_example =
    join-Follows (network next_of) no_prev new_table (at 60000) (at 1000) (at 30000 ∷ []) (at 40000)
      2 (network next_after_join) no_prev new_table (omega arith)
      (record { ip_fits = omega arith; port_fits = omega arith; id_fits = omega arith })
      ring-Follows (omega arith) (omega arith) network-Joined

-- a request, and one byte
abbrev arrival : Arrival
arrival = record { datagram = build_response request; answer = [] }

abbrev one_byte : Arrival
one_byte = record { datagram = 4 ∷ []; answer = [] }

serve_loop-Models_example :
    EndsStanding string_hash
      (serve_loop string_hash zeros 9 (arrival ∷ one_byte ∷ []) (new_node (at 5), ht_create))
serve_loop-Models_example =
    serve_loop-Models string_hash zeros 9 (arrival ∷ one_byte ∷ []) (new_node (at 5)) (omega arith)

-- the third argument is the identifier
parse_arguments_test :
    parse_arguments (λ arg. some (length arg)) ([] ∷ [] ∷ (1 ∷ 2 ∷ []) ∷ [])
    ≡ some (record { ip = []; port = []; registration = none; id = 2 })
unfolding parse_arguments
parse_arguments_test = refl
