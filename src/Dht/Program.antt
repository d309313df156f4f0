-- ===== src/Dht/Program.antt =====
-- `main` of `Hash Table/server.c`: its arguments, and the loop over the datagrams that arrive. What
-- `getaddrinfo` and `sscanf` give, and the datagrams, are arguments.
pub mod Safe
use c_computer_networking.Prelude.{
  ℕ, zero, suc, Option, none, some, List, [], ◌∷◌, ◌++◌, map, get_or,
}
use c_computer_networking.Prelude.Outcome.{Outcome, ok, fault, ◌>>=◌}
use c_computer_networking.HashTable.Hash.{Bytes}
use c_computer_networking.HashTable.Table.{HashTable, ht_create}
use c_computer_networking.Dht.Wire.{ServerInfo}
use c_computer_networking.Dht.Node.{DhtNode, Packet, Effect, new_node, send_join}
use c_computer_networking.Dht.Request.{
  Reaction, respond, forward, Handled, internal, external, handle_msg, relay,
}

-- the arguments: the own address, that of a node of the ring if there is one, and an identifier
pub record Arguments : Type 0 where
  pub ip : Bytes
  pub port : Bytes
  pub registration : Option (Bytes × Bytes)
  pub id : ℕ

-- The identifier stays 0 where `sscanf` stores nothing.
abbrev pub id_of : (Bytes → Option ℕ) → Bytes → ℕ
id_of scan_u16 arg = elim (scan_u16 arg) [ none ↦ 0 | some n ↦ n ]

-- `argv` behind the name of the program
unfoldable pub parse_arguments : (Bytes → Option ℕ) → List Bytes → Option Arguments
parse_arguments scan_u16 (ip ∷ port ∷ []) =
    some (record { ip = ip; port = port; registration = none; id = 0 })
parse_arguments scan_u16 (ip ∷ port ∷ id ∷ []) =
    some (record { ip = ip; port = port; registration = none; id = id_of scan_u16 id })
parse_arguments scan_u16 (ip ∷ port ∷ r_ip ∷ r_port ∷ []) =
    some (record { ip = ip; port = port; registration = some (r_ip, r_port); id = 0 })
parse_arguments scan_u16 (ip ∷ port ∷ r_ip ∷ r_port ∷ id ∷ []) =
    some
      (record { ip = ip; port = port; registration = some (r_ip, r_port); id = id_of scan_u16 id })
parse_arguments scan_u16 _ = none

-- a datagram, and the answer that is received next if the datagram is passed on
pub record Arrival : Type 0 where
  pub datagram : Bytes
  pub answer : Bytes

-- what is sent: packets between nodes, or the answer to the client
pub data Sent : Type 0 where
  to_node : Packet → Sent
  to_client : Bytes → Sent

abbrev pub State : Type 0
State = DhtNode × HashTable

-- What follows from the handlers, or `none` where the datagram stays in the socket: a request that
-- is shorter than its header is only peeked at.
abbrev pub settle : (ℕ → ℕ) → State → Bytes → Handled → Outcome (Option (State × List Sent))
settle stale (node, tbl) answer (internal (ok (node', packets))) =
    ok (some ((node', tbl), map to_node packets))
settle stale (node, tbl) answer (internal (fault e)) = fault e
settle stale (node, tbl) answer (external (tbl', none)) = ok none
settle stale (node, tbl) answer (external (tbl', some (respond bytes))) =
    ok (some ((node, tbl'), to_client bytes ∷ []))
settle stale (node, tbl) answer (external (tbl', some (forward p))) = do
  response ← relay stale p.payload answer
  ok (some ((node, tbl'), to_node p ∷ to_client response ∷ []))

-- the rest of the loop behind a datagram: with the others, or `again` with one that stays
abbrev pub go_on :
    Outcome (State × List Sent)
    → (State → Outcome (State × List Sent))
    → Option (State × List Sent)
    → Outcome (State × List Sent)
go_on again rest none = again
go_on again rest (some (state', out)) = do (last, more) ← rest state'; ok (last, out ++ more)

module _ (hash : Bytes → ℕ) (stale : ℕ → ℕ) where
  -- So many rounds of the loop of `main` over what is in the socket. A datagram that stays is the
  -- next round's too; the loop waits where there is none.
  unfoldable pub serve_loop : ℕ → List Arrival → State → Outcome (State × List Sent)
  serve_loop zero arrivals state = ok (state, [])
  serve_loop (suc rounds) [] state = ok (state, [])
  serve_loop (suc rounds) (a ∷ arrivals) state = do
    step ← settle stale state a.answer (handle_msg hash stale state.0 state.1 a.datagram)
    go_on (serve_loop rounds (a ∷ arrivals) state) (serve_loop rounds arrivals) step

-- the node that `main` starts with
abbrev pub self_of : (Bytes → Bytes → ℕ × ℕ) → Arguments → ServerInfo
self_of resolve args =
    let (ip, port) = resolve args.ip args.port in record { ip = ip; port = port; id = args.id }

-- `join`, where there is a node to join at; its identifier does not matter for the packet
abbrev pub first_packets : (Bytes → Bytes → ℕ × ℕ) → Arguments → List Sent
first_packets resolve args = elim args.registration [
  | none ↦ []
  | some names ↦
      let (ip, port) = resolve names.0 names.1 in
      to_node
        (send_join (new_node (self_of resolve args)) (record { ip = ip; port = port; id = 0 }))
      ∷ []
]

abbrev pub with_first : List Sent → State × List Sent → State × List Sent
with_first first (state, out) = (state, first ++ out)

-- `main` for so many rounds, with a socket that can be put up; `none` where it returns 1 for its arguments.
unfoldable pub main :
    (Bytes → ℕ)
    → (ℕ → ℕ)
    → (Bytes → Option ℕ)
    → (Bytes → Bytes → ℕ × ℕ)
    → List Bytes
    → ℕ
    → List Arrival
    → Option (Outcome (State × List Sent))
main hash stale scan_u16 resolve argv rounds arrivals = elim (parse_arguments scan_u16 argv) [
  | none ↦ none
  | some args ↦ some (do
    run ← serve_loop hash stale rounds arrivals (new_node (self_of resolve args), ht_create)
    ok (with_first (first_packets resolve args) run))
]
