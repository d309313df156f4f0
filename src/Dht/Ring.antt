-- ===== src/Dht/Ring.antt =====
-- A request of a client in a whole ring of `Hash Table/server.c`: a node that is not responsible
-- passes it on, waits for the answer and relays it. Who answers at an address is the parameter
-- `peers`.
use c_computer_networking.Prelude.{
  ℕ, zero, suc, ◌+◌, ◌<◌, ◌≤◌, ◌^◌, ◌≡◌, Bool, true, false, Option, none, some, List, [], ◌∷◌, ltb,
  if◌then◌else◌,
}
use c_computer_networking.Prelude.Outcome.{Outcome, ok, ◌>>=◌}
use c_computer_networking.HashTable.Hash.{Bytes, string_hash16}
use c_computer_networking.HashTable.Table.{HashTable}
use c_computer_networking.Dht.Wire.{ServerInfo}
use c_computer_networking.Dht.Range.{sub16}
use c_computer_networking.Dht.Node.{DhtNode, Packet}
use c_computer_networking.Dht.Node.Splice.{node_of}
use c_computer_networking.Dht.Request.{Request, Reaction, respond, forward, handle_ext_msg, relay}
pub mod Answered
pub mod Grown
pub mod Joins
pub mod Nearest

abbrev pub Peers : Type 0
Peers = ServerInfo → Option (DhtNode × HashTable)

-- what comes of a request: the bytes that the client gets, the node that worked on the request, and
-- the table that it is left with
pub record Answer : Type 0 where
  pub response : Outcome Bytes
  pub served_by : ServerInfo
  pub table : HashTable

abbrev pub relayed : (ℕ → ℕ) → Bytes → Option Answer → Option Answer
relayed stale msg none = none
relayed stale msg (some a) =
    some (record a { response = a.response >>= λ response. relay stale msg response })

-- A node's part in a request; `rest` is what comes of the request at the next node.
abbrev pub take_part :
    (ℕ → ℕ) → (Packet → Option Answer) → DhtNode → HashTable × Option Reaction → Option Answer
take_part stale rest node (tbl, none) = none
take_part stale rest node (tbl, some (respond bytes)) =
    some (record { response = ok bytes; served_by = node.self; table = tbl })
take_part stale rest node (tbl, some (forward p)) = relayed stale p.payload (rest p)

-- The request `msg` sent to the address `dest`, which comes by at most `hops` nodes.
unfoldable pub ask : (Bytes → ℕ) → (ℕ → ℕ) → Peers → ℕ → ServerInfo → Bytes → Option Answer
ask hash stale peers zero dest msg = none
ask hash stale peers (suc hops) dest msg = elim (peers dest) [
  | none ↦ none
  | some (node, tbl) ↦
      take_part stale (λ p. ask hash stale peers hops p.dest p.payload) node
        (handle_ext_msg hash stale node tbl msg)
]

-- how far around the ring an identifier is from that of `first`
abbrev pub position : ServerInfo → ℕ → ℕ
position first id = sub16 id first.id

-- `peers` has `node` at its address with its table and `next` as its next node
abbrev pub Links :
    Peers
    → (ServerInfo → Option ServerInfo)
    → (ServerInfo → HashTable)
    → ServerInfo
    → ServerInfo
    → Type 0
Links peers prev tables node next =
    peers node ≡ some (node_of node (prev node) (some next), tables node)

-- `node` and the nodes behind it, in the order of the ring, which ends at `first`
abbrev pub Follows :
    Peers
    → (ServerInfo → Option ServerInfo)
    → (ServerInfo → HashTable)
    → ServerInfo
    → ServerInfo
    → List ServerInfo
    → Type 0
Follows peers prev tables first node [] = Links peers prev tables node first
Follows peers prev tables first node (next ∷ rest) =
    Links peers prev tables node next
    × (position first node.id < position first next.id)
    × (next.id < 2 ^ 16)
    × Follows peers prev tables first next rest

-- The last node of the ring, from `node` on, whose identifier is not beyond `id`.
abbrev pub responsible : ServerInfo → ℕ → ServerInfo → List ServerInfo → ServerInfo
responsible first id node [] = node
responsible first id node (next ∷ rest) =
    if ltb (position first id) (position first next.id)
    then node
    else responsible first id next rest

-- From `s` the way around the ring to `id` is not longer than from any of the nodes.
abbrev pub Nearest : ℕ → ServerInfo → List ServerInfo → Type 0
Nearest id s [] = Unit
Nearest id s (node ∷ nodes) = (sub16 id s.id ≤ sub16 id node.id) × Nearest id s nodes
