-- ===== src/Dht/Request.antt =====
-- The requests of a client: `handle_ext_msg` of `Hash Table/server.c`, whose part on the table is
-- also `serve` of `Distributed Hash Table/server.c`. The bytes that a buffer holds before anything
-- is received into it are the parameter `stale`.
use c_computer_networking.Prelude.{
  ℕ, zero, suc, ◌+◌, ◌-◌, ◌*◌, ◌/◌, ◌%◌, ◌^◌, ◌≤◌, ◌<◌, ◌≡◌, Bool, true, false, not, Option, none,
  some, List, [], ◌∷◌, ◌++◌, length, take, drop, get_or, ltb, ◌==◌, if◌then◌else◌,
}
use c_computer_networking.Prelude.Outcome.{Outcome, ok, ◌>>=◌, ◌>>◌, assert}
use c_computer_networking.HashTable.Hash.{Bytes}
use c_computer_networking.HashTable.Table.{
  Status, success, failure, HashTable, ht_get_value, ht_set_value, ht_delete_key,
}
use c_computer_networking.Dht.Wire.{has_bit, flip_bit, read16, ServerInfo, internal_bit}
use c_computer_networking.Dht.Node.{Effect, handle_intl_msg, DhtNode, Packet, is_key_in_range}
pub mod Bounded
pub mod Served
pub mod Codec
pub mod Handler

-- `delete_mask`, `set_mask`, `get_mask` and `acknowledgment_mask` are `1 << k`
abbrev pub delete_bit : ℕ
delete_bit = 0

abbrev pub set_bit : ℕ
set_bit = 1

abbrev pub get_bit : ℕ
get_bit = 2

abbrev pub acknowledgment_bit : ℕ
acknowledgment_bit = 3

-- `EXT_HEADER_LEN`
abbrev pub ext_header_len : ℕ
ext_header_len = 6

-- a request, and also a response
pub record Request : Type 0 where
  pub action : ℕ
  pub transaction_id : ℕ
  pub key : Bytes
  pub value : Bytes

-- `n` bytes received into a buffer whose byte at `i` was `stale i`
abbrev pub receive_over : (ℕ → ℕ) → ℕ → ℕ → Bytes → Bytes
receive_over stale i zero packet = []
receive_over stale i (suc n) [] = stale i ∷ receive_over stale (suc i) n []
receive_over stale i (suc n) (b ∷ packet) = b ∷ receive_over stale (suc i) n packet

-- `EXT_HEADER_LEN + recv_key_len + recv_value_len`, from the two lengths of the header
abbrev pub claimed_len : Bytes → ℕ
claimed_len msg = ext_header_len + read16 msg 2 + read16 msg 4

-- The datagram taken apart; one that is shorter than the header is not taken from the socket.
unfoldable pub read_request : (ℕ → ℕ) → Bytes → Option Request
read_request stale packet =
    let msg = receive_over stale 0 (claimed_len packet) packet in
    let recv_key_len = read16 packet 2 in
    let recv_value_len = read16 packet 4 in
    if ltb (length packet) ext_header_len
    then none
    else some (record {
      action = get_or packet 0 0;
      transaction_id = get_or packet 1 0;
      key = take recv_key_len (drop ext_header_len msg);
      value = take recv_value_len (drop recv_key_len (drop ext_header_len msg));
    })

-- a failed operation takes its bit back
abbrev pub on_failure : Status → ℕ → ℕ → ℕ
on_failure success bit action = action
on_failure failure bit action = flip_bit action bit

-- the action, the key and the value of the response
abbrev pub found_value : ℕ → Bytes → Status × Option Bytes → ℕ × Bytes × Bytes
found_value action key (success, some value) = (action, key, value)
found_value action key (success, none) = (action, key, [])
found_value action key (failure, result) = (on_failure failure get_bit action, [], [])

module _ (hash : Bytes → ℕ) where
  unfoldable pub process_delete : Request → HashTable → ℕ → ℕ × HashTable
  process_delete req tbl action =
      if has_bit action delete_bit
      then (let (status, tbl') = ht_delete_key hash tbl req.key in
          (on_failure status delete_bit action, tbl'))
      else (action, tbl)

  unfoldable pub process_set : Request → HashTable → ℕ → ℕ × HashTable
  process_set req tbl action =
      if has_bit action set_bit
      then (let (status, tbl') = ht_set_value hash tbl req.key req.value in
          (on_failure status set_bit action, tbl'))
      else (action, tbl)

  unfoldable pub process_get : Request → HashTable → ℕ → ℕ × Bytes × Bytes
  process_get req tbl action =
      if has_bit action get_bit
      then found_value action req.key (ht_get_value hash tbl req.key)
      else (action, [], [])

  -- delete, set and get in this order; the response is acknowledged
  unfoldable pub process_request : HashTable → Request → Request × HashTable
  process_request tbl req =
      let (action, tbl) = process_delete req tbl req.action in
      let (action, tbl) = process_set req tbl action in
      let (action, send_key, send_value) = process_get req tbl action in
      (
        record {
          action = flip_bit action acknowledgment_bit;
          transaction_id = req.transaction_id;
          key = send_key;
          value = send_value;
        },
        tbl,
      )

-- The bytes of a response; `htons` keeps 16 bits of a length.
-- NULL with the length 0 is the empty list, so the asserts that a buffer with a length is not NULL
-- hold: `process_get` sets both buffers with their lengths.
unfoldable pub build_response : Request → Bytes
build_response r =
    r.action
      ∷ r.transaction_id
      ∷ (length r.key / 256 % 256)
      ∷ (length r.key % 256)
      ∷ (length r.value / 256 % 256)
      ∷ (length r.value % 256)
      ∷ r.key
    ++ r.value

-- what the node does with a request: answer the client, or pass the datagram on to `next`
pub data Reaction : Type 0 where
  respond : Bytes → Reaction
  forward : Packet → Reaction

abbrev pub forward_to : Option ServerInfo → Bytes → Option Reaction
forward_to none msg = none
forward_to (some next) msg = some (forward (record { dest = next; payload = msg }))

module _ (hash : Bytes → ℕ) (stale : ℕ → ℕ) where
  abbrev pub react : DhtNode → HashTable → Bytes → Request → HashTable × Option Reaction
  react node tbl packet req =
      let (response, tbl') = process_request hash tbl req in
      if is_key_in_range node req.key
      then (tbl', some (respond (build_response response)))
      else (tbl, forward_to node.next (receive_over stale 0 (claimed_len packet) packet))

  unfoldable pub handle_ext_msg : DhtNode → HashTable → Bytes → HashTable × Option Reaction
  handle_ext_msg node tbl packet = elim (read_request stale packet) [
    | none ↦ (tbl, none)
    | some req ↦ react node tbl packet req
  ]

-- what a datagram is to a node
pub data Handled : Type 0 where
  internal : Outcome Effect → Handled
  external : HashTable × Option Reaction → Handled

-- The first bit of a datagram tells messages between nodes from requests.
unfoldable pub handle_msg : (Bytes → ℕ) → (ℕ → ℕ) → DhtNode → HashTable → Bytes → Handled
handle_msg hash stale node tbl packet =
    if has_bit (get_or packet 0 0) internal_bit
    then internal (handle_intl_msg node packet)
    else external (handle_ext_msg hash stale node tbl packet)

-- The second half of a forward: the answer that comes back is relayed to the client, in a buffer of
-- the length that the request `msg` claims.
unfoldable pub relay : (ℕ → ℕ) → Bytes → Bytes → Outcome Bytes
relay stale msg response = do
  assert (not (has_bit (get_or response 0 0) internal_bit))
  assert (get_or response 1 0 == get_or msg 1 0)
  ok (receive_over stale 0 (claimed_len msg) response)
