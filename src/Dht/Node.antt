-- ===== src/Dht/Node.antt =====
-- The node of the ring of `Hash Table/server.c`: its state, and what it does on an internal message.
-- The pointers are values (NULL is `none`); the messages it sends are listed in their order.
pub mod Splice
use c_computer_networking.Prelude.{
  ℕ, zero, suc, ◌≡◌, Bool, true, false, ◌&&◌, ◌||◌, not, Option, none, some, List, [], ◌∷◌, length,
  get_or, ◌==◌, if◌then◌else◌,
}
use c_computer_networking.Prelude.Outcome.{
  Fault, assertion, Outcome, ok, fault, ◌>>=◌, ◌>>◌, assert,
}
use c_computer_networking.HashTable.Hash.{Bytes, string_hash16}
use c_computer_networking.Dht.Wire.{
  has_bit, ServerInfo, Action, join, notify, stabilize, bit_of, internal_bit, intl_msg_len,
  fill_intl_msg, parse_msg,
}
use c_computer_networking.Dht.Range.{in_arc, is_in_range}

-- a datagram on its way
pub record Packet : Type 0 where
  pub dest : ServerInfo
  pub payload : Bytes

-- `dht_node`
pub record DhtNode : Type 0 where
  pub self : ServerInfo
  pub prev : Option ServerInfo
  pub next : Option ServerInfo

unfoldable pub is_key_in_range : DhtNode → Bytes → Bool
unfolding in_arc
is_key_in_range node key = elim node.next [
  | none ↦ true
  | some next ↦ in_arc node.self.id next.id (string_hash16 key)
]

abbrev pub Effect : Type 0
Effect = DhtNode × List Packet

abbrev pub send_intl_msg : Bytes → ServerInfo → Packet
send_intl_msg msg dest = record { dest = dest; payload = msg }

-- `notify(sock, dest, srv)`
unfoldable pub send_notify : ServerInfo → ServerInfo → Packet
send_notify dest srv = send_intl_msg (fill_intl_msg notify srv) dest

-- `stabilize(sock, dest)`
unfoldable pub send_stabilize : DhtNode → ServerInfo → Packet
send_stabilize node dest = send_intl_msg (fill_intl_msg stabilize node.self) dest

-- the node that `main` starts with, and the message by which `join` registers it at another node
abbrev pub new_node : ServerInfo → DhtNode
new_node self = record { self = self; prev = none; next = none }

unfoldable pub send_join : DhtNode → ServerInfo → Packet
send_join node registration = send_intl_msg (fill_intl_msg join node.self) registration

unfoldable pub set_next : DhtNode → ServerInfo → Effect
set_next node next = (record node { next = some next }, send_stabilize node next ∷ [])

-- `set_next` after the message `first`
abbrev pub set_next_after : Packet → DhtNode → ServerInfo → Effect
set_next_after first node next =
    let (node', packets) = set_next node next in (node', first ∷ packets)

-- the two asserts that open a handler
abbrev pub check_msg : Action → Bytes → Outcome (Unit {0})
check_msg a msg = do
  assert (has_bit (get_or msg 0 0) (bit_of a) && has_bit (get_or msg 0 0) internal_bit)
  assert (length msg == intl_msg_len)

-- a handler after its message is parsed
unfoldable pub join_parsed : DhtNode → Bytes → ServerInfo → Effect
join_parsed node msg srv = elim node.next [
  | none ↦ set_next_after (send_notify srv node.self) node srv
  | some next ↦
      if is_in_range node.self next srv || (next.id == node.self.id)
      then set_next_after (send_notify srv next) node srv
      else (node, send_intl_msg msg next ∷ [])
]

unfoldable pub handle_join : DhtNode → Bytes → Outcome Effect
handle_join node msg = do check_msg join msg; srv ← parse_msg msg; ok (join_parsed node msg srv)

unfoldable pub notify_parsed : DhtNode → ServerInfo → Effect
notify_parsed node srv = elim node.next [
  | none ↦ set_next node srv
  | some next ↦
      if is_in_range node.self next srv && not (srv.id == node.self.id)
      then set_next node srv
      else (node, [])
]

unfoldable pub handle_notify : DhtNode → Bytes → Outcome Effect
handle_notify node msg = do check_msg notify msg; srv ← parse_msg msg; ok (notify_parsed node srv)

-- The predecessor after a `stabilize` from `src`; it is never NULL, so the last assert holds.
unfoldable pub new_prev : DhtNode → ServerInfo → ServerInfo
new_prev node src = elim node.prev [
  | none ↦ src
  | some prev ↦ if is_in_range prev node.self src then src else prev
]

unfoldable pub handle_stabilize : DhtNode → Bytes → Outcome Effect
handle_stabilize node msg = do
  check_msg stabilize msg
  src ← parse_msg msg
  let prev = new_prev node src
  ok (record node { prev = some prev }, send_notify src prev ∷ [])

-- `recvfrom` of `n` bytes into a zeroed buffer: a longer datagram is cut.
abbrev pub received : ℕ → Bytes → Bytes
received zero packet = []
received (suc n) [] = 0 ∷ received n []
received (suc n) (b ∷ packet) = b ∷ received n packet

unfoldable pub handle_intl_msg : DhtNode → Bytes → Outcome Effect
handle_intl_msg node packet =
    let msg = received intl_msg_len packet in
    let flags = get_or msg 0 0 in
    assert (has_bit flags internal_bit)
    >> (if has_bit flags (bit_of join)
        then handle_join node msg
        else if has_bit flags (bit_of notify)
        then handle_notify node msg
        else if has_bit flags (bit_of stabilize)
        then handle_stabilize node msg
        else fault assertion)
