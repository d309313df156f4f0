-- ===== src/Dht/Node/Splice.antt =====
-- How a node gets into the ring of `Hash Table/server.c`, and what the ring keeps.
use c_computer_networking.Prelude.{
  ℕ, ◌<◌, ◌≤◌, ◌≡◌, refl, ◌≢◌, Bool, true, false, ◌&&◌, ◌||◌, Option, none, some, List, [], ◌∷◌,
  arith, if◌then◌else◌,
}
use c_computer_networking.Prelude.Outcome.{assertion, Outcome, ok, fault, ◌>>=◌, ◌>>◌}
use c_computer_networking.HashTable.Hash.{Bytes, string_hash16, string_hash16-lt}
use c_computer_networking.Dht.Wire.{
  ServerInfo, IsServerInfo, Action, join, notify, stabilize, fill_intl_msg, parse_msg, intl_msg_len,
  parse_msg-fill_intl_msg,
}
use c_computer_networking.Dht.Range.{sub16, in_arc, is_in_range, in_arc_split}
use c_computer_networking.Dht.Node.{
  DhtNode, Packet, received, check_msg, Effect, is_key_in_range, send_notify, send_stabilize,
  set_next, join_parsed, notify_parsed, new_prev, handle_join, handle_notify, handle_stabilize,
  handle_intl_msg,
}

-- On a message that another node filled in, the handlers see the fields of that node.
pub on_join :
    (node : DhtNode) (srv : ServerInfo)
    → IsServerInfo srv
    → handle_intl_msg node (fill_intl_msg join srv)
      ≡ ok (join_parsed node (fill_intl_msg join srv) srv)
unfolding handle_intl_msg handle_join fill_intl_msg
on_join node srv h = rw (parse_msg-fill_intl_msg join srv h) refl

pub on_notify :
    (node : DhtNode) (srv : ServerInfo)
    → IsServerInfo srv
    → handle_intl_msg node (fill_intl_msg notify srv) ≡ ok (notify_parsed node srv)
unfolding handle_intl_msg handle_notify fill_intl_msg
on_notify node srv h = rw (parse_msg-fill_intl_msg notify srv h) refl

pub on_stabilize :
    (node : DhtNode) (src : ServerInfo)
    → IsServerInfo src
    → handle_intl_msg node (fill_intl_msg stabilize src)
      ≡ ok (
        record node { prev = some (new_prev node src) },
        send_notify src (new_prev node src) ∷ [],
      )
unfolding handle_intl_msg handle_stabilize fill_intl_msg
on_stabilize node src h = rw (parse_msg-fill_intl_msg stabilize src h) refl

-- the message of kind `a` about `srv`, on its way to `dest`
abbrev pub message : Action → ServerInfo → ServerInfo → Packet
message a srv dest = record { dest = dest; payload = fill_intl_msg a srv }

-- `node` receives the message of kind `a` about `srv`, ends in `node'` and sends `packets`
abbrev pub Handles : DhtNode → Action → ServerInfo → DhtNode → List Packet → Type 0
Handles node a srv node' packets = handle_intl_msg node (fill_intl_msg a srv) ≡ ok (node', packets)

abbrev pub node_of : ServerInfo → Option ServerInfo → Option ServerInfo → DhtNode
node_of self prev next = record { self = self; prev = prev; next = next }

-- A node ignores its own address.
notify_self :
    (a n : ServerInfo) (p : Option ServerInfo)
    → notify_parsed (node_of a p (some n)) a ≡ (node_of a p (some n), [])
unfolding notify_parsed
notify_self a n p = ground arith

-- When `n`, which knows no other node, joins at `a`, whose arc up to its next node `b` holds the
-- identifier of `n`, `b` has `a` as its previous node, `n` and `a` have different identifiers, and
-- the fields of all three fit their words, the messages of the join, each handled where an earlier
-- one was sent to, leave `n` as the next node of `a` and the previous node of `b`, and `a` and `b`
-- as the previous and the next node of `n`.
pub join-splices :
    (a b n : ServerInfo) (before_a after_b : Option ServerInfo)
    → IsServerInfo a
    → IsServerInfo b
    → IsServerInfo n
    → is_in_range a b n ≡ true
    → n.id ≢ a.id
    → Handles
        (node_of a before_a (some b))
        join
        n
        (node_of a before_a (some n))
        (message notify b n ∷ message stabilize a n ∷ [])
      × Handles
          (node_of n none none)
          notify
          b
          (node_of n none (some b))
          (message stabilize n b ∷ [])
      × Handles
          (node_of n none (some b))
          stabilize
          a
          (node_of n (some a) (some b))
          (message notify a a ∷ [])
      × Handles
          (node_of b (some a) after_b)
          stabilize
          n
          (node_of b (some n) after_b)
          (message notify n n ∷ [])
      × Handles (node_of a before_a (some n)) notify a (node_of a before_a (some n)) []
      × Handles (node_of n (some a) (some b)) notify n (node_of n (some a) (some b)) []
unfolding join_parsed notify_parsed new_prev set_next send_notify send_stabilize
join-splices a b n before_a after_b ha hb hn inside ne = (
  rw (on_join (node_of a before_a (some b)) n hn, inside) refl,
  on_notify (node_of n none none) b hb,
  on_stabilize (node_of n none (some b)) a ha,
  rw (on_stabilize (node_of b (some a) after_b) n hn, inside) refl,
  rw (on_notify (node_of a before_a (some n)) a ha, notify_self a n before_a) refl,
  rw (on_notify (node_of n (some a) (some b)) n hn, notify_self n b (some a)) refl,
)

-- When `n`, which knows no other node, joins at `a`, which is alone, and the fields of both fit
-- their words, the messages of the join, each handled where an earlier one was sent to, leave each
-- node as both the previous and the next node of the other.
pub join-pairs :
    (a n : ServerInfo)
    → IsServerInfo a
    → IsServerInfo n
    → Handles
        (node_of a none none)
        join
        n
        (node_of a none (some n))
        (message notify a n ∷ message stabilize a n ∷ [])
      × Handles
          (node_of n none none)
          notify
          a
          (node_of n none (some a))
          (message stabilize n a ∷ [])
      × Handles
          (node_of n none (some a))
          stabilize
          a
          (node_of n (some a) (some a))
          (message notify a a ∷ [])
      × Handles
          (node_of a none (some n))
          stabilize
          n
          (node_of a (some n) (some n))
          (message notify n n ∷ [])
      × Handles (node_of a none (some n)) notify a (node_of a none (some n)) []
      × Handles (node_of n (some a) (some a)) notify n (node_of n (some a) (some a)) []
unfolding join_parsed notify_parsed new_prev set_next send_notify send_stabilize
join-pairs a n ha hn = (
  on_join (node_of a none none) n hn,
  on_notify (node_of n none none) a ha,
  on_stabilize (node_of n none (some a)) a ha,
  on_stabilize (node_of a none (some n)) n hn,
  rw (on_notify (node_of a none (some n)) a ha, notify_self a n none) refl,
  rw (on_notify (node_of n (some a) (some a)) n hn, notify_self n a (some a)) refl,
)

-- For nodes whose fields fit their words: if the arc from `a` to `b` holds the identifier of `n`,
-- a key is in the arc from `a` to `b` exactly if it is in that from `a` to `n` or in that from `n`
-- to `b`, and it is never in both.
pub join-divides :
    (a b n : ServerInfo) (pa qa pn : Option ServerInfo) (key : Bytes)
    → IsServerInfo a
    → IsServerInfo b
    → IsServerInfo n
    → is_in_range a b n ≡ true
    → (is_key_in_range (node_of a pa (some b)) key ≡ (
        is_key_in_range (node_of a qa (some n)) key || is_key_in_range (node_of n pn (some b)) key))
      × ((is_key_in_range (node_of a qa (some n)) key
            && is_key_in_range (node_of n pn (some b)) key)
          ≡ false)
unfolding is_key_in_range is_in_range
join-divides a b n pa qa pn key ha hb hn inside =
    in_arc_split a.id b.id (string_hash16 key) ha.id_fits hb.id_fits (string_hash16-lt key) n.id
      hn.id_fits inside

-- Of two neighbours with the same identifier, which is 0 where none is given, neither has any key
-- in its arc.
pub equal_ids-unserved :
    (a b : ServerInfo) (pa pb : Option ServerInfo) (key : Bytes)
    → a.id ≡ b.id
    → (is_key_in_range (node_of a pa (some b)) key ≡ false)
      × (is_key_in_range (node_of b pb (some a)) key ≡ false)
unfolding is_key_in_range in_arc
equal_ids-unserved a b pa pb key e = ground arith

-- how far the node's arc reaches: all around the ring for a single node
abbrev pub gap : DhtNode → ℕ
gap node = elim node.next [ none ↦ 65536 | some next ↦ sub16 next.id node.self.id ]

-- a handler that returns leaves the node's own address, and an arc that is not longer
abbrev pub Shrinks : DhtNode → Outcome Effect → Type 0
Shrinks node (ok (node', packets)) = (node'.self ≡ node.self) × (gap node' ≤ gap node)
Shrinks node (fault e) = Unit

handler-Shrinks :
    (node : DhtNode) (m : Outcome (Unit {0})) (p : Outcome ServerInfo) (f : ServerInfo → Effect)
    → ((srv : ServerInfo) → Shrinks node (ok (f srv)))
    → Shrinks node (m >> (p >>= λ srv. ok (f srv)))
handler-Shrinks node (ok u) (ok srv) f h = h srv
handler-Shrinks node (ok u) (fault e) f h = tt
handler-Shrinks node (fault e) p f h = tt

join_parsed-Shrinks :
    (node : DhtNode) (msg : Bytes) (srv : ServerInfo)
    → 0 < gap node
    → Shrinks node (ok (join_parsed node msg srv))
unfolding join_parsed set_next is_in_range in_arc
join_parsed-Shrinks node msg srv h = ground arith

notify_parsed-Shrinks :
    (node : DhtNode) (srv : ServerInfo) → Shrinks node (ok (notify_parsed node srv))
unfolding notify_parsed set_next is_in_range in_arc
notify_parsed-Shrinks node srv = ground arith

dispatch-Shrinks :
    (node : DhtNode) (m : Outcome (Unit {0})) (i j k : Bool) (x y z : Outcome Effect)
    → Shrinks node x
    → Shrinks node y
    → Shrinks node z
    → Shrinks node (m >> (if i then x else if j then y else if k then z else fault assertion))
dispatch-Shrinks node (fault e) i j k x y z hx hy hz = tt
dispatch-Shrinks node (ok u) true j k x y z hx hy hz = hx
dispatch-Shrinks node (ok u) false true k x y z hx hy hz = hy
dispatch-Shrinks node (ok u) false false true x y z hx hy hz = hz
dispatch-Shrinks node (ok u) false false false x y z hx hy hz = tt

-- Whatever datagram arrives at a node whose arc is not empty, a handler that returns keeps the
-- node's own address, and the arc is not longer than before.
pub handle_intl_msg-Shrinks :
    (node : DhtNode) (packet : Bytes) → 0 < gap node → Shrinks node (handle_intl_msg node packet)
unfolding handle_intl_msg handle_join handle_notify handle_stabilize
handle_intl_msg-Shrinks node packet h =
    let msg = received intl_msg_len packet in
    dispatch-Shrinks node _ _ _ _ _ _ _
      (handler-Shrinks node (check_msg join msg) (parse_msg msg) (λ srv. join_parsed node msg srv)
        (λ srv. join_parsed-Shrinks node msg srv h))
      (handler-Shrinks node (check_msg notify msg) (parse_msg msg) (λ srv. notify_parsed node srv)
        (λ srv. notify_parsed-Shrinks node srv))
      (handler-Shrinks node (check_msg stabilize msg) (parse_msg msg)
        (λ src. (
          record node { prev = some (new_prev node src) },
          send_notify src (new_prev node src) ∷ [],
        ))
        (λ src. (refl, omega arith)))
