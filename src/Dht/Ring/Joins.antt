-- ===== src/Dht/Ring/Joins.antt =====
-- A node joins a ring of `Hash Table/server.c` at any of its nodes: the message of its join is
-- passed on to the node in whose arc it is.
use c_computer_networking.Prelude.{
  ℕ, zero, suc, ◌<◌, ◌≤◌, ◌^◌, ◌≡◌, refl, ◌∙◌, ◌⊎◌, inl, inr, true, false, Option, none, some, List,
  [], ◌∷◌, arith, length, ltb, ◌==◌, Bool-cases, if◌then◌else◌,
}
use c_computer_networking.Prelude.Outcome.{Outcome, ok, fault}
use c_computer_networking.HashTable.Hash.{Bytes}
use c_computer_networking.HashTable.Table.{HashTable}
use c_computer_networking.Dht.Wire.{
  ServerInfo, IsServerInfo, join, notify, stabilize, fill_intl_msg,
}
use c_computer_networking.Dht.Range.{sub16, in_arc, is_in_range}
use c_computer_networking.Dht.Node.{
  Packet, Effect, send_notify, send_stabilize, set_next, join_parsed, handle_intl_msg,
}
use c_computer_networking.Dht.Node.Splice.{node_of, message, on_join}
use c_computer_networking.Dht.Ring.{Peers, position, Links, Follows, responsible}
use c_computer_networking.Dht.Ring.Answered.{in_arc-position, in_arc-last}

-- what comes of a message that is handled: one that is passed on is handled where it is sent to
abbrev pub pass_on : (Packet → Option Effect) → Outcome Effect → Option Effect
pass_on rest (ok (node, p ∷ [])) = rest p
pass_on rest (ok (node, [])) = some (node, [])
pass_on rest (ok (node, p ∷ q ∷ packets)) = some (node, p ∷ q ∷ packets)
pass_on rest (fault e) = none

-- The message `msg` of a join, sent to the address `dest`, and passed on by at most `hops` nodes.
unfoldable pub carry : Peers → ℕ → ServerInfo → Bytes → Option Effect
carry peers zero dest msg = none
carry peers (suc hops) dest msg = elim (peers dest) [
  | none ↦ none
  | some (node, tbl) ↦ pass_on (λ p. carry peers hops p.dest p.payload) (handle_intl_msg node msg)
]

-- the next node of the responsible one
abbrev pub successor : ServerInfo → ℕ → ServerInfo → List ServerInfo → ServerInfo
successor first id node [] = first
successor first id node (next ∷ rest) =
    if ltb (position first id) (position first next.id) then next else successor first id next rest

-- the nodes behind `node`, with `n` behind the responsible one
abbrev pub spliced : ServerInfo → ServerInfo → ServerInfo → List ServerInfo → List ServerInfo
spliced first n node [] = n ∷ []
spliced first n node (next ∷ rest) =
    if ltb (position first n.id) (position first next.id)
    then n ∷ next ∷ rest
    else next ∷ spliced first n next rest

-- the node `s` takes `n` for its next node, and sends it the one that it had, and itself
abbrev pub taken_in :
    (ServerInfo → Option ServerInfo) → ServerInfo → ServerInfo → ServerInfo → Effect
taken_in prev n s t = (node_of s (prev s) (some n), message notify t n ∷ message stabilize s n ∷ [])

module _ (peers : Peers) (prev : ServerInfo → Option ServerInfo) (tables : ServerInfo → HashTable)
    (n : ServerInfo) (hn : IsServerInfo n) where
  abbrev join_msg : Bytes
  join_msg = fill_intl_msg join n

  carry-here :
      (hops : ℕ) (a b : ServerInfo)
      → Links peers prev tables a b
      → in_arc a.id b.id n.id ≡ true
      → carry peers (suc hops) a join_msg ≡ some (taken_in prev n a b)
  unfolding carry join_parsed is_in_range set_next send_notify send_stabilize
  carry-here hops a b link mine =
      rw (link, carry, on_join (node_of a (prev a) (some b)) n hn, mine) refl

  carry-next :
      (hops : ℕ) (a b : ServerInfo)
      → Links peers prev tables a b
      → in_arc a.id b.id n.id ≡ false
      → (b.id == a.id) ≡ false
      → carry peers (suc hops) a join_msg ≡ carry peers hops b join_msg
  unfolding carry join_parsed is_in_range
  carry-next hops a b link other differ =
      rw (link, carry, on_join (node_of a (prev a) (some b)) n hn, other, differ) refl

  differ : (f a b : ℕ) → sub16 a f < sub16 b f → (b == a) ≡ false
  differ f a b h = ground arith

  pub carried :
      (first node : ServerInfo) (rest : List ServerInfo) (hops : ℕ)
      → first.id < 2 ^ 16
      → node.id < 2 ^ 16
      → Follows peers prev tables first node rest
      → (0 < position first node.id) ⊎ (0 < length rest)
      → position first node.id ≤ position first n.id
      → length rest ≤ hops
      → carry peers (suc hops) node join_msg
        ≡ some (taken_in prev n (responsible first n.id node rest) (successor first n.id node rest))
  carried first node [] hops hf hx link (inl behind) reached enough =
      carry-here hops node first link
        (in_arc-last first.id node.id n.id hf hx hn.id_fits behind reached)
  carried first node [] hops hf hx link (inr nobody) reached enough = elim nobody [ ]
  carried first node (next ∷ rest) zero hf hx follows some_behind reached enough = elim enough [ ]
  carried first node (next ∷ rest) (suc hops) hf hx (link, rises, hb, follows) some_behind reached
        enough =
      let arc = in_arc-position first.id node.id next.id n.id hf hx hb hn.id_fits rises reached in
      elim (Bool-cases (ltb (position first n.id) (position first next.id))) [
        | inl e ↦ rw e (carry-here (suc hops) node next link (arc ∙ e))
        | inr e ↦ rw e (
            carry-next (suc hops) node next link (arc ∙ e) (differ first.id node.id next.id rises)
            ∙ carried first next rest hops hf hb follows (inl (omega arith)) (ground arith)
                (omega arith))
      ]
