-- ===== src/Dht/Ring/Grown.antt =====
-- A ring of `Hash Table/server.c` after a node has joined it: it is a ring with one node more, of
-- which the messages of the join touch two.
use mathlib.Core.Path.{subst}
use c_computer_networking.Prelude.{
  ℕ, suc, ◌<◌, ◌≤◌, ◌^◌, ◌≡◌, ◌≢◌, refl, sym, ◌∙◌, inl, inr, Option, some, List, [], ◌∷◌, arith,
  length, ltb, Bool-cases,
}
use c_computer_networking.HashTable.Table.{HashTable}
use c_computer_networking.Dht.Wire.{ServerInfo, IsServerInfo, join, fill_intl_msg}
use c_computer_networking.Dht.Ring.{Peers, position, Links, Follows, responsible}
use c_computer_networking.Dht.Ring.Nearest.{responsible-IsFound}
use c_computer_networking.Dht.Ring.Joins.{carry, successor, spliced, taken_in, carried}

-- The ring after `n` has joined between `s` and `t`: `s` has `n` for its next node and `n` has `t`,
-- and the others keep theirs.
pub record Joined (peers : Peers) (prev : ServerInfo → Option ServerInfo)
    (tables : ServerInfo → HashTable) (peers' : Peers) (prev' : ServerInfo → Option ServerInfo)
    (tables' : ServerInfo → HashTable) (n s t : ServerInfo) : Type 0 where
  pub before : Links peers' prev' tables' s n
  pub behind : Links peers' prev' tables' n t
  pub keep :
      (x y : ServerInfo)
      → x.id ≢ s.id
      → x.id ≢ n.id
      → Links peers prev tables x y
      → Links peers' prev' tables' x y

module _ (peers : Peers) (prev : ServerInfo → Option ServerInfo) (tables : ServerInfo → HashTable)
    (peers' : Peers) (prev' : ServerInfo → Option ServerInfo) (tables' : ServerInfo → HashTable)
    (n s t : ServerInfo) (hn : IsServerInfo n)
    (joined : Joined peers prev tables peers' prev' tables' n s t) (first : ServerInfo)
    (hf : first.id < 2 ^ 16) where
  kept :
      (node : ServerInfo) (rest : List ServerInfo)
      → position first s.id < position first n.id
      → position first n.id < position first node.id
      → Follows peers prev tables first node rest
      → Follows peers' prev' tables' first node rest
  kept node [] hs beyond link = joined.keep node first (omega arith) (omega arith) link
  kept node (next ∷ rest) hs beyond (link, rises, hx, follows) = (
    joined.keep node next (omega arith) (omega arith) link,
    rises,
    hx,
    kept next rest hs (omega arith) follows,
  )

  spliced-Follows :
      (node : ServerInfo) (rest : List ServerInfo)
      → node.id < 2 ^ 16
      → s ≡ responsible first n.id node rest
      → t ≡ successor first n.id node rest
      → position first s.id < position first n.id
      → position first node.id ≤ position first n.id
      → Follows peers prev tables first node rest
      → Follows peers' prev' tables' first node (spliced first n node rest)
  spliced-Follows node [] hx is_s is_t hs reached link = (
    subst (λ x. Links peers' prev' tables' x n) is_s joined.before,
    subst (λ x. position first x.id < position first n.id) is_s hs,
    hn.id_fits,
    subst (λ x. Links peers' prev' tables' n x) is_t joined.behind,
  )
  spliced-Follows node (next ∷ rest) hx is_s is_t hs reached (link, rises, hb, follows) =
      elim (Bool-cases (ltb (position first n.id) (position first next.id))) [
        | inl e ↦
            let at_s : s ≡ node = is_s ∙ rw e refl in
            let at_t : t ≡ next = is_t ∙ rw e refl in
            let beyond : position first n.id < position first next.id = ground arith in
            rw e (
              subst (λ x. Links peers' prev' tables' x n) at_s joined.before,
              subst (λ x. position first x.id < position first n.id) at_s hs,
              hn.id_fits,
              (
                subst (λ x. Links peers' prev' tables' n x) at_t joined.behind,
                beyond,
                hb,
                kept next rest hs beyond follows,
              ),
            )
        | inr e ↦
            let here : position first next.id ≤ position first n.id = ground arith in
            let at_s : s ≡ responsible first n.id next rest = is_s ∙ rw e refl in
            let at_t : t ≡ successor first n.id next rest = is_t ∙ rw e refl in
            let found =
              responsible-IsFound peers prev tables first n.id hf hn.id_fits next rest hb here
                follows in
            let from : position first next.id ≤ position first s.id =
              subst (λ x. position first next.id ≤ position first x.id) (sym at_s) found.0 in
            rw e (
              joined.keep node next (omega arith) (omega arith) link,
              rises,
              hb,
              spliced-Follows next rest hb at_s at_t hs here follows,
            )
      ]

-- In a ring of at least two nodes, with identifiers of 16 bits, given in their order from the node
-- `first` on, the join of a new node `n`, sent to `first`, is passed on over no more hops than
-- there are nodes to the node `s` in whose arc `n` is, which takes `n` for its next node and sends
-- it the next node that it had and itself; and if then `s` has `n` and `n` has that node for its
-- next node, and the others keep theirs, the ring with `n` behind `s` is a ring again in the order
-- of the identifiers. The fields of `n` fit their words, and its identifier is not that of `s`.
pub join-Follows :
    (peers : Peers) (prev : ServerInfo → Option ServerInfo) (tables : ServerInfo → HashTable)
    (first second : ServerInfo) (rest : List ServerInfo) (n : ServerInfo) (hops : ℕ)
    (peers' : Peers) (prev' : ServerInfo → Option ServerInfo) (tables' : ServerInfo → HashTable)
    → first.id < 2 ^ 16
    → IsServerInfo n
    → Follows peers prev tables first first (second ∷ rest)
    → n.id ≢ (responsible first n.id first (second ∷ rest)).id
    → length (second ∷ rest) ≤ hops
    → Joined peers prev tables peers' prev' tables' n
        (responsible first n.id first (second ∷ rest))
        (successor first n.id first (second ∷ rest))
    → (carry peers (suc hops) first (fill_intl_msg join n)
        ≡ some (
            taken_in prev n
              (responsible first n.id first (second ∷ rest))
              (successor first n.id first (second ∷ rest))))
      × Follows peers' prev' tables' first first (spliced first n first (second ∷ rest))
join-Follows peers prev tables first second rest n hops peers' prev' tables' hf hn follows new
      enough joined =
    let s = responsible first n.id first (second ∷ rest) in
    let reached : position first first.id ≤ position first n.id = omega arith in
    let (after, before, hs, nearest) =
      responsible-IsFound peers prev tables first n.id hf hn.id_fits first (second ∷ rest) hf
        reached follows in
    let h_n = hn.id_fits in
    let rises : position first s.id < position first n.id = omega arith in
    (
      carried peers prev tables n hn first first (second ∷ rest) hops hf hf follows
          (inr (omega arith)) reached enough,
      spliced-Follows peers prev tables peers' prev' tables' n s
          (successor first n.id first (second ∷ rest)) hn joined first hf first (second ∷ rest) hf
          refl refl rises reached follows,
    )
