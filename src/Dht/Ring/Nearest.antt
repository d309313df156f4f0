-- ===== src/Dht/Ring/Nearest.antt =====
-- Which node of a ring of `Hash Table/server.c` is responsible for an identifier: the nearest one
-- before it, which is the order of `is_key_in_range` around the whole ring.
use c_computer_networking.Prelude.{
  ℕ, ◌<◌, ◌≤◌, ◌^◌, ◌≡◌, refl, Option, List, [], ◌∷◌, arith, ltb, Bool-cases, inl, inr, ◌⊎◌,
}
use mathlib.Core.Path.{subst⁻¹}
use c_computer_networking.HashTable.Table.{HashTable}
use c_computer_networking.Dht.Wire.{ServerInfo}
use c_computer_networking.Dht.Range.{sub16}
use c_computer_networking.Dht.Ring.{Peers, position, Follows, responsible, Nearest}

-- On the way from `f`, a point not beyond `v` is nearer to `v` than the points before it and than
-- those beyond `v`.
closer :
    (f s x v : ℕ)
    → f < 65536
    → s < 65536
    → x < 65536
    → v < 65536
    → sub16 s f ≤ sub16 v f
    → (sub16 x f ≤ sub16 s f) ⊎ (sub16 v f < sub16 x f)
    → sub16 v s ≤ sub16 v x
closer f s x v hf hs hx hv h (inl before) = omega arith
closer f s x v hf hs hx hv h (inr beyond) = omega arith

module _ (peers : Peers) (prev : ServerInfo → Option ServerInfo) (tables : ServerInfo → HashTable)
    (first : ServerInfo) (id : ℕ) (hf : first.id < 2 ^ 16) (hv : id < 2 ^ 16) where
  beyond-Nearest :
      (s node : ServerInfo) (rest : List ServerInfo)
      → s.id < 2 ^ 16
      → node.id < 2 ^ 16
      → position first s.id ≤ position first id
      → position first id < position first node.id
      → Follows peers prev tables first node rest
      → Nearest id s (node ∷ rest)
  beyond-Nearest s node [] hs hn h beyond follows =
      (closer first.id s.id node.id id hf hs hn hv h (inr beyond), tt)
  beyond-Nearest s node (next ∷ rest) hs hn h beyond (link, rises, hx, follows) = (
    closer first.id s.id node.id id hf hs hn hv h (inr beyond),
    beyond-Nearest s next rest hs hx h (omega arith) follows,
  )

  -- what `responsible` finds
  abbrev IsFound : ServerInfo → ServerInfo → List ServerInfo → Type 0
  IsFound s node rest =
      (position first node.id ≤ position first s.id)
      × (position first s.id ≤ position first id)
      × (s.id < 2 ^ 16)
      × Nearest id s (node ∷ rest)

  same-IsFound :
      (s t node : ServerInfo) (rest : List ServerInfo)
      → s ≡ t
      → IsFound t node rest
      → IsFound s node rest
  same-IsFound s t node rest e found = subst⁻¹ (λ x. IsFound x node rest) e found

  pub responsible-IsFound :
      (node : ServerInfo) (rest : List ServerInfo)
      → node.id < 2 ^ 16
      → position first node.id ≤ position first id
      → Follows peers prev tables first node rest
      → IsFound (responsible first id node rest) node rest
  responsible-IsFound node [] hn reached follows = (omega arith, reached, hn, (omega arith, tt))
  responsible-IsFound node (next ∷ rest) hn reached (link, rises, hx, follows) =
      elim (Bool-cases (ltb (position first id) (position first next.id))) [
        | inl e ↦
            same-IsFound (responsible first id node (next ∷ rest)) node node (next ∷ rest)
              (rw e refl)
              (
                omega arith,
                reached,
                hn,
                (omega arith, beyond-Nearest node next rest hn hx reached (ground arith) follows),
              )
        | inr e ↦
            let (after, before, hs, nearest) =
              responsible-IsFound next rest hx (ground arith) follows in
            let s = responsible first id next rest in
            same-IsFound (responsible first id node (next ∷ rest)) s node (next ∷ rest) (rw e refl)
              (
                omega arith,
                before,
                hs,
                (closer first.id s.id node.id id hf hs hn hv before (inl (omega arith)), nearest),
              )
      ]
