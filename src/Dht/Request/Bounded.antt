-- ===== src/Dht/Request/Bounded.antt =====
-- How far the table grows by a request.
use c_computer_networking.Prelude.{ℕ, suc, ◌^◌, ◌<◌, ◌≡◌, arith, Bool-cases, inl, inr}
use c_computer_networking.HashTable.Hash.{Bytes}
use c_computer_networking.HashTable.Table.{HashTable}
use c_computer_networking.HashTable.Refine.{Dictionary, Bounded, set-Bounded, delete-Bounded}
use c_computer_networking.Dht.Wire.{has_bit}
use c_computer_networking.Dht.Request.{
  Request, delete_bit, set_bit, process_delete, process_set, process_request,
}
use c_computer_networking.Dht.Request.Served.{
  after_delete, after_set, process_delete-Models, deleted_action-bits,
}

module _ (hash : Bytes → ℕ) where
  process_delete-Bounded :
      (m : ℕ) (f : Dictionary) (tbl : HashTable) (r : Request)
      → m < 2 ^ 60
      → Bounded hash m f tbl
      → Bounded hash m (after_delete r f) (process_delete hash r tbl r.action).1
  unfolding process_delete
  process_delete-Bounded m f tbl r fits b = elim (Bool-cases (has_bit r.action delete_bit)) [
    | inl e ↦ rw e (delete-Bounded hash m f tbl r.key fits b).0
    | inr e ↦ rw e b
  ]

  process_set-Bounded :
      (m : ℕ) (f : Dictionary) (tbl : HashTable) (r : Request) (action : ℕ)
      → m < 2 ^ 60
      → has_bit action set_bit ≡ has_bit r.action set_bit
      → Bounded hash m f tbl
      → Bounded hash (suc m) (after_set r f) (process_set hash r tbl action).1
  unfolding process_set
  process_set-Bounded m f tbl r action fits same b = elim (Bool-cases (has_bit r.action set_bit)) [
    | inl e ↦ rw (same, e) (set-Bounded hash m f tbl r.key r.value fits b)
    | inr e ↦
        rw (same, e)
          (record { models = b.models; few = omega (arith, b.few); small = omega (arith, b.small) })
  ]

  -- A request adds at most one element.
  pub process_request-Bounded :
      (m : ℕ) (f : Dictionary) (tbl : HashTable) (r : Request)
      → m < 2 ^ 60
      → Bounded hash m f tbl
      → Bounded hash (suc m) (after_set r (after_delete r f)) (process_request hash tbl r).1
  unfolding process_request
  process_request-Bounded m f tbl r fits b =
      let (models, action, ranges) =
        process_delete-Models hash r tbl f b.models (omega (arith, b.few, b.small)) in
      let same = (deleted_action-bits r f).0 in
      let (action', tbl') = process_delete hash r tbl r.action in
      process_set-Bounded m (after_delete r f) tbl' r action' fits (rw action same)
        (process_delete-Bounded m f tbl r fits b)
