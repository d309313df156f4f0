-- ===== src/Dht/Request/Served.antt =====
-- The processing of a request against the dictionary that the table stands for.
use c_computer_networking.Prelude.{
  ℕ, ◌≡◌, refl, inl, inr, none, some, [], arith, if◌then◌else◌, Bool-cases,
}
use c_computer_networking.HashTable.Hash.{Bytes}
use c_computer_networking.HashTable.Table.{HashTable, ht_set_value}
use c_computer_networking.HashTable.Methods.{
  Fits, Models, update, answer, ht_get_value-view, ht_delete_key-Writes, size-ht_delete_key,
  ht_set_value-Writes,
}
use c_computer_networking.HashTable.Refine.{Dictionary, update_congr}
use c_computer_networking.Dht.Wire.{has_bit, flip_bit}
use c_computer_networking.Dht.Request.{
  Request, delete_bit, set_bit, get_bit, acknowledgment_bit, on_failure, found_value,
  process_delete, process_set, process_get, process_request,
}

-- the dictionary after the delete of a request, and after its set
abbrev pub after_delete : Request → Dictionary → Dictionary
after_delete req f = if has_bit req.action delete_bit then update f req.key none else f

abbrev pub after_set : Request → Dictionary → Dictionary
after_set req f = if has_bit req.action set_bit then update f req.key (some req.value) else f

-- the bit of a delete that finds nothing is taken back
abbrev pub deleted_action : Request → Dictionary → ℕ
deleted_action req f =
    if has_bit req.action delete_bit
    then on_failure (answer (f req.key)).0 delete_bit req.action
    else req.action

-- The response to a request, from the dictionary.
abbrev pub reply_of : Request → Dictionary → Request
reply_of req f =
    let action = deleted_action req f in
    let found = answer (after_set req (after_delete req f) req.key) in
    let (action, send_key, send_value) =
      if has_bit req.action get_bit then found_value action req.key found else (action, [], []) in
    record {
      action = flip_bit action acknowledgment_bit;
      transaction_id = req.transaction_id;
      key = send_key;
      value = send_value;
    }

-- taking back the bit of the delete leaves the other bits
pub deleted_action-bits :
    (req : Request) (f : Dictionary)
    → (has_bit (deleted_action req f) set_bit ≡ has_bit req.action set_bit)
      × (has_bit (deleted_action req f) get_bit ≡ has_bit req.action get_bit)
deleted_action-bits req f = ground arith

module _ (hash : Bytes → ℕ) where
  pub process_delete-Models :
      (req : Request) (tbl : HashTable) (f : Dictionary)
      → Models hash f tbl
      → Fits hash tbl
      → Models hash (after_delete req f) (process_delete hash req tbl req.action).1
        × ((process_delete hash req tbl req.action).0 ≡ deleted_action req f)
        × Fits hash (process_delete hash req tbl req.action).1
  unfolding process_delete
  process_delete-Models req tbl f m fits =
      let (w, status) = ht_delete_key-Writes hash tbl m.0 req.key fits.1 in
      let size = size-ht_delete_key hash tbl m.0 req.key in
      elim (Bool-cases (has_bit req.action delete_bit)) [
        | inl e ↦ rw e (
          update_congr hash f tbl _ req.key none m w.models,
          rw (status, m.1 req.key) refl,
          (omega (arith, size), omega (arith, w.counts)),
        )
        | inr e ↦ rw e (m, refl, fits)
      ]

  process_set-Models :
      (req : Request) (tbl : HashTable) (f : Dictionary) (action : ℕ)
      → Models hash f tbl
      → Fits hash tbl
      → has_bit action set_bit ≡ has_bit req.action set_bit
      → Models hash (after_set req f) (process_set hash req tbl action).1
        × ((process_set hash req tbl action).0 ≡ action)
  unfolding process_set ht_set_value
  process_set-Models req tbl f action m fits same =
      let w = ht_set_value-Writes hash tbl req.key req.value m.0 fits in
      elim (Bool-cases (has_bit req.action set_bit)) [
        | inl e ↦ rw (same, e) (update_congr hash f tbl _ req.key (some req.value) m w.models, refl)
        | inr e ↦ rw (same, e) (m, refl)
      ]

  process_get-reply :
      (req : Request) (tbl : HashTable) (f : Dictionary) (action : ℕ)
      → Models hash f tbl
      → process_get hash req tbl action ≡ (
          if has_bit action get_bit
          then found_value action req.key (answer (f req.key))
          else (action, [], []))
  unfolding process_get
  process_get-reply req tbl f action m =
      rw (ht_get_value-view hash tbl req.key m.0, m.1 req.key) refl

  -- On a valid table, a request is answered from the dictionary, and leaves the table valid with the
  -- dictionary that it asks for: the delete first, then the set, and the get sees both.
  pub process_request-reply :
      (tbl : HashTable) (f : Dictionary) (req : Request)
      → Models hash f tbl
      → Fits hash tbl
      → Models hash (after_set req (after_delete req f)) (process_request hash tbl req).1
        × ((process_request hash tbl req).0 ≡ reply_of req f)
  unfolding process_request
  process_request-reply tbl f req m fits =
      let (m1, action1, fits1) = process_delete-Models req tbl f m fits in
      let (set_same, get_same) = deleted_action-bits req f in
      let (action, tbl1) = process_delete hash req tbl req.action in
      let (m2, action2) =
        process_set-Models req tbl1 (after_delete req f) action m1 fits1 (rw action1 set_same) in
      let g = after_set req (after_delete req f) in
      let reply = process_get-reply req (process_set hash req tbl1 action).1 g action m2 in
      (m2, rw (action2, reply, action1, get_same) refl)
