-- ===== src/Rpc/Serve/Returns.antt =====
-- `serve` returns, whatever the client sends and wherever the connection breaks.
use c_computer_networking.Prelude.{
  ℕ, zero, suc, ◌<◌, ◌≡◌, refl, inl, inr, true, false, Bool, ◌⊎◌, none, some, arith, length,
  length-take, get_or, Option-cases,
}
use c_computer_networking.Prelude.Outcome.{Outcome, ok, fault}
use c_computer_networking.HashTable.Hash.{Bytes}
use c_computer_networking.HashTable.Table.{HashTable}
use c_computer_networking.Dht.Request.{ext_header_len}
use c_computer_networking.Rpc.Stream.{Connection, recv}
use c_computer_networking.Rpc.Serve.{serve_request, serve}

pub record IsBytes (bytes : Bytes) : Type 0 where
  pub below : (i : ℕ) → get_or bytes i 0 < 256

abbrev is_ok {ℓ} : {A : Type ℓ} → Outcome A → Bool
is_ok (ok a) = true
is_ok (fault e) = false

module _ (stale_key stale_value : ℕ → ℕ) where
  -- A connection that breaks at once, or ends within the header, is closed and changes nothing.
  pub serve-closes :
      (hash : Bytes → ℕ) (tbl : HashTable) (conn : Connection)
      → (conn.breaks ≡ some 0) ⊎ (length conn.input < ext_header_len)
      → serve stale_key stale_value hash tbl (some conn) ≡ ok (tbl, none)
  unfolding serve serve_request recv
  serve-closes hash tbl conn (inl broken) = rw broken refl
  serve-closes hash tbl conn (inr short) = elim (Option-cases conn.breaks) [
    | inl e ↦ ground (arith, length-take ext_header_len conn.input)
    | inr (zero, e) ↦ rw e refl
    | inr (suc k, e) ↦ ground (arith, length-take ext_header_len conn.input)
  ]
