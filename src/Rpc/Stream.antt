-- ===== src/Rpc/Stream.antt =====
-- A TCP connection as the programs use it: `recv` with `MSG_WAITALL`.
use c_computer_networking.Prelude.{
  ℕ, Bool, true, zero, suc, Option, none, some, [], ◌∷◌, take, drop,
}
use c_computer_networking.HashTable.Hash.{Bytes}
use c_computer_networking.Dht.Request.{receive_over}

-- What the peer still sends before it closes, and after how many more calls of `recv` a call
-- returns -1 (`none` if none does).
pub record Connection : Type 0 where
  pub input : Bytes
  pub breaks : Option ℕ

-- `recv(sock, buffer, n, MSG_WAITALL)`: up to `n` bytes, fewer where the input ends, or -1
unfoldable pub recv : ℕ → Connection → Option (Bytes × Connection)
recv n conn = elim conn.breaks [
  | none ↦ some (take n conn.input, record conn { input = drop n conn.input })
  | some zero ↦ none
  | some (suc k) ↦ some (take n conn.input, record { input = drop n conn.input; breaks = some k })
]

-- The first `n` bytes of a buffer whose byte at `i` was `stale i`, after bytes were received and a
-- 0 was put behind them.
abbrev pub terminated : (ℕ → ℕ) → ℕ → ℕ → Bytes → Bytes
terminated stale i zero received = []
terminated stale i (suc n) [] = 0 ∷ receive_over stale (suc i) n []
terminated stale i (suc n) (b ∷ received) = b ∷ terminated stale (suc i) n received

-- whether the calls succeed that put up the socket of a server
pub record Setup : Type 0 where
  pub resolved : Bool
  pub opened : Bool
  pub bound : Bool
  pub listens : Bool

abbrev pub set_up : Setup
set_up = record { resolved = true; opened = true; bound = true; listens = true }
