-- ===== src/GoBackN/Arguments.antt =====
-- What the two programs of GoBackN/src.task share in `initialize`, which can call `exit`.
use c_computer_networking.Prelude.{ℕ, Option, none, some}

-- a value, or the status of a call of `exit`
pub data Run {ℓ} (A : Type ℓ) : Type ℓ where
  returns : A → Run A
  exits : ℕ → Run A

-- `help(1)` where `sscanf` converts nothing
abbrev pub or_help {ℓ κ} : {A : Type ℓ} {B : Type κ} → (A → B) → Option A → Run B
or_help f none = exits 1
or_help f (some a) = returns (f a)

abbrev pub and_then {ℓ κ} : {A : Type ℓ} {B : Type κ} → Run A → (A → Run B) → Run B
and_then (returns a) f = f a
and_then (exits n) f = exits n
