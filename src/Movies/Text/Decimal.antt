-- ===== src/Movies/Text/Decimal.antt =====
-- What `%d` prints is scanned back.
use c_computer_networking.Prelude.{
  ℕ, zero, suc, ◌+◌, ◌/◌, ◌%◌, ◌^◌, ◌<◌, ◌≡◌, refl, ◌∙◌, inl, inr, true, some, [], ◌∷◌, arith, ltb,
  Bool-cases,
}
use c_computer_networking.Prelude.Int.{pos}
use c_computer_networking.HashTable.Hash.{Bytes}
use c_computer_networking.Movies.Text.{is_digit, digits, scan_int, decimal_from, decimal}

-- The loop that prints puts the digits of `n` before `after`.
digits-decimal_from :
    (fuel n acc : ℕ) (after : Bytes)
    → n < fuel
    → digits 0 (decimal_from fuel n after) ≡ digits n after
unfolding digits decimal_from
digits-decimal_from zero n acc after h = absurd (omega arith)
digits-decimal_from (suc fuel) n acc after h = elim (Bool-cases (ltb n 10)) [
  | inl small ↦ rw small (ground arith)
  | inr large ↦
      rw large (
        digits-decimal_from fuel (n / 10) acc ((48 + n % 10) ∷ after) (ground arith) ∙ ground arith)
]

-- what is printed starts with a digit
abbrev StartsWithDigit : Bytes → Type 0
StartsWithDigit [] = ⊥
StartsWithDigit (c ∷ s) = is_digit c ≡ true

decimal_from-StartsWithDigit :
    (fuel n : ℕ) (after : Bytes) → n < fuel → StartsWithDigit (decimal_from fuel n after)
unfolding decimal_from
decimal_from-StartsWithDigit zero n after h = absurd (omega arith)
decimal_from-StartsWithDigit (suc fuel) n after h = elim (Bool-cases (ltb n 10)) [
  | inl small ↦ rw small (ground arith)
  | inr large ↦ rw large (decimal_from-StartsWithDigit fuel (n / 10) _ (ground arith))
]

scan_int-digits :
    (s : Bytes) → StartsWithDigit s → digits 0 s < 2 ^ 31 → scan_int s ≡ some (pos (digits 0 s))
unfolding scan_int
scan_int-digits [] h small = absurd h
scan_int-digits (c ∷ s) h small = ground arith

-- A number that an `int` holds is read back from its decimal digits.
pub scan_int-decimal : (n : ℕ) → n < 2 ^ 31 → scan_int (decimal n) ≡ some (pos n)
unfolding decimal digits
scan_int-decimal n small =
    let same = digits-decimal_from (suc n) n 0 [] (omega arith) in
    scan_int-digits (decimal n) (decimal_from-StartsWithDigit (suc n) n [] (omega arith))
      (rw same small)
    ∙ rw same refl
