-- ===== src/Movies/Text.antt =====
-- What the server uses of the C library's text functions. A text ends at its NUL byte, so it is the
-- list of its bytes.
pub mod Decimal
use Prim.Native.Char.{code}
use Prim.Native.String.{String}
use c_computer_networking.Prelude.{
  ℕ, zero, suc, ◌+◌, ◌-◌, ◌*◌, ◌/◌, ◌%◌, ◌^◌, Bool, ◌&&◌, ◌||◌, Option, none, some, List, [], ◌∷◌,
  take, ltb, leb, ◌==◌, if◌then◌else◌,
}
use c_computer_networking.Prelude.Int.{ℤ, pos, negsuc, sub_ℕ, wrap_signed}
use c_computer_networking.HashTable.Hash.{Bytes}

-- the bytes of a literal
abbrev pub codes : String → Bytes
codes String.[] = []
codes (String.◌∷◌ c s) = code c ∷ codes s

abbrev is_space : ℕ → Bool
is_space c = c == 32 || (leb 9 c && leb c 13)

abbrev pub is_digit : ℕ → Bool
is_digit c = leb 48 c && leb c 57

skip_spaces : Bytes → Bytes
skip_spaces [] = []
skip_spaces (c ∷ s) = if is_space c then skip_spaces s else c ∷ s

-- the number of the digits that come next
digits : ℕ → Bytes → ℕ
digits acc [] = acc
digits acc (c ∷ s) = if is_digit c then digits (acc * 10 + (c - 48)) s else acc

-- the number that starts here, if a digit does
unsigned : Bytes → Option ℕ
unfolding digits
unsigned [] = none
unsigned (c ∷ s) = if is_digit c then some (digits 0 (c ∷ s)) else none

negated : Option ℕ → Option ℤ
negated none = none
negated (some n) = some (sub_ℕ 0 n)

positive : Option ℕ → Option ℤ
positive none = none
positive (some n) = some (pos n)

scan_sign : Bytes → Option ℤ
unfolding unsigned negated positive
scan_sign [] = none
scan_sign (c ∷ s) =
    if c == 45
    then negated (unsigned s)
    else if c == 43
    then positive (unsigned s)
    else positive (unsigned (c ∷ s))

-- A number outside the range of `long` is read as the nearest one in it.
as_long : ℤ → ℤ
as_long (pos n) = if ltb n (2 ^ 63) then pos n else pos (2 ^ 63 - 1)
as_long (negsuc n) = if ltb n (2 ^ 63) then negsuc n else negsuc (2 ^ 63 - 1)

stored : Option ℤ → Option ℤ
unfolding as_long
stored none = none
stored (some z) = some (wrap_signed 32 (as_long z))

-- `sscanf(s, "%d", &n)` into an `int`: what is stored, or `none` where nothing is. A number that is
-- too large is read as a `long` and cut, as glibc does it.
unfoldable pub scan_int : Bytes → Option ℤ
unfolding skip_spaces scan_sign stored
scan_int s = stored (scan_sign (skip_spaces s))

decimal_from : ℕ → ℕ → Bytes → Bytes
decimal_from zero n after = after
decimal_from (suc fuel) n after =
    let more = decimal_from fuel (n / 10) ((48 + n % 10) ∷ after) in
    if ltb n 10 then (48 + n) ∷ after else more

-- `%d` of a number that is not negative; the fuel is more than its digits
unfoldable pub decimal : ℕ → Bytes
unfolding decimal_from
decimal n = decimal_from (suc n) n []

-- `snprintf` into a buffer of `size` bytes, with its NUL byte
abbrev pub snprintf : ℕ → Bytes → Bytes
snprintf size s = take (size - 1) s
