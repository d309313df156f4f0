-- ===== src/GoBackN/Timeval.antt =====
-- timeval_macros.h, and the waiting time that the sender computes with it.
use c_computer_networking.Prelude.{
  ℕ, ◌+◌, ◌-◌, ◌*◌, ◌^◌, ◌<◌, ◌≡◌, Bool, ◌||◌, arith, ltb, leb, ◌==◌, if◌then◌else◌,
}
use c_computer_networking.Prelude.Int.{ℤ, pos, pos_part, sub_ℕ, ltb_ℤ}

-- a `struct timeval` of a clock or a timer, which is never negative
pub record Timeval : Type 0 where
  pub tv_sec : ℕ
  pub tv_usec : ℕ

-- `tv_sec = LONG_MAX; tv_usec = 0`: a timer that is off
abbrev pub never : Timeval
never = record { tv_sec = 2 ^ 63 - 1; tv_usec = 0 }

-- `timercmp(a, b, <)`
unfoldable pub timercmp_lt : Timeval → Timeval → Bool
timercmp_lt a b = if a.tv_sec == b.tv_sec then ltb a.tv_usec b.tv_usec else ltb a.tv_sec b.tv_sec

-- `timeradd(a, b, result)`
unfoldable pub timeradd : Timeval → Timeval → Timeval
timeradd a b =
    if leb 1000000 (a.tv_usec + b.tv_usec)
    then record { tv_sec = a.tv_sec + b.tv_sec + 1; tv_usec = a.tv_usec + b.tv_usec - 1000000 }
    else record { tv_sec = a.tv_sec + b.tv_sec; tv_usec = a.tv_usec + b.tv_usec }

-- The result of `timersub`, which can be negative.
pub record Interval : Type 0 where
  pub sec : ℤ
  pub usec : ℤ

-- `timersub(a, b, result)`
unfoldable pub timersub : Timeval → Timeval → Interval
timersub a b =
    if ltb a.tv_usec b.tv_usec
    then record {
      sec = sub_ℕ a.tv_sec (b.tv_sec + 1);
      usec = sub_ℕ (a.tv_usec + 1000000) b.tv_usec;
    }
    else record { sec = sub_ℕ a.tv_sec b.tv_sec; usec = sub_ℕ a.tv_usec b.tv_usec }

-- `selectTimeout`: what is left until the timer expires, and zero if it has
unfoldable pub select_timeout : Timeval → Timeval → Timeval
unfolding timersub
select_timeout timer current =
    let left = timersub timer current in
    if ltb_ℤ left.sec (pos 0) || ltb_ℤ left.usec (pos 0)
    then record { tv_sec = 0; tv_usec = 0 }
    else record { tv_sec = pos_part left.sec; tv_usec = pos_part left.usec }

abbrev pub IsNormal : Timeval → Type 0
IsNormal t = t.tv_usec < 1000000

-- microseconds since the epoch
abbrev pub micros : Timeval → ℕ
micros t = t.tv_sec * 1000000 + t.tv_usec

-- On normalised times the comparison is that of the instants.
pub timercmp_lt-micros :
    (a b : Timeval) → IsNormal a → IsNormal b → timercmp_lt a b ≡ ltb (micros a) (micros b)
unfolding timercmp_lt
timercmp_lt-micros a b ha hb = ground arith

-- The sum of two normalised times is normalised, and in microseconds it is the sum of the two.
pub timeradd-micros :
    (a b : Timeval)
    → IsNormal a
    → IsNormal b
    → IsNormal (timeradd a b) × (micros (timeradd a b) ≡ micros a + micros b)
unfolding timeradd
timeradd-micros a b ha hb = ground arith

-- For normalised times, the time that `select` waits is normalised, and is exactly what is left
-- until the timer expires, or zero if it has expired.
pub select_timeout-micros :
    (timer current : Timeval)
    → IsNormal timer
    → IsNormal current
    → IsNormal (select_timeout timer current)
      × (micros (select_timeout timer current) ≡ micros timer - micros current)
unfolding select_timeout
select_timeout-micros timer current ha hb = ground arith
