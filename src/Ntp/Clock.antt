-- ===== src/Ntp/Clock.antt =====
-- The conversions between Unix time and NTP time, and what four time stamps say of two clocks.
use c_computer_networking.Prelude.{ℕ, ◌+◌, ◌-◌, ◌*◌, ◌/◌, ◌%◌, ◌^◌, ◌<◌, ◌≤◌, ◌≡◌, refl, arith}
use c_computer_networking.Prelude.Int.{
  ℤ, pos, negsuc, ◌+ℤ◌, ◌-ℤ◌, pos_part, neg_part, sub_ℕ, wrap_signed, int_laws,
}

-- `NTP_OFFSET`
abbrev pub ntp_offset : ℕ
ntp_offset = 2208988800

unfoldable pub to_ntp : ℕ → ℕ
to_ntp unix_timestamp = (unix_timestamp + ntp_offset) % 2 ^ 64 * 2 ^ 32 % 2 ^ 64

unfoldable pub to_unix : ℕ → ℕ
to_unix timestamp = (timestamp / 2 ^ 32 + 2 ^ 64 - ntp_offset) % 2 ^ 64

-- A Unix time whose sum with the NTP offset is below 2 ^ 32, which is before February 2036, is
-- read back from its NTP time.
pub to_unix-to_ntp : (t : ℕ) → t + ntp_offset < 2 ^ 32 → to_unix (to_ntp t) ≡ t
unfolding to_unix to_ntp
to_unix-to_ntp t h = omega arith

-- From the next era on, 2 ^ 32 seconds are lost.
pub to_unix-next_era :
    (t : ℕ)
    → 2 ^ 32 ≤ t + ntp_offset
    → t + ntp_offset < 2 ^ 33
    → to_unix (to_ntp t) ≡ (t + 2 ^ 64 - 2 ^ 32) % 2 ^ 64
unfolding to_unix to_ntp
to_unix-next_era t lo hi = omega arith

-- `x / 2`, which rounds towards zero
abbrev half : ℤ → ℤ
half x = sub_ℕ (pos_part x / 2) (neg_part x / 2)

-- what an `int64_t` keeps of a sum or difference; the overflow wraps around
abbrev pub wrap64 : ℤ → ℤ
wrap64 z = wrap_signed 64 z

unfoldable pub time_offset : ℤ → ℤ → ℤ → ℤ → ℤ
unfolding ◌+ℤ◌ ◌-ℤ◌
time_offset t_1 t_2 t_3 t_4 = half (wrap64 (wrap64 (t_2 -ℤ t_1) +ℤ wrap64 (t_3 -ℤ t_4)))

unfoldable pub time_delay : ℤ → ℤ → ℤ → ℤ → ℤ
unfolding ◌+ℤ◌ ◌-ℤ◌
time_delay t_1 t_2 t_3 t_4 = wrap64 (wrap64 (t_4 -ℤ t_1) +ℤ wrap64 (t_3 -ℤ t_2))

wrap64-fits : (z : ℤ) → pos_part z < 2 ^ 63 → neg_part z < 2 ^ 63 → wrap64 z ≡ z
wrap64-fits (pos n) h k = ground arith
wrap64-fits (negsuc n) h k = ground arith

half-double : (x : ℤ) → half (x +ℤ x) ≡ x
unfolding ◌+ℤ◌
half-double (pos n) = ground arith
half-double (negsuc n) = ground arith

parts_of_eq : (a b : ℤ) → a ≡ b → pos_part a + neg_part b ≡ pos_part b + neg_part a
parts_of_eq a b e = rw e refl

-- the four time stamps of a client whose server's clock is `theta` ahead: the messages take `there`
-- and `back`, the server takes `work`
pub record Exchange (theta : ℤ) (there back work : ℕ) (t_1 t_2 t_3 t_4 : ℤ) : Type 0 where
  pub arrived : t_2 ≡ t_1 +ℤ theta +ℤ pos there
  pub worked : t_3 ≡ t_2 +ℤ pos work
  pub returned : t_4 +ℤ theta ≡ t_3 +ℤ pos back

module _ (theta : ℤ) (near : pos_part theta + neg_part theta < 2 ^ 62) where
  ahead :
      (n : ℕ)
      → n < 2 ^ 62
      → (pos_part (theta +ℤ pos n) < 2 ^ 63) × (neg_part (theta +ℤ pos n) < 2 ^ 63)
  unfolding ◌+ℤ◌
  ahead n h = ground arith

  behind :
      (n : ℕ)
      → n < 2 ^ 62
      → (pos_part (theta -ℤ pos n) < 2 ^ 63) × (neg_part (theta -ℤ pos n) < 2 ^ 63)
  unfolding ◌-ℤ◌
  behind n h = ground arith

  doubled : (pos_part (theta +ℤ theta) < 2 ^ 63) × (neg_part (theta +ℤ theta) < 2 ^ 63)
  unfolding ◌+ℤ◌
  doubled = ground arith

module _ (theta : ℤ) (there back work : ℕ) (t_1 t_2 t_3 t_4 : ℤ)
    (e : Exchange theta there back work t_1 t_2 t_3 t_4) where
  -- If the server's clock is `theta` ahead of the client's by less than 2 ^ 62 (2 ^ 30 seconds)
  -- either way, and the two messages take the same time, below 2 ^ 62, then from the four time
  -- stamps `time_offset` computes `theta` exactly, however long the server takes, though the sums
  -- wrap around at 64 bits.
  pub time_offset-exact :
      there ≡ back
      → there < 2 ^ 62
      → pos_part theta + neg_part theta < 2 ^ 62
      → time_offset t_1 t_2 t_3 t_4 ≡ theta
  unfolding time_offset
  time_offset-exact same quick near =
      let there_way : t_2 -ℤ t_1 ≡ theta +ℤ pos there =
        omega (int_laws, parts_of_eq _ _ e.arrived) in
      let back_way : t_3 -ℤ t_4 ≡ theta -ℤ pos back =
        omega (int_laws, parts_of_eq _ _ e.returned) in
      let twice : theta +ℤ pos there +ℤ (theta -ℤ pos back) ≡ theta +ℤ theta = omega int_laws in
      rw
        (
          there_way,
          back_way,
          wrap64-fits (theta +ℤ pos there) (ahead theta near there quick).0
              (ahead theta near there quick).1,
          wrap64-fits (theta -ℤ pos back) (behind theta near back (omega arith)).0
              (behind theta near back (omega arith)).1,
          twice,
          wrap64-fits (theta +ℤ theta) (doubled theta near).0 (doubled theta near).1,
        )
        (half-double theta)

  -- If the server's clock is `theta` ahead of the client's, and the time of both messages plus twice
  -- the time that the server takes is below 2 ^ 63, then it is what `time_delay` computes.
  pub time_delay-adds :
      there + back + 2 * work < 2 ^ 63 → time_delay t_1 t_2 t_3 t_4 ≡ pos (there + back + 2 * work)
  unfolding time_delay
  time_delay-adds quick =
      let away : t_4 -ℤ t_1 ≡ pos (there + back + work) = omega (
        int_laws,
        parts_of_eq _ _ e.arrived,
        parts_of_eq _ _ e.worked,
        parts_of_eq _ _ e.returned,
      ) in
      let worked : t_3 -ℤ t_2 ≡ pos work = omega (int_laws, parts_of_eq _ _ e.worked) in
      let sum : pos (there + back + work) +ℤ pos work ≡ pos (there + back + 2 * work) =
        omega int_laws in
      rw
        (
          away,
          worked,
          wrap64-fits (pos (there + back + work)) (omega arith) (omega arith),
          wrap64-fits (pos work) (omega arith) (omega arith),
          sum,
        )
        (wrap64-fits (pos (there + back + 2 * work)) quick (omega arith))
