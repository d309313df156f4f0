-- ===== src/GoBackN/DataBuffer/Timers.antt =====
-- `resetTimers` and the writes to a packet's timer: they change no packet, and the loop ends.
use c_computer_networking.Prelude.{
  ℕ, zero, suc, ◌+◌, ◌%◌, ◌≤◌, ◌<◌, ◌≡◌, refl, ap, ◌≢◌, sym, ◌∙◌, inl, inr, true, false, Option,
  none, some, List, [], ◌∷◌, arith, length, get_or, set, length-set, get_or-set, ◌==◌, Bool-cases,
  Option-cases, dec_lt,
}
use c_computer_networking.GoBackN.Message.{Message}
use c_computer_networking.GoBackN.Timeval.{Timeval, never}
use c_computer_networking.GoBackN.DataBuffer.{
  DataPacket, DataBuffer, set_timeout, reset_loop, reset_timers,
}
use c_computer_networking.GoBackN.DataBuffer.Window.{
  wrap_lem, Holds, place, IsValid, place-in, place-ne,
}

get_or-some {ℓ} :
    {A : Type ℓ} (xs : List (Option A)) (i : ℕ) (x : A) → get_or xs i none ≡ some x → i < length xs
get_or-some [] i x h = ground arith
get_or-some (y ∷ xs) zero x h = omega arith
get_or-some (y ∷ xs) (suc i) x h = omega (arith, get_or-some xs i x h)

-- a slot with a packet whose timer is `t`
abbrev pub HasTimeout : Timeval → Option DataPacket → Type 0
HasTimeout t none = ⊥
HasTimeout t (some p) = p.timeout ≡ t

-- A timer is written in its slot and nowhere else.
slots-set_timeout :
    (b : DataBuffer) (i : ℕ) (t : Timeval) (p : DataPacket)
    → get_or b.slots i none ≡ some p
    → set_timeout b i t ≡ record b { slots = set b.slots i (some (record p { timeout = t })) }
unfolding set_timeout
slots-set_timeout b i t p e = rw (e, set_timeout)

set_timeout-none :
    (b : DataBuffer) (i : ℕ) (t : Timeval) → get_or b.slots i none ≡ none → set_timeout b i t ≡ b
unfolding set_timeout
set_timeout-none b i t e = rw (e, set_timeout)

timed-live :
    (b : DataBuffer) (i : ℕ) (t : Timeval) (p : DataPacket)
    → get_or b.slots i none ≡ some p
    → (k : ℕ) (m : Message) → Holds (get_or b.slots k none) m
    → Holds (get_or (set b.slots i (some (record p { timeout = t }))) k none) m
timed-live b i t p e k m h =
    let written =
      get_or-set b.slots i k (some (record p { timeout = t })) none (get_or-some b.slots i p e) in
    elim (Bool-cases (i == k)) [
      | inl here ↦
          let same : i ≡ k = ground arith in
          let there : get_or b.slots k none ≡ some p = rw (← same) e in
          rw (written, here) (rw there at h)
      | inr apart ↦ rw (written, apart) h
    ]

module _ (packet_of : ℕ → Message) where
  -- A `set_timeout` changes no packet.
  pub set_timeout-IsValid :
      (b : DataBuffer) (i : ℕ) (t : Timeval)
      → IsValid packet_of b
      → IsValid packet_of (set_timeout b i t)
  set_timeout-IsValid b i t v = elim (Option-cases (get_or b.slots i none)) [
    | inl e ↦ rw (set_timeout-none b i t e) v
    | inr (p, e) ↦ rw (slots-set_timeout b i t p e) (record {
      first_in = v.first_in;
      count_in = v.count_in;
      small = v.small;
      free_at = v.free_at;
      width = length-set b.slots i (some (record p { timeout = t })) ∙ v.width;
      live = λ j lt. timed-live b i t p e (place b j) (packet_of (b.min_seq_no + j)) (v.live j lt);
    })
  ]

reset_loop-stop : (fuel i : ℕ) (b : DataBuffer) → i ≡ b.free_index → reset_loop fuel i b ≡ b
unfolding reset_loop
reset_loop-stop zero i b e = refl
reset_loop-stop (suc fuel) i b e = ground arith

reset_loop-step :
    (fuel i : ℕ) (b : DataBuffer)
    → i ≢ b.free_index
    → reset_loop (suc fuel) i b ≡ reset_loop fuel ((i + 1) % b.max_count) (set_timeout b i never)
unfolding reset_loop
reset_loop-step fuel i b ne = ground arith

module _ (packet_of : ℕ → Message) where
  -- Every timer of the window is off, and the packets are the same.
  pub record Reset (b r : DataBuffer) : Type 0 where
    pub valid : IsValid packet_of r
    pub min_seq_no : r.min_seq_no ≡ b.min_seq_no
    pub count : r.count ≡ b.count
    pub max_count : r.max_count ≡ b.max_count
    pub off : (j : ℕ) → j < b.count → HasTimeout never (get_or r.slots (place b j) none)

  module _ (b : DataBuffer) (v : IsValid packet_of b) where
    place_step : (k : ℕ) → k < b.count → (place b k + 1) % b.max_count ≡ place b (k + 1)
    place_step k lt = ground (
      arith,
      v.first_in,
      v.count_in,
      wrap_lem (k + b.first_index) b.max_count,
      wrap_lem (place b k + 1) b.max_count,
      wrap_lem (k + 1 + b.first_index) b.max_count,
    )

    abbrev timed : ℕ → DataPacket → DataBuffer
    timed k p = record b { slots = set b.slots (place b k) (some (record p { timeout = never })) }

    live-some :
        (k : ℕ) → k < b.count → (p : DataPacket) × (get_or b.slots (place b k) none ≡ some p)
    live-some k lt = elim (Option-cases (get_or b.slots (place b k) none)) [
      | inl e ↦ absurd (rw e at (v.live k lt))
      | inr found ↦ found
    ]

    -- One round turns one more timer off.
    timed-off :
        (k : ℕ) (p : DataPacket)
        → b.count < b.max_count
        → k < b.count
        → ((j : ℕ) → j < k → HasTimeout never (get_or b.slots (place b j) none))
        → (j : ℕ) → j < k + 1
        → HasTimeout never (get_or (timed k p).slots (place b j) none)
    timed-off k p room lt before j jlt =
        let written =
          get_or-set b.slots (place b k) (place b j) (some (record p { timeout = never })) none
            (place-in packet_of b v k) in
        elim (dec_lt j k) [
          | yes earlier ↦
              let apart : (place b k == place b j) ≡ false =
                ground
                  (arith, place-ne packet_of b v k j (omega arith) (omega arith) (omega arith)) in
              rw (written, apart) (before j earlier)
          | no later ↦
              let e : j ≡ k = omega arith in
              let here : (place b k == place b j) ≡ true = ground (arith, e) in rw (written, here)
        ]

  -- The loop stops at the end of the window.
  reset_loop-done :
      (fuel k : ℕ) (b : DataBuffer)
      → IsValid packet_of b
      → k ≡ b.count
      → ((j : ℕ) → j < k → HasTimeout never (get_or b.slots (place b j) none))
      → Reset b (reset_loop fuel (place b k) b)
  reset_loop-done fuel k b v e before =
      rw (reset_loop-stop fuel (place b k) b (ap (place b) e ∙ sym v.free_at)) (record {
        valid = v;
        min_seq_no = refl;
        count = refl;
        max_count = refl;
        off = λ j lt. before j (omega arith);
      })

  reset_loop-Reset :
      (fuel k : ℕ) (b : DataBuffer)
      → IsValid packet_of b
      → b.count < b.max_count
      → k ≤ b.count
      → b.count ≤ k + fuel
      → ((j : ℕ) → j < k → HasTimeout never (get_or b.slots (place b j) none))
      → Reset b (reset_loop fuel (place b k) b)
  reset_loop-Reset zero k b v room le enough before =
      reset_loop-done zero k b v (omega arith) before
  reset_loop-Reset (suc fuel) k b v room le enough before = elim (dec_lt k b.count) [
    | no done ↦ reset_loop-done (suc fuel) k b v (omega arith) before
    | yes lt ↦
        let (p, e) = live-some b v k lt in
        let write = slots-set_timeout b (place b k) never p e in
        let v' : IsValid packet_of (timed b v k p) =
          rw write at (set_timeout-IsValid packet_of b (place b k) never v) in
        let ne : place b k ≢ b.free_index =
          ground
            (arith, v.free_at, place-ne packet_of b v k b.count (omega arith) room (omega arith)) in
        let rest =
          reset_loop-Reset fuel (k + 1) (timed b v k p) v' room (omega arith) (omega arith)
            (timed-off b v k p room lt before) in
        rw (reset_loop-step fuel (place b k) b ne, place_step b v k lt, write)
          (record {
            valid = rest.valid;
            min_seq_no = rest.min_seq_no;
            count = rest.count;
            max_count = rest.max_count;
            off = rest.off;
          })
  ]

  -- On a valid buffer that is not full, `reset_timers` turns off the timer of every packet and
  -- keeps the buffer valid, with its first number, its count and its capacity.
  pub reset_timers-Reset :
      (b : DataBuffer) → IsValid packet_of b → b.count < b.max_count → Reset b (reset_timers b)
  unfolding reset_timers
  reset_timers-Reset b v room =
      let first : place b 0 ≡ b.first_index =
        ground (arith, v.first_in, wrap_lem (0 + b.first_index) b.max_count) in
      rw first at (
        reset_loop-Reset b.max_count 0 b v room (omega arith) (omega (arith, v.count_in))
          (λ j lt. absurd (omega arith)))

  -- On a valid buffer that is full, `reset_timers` changes nothing.
  pub reset_timers-full :
      (b : DataBuffer) → IsValid packet_of b → b.count ≡ b.max_count → reset_timers b ≡ b
  unfolding reset_timers
  reset_timers-full b v full =
      reset_loop-stop b.max_count b.first_index b
        (ground (arith, v.free_at, v.first_in, wrap_lem (b.count + b.first_index) b.max_count))
