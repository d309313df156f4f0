-- ===== src/GoBackN/DataBuffer/Window.antt =====
-- What the circular array of DataBuffer.c holds: the packets with the sequence numbers from
-- `minSeqNo` on, `count` of them, each in its slot.
use c_computer_networking.Prelude.{
  get_or-set, ℕ, ◌+◌, ◌-◌, ◌%◌, ◌^◌, ◌≤◌, ◌<◌, ◌≡◌, ap, ◌≢◌, sym, ◌∙◌, ◌⊎◌, inl, inr, true, false,
  Option, none, some, arith, length, get_or, set, length-set, length-replicate, ltb, ◌==◌,
  if◌then◌else◌, Bool-cases, dec_lt,
}
use native.Mathlib.Nat.{mod-eq_of_lt, mod-eq-sub-mod}
use c_computer_networking.Prelude.Int.{pos, pos_part}
use c_computer_networking.Prelude.Outcome.{ok, fault, assertion}
use c_computer_networking.GoBackN.Message.{Message}
use c_computer_networking.GoBackN.DataBuffer.{
  DataPacket, DataBuffer, allocate_data_buffer, get_data_packet_from_buffer,
  put_data_packet_into_buffer, free_first,
}

-- An index below twice the size goes round at most once.
pub wrap_lem : (x m : ℕ) → x < m + m → x % m ≡ (if ltb x m then x else x - m)
wrap_lem x m h = elim (Bool-cases (ltb x m)) [
  | inl small ↦ rw small (mod-eq_of_lt (ground arith))
  | inr large ↦
      let le : m ≤ x = ground arith in
      let lt : x - m < m = omega arith in
      rw large (mod-eq-sub-mod {n = x} {m = m} le ∙ mod-eq_of_lt lt)
]

-- a slot with the packet `m`, whatever its timer
abbrev pub Holds : Option DataPacket → Message → Type 0
Holds none m = ⊥
Holds (some p) m = p.packet ≡ m

-- the slot of the packet that is `j` places behind the first
abbrev pub place : DataBuffer → ℕ → ℕ
place b j = (j + b.first_index) % b.max_count

-- The buffer holds the packets `packet_of n` for `minSeqNo ≤ n < minSeqNo + count`.
pub record IsValid (packet_of : ℕ → Message) (b : DataBuffer) : Type 0 where
  pub first_in : b.first_index < b.max_count
  pub count_in : b.count ≤ b.max_count
  pub small : b.max_count < 2 ^ 63
  pub free_at : b.free_index ≡ place b b.count
  pub width : length b.slots ≡ b.max_count
  pub live :
      (j : ℕ) → j < b.count → Holds (get_or b.slots (place b j) none) (packet_of (b.min_seq_no + j))

-- the state after a packet is put
abbrev pub put_result : DataBuffer → DataPacket → DataBuffer
put_result b p = record b {
  slots = set b.slots b.free_index (some p);
  free_index = (b.free_index + 1) % b.max_count;
  count = b.count + 1;
}

module _ (packet_of : ℕ → Message) where
  -- A new buffer is valid and empty.
  pub allocate-IsValid : (n : ℕ) → 0 < n → n < 2 ^ 63 → IsValid packet_of (allocate_data_buffer n)
  unfolding allocate_data_buffer
  allocate-IsValid n h small = record {
    first_in = h;
    count_in = omega arith;
    small = small;
    free_at = omega arith;
    width = length-replicate n none;
    live = λ j lt. absurd (omega arith);
  }

  module _ (b : DataBuffer) (v : IsValid packet_of b) where
    pub place-in : (j : ℕ) → place b j < length b.slots
    place-in j = omega (arith, v.width, v.first_in)

    pub place-ne : (i j : ℕ) → i < b.max_count → j < b.max_count → i ≢ j → place b i ≢ place b j
    place-ne i j hi hj ne = ground (
      arith,
      wrap_lem (i + b.first_index) b.max_count,
      wrap_lem (j + b.first_index) b.max_count,
      v.first_in,
    )

    -- On a valid buffer, a sequence number from the first on that is less than the first plus the
    -- count is answered with its packet.
    pub get-Holds :
        (n : ℕ)
        → b.min_seq_no ≤ n
        → n < b.min_seq_no + b.count
        → Holds (get_data_packet_from_buffer b n) (packet_of n)
    unfolding get_data_packet_from_buffer
    get-Holds n lo hi =
        let found : get_data_packet_from_buffer b n
            ≡ get_or b.slots (place b (n - b.min_seq_no)) none =
          ground arith in
        let e : b.min_seq_no + (n - b.min_seq_no) ≡ n = omega arith in
        rw found (rw e at (v.live (n - b.min_seq_no) (omega arith)))

    pub get-outside :
        (n : ℕ)
        → (n < b.min_seq_no) ⊎ (b.min_seq_no + b.count ≤ n)
        → get_data_packet_from_buffer b n ≡ none
    unfolding get_data_packet_from_buffer
    get-outside n out = ground arith

    put-live :
        (p : DataPacket) (j : ℕ)
        → p.packet ≡ packet_of (b.min_seq_no + b.count)
        → b.count < b.max_count
        → j < b.count + 1
        → Holds
            (get_or (set b.slots b.free_index (some p)) (place b j) none)
            (packet_of (b.min_seq_no + j))
    put-live p j same room lt =
        let written =
          get_or-set b.slots b.free_index (place b j) (some p) none
            (omega (arith, v.free_at, place-in b.count)) in
        elim (dec_lt j b.count) [
          | yes before ↦
              let apart : (b.free_index == place b j) ≡ false =
                ground (arith, v.free_at, place-ne b.count j room (omega arith) (omega arith)) in
              rw (written, apart) (v.live j before)
          | no after ↦
              let e : j ≡ b.count = omega arith in
              let here : (b.free_index == place b j) ≡ true = ground (arith, v.free_at) in
              rw (written, here, e) same
        ]

    -- On a valid buffer with room, the packet whose number is next passes every assert of
    -- `put_data_packet_into_buffer`, and the buffer is valid with that packet at its end.
    pub put-next :
        (p : DataPacket)
        → p.packet ≡ packet_of (b.min_seq_no + b.count)
        → p.packet.seq_no ≡ pos (b.min_seq_no + b.count)
        → b.count < b.max_count
        → (put_data_packet_into_buffer b p ≡ ok (put_result b p))
          × IsValid packet_of (put_result b p)
    unfolding put_data_packet_into_buffer
    put-next p same seq room =
        let e : pos_part p.packet.seq_no ≡ b.min_seq_no + b.count = rw seq in
        (
          ground (arith, v.free_at),
          record {
            first_in = v.first_in;
            count_in = omega arith;
            small = v.small;
            free_at = ground (
              arith,
              v.free_at,
              v.first_in,
              wrap_lem (b.count + b.first_index) b.max_count,
              wrap_lem (b.free_index + 1) b.max_count,
              wrap_lem (b.count + 1 + b.first_index) b.max_count,
            );
            width = length-set b.slots b.free_index (some p) ∙ v.width;
            live = λ j lt. put-live p j same room lt;
          },
        )

    -- A full buffer stops the program.
    pub put-full :
        (p : DataPacket) → b.count ≡ b.max_count → put_data_packet_into_buffer b p ≡ fault assertion
    unfolding put_data_packet_into_buffer
    put-full p full = ground arith

    pub place-next : (j : ℕ) → j < b.count → place (free_first b) j ≡ place b (j + 1)
    unfolding free_first
    place-next j lt = ground (
      arith,
      v.first_in,
      v.count_in,
      wrap_lem (b.first_index + 1) b.max_count,
      wrap_lem (j + (b.first_index + 1) % b.max_count) b.max_count,
      wrap_lem (j + 1 + b.first_index) b.max_count,
    )

    -- What `--count` leaves.
    pub count-free_first : 0 < b.count → (free_first b).count + 1 ≡ b.count
    unfolding free_first
    count-free_first some_left = omega (arith, v.count_in, v.small)

    free-live :
        (j : ℕ)
        → j + 1 < b.count
        → Holds
            (get_or (free_first b).slots (place (free_first b) j) none)
            (packet_of (b.min_seq_no + 1 + j))
    unfolding free_first
    free-live j lt =
        let e : b.min_seq_no + (j + 1) ≡ b.min_seq_no + 1 + j = omega arith in
        let first : place b 0 ≡ b.first_index =
          ground (arith, v.first_in, wrap_lem (0 + b.first_index) b.max_count) in
        let apart : (b.first_index == place b (j + 1)) ≡ false = ground (
          arith,
          first,
          v.count_in,
          place-ne 0 (j + 1) (omega (arith, v.first_in)) (omega (arith, v.count_in)) (omega arith),
        ) in
        let written =
          get_or-set b.slots b.first_index (place b (j + 1)) none none
            (omega (arith, v.width, v.first_in)) in
        rw (place-next j (omega arith), written, apart) (rw e at (v.live (j + 1) lt))

    pub free_first-IsValid : 0 < b.count → IsValid packet_of (free_first b)
    unfolding free_first
    free_first-IsValid some_left =
        let fewer = count-free_first some_left in
        record {
          first_in = omega (arith, v.first_in);
          count_in = omega (arith, fewer, v.count_in);
          small = v.small;
          free_at =
              v.free_at
              ∙ ap (place b) (omega (arith, fewer))
              ∙ sym (place-next (free_first b).count (omega (arith, fewer)));
          width = length-set b.slots b.first_index none ∙ v.width;
          live = λ j lt. free-live j (omega (arith, fewer));
        }
