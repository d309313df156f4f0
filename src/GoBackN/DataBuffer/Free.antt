-- ===== src/GoBackN/DataBuffer/Free.antt =====
-- `freeBuffer` and `deallocateDataBuffer`: which packets they drop, and which calls stop the
-- program.
use c_computer_networking.Prelude.{
  ℕ, zero, suc, ◌+◌, ◌-◌, ◌^◌, ◌≤◌, ◌<◌, ◌≡◌, refl, ◌∙◌, inl, inr, arith, ltb, Bool-cases,
}
use c_computer_networking.Prelude.Outcome.{Outcome, ok, fault, assertion}
use c_computer_networking.GoBackN.Message.{Message}
use c_computer_networking.GoBackN.DataBuffer.{
  DataBuffer, free_first, free_loop, free_buffer, deallocate_data_buffer,
}
use c_computer_networking.GoBackN.DataBuffer.Window.{IsValid, count-free_first, free_first-IsValid}

-- the buffer after `rounds` packets at the front are freed
unfoldable pub freed : ℕ → DataBuffer → DataBuffer
freed zero b = b
freed (suc rounds) b = freed rounds (free_first b)

free_loop-freed :
    (rounds : ℕ) (b : DataBuffer) → free_loop rounds b.min_seq_no b ≡ ok (freed rounds b)
unfolding free_loop freed
free_loop-freed zero b = refl
free_loop-freed (suc rounds) b = ground (arith, free_loop-freed rounds (free_first b))

-- The three `assert`s pass for a call that starts at the first packet and is not too long.
free_buffer-passes :
    (b : DataBuffer) (end : ℕ)
    → b.min_seq_no ≤ end
    → end ≤ b.min_seq_no + b.count
    → free_buffer b b.min_seq_no end ≡ free_loop (end - b.min_seq_no + 1) b.min_seq_no b
unfolding free_buffer
free_buffer-passes b end lo hi = ground arith

freed-suc : (rounds : ℕ) (b : DataBuffer) → freed (suc rounds) b ≡ free_first (freed rounds b)
unfolding freed
freed-suc zero b = refl
freed-suc (suc rounds) b = freed-suc rounds (free_first b)

module _ (packet_of : ℕ → Message) where
  -- The loop of `freeBuffer` over `rounds` packets at the front.
  pub record Freed (rounds : ℕ) (b : DataBuffer) (r : Outcome DataBuffer) (b' : DataBuffer)
      : Type 0 where
    pub returned : r ≡ ok b'
    pub valid : IsValid packet_of b'
    pub min_seq_no : b'.min_seq_no ≡ b.min_seq_no + rounds
    pub count : b'.count + rounds ≡ b.count
    pub max_count : b'.max_count ≡ b.max_count

  pub free_loop-Freed :
      (rounds : ℕ) (b : DataBuffer)
      → IsValid packet_of b
      → rounds ≤ b.count
      → Freed rounds b (free_loop rounds b.min_seq_no b) (freed rounds b)
  unfolding freed free_first
  free_loop-Freed zero b v h = record {
    returned = free_loop-freed zero b;
    valid = v;
    min_seq_no = omega arith;
    count = omega arith;
    max_count = refl;
  }
  free_loop-Freed (suc rounds) b v h =
      let fewer = count-free_first packet_of b v (omega arith) in
      let rest =
        free_loop-Freed rounds (free_first b) (free_first-IsValid packet_of b v (omega arith))
          (omega (arith, fewer)) in
      record {
        returned = free_loop-freed (suc rounds) b;
        valid = rest.valid;
        min_seq_no = omega (arith, rest.min_seq_no);
        count = omega (arith, rest.count, fewer);
        max_count = rest.max_count;
      }

  -- On a valid buffer, `free_buffer` from the first number to an end that the buffer holds passes
  -- its asserts, leaves a valid buffer that starts one beyond the end, and counts off the packets
  -- freed.
  pub free_buffer-Freed :
      (b : DataBuffer) (end : ℕ)
      → IsValid packet_of b
      → b.min_seq_no ≤ end
      → end < b.min_seq_no + b.count
      → Freed
          (end - b.min_seq_no + 1)
          b
          (free_buffer b b.min_seq_no end)
          (freed (end - b.min_seq_no + 1) b)
  free_buffer-Freed b end v lo hi =
      let f = free_loop-Freed (end - b.min_seq_no + 1) b v (omega arith) in
      record {
        returned = free_buffer-passes b end lo (omega arith) ∙ f.returned;
        valid = f.valid;
        min_seq_no = f.min_seq_no;
        count = f.count;
        max_count = f.max_count;
      }

  -- On a valid buffer, `deallocate_data_buffer` passes every assert and frees each packet: the
  -- buffer it leaves is valid and counts none.
  pub deallocate-Freed :
      (b : DataBuffer)
      → IsValid packet_of b
      → Freed b.count b (deallocate_data_buffer b) (freed b.count b)
  unfolding deallocate_data_buffer freed
  deallocate-Freed b v =
      let f = free_loop-Freed b.count b v (omega arith) in
      record {
        returned = elim (Bool-cases (ltb 0 b.count)) [
          | inl filled ↦
              let rounds : b.min_seq_no + b.count - 1 - b.min_seq_no + 1 ≡ b.count = ground arith in
              let passed : free_buffer b b.min_seq_no (b.min_seq_no + b.count - 1)
                  ≡ free_loop (b.min_seq_no + b.count - 1 - b.min_seq_no + 1) b.min_seq_no b =
                free_buffer-passes b (b.min_seq_no + b.count - 1) (ground arith) (omega arith) in
              rw filled (passed ∙ rw rounds f.returned)
          | inr empty ↦ let none_left : b.count ≡ 0 = ground arith in rw (none_left, freed)
        ];
        valid = f.valid;
        min_seq_no = f.min_seq_no;
        count = f.count;
        max_count = f.max_count;
      }

  -- On a valid buffer, `free_buffer` called with an end one beyond the last packet passes its
  -- asserts, and the count wraps to 2 ^ 64 - 1.
  pub free_buffer-too_many :
      (b : DataBuffer)
      → IsValid packet_of b
      → free_buffer b b.min_seq_no (b.min_seq_no + b.count) ≡ ok (freed (suc b.count) b)
        × ((freed (suc b.count) b).count ≡ 2 ^ 64 - 1)
  unfolding free_first
  free_buffer-too_many b v =
      let f = free_loop-Freed b.count b v (omega arith) in
      let rounds : b.min_seq_no + b.count - b.min_seq_no + 1 ≡ suc b.count = omega arith in
      let passed = free_buffer-passes b (b.min_seq_no + b.count) (omega arith) (omega arith) in
      (passed ∙ rw rounds (free_loop-freed (suc b.count) b), rw freed-suc (omega (arith, f.count)))

-- A call that ends before the first packet fails its first `assert`.
pub free_buffer-backwards :
    (b : DataBuffer) (end : ℕ)
    → end < b.min_seq_no
    → free_buffer b b.min_seq_no end ≡ fault assertion
unfolding free_buffer
free_buffer-backwards b end h = ground arith
