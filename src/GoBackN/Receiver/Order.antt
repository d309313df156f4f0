-- ===== src/GoBackN/Receiver/Order.antt =====
-- Which packets the receiver takes: those without errors that are next in order.
use c_computer_networking.Prelude.{
  ℕ, ◌+◌, ◌%◌, ◌^◌, ◌≡◌, ◌≢◌, ◌⊎◌, true, false, none, some, ◌++◌, length, arith, ◌==◌,
  if◌then◌else◌,
}
use c_computer_networking.Prelude.Int.{ℤ, pos, sub_ℕ, ◌+ℤ◌}
use c_computer_networking.Prelude.Outcome.{ok}
use c_computer_networking.GoBackN.Message.{Message}
use c_computer_networking.GoBackN.Receiver.{Receiver, eqb_ℤ, send_ack, count_bytes, handle_packet}

pub eqb_ℤ-eq : (a b : ℤ) → eqb_ℤ a b ≡ true → a ≡ b
eqb_ℤ-eq a b h = ground arith

-- the receiver has taken `n` packets
abbrev pub Received : ℕ → Receiver → Type 0
Received n r = r.last_received_seq_no ≡ sub_ℕ n 1

next-seq : (n : ℕ) → sub_ℕ n 1 +ℤ pos 1 ≡ pos n
unfolding ◌+ℤ◌
next-seq n = ground arith

-- the state after the packet `m` is taken
unfoldable pub taken : Receiver → Message → Receiver
taken r m = record {
  last_received_seq_no = m.seq_no;
  good_bytes = (r.good_bytes + length m.payload) % 2 ^ 64;
  total_bytes = (count_bytes r m).total_bytes;
  output = r.output ++ m.payload;
  is_open = if length m.payload == 0 then false else true;
}

module _ (n : ℕ) (r : Receiver) (m : Message) (after : Received n r) where
  -- After `n` packets, a damaged packet, or one whose number is not `n`, is not acknowledged and
  -- changes only the count of all bytes.
  pub handle_packet-drop :
      (m.has_errors ≡ true) ⊎ (m.seq_no ≢ pos n) → handle_packet r m ≡ ok (count_bytes r m, none)
  unfolding handle_packet
  handle_packet-drop bad = ground (arith, after, next-seq n, eqb_ℤ-eq m.seq_no (pos n))

  -- After `n` packets and with the file open, an undamaged packet with number `n` is written to
  -- the file and counted, the file is closed if the packet has no data, and the packet is
  -- acknowledged with `n + 1`.
  pub handle_packet-take :
      m.has_errors ≡ false
      → m.seq_no ≡ pos n
      → r.is_open ≡ true
      → handle_packet r m ≡ ok (taken r m, some (send_ack m (pos (n + 1))))
  unfolding handle_packet taken
  handle_packet-take clean next is_open = ground arith
