-- ===== src/GoBackN/Receiver.antt =====
-- GoBackNReceiver.c: what the loop of `main` does with a packet that `recv` has read whole, and the
-- acknowledgement that `sendAck` writes to the socket.
pub mod Accepted
pub mod Order
pub mod Program
use c_computer_networking.Prelude.{
  ℕ, ◌+◌, ◌-◌, ◌%◌, ◌^◌, Bool, true, false, not, Option, none, some, List, [], ◌++◌, length, ◌==◌,
  if◌then◌else◌,
}
use c_computer_networking.Prelude.Int.{ℤ, pos, negsuc, ◌+ℤ◌, pos_part, neg_part}
use c_computer_networking.Prelude.Outcome.{Outcome, ok, fault, ◌>>=◌, ◌>>◌, assert, closed_file}
use c_computer_networking.GoBackN.Message.{Message, zeroed, header_size}

-- the globals of the program, and the output file: what is written to it and whether it is open
pub record Receiver : Type 0 where
  pub last_received_seq_no : ℤ
  pub good_bytes : ℕ
  pub total_bytes : ℕ
  pub output : List ℕ
  pub is_open : Bool

-- the end of `initialize`, and `fopen(fileName, "wb")`
unfoldable pub initialize : Receiver
initialize = record {
  last_received_seq_no = negsuc 0;
  good_bytes = 0;
  total_bytes = 0;
  output = [];
  is_open = true;
}

-- `a == b` of two signed numbers
abbrev pub eqb_ℤ : ℤ → ℤ → Bool
eqb_ℤ a b = pos_part a + neg_part b == pos_part b + neg_part a

-- the packet that `sendAck` sends
unfoldable pub send_ack : Message → ℤ → Message
send_ack packet expected = record zeroed {
  dest_node = packet.src_node;
  dest_appl = packet.src_appl;
  seq_no = negsuc 0;
  seq_no_expected = expected;
  size = header_size;
  has_errors = false;
}

-- `writeBuffer`: `fwrite` to a file that has been closed is a fault.
unfoldable pub write_buffer : Receiver → Message → Outcome Receiver
write_buffer r packet =
    if r.is_open then ok (record r { output = r.output ++ packet.payload }) else fault closed_file

-- `totalBytes += bytesRead - sizeof(*data)`
unfoldable pub count_bytes : Receiver → Message → Receiver
count_bytes r packet =
    let bytes_read = header_size + length packet.payload in
    record r { total_bytes = (r.total_bytes + (bytes_read - header_size)) % 2 ^ 64 }

-- The part of the loop from `assert(data->seqNo == lastReceivedSeqNo + 1)` on: the new state and
-- the acknowledgement. The last packet, which has no data, closes the file.
unfoldable pub accept_packet : Receiver → Message → Outcome (Receiver × Option Message)
unfolding send_ack write_buffer ◌+ℤ◌
accept_packet r packet = do
  assert (eqb_ℤ packet.seq_no (r.last_received_seq_no +ℤ pos 1))
  let ack = send_ack packet (packet.seq_no +ℤ pos 1)
  r' ← write_buffer (record r { last_received_seq_no = packet.seq_no }) packet
  let good = (r'.good_bytes + length packet.payload) % 2 ^ 64
  let still_open = if length packet.payload == 0 then false else r'.is_open
  ok (record r' { good_bytes = good; is_open = still_open }, some ack)

-- One round of the loop: a packet with errors, an older and a newer one are dropped.
unfoldable pub handle_packet : Receiver → Message → Outcome (Receiver × Option Message)
unfolding count_bytes accept_packet
handle_packet r packet =
    if packet.has_errors
    then ok (count_bytes r packet, none)
    else if not (eqb_ℤ packet.seq_no (r.last_received_seq_no +ℤ pos 1))
    then ok (count_bytes r packet, none)
    else accept_packet (count_bytes r packet) packet
