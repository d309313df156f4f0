-- ===== src/GoBackN/Sender.antt =====
-- GoBackNSender.c: the file that is read into the buffer, and one round of the loop of `main`.
-- What the environment supplies in a round is an argument: the clock, the packet that `recv` reads
-- (if the socket is readable), and the results of the calls of `send`.
pub mod Keeps
pub mod Load
pub mod Program
pub mod Rounds
pub mod Silence
use c_computer_networking.Prelude.{
  ℕ, zero, suc, ◌+◌, ◌-◌, ◌*◌, ◌^◌, Bool, true, false, ◌&&◌, Option, none, some, List, [], ◌∷◌,
  ◌++◌, length, take, drop, ltb, leb, ◌==◌, if◌then◌else◌,
}
use c_computer_networking.Prelude.Int.{ℤ, pos, negsuc, pos_part, sub_ℕ, ltb_ℤ, ◌≤ℤ◌}
use c_computer_networking.Prelude.Outcome.{
  Outcome, ok, fault, null_pointer, exit_failure, ◌>>=◌, ◌>>◌,
}
use c_computer_networking.GoBackN.Message.{Message, header_size}
use c_computer_networking.GoBackN.Timeval.{Timeval, never, timercmp_lt, timeradd, select_timeout}
use c_computer_networking.GoBackN.DataBuffer.{
  DataPacket, DataBuffer, allocate_data_buffer, get_first_seq_no_of_buffer,
  get_last_seq_no_of_buffer, get_buffer_size, slot_of, get_data_packet_from_buffer,
  put_data_packet_into_buffer, free_buffer, set_timeout, reset_timers,
}

abbrev pub default_payload_size : ℕ
default_payload_size = 1024

abbrev pub max_file_size : ℕ
max_file_size = 1024

-- what the command line sets, with what `malloc` leaves in the fields of a new packet that the
-- program does not write
pub record Options : Type 0 where
  pub timeout : Timeval
  pub window : ℕ
  pub dest_node : ℤ
  pub dest_appl : ℤ
  pub uninitialised : Timeval
  pub uninitialised_node : ℤ
  pub uninitialised_appl : ℤ

pub record Sender : Type 0 where
  pub data_buffer : DataBuffer
  pub last_ack_seq_no : ℕ
  pub next_send_seq_no : ℕ
  pub timer_expiration : Timeval

-- the state before the loop of `main`
unfoldable pub start : DataBuffer → Sender
start b = record {
  data_buffer = b;
  last_ack_seq_no = 0;
  next_send_seq_no = 0;
  timer_expiration = never;
}

module _ (o : Options) where
  -- the packet of `readIntoBuffer` for the bytes that `fread` returned
  unfoldable pub data_message : ℕ → List ℕ → Message
  data_message seq_no bytes = record {
    size = length bytes + header_size;
    src_node = o.uninitialised_node;
    src_appl = o.uninitialised_appl;
    dest_node = o.dest_node;
    dest_appl = o.dest_appl;
    seq_no = pos seq_no;
    seq_no_expected = negsuc 0;
    has_errors = false;
    payload = bytes;
  }

  -- `readIntoBuffer`: the buffer, and whether there is more to read. Both of its calls of
  -- `putDataPacketIntoBuffer` put the same packet.
  unfoldable pub read_into_buffer : DataBuffer → List ℕ → ℕ → Outcome (DataBuffer × Bool)
  unfolding data_message
  read_into_buffer b rest seq_no = do
    let bytes = take default_payload_size rest
    let data_packet : DataPacket = record {
      timeout = o.uninitialised;
      packet = data_message seq_no bytes;
    }
    b' ← put_data_packet_into_buffer b data_packet
    ok (b', if length bytes == 0 then false else true)

  -- `while (readIntoBuffer(input, seqNo)) ++seqNo;` on fuel: the buffer and the last number. The
  -- fuel that `read_file_into_buffer` gives is one round for every byte and one for the end.
  unfoldable pub read_loop : ℕ → DataBuffer → List ℕ → ℕ → Outcome (DataBuffer × ℕ)
  unfolding read_into_buffer
  read_loop zero b rest seq_no = ok (b, seq_no)
  read_loop (suc fuel) b rest seq_no = do
    (b', more) ← read_into_buffer b rest seq_no
    elim more [
      | true ↦ read_loop fuel b' (drop default_payload_size rest) (seq_no + 1)
      | false ↦ ok (b', seq_no)
    ]

  unfoldable pub read_file_into_buffer : List ℕ → Outcome (DataBuffer × ℕ)
  unfolding read_loop
  read_file_into_buffer file =
      read_loop (suc (length file)) (allocate_data_buffer max_file_size) file 0

  -- whether the socket is put in `writefds`
  unfoldable pub wants_write : ℕ → Sender → Bool
  wants_write very_last s =
      leb s.next_send_seq_no very_last
      && (if ltb_ℤ (get_last_seq_no_of_buffer s.data_buffer) (pos s.next_send_seq_no)
          then false
          else true)
      && ltb s.next_send_seq_no (s.last_ack_seq_no + o.window)

-- the timer after an acknowledgement up to `seqNoExpected`
unfoldable pub rearm : Sender → ℕ → Outcome Sender
rearm s expected =
    if ltb 0 (get_buffer_size s.data_buffer)
    then elim (get_data_packet_from_buffer s.data_buffer expected) [
      | none ↦ fault null_pointer
      | some p ↦ ok (record s { timer_expiration = p.timeout })
    ]
    else ok (record s { timer_expiration = never })

-- `// Handle acknowledgements`. In the branch that frees packets `seqNoExpected` is positive.
unfoldable pub handle_ack : Sender → Message → Outcome Sender
unfolding rearm
handle_ack s ack =
    let accept = (do
      b ← free_buffer s.data_buffer (get_first_seq_no_of_buffer s.data_buffer) (expected - 1)
      rearm (record s { data_buffer = b; last_ack_seq_no = expected - 1 }) expected) in
    if ack.has_errors
    then ok s
    else if ltb_ℤ (pos s.last_ack_seq_no) ack.seq_no_expected
    then accept
    else ok s
  where
    expected : ℕ
    expected = pos_part ack.seq_no_expected

-- `if (FD_ISSET(s, &readfds))`
unfoldable pub read_ack : Option Message → Sender → Outcome Sender
unfolding handle_ack
read_ack none s = ok s
read_ack (some ack) s = handle_ack s ack

-- `// Handle timeout`
unfoldable pub handle_timeout : Timeval → Sender → Sender
handle_timeout current s =
    if timercmp_lt s.timer_expiration current
    then record s {
      next_send_seq_no = s.last_ack_seq_no + 1;
      timer_expiration = never;
      data_buffer = reset_timers s.data_buffer;
    }
    else s

-- what a call of `send` returns, and the time that is read after it
pub data SendResult : Type 0 where
  sent : Timeval → SendResult
  again : SendResult
  failed : SendResult

-- what a round takes from outside; `writable` is heeded only if the socket was in `writefds`
pub record Events : Type 0 where
  pub readable : Option Message
  pub current : Timeval
  pub writable : Bool
  pub sends : List SendResult

module _ (o : Options) where
  -- the end of a round of the loop that sends: the number, the packet's timer, the sender's timer
  unfoldable pub after_send : Timeval → DataPacket → Sender → Sender
  after_send current p s =
      let expiry = timeradd current o.timeout in
      record s {
        next_send_seq_no = s.next_send_seq_no + 1;
        data_buffer = set_timeout s.data_buffer (slot_of s.data_buffer s.next_send_seq_no) expiry;
        timer_expiration =
            if timercmp_lt s.timer_expiration current then expiry else s.timer_expiration;
      }

  -- `// Send packets`: the state and the packets sent. A list of results that has run out stands
  -- for EAGAIN, on which the loop breaks.
  unfoldable pub send_loop : ℕ → List SendResult → Sender → Outcome (Sender × List Message)
  unfolding after_send
  send_loop very_last [] s = ok (s, [])
  send_loop very_last (r ∷ rs) s =
      elim (ltb s.next_send_seq_no (s.last_ack_seq_no + o.window)
        && leb s.next_send_seq_no very_last) [
          | false ↦ ok (s, [])
          | true ↦ elim (get_data_packet_from_buffer s.data_buffer s.next_send_seq_no) [
            | none ↦ fault null_pointer
            | some p ↦ elim r [
              | again ↦ ok (s, [])
              | failed ↦ fault exit_failure
              | sent current ↦ do
                (s', out) ← send_loop very_last rs (after_send current p s)
                ok (s', p.packet ∷ out)
            ]
          ]
        ]

  -- the round after the acknowledgement: the timeout, and the sends if the socket is writable
  unfoldable pub finish_round : ℕ → Bool → Events → Sender → Outcome (Sender × List Message)
  unfolding handle_timeout
  finish_round very_last writable e s =
      if writable
      then send_loop very_last e.sends (handle_timeout e.current s)
      else ok (handle_timeout e.current s, [])

  -- One round of the loop of `main`.
  unfoldable pub iterate : ℕ → Events → Sender → Outcome (Sender × List Message)
  unfolding read_ack finish_round wants_write
  iterate very_last e s =
      read_ack e.readable s >>= finish_round very_last (wants_write o very_last s && e.writable) e
