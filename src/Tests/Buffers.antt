-- ===== src/Tests/Buffers.antt =====
-- The buffer of the sender, the receiver and the timers on small inputs.
use c_computer_networking.Prelude.{ℕ, ◌-◌, ◌^◌, ◌≡◌, refl, inr, false, none, some, [], ◌∷◌, arith}
use c_computer_networking.Prelude.Int.{pos, negsuc}
use c_computer_networking.Prelude.Outcome.{ok, fault, assertion, null_pointer}
use c_computer_networking.GoBackN.Message.{Message}
use c_computer_networking.GoBackN.Timeval.{
  never, timeradd, select_timeout, IsNormal, micros, timeradd-micros, select_timeout-micros,
}
use c_computer_networking.GoBackN.DataBuffer.{
  DataPacket, DataBuffer, allocate_data_buffer, get_first_seq_no_of_buffer, get_buffer_size,
  get_data_packet_from_buffer, put_data_packet_into_buffer, free_buffer, free_first, reset_timers,
  deallocate_data_buffer,
}
use c_computer_networking.GoBackN.DataBuffer.Window.{
  IsValid, Holds, put_result, allocate-IsValid, put-next, get-Holds,
}
use c_computer_networking.GoBackN.DataBuffer.Free.{
  freed, Freed, free_buffer-Freed, deallocate-Freed, free_buffer-too_many,
}
use c_computer_networking.GoBackN.DataBuffer.Timers.{Reset, reset_timers-Reset, reset_timers-full}
use c_computer_networking.GoBackN.Receiver.{initialize, send_ack, count_bytes, handle_packet}
use c_computer_networking.GoBackN.Receiver.Order.{taken, handle_packet-drop, handle_packet-take}
use c_computer_networking.GoBackN.Sender.{Options, Sender, again, handle_ack, send_loop}
use c_computer_networking.GoBackN.Sender.Keeps.{Heeded}
use c_computer_networking.GoBackN.Sender.Rounds.{handle_ack-twice, handle_ack-late}

abbrev options : Options
options = record {
  timeout = record { tv_sec = 0; tv_usec = 500000 };
  window = 4;
  dest_node = pos 2;
  dest_appl = pos 5;
  uninitialised = record { tv_sec = 77; tv_usec = 0 };
  uninitialised_node = pos 88;
  uninitialised_appl = negsuc 98;
}

-- packets of one byte
abbrev message : ℕ → Message
message n = record {
  size = 33;
  src_node = pos 0;
  src_appl = pos 0;
  dest_node = pos 2;
  dest_appl = pos 5;
  seq_no = pos n;
  seq_no_expected = negsuc 0;
  has_errors = false;
  payload = n ∷ [];
}

abbrev packet : ℕ → DataPacket
packet n = record { timeout = options.uninitialised; packet = message n }

-- a buffer for three packets, and with one, two and three of them
abbrev empty : DataBuffer
empty = record {
  min_seq_no = 0;
  max_count = 3;
  first_index = 0;
  free_index = 0;
  count = 0;
  slots = none ∷ none ∷ none ∷ [];
}

abbrev one : DataBuffer
one = put_result empty (packet 0)

abbrev two : DataBuffer
two = put_result one (packet 1)

abbrev three : DataBuffer
three = put_result two (packet 2)

empty-IsValid : IsValid message empty
unfolding allocate_data_buffer
empty-IsValid = allocate-IsValid message 3 (omega arith) (omega arith)

one-IsValid : IsValid message one
one-IsValid = (put-next message empty empty-IsValid (packet 0) refl refl (omega arith)).1

two-IsValid : IsValid message two
two-IsValid = (put-next message one one-IsValid (packet 1) refl refl (omega arith)).1

three-IsValid : IsValid message three
three-IsValid = (put-next message two two-IsValid (packet 2) refl refl (omega arith)).1

put-next_test :
    (put_data_packet_into_buffer two (packet 2) ≡ ok (put_result two (packet 2)))
    × IsValid message (put_result two (packet 2))
put-next_test = put-next message two two-IsValid (packet 2) refl refl (omega arith)

get-Holds_test : Holds (get_data_packet_from_buffer three 1) (message 1)
get-Holds_test = get-Holds message three three-IsValid 1 (omega arith) (omega arith)

free_buffer-Freed_test : Freed message 2 three (free_buffer three 0 1) (freed 2 three)
free_buffer-Freed_test = free_buffer-Freed message three 1 three-IsValid (omega arith) (omega arith)

deallocate-Freed_test : Freed message 3 three (deallocate_data_buffer three) (freed 3 three)
deallocate-Freed_test = deallocate-Freed message three three-IsValid

free_buffer-too_many_test :
    free_buffer two 0 2 ≡ ok (freed 3 two) × ((freed 3 two).count ≡ 2 ^ 64 - 1)
free_buffer-too_many_test = free_buffer-too_many message two two-IsValid

reset_timers-Reset_test : Reset message two (reset_timers two)
reset_timers-Reset_test = reset_timers-Reset message two two-IsValid (omega arith)

reset_timers-full_test : reset_timers three ≡ three
reset_timers-full_test = reset_timers-full message three three-IsValid refl

handle_packet-take_test :
    handle_packet initialize (message 0)
    ≡ ok (taken initialize (message 0), some (send_ack (message 0) (pos 1)))
unfolding initialize
handle_packet-take_test = handle_packet-take 0 initialize (message 0) refl refl refl refl

handle_packet-drop_test :
    handle_packet initialize (message 1) ≡ ok (count_bytes initialize (message 1), none)
unfolding initialize
handle_packet-drop_test =
    handle_packet-drop 0 initialize (message 1) refl (inr (λ h. absurd (one_is_not_zero h)))
  where
    one_is_not_zero : ¬ (pos 1 ≡ pos 0)
    one_is_not_zero h = cc

timeradd-micros_test :
    IsNormal (timeradd options.timeout options.timeout)
    × (micros (timeradd options.timeout options.timeout) ≡ 1000000)
timeradd-micros_test = timeradd-micros options.timeout options.timeout (omega arith) (omega arith)

select_timeout-micros_test :
    IsNormal (select_timeout (record { tv_sec = 7; tv_usec = 1 }) options.timeout)
    × (micros (select_timeout (record { tv_sec = 7; tv_usec = 1 }) options.timeout) ≡ 6500001)
select_timeout-micros_test =
    select_timeout-micros (record { tv_sec = 7; tv_usec = 1 }) options.timeout (omega arith)
      (omega arith)

-- a sender whose timer has just expired, with three packets to go
abbrev sender : Sender
sender = record {
  data_buffer = three;
  last_ack_seq_no = 0;
  next_send_seq_no = 1;
  timer_expiration = never;
}

-- the acknowledgement of the first two packets, and the sender that has heeded it
abbrev ack : Message
ack = record {
  size = 32;
  src_node = pos 2;
  src_appl = pos 5;
  dest_node = pos 0;
  dest_appl = pos 0;
  seq_no = negsuc 0;
  seq_no_expected = pos 2;
  has_errors = false;
  payload = [];
}

abbrev after_ack : Sender
after_ack = record {
  data_buffer = free_first (free_first three);
  last_ack_seq_no = 1;
  next_send_seq_no = 1;
  timer_expiration = options.uninitialised;
}

handle_ack_test : handle_ack sender ack ≡ ok after_ack
unfolding handle_ack free_buffer get_first_seq_no_of_buffer get_buffer_size
    get_data_packet_from_buffer
handle_ack_test = refl

ack-Heeded : Heeded sender ack
ack-Heeded = (refl, refl)

handle_ack-twice_example : handle_ack after_ack ack ≡ fault assertion
handle_ack-twice_example =
    handle_ack-twice message sender after_ack ack three-IsValid ack-Heeded (omega arith)
      handle_ack_test

handle_ack-late_example : send_loop options 2 (again ∷ []) after_ack ≡ fault null_pointer
handle_ack-late_example =
    handle_ack-late message sender after_ack ack three-IsValid ack-Heeded (omega arith)
      handle_ack_test options 2 again [] (omega arith) refl
