-- ===== src/Tests/Transfer.antt =====
-- The transfer of a file of three bytes from start to end.
use c_computer_networking.Prelude.{
  ℕ, ◌*◌, ◌≡◌, refl, sym, ap, ◌∙◌, ◌≤◌, ◌<◌, inl, inr, Bool, true, false, none, some, List, [], ◌∷◌,
  ◌++◌, arith, length, take, Option, ◌%◌, ◌^◌,
}
use c_computer_networking.Prelude.Int.{pos, negsuc}
use c_computer_networking.Prelude.Outcome.{Outcome, ok, fault}
use c_computer_networking.GoBackN.Message.{Message}
use c_computer_networking.GoBackN.Timeval.{Timeval, never, timercmp_lt}
use c_computer_networking.GoBackN.DataBuffer.{
  free_buffer, get_first_seq_no_of_buffer, DataBuffer, get_buffer_size, get_last_seq_no_of_buffer,
  put_data_packet_into_buffer, allocate_data_buffer, get_data_packet_from_buffer, set_timeout,
}
use c_computer_networking.GoBackN.Receiver.{Receiver, initialize, send_ack, handle_packet}
use c_computer_networking.GoBackN.File.{In, Buffered}
use c_computer_networking.GoBackN.Sender.{
  Options, Sender, Events, sent, again, start, read_file_into_buffer, iterate, send_loop,
}
use c_computer_networking.GoBackN.Sender.Load.{
  packet_of, chunk, last_of, read_file_into_buffer-Buffered,
}
use c_computer_networking.GoBackN.Sender.Keeps.{Sent, iterate-Sent}
use c_computer_networking.GoBackN.Sender.Rounds.{InWindow, KeepsWindow, iterate-InWindow}
use c_computer_networking.GoBackN.Sender.Silence.{StaysOff, iterate-StaysOff}
use c_computer_networking.GoBackN.System.{System, add, receive, round, Reach, here, next}
use c_computer_networking.GoBackN.System.Transfer.{initial, output-IsPrefix, output_complete}

abbrev options : Options
options = record {
  timeout = record { tv_sec = 0; tv_usec = 500000 };
  window = 4;
  dest_node = pos 2;
  dest_appl = pos 5;
  uninitialised = record { tv_sec = 77; tv_usec = 0 };
  uninitialised_node = pos 88;
  uninitialised_appl = negsuc 98;
}

abbrev file : List ℕ
file = 7 ∷ 8 ∷ 9 ∷ []

file-fits : length file ≤ 1023 * 1024
file-fits = omega arith

-- what a computation returns, if it returns
abbrev value_or {ℓ} : {A : Type ℓ} → A → Outcome A → A
value_or d (ok a) = a
value_or d (fault e) = d

abbrev is_ok {ℓ} : {A : Type ℓ} → Outcome A → Bool
is_ok (ok a) = true
is_ok (fault e) = false

returned {ℓ} : {A : Type ℓ} (d : A) (m : Outcome A) → is_ok m ≡ true → m ≡ ok (value_or d m)
returned d (ok a) h = refl
returned d (fault e) h = cc

abbrev no_buffer : DataBuffer
no_buffer = record {
  min_seq_no = 0;
  max_count = 0;
  first_index = 0;
  free_index = 0;
  count = 0;
  slots = [];
}

abbrev no_round : Sender × List Message
no_round = (start no_buffer, [])

abbrev no_receive : Receiver × Option Message
no_receive = (initialize, none)

abbrev buffer : DataBuffer
buffer = (value_or (no_buffer, 0) (read_file_into_buffer options file)).0

read : read_file_into_buffer options file ≡ ok (buffer, last_of file)
read =
    let (b, run, held) = read_file_into_buffer-Buffered options file file-fits in
    let same : b ≡ buffer =
      sym (ap (λ (m : Outcome (DataBuffer × ℕ)). (value_or (no_buffer, 0) m).0) run) in
    run ∙ ap (λ c. ok (c, last_of file)) same

read_file_into_buffer-Buffered_example :
    (b : DataBuffer) × (read_file_into_buffer options file ≡ ok (b, last_of file))
    × Buffered (packet_of options file) (last_of file) 0 b
read_file_into_buffer-Buffered_example = read_file_into_buffer-Buffered options file file-fits

buffer-Buffered : Buffered (packet_of options file) (last_of file) 0 buffer
buffer-Buffered =
    let (b, run, held) = read_file_into_buffer-Buffered options file file-fits in
    let same : b ≡ buffer = cc in rw same at held

abbrev now : Timeval
now = record { tv_sec = 100; tv_usec = 0 }

-- the round that sends both packets, and the one that reads the acknowledgement `ack`
abbrev sending : Events
sending = record {
  readable = none;
  current = now;
  writable = true;
  sends = sent now ∷ sent now ∷ again ∷ [];
}

abbrev hearing : Message → Events
hearing ack = record { readable = some ack; current = now; writable = false; sends = [] }

abbrev round_of : Events → System → Sender × List Message
round_of e s = value_or no_round (iterate options (last_of file) e s.sender)

abbrev receive_of : Message → System → Receiver × Option Message
receive_of m s = value_or no_receive (handle_packet s.receiver m)

abbrev after_round : Events → System → System
after_round e s = record s { sender = (round_of e s).0; data_net = (round_of e s).1 ++ s.data_net }

abbrev after_receive : Message → System → System
after_receive m s = record s {
  receiver = (receive_of m s).0;
  ack_net = add (receive_of m s).1 s.ack_net;
}

abbrev first : Message
first = packet_of options file 0

abbrev second : Message
second = packet_of options file 1

abbrev second_ack : Message
second_ack = send_ack second (pos 2)

abbrev state1 : System
state1 = after_round sending (initial buffer)

abbrev state2 : System
state2 = after_receive first state1

abbrev state3 : System
state3 = after_receive second state2

abbrev state4 : System
state4 = after_round (hearing second_ack) state3

buffer_of_start : Buffered (packet_of options file) (last_of file) 0 (start buffer).data_buffer
unfolding start
buffer_of_start = buffer-Buffered

in_window : InWindow options (start buffer)
unfolding start
in_window = omega arith

timer_off : (start buffer).timer_expiration ≡ never
unfolding start
timer_off = refl

started : 0 < get_buffer_size state1.sender.data_buffer
unfolding iterate read_file_into_buffer start get_last_seq_no_of_buffer put_data_packet_into_buffer
    allocate_data_buffer send_loop timercmp_lt get_data_packet_from_buffer set_timeout
    get_buffer_size packet_of chunk initialize handle_packet free_buffer get_first_seq_no_of_buffer
started = omega arith

sends_both : is_ok (iterate options (last_of file) sending (start buffer)) ≡ true
unfolding iterate read_file_into_buffer start get_last_seq_no_of_buffer put_data_packet_into_buffer
    allocate_data_buffer send_loop timercmp_lt get_data_packet_from_buffer set_timeout
    get_buffer_size packet_of chunk initialize handle_packet free_buffer get_first_seq_no_of_buffer
sends_both = refl

first_sent : In first state1.data_net
unfolding iterate read_file_into_buffer start get_last_seq_no_of_buffer put_data_packet_into_buffer
    allocate_data_buffer send_loop timercmp_lt get_data_packet_from_buffer set_timeout
    get_buffer_size packet_of chunk initialize handle_packet free_buffer get_first_seq_no_of_buffer
first_sent = inl refl

second_sent : In second state2.data_net
unfolding iterate read_file_into_buffer start get_last_seq_no_of_buffer put_data_packet_into_buffer
    allocate_data_buffer send_loop timercmp_lt get_data_packet_from_buffer set_timeout
    get_buffer_size packet_of chunk initialize handle_packet free_buffer get_first_seq_no_of_buffer
second_sent = inr (inl refl)

takes_first : is_ok (handle_packet state1.receiver first) ≡ true
unfolding iterate read_file_into_buffer start get_last_seq_no_of_buffer put_data_packet_into_buffer
    allocate_data_buffer send_loop timercmp_lt get_data_packet_from_buffer set_timeout
    get_buffer_size handle_packet packet_of chunk initialize free_buffer get_first_seq_no_of_buffer
takes_first = refl

takes_second : is_ok (handle_packet state2.receiver second) ≡ true
unfolding iterate read_file_into_buffer start get_last_seq_no_of_buffer put_data_packet_into_buffer
    allocate_data_buffer send_loop timercmp_lt get_data_packet_from_buffer set_timeout
    get_buffer_size handle_packet packet_of chunk initialize free_buffer get_first_seq_no_of_buffer
takes_second = refl

acknowledged : In second_ack state3.ack_net
unfolding iterate read_file_into_buffer start get_last_seq_no_of_buffer put_data_packet_into_buffer
    allocate_data_buffer send_loop timercmp_lt get_data_packet_from_buffer set_timeout
    get_buffer_size handle_packet packet_of chunk initialize free_buffer get_first_seq_no_of_buffer
acknowledged = inl refl

hears : is_ok (iterate options (last_of file) (hearing second_ack) state3.sender) ≡ true
unfolding iterate read_file_into_buffer start get_last_seq_no_of_buffer put_data_packet_into_buffer
    allocate_data_buffer send_loop timercmp_lt get_data_packet_from_buffer set_timeout
    get_buffer_size handle_packet packet_of chunk initialize free_buffer get_first_seq_no_of_buffer
hears = refl

finished : get_buffer_size state4.sender.data_buffer ≡ 0
unfolding iterate read_file_into_buffer start get_last_seq_no_of_buffer put_data_packet_into_buffer
    allocate_data_buffer send_loop timercmp_lt get_data_packet_from_buffer set_timeout
    get_buffer_size handle_packet packet_of chunk initialize free_buffer get_first_seq_no_of_buffer
finished = refl

initial_size : 0 < get_buffer_size buffer
unfolding get_buffer_size
initial_size = omega (arith, buffer-Buffered.to_end, buffer-Buffered.received)

abbrev Reached : System → Type 0
Reached = Reach options (last_of file) (initial buffer)

reach1 : Reached state1
unfolding start
reach1 =
    next here (round (initial buffer) sending _ _ tt initial_size (returned no_round _ sends_both))

reach2 : Reached state2
reach2 = next reach1 (receive state1 first _ _ (inl first_sent) (returned no_receive _ takes_first))

reach3 : Reached state3
reach3 =
    next reach2 (receive state2 second _ _ (inl second_sent) (returned no_receive _ takes_second))

reach4 : Reached state4
reach4 =
    next reach3
      (round state3 (hearing second_ack) _ _ (inl acknowledged) started (returned no_round _ hears))

output-IsPrefix_example :
    (n : ℕ) × (state2.receiver.output ≡ take (n * 1024) file)
    × (state2.receiver.good_bytes ≡ length state2.receiver.output % 2 ^ 64)
output-IsPrefix_example = output-IsPrefix options file buffer read file-fits state2 reach2

output_complete_example : (state4.receiver.output ≡ file) × (state4.receiver.is_open ≡ false)
output_complete_example = output_complete options file buffer read file-fits state4 reach4 finished

iterate-Sent_example :
    Sent
      (packet_of options file)
      (last_of file)
      0
      (iterate options (last_of file) sending (start buffer))
iterate-Sent_example =
    iterate-Sent (packet_of options file) (last_of file) options 0 sending (start buffer)
      (omega arith) buffer_of_start tt

iterate-InWindow_test :
    KeepsWindow options (last_of file) (iterate options (last_of file) sending (start buffer))
iterate-InWindow_test =
    iterate-InWindow options (last_of file) sending (start buffer) (omega arith) in_window

iterate-StaysOff_example :
    StaysOff (start buffer) (iterate options (last_of file) sending (start buffer))
iterate-StaysOff_example =
    iterate-StaysOff options (last_of file) sending (start buffer) refl (omega arith)
      (omega arith, (omega arith, tt)) timer_off
