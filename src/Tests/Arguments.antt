-- ===== src/Tests/Arguments.antt =====
-- GoBackNSender.c and GoBackNReceiver.c with a command line, on a file of one byte and on a sequence
-- of packets.
use c_computer_networking.Prelude.{
  ℕ, ◌≡◌, refl, true, false, Option, none, some, List, [], ◌∷◌, ◌+◌, arith,
}
use c_computer_networking.Prelude.Int.{ℤ, pos, negsuc}
use c_computer_networking.Prelude.Outcome.{ok}
use c_computer_networking.HashTable.Hash.{Bytes}
use c_computer_networking.GoBackN.Arguments.{returns, exits}
use c_computer_networking.GoBackN.Message.{Message, header_size}
use c_computer_networking.GoBackN.DataBuffer.{DataBuffer}
use c_computer_networking.GoBackN.Sender.{Events, sent, start, read_file_into_buffer}
use c_computer_networking.GoBackN.Sender.Load.{last_of}
use c_computer_networking.GoBackN.Sender.Rounds.{KeepsWindow}
use c_computer_networking.GoBackN.Sender.Program.{
  Found, timeout_opt, window_opt, dest_opt, help_opt, Scans, Settings, default_settings, Stale,
  options_of, initialize, parse_options, on_option, rounds, main,
}
use c_computer_networking.GoBackN.Sender.Program.Started.{main-InWindow}
use c_computer_networking.GoBackN.Receiver.{Receiver}
use c_computer_networking.GoBackN.Receiver
use c_computer_networking.GoBackN.Receiver.Accepted.{in_order}

-- of a text, the first byte is read as a number
abbrev first_byte : Bytes → Option ℕ
first_byte [] = none
first_byte (c ∷ s) = some c

abbrev pair_of : Bytes → Option (ℤ × ℤ)
pair_of [] = none
pair_of (c ∷ s) = some (pos c, pos c)

abbrev scans : Scans
scans = record { scan_u = first_byte; scan_pair = pair_of }

abbrev found : List Found
found = window_opt (3 ∷ []) ∷ dest_opt (2 ∷ []) ∷ []

abbrev operands : List Bytes
operands = (104 ∷ []) ∷ (102 ∷ []) ∷ []

abbrev settings : Settings
settings = record default_settings {
  window = 3;
  dest_set = true;
  dest_node = pos 2;
  dest_appl = pos 2;
}

initialize_test : initialize scans found operands ≡ returns (settings, 104 ∷ [], 102 ∷ [])
unfolding initialize parse_options on_option
initialize_test = refl

help_test : initialize scans (window_opt (3 ∷ []) ∷ help_opt ∷ dest_opt [] ∷ []) [] ≡ exits 0
unfolding initialize parse_options on_option
help_test = refl

bad_timeout_test : initialize scans (timeout_opt [] ∷ help_opt ∷ []) operands ≡ exits 1
unfolding initialize parse_options on_option
bad_timeout_test = refl

abbrev stale : Stale
stale = record { expiry = record { tv_sec = 7; tv_usec = 8 }; node = pos 9; appl = negsuc 9 }

-- every name opens the file
abbrev files : Bytes → Option (List ℕ)
files name = some (65 ∷ [])

abbrev events : List Events
events =
    record {
      readable = none;
      current = record { tv_sec = 1; tv_usec = 0 };
      writable = true;
      sends = sent (record { tv_sec = 1; tv_usec = 5 }) ∷ [];
    }
    ∷ []

main-InWindow_example :
    (b : DataBuffer) × (read_file_into_buffer (options_of settings stale) (65 ∷ [])
      ≡ ok (b, last_of (65 ∷ [])))
    × (main scans found operands stale files events
        ≡ returns (rounds (options_of settings stale) (last_of (65 ∷ [])) events (start b)))
    × KeepsWindow
        (options_of settings stale)
        (last_of (65 ∷ []))
        (rounds (options_of settings stale) (last_of (65 ∷ [])) events (start b))
main-InWindow_example =
    main-InWindow scans found operands stale files events settings (104 ∷ []) (102 ∷ []) (65 ∷ [])
      initialize_test refl (omega arith)

abbrev packet : ℕ → Message
packet n = record {
  size = header_size + 1;
  src_node = pos 1;
  src_appl = pos 1;
  dest_node = pos 2;
  dest_appl = pos 2;
  seq_no = pos n;
  seq_no_expected = negsuc 0;
  has_errors = false;
  payload = (65 + n) ∷ [];
}

-- out of order, damaged, and repeated
abbrev packets : List Message
packets = packet 1 ∷ packet 0 ∷ (record (packet 1) { has_errors = true }) ∷ packet 0 ∷ packet 1 ∷ []

in_order_test : in_order 0 packets ≡ 65 ∷ 66 ∷ []
unfolding in_order
in_order_test = refl
