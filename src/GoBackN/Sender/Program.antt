-- ===== src/GoBackN/Sender/Program.antt =====
-- GoBackNSender.c from its command line on: `initialize`, and `main` with the rounds of its loop.
-- What `getopt_long` and `sscanf` find, the file that `fopen` opens, and the events of the rounds
-- are arguments.
pub mod Started
use c_computer_networking.Prelude.{
  ℕ, ◌+◌, ◌*◌, ◌/◌, ◌%◌, Bool, true, false, ◌||◌, not, Option, none, some, List, [], ◌∷◌, ◌++◌,
  length, get_or, ltb, ◌==◌, if◌then◌else◌,
}
use c_computer_networking.Prelude.Int.{ℤ, pos}
use c_computer_networking.Prelude.Outcome.{Outcome, ok, fault, exit_failure, ◌>>=◌}
use c_computer_networking.HashTable.Hash.{Bytes}
use c_computer_networking.GoBackN.Arguments.{Run, returns, exits, or_help, and_then}
use c_computer_networking.GoBackN.Message.{Message}
use c_computer_networking.GoBackN.Timeval.{Timeval}
use c_computer_networking.GoBackN.DataBuffer.{get_buffer_size}
use c_computer_networking.GoBackN.Sender.{
  Options, Sender, Events, start, read_file_into_buffer, iterate,
}

-- what `getopt_long` returns, with `optarg`
pub data Found : Type 0 where
  timeout_opt window_opt dest_opt local_opt remote_opt : Bytes → Found
  help_opt question : Found
  other_code : ℕ → Found

-- `sscanf` with `"%u"` and with `"%ld/%ld"`; `none` where not all is converted
pub record Scans : Type 0 where
  pub scan_u : Bytes → Option ℕ
  pub scan_pair : Bytes → Option (ℤ × ℤ)

-- the globals that the options set
pub record Settings : Type 0 where
  pub timeout : Timeval
  pub window : ℕ
  pub dest_set : Bool
  pub dest_node : ℤ
  pub dest_appl : ℤ
  pub local_port : ℕ
  pub remote_port : ℕ

abbrev pub default_settings : Settings
default_settings = record {
  timeout = record { tv_sec = 10; tv_usec = 0 };
  window = 25;
  dest_set = false;
  dest_node = pos 0;
  dest_appl = pos 0;
  local_port = 12005;
  remote_port = 4343;
}

-- a turn of the `switch`
unfoldable pub on_option : Scans → Settings → Found → Run Settings
on_option scans s (timeout_opt arg) =
    or_help
      (λ msec. record s { timeout = record { tv_sec = msec / 1000; tv_usec = msec % 1000 * 1000 } })
      (scans.scan_u arg)
on_option scans s (window_opt arg) = or_help (λ n. record s { window = n }) (scans.scan_u arg)
on_option scans s (dest_opt arg) =
    or_help (λ d. record s { dest_node = d.0; dest_appl = d.1; dest_set = true })
      (scans.scan_pair arg)
on_option scans s (local_opt arg) = or_help (λ n. record s { local_port = n }) (scans.scan_u arg)
on_option scans s (remote_opt arg) = or_help (λ n. record s { remote_port = n }) (scans.scan_u arg)
on_option scans s help_opt = exits 0
on_option scans s question = exits 1
on_option scans s (other_code c) = returns s

unfoldable pub parse_options : Scans → Settings → List Found → Run Settings
parse_options scans s [] = returns s
parse_options scans s (o ∷ options) =
    and_then (on_option scans s o) (λ s'. parse_options scans s' options)

-- `initialize`: the settings, `remoteName` and `fileName`. The operands are `argv` from `optind` on.
unfoldable pub initialize : Scans → List Found → List Bytes → Run (Settings × Bytes × Bytes)
initialize scans options operands = and_then (parse_options scans default_settings options) (λ s.
    if not s.dest_set || (ltb (length operands) 2 || (s.window == 0))
    then exits 1
    else returns (s, get_or operands 0 [], get_or operands 1 []))

-- the settings with what `malloc` leaves in the fields of a packet that are not written
pub record Stale : Type 0 where
  pub expiry : Timeval
  pub node : ℤ
  pub appl : ℤ

abbrev pub options_of : Settings → Stale → Options
options_of s stale = record {
  timeout = s.timeout;
  window = s.window;
  dest_node = s.dest_node;
  dest_appl = s.dest_appl;
  uninitialised = stale.expiry;
  uninitialised_node = stale.node;
  uninitialised_appl = stale.appl;
}

abbrev pub Sends : Type 0
Sends = Outcome (Sender × List Message)

-- the loop of `main` until the buffer is empty, or the events that are told run out
unfoldable pub rounds : Options → ℕ → List Events → Sender → Sends
rounds o very_last [] s = ok (s, [])
rounds o very_last (e ∷ events) s = elim (get_buffer_size s.data_buffer == 0) [
  | true ↦ ok (s, [])
  | false ↦ do
    (t, out) ← iterate o very_last e s
    (u, more) ← rounds o very_last events t
    ok (u, out ++ more)
]

-- `main` behind `initialize`
unfoldable pub send_file : Options → Option (List ℕ) → List Events → Sends
send_file o none events = fault exit_failure
send_file o (some file) events = do
  (b, very_last) ← read_file_into_buffer o file
  rounds o very_last events (start b)

unfoldable pub main :
    Scans → List Found → List Bytes → Stale → (Bytes → Option (List ℕ)) → List Events → Run Sends
main scans options operands stale files events =
    and_then (initialize scans options operands) (λ init.
      let (s, remote_name, file_name) = init in
      returns (send_file (options_of s stale) (files file_name) events))
