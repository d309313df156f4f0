-- ===== src/GoBackN/Sender/Program/Started.antt =====
-- What the command line of GoBackNSender.c leaves, and the window over a whole run.
use mathlib.Core.Path.{subst}
use c_computer_networking.Prelude.{
  ℕ, ◌*◌, ◌<◌, ◌≤◌, ◌≡◌, refl, Bool, true, false, ◌||◌, not, Option, none, some, List, [], ◌∷◌,
  ◌++◌, arith, length, get_or, ltb, ◌==◌, if◌then◌else◌,
}
use c_computer_networking.Prelude.Outcome.{ok, fault, ◌>>=◌}
use c_computer_networking.HashTable.Hash.{Bytes}
use c_computer_networking.GoBackN.Message.{Message}
use c_computer_networking.GoBackN.Timeval.{IsNormal}
use c_computer_networking.GoBackN.DataBuffer.{DataBuffer, get_buffer_size}
use c_computer_networking.GoBackN.Sender.{
  Options, Sender, Events, start, read_file_into_buffer, iterate,
}
use c_computer_networking.GoBackN.Sender.Load.{last_of, read_file_into_buffer-Buffered}
use c_computer_networking.GoBackN.Sender.Rounds.{InWindow, KeepsWindow, iterate-InWindow}
use c_computer_networking.GoBackN.Arguments.{Run, returns, exits, or_help, and_then}
use c_computer_networking.GoBackN.Sender.Program.{
  Found, timeout_opt, window_opt, dest_opt, local_opt, remote_opt, help_opt, question, other_code,
  Scans, Settings, default_settings, on_option, parse_options, initialize, Stale, options_of,
  rounds, send_file, main, Sends,
}

-- a status of 0 or 1, or a timeout that is normalised
abbrev IsKept : Run Settings → Type 0
IsKept (returns s) = IsNormal s.timeout
IsKept (exits n) = n ≤ 1

or_help-IsKept {ℓ} :
    {A : Type ℓ} (f : A → Settings) (o : Option A)
    → ((a : A) → IsNormal (f a).timeout)
    → IsKept (or_help f o)
or_help-IsKept f none h = omega arith
or_help-IsKept f (some a) h = h a

on_option-IsKept :
    (scans : Scans) (s : Settings) (o : Found) → IsNormal s.timeout → IsKept (on_option scans s o)
unfolding on_option
on_option-IsKept scans s (timeout_opt arg) h =
    or_help-IsKept _ (scans.scan_u arg) (λ a. omega arith)
on_option-IsKept scans s (window_opt arg) h = or_help-IsKept _ (scans.scan_u arg) (λ a. h)
on_option-IsKept scans s (dest_opt arg) h = or_help-IsKept _ (scans.scan_pair arg) (λ a. h)
on_option-IsKept scans s (local_opt arg) h = or_help-IsKept _ (scans.scan_u arg) (λ a. h)
on_option-IsKept scans s (remote_opt arg) h = or_help-IsKept _ (scans.scan_u arg) (λ a. h)
on_option-IsKept scans s help_opt h = omega arith
on_option-IsKept scans s question h = omega arith
on_option-IsKept scans s (other_code c) h = h

and_then-IsKept :
    (m : Run Settings) (f : Settings → Run Settings)
    → IsKept m
    → ((s : Settings) → IsNormal s.timeout → IsKept (f s))
    → IsKept (and_then m f)
and_then-IsKept (returns s) f h k = k s h
and_then-IsKept (exits n) f h k = h

parse_options-IsKept :
    (scans : Scans) (options : List Found) (s : Settings)
    → IsNormal s.timeout
    → IsKept (parse_options scans s options)
unfolding parse_options
parse_options-IsKept scans [] s h = h
parse_options-IsKept scans (o ∷ options) s h =
    and_then-IsKept (on_option scans s o) (λ s'. parse_options scans s' options)
      (on_option-IsKept scans s o h) (λ s' h'. parse_options-IsKept scans options s' h')

-- a status of 0 or 1, or settings with a destination, a window above zero and a normalised timeout,
-- and the first two operands
abbrev pub IsReady : List Bytes → Run (Settings × Bytes × Bytes) → Type 0
IsReady operands (returns (s, remote_name, file_name)) =
    (s.dest_set ≡ true)
    × (0 < s.window)
    × IsNormal s.timeout
    × (2 ≤ length operands)
    × (remote_name ≡ get_or operands 0 [])
    × (file_name ≡ get_or operands 1 [])
IsReady operands (exits n) = n ≤ 1

if-IsReady :
    (t : Bool) (operands : List Bytes) (r : Settings × Bytes × Bytes)
    → (t ≡ false → IsReady operands (returns r))
    → IsReady operands (if t then exits 1 else returns r)
if-IsReady true operands r h = omega arith
if-IsReady false operands r h = h refl

accepted :
    (t : Bool) (n w : ℕ) → (not t || (ltb n 2 || (w == 0))) ≡ false → (t ≡ true) × (0 < w) × (2 ≤ n)
accepted t n w h = ground arith

finish-IsReady :
    (m : Run Settings) (operands : List Bytes)
    → IsKept m
    → IsReady operands (
        and_then m (λ s.
          if not s.dest_set || (ltb (length operands) 2 || (s.window == 0))
          then exits 1
          else returns (s, get_or operands 0 [], get_or operands 1 [])))
finish-IsReady (exits n) operands h = h
finish-IsReady (returns s) operands h = if-IsReady _ operands _ (λ e.
    let (dest, some_window, enough) = accepted s.dest_set (length operands) s.window e in
    (dest, some_window, h, enough, refl, refl))

-- Whatever the command line is, `initialize` exits with status 0 or 1, or returns settings with
-- a destination, a window above zero and a timeout of less than a million microseconds beside
-- its seconds, and the first two operands.
pub initialize-IsReady :
    (scans : Scans) (options : List Found) (operands : List Bytes)
    → IsReady operands (initialize scans options operands)
unfolding initialize
initialize-IsReady scans options operands =
    finish-IsReady (parse_options scans default_settings options) operands
      (parse_options-IsKept scans options default_settings (omega arith))

module _ (o : Options) (very_last : ℕ) where
  shift-KeepsWindow :
      (m : Sends) (out : List Message)
      → KeepsWindow o very_last m
      → KeepsWindow o very_last (m >>= λ q. ok (q.0, out ++ q.1))
  shift-KeepsWindow (ok q) out h = h
  shift-KeepsWindow (fault e) out h = tt

  bind-KeepsWindow :
      (m : Sends) (f : Sender → Sends)
      → KeepsWindow o very_last m
      → ((t : Sender) → InWindow o t → KeepsWindow o very_last (f t))
      → KeepsWindow o very_last (m >>= λ r. f r.0 >>= λ q. ok (q.0, r.1 ++ q.1))
  bind-KeepsWindow (ok (t, out)) f h k = shift-KeepsWindow (f t) out (k t h)
  bind-KeepsWindow (fault e) f h k = tt

  choose-KeepsWindow :
      (done : Bool) (s : Sender) (m : Sends)
      → InWindow o s
      → KeepsWindow o very_last m
      → KeepsWindow o very_last (elim done [ true ↦ ok (s, []) | false ↦ m ])
  choose-KeepsWindow true s m h k = h
  choose-KeepsWindow false s m h k = k

  rounds-KeepsWindow :
      (events : List Events) (s : Sender)
      → 0 < o.window
      → InWindow o s
      → KeepsWindow o very_last (rounds o very_last events s)
  unfolding rounds
  rounds-KeepsWindow [] s some_window h = h
  rounds-KeepsWindow (e ∷ events) s some_window h =
      choose-KeepsWindow (get_buffer_size s.data_buffer == 0) s _ h (
        bind-KeepsWindow (iterate o very_last e s) (rounds o very_last events)
          (iterate-InWindow o very_last e s some_window h)
          (λ t h'. rounds-KeepsWindow events t some_window h'))

-- When `initialize` returns, the file that it names can be opened and has at most 1023 * 1024
-- bytes, `main` reads the whole file into the buffer, and after any number of rounds of its loop,
-- whatever arrives and however often `send` succeeds, the next number is at most a window beyond
-- the last acknowledged one, for the window of the command line, if the rounds end without a
-- fault.
pub main-InWindow :
    (scans : Scans) (options : List Found) (operands : List Bytes) (stale : Stale)
    (files : Bytes → Option (List ℕ)) (events : List Events) (s : Settings)
    (remote_name file_name : Bytes) (file : List ℕ)
    → initialize scans options operands ≡ returns (s, remote_name, file_name)
    → files file_name ≡ some file
    → length file ≤ 1023 * 1024
    → (b : DataBuffer) × (read_file_into_buffer (options_of s stale) file ≡ ok (b, last_of file))
      × (main scans options operands stale files events
          ≡ returns (rounds (options_of s stale) (last_of file) events (start b)))
      × KeepsWindow
          (options_of s stale)
          (last_of file)
          (rounds (options_of s stale) (last_of file) events (start b))
unfolding main send_file start
main-InWindow scans options operands stale files events s remote_name file_name file init opened
      fits =
    let o = options_of s stale in
    let (b, read, held) = read_file_into_buffer-Buffered o file fits in
    let ready : IsReady operands (returns (s, remote_name, file_name)) =
      subst (IsReady operands) init (initialize-IsReady scans options operands) in
    (
      b,
      read,
      rw (init, opened, read) refl,
      rounds-KeepsWindow o (last_of file) events (start b) ready.1 (omega arith),
    )
