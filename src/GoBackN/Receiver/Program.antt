-- ===== src/GoBackN/Receiver/Program.antt =====
-- GoBackNReceiver.c from its command line on: `initialize` and `main`. What `getopt_long` and
-- `sscanf` find, whether `fopen` opens the file, and what `recv` returns are arguments.
use c_computer_networking.Prelude.{
  ℕ, Bool, true, false, Option, none, some, List, [], ◌∷◌, length, get_or, ltb, if◌then◌else◌,
}
use c_computer_networking.Prelude.Outcome.{Outcome, ok, fault, exit_failure, ◌>>=◌}
use c_computer_networking.HashTable.Hash.{Bytes}
use c_computer_networking.GoBackN.Message.{Message}
use c_computer_networking.GoBackN.Receiver.{Receiver, initialize, handle_packet}
use c_computer_networking.GoBackN.Arguments.{Run, returns, exits, or_help, and_then}

-- what `getopt_long` returns, with `optarg`
pub data Found : Type 0 where
  local_opt remote_opt : Bytes → Found
  help_opt question : Found
  other_code : ℕ → Found

pub record Ports : Type 0 where
  pub local_port : ℕ
  pub remote_port : ℕ

abbrev pub default_ports : Ports
default_ports = record { local_port = 12105; remote_port = 4343 }

-- a turn of the `switch`; `scan_u` is `sscanf` with `"%u"`
unfoldable pub on_option : (Bytes → Option ℕ) → Ports → Found → Run Ports
on_option scan_u p (local_opt arg) = or_help (λ n. record p { local_port = n }) (scan_u arg)
on_option scan_u p (remote_opt arg) = or_help (λ n. record p { remote_port = n }) (scan_u arg)
on_option scan_u p help_opt = exits 0
on_option scan_u p question = exits 1
on_option scan_u p (other_code c) = returns p

unfoldable pub parse_options : (Bytes → Option ℕ) → Ports → List Found → Run Ports
parse_options scan_u p [] = returns p
parse_options scan_u p (o ∷ options) =
    and_then (on_option scan_u p o) (λ p'. parse_options scan_u p' options)

-- the ports, `remoteName` and `fileName`; the operands are `argv` from `optind` on
unfoldable pub parse_arguments :
    (Bytes → Option ℕ) → List Found → List Bytes → Run (Ports × Bytes × Bytes)
parse_arguments scan_u options operands =
    and_then (parse_options scan_u default_ports options) (λ p.
      if ltb (length operands) 2
      then exits 1
      else returns (p, get_or operands 0 [], get_or operands 1 []))

-- What the two calls of `recv` in a round give: the first or the second fails, the second returns 0,
-- or a packet, whose data is what was read of it.
pub data Incoming : Type 0 where
  peek_fails recv_fails ended : Incoming
  got : Message → Incoming

-- what a round sends, in front of what the later ones send
abbrev pub acknowledged : Option Message → List Message → List Message
acknowledged none acks = acks
acknowledged (some ack) acks = ack ∷ acks

-- The loop of `main` until the connection has ended: the state, the acknowledgements that are sent,
-- and whether it has ended.
unfoldable pub receive_loop : List Incoming → Receiver → Outcome (Receiver × List Message × Bool)
receive_loop [] r = ok (r, [], false)
receive_loop (peek_fails ∷ rest) r = fault exit_failure
receive_loop (recv_fails ∷ rest) r = fault exit_failure
receive_loop (ended ∷ rest) r = ok (r, [], true)
receive_loop (got m ∷ rest) r = do
  (r', ack) ← handle_packet r m
  (last, acks, done) ← receive_loop rest r'
  ok (last, acknowledged ack acks, done)

unfoldable pub main :
    (Bytes → Option ℕ)
    → List Found
    → List Bytes
    → Bool
    → List Incoming
    → Run (Outcome (Receiver × List Message × Bool))
main scan_u options operands opens incoming =
    and_then (parse_arguments scan_u options operands)
      (λ init. returns (if opens then receive_loop incoming initialize else fault exit_failure))
