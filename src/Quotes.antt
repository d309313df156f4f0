-- ===== src/Quotes.antt =====
-- The quote of the day in `TCP_IP_and_Drgramms`: the server `ex5.c`, and the client `ex4.c`. A line
-- is what `getline` gives, with its newline. The calls on sockets, `getline` and `rand` are
-- arguments.
pub mod Printed
use c_computer_networking.Prelude.{
  ℕ, zero, suc, ◌+◌, ◌-◌, ◌%◌, Bool, true, false, Option, none, some, List, [], ◌∷◌, ◌++◌, length,
  take, replicate, get_elem?, leb, ◌==◌, if◌then◌else◌,
}
use c_computer_networking.Prelude.Outcome.{
  Outcome, ok, fault, null_pointer, out_of_bounds, division_by_zero, ◌>>=◌, ◌>>◌, assert,
}
use c_computer_networking.HashTable.Hash.{Bytes}
use c_computer_networking.Rpc.Stream.{Setup}

-- `MAX_QUOTES` and `MAX_MSG_LEN`
abbrev pub max_quotes : ℕ
max_quotes = 1000

abbrev pub max_msg_len : ℕ
max_msg_len = 512

-- a text in a buffer, which ends before the first NUL byte
abbrev pub text : Bytes → Bytes
text [] = []
text (c ∷ s) = let rest = text s in if c == 0 then [] else c ∷ rest

abbrev pub strlen : Bytes → ℕ
strlen s = length (text s)

-- the bytes that `strncpy` of `n` bytes writes: behind the end of the text, zeros
abbrev pub strncpy : ℕ → Bytes → Bytes
strncpy zero s = []
strncpy (suc n) [] = 0 ∷ strncpy n []
strncpy (suc n) (c ∷ s) = let rest = strncpy n s in if c == 0 then replicate (suc n) 0 else c ∷ rest

-- A row of `quotes`, which was all zeros; `quotes[nquotes][read] = 0` writes one of them.
unfoldable pub row_of : Bytes → Bytes
row_of line = strncpy (length line) line ++ replicate (max_msg_len + 1 - length line) 0

-- the loop of `read_file`, while there is room for `room` more quotes
unfoldable pub read_quotes : ℕ → List Bytes → Outcome (List Bytes)
read_quotes zero lines = ok []
read_quotes (suc room) [] = ok []
read_quotes (suc room) (line ∷ lines) = do
  assert (leb (length line) max_msg_len)
  quotes ← read_quotes room lines
  ok (row_of line ∷ quotes)

-- `read_file`: the status and `quotes`. A file that `fopen` does not open is `none`; the loop then
-- reads from NULL.
unfoldable pub read_file : Option (List Bytes) → Outcome (ℕ × List Bytes)
read_file none = fault null_pointer
read_file (some lines) = do
  quotes ← read_quotes max_quotes lines
  ok (if length quotes == 0 then 1 else 0, quotes)

-- a turn of the loop over a connection: whether `recv` fails, what `rand` gives, and whether `send`
-- fails
pub record Turn : Type 0 where
  pub recv_fails : Bool
  pub random : ℕ
  pub send_fails : Bool

unfoldable pub quote_at : List Bytes → ℕ → Outcome Bytes
quote_at quotes r =
    if length quotes == 0
    then fault division_by_zero
    else elim (get_elem? quotes (r % length quotes)) [
      | none ↦ fault out_of_bounds
      | some msg ↦ ok msg
    ]

-- The loop over a connection until `recv` finds it closed: what is sent.
unfoldable pub answer_turns : List Bytes → List Turn → Outcome (List Bytes)
answer_turns quotes [] = ok []
answer_turns quotes (t ∷ turns) = elim t.recv_fails [
  | true ↦ ok []
  | false ↦ do
    assert (leb (length quotes) max_quotes)
    msg ← quote_at quotes t.random
    assert (leb (strlen msg) max_msg_len)
    elim t.send_fails [
      | true ↦ ok []
      | false ↦ do rest ← answer_turns quotes turns; ok (take (strlen msg + 1) msg ∷ rest)
    ]
]

-- The server's loop, and the status it returns if `accept` fails, which is `none` here; a server
-- that still waits has no status.
unfoldable pub accept_loop :
    List Bytes → List (Option (List Turn)) → Outcome (List (List Bytes) × Option ℕ)
accept_loop quotes [] = ok ([], none)
accept_loop quotes (none ∷ conns) = ok ([], some 6)
accept_loop quotes (some turns ∷ conns) = do
  out ← answer_turns quotes turns
  (rest, status) ← accept_loop quotes conns
  ok (out ∷ rest, status)

abbrev pub Run : Type 0
Run = Outcome (List (List Bytes) × Option ℕ)

-- what each connection is sent, and the status that is returned
unfoldable pub run_server : Setup → List Bytes → List (Option (List Turn)) → Run
run_server s quotes conns =
    if s.resolved
    then (if s.opened
        then (if s.bound
            then (if s.listens then accept_loop quotes conns else ok ([], some 5))
            else ok ([], some 4))
        else ok ([], some 3))
    else ok ([], some 2)

-- `main` with its two arguments
unfoldable pub main : Setup → Option (List Bytes) → List (Option (List Turn)) → Run
main s file conns = do
  (status, quotes) ← read_file file
  (if status == 0 then run_server s quotes conns else ok ([], some 1))

-- what the calls of `print_quote` return
pub record Calls : Type 0 where
  pub resolved : Bool
  pub opened : Bool
  pub connected : Bool
  pub sends : Bool
  pub received : Option Bytes
  pub closed : Bool

-- `print_quote` of `ex4.c`: the status, and what is printed. `recv` is given 512 of 513 zeros.
unfoldable pub print_quote : Calls → Outcome (ℕ × Bytes)
print_quote c =
    if c.resolved
    then (if c.opened
        then (if c.connected
            then (if c.sends
                then elim c.received [
                  | none ↦ ok (6, [])
                  | some bytes ↦ do
                    assert (leb (length bytes) max_msg_len)
                    ok (if c.closed then 0 else 7, text (bytes ++ (0 ∷ [])))
                ]
                else ok (5, []))
            else ok (4, []))
        else ok (3, []))
    else ok (2, [])
