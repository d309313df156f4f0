-- ===== src/Quotes/Printed.antt =====
-- What the client of `ex4.c` prints of the server of `ex5.c`.
use c_computer_networking.Prelude.{
  ℕ, zero, suc, ◌+◌, ◌-◌, ◌%◌, ◌<◌, ◌≤◌, ◌≡◌, ◌≢◌, refl, ap, sym, ◌∙◌, true, false, Option, none,
  some, List, [], ◌∷◌, ◌++◌, arith, length, length-take, take, take-append, map, append_assoc,
  replicate, get_elem?, leb, ◌==◌, if◌then◌else◌, length-append, length-map,
}
use c_computer_networking.Prelude.{Bool-cases, inl, inr}
use c_computer_networking.Prelude.Outcome.{ok}
use c_computer_networking.HashTable.Hash.{Bytes}
use c_computer_networking.Rpc.Stream.{set_up}
use c_computer_networking.Quotes.{
  max_quotes, max_msg_len, text, strlen, strncpy, row_of, read_quotes, read_file, Turn, quote_at,
  answer_turns, run_server, accept_loop, main, Calls, print_quote,
}

-- a line without NUL bytes
abbrev pub IsText : Bytes → Type 0
IsText [] = Unit
IsText (c ∷ s) = (c ≢ 0) × IsText s

abbrev pub AreLines : List Bytes → Type 0
AreLines [] = Unit
AreLines (line ∷ lines) = (length line ≤ max_msg_len) × IsText line × AreLines lines

text-append : (s z : Bytes) → IsText s → text (s ++ (0 ∷ z)) ≡ s
text-append [] z h = refl
text-append (c ∷ s) z (hc, h) = ground (arith, text-append s z h)

strncpy-all : (s : Bytes) → IsText s → strncpy (length s) s ≡ s
strncpy-all [] h = refl
strncpy-all (c ∷ s) (hc, h) = ground (arith, strncpy-all s h)

-- what `recv` cuts off is not missing from the text
text-take :
    (n : ℕ) (s : Bytes) → IsText s → length s ≤ n → text (take n (s ++ (0 ∷ [])) ++ (0 ∷ [])) ≡ s
text-take zero [] h few = refl
text-take (suc n) [] h few = refl
text-take zero (c ∷ s) h few = elim few [ ]
text-take (suc n) (c ∷ s) (hc, h) few = ground (arith, text-take n s h (omega arith))

row_of-text :
    (line : Bytes)
    → length line ≤ max_msg_len
    → IsText line
    → row_of line ≡ line ++ (0 ∷ replicate (max_msg_len - length line) 0)
unfolding row_of
row_of-text line fits h =
    let e : max_msg_len + 1 - length line ≡ suc (max_msg_len - length line) = omega arith in
    rw (strncpy-all line h, e) refl

strlen-row_of :
    (line : Bytes) → length line ≤ max_msg_len → IsText line → strlen (row_of line) ≡ length line
strlen-row_of line fits h =
    rw (row_of-text line fits h, text-append line (replicate (max_msg_len - length line) 0) h) refl

-- the line and its NUL byte
message_of :
    (line : Bytes)
    → length line ≤ max_msg_len
    → IsText line
    → take (strlen (row_of line) + 1) (row_of line) ≡ line ++ (0 ∷ [])
message_of line fits h =
    let z : Bytes = replicate (max_msg_len - length line) 0 in
    let at_end : length line + 1 ≡ length (line ++ (0 ∷ [])) =
      omega (arith, length-append line (0 ∷ [])) in
    rw (strlen-row_of line fits h, row_of-text line fits h, at_end)
      (ap (λ r. take (length (line ++ (0 ∷ []))) r) (sym (append_assoc line (0 ∷ []) z))
        ∙ take-append (line ++ (0 ∷ [])) z)

-- the rows of the lines that there is room for
read_quotes-rows :
    (room : ℕ) (lines : List Bytes)
    → AreLines lines
    → read_quotes room lines ≡ ok (map row_of (take room lines))
unfolding read_quotes
read_quotes-rows zero lines h = refl
read_quotes-rows (suc room) [] h = refl
read_quotes-rows (suc room) (line ∷ lines) (fits, text, h) =
    ground (arith, read_quotes-rows room lines h)

get_elem?-map :
    (xs : List Bytes) (i : ℕ) (line : Bytes)
    → get_elem? xs i ≡ some line
    → get_elem? (map row_of xs) i ≡ some (row_of line)
get_elem?-map [] i line e = cc
get_elem?-map (x ∷ xs) zero line e = ground arith
get_elem?-map (x ∷ xs) (suc i) line e = get_elem?-map xs i line e

-- a line among the first ones is a line
line_at-AreLines :
    (room : ℕ) (lines : List Bytes) (i : ℕ) (line : Bytes)
    → AreLines lines
    → get_elem? (take room lines) i ≡ some line
    → (length line ≤ max_msg_len) × IsText line
line_at-AreLines zero lines i line h e = cc
line_at-AreLines (suc room) [] i line h e = cc
line_at-AreLines (suc room) (x ∷ lines) zero line (fits, text, h) e =
    let same : x ≡ line = cc in rw (sym same) (fits, text)
line_at-AreLines (suc room) (x ∷ lines) (suc i) line (fits, text, h) e =
    line_at-AreLines room lines i line h e

get_elem?-some : (xs : List Bytes) (i : ℕ) → i < length xs → (x : Bytes) × (get_elem? xs i ≡ some x)
get_elem?-some [] i h = elim h [ ]
get_elem?-some (x ∷ xs) zero h = (x, refl)
get_elem?-some (x ∷ xs) (suc i) h = get_elem?-some xs i (omega arith)

-- the line of the file that a number of `rand` stands for
abbrev pub line_at : List Bytes → ℕ → Option Bytes
line_at lines r = let first = take max_quotes lines in get_elem? first (r % length first)

-- what is sent for a turn
abbrev pub answer_to : Option Bytes → List Bytes → List Bytes
answer_to none rest = rest
answer_to (some line) rest = (line ++ (0 ∷ [])) ∷ rest

-- What a connection is sent, from the lines of the file.
unfoldable pub answers : List Bytes → List Turn → List Bytes
answers lines [] = []
answers lines (t ∷ turns) =
    let rest = answers lines turns in
    if t.recv_fails
    then []
    else if t.send_fails
    then []
    else answer_to (line_at lines t.random) rest

-- what all connections are sent until `accept` fails, and the status then
unfoldable pub all_answers : List Bytes → List (Option (List Turn)) → List (List Bytes) × Option ℕ
all_answers lines [] = ([], none)
all_answers lines (none ∷ conns) = ([], some 6)
all_answers lines (some turns ∷ conns) =
    let (rest, status) = all_answers lines conns in (answers lines turns ∷ rest, status)

positive : (n : ℕ) → 0 < n → (n == 0) ≡ false
positive n h = ground arith

le→leb : (a b : ℕ) → a ≤ b → leb a b ≡ true
le→leb a b h = ground arith

quote_at-some :
    (quotes : List Bytes) (r : ℕ) (msg : Bytes)
    → 0 < length quotes
    → get_elem? quotes (r % length quotes) ≡ some msg
    → quote_at quotes r ≡ ok msg
unfolding quote_at
quote_at-some quotes r msg h e = rw (positive (length quotes) h, e) refl

-- a turn whose calls succeed
turn-answered :
    (quotes : List Bytes) (t : Turn) (turns : List Turn) (msg : Bytes) (rest : List Bytes)
    → t.recv_fails ≡ false
    → t.send_fails ≡ false
    → leb (length quotes) max_quotes ≡ true
    → quote_at quotes t.random ≡ ok msg
    → leb (strlen msg) max_msg_len ≡ true
    → answer_turns quotes turns ≡ ok rest
    → answer_turns quotes (t ∷ turns) ≡ ok (take (strlen msg + 1) msg ∷ rest)
unfolding answer_turns
turn-answered quotes t turns msg rest r s few at short e = rw (r, few, at, short, s, e) refl

turn-unsent :
    (quotes : List Bytes) (t : Turn) (turns : List Turn) (msg : Bytes)
    → t.recv_fails ≡ false
    → t.send_fails ≡ true
    → leb (length quotes) max_quotes ≡ true
    → quote_at quotes t.random ≡ ok msg
    → leb (strlen msg) max_msg_len ≡ true
    → answer_turns quotes (t ∷ turns) ≡ ok []
unfolding answer_turns
turn-unsent quotes t turns msg r s few at short = rw (r, few, at, short, s) refl

module _ (lines : List Bytes) (h : AreLines lines) (some_line : 0 < length lines) where
  abbrev quotes : List Bytes
  quotes = map row_of (take max_quotes lines)

  length-quotes : length quotes ≡ length (take max_quotes lines)
  length-quotes = length-map (take max_quotes lines) row_of

  count : (0 < length quotes) × (length quotes ≤ max_quotes)
  count = omega (arith, length-quotes, length-take max_quotes lines)

  row_at :
      (r : ℕ) (line : Bytes) → line_at lines r ≡ some line → quote_at quotes r ≡ ok (row_of line)
  row_at r line e =
      let first = take max_quotes lines in
      quote_at-some quotes r (row_of line) count.0 (
        ap (λ n. get_elem? quotes (r % n)) length-quotes
        ∙ get_elem?-map first (r % length first) line e)

  -- the line that is chosen
  line_at-some :
      (r : ℕ)
      → (line : Bytes) × (line_at lines r ≡ some line) × (length line ≤ max_msg_len) × IsText line
  line_at-some r =
      let first = take max_quotes lines in
      let (line, e) =
        get_elem?-some first (r % length first) (omega (arith, length-quotes, count)) in
      let (fits, text) = line_at-AreLines max_quotes lines (r % length first) line h e in
      (line, e, fits, text)

  answer_turns-answers : (turns : List Turn) → answer_turns quotes turns ≡ ok (answers lines turns)
  unfolding answer_turns answers
  answer_turns-answers [] = refl
  answer_turns-answers (t ∷ turns) =
      let (line, e, fits, text) = line_at-some t.random in
      let at = row_at t.random line e in
      let few = le→leb (length quotes) max_quotes count.1 in
      let short = le→leb (length line) max_msg_len fits in
      let within : leb (strlen (row_of line)) max_msg_len ≡ true =
        rw (strlen-row_of line fits text) short in
      elim (Bool-cases t.recv_fails) [
        | inl r ↦ rw r refl
        | inr r ↦ elim (Bool-cases t.send_fails) [
          | inl s ↦
              rw (turn-unsent quotes t turns (row_of line) r s few at within, answers, r, s) refl
          | inr s ↦
              rw
                (
                  turn-answered quotes t turns (row_of line) (answers lines turns) r s few at within
                      (answer_turns-answers turns),
                  message_of line fits text,
                  answers,
                  r,
                  s,
                  e,
                )
                refl
        ]
      ]

  accept_loop-answers :
      (conns : List (Option (List Turn))) → accept_loop quotes conns ≡ ok (all_answers lines conns)
  unfolding accept_loop all_answers
  accept_loop-answers [] = refl
  accept_loop-answers (none ∷ conns) = refl
  accept_loop-answers (some turns ∷ conns) =
      rw (answer_turns-answers turns, accept_loop-answers conns) refl

  pub main-answers :
      (conns : List (Option (List Turn)))
      → main set_up (some lines) conns ≡ ok (all_answers lines conns)
  unfolding main read_file run_server
  main-answers conns =
      rw (read_quotes-rows max_quotes lines h, positive (length quotes) count.0)
        (accept_loop-answers conns)

-- a turn whose calls succeed
abbrev pub turn_of : ℕ → Turn
turn_of r = record { recv_fails = false; random = r; send_fails = false }

-- a call of `print_quote` whose calls succeed, and whose `recv` gives what there is room for
abbrev pub calls_for : Bytes → Calls
calls_for msg = record {
  resolved = true;
  opened = true;
  connected = true;
  sends = true;
  received = some (take max_msg_len msg);
  closed = true;
}

print_quote-line :
    (line : Bytes)
    → length line ≤ max_msg_len
    → IsText line
    → print_quote (calls_for (line ++ (0 ∷ []))) ≡ ok (0, line)
unfolding print_quote
print_quote-line line fits h =
    let short : length (take max_msg_len (line ++ (0 ∷ []))) ≤ max_msg_len =
      omega (arith, length-take max_msg_len (line ++ (0 ∷ []))) in
    rw (le→leb _ max_msg_len short, text-take max_msg_len line h fits) refl

-- Of a file of at least one line, all of them of at most 512 bytes and without NUL bytes, a server
-- whose calls succeed sends the line that the number of `rand` stands for among the first 1000,
-- with a NUL byte, and the client, if its calls succeed and `recv` gives what there is room for,
-- prints exactly this line.
pub quote-printed :
    (lines : List Bytes) (r : ℕ)
    → AreLines lines
    → 0 < length lines
    → (line : Bytes) × (line_at lines r ≡ some line)
      × (main set_up (some lines) (some (turn_of r ∷ []) ∷ [])
          ≡ ok (((line ++ (0 ∷ [])) ∷ []) ∷ [], none))
      × (print_quote (calls_for (line ++ (0 ∷ []))) ≡ ok (0, line))
unfolding all_answers answers
quote-printed lines r h some_line =
    let (line, e, fits, text) = line_at-some lines h some_line r in
    (
      line,
      e,
      rw (main-answers lines h some_line (some (turn_of r ∷ []) ∷ []), e) refl,
      print_quote-line line fits text,
    )
