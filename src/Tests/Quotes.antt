-- ===== src/Tests/Quotes.antt =====
-- `TCP_IP_and_Drgramms/ex5.c` and `ex4.c` on a file of two lines, and the server over TCP on a
-- sequence of connections.
use c_computer_networking.Prelude.{
  ℕ, ◌≡◌, refl, true, false, Option, none, some, List, [], ◌∷◌, ◌++◌, arith,
}
use c_computer_networking.Prelude.Outcome.{ok}
use c_computer_networking.HashTable.Hash.{Bytes, string_hash}
use c_computer_networking.HashTable.Table.{HashTable}
use c_computer_networking.HashTable.Methods.{Models}
use c_computer_networking.Dht.Request.{Request}
use c_computer_networking.Rpc.Stream.{set_up}
use c_computer_networking.Quotes.{Turn, main, print_quote}
use c_computer_networking.Quotes.Printed.{
  line_at, answers, all_answers, turn_of, calls_for, AreLines, quote-printed,
}
use c_computer_networking.Rpc.Serve.Sequence.{
  run_server, clients, replies, after_all, AreRequests, run_server_refines,
}

abbrev lines : List Bytes
lines = (97 ∷ 10 ∷ []) ∷ (98 ∷ []) ∷ []

lines-AreLines : AreLines lines
lines-AreLines =
    (omega arith, (omega arith, (omega arith, tt)), (omega arith, (omega arith, tt), tt))

-- the second client is served twice, then `recv` fails; then `accept` does
abbrev conns : List (Option (List Turn))
conns =
    some (turn_of 3 ∷ [])
    ∷ some (
        turn_of 4
        ∷ turn_of 5
        ∷ (record { recv_fails = true; random = 0; send_fails = false })
        ∷ turn_of 6
        ∷ [])
    ∷ none
    ∷ []

all_answers_test :
    all_answers lines conns
    ≡ (((98 ∷ 0 ∷ []) ∷ []) ∷ ((97 ∷ 10 ∷ 0 ∷ []) ∷ (98 ∷ 0 ∷ []) ∷ []) ∷ [], some 6)
unfolding all_answers answers
all_answers_test = refl

quote-printed_example :
    (line : Bytes) × (line_at lines 3 ≡ some line)
    × (main set_up (some lines) (some (turn_of 3 ∷ []) ∷ [])
        ≡ ok (((line ++ (0 ∷ [])) ∷ []) ∷ [], none))
    × (print_quote (calls_for (line ++ (0 ∷ []))) ≡ ok (0, line))
quote-printed_example = quote-printed lines 3 lines-AreLines (omega arith)

-- set, then get, then delete
abbrev request : ℕ → Bytes → Request
request action value = record { action = action; transaction_id = 7; key = 97 ∷ []; value = value }

abbrev requests : List Request
requests = request 2 (5 ∷ []) ∷ request 4 [] ∷ request 1 [] ∷ []

requests-AreRequests : AreRequests requests
requests-AreRequests = (
  record { key_fits = omega arith; value_fits = omega arith },
  omega arith,
  (
    record { key_fits = omega arith; value_fits = omega arith },
    omega arith,
    (record { key_fits = omega arith; value_fits = omega arith }, omega arith, tt),
  ),
)

abbrev zeros : ℕ → ℕ
zeros i = 0

run_server_refines_example :
    (tbl : HashTable) × (run_server zeros zeros string_hash set_up (clients requests)
      ≡ ok (tbl, replies (λ q. none) requests, none))
    × Models string_hash (after_all (λ q. none) requests) tbl
run_server_refines_example =
    run_server_refines string_hash zeros zeros requests (omega arith) requests-AreRequests
