-- ===== src/Tests/Clocks.antt =====
-- `NTP Time Server/client.c` on a few time stamps and servers.
use c_computer_networking.Prelude.{
  ℕ, ◌≡◌, refl, none, some, [], ◌∷◌, ◌^◌, ◌+◌, ◌-◌, arith, replicate,
}
use c_computer_networking.Prelude.Int.{pos, negsuc, ◌+ℤ◌}
use c_computer_networking.Ntp.Clock.{
  to_ntp, to_unix, time_offset, time_delay, Exchange, to_unix-to_ntp, to_unix-next_era,
  time_offset-exact, time_delay-adds,
}
use c_computer_networking.Ntp.Choice.{
  NtpResult, choose, Chosen, IsOrdered, choose-Chosen, recv_ntp_response,
  recv_ntp_response-IsOrdered,
}

to_unix-to_ntp_test : to_unix (to_ntp 1400000000) ≡ 1400000000
to_unix-to_ntp_test = to_unix-to_ntp 1400000000 (omega arith)

to_unix-next_era_test : to_unix (to_ntp 2100000000) ≡ 2 ^ 64 + 2100000000 - 2 ^ 32
to_unix-next_era_test = to_unix-next_era 2100000000 (omega arith) (omega arith)

-- the server's clock is 50 behind, each message takes 10 and the server 3
exchange : Exchange (negsuc 49) 10 10 3 (pos 1000) (pos 960) (pos 963) (pos 1023)
unfolding ◌+ℤ◌
exchange = record { arrived = refl; worked = refl; returned = refl }

time_offset-exact_example : time_offset (pos 1000) (pos 960) (pos 963) (pos 1023) ≡ negsuc 49
time_offset-exact_example =
    time_offset-exact (negsuc 49) 10 10 3 (pos 1000) (pos 960) (pos 963) (pos 1023) exchange refl
      (omega arith) (omega arith)

time_delay-adds_test : time_delay (pos 1000) (pos 960) (pos 963) (pos 1023) ≡ pos 26
time_delay-adds_test =
    time_delay-adds (negsuc 49) 10 10 3 (pos 1000) (pos 960) (pos 963) (pos 1023) exchange
      (omega arith)

abbrev result : ℕ → ℕ → NtpResult
result stratum dispersion = record {
  server_name = 0;
  stratum = stratum;
  root_dispersion = pos dispersion;
  offset = pos 0;
}

-- The order of the servers decides: the last one wins by its dispersion, or else by its stratum.
choose_test :
    (choose none (some (result 1 9) ∷ none ∷ some (result 3 5) ∷ []) ≡ some (result 3 5))
    × (choose none (some (result 3 5) ∷ none ∷ some (result 1 9) ∷ []) ≡ some (result 1 9))
unfolding choose
choose_test = (refl, refl)

choose-Chosen_test :
    Chosen
      (some (result 1 9) ∷ none ∷ some (result 3 5) ∷ [])
      (choose none (some (result 1 9) ∷ none ∷ some (result 3 5) ∷ []))
choose-Chosen_test = choose-Chosen (some (result 1 9) ∷ none ∷ some (result 3 5) ∷ [])

recv_ntp_response-IsOrdered_test :
    IsOrdered (recv_ntp_response (28 ∷ 2 ∷ replicate 46 0) 1400000000)
recv_ntp_response-IsOrdered_test = recv_ntp_response-IsOrdered (28 ∷ 2 ∷ replicate 46 0) 1400000000
