-- ===== src/Ntp/Choice.antt =====
-- The fields of a response, `recv_ntp_response`, and the choice of a server in `main`.
use c_computer_networking.Prelude.{
  ℕ, zero, suc, ◌+◌, ◌*◌, ◌/◌, ◌%◌, ◌^◌, ◌≤◌, ◌≡◌, refl, ap, ◌⊎◌, inl, inr, Bool, true, false, ◌||◌,
  Option, none, some, List, [], ◌∷◌, ◌++◌, arith, length, ltb, ◌==◌, get_or, if◌then◌else◌,
  Bool-cases,
}
use c_computer_networking.Prelude.Outcome.{Outcome, ok, fault, ◌>>◌, assert}
use c_computer_networking.Prelude.Int.{ℤ, pos, sub_ℕ, ltb_ℤ, ◌≤ℤ◌}
use c_computer_networking.Ntp.Clock.{to_ntp}

-- `PACK_LEN`
abbrev pub pack_len : ℕ
pack_len = 12

abbrev pub max_stratum : ℕ
max_stratum = 255

pub record NtpResult : Type 0 where
  pub server_name : ℕ
  pub stratum : ℕ
  pub root_dispersion : ℤ
  pub offset : ℤ

-- the test of the loop in `main`
abbrev pub better : NtpResult → NtpResult → Bool
better res best = ltb res.stratum best.stratum || ltb_ℤ res.root_dispersion best.root_dispersion

-- The loop of `main`: `none` is the impossible stratum, at which the first response is taken
-- whatever its dispersion, and a server that did not respond.
unfoldable pub choose : Option NtpResult → List (Option NtpResult) → Option NtpResult
choose best [] = best
choose best (none ∷ servers) = choose best servers
choose none (some res ∷ servers) = choose (some res) servers
choose (some best) (some res ∷ servers) =
    choose (if better res best then some res else some best) servers

-- no later response has a smaller stratum or a smaller dispersion
abbrev pub NoneBetter : NtpResult → List (Option NtpResult) → Type 0
NoneBetter best [] = Unit
NoneBetter best (none ∷ servers) = NoneBetter best servers
NoneBetter best (some res ∷ servers) = (better res best ≡ false) × NoneBetter best servers

-- the chosen one responded, and is not beaten after
abbrev pub IsChoice : List (Option NtpResult) → NtpResult → Type 0
IsChoice servers best =
    (before : List (Option NtpResult)) × (after : List (Option NtpResult)) × (servers
      ≡ before ++ some best ∷ after)
    × NoneBetter best after

-- what the loop makes of the servers after the best one so far
abbrev KeepsOrFinds : NtpResult → List (Option NtpResult) → Option NtpResult → Type 0
KeepsOrFinds best servers none = ⊥
KeepsOrFinds best servers (some r) = ((r ≡ best) × NoneBetter best servers) ⊎ IsChoice servers r

skip_none :
    (best : NtpResult) (servers : List (Option NtpResult)) (m : Option NtpResult)
    → KeepsOrFinds best servers m
    → KeepsOrFinds best (none ∷ servers) m
skip_none best servers none h = h
skip_none best servers (some r) (inl h) = inl h
skip_none best servers (some r) (inr (before, after, e, n)) =
    inr (none ∷ before, after, ap (λ s. none ∷ s) e, n)

take_next :
    (best res : NtpResult) (servers : List (Option NtpResult)) (m : Option NtpResult)
    → KeepsOrFinds res servers m
    → KeepsOrFinds best (some res ∷ servers) m
take_next best res servers none h = h
take_next best res servers (some r) (inl (e, n)) = inr ([], servers, rw e refl, rw e n)
take_next best res servers (some r) (inr (before, after, e, n)) =
    inr (some res ∷ before, after, ap (λ s. some res ∷ s) e, n)

keep_best :
    (best res : NtpResult) (servers : List (Option NtpResult)) (m : Option NtpResult)
    → better res best ≡ false
    → KeepsOrFinds best servers m
    → KeepsOrFinds best (some res ∷ servers) m
keep_best best res servers none worse h = h
keep_best best res servers (some r) worse (inl (e, n)) = inl (e, (worse, n))
keep_best best res servers (some r) worse (inr (before, after, e, n)) =
    inr (some res ∷ before, after, ap (λ s. some res ∷ s) e, n)

choose_from :
    (best : NtpResult) (servers : List (Option NtpResult))
    → KeepsOrFinds best servers (choose (some best) servers)
unfolding choose
choose_from best [] = inl (refl, tt)
choose_from best (none ∷ servers) = skip_none best servers _ (choose_from best servers)
choose_from best (some res ∷ servers) = elim (Bool-cases (better res best)) [
  | inl beats ↦ rw beats (take_next best res servers _ (choose_from res servers))
  | inr worse ↦ rw worse (keep_best best res servers _ worse (choose_from best servers))
]

-- What the program ends with: an error where no server responded, else the choice.
abbrev pub Chosen : List (Option NtpResult) → Option NtpResult → Type 0
Chosen servers none = (i : ℕ) → get_or servers i none ≡ none
Chosen servers (some r) = IsChoice servers r

none_responded :
    (i : ℕ) (servers : List (Option NtpResult))
    → ((j : ℕ) → get_or servers j none ≡ none)
    → get_or (none ∷ servers) i none ≡ none
none_responded zero servers h = refl
none_responded (suc i) servers h = h i

skip_silent :
    (servers : List (Option NtpResult)) (m : Option NtpResult)
    → Chosen servers m
    → Chosen (none ∷ servers) m
skip_silent servers none h = λ i. none_responded i servers h
skip_silent servers (some r) (before, after, e, n) = (none ∷ before, after, ap (λ s. none ∷ s) e, n)

found_first :
    (res : NtpResult) (servers : List (Option NtpResult)) (m : Option NtpResult)
    → KeepsOrFinds res servers m
    → Chosen (some res ∷ servers) m
found_first res servers none h = absurd h
found_first res servers (some r) (inl (e, n)) = ([], servers, rw e refl, rw e n)
found_first res servers (some r) (inr (before, after, e, n)) =
    (some res ∷ before, after, ap (λ s. some res ∷ s) e, n)

-- If the loop over the servers ends without a result, no server responded; otherwise its result is
-- a response after which none has a smaller stratum or a smaller dispersion.
pub choose-Chosen : (servers : List (Option NtpResult)) → Chosen servers (choose none servers)
unfolding choose
choose-Chosen [] = λ i. refl
choose-Chosen (none ∷ servers) = skip_silent servers _ (choose-Chosen servers)
choose-Chosen (some res ∷ servers) = found_first res servers _ (choose_from res servers)

-- a word of `bits` bits read as a signed number
abbrev pub signed : ℕ → ℕ → ℤ
signed bits word = if ltb word (2 ^ bits / 2) then pos word else sub_ℕ word (2 ^ bits)

-- the 32-bit word `i` of the message in network order
abbrev pub word32 : List ℕ → ℕ → ℕ
word32 msg i =
    get_or msg (4 * i) 0 * 16777216
    + get_or msg (4 * i + 1) 0 * 65536
    + get_or msg (4 * i + 2) 0 * 256
    + get_or msg (4 * i + 3) 0

abbrev pub word64 : List ℕ → ℕ → ℕ
word64 msg i = word32 msg i * 2 ^ 32 + word32 msg (i + 1)

-- what `recv_ntp_response` writes through its pointers
pub record Response : Type 0 where
  pub client_receive : ℕ
  pub stratum : ℕ
  pub root_dispersion : ℤ
  pub server_receive : ℤ
  pub server_transmit : ℤ

-- `recv_ntp_response` for the datagram `msg` that is received at the time `now`
unfoldable pub recv_ntp_response : List ℕ → ℕ → Outcome Response
recv_ntp_response msg now = do
  assert (length msg == 4 * pack_len)
  let server_receive = signed 64 (word64 msg 8)
  let server_transmit = signed 64 (word64 msg 10)
  assert (if ltb_ℤ server_transmit server_receive then false else true)
  ok (record {
    client_receive = to_ntp now;
    stratum = word32 msg 0 / 65536 % 256;
    root_dispersion = signed 32 (word32 msg 2);
    server_receive = server_receive;
    server_transmit = server_transmit;
  })

-- a stratum that a response can have, which is below that of `best_result` at the start
abbrev pub IsOrdered : Outcome Response → Type 0
IsOrdered (ok r) = (r.stratum ≤ max_stratum) × (r.server_receive ≤ℤ r.server_transmit)
IsOrdered (fault e) = Unit

asserted :
    (a b : Bool) (r : Response)
    → (b ≡ true → IsOrdered (ok r))
    → IsOrdered (assert a >> (assert b >> ok r))
asserted true true r h = h refl
asserted true false r h = tt
asserted false b r h = tt

-- A response that passes the asserts has a stratum of at most 255, and its time of transmission is
-- not before its time of reception.
pub recv_ntp_response-IsOrdered : (msg : List ℕ) (now : ℕ) → IsOrdered (recv_ntp_response msg now)
unfolding recv_ntp_response
recv_ntp_response-IsOrdered msg now =
    asserted (length msg == 4 * pack_len) _ _ (λ passed. (omega arith, ground arith))
