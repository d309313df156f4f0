-- ===== src/GoBackN/Sender/Silence.antt =====
-- The sender's timer before the first acknowledgement: nothing turns it on.
use c_computer_networking.Prelude.{
  ℕ, ◌+◌, ◌-◌, ◌^◌, ◌<◌, ◌≡◌, refl, inl, inr, Bool, true, false, none, some, List, [], ◌∷◌, arith,
  length, Bool-cases, Option-cases,
}
use c_computer_networking.Prelude.Outcome.{Outcome, ok, fault, ◌>>=◌}
use c_computer_networking.GoBackN.Message.{Message}
use c_computer_networking.GoBackN.Timeval.{Timeval, never, timercmp_lt}
use c_computer_networking.GoBackN.DataBuffer.{DataPacket, get_data_packet_from_buffer}
use c_computer_networking.GoBackN.Sender.{
  Sender, Options, Events, SendResult, sent, again, failed, handle_timeout, after_send, send_loop,
  read_ack, finish_round, iterate,
}
use c_computer_networking.GoBackN.Sender.Keeps.{
  may_send, send_loop-nil, send_loop-stop, send_loop-null, send_loop-again, send_loop-failed,
  send_loop-sent,
}

-- a time that the clock can show: before the end of `long` seconds
abbrev pub BeforeEnd : Timeval → Type 0
BeforeEnd c = c.tv_sec < 2 ^ 63 - 1

abbrev pub AllBeforeEnd : List SendResult → Type 0
AllBeforeEnd [] = Unit
AllBeforeEnd (sent c ∷ rs) = BeforeEnd c × AllBeforeEnd rs
AllBeforeEnd (again ∷ rs) = AllBeforeEnd rs
AllBeforeEnd (failed ∷ rs) = AllBeforeEnd rs

-- The timer is off in what is returned, and the next number has grown by the packets sent.
abbrev pub StaysOff : Sender → Outcome (Sender × List Message) → Type 0
StaysOff s (ok (t, out)) =
    (t.timer_expiration ≡ never)
    × (t.last_ack_seq_no ≡ s.last_ack_seq_no)
    × (t.next_send_seq_no ≡ s.next_send_seq_no + length out)
StaysOff s (fault e) = Unit

-- A timer that is off does not expire.
never-timercmp : (c : Timeval) → BeforeEnd c → timercmp_lt never c ≡ false
unfolding timercmp_lt
never-timercmp c h = ground arith

module _ (o : Options) (very_last : ℕ) where
  after_send-never :
      (c : Timeval) (p : DataPacket) (s : Sender)
      → BeforeEnd c
      → s.timer_expiration ≡ never
      → (after_send o c p s).timer_expiration ≡ never
  unfolding after_send
  after_send-never c p s h off = ground (arith, off, never-timercmp c h)

  after-StaysOff :
      (c : Timeval) (p : DataPacket) (s : Sender) (m : Outcome (Sender × List Message))
      → StaysOff (after_send o c p s) m
      → StaysOff s (m >>= λ r. ok (r.0, p.packet ∷ r.1))
  unfolding after_send
  after-StaysOff c p s (ok (t, out)) h = ground arith
  after-StaysOff c p s (fault e) h = tt

  turn-StaysOff :
      (r : SendResult) (rs : List SendResult) (s : Sender) (p : DataPacket)
      → may_send o very_last s ≡ true
      → get_data_packet_from_buffer s.data_buffer s.next_send_seq_no ≡ some p
      → s.timer_expiration ≡ never
      → AllBeforeEnd (r ∷ rs)
      → ((c : Timeval)
          → BeforeEnd c
          → AllBeforeEnd rs
          → StaysOff (after_send o c p s) (send_loop o very_last rs (after_send o c p s)))
      → StaysOff s (send_loop o very_last (r ∷ rs) s)
  turn-StaysOff again rs s p may e off times rest =
      rw (send_loop-again o very_last rs s p may e) (off, refl, omega arith)
  turn-StaysOff failed rs s p may e off times rest =
      rw (send_loop-failed o very_last rs s p may e) tt
  turn-StaysOff (sent c) rs s p may e off times rest =
      rw (send_loop-sent o very_last rs s p may c e) (
        after-StaysOff c p s (send_loop o very_last rs (after_send o c p s))
          (rest c times.0 times.1))

  -- Sending does not start a timer that is off.
  send_loop-StaysOff :
      (rs : List SendResult) (s : Sender)
      → s.timer_expiration ≡ never
      → AllBeforeEnd rs
      → StaysOff s (send_loop o very_last rs s)
  send_loop-StaysOff [] s off times = rw (send_loop-nil o very_last s) (off, refl, omega arith)
  send_loop-StaysOff (r ∷ rs) s off times = elim (Bool-cases (may_send o very_last s)) [
    | inr stop ↦ rw (send_loop-stop o very_last rs s r stop) (off, refl, omega arith)
    | inl may ↦ elim (Option-cases (get_data_packet_from_buffer s.data_buffer s.next_send_seq_no)) [
      | inl e ↦ rw (send_loop-null o very_last rs s r may e) tt
      | inr (p, e) ↦ turn-StaysOff r rs s p may e off times (λ c now later.
          send_loop-StaysOff rs (after_send o c p s) (after_send-never c p s now off) later)
    ]
  ]

  handle_timeout-never :
      (c : Timeval) (s : Sender) → BeforeEnd c → s.timer_expiration ≡ never → handle_timeout c s ≡ s
  unfolding handle_timeout
  handle_timeout-never c s now off = ground (arith, off, never-timercmp c now)

  finish_round-StaysOff :
      (writable : Bool) (e : Events) (s : Sender)
      → BeforeEnd e.current
      → AllBeforeEnd e.sends
      → s.timer_expiration ≡ never
      → StaysOff s (finish_round o very_last writable e s)
  unfolding finish_round
  finish_round-StaysOff true e s now times off =
      rw (handle_timeout-never e.current s now off) (send_loop-StaysOff e.sends s off times)
  finish_round-StaysOff false e s now times off =
      rw (handle_timeout-never e.current s now off) (off, refl, omega arith)

  read_ack-none : (s : Sender) → read_ack none s ≡ ok s
  unfolding read_ack
  read_ack-none s = refl

  -- A round that reads no acknowledgement, begun with the timer off, at times before the last
  -- second of `long`, leaves the timer off and the last acknowledged number as it is if it
  -- returns, and the next number grows by the number of packets sent, so that none is sent again.
  pub iterate-StaysOff :
      (e : Events) (s : Sender)
      → e.readable ≡ none
      → BeforeEnd e.current
      → AllBeforeEnd e.sends
      → s.timer_expiration ≡ never
      → StaysOff s (iterate o very_last e s)
  unfolding iterate
  iterate-StaysOff e s quiet now times off =
      let silent : read_ack e.readable s ≡ ok s = rw quiet (read_ack-none s) in
      rw silent (finish_round-StaysOff _ e s now times off)
