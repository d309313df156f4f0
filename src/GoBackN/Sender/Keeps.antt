-- ===== src/GoBackN/Sender/Keeps.antt =====
-- A round of the sender keeps the rest of the file in its buffer, sends packets of the file alone,
-- and frees no packet that the acknowledgement does not cover.
use c_computer_networking.Prelude.{
  ℕ, ◌+◌, ◌-◌, ◌≤◌, ◌<◌, ◌≡◌, refl, sym, ◌∙◌, ◌⊎◌, inl, inr, Bool, true, false, ◌&&◌, Option, none,
  some, List, [], ◌∷◌, arith, ltb, leb, Bool-cases, Option-cases, dec_lt,
}
use c_computer_networking.Prelude.Int.{pos, ltb_ℤ, pos_part}
use c_computer_networking.Prelude.Outcome.{
  Outcome, ok, fault, null_pointer, exit_failure, assertion, ◌>>=◌,
}
use c_computer_networking.GoBackN.Message.{Message}
use c_computer_networking.GoBackN.Timeval.{Timeval, timercmp_lt, timeradd}
use c_computer_networking.GoBackN.DataBuffer.{
  DataPacket, DataBuffer, get_data_packet_from_buffer, free_buffer, get_first_seq_no_of_buffer,
  set_timeout, reset_timers, slot_of,
}
use c_computer_networking.GoBackN.DataBuffer.Window.{IsValid, get-Holds, get-outside}
use c_computer_networking.GoBackN.DataBuffer.Free.{freed, free_buffer-Freed, free_buffer-backwards}
use c_computer_networking.GoBackN.DataBuffer.Timers.{
  set_timeout-IsValid, reset_timers-Reset, reset_timers-full,
}
use c_computer_networking.GoBackN.File.{All, IsData, IsAck, Buffered}
use c_computer_networking.GoBackN.Sender.{
  Sender, Options, Events, SendResult, sent, again, failed, rearm, handle_ack, handle_timeout,
  after_send, send_loop, read_ack, finish_round, iterate,
}

-- Recomputing the timer leaves the buffer and the numbers alone.
pub rearm-fields :
    (s : Sender) (e : ℕ) (t : Sender)
    → rearm s e ≡ ok t
    → (t.data_buffer ≡ s.data_buffer)
      × (t.last_ack_seq_no ≡ s.last_ack_seq_no)
      × (t.next_send_seq_no ≡ s.next_send_seq_no)
unfolding rearm
rearm-fields s e t h = ground arith

-- a packet that `recv` may read, if any, when `n` packets have been received
abbrev pub Speaks : ℕ → Option Message → Type 0
Speaks n none = Unit
Speaks n (some ack) = (ack.has_errors ≡ true) ⊎ IsAck n ack

set_timeout-fields :
    (b : DataBuffer) (i : ℕ) (t : Timeval)
    → ((set_timeout b i t).min_seq_no ≡ b.min_seq_no) × ((set_timeout b i t).count ≡ b.count)
unfolding set_timeout
set_timeout-fields b i t = ground arith

-- an acknowledgement that the sender heeds: undamaged, and beyond the last one
abbrev pub Heeded : Sender → Message → Type 0
Heeded s ack = (ack.has_errors ≡ false) × (ltb_ℤ (pos s.last_ack_seq_no) ack.seq_no_expected ≡ true)

-- what a heeded acknowledgement of all packets before `e` does
abbrev pub free_and_rearm : Sender → ℕ → Outcome Sender
free_and_rearm s e = free_buffer s.data_buffer s.data_buffer.min_seq_no (e - 1) >>= λ b.
    rearm (record s { data_buffer = b; last_ack_seq_no = e - 1 }) e

none≢some : {p : DataPacket} → ¬ (none ≡ some p)
none≢some h = cc

module _ (s : Sender) (ack : Message) where
  pub handle_ack-Heeded :
      Heeded s ack → handle_ack s ack ≡ free_and_rearm s (pos_part ack.seq_no_expected)
  unfolding handle_ack get_first_seq_no_of_buffer
  handle_ack-Heeded h = rw (h.0, h.1)

  -- A damaged or an old acknowledgement changes nothing.
  pub handle_ack-ignored :
      (ack.has_errors ≡ true) ⊎ (ltb_ℤ (pos s.last_ack_seq_no) ack.seq_no_expected ≡ false)
      → handle_ack s ack ≡ ok s
  unfolding handle_ack
  handle_ack-ignored h = ground arith

  pub handle_ack-cases : (Heeded s ack) ⊎ (handle_ack s ack ≡ ok s)
  handle_ack-cases = elim (Bool-cases ack.has_errors) [
    | inl bad ↦ inr (handle_ack-ignored (inl bad))
    | inr good ↦ elim (Bool-cases (ltb_ℤ (pos s.last_ack_seq_no) ack.seq_no_expected)) [
      | inl newer ↦ inl (good, newer)
      | inr old ↦ inr (handle_ack-ignored (inr old))
    ]
  ]

-- the test of the loop that sends
abbrev pub may_send : Options → ℕ → Sender → Bool
may_send o very_last s =
    ltb s.next_send_seq_no (s.last_ack_seq_no + o.window) && leb s.next_send_seq_no very_last

pub send_loop-nil :
    (o : Options) (very_last : ℕ) (s : Sender) → send_loop o very_last [] s ≡ ok (s, [])
unfolding send_loop
send_loop-nil o very_last s = refl

module _ (o : Options) (very_last : ℕ) (rs : List SendResult) (s : Sender) where
  pub send_loop-stop :
      (r : SendResult)
      → may_send o very_last s ≡ false
      → send_loop o very_last (r ∷ rs) s ≡ ok (s, [])
  unfolding send_loop
  send_loop-stop r e = ground (arith, e)

  -- A packet that the buffer no longer has, or never had, is a NULL that the loop follows.
  pub send_loop-null :
      (r : SendResult)
      → may_send o very_last s ≡ true
      → get_data_packet_from_buffer s.data_buffer s.next_send_seq_no ≡ none
      → send_loop o very_last (r ∷ rs) s ≡ fault null_pointer
  unfolding send_loop
  send_loop-null r e none_there = ground (arith, e, none_there)

  module _ (p : DataPacket) (may : may_send o very_last s ≡ true) where
    pub send_loop-sent :
        (c : Timeval)
        → get_data_packet_from_buffer s.data_buffer s.next_send_seq_no ≡ some p
        → send_loop o very_last (sent c ∷ rs) s
          ≡ (send_loop o very_last rs (after_send o c p s) >>= λ r. ok (r.0, p.packet ∷ r.1))
    unfolding send_loop
    send_loop-sent c found = ground (arith, may, found)

    pub send_loop-again :
        get_data_packet_from_buffer s.data_buffer s.next_send_seq_no ≡ some p
        → send_loop o very_last (again ∷ rs) s ≡ ok (s, [])
    unfolding send_loop
    send_loop-again found = ground (arith, may, found)

    pub send_loop-failed :
        get_data_packet_from_buffer s.data_buffer s.next_send_seq_no ≡ some p
        → send_loop o very_last (failed ∷ rs) s ≡ fault exit_failure
    unfolding send_loop
    send_loop-failed found = ground (arith, may, found)

module _ (packet_of : ℕ → Message) (very_last : ℕ) where
  module _ (n : ℕ) (s : Sender) (ack : Message) (t : Sender) where
    -- A heeded acknowledgement moves the start of the window to the number it expects.
    pub heeded-window :
        (e : ℕ)
        → IsValid packet_of s.data_buffer
        → 0 < e
        → e ≤ s.data_buffer.min_seq_no + s.data_buffer.count
        → free_and_rearm s e ≡ ok t
        → IsValid packet_of t.data_buffer
          × (t.data_buffer.min_seq_no ≡ e)
          × (e + t.data_buffer.count ≡ s.data_buffer.min_seq_no + s.data_buffer.count)
    heeded-window e valid positive covered step = elim (dec_lt (e - 1) s.data_buffer.min_seq_no) [
      | yes behind ↦
          let stop = free_buffer-backwards s.data_buffer (e - 1) behind in
          let impossible : fault assertion ≡ ok t = rw stop at step in cc
      | no reaches ↦
          let f =
            free_buffer-Freed packet_of s.data_buffer (e - 1) valid (omega arith) (omega arith) in
          let b' = freed (e - 1 - s.data_buffer.min_seq_no + 1) s.data_buffer in
          let step' : rearm (record s { data_buffer = b'; last_ack_seq_no = e - 1 }) e ≡ ok t =
            rw f.returned at step in
          let same =
            rearm-fields (record s { data_buffer = b'; last_ack_seq_no = e - 1 }) e t step' in
          rw same.0 (f.valid, omega (arith, f.min_seq_no), omega (arith, f.min_seq_no, f.count))
    ]

    heeded-Buffered :
        (e : ℕ)
        → 0 < e
        → e ≤ n
        → n ≤ very_last + 1
        → Buffered packet_of very_last n s.data_buffer
        → free_and_rearm s e ≡ ok t
        → Buffered packet_of very_last n t.data_buffer
    heeded-Buffered e positive le within b step =
        let w = heeded-window e b.valid positive (omega (arith, b.to_end)) step in
        record {
          valid = w.0;
          to_end = omega (arith, w.1, w.2, b.to_end);
          received = omega (arith, w.1);
        }

    -- An acknowledgement of packets that were received frees only such packets.
    handle_ack-Buffered :
        n ≤ very_last + 1
        → Buffered packet_of very_last n s.data_buffer
        → (ack.has_errors ≡ true) ⊎ IsAck n ack
        → handle_ack s ack ≡ ok t
        → Buffered packet_of very_last n t.data_buffer
    handle_ack-Buffered le b arrives step = elim (handle_ack-cases s ack) [
      | inr same ↦ let e : t ≡ s = cc in rw e b
      | inl heeded ↦
          heeded-Buffered (pos_part ack.seq_no_expected) (ground (arith, heeded.1))
            (ground (arith, heeded.0, heeded.1)) le b (sym (handle_ack-Heeded s ack heeded) ∙ step)
    ]

  reset-Buffered :
      (n : ℕ) (b : DataBuffer)
      → Buffered packet_of very_last n b
      → Buffered packet_of very_last n (reset_timers b)
  reset-Buffered n b h = elim (dec_lt b.count b.max_count) [
    | yes room ↦
        let r = reset_timers-Reset packet_of b h.valid room in
        record {
          valid = r.valid;
          to_end = omega (arith, r.min_seq_no, r.count, h.to_end);
          received = omega (arith, r.min_seq_no, h.received);
        }
    | no full ↦
        let e : b.count ≡ b.max_count = omega (arith, h.valid.count_in) in
        rw (reset_timers-full packet_of b h.valid e) h
  ]

  handle_timeout-Buffered :
      (n : ℕ) (current : Timeval) (s : Sender)
      → Buffered packet_of very_last n s.data_buffer
      → Buffered packet_of very_last n (handle_timeout current s).data_buffer
  unfolding handle_timeout
  handle_timeout-Buffered n current s b =
      elim (Bool-cases (timercmp_lt s.timer_expiration current)) [
        | inr waiting ↦ rw waiting b
        | inl expired ↦ rw expired (reset-Buffered n s.data_buffer b)
      ]

  -- A packet that the buffer hands out is a packet of the file.
  found-IsData :
      (n k : ℕ) (b : DataBuffer) (p : DataPacket)
      → Buffered packet_of very_last n b
      → get_data_packet_from_buffer b k ≡ some p
      → IsData packet_of very_last p.packet
  found-IsData n k b p h found = elim (dec_lt k b.min_seq_no) [
    | yes before ↦ absurd (none≢some (sym (get-outside packet_of b h.valid k (inl before)) ∙ found))
    | no at_least ↦ elim (dec_lt k (b.min_seq_no + b.count)) [
      | no behind ↦
          absurd (none≢some (sym (get-outside packet_of b h.valid k (inr (omega arith))) ∙ found))
      | yes inside ↦ (
        k,
        omega (arith, h.to_end),
        rw found at (get-Holds packet_of b h.valid k (omega arith) inside),
      )
    ]
  ]

  after_send-Buffered :
      (o : Options) (n : ℕ) (c : Timeval) (p : DataPacket) (s : Sender)
      → Buffered packet_of very_last n s.data_buffer
      → Buffered packet_of very_last n (after_send o c p s).data_buffer
  unfolding after_send
  after_send-Buffered o n c p s b =
      let i = slot_of s.data_buffer s.next_send_seq_no in
      let same = set_timeout-fields s.data_buffer i (timeradd c o.timeout) in
      record {
        valid = set_timeout-IsValid packet_of s.data_buffer i (timeradd c o.timeout) b.valid;
        to_end = omega (arith, same, b.to_end);
        received = omega (arith, same, b.received);
      }

  -- what the loop that sends returns: the buffer as before, and packets of the file
  abbrev pub Sent : ℕ → Outcome (Sender × List Message) → Type 0
  Sent n (ok (t, out)) =
      Buffered packet_of very_last n t.data_buffer × All (IsData packet_of very_last) out
  Sent n (fault e) = Unit

  cons-Sent :
      (n : ℕ) (p : DataPacket) (m : Outcome (Sender × List Message))
      → IsData packet_of very_last p.packet
      → Sent n m
      → Sent n (m >>= λ r. ok (r.0, p.packet ∷ r.1))
  cons-Sent n p (ok (t, out)) d h = (h.0, (d, h.1))
  cons-Sent n p (fault e) d h = tt

  -- one call of `send`, with what the rest of the loop does after each time that it may return at
  turn-Sent :
      (o : Options) (n : ℕ) (r : SendResult) (rs : List SendResult) (s : Sender) (p : DataPacket)
      → Buffered packet_of very_last n s.data_buffer
      → may_send o very_last s ≡ true
      → get_data_packet_from_buffer s.data_buffer s.next_send_seq_no ≡ some p
      → ((c : Timeval) → Sent n (send_loop o very_last rs (after_send o c p s)))
      → Sent n (send_loop o very_last (r ∷ rs) s)
  turn-Sent o n again rs s p b may e rest = rw (send_loop-again o very_last rs s p may e) (b, tt)
  turn-Sent o n failed rs s p b may e rest = rw (send_loop-failed o very_last rs s p may e) tt
  turn-Sent o n (sent c) rs s p b may e rest = rw (send_loop-sent o very_last rs s p may c e) (
      cons-Sent n p (send_loop o very_last rs (after_send o c p s))
        (found-IsData n s.next_send_seq_no s.data_buffer p b e) (rest c))

  -- Whatever `send` answers, the loop sends packets of the file alone.
  send_loop-Sent :
      (o : Options) (n : ℕ) (rs : List SendResult) (s : Sender)
      → Buffered packet_of very_last n s.data_buffer
      → Sent n (send_loop o very_last rs s)
  send_loop-Sent o n [] s b = rw (send_loop-nil o very_last s) (b, tt)
  send_loop-Sent o n (r ∷ rs) s b = elim (Bool-cases (may_send o very_last s)) [
    | inr stop ↦ rw (send_loop-stop o very_last rs s r stop) (b, tt)
    | inl may ↦ elim (Option-cases (get_data_packet_from_buffer s.data_buffer s.next_send_seq_no)) [
      | inl e ↦ rw (send_loop-null o very_last rs s r may e) tt
      | inr (p, e) ↦
          turn-Sent o n r rs s p b may e
            (λ c. send_loop-Sent o n rs (after_send o c p s) (after_send-Buffered o n c p s b))
    ]
  ]

  bind-Sent :
      (n : ℕ) (m : Outcome Sender) (f : Sender → Outcome (Sender × List Message))
      → ((t : Sender) → m ≡ ok t → Sent n (f t))
      → Sent n (m >>= f)
  bind-Sent n (ok t) f h = h t refl
  bind-Sent n (fault e) f h = tt

  read_ack-Buffered :
      (n : ℕ) (ack : Option Message) (s t : Sender)
      → n ≤ very_last + 1
      → Buffered packet_of very_last n s.data_buffer
      → Speaks n ack
      → read_ack ack s ≡ ok t
      → Buffered packet_of very_last n t.data_buffer
  unfolding read_ack
  read_ack-Buffered n none s t le b speaks step = let e : t ≡ s = cc in rw e b
  read_ack-Buffered n (some ack) s t le b speaks step =
      handle_ack-Buffered n s ack t le b speaks step

  finish_round-Sent :
      (o : Options) (n : ℕ) (writable : Bool) (e : Events) (s : Sender)
      → Buffered packet_of very_last n s.data_buffer
      → Sent n (finish_round o very_last writable e s)
  unfolding finish_round
  finish_round-Sent o n true e s b =
      send_loop-Sent o n e.sends (handle_timeout e.current s)
        (handle_timeout-Buffered n e.current s b)
  finish_round-Sent o n false e s b = (handle_timeout-Buffered n e.current s b, tt)

  -- A round of the sender that returns, begun when its buffer holds what is left of the file and
  -- misses only packets among the first `n`, that have been received, keeps the buffer so and
  -- sends only packets of the file, if `n` is at most the number of packets and the
  -- acknowledgement that it reads, if any, is damaged or acknowledges at most `n` packets.
  pub iterate-Sent :
      (o : Options) (n : ℕ) (e : Events) (s : Sender)
      → n ≤ very_last + 1
      → Buffered packet_of very_last n s.data_buffer
      → Speaks n e.readable
      → Sent n (iterate o very_last e s)
  unfolding iterate
  iterate-Sent o n e s le b arrives =
      bind-Sent n (read_ack e.readable s) (finish_round o very_last _ e)
        (λ t h. finish_round-Sent o n _ e t (read_ack-Buffered n e.readable s t le b arrives h))
