-- ===== src/GoBackN/Sender/Rounds.antt =====
-- What a round of the sender does to its numbers: the send window, and two ways in
-- which an acknowledgement that is repeated or late defeats the sender.
use c_computer_networking.Prelude.{
  ℕ, ◌+◌, ◌-◌, ◌≤◌, ◌<◌, ◌≡◌, refl, sym, ◌∙◌, ◌⊎◌, inl, inr, Bool, true, false, Option, none, some,
  List, [], ◌∷◌, arith, length, Bool-cases, Option-cases,
}
use c_computer_networking.Prelude.Int.{pos_part}
use c_computer_networking.Prelude.Outcome.{
  Outcome, ok, fault, null_pointer, assertion, ◌>>=◌, >>=-eq-ok,
}
use c_computer_networking.GoBackN.Message.{Message}
use c_computer_networking.GoBackN.Timeval.{Timeval}
use c_computer_networking.GoBackN.DataBuffer.{DataPacket, free_buffer, get_data_packet_from_buffer}
use c_computer_networking.GoBackN.DataBuffer.Window.{IsValid, get-outside}
use c_computer_networking.GoBackN.DataBuffer.Free.{free_buffer-backwards}
use c_computer_networking.GoBackN.Sender.{
  Sender, Options, Events, SendResult, sent, again, failed, rearm, handle_ack, handle_timeout,
  after_send, send_loop, read_ack, finish_round, iterate,
}
use c_computer_networking.GoBackN.Sender.Keeps.{
  Heeded, free_and_rearm, handle_ack-Heeded, handle_ack-cases, may_send, send_loop-nil,
  send_loop-stop, send_loop-null, send_loop-again, send_loop-failed, send_loop-sent, rearm-fields,
  heeded-window,
}

-- the sender is no further ahead of the last acknowledgement than the window
abbrev pub InWindow : Options → Sender → Type 0
InWindow o s = s.next_send_seq_no ≤ s.last_ack_seq_no + o.window

-- what the loop that sends does to the numbers, for each packet it sends
abbrev pub Advances : Options → Sender → Outcome (Sender × List Message) → Type 0
Advances o s (ok (t, out)) =
    (t.next_send_seq_no ≡ s.next_send_seq_no + length out)
    × (t.last_ack_seq_no ≡ s.last_ack_seq_no)
    × (t.next_send_seq_no ≤ s.last_ack_seq_no + o.window ⊎ t.next_send_seq_no ≡ s.next_send_seq_no)
Advances o s (fault e) = Unit

module _ (o : Options) (very_last : ℕ) where
  after-Advances :
      (c : Timeval) (p : DataPacket) (s : Sender) (m : Outcome (Sender × List Message))
      → may_send o very_last s ≡ true
      → Advances o (after_send o c p s) m
      → Advances o s (m >>= λ r. ok (r.0, p.packet ∷ r.1))
  unfolding after_send
  after-Advances c p s (ok (t, out)) may h = ground arith
  after-Advances c p s (fault e) may h = tt

  turn-Advances :
      (r : SendResult) (rs : List SendResult) (s : Sender) (p : DataPacket)
      → may_send o very_last s ≡ true
      → get_data_packet_from_buffer s.data_buffer s.next_send_seq_no ≡ some p
      → ((c : Timeval)
          → Advances o (after_send o c p s) (send_loop o very_last rs (after_send o c p s)))
      → Advances o s (send_loop o very_last (r ∷ rs) s)
  turn-Advances again rs s p may e rest =
      rw (send_loop-again o very_last rs s p may e) (omega arith, refl, inr refl)
  turn-Advances failed rs s p may e rest = rw (send_loop-failed o very_last rs s p may e) tt
  turn-Advances (sent c) rs s p may e rest =
      rw (send_loop-sent o very_last rs s p may c e)
        (after-Advances c p s (send_loop o very_last rs (after_send o c p s)) may (rest c))

  -- Each packet sent advances the next number by one, never past the window.
  pub send_loop-Advances :
      (rs : List SendResult) (s : Sender) → Advances o s (send_loop o very_last rs s)
  send_loop-Advances [] s = rw (send_loop-nil o very_last s) (omega arith, refl, inr refl)
  send_loop-Advances (r ∷ rs) s = elim (Bool-cases (may_send o very_last s)) [
    | inr stop ↦ rw (send_loop-stop o very_last rs s r stop) (omega arith, refl, inr refl)
    | inl may ↦ elim (Option-cases (get_data_packet_from_buffer s.data_buffer s.next_send_seq_no)) [
      | inl e ↦ rw (send_loop-null o very_last rs s r may e) tt
      | inr (p, e) ↦ turn-Advances r rs s p may e (λ c. send_loop-Advances rs (after_send o c p s))
    ]
  ]

  -- what a round returns keeps the window
  abbrev pub KeepsWindow : Outcome (Sender × List Message) → Type 0
  KeepsWindow (ok (t, out)) = InWindow o t
  KeepsWindow (fault e) = Unit

  Advances-KeepsWindow :
      (s : Sender) (m : Outcome (Sender × List Message))
      → InWindow o s
      → Advances o s m
      → KeepsWindow m
  Advances-KeepsWindow s (ok (t, out)) h a = ground arith
  Advances-KeepsWindow s (fault e) h a = tt

  bind-KeepsWindow :
      (m : Outcome Sender) (f : Sender → Outcome (Sender × List Message))
      → ((t : Sender) → m ≡ ok t → KeepsWindow (f t))
      → KeepsWindow (m >>= f)
  bind-KeepsWindow (ok t) f h = h t refl
  bind-KeepsWindow (fault e) f h = tt

  handle_timeout-InWindow :
      (c : Timeval) (s : Sender) → 0 < o.window → InWindow o s → InWindow o (handle_timeout c s)
  unfolding handle_timeout
  handle_timeout-InWindow c s some_window h = ground arith

  finish_round-KeepsWindow :
      (writable : Bool) (e : Events) (s : Sender)
      → 0 < o.window
      → InWindow o s
      → KeepsWindow (finish_round o very_last writable e s)
  unfolding finish_round
  finish_round-KeepsWindow true e s some_window h =
      let s' = handle_timeout e.current s in
      Advances-KeepsWindow s' (send_loop o very_last e.sends s')
        (handle_timeout-InWindow e.current s some_window h) (send_loop-Advances e.sends s')
  finish_round-KeepsWindow false e s some_window h =
      handle_timeout-InWindow e.current s some_window h

-- What a heeded acknowledgement leaves: the last number before `e`, and no other number changed.
free_and_rearm-numbers :
    (s t : Sender) (e : ℕ)
    → free_and_rearm s e ≡ ok t
    → (t.last_ack_seq_no ≡ e - 1) × (t.next_send_seq_no ≡ s.next_send_seq_no)
free_and_rearm-numbers s t e step =
    let (b, freed_ok, armed) =
      >>=-eq-ok (free_buffer s.data_buffer s.data_buffer.min_seq_no (e - 1))
        (λ b. rearm (record s { data_buffer = b; last_ack_seq_no = e - 1 }) e) t step in
    let fields = rearm-fields (record s { data_buffer = b; last_ack_seq_no = e - 1 }) e t armed in
    (fields.1, fields.2)

-- An acknowledgement never takes the last number back, and leaves the next one alone.
handle_ack-numbers :
    (s t : Sender) (ack : Message)
    → handle_ack s ack ≡ ok t
    → (s.last_ack_seq_no ≤ t.last_ack_seq_no) × (t.next_send_seq_no ≡ s.next_send_seq_no)
handle_ack-numbers s t ack step = elim (handle_ack-cases s ack) [
  | inr same ↦ let e : t ≡ s = cc in rw e (omega arith, refl)
  | inl heeded ↦
      let n =
        free_and_rearm-numbers s t (pos_part ack.seq_no_expected)
          (sym (handle_ack-Heeded s ack heeded) ∙ step) in
      (ground (arith, heeded.1, n.0), n.1)
]

read_ack-InWindow :
    (o : Options) (ack : Option Message) (s t : Sender)
    → InWindow o s
    → read_ack ack s ≡ ok t
    → InWindow o t
unfolding read_ack
read_ack-InWindow o none s t h step = let e : t ≡ s = cc in rw e h
read_ack-InWindow o (some ack) s t h step = omega (arith, handle_ack-numbers s t ack step)

-- With a window above zero, a round that returns, begun with the next number at most a window
-- beyond the last acknowledged one, ends so, whatever arrives and however often `send` succeeds.
pub iterate-InWindow :
    (o : Options) (very_last : ℕ) (e : Events) (s : Sender)
    → 0 < o.window
    → InWindow o s
    → KeepsWindow o very_last (iterate o very_last e s)
unfolding iterate
iterate-InWindow o very_last e s some_window h =
    bind-KeepsWindow o very_last (read_ack e.readable s) (finish_round o very_last _ e) (λ t step.
      finish_round-KeepsWindow o very_last _ e t some_window
        (read_ack-InWindow o e.readable s t h step))

module _ (packet_of : ℕ → Message) (s t : Sender) (ack : Message) where
  module _ (valid : IsValid packet_of s.data_buffer) (heeded : Heeded s ack)
      (covered : pos_part ack.seq_no_expected ≤ s.data_buffer.min_seq_no + s.data_buffer.count)
      (step : handle_ack s ack ≡ ok t) where
    abbrev expected : ℕ
    expected = pos_part ack.seq_no_expected

    positive : s.last_ack_seq_no < expected
    positive = ground (arith, heeded.1)

    -- The window now starts at the number that the receiver expects.
    window : IsValid packet_of t.data_buffer × (t.data_buffer.min_seq_no ≡ expected)
    window =
        let w =
          heeded-window packet_of 0 0 s ack t expected valid (omega (arith, positive)) covered
            (sym (handle_ack-Heeded s ack heeded) ∙ step) in
        (w.0, w.1)

    numbers : (t.last_ack_seq_no ≡ expected - 1) × (t.next_send_seq_no ≡ s.next_send_seq_no)
    numbers = free_and_rearm-numbers s t expected (sym (handle_ack-Heeded s ack heeded) ∙ step)

    Heeded-handle_ack : Heeded t ack
    Heeded-handle_ack = (heeded.0, ground (arith, numbers.0, positive, heeded.1))

    -- An undamaged acknowledgement beyond the last one that the sender has handled, with a valid
    -- buffer that reaches up to the number expected, stops the sender at an assert when the same
    -- acknowledgement comes again.
    pub handle_ack-twice : handle_ack t ack ≡ fault assertion
    handle_ack-twice =
        let stop =
          free_buffer-backwards t.data_buffer (expected - 1) (omega (arith, window.1, positive)) in
        handle_ack-Heeded t ack Heeded-handle_ack ∙ rw stop

    -- After the sender has handled an undamaged acknowledgement beyond the last one, with a valid
    -- buffer that reaches up to the number expected, if the next number to send was behind the
    -- number expected, the loop that sends follows a NULL pointer as soon as it may send.
    pub handle_ack-late :
        (o : Options) (very_last : ℕ) (r : SendResult) (rs : List SendResult)
        → s.next_send_seq_no < expected
        → may_send o very_last t ≡ true
        → send_loop o very_last (r ∷ rs) t ≡ fault null_pointer
    handle_ack-late o very_last r rs behind may = send_loop-null o very_last rs t r may (
        get-outside packet_of t.data_buffer window.0 t.next_send_seq_no
          (inl (omega (arith, window.1, numbers.1))))
