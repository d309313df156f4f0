-- ===== src/GoBackN/System/Invariant.antt =====
-- What every step keeps: the receiver has written a prefix of the packets, acknowledgements speak
-- of packets in that prefix alone, and the sender has freed no packet beyond it.
use c_computer_networking.Prelude.{
  ℕ, suc, ◌+◌, ◌%◌, ◌^◌, ◌≤◌, ◌<◌, ◌≡◌, refl, ap, ◌≢◌, ◌∙◌, ◌⊎◌, inl, inr, true, false, Option,
  none, some, List, [], ◌++◌, arith, length, ltb, ◌==◌, if◌then◌else◌, dec_lt, ℕ_discrete,
  length-append,
}
use c_computer_networking.Prelude.Int.{pos}
use c_computer_networking.Prelude.Outcome.{ok}
use c_computer_networking.GoBackN.Message.{Message}
use c_computer_networking.GoBackN.Receiver.{
  Receiver, initialize, send_ack, count_bytes, handle_packet,
}
use c_computer_networking.GoBackN.Receiver.Order.{
  Received, taken, handle_packet-drop, handle_packet-take,
}
use c_computer_networking.GoBackN.File.{
  IsFile, first_bytes, All, All-In, All-append, All-mono, IsData, IsAck, Buffered,
}
use c_computer_networking.GoBackN.Sender.{Sender, Options, Events, iterate}
use c_computer_networking.GoBackN.Sender.Keeps.{Speaks, iterate-Sent}
use c_computer_networking.GoBackN.System.{
  System, Arrives, ArrivesIfAny, add, Step, receive, round, Reach, here, next,
}

module _ (packet_of : ℕ → Message) (very_last : ℕ) where
  -- The receiver has taken the first `n` packets.
  pub record ReceivedFirst (n : ℕ) (r : Receiver) : Type 0 where
    pub within : n ≤ very_last + 1
    pub last : Received n r
    pub output : r.output ≡ first_bytes packet_of n
    pub is_open : r.is_open ≡ ltb n (very_last + 1)
    pub good : r.good_bytes ≡ length r.output % 2 ^ 64

  pub record InvariantAt (n : ℕ) (s : System) : Type 0 where
    pub receiver : ReceivedFirst n s.receiver
    pub sender : Buffered packet_of very_last n s.sender.data_buffer
    pub data_net : All (IsData packet_of very_last) s.data_net
    pub ack_net : All (IsAck n) s.ack_net

  module _ (file : IsFile packet_of very_last) where
    -- Only the packet that ends the file closes it.
    open-next :
        (n : ℕ)
        → n < very_last + 1
        → (if length (packet_of n).payload == 0 then false else true) ≡ ltb (suc n) (very_last + 1)
    open-next n lt = elim (dec_lt n very_last) [
      | yes before ↦ ground (arith, file.filled n before)
      | no after ↦ let e : n ≡ very_last = omega arith in rw e (ground (arith, file.ended))
    ]

    -- A packet that arrives and is next in order is the packet of the file.
    taken-ReceivedFirst :
        (n : ℕ) (r : Receiver) (m : Message)
        → ReceivedFirst n r
        → n < very_last + 1
        → m ≡ packet_of n
        → ReceivedFirst (suc n) (taken r m)
    unfolding taken first_bytes
    taken-ReceivedFirst n r m h lt e =
        let e' : m.payload ≡ (packet_of n).payload = ap (λ (k : Message). k.payload) e in
        let seq : m.seq_no ≡ pos n = ap (λ (k : Message). k.seq_no) e ∙ file.numbered n in
        record {
          within = omega arith;
          last = ground (arith, seq);
          output = rw (h.output, e');
          is_open = rw e' (open-next n lt);
          good = omega (arith, h.good, length-append r.output m.payload);
        }

    drop-ReceivedFirst :
        (n : ℕ) (r : Receiver) (m : Message) → ReceivedFirst n r → ReceivedFirst n (count_bytes r m)
    unfolding count_bytes
    drop-ReceivedFirst n r m h = record {
      within = h.within;
      last = h.last;
      output = h.output;
      is_open = h.is_open;
      good = h.good;
    }

    -- The acknowledgement of the packet before `n + 1` claims no more than was received.
    send_ack-IsAck : (n : ℕ) (m : Message) → IsAck (suc n) (send_ack m (pos (n + 1)))
    unfolding send_ack
    send_ack-IsAck n m = omega arith

    IsAck-suc : (n : ℕ) (m : Message) → IsAck n m → IsAck (suc n) m
    IsAck-suc n m h = omega arith

    module _ (n : ℕ) (s : System) (m : Message) (r : Receiver) (a : Option Message) where
      abbrev Kept : Type 0
      Kept =
          (n' : ℕ) × (n ≤ n')
          × InvariantAt n' (record s { receiver = r; ack_net = add a s.ack_net })

      dropped-Invariant :
          InvariantAt n s
          → handle_packet s.receiver m ≡ ok (r, a)
          → (m.has_errors ≡ true) ⊎ (m.seq_no ≢ pos n)
          → Kept
      dropped-Invariant inv step bad =
          let drop = handle_packet-drop n s.receiver m inv.receiver.last bad in
          let er : r ≡ count_bytes s.receiver m = cc in
          let ea : a ≡ none = cc in
          rw (er, ea)
            (
              n,
              omega arith,
              record {
                receiver = drop-ReceivedFirst n s.receiver m inv.receiver;
                sender = inv.sender;
                data_net = inv.data_net;
                ack_net = inv.ack_net;
              },
            )

      taken-Invariant :
          InvariantAt n s
          → handle_packet s.receiver m ≡ ok (r, a)
          → n ≤ very_last
          → m ≡ packet_of n
          → Kept
      taken-Invariant inv step le e =
          let clean : m.has_errors ≡ false = ap (λ (k : Message). k.has_errors) e ∙ file.clean n in
          let seq : m.seq_no ≡ pos n = ap (λ (k : Message). k.seq_no) e ∙ file.numbered n in
          let is_open : s.receiver.is_open ≡ true = ground (arith, inv.receiver.is_open) in
          let take = handle_packet-take n s.receiver m inv.receiver.last clean seq is_open in
          let er : r ≡ taken s.receiver m = cc in
          let ea : a ≡ some (send_ack m (pos (n + 1))) = cc in
          rw (er, ea)
            (
              suc n,
              omega arith,
              record {
                receiver = taken-ReceivedFirst n s.receiver m inv.receiver (omega arith) e;
                sender = record {
                  valid = inv.sender.valid;
                  to_end = inv.sender.to_end;
                  received = omega (arith, inv.sender.received);
                };
                data_net = inv.data_net;
                ack_net = (
                  send_ack-IsAck n m,
                  All-mono (IsAck n) (IsAck (suc n)) s.ack_net (IsAck-suc n) inv.ack_net,
                );
              },
            )

      -- A damaged packet is dropped; any other is a packet of the file, and is taken if it is next.
      receive-Invariant :
          InvariantAt n s → Arrives s.data_net m → handle_packet s.receiver m ≡ ok (r, a) → Kept
      receive-Invariant inv (inr damaged) step = dropped-Invariant inv step (inl damaged)
      receive-Invariant inv (inl i) step =
          let (k, le, e) = All-In (IsData packet_of very_last) s.data_net m inv.data_net i in
          let seq : m.seq_no ≡ pos k = ap (λ (p : Message). p.seq_no) e ∙ file.numbered k in
          elim (ℕ_discrete k n) [
            | yes same ↦ taken-Invariant inv step (rw same at le) (rw same at e)
            | no other ↦ dropped-Invariant inv step (inr (ground (arith, seq)))
          ]

  Arrives-Speaks :
      (n : ℕ) (net : List Message) (ack : Option Message)
      → All (IsAck n) net
      → ArrivesIfAny net ack
      → Speaks n ack
  Arrives-Speaks n net none h a = tt
  Arrives-Speaks n net (some m) h (inl i) = inr (All-In (IsAck n) net m h i)
  Arrives-Speaks n net (some m) h (inr damaged) = inl damaged

  -- A round of the sender keeps what was received, and sends packets of the file.
  round-Invariant :
      (o : Options) (n : ℕ) (s : System) (e : Events) (t : Sender) (out : List Message)
      → InvariantAt n s
      → ArrivesIfAny s.ack_net e.readable
      → iterate o very_last e s.sender ≡ ok (t, out)
      → InvariantAt n (record s { sender = t; data_net = out ++ s.data_net })
  round-Invariant o n s e t out inv arrives step =
      let speaks = Arrives-Speaks n s.ack_net e.readable inv.ack_net arrives in
      let kept =
        rw step at
          (iterate-Sent packet_of very_last o n e s.sender inv.receiver.within inv.sender speaks) in
      record {
        receiver = inv.receiver;
        sender = kept.0;
        data_net = All-append (IsData packet_of very_last) out s.data_net kept.1 inv.data_net;
        ack_net = inv.ack_net;
      }

  -- What holds before the first step: the file is in the buffer and nothing has been sent.
  pub record IsInitial (s : System) : Type 0 where
    pub buffer : Buffered packet_of very_last 0 s.sender.data_buffer
    pub receiver : s.receiver ≡ initialize
    pub no_data : s.data_net ≡ []
    pub no_acks : s.ack_net ≡ []

  IsInitial-Invariant : (s : System) → IsInitial s → InvariantAt 0 s
  unfolding initialize first_bytes
  IsInitial-Invariant s h = record {
    receiver = rw h.receiver (record {
      within = omega arith;
      last = ground arith;
      output = refl;
      is_open = ground arith;
      good = refl;
    });
    sender = h.buffer;
    data_net = rw h.no_data tt;
    ack_net = rw h.no_acks tt;
  }

  module _ (file : IsFile packet_of very_last) (o : Options) where
    Step-Invariant :
        {s t : System} (n : ℕ)
        → InvariantAt n s
        → Step o very_last s t
        → (n' : ℕ) × InvariantAt n' t
    Step-Invariant n inv (receive s m r a arrives step) =
        let (n', le, inv') = receive-Invariant file n s m r a inv arrives step in (n', inv')
    Step-Invariant n inv (round s e t out arrives left step) =
        (n, round-Invariant o n s e t out inv arrives step)

    -- Every reachable state satisfies the invariant, at some number of received packets.
    pub Reach-Invariant :
        {s t : System} → Reach o very_last s t → IsInitial s → (n : ℕ) × InvariantAt n t
    Reach-Invariant here h = (0, IsInitial-Invariant _ h)
    Reach-Invariant (next r step) h =
        let (n, inv) = Reach-Invariant r h in Step-Invariant n inv step
