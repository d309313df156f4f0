-- ===== src/GoBackN/System.antt =====
-- The sender and the receiver of GoBackN/src.task over a network. The network is the weakest that
-- is possible: it delivers any packet that was ever sent, in any order, any number of times or
-- never, and besides any packet at all that is marked as damaged.
pub mod Invariant
pub mod Transfer
use c_computer_networking.Prelude.{
  ℕ, ◌+◌, ◌<◌, ◌≡◌, ◌⊎◌, Bool, true, Option, none, some, List, [], ◌∷◌, ◌++◌,
}
use c_computer_networking.Prelude.Outcome.{Outcome, ok}
use c_computer_networking.GoBackN.Message.{Message}
use c_computer_networking.GoBackN.File.{In}
use c_computer_networking.GoBackN.DataBuffer.{get_buffer_size}
use c_computer_networking.GoBackN.Receiver.{Receiver, handle_packet}
use c_computer_networking.GoBackN.Sender.{Sender, Options, Events, iterate}

pub record System : Type 0 where
  pub sender : Sender
  pub receiver : Receiver
  pub data_net : List Message
  pub ack_net : List Message

-- the network may deliver the packet
abbrev pub Arrives : List Message → Message → Type 0
Arrives net m = In m net ⊎ (m.has_errors ≡ true)

abbrev pub ArrivesIfAny : List Message → Option Message → Type 0
ArrivesIfAny net none = Unit
ArrivesIfAny net (some m) = Arrives net m

abbrev pub add : Option Message → List Message → List Message
add none net = net
add (some m) net = m ∷ net

-- A step of the receiver for a packet that arrives, or a round of the sender's loop.
pub data Step (o : Options) (very_last : ℕ) : System → System → Type 0 where
  receive :
      (s : System) (m : Message) (r : Receiver) (a : Option Message)
      → Arrives s.data_net m
      → handle_packet s.receiver m ≡ ok (r, a)
      → Step o very_last s (record s { receiver = r; ack_net = add a s.ack_net })
  round :
      (s : System) (e : Events) (t : Sender) (out : List Message)
      → ArrivesIfAny s.ack_net e.readable
      → 0 < get_buffer_size s.sender.data_buffer
      → iterate o very_last e s.sender ≡ ok (t, out)
      → Step o very_last s (record s { sender = t; data_net = out ++ s.data_net })

pub data Reach (o : Options) (very_last : ℕ) (s : System) : System → Type 0 where
  here : Reach o very_last s s
  next : {t u : System} → Reach o very_last s t → Step o very_last t u → Reach o very_last s u
