-- ===== src/GoBackN/Receiver/Accepted.antt =====
-- What the loop of GoBackNReceiver.c takes of a whole sequence of packets.
use c_computer_networking.Prelude.{
  ℕ, ◌+◌, ◌<◌, ◌≡◌, Bool, true, ◌||◌, not, List, [], ◌∷◌, ◌++◌, length, if◌then◌else◌,
}
use c_computer_networking.Prelude.Int.{pos}
use c_computer_networking.GoBackN.Message.{Message}
use c_computer_networking.GoBackN.Receiver.{Receiver, eqb_ℤ, send_ack}
use c_computer_networking.GoBackN.Receiver.Program.{Incoming, got}

-- the packet is undamaged and has the number `n`
abbrev pub fits_in : ℕ → Message → Bool
fits_in n m = not (m.has_errors || not (eqb_ℤ m.seq_no (pos n)))

-- The data of the packets that are next in order, after `n` of them.
unfoldable pub in_order : ℕ → List Message → List ℕ
in_order n [] = []
in_order n (m ∷ ms) =
    let here = in_order (n + 1) ms in
    let there = in_order n ms in if fits_in n m then m.payload ++ here else there

-- their acknowledgements
unfoldable pub acks_of : ℕ → List Message → List Message
acks_of n [] = []
acks_of n (m ∷ ms) =
    let here = acks_of (n + 1) ms in
    let there = acks_of n ms in if fits_in n m then send_ack m (pos (n + 1)) ∷ here else there

-- no packet without data
abbrev pub AllData : List Message → Type 0
AllData [] = Unit
AllData (m ∷ ms) = (0 < length m.payload) × AllData ms

abbrev pub arrivals : List Message → List Incoming
arrivals [] = []
arrivals (m ∷ ms) = got m ∷ arrivals ms

-- what a sequence of packets leaves
abbrev pub Leaves : ℕ → List Message → Receiver → Receiver → Type 0
Leaves n ms r last = (last.output ≡ r.output ++ in_order n ms) × (last.is_open ≡ true)
