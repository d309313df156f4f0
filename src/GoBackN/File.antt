-- ===== src/GoBackN/File.antt =====
-- The file as a sequence of packets, and what the parts of the transfer hold of it.
use c_computer_networking.Prelude.{
  ℕ, zero, suc, ◌+◌, ◌≤◌, ◌<◌, ◌≡◌, ◌⊎◌, inl, inr, false, List, [], ◌∷◌, ◌++◌, length,
}
use c_computer_networking.Prelude.Int.{pos, ◌≤ℤ◌}
use c_computer_networking.GoBackN.Message.{Message}
use c_computer_networking.GoBackN.DataBuffer.{DataBuffer}
use c_computer_networking.GoBackN.DataBuffer.Window.{IsValid}

-- the packet was sent before
abbrev pub In : Message → List Message → Type 0
In m [] = ⊥
In m (x ∷ xs) = (m ≡ x) ⊎ In m xs

-- a file of packets `packet_of 0` to `packet_of very_last`
pub record IsFile (packet_of : ℕ → Message) (very_last : ℕ) : Type 0 where
  pub numbered : (n : ℕ) → (packet_of n).seq_no ≡ pos n
  pub clean : (n : ℕ) → (packet_of n).has_errors ≡ false
  pub filled : (n : ℕ) → n < very_last → 0 < length (packet_of n).payload
  pub ended : length (packet_of very_last).payload ≡ 0

-- the data of the first `n` packets
unfoldable pub first_bytes : (ℕ → Message) → ℕ → List ℕ
first_bytes packet_of zero = []
first_bytes packet_of (suc n) = first_bytes packet_of n ++ (packet_of n).payload

abbrev pub All : (Message → Type 0) → List Message → Type 0
All P [] = Unit
All P (m ∷ ms) = P m × All P ms

pub All-In : (P : Message → Type 0) (ms : List Message) (m : Message) → All P ms → In m ms → P m
All-In P [] m h i = absurd i
All-In P (x ∷ ms) m h (inl e) = rw e h.0
All-In P (x ∷ ms) m h (inr i) = All-In P ms m h.1 i

pub All-append :
    (P : Message → Type 0) (xs ys : List Message) → All P xs → All P ys → All P (xs ++ ys)
All-append P [] ys h k = k
All-append P (x ∷ xs) ys h k = (h.0, All-append P xs ys h.1 k)

pub All-mono :
    (P Q : Message → Type 0) (ms : List Message) → ((m : Message) → P m → Q m) → All P ms → All Q ms
All-mono P Q [] f h = h
All-mono P Q (m ∷ ms) f h = (f m h.0, All-mono P Q ms f h.1)

-- an acknowledgement of no more than `n` packets
abbrev pub IsAck : ℕ → Message → Type 0
IsAck n m = m.seq_no_expected ≤ℤ pos n

module _ (packet_of : ℕ → Message) (very_last : ℕ) where
  -- one of the file's packets
  abbrev pub IsData : Message → Type 0
  IsData m = (k : ℕ) × (k ≤ very_last) × (m ≡ packet_of k)

  -- The sender's buffer holds what is left of the file, and misses only what was received.
  pub record Buffered (n : ℕ) (b : DataBuffer) : Type 0 where
    pub valid : IsValid packet_of b
    pub to_end : b.min_seq_no + b.count ≡ very_last + 1
    pub received : b.min_seq_no ≤ n
