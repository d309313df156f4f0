-- ===== src/GoBackN/System/Transfer.antt =====
-- The correctness of the transfer: whatever the network does, the receiver's file is a prefix of the
-- sender's file, and it is the whole file once the sender has stopped.
use c_computer_networking.Prelude.{
  ℕ, zero, suc, ◌+◌, ◌*◌, ◌%◌, ◌^◌, ◌≤◌, ◌≡◌, refl, ap, sym, ◌∙◌, false, List, [], ◌∷◌, ◌++◌, arith,
  length, take, drop,
}
use c_computer_networking.Prelude.Outcome.{ok}
use c_computer_networking.GoBackN.DataBuffer.{DataBuffer, get_buffer_size}
use c_computer_networking.GoBackN.File.{first_bytes}
use c_computer_networking.GoBackN.Receiver.{initialize}
use c_computer_networking.GoBackN.Sender.{Options, start, read_file_into_buffer, data_message}
use c_computer_networking.GoBackN.Sender.Load.{
  chunk, packet_of, last_of, packet_of-IsFile, read_file_into_buffer-Buffered,
}
use c_computer_networking.GoBackN.System.{System, Reach}
use c_computer_networking.GoBackN.System.Invariant.{IsInitial, InvariantAt, Reach-Invariant}

take-nil : (n : ℕ) → take {A = ℕ} n [] ≡ []
take-nil zero = refl
take-nil (suc n) = refl

take-append_take : (a b : ℕ) (xs : List ℕ) → take a xs ++ take b (drop a xs) ≡ take (a + b) xs
take-append_take zero b xs = let e : b ≡ 0 + b = omega arith in ap (λ n. take n xs) e
take-append_take (suc a) b [] = take-nil b ∙ sym (take-nil (suc a + b))
take-append_take (suc a) b (x ∷ xs) =
    let e : suc (a + b) ≡ suc a + b = omega arith in
    ap (λ r. x ∷ r) (take-append_take a b xs) ∙ ap (λ n. take n (x ∷ xs)) e

take-all : (n : ℕ) (xs : List ℕ) → length xs ≤ n → take n xs ≡ xs
take-all zero [] h = refl
take-all zero (x ∷ xs) h = absurd (omega arith)
take-all (suc n) [] h = refl
take-all (suc n) (x ∷ xs) h = ap (λ r. x ∷ r) (take-all n xs (omega arith))

-- both programs have started, and nothing has been sent
abbrev pub initial : DataBuffer → System
initial b = record { sender = start b; receiver = initialize; data_net = []; ack_net = [] }

module _ (o : Options) (file : List ℕ) where
  -- The data of the first `n` packets are the first `n * 1024` bytes.
  first_bytes-take : (n : ℕ) → first_bytes (packet_of o file) n ≡ take (n * 1024) file
  unfolding first_bytes packet_of data_message chunk
  first_bytes-take zero = refl
  first_bytes-take (suc n) =
      let e : n * 1024 + 1024 ≡ suc n * 1024 = omega arith in
      ap (λ r. r ++ take 1024 (drop (n * 1024) file)) (first_bytes-take n)
      ∙ take-append_take (n * 1024) 1024 file
      ∙ ap (λ k. take k file) e

  module _ (b : DataBuffer) (read : read_file_into_buffer o file ≡ ok (b, last_of file)) where
    module _ (fits : length file ≤ 1023 * 1024) (t : System)
        (reach : Reach o (last_of file) (initial b) t) where
      initial-IsInitial : IsInitial (packet_of o file) (last_of file) (initial b)
      unfolding start
      initial-IsInitial =
          let (b', run, held) = read_file_into_buffer-Buffered o file fits in
          let same : b ≡ b' = cc in
          record { buffer = rw same held; receiver = refl; no_data = refl; no_acks = refl }

      invariant : (n : ℕ) × InvariantAt (packet_of o file) (last_of file) n t
      invariant =
          Reach-Invariant (packet_of o file) (last_of file) (packet_of-IsFile o file) o reach
            initial-IsInitial

      -- For a file of at most 1023 * 1024 bytes that the sender has read into its buffer: in every
      -- state that sender and receiver reach over a network that may lose, repeat, reorder and
      -- damage packets, the receiver's output is the first `n * 1024` bytes of the file for some
      -- `n`, and `good_bytes` is its length modulo 2 ^ 64.
      pub output-IsPrefix :
          (n : ℕ) × (t.receiver.output ≡ take (n * 1024) file)
          × (t.receiver.good_bytes ≡ length t.receiver.output % 2 ^ 64)
      output-IsPrefix =
          let (n, inv) = invariant in
          (n, inv.receiver.output ∙ first_bytes-take n, inv.receiver.good)

      -- For a file of at most 1023 * 1024 bytes that the sender has read into its buffer: in every
      -- state that sender and receiver reach over a network that may lose, repeat, reorder and
      -- damage packets, if the sender's buffer is empty, which is when its loop ends, then the
      -- receiver's output is the whole file and it has closed it.
      pub output_complete :
          get_buffer_size t.sender.data_buffer ≡ 0
          → (t.receiver.output ≡ file) × (t.receiver.is_open ≡ false)
      unfolding get_buffer_size
      output_complete done =
          let (n, inv) = invariant in
          let all : n ≡ last_of file + 1 =
            omega (arith, inv.sender.to_end, inv.sender.received, inv.receiver.within) in
          (
            inv.receiver.output ∙ first_bytes-take n ∙ take-all (n * 1024) file (omega arith),
            ground (arith, inv.receiver.is_open),
          )
