-- ===== src/GoBackN/DataBuffer.antt =====
-- DataBuffer.c: the sender's packets in a circular array, by sequence number. A slot that is NULL
-- or whose packet has been freed is `none`. Sequence numbers that index the buffer are never
-- negative: they count up from 0.
pub mod Window
pub mod Free
pub mod Timers
use c_computer_networking.Prelude.{
  ℕ, zero, suc, ◌+◌, ◌-◌, ◌*◌, ◌%◌, ◌^◌, Bool, true, false, ◌&&◌, ◌||◌, Option, none, some, List,
  [], ◌∷◌, get_or, set, replicate, ltb, leb, ◌==◌, if◌then◌else◌,
}
use c_computer_networking.Prelude.Int.{ℤ, pos, pos_part, sub_ℕ, ltb_ℤ}
use c_computer_networking.Prelude.Outcome.{Outcome, ok, ◌>>=◌, ◌>>◌, assert}
use c_computer_networking.GoBackN.Message.{Message}
use c_computer_networking.GoBackN.Timeval.{Timeval, never}

pub record DataPacket : Type 0 where
  pub timeout : Timeval
  pub packet : Message

-- `DataBufferHead`
pub record DataBuffer : Type 0 where
  pub min_seq_no : ℕ
  pub max_count : ℕ
  pub first_index : ℕ
  pub free_index : ℕ
  pub count : ℕ
  pub slots : List (Option DataPacket)

unfoldable pub allocate_data_buffer : ℕ → DataBuffer
allocate_data_buffer max_packet_count = record {
  min_seq_no = 0;
  max_count = max_packet_count;
  first_index = 0;
  free_index = 0;
  count = 0;
  slots = replicate max_packet_count none;
}

unfoldable pub get_first_seq_no_of_buffer : DataBuffer → ℕ
get_first_seq_no_of_buffer b = b.min_seq_no

-- `minSeqNo + count - 1`, which is -1 for the new buffer
unfoldable pub get_last_seq_no_of_buffer : DataBuffer → ℤ
get_last_seq_no_of_buffer b = sub_ℕ (b.min_seq_no + b.count) 1

unfoldable pub get_buffer_size : DataBuffer → ℕ
get_buffer_size b = b.count

unfoldable pub buffer_contains_packet : DataBuffer → ℕ → Bool
buffer_contains_packet b seq_no = leb b.min_seq_no seq_no && ltb (seq_no - b.min_seq_no) b.count

-- the index of a sequence number: `(seqNo - minSeqNo + firstIndex) % maxCount`
unfoldable pub slot_of : DataBuffer → ℕ → ℕ
slot_of b seq_no = (seq_no - b.min_seq_no + b.first_index) % b.max_count

unfoldable pub get_data_packet_from_buffer : DataBuffer → ℕ → Option DataPacket
unfolding slot_of
get_data_packet_from_buffer b seq_no =
    if ltb seq_no b.min_seq_no || leb (b.min_seq_no + b.count) seq_no
    then none
    else get_or b.slots (slot_of b seq_no) none

unfoldable pub put_data_packet_into_buffer : DataBuffer → DataPacket → Outcome DataBuffer
unfolding slot_of
put_data_packet_into_buffer b p = do
  assert (ltb b.count b.max_count)
  assert (not_negative && leb b.min_seq_no seq_no)
  assert (ltb seq_no (b.min_seq_no + b.max_count))
  assert (slot_of b seq_no == b.free_index)
  ok (record b {
    slots = set b.slots b.free_index (some p);
    free_index = (b.free_index + 1) % b.max_count;
    count = b.count + 1;
  })
  where
    seq_no : ℕ
    seq_no = pos_part p.packet.seq_no

    not_negative : Bool
    not_negative = if ltb_ℤ p.packet.seq_no (pos 0) then false else true

-- the body of the loop of `freeBuffer`, after its `assert`; `--count` wraps
unfoldable pub free_first : DataBuffer → DataBuffer
free_first b = record b {
  slots = set b.slots b.first_index none;
  first_index = (b.first_index + 1) % b.max_count;
  min_seq_no = b.min_seq_no + 1;
  count = (b.count + 2 ^ 64 - 1) % 2 ^ 64;
}

-- `for (long i = start; i <= end; ++i)`, with the rounds that are left
unfoldable pub free_loop : ℕ → ℕ → DataBuffer → Outcome DataBuffer
unfolding free_first
free_loop zero i b = ok b
free_loop (suc rounds) i b = do assert (i == b.min_seq_no); free_loop rounds (i + 1) (free_first b)

unfoldable pub free_buffer : DataBuffer → ℕ → ℕ → Outcome DataBuffer
unfolding free_loop
free_buffer b start end = do
  assert (leb start end)
  assert (start == b.min_seq_no)
  assert (leb (end - start) b.count)
  free_loop (end - start + 1) start b

-- `buffer->data[i]->timeout = t`. C follows the pointer of an empty slot; in a valid buffer each slot
-- from the first index to the free index has a packet, and these are the slots it is called on.
unfoldable pub set_timeout : DataBuffer → ℕ → Timeval → DataBuffer
set_timeout b i t = elim (get_or b.slots i none) [
  | none ↦ b
  | some p ↦ record b { slots = set b.slots i (some (record p { timeout = t })) }
]

-- `for (size_t i = firstIndex; i != freeIndex; i = (i+1) % maxCount)`, on fuel
unfoldable pub reset_loop : ℕ → ℕ → DataBuffer → DataBuffer
unfolding set_timeout
reset_loop zero i b = b
reset_loop (suc fuel) i b =
    let rest = reset_loop fuel ((i + 1) % b.max_count) (set_timeout b i never) in
    if i == b.free_index then b else rest

unfoldable pub reset_timers : DataBuffer → DataBuffer
unfolding reset_loop
reset_timers b = reset_loop b.max_count b.first_index b

-- `deallocateDataBuffer`, up to the calls of `free`
unfoldable pub deallocate_data_buffer : DataBuffer → Outcome DataBuffer
unfolding free_buffer
deallocate_data_buffer b =
    if ltb 0 b.count then free_buffer b b.min_seq_no (b.min_seq_no + b.count - 1) else ok b
