-- ===== src/GoBackN/Message.antt =====
-- GoBackNMessageStruct.h and GoBackNMessageStruct.c: the packet that both programs exchange.
use c_computer_networking.Prelude.{ℕ, ◌+◌, ◌*◌, ◌/◌, ◌≤◌, ◌<◌, Bool, false, List, [], ◌≡◌, arith}
use c_computer_networking.Prelude.Int.{ℤ, pos}

-- `GoBackNMessageStruct`. `payload` is the flexible array `data`, with its length.
pub record Message : Type 0 where
  pub size : ℕ
  pub src_node : ℤ
  pub src_appl : ℤ
  pub dest_node : ℤ
  pub dest_appl : ℤ
  pub seq_no : ℤ
  pub seq_no_expected : ℤ
  pub has_errors : Bool
  pub payload : List ℕ

-- `sizeof(GoBackNMessageStruct)`: seven words and the aligned flag
abbrev pub header_size : ℕ
header_size = 32

-- the bytes that `allocateGoBackNMessageStruct` asks of `malloc`: `(dataSize + 3) & ~0x3` rounds up
-- to a multiple of four
pub allocated_size : ℕ → ℕ
allocated_size data_size = header_size + (data_size + 3) / 4 * 4

-- The allocation holds the header and the data, wastes at most three bytes, and is aligned.
pub allocated_size_lem :
    (n : ℕ)
    → (header_size + n ≤ allocated_size n)
      × (allocated_size n < header_size + n + 4)
      × (allocated_size n / 4 * 4 ≡ allocated_size n)
unfolding allocated_size
allocated_size_lem n = omega arith

-- `memset(msg, 0, size)` with no data
abbrev pub zeroed : Message
zeroed = record {
  size = 0;
  src_node = pos 0;
  src_appl = pos 0;
  dest_node = pos 0;
  dest_appl = pos 0;
  seq_no = pos 0;
  seq_no_expected = pos 0;
  has_errors = false;
  payload = [];
}
