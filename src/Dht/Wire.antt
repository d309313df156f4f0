-- ===== src/Dht/Wire.antt =====
-- The bytes of the messages of `Hash Table/server.c`. A field that the program keeps in network
-- byte order is modelled by the number that `ntohs` or `ntohl` reads from it, so to copy the field
-- into a message is to write that number with the high byte first.
use c_computer_networking.Prelude.{
  ℕ, ◌+◌, ◌-◌, ◌*◌, ◌/◌, ◌%◌, ◌^◌, ◌<◌, ◌≡◌, refl, Bool, true, [], ◌∷◌, arith, length, get_or, ◌==◌,
  if◌then◌else◌,
}
use Prim.Native.Nat.{bit_or}
use c_computer_networking.Prelude.Outcome.{Outcome, ok, ◌>>◌, assert}
use c_computer_networking.HashTable.Hash.{Bytes}

-- `b & (1 << k)`, as a condition
abbrev pub has_bit : ℕ → ℕ → Bool
has_bit b k = b / 2 ^ k % 2 == 1

-- `b ^= 1 << k`
abbrev pub flip_bit : ℕ → ℕ → ℕ
flip_bit b k = if has_bit b k then b - 2 ^ k else b + 2 ^ k

-- the value of two and of four bytes in network order
abbrev pub read16 : Bytes → ℕ → ℕ
read16 msg i = get_or msg i 0 * 256 + get_or msg (i + 1) 0

abbrev pub read32 : Bytes → ℕ → ℕ
read32 msg i = read16 msg i * 65536 + read16 msg (i + 2)

-- `struct server_info`
pub record ServerInfo : Type 0 where
  pub ip : ℕ
  pub port : ℕ
  pub id : ℕ

-- the kinds of internal messages
pub data Action : Type 0 where
  join notify stabilize : Action

-- `join_mask`, `notify_mask`, `stabilize_mask` are `1 << bit_of a`
abbrev pub bit_of : Action → ℕ
bit_of join = 0
bit_of notify = 1
bit_of stabilize = 2

abbrev pub internal_bit : ℕ
internal_bit = 7

-- `INTL_MSG_LEN`
abbrev pub intl_msg_len : ℕ
intl_msg_len = 9

unfoldable pub fill_intl_msg : Action → ServerInfo → Bytes
fill_intl_msg a srv =
    bit_or (bit_or 0 (2 ^ internal_bit)) (2 ^ bit_of a)
    ∷ (srv.ip / 16777216 % 256)
    ∷ (srv.ip / 65536 % 256)
    ∷ (srv.ip / 256 % 256)
    ∷ (srv.ip % 256)
    ∷ (srv.port / 256 % 256)
    ∷ (srv.port % 256)
    ∷ (srv.id / 256 % 256)
    ∷ (srv.id % 256)
    ∷ []

unfoldable pub parse_msg : Bytes → Outcome ServerInfo
parse_msg msg = do
  assert (has_bit (get_or msg 0 0) internal_bit)
  assert (length msg == intl_msg_len)
  ok (record { ip = read32 msg 1; port = read16 msg 5; id = read16 msg 7 })

-- the fields fit their words
pub record IsServerInfo (srv : ServerInfo) : Type 0 where
  pub ip_fits : srv.ip < 2 ^ 32
  pub port_fits : srv.port < 2 ^ 16
  pub id_fits : srv.id < 2 ^ 16

-- For every kind of internal message, the message filled in with an address and an identifier that
-- fit their words is parsed to the same address and identifier.
pub parse_msg-fill_intl_msg :
    (a : Action) (srv : ServerInfo) → IsServerInfo srv → parse_msg (fill_intl_msg a srv) ≡ ok srv
unfolding parse_msg fill_intl_msg
parse_msg-fill_intl_msg join srv h = ground arith
parse_msg-fill_intl_msg notify srv h = ground arith
parse_msg-fill_intl_msg stabilize srv h = ground arith

abbrev pub eqb_Action : Action → Action → Bool
eqb_Action a b = bit_of a == bit_of b

-- A filled message carries the bit of its kind and of no other.
pub fill-bits :
    (a b : Action) (srv : ServerInfo)
    → (has_bit (get_or (fill_intl_msg a srv) 0 0) (bit_of b) ≡ eqb_Action a b)
      × (has_bit (get_or (fill_intl_msg a srv) 0 0) internal_bit ≡ true)
      × (length (fill_intl_msg a srv) ≡ intl_msg_len)
unfolding fill_intl_msg
fill-bits join join srv = (refl, refl, refl)
fill-bits join notify srv = (refl, refl, refl)
fill-bits join stabilize srv = (refl, refl, refl)
fill-bits notify join srv = (refl, refl, refl)
fill-bits notify notify srv = (refl, refl, refl)
fill-bits notify stabilize srv = (refl, refl, refl)
fill-bits stabilize join srv = (refl, refl, refl)
fill-bits stabilize notify srv = (refl, refl, refl)
fill-bits stabilize stabilize srv = (refl, refl, refl)
