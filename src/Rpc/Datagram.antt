-- ===== src/Rpc/Datagram.antt =====
-- The client over UDP, `Simple Hash Table Client Server/client.c` (`Hash Table/client.c` is the same
-- without the clock). `long` is taken to be unbounded.
pub mod Answered
use c_computer_networking.Prelude.{
  ℕ, zero, suc, ◌+◌, ◌*◌, ◌/◌, ◌%◌, ◌^◌, Bool, Option, none, some, List, [], ◌∷◌, length, take,
  drop, get_or, if◌then◌else◌,
}
use c_computer_networking.Prelude.Int.{ℤ, pos, negsuc, ◌+ℤ◌, ◌-ℤ◌}
use c_computer_networking.HashTable.Hash.{Bytes}
use c_computer_networking.HashTable.Chain.{same_key}
use c_computer_networking.Dht.Wire.{read16}
use c_computer_networking.Dht.Node.{received}
use c_computer_networking.Dht.Request.{
  Request, delete_bit, set_bit, get_bit, ext_header_len, receive_over,
}
use c_computer_networking.Movies.Text.{codes}
use c_computer_networking.Quotes.{text}
use c_computer_networking.Rpc.Film.{packet}

-- `struct timespec`
pub record Timespec : Type 0 where
  pub tv_sec : ℤ
  pub tv_nsec : ℤ

-- division in C, which cuts towards 0
abbrev pub quotient : ℤ → ℕ → ℤ
quotient (pos n) k = pos (n / k)
quotient (negsuc n) k = pos 0 -ℤ pos ((n + 1) / k)

unfoldable pub timediff : Timespec → Timespec → ℤ
timediff start end =
    let sec_diff = end.tv_sec -ℤ start.tv_sec in
    let nsec_diff = end.tv_nsec -ℤ start.tv_nsec in quotient sec_diff 1000000000 +ℤ nsec_diff

-- The bytes that are sent, and `transaction_id` afterwards; the lengths have 16 bits.
unfoldable pub send_msg : ℕ → ℕ → Bytes → Bytes → Bytes × ℕ
send_msg transaction_id action key val =
    let key_len = length key % 2 ^ 16 in
    let val_len = length val % 2 ^ 16 in
    (
      packet action transaction_id key_len val_len (take key_len key) (take val_len val),
      (transaction_id + 1) % 2 ^ 8,
    )

-- what `%s` prints of a message's key and value, which end before the first NUL byte
abbrev pub printed : Request → Request
printed r = record r { key = text r.key; value = text r.value }

-- The message that is printed. The first call of `recvfrom` leaves the datagram in the socket; the
-- second writes it over the buffer, whose end holds `stale` after `realloc`.
unfoldable pub recv_msg : (ℕ → ℕ) → Bytes → Request
recv_msg stale datagram =
    let header = received ext_header_len datagram in
    let key_len = read16 header 2 in
    let val_len = read16 header 4 in
    let msg_len = ext_header_len + key_len + val_len in
    let msg = receive_over (λ i. get_or header i (stale i)) 0 msg_len datagram in
    let rest = drop ext_header_len msg in
    printed (record {
      action = get_or msg 0 0;
      transaction_id = get_or msg 1 0;
      key = take key_len rest;
      value = take val_len (drop key_len rest);
    })

-- the action that `main` chooses by its third argument
unfoldable pub request_action : Bytes → ℕ
request_action action =
    if same_key action (codes "del")
    then 2 ^ delete_bit
    else if same_key action (codes "get")
    then 2 ^ get_bit
    else 2 ^ set_bit

-- `main` up to the answer, with `transaction_id` 0 as the program starts with it
unfoldable pub run : (ℕ → ℕ) → (Bytes → Bytes) → Bytes → Bytes → Bytes → Request
run stale network action key value =
    recv_msg stale (network (send_msg 0 (request_action action) key value).0)
