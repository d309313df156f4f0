-- ===== src/Rpc/Datagram/Answered.antt =====
-- The client over UDP against the server over UDP, and what its clock shows.
use c_computer_networking.Prelude.{
  ℕ, ◌+◌, ◌≤◌, ◌<◌, ◌≡◌, refl, ap, ◌∙◌, Option, none, some, [], arith, length, take, take-all,
  take-append, drop, drop-append, get_or,
}
use c_computer_networking.Prelude.Int.{pos, ◌+ℤ◌, ◌-ℤ◌}
use c_computer_networking.HashTable.Hash.{Bytes}
use c_computer_networking.HashTable.Table.{HashTable}
use c_computer_networking.Dht.Wire.{read16}
use c_computer_networking.Dht.Node.{received}
use c_computer_networking.Dht.Request.{
  Request, Reaction, respond, forward, ext_header_len, claimed_len, build_response,
}
use c_computer_networking.Dht.Request.Codec.{
  IsRequest, word_bytes, claimed_len-build_response, receive_over-all,
}
use c_computer_networking.Rpc.Datagram.{Timespec, timediff, recv_msg, printed}

-- the message taken apart, once it stands in the buffer as it was sent
taken_apart : Bytes → Request
taken_apart msg =
    let header = received ext_header_len msg in
    let rest = drop ext_header_len msg in
    record {
      action = get_or msg 0 0;
      transaction_id = get_or msg 1 0;
      key = take (read16 header 2) rest;
      value = take (read16 header 4) (drop (read16 header 2) rest);
    }

taken_apart-build_response : (r : Request) → IsRequest r → taken_apart (build_response r) ≡ r
unfolding taken_apart build_response
taken_apart-build_response r h =
    rw
      (
        word_bytes (length r.key) h.key_fits,
        word_bytes (length r.value) h.value_fits,
        take-append r.key r.value,
        drop-append r.key r.value,
        take-all r.value,
      )
      refl

recv_msg_lem :
    (stale : ℕ → ℕ) (msg : Bytes)
    → claimed_len (received ext_header_len msg) ≡ length msg
    → recv_msg stale msg ≡ printed (taken_apart msg)
unfolding recv_msg taken_apart
recv_msg_lem stale msg e =
    rw (e, receive_over-all (λ i. get_or (received ext_header_len msg) i (stale i)) 0 msg) refl

claimed_len-received :
    (r : Request)
    → claimed_len (received ext_header_len (build_response r)) ≡ claimed_len (build_response r)
unfolding build_response
claimed_len-received r = refl

-- The client prints a message with lengths below 2 ^ 16 as it was sent, its key and value up to a
-- NUL byte.
pub recv_msg-build_response :
    (stale : ℕ → ℕ) (r : Request) → IsRequest r → recv_msg stale (build_response r) ≡ printed r
recv_msg-build_response stale r h =
    recv_msg_lem stale (build_response r) (claimed_len-received r ∙ claimed_len-build_response r h)
    ∙ ap printed (taken_apart-build_response r h)

-- the answer of a node, where it answers
abbrev pub answer_bytes : HashTable × Option Reaction → Bytes
answer_bytes (tbl, some (respond bytes)) = bytes
answer_bytes (tbl, some (forward p)) = []
answer_bytes (tbl, none) = []

-- The whole seconds between the two times are lost.
pub timediff-loses_seconds :
    (start : Timespec) (s s' nsec : ℕ)
    → start.tv_sec ≡ pos s
    → s ≤ s'
    → s' < s + 1000000000
    → timediff start (record { tv_sec = pos s'; tv_nsec = start.tv_nsec +ℤ pos nsec }) ≡ pos nsec
unfolding timediff ◌+ℤ◌ ◌-ℤ◌
timediff-loses_seconds start s s' nsec e le near = ground arith
