-- ===== src/Dht/Request/Handler.antt =====
-- `handle_ext_msg` of `Hash Table/server.c` as a client sees it.
use c_computer_networking.Prelude.{ℕ, ◌≡◌, refl, true, false, Option, some}
use c_computer_networking.HashTable.Hash.{Bytes}
use c_computer_networking.HashTable.Table.{HashTable}
use c_computer_networking.HashTable.Methods.{Fits, Models}
use c_computer_networking.HashTable.Refine.{Dictionary}
use c_computer_networking.Dht.Wire.{ServerInfo, Action, fill_intl_msg, fill-bits}
use c_computer_networking.Dht.Node.{DhtNode, handle_intl_msg, is_key_in_range}
use c_computer_networking.Dht.Request.{
  Request, respond, forward, read_request, build_response, react, internal, handle_msg,
  handle_ext_msg,
}
use c_computer_networking.Dht.Request.Codec.{
  IsRequest, read_request-build_response, claimed_len-build_response, receive_over-all,
}
use c_computer_networking.Dht.Request.Served.{
  after_delete, after_set, reply_of, process_request-reply,
}

pub handle_ext_msg-read :
    (hash : Bytes → ℕ) (stale : ℕ → ℕ) (node : DhtNode) (tbl : HashTable) (packet : Bytes)
    (req : Request)
    → read_request stale packet ≡ some req
    → handle_ext_msg hash stale node tbl packet ≡ react hash stale node tbl packet req
unfolding handle_ext_msg
handle_ext_msg-read hash stale node tbl packet req e = rw (e, handle_ext_msg) refl

module _ (hash : Bytes → ℕ) (stale : ℕ → ℕ) (tbl : HashTable) (req : Request) where
  -- On a valid table that stands for the dictionary `f` and is below 2 ^ 62 in size and count, the
  -- bytes of a request with a key and a value of less than 2 ^ 16 bytes each, whose key is in the
  -- node's arc, are answered with the bytes of the reply computed from `f`, and the table then
  -- stands for `f` after the delete and then the set that the request asks for.
  pub handle_ext_msg-responds :
      (f : Dictionary) (node : DhtNode)
      → Models hash f tbl
      → Fits hash tbl
      → IsRequest req
      → is_key_in_range node req.key ≡ true
      → ((handle_ext_msg hash stale node tbl (build_response req)).1
          ≡ some (respond (build_response (reply_of req f))))
        × Models hash
            (after_set req (after_delete req f))
            (handle_ext_msg hash stale node tbl (build_response req)).0
  handle_ext_msg-responds f node m fits h mine =
      let (models, reply) = process_request-reply hash tbl f req m fits in
      let read =
        handle_ext_msg-read hash stale node tbl (build_response req) req
          (read_request-build_response stale req h) in
      rw (read, mine) (rw reply refl, models)

  -- The bytes of a request, with key and value of less than 2 ^ 16 bytes each, for a key that is
  -- not in the node's arc leave the table as it is and are sent on to the next node unchanged.
  pub handle_ext_msg-forwards :
      (self next : ServerInfo) (prev : Option ServerInfo)
      → IsRequest req
      → is_key_in_range (record { self = self; prev = prev; next = some next }) req.key ≡ false
      → handle_ext_msg hash stale
          (record { self = self; prev = prev; next = some next })
          tbl
          (build_response req)
        ≡ (tbl, some (forward (record { dest = next; payload = build_response req })))
  handle_ext_msg-forwards self next prev h other =
      let node : DhtNode = record { self = self; prev = prev; next = some next } in
      let read =
        handle_ext_msg-read hash stale node tbl (build_response req) req
          (read_request-build_response stale req h) in
      rw
        (
          read,
          other,
          claimed_len-build_response req h,
          receive_over-all stale 0 (build_response req),
        )
        refl

-- Every message that a node fills in is handled as an internal one.
pub handle_msg-dispatch :
    (hash : Bytes → ℕ) (stale : ℕ → ℕ) (node : DhtNode) (tbl : HashTable) (a : Action)
    (srv : ServerInfo)
    → handle_msg hash stale node tbl (fill_intl_msg a srv)
      ≡ internal (handle_intl_msg node (fill_intl_msg a srv))
unfolding handle_msg
handle_msg-dispatch hash stale node tbl a srv = rw (fill-bits a a srv).1 refl
