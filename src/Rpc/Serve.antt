-- ===== src/Rpc/Serve.antt =====
-- `serve` of `Distributed Hash Table/server.c`: one request of one connection. The buffers for the
-- key and the value hold `stale_key` and `stale_value` before anything is received.
pub mod Answer
pub mod Returns
pub mod Sequence
use c_computer_networking.Prelude.{
  ℕ, ◌^◌, Bool, true, false, Option, none, some, List, [], length, get_or, ltb, ◌==◌, if◌then◌else◌,
}
use c_computer_networking.Prelude.Outcome.{Outcome, ok, ◌>>=◌, ◌>>◌, assert}
use c_computer_networking.HashTable.Hash.{Bytes}
use c_computer_networking.HashTable.Table.{HashTable}
use c_computer_networking.Dht.Wire.{read16}
use c_computer_networking.Dht.Request.{
  Request, ext_header_len, receive_over, process_request, build_response,
}
use c_computer_networking.Rpc.Stream.{Connection, recv, terminated}

abbrev pub buf_len : ℕ
buf_len = 2 ^ 16

module _ (stale_key stale_value : ℕ → ℕ) where
  -- The value, which is only received behind a key that is not empty; `none` is a failed `recv`.
  unfoldable pub serve_value : ℕ → Connection → Outcome (Option Bytes)
  serve_value value_len conn = if value_len == 0 then ok (some []) else elim (recv value_len conn) [
    | none ↦ ok none
    | some (received, conn') ↦ do
      assert (ltb (length received) buf_len)
      ok (some (terminated stale_value 0 value_len received))
  ]

  -- the key and the value in the buffers, by the two lengths of the header
  unfoldable pub serve_body : ℕ → ℕ → Connection → Outcome (Option (Bytes × Bytes))
  serve_body key_len value_len conn =
      if key_len == 0
      then ok (some ([], receive_over stale_value 0 value_len []))
      else elim (recv key_len conn) [
        | none ↦ ok none
        | some (received, conn') ↦ do
          assert (ltb (length received) buf_len)
          value ← serve_value value_len conn'
          ok (elim value [
            | none ↦ none
            | some v ↦ some (terminated stale_key 0 key_len received, v)
          ])
      ]

  -- The request of a connection, or `none` where it is closed without one.
  unfoldable pub serve_request : Connection → Outcome (Option Request)
  serve_request conn = elim (recv ext_header_len conn) [
    | none ↦ ok none
    | some (header, conn') ↦
        if length header == ext_header_len
        then (do
          body ← serve_body (read16 header 2) (read16 header 4) conn'
          ok (elim body [
            | none ↦ none
            | some (key, value) ↦ some (record {
              action = get_or header 0 0;
              transaction_id = get_or header 1 0;
              key = key;
              value = value;
            })
          ]))
        else ok none
  ]

  -- The table after the request, and the bytes that are sent; a connection that `accept` refuses is
  -- `none`.
  unfoldable pub serve :
      (Bytes → ℕ) → HashTable → Option Connection → Outcome (HashTable × Option Bytes)
  serve hash tbl none = ok (tbl, none)
  serve hash tbl (some conn) = do
    req ← serve_request conn
    ok (elim req [
      | none ↦ (tbl, none)
      | some r ↦
          let (response, tbl') = process_request hash tbl r in
          (tbl', some (build_response response))
    ])
