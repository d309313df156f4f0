-- ===== src/Rpc/Serve/Answer.antt =====
-- What `serve` answers, and what it does with a request that is not
-- all there.
use c_computer_networking.Prelude.{
  ℕ, suc, ◌^◌, ◌<◌, ◌≡◌, ◌≢◌, refl, ap, ◌∙◌, none, some, [], ◌∷◌, ◌++◌, arith, length, take-append,
  drop-append, append_assoc,
}
use c_computer_networking.Prelude.Outcome.{ok}
use c_computer_networking.HashTable.Hash.{Bytes}
use c_computer_networking.HashTable.Table.{HashTable}
use c_computer_networking.Dht.Request.{Request, receive_over, process_request, build_response}
use c_computer_networking.Dht.Request.Codec.{IsRequest, word_bytes}
use c_computer_networking.Dht.Request.Served.{
  after_delete, after_set, reply_of, process_request-reply,
}
use c_computer_networking.HashTable.Methods.{Fits, Models}
use c_computer_networking.HashTable.Refine.{Dictionary}
use c_computer_networking.Rpc.Stream.{Connection, recv, terminated}
use c_computer_networking.Rpc.Serve.{serve_value, serve_body, serve_request, serve}

-- a peer that sends these bytes and closes
abbrev pub whole : Bytes → Connection
whole bytes = record { input = bytes; breaks = none }

terminated-all : (stale : ℕ → ℕ) (i : ℕ) (xs : Bytes) → terminated stale i (length xs) xs ≡ xs
terminated-all stale i [] = refl
terminated-all stale i (x ∷ xs) = ap (λ r. x ∷ r) (terminated-all stale (suc i) xs)

pub recv-whole : (xs ys : Bytes) → recv (length xs) (whole (xs ++ ys)) ≡ some (xs, whole ys)
unfolding recv
recv-whole xs ys = rw (take-append xs ys, drop-append xs ys) refl

module _ (stale_key stale_value : ℕ → ℕ) where
  serve_value-whole :
      (v rest : Bytes)
      → length v < 2 ^ 16
      → serve_value stale_key stale_value (length v) (whole (v ++ rest)) ≡ ok (some v)
  unfolding serve_value
  serve_value-whole [] rest fits = refl
  serve_value-whole (b ∷ v) rest fits =
      ground (arith, recv-whole (b ∷ v) rest, terminated-all stale_value 0 (b ∷ v))

  serve_body-whole :
      (k v rest : Bytes)
      → length k ≢ 0
      → length k < 2 ^ 16
      → length v < 2 ^ 16
      → serve_body stale_key stale_value (length k) (length v) (whole (k ++ (v ++ rest)))
        ≡ ok (some (k, v))
  unfolding serve_body
  serve_body-whole k v rest full few fits =
      ground (
        arith,
        recv-whole k (v ++ rest),
        serve_value-whole v rest fits,
        terminated-all stale_key 0 k,
      )

  serve_request-whole :
      (r : Request) (rest : Bytes)
      → IsRequest r
      → length r.key ≢ 0
      → serve_request stale_key stale_value (whole (build_response r ++ rest)) ≡ ok (some r)
  unfolding serve_request build_response recv
  serve_request-whole r rest h full = ground (
    arith,
    append_assoc r.key r.value rest,
    word_bytes (length r.key) h.key_fits,
    word_bytes (length r.value) h.value_fits,
    serve_body-whole r.key r.value rest full h.key_fits h.value_fits,
  )

  serve_request-empty_key :
      (r : Request) (rest : Bytes)
      → IsRequest r
      → r.key ≡ []
      → serve_request stale_key stale_value (whole (build_response r ++ rest))
        ≡ ok (some (record r { value = receive_over stale_value 0 (length r.value) [] }))
  unfolding serve_request build_response recv serve_body
  serve_request-empty_key r rest h empty =
      ground (arith, word_bytes (length r.value) h.value_fits, empty)

  module _ (hash : Bytes → ℕ) (tbl : HashTable) (r : Request) (rest : Bytes) (h : IsRequest r) where
    serve-request :
        (req : Request)
        → serve_request stale_key stale_value (whole (build_response r ++ rest)) ≡ ok (some req)
        → serve stale_key stale_value hash tbl (some (whole (build_response r ++ rest)))
          ≡ ok (
            (process_request hash tbl req).1,
            some (build_response (process_request hash tbl req).0),
          )
    unfolding serve
    serve-request req e = ground (arith, e)

    pub serve-whole :
        length r.key ≢ 0
        → serve stale_key stale_value hash tbl (some (whole (build_response r ++ rest)))
          ≡ ok
              ((process_request hash tbl r).1, some (build_response (process_request hash tbl r).0))
    serve-whole full = serve-request r (serve_request-whole r rest h full)

    -- A request with a key is answered from the dictionary that the table stands for.
    pub serve-Models :
        (f : Dictionary)
        → Models hash f tbl
        → Fits hash tbl
        → length r.key ≢ 0
        → (tbl' : HashTable) × (serve stale_key stale_value hash tbl
              (some (whole (build_response r ++ rest)))
            ≡ ok (tbl', some (build_response (reply_of r f))))
          × Models hash (after_set r (after_delete r f)) tbl'
    serve-Models f m fits full =
        let (models, reply) = process_request-reply hash tbl f r m fits in
        (_, serve-whole full ∙ rw reply refl, models)

    -- A request with an empty key and lengths below 2 ^ 16 is processed with a value that is not
    -- the one sent: as many bytes of the buffer for values as the value has, as they were before.
    pub serve-empty_key :
        r.key ≡ []
        → serve stale_key stale_value hash tbl (some (whole (build_response r ++ rest))) ≡ (
            let req = record r { value = receive_over stale_value 0 (length r.value) [] } in
            ok (
              (process_request hash tbl req).1,
              some (build_response (process_request hash tbl req).0),
            ))
    serve-empty_key empty = serve-request _ (serve_request-empty_key r rest h empty)
