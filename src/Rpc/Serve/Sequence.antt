-- ===== src/Rpc/Serve/Sequence.antt =====
-- The loop of `run_server` of `Distributed Hash Table/server.c`: one connection after the other, on
-- one table.
use c_computer_networking.Prelude.{
  ℕ, suc, ◌+◌, ◌^◌, ◌<◌, ◌≡◌, ◌≢◌, refl, ap, ◌∙◌, Option, none, some, List, [], ◌∷◌, arith, length,
  append-nil, ◌&&◌, if◌then◌else◌, sym,
}
use c_computer_networking.Prelude.Outcome.{Outcome, ok, ◌>>=◌}
use c_computer_networking.HashTable.Hash.{Bytes}
use c_computer_networking.HashTable.Table.{HashTable, ht_create}
use c_computer_networking.HashTable.Methods.{Fits, Models}
use c_computer_networking.HashTable.Refine.{Dictionary, Bounded, ht_create-Bounded}
use c_computer_networking.Dht.Request.{Request, process_request, build_response}
use c_computer_networking.Dht.Request.Codec.{IsRequest}
use c_computer_networking.Dht.Request.Bounded.{process_request-Bounded}
use c_computer_networking.Dht.Request.Served.{
  after_delete, after_set, reply_of, process_request-reply,
}
use c_computer_networking.Rpc.Stream.{Connection, Setup, set_up}
use c_computer_networking.Rpc.Serve.{serve}
use c_computer_networking.Rpc.Serve.Answer.{whole, serve-whole}

-- The connections of `while (1) serve(sock, tbl)`, with what each is sent.
unfoldable pub serve_all :
    (ℕ → ℕ)
    → (ℕ → ℕ)
    → (Bytes → ℕ)
    → HashTable
    → List (Option Connection)
    → Outcome (HashTable × List (Option Bytes))
serve_all stale_key stale_value hash tbl [] = ok (tbl, [])
serve_all stale_key stale_value hash tbl (conn ∷ conns) = do
  (tbl', sent_bytes) ← serve stale_key stale_value hash tbl conn
  (last, rest) ← serve_all stale_key stale_value hash tbl' conns
  ok (last, sent_bytes ∷ rest)

abbrev pub at_end :
    Outcome (HashTable × List (Option Bytes)) → Outcome (HashTable × List (Option Bytes) × Option ℕ)
at_end run = do (tbl, sent_bytes) ← run; ok (tbl, sent_bytes, none)

-- `run_server` from `ht_create` on: the table, what each connection is sent, and the status that is
-- returned if there is no socket. The loop does not end.
unfoldable pub run_server :
    (ℕ → ℕ)
    → (ℕ → ℕ)
    → (Bytes → ℕ)
    → Setup
    → List (Option Connection)
    → Outcome (HashTable × List (Option Bytes) × Option ℕ)
run_server stale_key stale_value hash s conns =
    if s.resolved && (s.opened && (s.bound && s.listens))
    then at_end (serve_all stale_key stale_value hash ht_create conns)
    else ok (ht_create, [], some 1)

-- the connections of clients that each send one request
abbrev pub clients : List Request → List (Option Connection)
clients [] = []
clients (r ∷ reqs) = some (whole (build_response r)) ∷ clients reqs

-- The answers of a dictionary to the same requests, and the dictionary after them.
unfoldable pub replies : Dictionary → List Request → List (Option Bytes)
replies f [] = []
replies f (r ∷ reqs) =
    some (build_response (reply_of r f)) ∷ replies (after_set r (after_delete r f)) reqs

unfoldable pub after_all : Dictionary → List Request → Dictionary
after_all f [] = f
after_all f (r ∷ reqs) = after_all (after_set r (after_delete r f)) reqs

-- the requests have lengths of 16 bits and keys
abbrev pub AreRequests : List Request → Type 0
AreRequests [] = Unit
AreRequests (r ∷ reqs) = IsRequest r × (length r.key ≢ 0) × AreRequests reqs

module _ (hash : Bytes → ℕ) where
  module _ (stale_key stale_value : ℕ → ℕ) where
    serve_all-from :
        (reqs : List Request) (m : ℕ) (f : Dictionary) (tbl : HashTable)
        → m + length reqs < 2 ^ 60
        → AreRequests reqs
        → Bounded hash m f tbl
        → (tbl' : HashTable) × (serve_all stale_key stale_value hash tbl (clients reqs)
            ≡ ok (tbl', replies f reqs))
          × Models hash (after_all f reqs) tbl'
    unfolding serve_all replies after_all
    serve_all-from [] m f tbl fits h b = (tbl, refl, b.models)
    serve_all-from (r ∷ reqs) m f tbl fits (hr, full, h) b =
        let ranges : Fits hash tbl = omega (arith, b.few, b.small) in
        let served = serve-whole stale_key stale_value hash tbl r [] hr full in
        let no_more =
          ap (λ bytes. serve stale_key stale_value hash tbl (some (whole bytes)))
            (sym (append-nil (build_response r))) in
        let reply = (process_request-reply hash tbl f r b.models ranges).1 in
        let tbl1 = (process_request hash tbl r).1 in
        let (tbl', rest, models) =
          serve_all-from reqs (suc m) (after_set r (after_delete r f)) tbl1 (omega arith) h
            (process_request-Bounded hash m f tbl r (omega arith) b) in
        (tbl', rw (no_more ∙ served, reply, rest) refl, models)

    -- A server over TCP whose socket can be put up, and to which fewer than 2 ^ 60 clients
    -- connect, one after the other, each with a whole request that has lengths below 2 ^ 16 and a
    -- key, sends each the reply that a dictionary gives, empty at first, and its table stands for
    -- the dictionary after the requests.
    pub run_server_refines :
        (reqs : List Request)
        → length reqs < 2 ^ 60
        → AreRequests reqs
        → (tbl : HashTable) × (run_server stale_key stale_value hash set_up (clients reqs)
            ≡ ok (tbl, replies (λ q. none) reqs, none))
          × Models hash (after_all (λ q. none) reqs) tbl
    unfolding run_server
    run_server_refines reqs fits h =
        let (tbl, run, b) =
          serve_all-from reqs 0 (λ q. none) ht_create (omega arith) h (ht_create-Bounded hash) in
        (tbl, rw run refl, b)
