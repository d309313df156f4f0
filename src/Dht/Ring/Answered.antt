-- ===== src/Dht/Ring/Answered.antt =====
-- A request to any node of a ring reaches the node that is responsible.
use c_computer_networking.Prelude.{
  ℕ, zero, suc, ◌<◌, ◌≤◌, ◌^◌, ◌≡◌, refl, sym, ◌⊎◌, ap, ◌∙◌, true, false, Option, some, List, [],
  ◌∷◌, arith, length, get_or, ltb, Bool-cases, inl, inr, if◌then◌else◌,
}
use c_computer_networking.Prelude.Outcome.{ok}
use c_computer_networking.HashTable.Hash.{Bytes, string_hash16, string_hash16-lt}
use c_computer_networking.HashTable.Table.{HashTable}
use c_computer_networking.HashTable.Methods.{Fits, Models}
use c_computer_networking.HashTable.Refine.{Dictionary}
use c_computer_networking.Dht.Wire.{ServerInfo, has_bit, internal_bit}
use c_computer_networking.Dht.Range.{sub16, in_arc}
use c_computer_networking.Dht.Node.{is_key_in_range}
use c_computer_networking.Dht.Node.Splice.{node_of}
use c_computer_networking.Dht.Request.{
  Request, relay, receive_over, claimed_len, build_response, process_request,
}
use c_computer_networking.Dht.Request.Served.{
  after_delete, after_set, reply_of, process_request-reply,
}
use c_computer_networking.Dht.Request.Codec.{
  IsRequest, read_request-build_response, relay-returns, receive_over-all, length-receive_over,
}
use c_computer_networking.Dht.Request.Handler.{handle_ext_msg-read, handle_ext_msg-forwards}
use c_computer_networking.Dht.Ring.Nearest.{responsible-IsFound}
use c_computer_networking.Dht.Ring.{
  Peers, Answer, relayed, ask, position, Links, Follows, responsible, Nearest,
}

-- The response to an external message is external.
reply_of-external :
    (req : Request) (f : Dictionary)
    → req.action < 128
    → has_bit (reply_of req f).action internal_bit ≡ false
reply_of-external req f h = ground arith

-- The first two bytes are received in any buffer of at least two.
receive_over-head :
    (stale : ℕ → ℕ) (n a b : ℕ) (xs : Bytes)
    → 2 ≤ n
    → (get_or (receive_over stale 0 n (a ∷ b ∷ xs)) 0 0 ≡ a)
      × (get_or (receive_over stale 0 n (a ∷ b ∷ xs)) 1 0 ≡ b)
receive_over-head stale zero a b xs h = omega arith
receive_over-head stale (suc zero) a b xs h = omega arith
receive_over-head stale (suc (suc n)) a b xs h = (refl, refl)

-- Of an arc of the ring, whether it holds an identifier beyond its start depends on its end only.
pub in_arc-position :
    (f a b v : ℕ)
    → f < 65536
    → a < 65536
    → b < 65536
    → v < 65536
    → sub16 a f < sub16 b f
    → sub16 a f ≤ sub16 v f
    → in_arc a b v ≡ ltb (sub16 v f) (sub16 b f)
unfolding in_arc
in_arc-position f a b v hf ha hb hv h1 h2 = ground arith

-- The arc from the last node to the first holds everything behind the last node.
pub in_arc-last :
    (f a v : ℕ)
    → f < 65536
    → a < 65536
    → v < 65536
    → 0 < sub16 a f
    → sub16 a f ≤ sub16 v f
    → in_arc a f v ≡ true
unfolding in_arc
in_arc-last f a v hf ha hv h1 h2 = ground arith

-- A relay of a response to the bytes of a request cuts it to the length of the request.
relay-cut :
    (stale : ℕ → ℕ) (req response : Request)
    → IsRequest req
    → has_bit response.action internal_bit ≡ false
    → response.transaction_id ≡ req.transaction_id
    → (let msg = build_response req in
        let cut = receive_over stale 0 (claimed_len msg) in
        (relay stale msg (build_response response) ≡ ok (cut (build_response response)))
        × (relay stale msg (cut (build_response response)) ≡ ok (cut (build_response response))))
unfolding build_response
relay-cut stale req response h external same =
    let msg = build_response req in
    let n = claimed_len msg in
    let bytes = build_response response in
    let (action, tid) =
      receive_over-head stale n response.action response.transaction_id _ (omega arith) in
    let long = length-receive_over stale 0 n bytes in
    (
      relay-returns stale msg bytes external same,
      relay-returns stale msg (receive_over stale 0 n bytes) (rw action external) (tid ∙ same)
          ∙ ap ok (
              ap (λ m. receive_over stale 0 m (receive_over stale 0 n bytes)) (sym long)
              ∙ receive_over-all stale 0 (receive_over stale 0 n bytes)),
    )

module _ (hash : Bytes → ℕ) (stale : ℕ → ℕ) (peers : Peers) (prev : ServerInfo → Option ServerInfo)
    (tables : ServerInfo → HashTable) (dicts : ServerInfo → Dictionary) (req : Request)
    (h : IsRequest req) (external : req.action < 128)
    (models : (s : ServerInfo) → Models hash (dicts s) (tables s))
    (fits : (s : ServerInfo) → Fits hash (tables s)) where
  abbrev key_id : ℕ
  key_id = string_hash16 req.key

  abbrev msg : Bytes
  msg = build_response req

  abbrev cut : Bytes → Bytes
  cut = receive_over stale 0 (claimed_len msg)

  abbrev reply : ServerInfo → Bytes
  reply s = build_response (reply_of req (dicts s))

  abbrev served : ServerInfo → Bytes → Answer
  served s bytes = record {
    response = ok bytes;
    served_by = s;
    table = (process_request hash (tables s) req).1;
  }

  ask-here :
      (hops : ℕ) (a b : ServerInfo)
      → Links peers prev tables a b
      → in_arc a.id b.id key_id ≡ true
      → ask hash stale peers (suc hops) a msg ≡ some (served a (reply a))
  unfolding ask is_key_in_range
  ask-here hops a b link mine =
      let node = node_of a (prev a) (some b) in
      let read =
        handle_ext_msg-read hash stale node (tables a) msg req
          (read_request-build_response stale req h) in
      let (m, same) = process_request-reply hash (tables a) (dicts a) req (models a) (fits a) in
      rw (link, ask, read, mine, same) refl

  ask-next :
      (hops : ℕ) (a b : ServerInfo)
      → Links peers prev tables a b
      → in_arc a.id b.id key_id ≡ false
      → ask hash stale peers (suc hops) a msg ≡ relayed stale msg (ask hash stale peers hops b msg)
  unfolding ask is_key_in_range
  ask-next hops a b link other =
      rw (link, ask, handle_ext_msg-forwards hash stale (tables a) req a b (prev a) h other) refl

  -- relayed once or more often
  relayed-served :
      (bytes : Bytes) (s : ServerInfo)
      → (bytes ≡ reply s) ⊎ (bytes ≡ cut (reply s))
      → relayed stale msg (some (served s bytes)) ≡ some (served s (cut (reply s)))
  relayed-served bytes s (inl e) =
      let (once, twice) =
        relay-cut stale req (reply_of req (dicts s)) h (reply_of-external req (dicts s) external)
          refl in
      rw (e, once) refl
  relayed-served bytes s (inr e) =
      let (once, twice) =
        relay-cut stale req (reply_of req (dicts s)) h (reply_of-external req (dicts s) external)
          refl in
      rw (e, twice) refl

  -- The response at `node`: the reply itself, or what a relay leaves of it.
  abbrev response_at : ServerInfo → ServerInfo → List ServerInfo → Bytes
  response_at first node [] = reply node
  response_at first node (next ∷ rest) =
      if ltb (position first key_id) (position first next.id)
      then reply node
      else cut (reply (responsible first key_id next rest))

  response_at-cases :
      (first node : ServerInfo) (rest : List ServerInfo)
      → (response_at first node rest ≡ reply (responsible first key_id node rest))
        ⊎ (response_at first node rest ≡ cut (reply (responsible first key_id node rest)))
  response_at-cases first node [] = inl refl
  response_at-cases first node (next ∷ rest) =
      elim (Bool-cases (ltb (position first key_id) (position first next.id))) [
        | inl e ↦ inl (rw e refl)
        | inr e ↦ inr (rw e refl)
      ]

  response_at-first :
      (first second : ServerInfo) (rest : List ServerInfo)
      → (let s = responsible first key_id first (second ∷ rest) in
          some (served s (response_at first first (second ∷ rest)))
          ≡ some (
              served s (
                if ltb (position first key_id) (position first second.id)
                then reply s
                else cut (reply s))))
  response_at-first first second rest =
      elim (Bool-cases (ltb (position first key_id) (position first second.id))) [
        | inl e ↦ rw e refl
        | inr e ↦ rw e refl
      ]

  -- A request at `node` that is not yet past the responsible one.
  asked :
      (first node : ServerInfo) (rest : List ServerInfo) (hops : ℕ)
      → first.id < 2 ^ 16
      → node.id < 2 ^ 16
      → Follows peers prev tables first node rest
      → (0 < position first node.id) ⊎ (0 < length rest)
      → position first node.id ≤ position first key_id
      → length rest ≤ hops
      → ask hash stale peers (suc hops) node msg
        ≡ some (served (responsible first key_id node rest) (response_at first node rest))
  asked first node [] hops hf hn link (inl behind) reached enough =
      ask-here hops node first link
        (in_arc-last first.id node.id key_id hf hn (string_hash16-lt req.key) behind reached)
  asked first node [] hops hf hn link (inr nobody) reached enough = elim nobody [ ]
  asked first node (next ∷ rest) zero hf hn follows some_behind reached enough = elim enough [ ]
  asked first node (next ∷ rest) (suc hops) hf hn (link, rises, hx, follows) some_behind reached
        enough =
      let arc =
        in_arc-position first.id node.id next.id key_id hf hn hx (string_hash16-lt req.key) rises
          reached in
      elim (Bool-cases (ltb (position first key_id) (position first next.id))) [
        | inl e ↦ rw e (ask-here (suc hops) node next link (arc ∙ e))
        | inr e ↦
            let rest_asked =
              asked first next rest hops hf hx follows (inl (omega arith)) (ground arith)
                (omega arith) in
            rw (ask-next (suc hops) node next link (arc ∙ e), rest_asked, e)
              (relayed-served (response_at first next rest) (responsible first key_id next rest)
                (response_at-cases first next rest))
      ]

  -- In a ring of at least two nodes, with identifiers of 16 bits, given in their order from the
  -- node `first` on, each of whose tables is valid, stands for its dictionary and is below 2 ^ 62
  -- in size and count: an external request with a key and a value of less than 2 ^ 16 bytes each,
  -- sent to `first`, is passed on over no more hops than there are nodes to the node `s` from
  -- which the way around the ring to the key is shortest; `s` works on it as its dictionary says,
  -- and the client gets the reply of `s`, whole if `s` is `first`, else cut to the length of the
  -- request.
  pub ask-answered :
      (first second : ServerInfo) (rest : List ServerInfo) (hops : ℕ)
      → first.id < 2 ^ 16
      → Follows peers prev tables first first (second ∷ rest)
      → length (second ∷ rest) ≤ hops
      → (let s = responsible first key_id first (second ∷ rest) in
          let bytes = if in_arc first.id second.id key_id then reply s else cut (reply s) in
          (ask hash stale peers (suc hops) first msg ≡ some (served s bytes))
          × Models hash (after_set req (after_delete req (dicts s))) (served s bytes).table
          × Nearest key_id s (first ∷ second ∷ rest))
  ask-answered first second rest hops hf (link, rises, hx, follows) enough =
      let s = responsible first key_id first (second ∷ rest) in
      let h_id = string_hash16-lt req.key in
      let reached : position first first.id ≤ position first key_id = omega arith in
      let arc = in_arc-position first.id first.id second.id key_id hf hf hx h_id rises reached in
      let (before, after, hs, nearest) =
        responsible-IsFound peers prev tables first key_id hf h_id first (second ∷ rest) hf reached
          (link, rises, hx, follows) in
      (
        asked first first (second ∷ rest) hops hf hf (link, rises, hx, follows) (inr (omega arith))
              reached enough
            ∙ rw arc (response_at-first first second rest),
        (process_request-reply hash (tables s) (dicts s) req (models s) (fits s)).0,
        nearest,
      )
