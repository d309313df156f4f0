-- ===== src/Dht/Program/Safe.antt =====
-- What a node keeps, whatever arrives, and the datagram that stops it.
use c_computer_networking.Prelude.{
  ℕ, suc, ◌+◌, ◌^◌, ◌<◌, ◌≡◌, zero, false, Option, none, some, List, [], ◌∷◌, ◌++◌, arith, length,
  get_or, Bool-cases, Option-cases, inl, inr,
}
use c_computer_networking.Prelude.Outcome.{Outcome, ok, fault, ◌>>=◌}
use c_computer_networking.HashTable.Hash.{Bytes}
use c_computer_networking.HashTable.Table.{HashTable, ht_create}
use c_computer_networking.HashTable.Methods.{Models}
use c_computer_networking.HashTable.Refine.{Dictionary, Bounded, ht_create-Bounded}
use c_computer_networking.Dht.Wire.{has_bit, internal_bit}
use c_computer_networking.Dht.Node.{DhtNode, Effect, handle_intl_msg, is_key_in_range}
use c_computer_networking.Dht.Request.{
  Reaction, respond, forward, internal, external, handle_msg, relay, read_request, handle_ext_msg,
  ext_header_len,
}
use c_computer_networking.Dht.Request.Handler.{handle_ext_msg-read}
use c_computer_networking.Dht.Request.Bounded.{process_request-Bounded}
use c_computer_networking.Dht.Program.{Arrival, State, Sent, settle, go_on, serve_loop}

-- The table stands for a dictionary, after at most `m` sets.
abbrev pub Stands : (Bytes → ℕ) → ℕ → State → Type 0
Stands hash m state = (f : Dictionary) × Bounded hash m f state.1

-- where the loop ends without a fault, the table is valid and stands for a dictionary
abbrev pub EndsStanding : (Bytes → ℕ) → Outcome (State × List Sent) → Type 0
EndsStanding hash (ok (state, out)) = (f : Dictionary) × Models hash f state.1
EndsStanding hash (fault e) = Unit

abbrev StepStands : (Bytes → ℕ) → ℕ → Outcome (Option (State × List Sent)) → Type 0
StepStands hash m (ok none) = Unit
StepStands hash m (ok (some (state, out))) = Stands hash m state
StepStands hash m (fault e) = Unit

-- a datagram shorter than a header that is not internal
abbrev pub IsShort : Bytes → Type 0
IsShort datagram =
    (length datagram < ext_header_len) × (has_bit (get_or datagram 0 0) internal_bit ≡ false)

module _ (hash : Bytes → ℕ) (stale : ℕ → ℕ) where
  later :
      (m : ℕ) (node : DhtNode) (tbl : HashTable) (f : Dictionary)
      → Bounded hash m f tbl
      → Stands hash (suc m) (node, tbl)
  later m node tbl f b =
      (f, record { models = b.models; few = omega (arith, b.few); small = omega (arith, b.small) })

  relayed-StepStands :
      (m : ℕ) (state : State) (r : Outcome Bytes) (out : Bytes → List Sent)
      → Stands hash m state
      → StepStands hash m (r >>= λ response. ok (some (state, out response)))
  relayed-StepStands m state (ok response) out h = h
  relayed-StepStands m state (fault e) out h = tt

  internal-StepStands :
      (m : ℕ) (node : DhtNode) (tbl : HashTable) (answer : Bytes) (o : Outcome Effect)
      → Stands hash m (node, tbl)
      → StepStands hash m (settle stale (node, tbl) answer (internal o))
  internal-StepStands m node tbl answer (ok (node', packets)) h = h
  internal-StepStands m node tbl answer (fault e) h = tt

  external-StepStands :
      (m : ℕ) (node : DhtNode) (tbl tbl' : HashTable) (answer : Bytes) (o : Option Reaction)
      → Stands hash m (node, tbl')
      → StepStands hash m (settle stale (node, tbl) answer (external (tbl', o)))
  external-StepStands m node tbl tbl' answer none h = tt
  external-StepStands m node tbl tbl' answer (some (respond bytes)) h = h
  external-StepStands m node tbl tbl' answer (some (forward p)) h =
      relayed-StepStands m (node, tbl') (relay stale p.payload answer) _ h

  handle_ext_msg-Stands :
      (m : ℕ) (node : DhtNode) (tbl : HashTable) (packet : Bytes)
      → m < 2 ^ 60
      → Stands hash m (node, tbl)
      → Stands hash (suc m) (node, (handle_ext_msg hash stale node tbl packet).0)
  unfolding handle_ext_msg
  handle_ext_msg-Stands m node tbl packet few (f, b) =
      elim (Option-cases (read_request stale packet)) [
        | inl e ↦ rw (e, handle_ext_msg) (later m node tbl f b)
        | inr (req, e) ↦ elim (Bool-cases (is_key_in_range node req.key)) [
          | inl mine ↦
              rw (handle_ext_msg-read hash stale node tbl packet req e, mine)
                (_, process_request-Bounded hash m f tbl req few b)
          | inr other ↦
              rw (handle_ext_msg-read hash stale node tbl packet req e, other)
                (later m node tbl f b)
        ]
      ]

  handle_msg-StepStands :
      (m : ℕ) (node : DhtNode) (tbl : HashTable) (answer packet : Bytes)
      → m < 2 ^ 60
      → Stands hash m (node, tbl)
      → StepStands hash
          (suc m)
          (settle stale (node, tbl) answer (handle_msg hash stale node tbl packet))
  unfolding handle_msg
  handle_msg-StepStands m node tbl answer packet few (f, b) =
      elim (Bool-cases (has_bit (get_or packet 0 0) internal_bit)) [
        | inl e ↦ rw e (
            internal-StepStands (suc m) node tbl answer (handle_intl_msg node packet)
              (later m node tbl f b))
        | inr e ↦ rw e (
            external-StepStands (suc m) node tbl (handle_ext_msg hash stale node tbl packet).0
              answer (handle_ext_msg hash stale node tbl packet).1
              (handle_ext_msg-Stands m node tbl packet few (f, b)))
      ]

  shifted-EndsStanding :
      (r : Outcome (State × List Sent)) (out : List Sent)
      → EndsStanding hash r
      → EndsStanding hash (r >>= λ q. ok (q.0, out ++ q.1))
  shifted-EndsStanding (ok q) out h = h
  shifted-EndsStanding (fault e) out h = tt

  go_on-EndsStanding :
      (m : ℕ) (step : Outcome (Option (State × List Sent))) (again : Outcome (State × List Sent))
      (rest : State → Outcome (State × List Sent))
      → EndsStanding hash again
      → StepStands hash (suc m) step
      → ((state' : State) → Stands hash (suc m) state' → EndsStanding hash (rest state'))
      → EndsStanding hash (step >>= go_on again rest)
  go_on-EndsStanding m (ok none) again rest s h k = s
  go_on-EndsStanding m (ok (some (state', out))) again rest s h k =
      shifted-EndsStanding (rest state') out (k state' h)
  go_on-EndsStanding m (fault e) again rest s h k = tt

  serve_loop-from :
      (rounds : ℕ) (arrivals : List Arrival) (m : ℕ) (state : State)
      → m + rounds < 2 ^ 60
      → Stands hash m state
      → EndsStanding hash (serve_loop hash stale rounds arrivals state)
  unfolding serve_loop
  serve_loop-from zero arrivals m state few (f, b) = (f, b.models)
  serve_loop-from (suc rounds) [] m state few (f, b) = (f, b.models)
  serve_loop-from (suc rounds) (a ∷ arrivals) m state few s =
      go_on-EndsStanding m _ _ (serve_loop hash stale rounds arrivals)
        (serve_loop-from rounds (a ∷ arrivals) m state (omega arith) s)
        (handle_msg-StepStands m state.0 state.1 a.answer a.datagram (omega arith) s)
        (λ state' s'. serve_loop-from rounds arrivals (suc m) state' (omega arith) s')

  -- Whatever datagrams arrive at a node that starts with a new table, in whatever order, if fewer
  -- than 2 ^ 60 rounds of its loop end without a fault, the table is valid and stands for a
  -- dictionary.
  pub serve_loop-Models :
      (rounds : ℕ) (arrivals : List Arrival) (node : DhtNode)
      → rounds < 2 ^ 60
      → EndsStanding hash (serve_loop hash stale rounds arrivals (node, ht_create))
  serve_loop-Models rounds arrivals node few =
      serve_loop-from rounds arrivals 0 (node, ht_create) (omega arith) (_, ht_create-Bounded hash)
