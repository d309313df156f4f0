-- ===== src/GoBackN/Sender/Load.antt =====
-- `readFileIntoBuffer`: the file is cut into packets of 1024 bytes and one empty packet, and a file
-- of more than 1023 such packets does not fit.
use c_computer_networking.Prelude.{
  ℕ, zero, suc, ◌+◌, ◌*◌, ◌/◌, ◌≤◌, ◌<◌, ◌≡◌, refl, ap, sym, ◌∙◌, true, false, List, [], ◌∷◌, arith,
  length, take, drop, ◌==◌, if◌then◌else◌, length-take, length-drop, dec_lt,
}
use c_computer_networking.Prelude.Int.{pos}
use c_computer_networking.Prelude.Outcome.{ok, fault, assertion}
use c_computer_networking.GoBackN.Message.{Message}
use c_computer_networking.GoBackN.DataBuffer.{
  DataPacket, DataBuffer, allocate_data_buffer, put_data_packet_into_buffer,
}
use c_computer_networking.GoBackN.DataBuffer.Window.{
  IsValid, allocate-IsValid, put_result, put-next, put-full,
}
use c_computer_networking.GoBackN.File.{IsFile, Buffered}
use c_computer_networking.GoBackN.Sender.{
  Options, default_payload_size, max_file_size, data_message, read_into_buffer, read_loop,
  read_file_into_buffer,
}

-- the bytes of packet `n`
unfoldable pub chunk : List ℕ → ℕ → List ℕ
chunk file n = take default_payload_size (drop (n * 1024) file)

-- packet `n` of a file
unfoldable pub packet_of : Options → List ℕ → ℕ → Message
packet_of o file n = data_message o n (chunk file n)

-- the number of the empty packet that ends the file
abbrev pub last_of : List ℕ → ℕ
last_of file = (length file + 1023) / 1024

drop-nil : (n : ℕ) → drop {A = ℕ} n [] ≡ []
drop-nil zero = refl
drop-nil (suc n) = refl

drop-drop : (a b : ℕ) (xs : List ℕ) → drop a (drop b xs) ≡ drop (b + a) xs
drop-drop a zero xs = let e : a ≡ 0 + a = omega arith in ap (λ n. drop n xs) e
drop-drop a (suc b) [] = drop-nil a ∙ sym (drop-nil (suc b + a))
drop-drop a (suc b) (x ∷ xs) =
    let e : suc (b + a) ≡ suc b + a = omega arith in drop-drop a b xs ∙ ap (λ n. drop n (x ∷ xs)) e

-- The packets of a file are numbered and undamaged, and the first empty one is the last.
pub packet_of-IsFile : (o : Options) (file : List ℕ) → IsFile (packet_of o file) (last_of file)
unfolding packet_of data_message chunk
packet_of-IsFile o file = record {
  numbered = λ n. refl;
  clean = λ n. refl;
  filled =
      λ n lt. omega (arith, length-take 1024 (drop (n * 1024) file), length-drop (n * 1024) file);
  ended = omega (
    arith,
    length-take 1024 (drop (last_of file * 1024) file),
    length-drop (last_of file * 1024) file,
  );
}

module _ (o : Options) (file : List ℕ) where
  abbrev rest_at : ℕ → List ℕ
  rest_at seq = drop (seq * 1024) file

  abbrev new_packet : ℕ → DataPacket
  new_packet seq = record { timeout = o.uninitialised; packet = packet_of o file seq }

  -- the buffer holds the first `seq` packets
  record Loaded (seq : ℕ) (b : DataBuffer) : Type 0 where
    valid : IsValid (packet_of o file) b
    from_zero : b.min_seq_no ≡ 0
    filled : b.count ≡ seq
    capacity : b.max_count ≡ max_file_size

  put-Loaded :
      (seq : ℕ) (b : DataBuffer)
      → Loaded seq b
      → seq < max_file_size
      → (put_data_packet_into_buffer b (new_packet seq) ≡ ok (put_result b (new_packet seq)))
        × Loaded (seq + 1) (put_result b (new_packet seq))
  put-Loaded seq b h lt =
      let e : seq ≡ b.min_seq_no + b.count = omega (arith, h.from_zero, h.filled) in
      let (put, valid) =
        put-next (packet_of o file) b h.valid (new_packet seq) (ap (packet_of o file) e)
          ((packet_of-IsFile o file).numbered seq ∙ ap (λ n. pos n) e)
          (omega (arith, h.filled, h.capacity)) in
      (
        put,
        record {
          valid = valid;
          from_zero = h.from_zero;
          filled = omega (arith, h.filled);
          capacity = h.capacity;
        },
      )

  read_into_buffer-put :
      (seq : ℕ) (b b' : DataBuffer)
      → put_data_packet_into_buffer b (new_packet seq) ≡ ok b'
      → read_into_buffer o b (rest_at seq) seq
        ≡ ok (b', if length (chunk file seq) == 0 then false else true)
  unfolding read_into_buffer packet_of chunk
  read_into_buffer-put seq b b' e = rw e

  read_loop-more :
      (fuel seq : ℕ) (b b' : DataBuffer)
      → read_into_buffer o b (rest_at seq) seq ≡ ok (b', true)
      → read_loop o (suc fuel) b (rest_at seq) seq
        ≡ read_loop o fuel b' (rest_at (seq + 1)) (seq + 1)
  unfolding read_loop
  read_loop-more fuel seq b b' e =
      let next : seq * 1024 + 1024 ≡ (seq + 1) * 1024 = omega arith in
      rw (e, drop-drop 1024 (seq * 1024) file, next)

  read_loop-done :
      (fuel seq : ℕ) (b b' : DataBuffer)
      → read_into_buffer o b (rest_at seq) seq ≡ ok (b', false)
      → read_loop o (suc fuel) b (rest_at seq) seq ≡ ok (b', seq)
  unfolding read_loop
  read_loop-done fuel seq b b' e = rw e

  read_loop-full :
      (fuel seq : ℕ) (b : DataBuffer)
      → put_data_packet_into_buffer b (new_packet seq) ≡ fault assertion
      → read_loop o (suc fuel) b (rest_at seq) seq ≡ fault assertion
  unfolding read_loop packet_of chunk
  read_loop-full fuel seq b e = rw e

  -- Before the last packet there is more to read.
  has_more :
      (seq : ℕ) → seq < last_of file → (if length (chunk file seq) == 0 then false else true) ≡ true
  unfolding packet_of data_message
  has_more seq lt = ground (arith, (packet_of-IsFile o file).filled seq lt)

  no_more : (if length (chunk file (last_of file)) == 0 then false else true) ≡ false
  unfolding packet_of data_message
  no_more = ground (arith, (packet_of-IsFile o file).ended)

  read_loop-Loaded :
      (fuel seq : ℕ) (b : DataBuffer)
      → Loaded seq b
      → length (rest_at seq) < fuel
      → seq ≤ last_of file
      → last_of file < max_file_size
      → (b' : DataBuffer) × (read_loop o fuel b (rest_at seq) seq ≡ ok (b', last_of file))
        × Loaded (last_of file + 1) b'
  read_loop-Loaded zero seq b h enough le fits = absurd (omega arith)
  read_loop-Loaded (suc fuel) seq b h enough le fits =
      let (put, h') = put-Loaded seq b h (omega arith) in
      let read = read_into_buffer-put seq b (put_result b (new_packet seq)) put in
      elim (dec_lt seq (last_of file)) [
        | yes lt ↦
            let read' = read ∙ ap (λ m. ok (put_result b (new_packet seq), m)) (has_more seq lt) in
            let (b', run, l) =
              read_loop-Loaded fuel (seq + 1) (put_result b (new_packet seq)) h'
                (omega (arith, length-drop (seq * 1024) file, length-drop ((seq + 1) * 1024) file))
                (omega arith) fits in
            (b', read_loop-more fuel seq b (put_result b (new_packet seq)) read' ∙ run, l)
        | no ge ↦
            let e : seq ≡ last_of file = omega arith in
            let flag = ap (λ n. if length (chunk file n) == 0 then false else true) e ∙ no_more in
            let read' = read ∙ ap (λ m. ok (put_result b (new_packet seq), m)) flag in
            (
              put_result b (new_packet seq),
              read_loop-done fuel seq b (put_result b (new_packet seq)) read'
                  ∙ ap (λ n. ok (put_result b (new_packet seq), n)) e,
              record {
                valid = h'.valid;
                from_zero = h'.from_zero;
                filled = omega (arith, h'.filled, e);
                capacity = h'.capacity;
              },
            )
      ]

  read_loop-too_large :
      (fuel seq : ℕ) (b : DataBuffer)
      → Loaded seq b
      → length (rest_at seq) < fuel
      → seq ≤ max_file_size
      → max_file_size ≤ last_of file
      → read_loop o fuel b (rest_at seq) seq ≡ fault assertion
  read_loop-too_large zero seq b h enough le large = absurd (omega arith)
  read_loop-too_large (suc fuel) seq b h enough le large = elim (dec_lt seq max_file_size) [
    | no full ↦ read_loop-full fuel seq b (
        put-full (packet_of o file) b h.valid (new_packet seq)
          (omega (arith, h.filled, h.capacity)))
    | yes room ↦
        let (put, h') = put-Loaded seq b h room in
        let read = read_into_buffer-put seq b (put_result b (new_packet seq)) put in
        let read' =
          read ∙ ap (λ m. ok (put_result b (new_packet seq), m)) (has_more seq (omega arith)) in
        read_loop-more fuel seq b (put_result b (new_packet seq)) read'
        ∙ read_loop-too_large fuel (seq + 1) (put_result b (new_packet seq)) h'
            (omega (arith, length-drop (seq * 1024) file, length-drop ((seq + 1) * 1024) file))
            (omega arith) large
  ]

  empty-Loaded : Loaded 0 (allocate_data_buffer max_file_size)
  unfolding allocate_data_buffer
  empty-Loaded = record {
    valid = allocate-IsValid (packet_of o file) max_file_size (omega arith) (omega arith);
    from_zero = refl;
    filled = refl;
    capacity = refl;
  }

  -- A file of at most 1023 * 1024 bytes is read to its end: the loop returns the number of the
  -- empty packet that ends the file, within the fuel given, and the buffer holds every packet of
  -- the file.
  pub read_file_into_buffer-Buffered :
      length file ≤ 1023 * 1024
      → (b : DataBuffer) × (read_file_into_buffer o file ≡ ok (b, last_of file))
        × Buffered (packet_of o file) (last_of file) 0 b
  unfolding read_file_into_buffer
  read_file_into_buffer-Buffered fits =
      let (b, run, l) =
        read_loop-Loaded (suc (length file)) 0 (allocate_data_buffer max_file_size) empty-Loaded
          (omega arith) (omega arith) (omega arith) in
      (
        b,
        run,
        record {
          valid = l.valid;
          to_end = omega (arith, l.from_zero, l.filled);
          received = omega (arith, l.from_zero);
        },
      )

  -- A longer file stops the sender at an `assert` before anything is sent.
  pub read_file_into_buffer-too_large :
      1023 * 1024 < length file → read_file_into_buffer o file ≡ fault assertion
  unfolding read_file_into_buffer
  read_file_into_buffer-too_large large =
      read_loop-too_large (suc (length file)) 0 (allocate_data_buffer max_file_size) empty-Loaded
        (omega arith) (omega arith) (omega arith)
