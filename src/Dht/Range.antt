-- ===== src/Dht/Range.antt =====
-- `is_in_range` and `is_key_in_range` of `Hash Table/server.c`: the arcs of the ring.
use c_computer_networking.Prelude.{
  ℕ, ◌+◌, ◌-◌, ◌%◌, ◌<◌, ◌≡◌, Bool, true, false, ◌&&◌, ◌||◌, arith, ltb, leb, if◌then◌else◌,
}
use c_computer_networking.Dht.Wire.{ServerInfo}

-- a difference of `uint16_t`
abbrev pub sub16 : ℕ → ℕ → ℕ
sub16 a b = (a + 65536 - b) % 65536

-- `val_offset < end_offset`
unfoldable pub in_arc : ℕ → ℕ → ℕ → Bool
in_arc start_id end_id val_id = ltb (sub16 val_id start_id) (sub16 end_id start_id)

unfoldable pub is_in_range : ServerInfo → ServerInfo → ServerInfo → Bool
unfolding in_arc
is_in_range start end val = in_arc start.id end.id val.id

module _ (s e v : ℕ) (hs : s < 65536) (he : e < 65536) (hv : v < 65536) where
  -- The arc runs from its start up to, but without, its end, and over zero where the end is before
  -- the start; from a point to itself it is empty.
  pub in_arc_lem : in_arc s e v ≡ (if leb s e then leb s v && ltb v e else leb s v || ltb v e)
  unfolding in_arc
  in_arc_lem = ground arith

  -- A point of an arc cuts it in two: what was in the arc is in exactly one of the parts.
  pub in_arc_split :
      (m : ℕ)
      → m < 65536
      → in_arc s e m ≡ true
      → (in_arc s e v ≡ (in_arc s m v || in_arc m e v)) × ((in_arc s m v && in_arc m e v) ≡ false)
  unfolding in_arc
  in_arc_split m hm inside = ground arith
