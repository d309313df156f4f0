-- ===== src/Chunks/News.antt =====
-- The end of `get_http` in `TCP_IP_and_Drgramms/ex7.c`: the newest entry of the page in the buffer.
-- A position in the buffer is what the buffer holds from there on.
pub mod Entry
use c_computer_networking.Prelude.{
  ℕ, zero, suc, Bool, true, false, ◌&&◌, Option, none, some, List, [], ◌∷◌, length, drop, ◌==◌,
  if◌then◌else◌,
}
use c_computer_networking.Prelude.Outcome.{Outcome, ok, fault, out_of_bounds, ◌>>=◌}
use c_computer_networking.HashTable.Hash.{Bytes}
use c_computer_networking.Movies.Text.{codes}

-- `strncmp(s, tag, strlen(tag)) == 0`
abbrev pub starts_with : Bytes → Bytes → Bool
starts_with [] s = true
starts_with (t ∷ tag) [] = false
starts_with (t ∷ tag) (c ∷ s) = let rest = starts_with tag s in (c == t) && rest

-- The loop that looks for a tag; behind the last byte of the buffer it reads outside.
unfoldable pub skip_to : Bytes → Bytes → Outcome Bytes
skip_to tag [] = fault out_of_bounds
skip_to tag (c ∷ s) =
    let rest = skip_to tag s in if starts_with tag (c ∷ s) then ok (c ∷ s) else rest

-- `'<'`
abbrev pub less_than : ℕ
less_than = 60

-- the bytes up to the next `'<'` or NUL byte, and the buffer with a NUL byte for that `'<'`
abbrev pub token : Bytes → Bytes × Bytes
token [] = ([], [])
token (c ∷ s) =
    let (t, s') = token s in
    if c == 0 then ([], c ∷ s) else if c == less_than then ([], 0 ∷ s) else (c ∷ t, c ∷ s')

abbrev pub with_token : Bytes × Bytes → Option Bytes × Bytes
with_token (t, s) = (some t, s)

-- `strtok(s, "<")`: the token, which is NULL if nothing is left, and the buffer.
unfoldable pub strtok : Bytes → Option Bytes × Bytes
strtok [] = (none, [])
strtok (c ∷ s) =
    let (t, s') = strtok s in
    if c == 0
    then (none, c ∷ s)
    else if c == less_than
    then (t, c ∷ s')
    else with_token (token (c ∷ s))

-- one of the four searches, which leaves `progress` behind the tag
unfoldable pub field : Bytes → Bytes → Outcome (Option Bytes × Bytes)
field tag s = do s' ← skip_to tag s; ok (strtok (drop (length tag) s'))

-- what is printed
pub record NewsEntry : Type 0 where
  pub title : Option Bytes
  pub link : Option Bytes
  pub description : Option Bytes
  pub date : Option Bytes

unfoldable pub newest_entry : Bytes → Outcome NewsEntry
newest_entry buffer = do
  s ← skip_to (codes "<item>") buffer
  (title, s) ← field (codes "<title>") s
  (link, s) ← field (codes "<link>") s
  (description, s) ← field (codes "<description>") s
  (date, s) ← field (codes "<pubDate>") s
  ok (record { title = title; link = link; description = description; date = date })
