-- ===== src/Rpc/Csv.antt =====
-- `read_file` of `Movie Parser/client.c`: films from the lines of a file, whose parts `strtok` takes
-- off. A line is what `getline` gives, with its newline; it holds no 0.
pub mod Tokens
use c_computer_networking.Prelude.{
  ℕ, zero, suc, Bool, true, false, not, Option, none, some, List, [], ◌∷◌, length, ◌==◌,
  if◌then◌else◌,
}
use c_computer_networking.Prelude.Outcome.{Outcome, ok, fault, assertion, null_pointer, ◌>>=◌}
use c_computer_networking.HashTable.Hash.{Bytes}
use c_computer_networking.HashTable.Table.{Status, success, failure}
use c_computer_networking.Rpc.Film.{Film, n_fields}

-- `";"`
abbrev pub semicolon : ℕ
semicolon = 59

-- the text before the next semicolon, and what follows it
abbrev pub cut : Bytes → Bytes × Bytes
cut [] = ([], [])
cut (c ∷ s) = let rest = cut s in if c == semicolon then ([], s) else (c ∷ rest.0, rest.1)

-- `strtok` with `";"` on the text `s` that is left: the token and what is left after it, or NULL
unfoldable pub strtok : Bytes → Option (Bytes × Bytes)
strtok [] = none
strtok (c ∷ s) = let rest = strtok s in if c == semicolon then rest else some (cut (c ∷ s))

-- the loop over the fields of a film
unfoldable pub read_fields : ℕ → Bytes → Outcome (List Bytes)
read_fields zero s = ok []
read_fields (suc n) s = elim (strtok s) [
  | none ↦ fault assertion
  | some (field, s') ↦ do fields ← read_fields n s'; ok (field ∷ fields)
]

unfoldable pub read_film : Bytes → Outcome Film
read_film line = elim (strtok line) [
  | none ↦ fault assertion
  | some (title, s) ↦ do
    fields ← read_fields n_fields s
    ok (record { title = title; fields = fields })
]

-- `MAX_FILMS`
abbrev pub max_films : ℕ
max_films = 1000

-- the loop over the lines, while there is room for `room` more films
unfoldable pub read_films : ℕ → List Bytes → Outcome (List Film)
read_films zero lines = ok []
read_films (suc room) [] = ok []
read_films (suc room) (line ∷ lines) = do
  f ← read_film line
  films ← read_films room lines
  ok (f ∷ films)

-- a file that `fopen` does not open is `none`; the loop then reads from NULL
unfoldable pub read_file : Option (List Bytes) → Outcome (Status × List Film)
read_file none = fault null_pointer
read_file (some lines) = do
  films ← read_films max_films lines
  ok (if length films == 0 then failure else success, films)
