-- ===== src/Rpc/Csv/Tokens.antt =====
-- The tokens of a line are its non-empty parts, so an empty field shifts the ones behind it.
use c_computer_networking.Prelude.{
  ℕ, zero, suc, ◌≤◌, ◌<◌, ◌≡◌, refl, ap, sym, inl, inr, Option, none, some, List, [], ◌∷◌, arith,
  length, ◌==◌, if◌then◌else◌, Bool-cases, Option-cases,
}
use c_computer_networking.Prelude.Outcome.{Outcome, ok, fault, assertion, ◌>>=◌}
use c_computer_networking.HashTable.Hash.{Bytes}
use c_computer_networking.Rpc.Film.{Film, n_fields}
use c_computer_networking.Rpc.Csv.{semicolon, cut, strtok, read_fields, read_film}

-- the parts of a line between its semicolons, some of them empty
abbrev pub to_first : ℕ → List Bytes → List Bytes
to_first c [] = (c ∷ []) ∷ []
to_first c (part ∷ parts) = (c ∷ part) ∷ parts

abbrev pub parts_of : Bytes → List Bytes
parts_of [] = [] ∷ []
parts_of (c ∷ s) = let parts = parts_of s in if c == semicolon then [] ∷ parts else to_first c parts

abbrev pub non_empty : List Bytes → List Bytes
non_empty [] = []
non_empty ([] ∷ parts) = non_empty parts
non_empty ((c ∷ part) ∷ parts) = (c ∷ part) ∷ non_empty parts

-- the first `n` of the parts
abbrev pub first : ℕ → List Bytes → Outcome (List Bytes)
first zero parts = ok []
first (suc n) [] = fault assertion
first (suc n) (part ∷ parts) = do fields ← first n parts; ok (part ∷ fields)

abbrev pub film_of : List Bytes → Outcome Film
film_of [] = fault assertion
film_of (title ∷ parts) = do
  fields ← first n_fields parts
  ok (record { title = title; fields = fields })

pub parts_of-cut :
    (s : Bytes)
    → (parts : List Bytes) × (parts_of s ≡ (cut s).0 ∷ parts)
      × (non_empty (parts_of (cut s).1) ≡ non_empty parts)
parts_of-cut [] = ([], refl, refl)
parts_of-cut (c ∷ s) =
    let (parts, e, same) = parts_of-cut s in
    elim (Bool-cases (c == semicolon)) [
      | inl stop ↦ (parts_of s, rw stop refl, rw stop refl)
      | inr go ↦ (parts, rw (go, e) refl, rw (go, same) refl)
    ]

length-cut : (s : Bytes) → length (cut s).1 ≤ length s
length-cut [] = omega arith
length-cut (c ∷ s) = ground (arith, length-cut s)

-- what `strtok` takes off is the first part that is not empty
abbrev pub head_of : Option (Bytes × Bytes) → List Bytes
head_of none = []
head_of (some (token, s)) = token ∷ non_empty (parts_of s)

pub strtok-parts : (s : Bytes) → non_empty (parts_of s) ≡ head_of (strtok s)
unfolding strtok
strtok-parts [] = refl
strtok-parts (c ∷ s) =
    let (parts, e, same) = parts_of-cut s in
    elim (Bool-cases (c == semicolon)) [
      | inl stop ↦ rw stop (strtok-parts s)
      | inr go ↦ rw (go, e) (ap (λ r. (c ∷ (cut s).0) ∷ r) (sym same))
    ]

pub read_fields-first : (n : ℕ) (s : Bytes) → read_fields n s ≡ first n (non_empty (parts_of s))
unfolding read_fields
read_fields-first zero s = refl
read_fields-first (suc n) s = elim (Option-cases (strtok s)) [
  | inl e ↦ ground (arith, strtok-parts s, e)
  | inr ((token, s'), e) ↦ ground (arith, strtok-parts s, e, read_fields-first n s')
]

-- The film of a line has the first six of its parts between semicolons that are not empty, and if
-- there are fewer than six, an assert fails.
pub read_film-film_of : (line : Bytes) → read_film line ≡ film_of (non_empty (parts_of line))
unfolding read_film
read_film-film_of line = elim (Option-cases (strtok line)) [
  | inl e ↦ ground (arith, strtok-parts line, e)
  | inr ((title, s), e) ↦ ground (arith, strtok-parts line, e, read_fields-first n_fields s)
]

pub strtok-shrinks : (s token s' : Bytes) → strtok s ≡ some (token, s') → length s' < length s
unfolding strtok
strtok-shrinks [] token s' e = cc
strtok-shrinks (c ∷ s) token s' e = elim (Bool-cases (c == semicolon)) [
  | inl stop ↦ ground (arith, strtok-shrinks s token s')
  | inr go ↦ ground (arith, length-cut s)
]
