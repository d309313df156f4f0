-- ===== src/Chunks/News/Entry.antt =====
-- On a page that is formatted as wished, the fields of the first entry are found.
use c_computer_networking.Prelude.{
  ℕ, ◌≡◌, ◌≢◌, refl, ap, sym, ◌∙◌, Bool, true, ◌&&◌, not, some, [], ◌∷◌, ◌++◌, arith, length,
  drop-append, ◌==◌, append_assoc,
}
use c_computer_networking.Prelude.Outcome.{ok}
use c_computer_networking.HashTable.Hash.{Bytes}
use c_computer_networking.Movies.Text.{codes}
use c_computer_networking.Chunks.News.{
  starts_with, skip_to, less_than, token, strtok, field, newest_entry,
}

-- the tag does not start inside `x`, which stands in front of `s`
abbrev pub absent : Bytes → Bytes → Bytes → Bool
absent tag [] s = true
absent tag (c ∷ x) s = not (starts_with tag (c ∷ x ++ s)) && absent tag x s

starts_with-append : (tag s : Bytes) → starts_with tag (tag ++ s) ≡ true
starts_with-append [] s = refl
starts_with-append (t ∷ tag) s = ground (arith, starts_with-append tag s)

skip_to-first :
    (t : ℕ) (tag x s : Bytes)
    → absent (t ∷ tag) x (t ∷ tag ++ s) ≡ true
    → skip_to (t ∷ tag) (x ++ (t ∷ tag ++ s)) ≡ ok (t ∷ tag ++ s)
unfolding skip_to
skip_to-first t tag [] s h = rw (starts_with-append (t ∷ tag) s) refl
skip_to-first t tag (c ∷ x) s h = ground (arith, skip_to-first t tag x s)

-- a field that is not empty, without `'<'` and NUL bytes
abbrev pub is_clean : Bytes → Bool
is_clean [] = true
is_clean (c ∷ s) = not (c == 0) && (not (c == less_than) && is_clean s)

token-clean : (f s : Bytes) → is_clean f ≡ true → token (f ++ (less_than ∷ s)) ≡ (f, f ++ (0 ∷ s))
token-clean [] s h = refl
token-clean (c ∷ f) s h = ground (arith, token-clean f s)

strtok-clean :
    (f s : Bytes)
    → is_clean f ≡ true
    → length f ≢ 0
    → strtok (f ++ (less_than ∷ s)) ≡ (some f, f ++ (0 ∷ s))
unfolding strtok
strtok-clean [] s h full = absurd (full refl)
strtok-clean (c ∷ f) s h full = ground (arith, token-clean (c ∷ f) s)

-- a field behind its tag
field-found :
    (t : ℕ) (tag x f s : Bytes)
    → absent (t ∷ tag) x (t ∷ tag ++ (f ++ (less_than ∷ s))) ≡ true
    → is_clean f ≡ true
    → length f ≢ 0
    → field (t ∷ tag) (x ++ (t ∷ tag ++ (f ++ (less_than ∷ s)))) ≡ ok (some f, f ++ (0 ∷ s))
unfolding field
field-found t tag x f s h clean full =
    rw
      (skip_to-first t tag x (f ++ (less_than ∷ s)) h, drop-append (t ∷ tag) (f ++ (less_than ∷ s)))
      (ap ok (strtok-clean f s clean full))

-- a tag, the field behind it, and what follows the field
abbrev pub tagged : Bytes → Bytes → Bytes → Bytes
tagged tag f s = tag ++ (f ++ (less_than ∷ s))

-- a field that comes later than what is left of the one before
field-behind :
    (t : ℕ) (tag before x f s : Bytes)
    → absent (t ∷ tag) (before ++ (0 ∷ x)) (tagged (t ∷ tag) f s) ≡ true
    → is_clean f ≡ true
    → length f ≢ 0
    → field (t ∷ tag) (before ++ (0 ∷ (x ++ tagged (t ∷ tag) f s))) ≡ ok (some f, f ++ (0 ∷ s))
field-behind t tag before x f s h clean full =
    ap (field (t ∷ tag)) (sym (append_assoc before (0 ∷ x) (tagged (t ∷ tag) f s)))
    ∙ field-found t tag (before ++ (0 ∷ x)) f s h clean full

-- The parts of a page: what stands before the entry and between its fields, the fields, and the
-- end.
pub record Page : Type 0 where
  pub head : Bytes
  pub before_title : Bytes
  pub title : Bytes
  pub before_link : Bytes
  pub link : Bytes
  pub before_description : Bytes
  pub description : Bytes
  pub before_date : Bytes
  pub date : Bytes
  pub end : Bytes

module _ (p : Page) where
  abbrev pub date_part : Bytes
  date_part = tagged (codes "<pubDate>") p.date p.end

  abbrev pub description_part : Bytes
  description_part = tagged (codes "<description>") p.description (p.before_date ++ date_part)

  abbrev pub link_part : Bytes
  link_part = tagged (codes "<link>") p.link (p.before_description ++ description_part)

  abbrev pub title_part : Bytes
  title_part = tagged (codes "<title>") p.title (p.before_link ++ link_part)

  abbrev pub entry_part : Bytes
  entry_part = codes "<item>" ++ (p.before_title ++ title_part)

  -- the page in the buffer
  abbrev pub written : Bytes
  written = p.head ++ entry_part

abbrev pub IsField : Bytes → Type 0
IsField f = (is_clean f ≡ true) × (length f ≢ 0)

-- No tag occurs before the place where it is looked for, and no field is empty.
pub record IsWished (p : Page) : Type 0 where
  pub no_item : absent (codes "<item>") p.head (entry_part p) ≡ true
  pub no_title : absent (codes "<title>") (codes "<item>" ++ p.before_title) (title_part p) ≡ true
  pub no_link : absent (codes "<link>") (p.title ++ (0 ∷ p.before_link)) (link_part p) ≡ true
  pub no_description :
      absent (codes "<description>") (p.link ++ (0 ∷ p.before_description)) (description_part p)
      ≡ true
  pub no_date :
      absent (codes "<pubDate>") (p.description ++ (0 ∷ p.before_date)) (date_part p) ≡ true
  pub title_field : IsField p.title
  pub link_field : IsField p.link
  pub description_field : IsField p.description
  pub date_field : IsField p.date

-- On a page whose tags stand in their order, none of them before the place where it is looked for,
-- and whose four fields are not empty and hold neither a `<` nor a NUL byte, the fields of the
-- first entry are found as they stand on the page.
pub newest_entry-found :
    (p : Page)
    → IsWished p
    → newest_entry (written p)
      ≡ ok (record {
        title = some p.title;
        link = some p.link;
        description = some p.description;
        date = some p.date;
      })
unfolding newest_entry
newest_entry-found p w =
    let item = skip_to-first 60 (codes "item>") p.head (p.before_title ++ title_part p) w.no_item in
    let found_title =
      ap (field (codes "<title>"))
        (sym (append_assoc (codes "<item>") p.before_title (title_part p)))
      ∙ field-found 60 (codes "title>") (codes "<item>" ++ p.before_title) p.title
          (p.before_link ++ link_part p) w.no_title w.title_field.0 w.title_field.1 in
    let found_link =
      field-behind 60 (codes "link>") p.title p.before_link p.link
        (p.before_description ++ description_part p) w.no_link w.link_field.0 w.link_field.1 in
    let found_description =
      field-behind 60 (codes "description>") p.link p.before_description p.description
        (p.before_date ++ date_part p) w.no_description w.description_field.0
        w.description_field.1 in
    let found_date =
      field-behind 60 (codes "pubDate>") p.description p.before_date p.date p.end w.no_date
        w.date_field.0 w.date_field.1 in
    rw (item, found_title, found_link, found_description, found_date) refl
