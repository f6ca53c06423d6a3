-- ===== src/Picker/Searched.antt =====
-- src/client/picker.rs: a search shows exactly the rows that match, in their order.
use manymux.Prelude.{
  ℕ, ◌+◌, Bool, true, not, List, [], ◌∷◌, ◌++◌, Option, none, some, Text, length, keep, ◌≡◌, refl,
  inl, inr, Bool-cases, ap, if◌then◌else◌, All, All-keep, All-append, leb, ltb,
}
use manymux.Picker.{
  Row, filtered, filtered_from, matches, headings_to_show, heading_row, or_none, new_row,
}

-- The rows that are no headings.
abbrev pub entries : List Row → List Row
entries rows = keep (λ row. not row.heading) rows

abbrev IsHeading : ℕ × Row → Type 0
IsHeading h = h.1.heading ≡ true

keep-append {ℓ} :
    {A : Type ℓ} (p : A → Bool) (xs ys : List A) → keep p (xs ++ ys) ≡ keep p xs ++ keep p ys
keep-append p [] ys = refl
keep-append p (x ∷ xs) ys = elim (Bool-cases (p x)) [
  | inl e ↦ rw (e, keep-append p xs ys) refl
  | inr e ↦ rw (e, keep-append p xs ys) refl
]

-- What is shown above a row is headings only.
headings_to_show-entries :
    (last : Option ℕ) (headings : List (ℕ × Row))
    → All IsHeading headings
    → entries (headings_to_show last headings).0 ≡ []
unfolding headings_to_show
headings_to_show-entries last [] h = refl
headings_to_show-entries none ((i, row) ∷ headings) h =
    let e : row.heading ≡ true = h.0 in simp e (headings_to_show-entries (some i) headings h.1)
headings_to_show-entries (some l) ((i, row) ∷ headings) h = elim (Bool-cases (ltb l i)) [
  | inl e ↦
      let g : row.heading ≡ true = h.0 in
      simp (e, g) (headings_to_show-entries (some i) headings h.1)
  | inr e ↦ simp e (headings_to_show-entries (some l) headings h.1)
]

-- The headings above a heading, by how far in they stand.
abbrev under : Row → List (ℕ × Row) → List (ℕ × Row)
under row headings = keep (λ h. ltb h.1.indent row.indent) headings

or_none-entries : (rows : List Row) → entries (or_none rows) ≡ entries rows
unfolding or_none heading_row new_row
or_none-entries [] = refl
or_none-entries (row ∷ rows) = refl

module _ (to_lowercase : Text → Text) where
  filtered_from-entries :
      (query : Text) (index : ℕ) (headings : List (ℕ × Row)) (last : Option ℕ) (rows : List Row)
      → All IsHeading headings
      → entries (filtered_from to_lowercase query index headings last rows)
        ≡ keep (matches to_lowercase query) (entries rows)
  unfolding filtered_from
  filtered_from-entries query index headings last [] h = refl
  filtered_from-entries query index headings last (row ∷ rows) h = elim (Bool-cases row.heading) [
    | inl e ↦ simp e (
        filtered_from-entries query (index + 1) (under row headings ++ (index, row) ∷ []) last rows
          (All-append IsHeading (under row headings) _ (All-keep IsHeading _ headings h) (e, tt)))
    | inr e ↦ elim (Bool-cases (matches to_lowercase query row)) [
      | inl f ↦
          let more =
            filtered_from to_lowercase query (index + 1) headings (headings_to_show last headings).1
              rows in
          let shown =
            keep-append (λ row. not row.heading) (headings_to_show last headings).0 (row ∷ more) in
          let none_shown = headings_to_show-entries last headings h in
          simp (e, f, shown, none_shown)
            (ap (◌∷◌ row) (
              filtered_from-entries query (index + 1) headings (headings_to_show last headings).1
                rows h))
      | inr f ↦ simp (e, f) (filtered_from-entries query (index + 1) headings last rows h)
    ]
  ]

  -- A search shows exactly the rows that match it, in the order that they had, whatever headings are put above
  -- them; without a query every row is shown.
  pub filtered-entries :
      (source : List Row) (query : Text)
      → entries (filtered to_lowercase source query) ≡ (
          if leb (length query) 0
          then entries source
          else keep (matches to_lowercase (to_lowercase query)) (entries source))
  unfolding filtered
  filtered-entries source query = elim (Bool-cases (leb (length query) 0)) [
    | inl e ↦ rw e refl
    | inr e ↦
        rw (e, or_none-entries (filtered_from to_lowercase (to_lowercase query) 0 [] none source))
          (filtered_from-entries (to_lowercase query) 0 [] none source tt)
  ]
