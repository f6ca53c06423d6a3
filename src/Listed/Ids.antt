-- ===== src/Listed/Ids.antt =====
-- src/client/listed.rs: an id that a row of the popup was given stands for the same session for good, and a
-- session that has one keeps it.
use mathlib.Core.Option.{some-injective}
use manymux.Listed.{preserve_ids, id_of}
use manymux.Picker.{Row, or_else}
use manymux.Prelude.{
  ℕ, suc, ◌<◌, Bool, true, false, List, [], ◌∷◌, ◌++◌, Option, none, some, length, get_elem?, ◌>>=◌,
  ◌≡◌, ◌↔◌, refl, ap, sym, subst, ◌∙◌, inl, inr, Bool-cases, All, if◌then◌else◌, append_assoc,
  append-nil,
}
use manymux.Switch.{position}
use manymux.Switch.Places.{position-holds, get_elem?-some}

abbrev one_on : Option ℕ → Option ℕ
one_on o = do i ← o; some (suc i)

-- A later place, from the same place of the rest.
one_on-same :
    (o o' : Option ℕ) (i : ℕ)
    → ((j : ℕ) → o ≡ some j → o' ≡ some j)
    → one_on o ≡ some i
    → one_on o' ≡ some i
one_on-same none o' i h e = cc
one_on-same (some j) o' i h e = ap one_on (h j refl) ∙ e

one_on-none :
    (o o' : Option ℕ) (n : ℕ)
    → (o ≡ none → o' ≡ some n)
    → one_on o ≡ none
    → one_on o' ≡ some (suc n)
one_on-none none o' n h e = ap one_on (h refl)
one_on-none (some j) o' n h e = cc

module _ {ℓ} {A : Type ℓ} where
  position-append :
      (p : A → Bool) (kept more : List A) (i : ℕ)
      → position p kept ≡ some i
      → position p (kept ++ more) ≡ some i
  unfolding position
  position-append p [] more i h = cc
  position-append p (x ∷ kept) more i h = elim (Bool-cases (p x)) [
    | inl e ↦
        subst (λ b. (if b then some 0 else one_on (position p (kept ++ more))) ≡ some i) (sym e)
          (subst (λ b. (if b then some 0 else one_on (position p kept)) ≡ some i) e h)
    | inr e ↦
        subst (λ b. (if b then some 0 else one_on (position p (kept ++ more))) ≡ some i) (sym e)
          (one_on-same (position p kept) (position p (kept ++ more)) i
            (λ j. position-append p kept more j)
            (subst (λ b. (if b then some 0 else one_on (position p kept)) ≡ some i) e h))
  ]

  position-last :
      (p : A → Bool) (kept : List A) (value : A)
      → position p kept ≡ none
      → p value ≡ true
      → position p (kept ++ value ∷ []) ≡ some (length kept)
  unfolding position
  position-last p [] value h e = rw e refl
  position-last p (x ∷ kept) value h e = elim (Bool-cases (p x)) [
    | inl f ↦
        let no : some 0 ≡ none =
          subst (λ b. (if b then some 0 else one_on (position p kept)) ≡ none) f h in
        cc no
    | inr f ↦
        subst
          (λ b.
            (if b then some 0 else one_on (position p (kept ++ value ∷ [])))
            ≡ some (suc (length kept)))
          (sym f)
          (one_on-none (position p kept) (position p (kept ++ value ∷ [])) (length kept)
            (λ g. position-last p kept value g e)
            (subst (λ b. (if b then some 0 else one_on (position p kept)) ≡ none) f h))
  ]

module _ {ℓ} {A : Type ℓ} (eq : A → A → Bool) where
  -- The first id that stands for a value.
  abbrev pub id_for : List A → A → Option ℕ
  id_for kept value = position (λ before. eq before value) kept

  -- A row of a listing, as it is handed on: a heading is as it was, and another row has the first id that
  -- stands for what it stood for, which is the one that this had before where it had one.
  pub data IsSame (values previous kept : List A) (row row' : Row) : Type ℓ where
    heading_kept : row.heading ≡ true → row' ≡ row → IsSame values previous kept row row'
    entry_kept :
        (value : A) (id : ℕ)
        → row.heading ≡ false
        → get_elem? values row.id ≡ some value
        → row' ≡ record row { id = id }
        → get_elem? kept id ≡ some value
        → id_for kept value ≡ some id
        → or_else (id_for previous value) (some id) ≡ some id
        → IsSame values previous kept row row'

  -- Row by row.
  pub data AreSame (values previous kept : List A) : List Row → List Row → Type ℓ where
    no_rows : AreSame values previous kept [] []
    row_by_row :
        (row row' : Row) (rows rows' : List Row)
        → IsSame values previous kept row row'
        → AreSame values previous kept rows rows'
        → AreSame values previous kept (row ∷ rows) (row' ∷ rows')

  same_id :
      (o : Option ℕ) (id : ℕ) → ((j : ℕ) → o ≡ some j → j ≡ id) → or_else o (some id) ≡ some id
  same_id none id h = refl
  same_id (some j) id h = ap some (h j refl)

  kept_id :
      (previous more : List A) (value : A) (id : ℕ)
      → id_for (previous ++ more) value ≡ some id
      → or_else (id_for previous value) (some id) ≡ some id
  kept_id previous more value id h =
      same_id (id_for previous value) id
        (λ j e. some-injective _ _ (sym (position-append (λ b. eq b value) previous more j e) ∙ h))

  AreSame-earlier :
      (values previous more later kept : List A) (rows rows' : List Row)
      → kept ≡ previous ++ more
      → AreSame values later kept rows rows'
      → AreSame values previous kept rows rows'
  AreSame-earlier values previous more later kept _ _ e no_rows = no_rows
  AreSame-earlier values previous more later kept _ _ e
        (row_by_row row row' rows rows' (heading_kept h s) more') =
      row_by_row row row' rows rows' (heading_kept h s)
        (AreSame-earlier values previous more later kept rows rows' e more')
  AreSame-earlier values previous more later kept _ _ e
        (row_by_row row row' rows rows' (entry_kept value id h v s k first o) more') =
      row_by_row row row' rows rows'
        (entry_kept value id h v s k first
          (kept_id previous more value id (subst (λ w. id_for w value ≡ some id) e first)))
        (AreSame-earlier values previous more later kept rows rows' e more')

  module _ (eq_iff : (a b : A) → (eq a b ≡ true) ↔ (a ≡ b)) where
    id_of-append :
        (value : A) (kept : List A) (found : Option ℕ)
        → (more : List A) × ((id_of eq value kept found).1 ≡ kept ++ more)
    unfolding id_of
    id_of-append value kept none = (value ∷ [], refl)
    id_of-append value kept (some id) = ([], sym (append-nil kept))

    id_of-id_for :
        (value : A) (kept : List A) (found : Option ℕ)
        → id_for kept value ≡ found
        → id_for (id_of eq value kept found).1 value ≡ some (id_of eq value kept found).0
    unfolding id_of
    id_of-id_for value kept none e =
        position-last (λ b. eq b value) kept value e ((eq_iff value value).1 refl)
    id_of-id_for value kept (some id) e = e

    id_for-stands :
        (kept : List A) (value : A) (id : ℕ)
        → id_for kept value ≡ some id
        → get_elem? kept id ≡ some value
    id_for-stands kept value id h =
        let (x, hit, same) = position-holds (λ b. eq b value) kept id h in
        hit ∙ ap some ((eq_iff x value).0 same)

    -- Where each row but a heading stands for something, the rows of a new listing get ids. Every id that was
    -- given before stands for what it stood for, new ones come behind them, a heading is as it was, and
    -- another row has the first id that stands for what the listing says, which is the one that this had
    -- before where it had one.
    pub preserve_ids-keeps :
        (values previous : List A) (rows : List Row)
        → All (λ row. row.heading ≡ false → row.id < length values) rows
        → (rows' : List Row) × (more : List A) × (preserve_ids eq values previous rows
            ≡ some (rows', previous ++ more))
          × AreSame values previous (previous ++ more) rows rows'
    unfolding preserve_ids
    preserve_ids-keeps values previous [] h = ([], [], rw (append-nil previous) refl, no_rows)
    preserve_ids-keeps values previous (row ∷ rows) h = elim (Bool-cases row.heading) [
      | inl e ↦
          let (rows', more, gives, same) = preserve_ids-keeps values previous rows h.1 in
          (
            row ∷ rows',
            more,
            simp (e, gives) refl,
            row_by_row row row rows rows' (heading_kept e refl) same,
          )
      | inr e ↦
          let (value, hit) = get_elem?-some values row.id (h.0 e) in
          let found = id_for previous value in
          let given = id_of eq value previous found in
          let (new, grows) = id_of-append value previous found in
          let (rows', more, gives, same) = preserve_ids-keeps values given.1 rows h.1 in
          let whole : given.1 ++ more ≡ previous ++ (new ++ more) =
            ap (λ w. w ++ more) grows ∙ append_assoc previous new more in
          let first =
            position-append (λ b. eq b value) given.1 more given.0
              (id_of-id_for value previous found refl) in
          let first_in : id_for (previous ++ (new ++ more)) value ≡ some given.0 =
            subst (λ w. id_for w value ≡ some given.0) whole first in
          let step : preserve_ids eq values previous (row ∷ rows)
              ≡ some (record row { id = given.0 } ∷ rows', given.1 ++ more) =
            simp (e, hit, gives) refl in
          (
            record row { id = given.0 } ∷ rows',
            new ++ more,
            step ∙ ap (λ w. some (record row { id = given.0 } ∷ rows', w)) whole,
            row_by_row row (record row { id = given.0 }) rows rows'
                (entry_kept value given.0 e hit refl
                  (id_for-stands (previous ++ (new ++ more)) value given.0 first_in) first_in
                  (kept_id previous (new ++ more) value given.0 first_in))
                (AreSame-earlier values previous (new ++ more) given.1 (previous ++ (new ++ more))
                  rows rows' refl (subst (λ w. AreSame values given.1 w rows rows') whole same)),
          )
    ]
