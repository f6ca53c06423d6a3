-- ===== src/Picker/Rows.antt =====
-- src/client/picker.rs: the row that is highlighted is never a heading.
use manymux.Prelude.{
  ℕ, zero, suc, ◌+◌, ◌-◌, ◌%◌, ◌<◌, Bool, true, false, not, ◌&&◌, ◌||◌, List, Option, none, some,
  Text, length, get_elem?, ◌==◌, has_some, unwrap_or, ◌>>=◌, ◌≡◌, refl, ◌⊎◌, inl, inr, Bool-cases,
  arith, subst, if◌then◌else◌,
}
use mathlib.Core.Option.{some-injective}
use manymux.Picker.{
  Picker, Row, landable, first_row, index_of, new_picker, rebuild, search, replace, point_at, step,
  step_from, land_at, heading_from, next_heading, filtered, is_heading, or_else, starts_a_run,
}
use manymux.Switch.{wrapped}
use manymux.Switch.Places.{position-holds, get_elem?-some}

-- The highlight is on a row that can be landed on, unless there is none.
unfoldable pub AreHighlit : List Row → ℕ → Type 0
AreHighlit rows at = (has_some (landable rows at) ≡ true) ⊎ (first_row rows ≡ none)

landable_row :
    (rows : List Row) (i : ℕ) (row : Row)
    → get_elem? rows i ≡ some row
    → row.heading ≡ false
    → has_some (landable rows i) ≡ true
unfolding landable
landable_row rows i row h e = rw (h, e) refl

first_row-lem :
    (rows : List Row) (i : ℕ) → first_row rows ≡ some i → has_some (landable rows i) ≡ true
unfolding first_row
first_row-lem rows i h =
    let (row, hit, lands) = position-holds (λ row. not row.heading) rows i h in
    landable_row rows i row hit (ground (arith, lands))

index_of-lem :
    (rows : List Row) (id i : ℕ) → index_of rows id ≡ some i → has_some (landable rows i) ≡ true
unfolding index_of
index_of-lem rows id i h =
    let (row, hit, lands) = position-holds (λ row. row.id == id && not row.heading) rows i h in
    landable_row rows i row hit (ground (arith, lands))

-- A row that a choice comes to, where it comes to one.
abbrev pub Lands : List Row → Option ℕ → Type 0
Lands rows choice = (i : ℕ) → choice ≡ some i → has_some (landable rows i) ≡ true

by_id-Lands : (rows : List Row) (id : Option ℕ) → Lands rows (do i ← id; index_of rows i)
by_id-Lands rows none i h = cc
by_id-Lands rows (some id) i h = index_of-lem rows id i h

or_else-Lands :
    (rows : List Row) (a b : Option ℕ) → Lands rows a → Lands rows b → Lands rows (or_else a b)
or_else-Lands rows none b ha hb i h = hb i h
or_else-Lands rows (some x) b ha hb i h = ha i h

or_else-none : (a b : Option ℕ) → or_else a b ≡ none → b ≡ none
or_else-none none b h = h
or_else-none (some x) b h = cc

chosen-AreHighlit :
    (rows : List Row) (choice : Option ℕ)
    → Lands rows choice
    → (choice ≡ none → first_row rows ≡ none)
    → AreHighlit rows (unwrap_or 0 choice)
unfolding AreHighlit
chosen-AreHighlit rows none lands otherwise = inr (otherwise refl)
chosen-AreHighlit rows (some i) lands otherwise = inl (lands i refl)

-- A round that tries one row and goes on.
abbrev tried : Bool → ℕ → Option ℕ → Option ℕ
tried b k further = if b then some k else further

tried-Lands :
    (rows : List Row) (b : Bool) (k : ℕ) (further : Option ℕ)
    → (b ≡ true → has_some (landable rows k) ≡ true)
    → Lands rows further
    → Lands rows (tried b k further)
tried-Lands rows true k further here more i h =
    let at : k ≡ i = some-injective _ _ h in
    subst (λ j. has_some (landable rows j) ≡ true) at (here refl)
tried-Lands rows false k further here more i h = more i h

step_from-Lands :
    (n : ℕ) (forwards : Bool) (rows : List Row) (next : ℕ)
    → Lands rows (step_from n forwards rows next)
unfolding step_from
step_from-Lands zero forwards rows next = λ i h. cc
step_from-Lands (suc n) forwards rows next =
    go (wrapped forwards (some next) (length rows)) (λ k. step_from-Lands n forwards rows k)
  where
    go :
        (w : Option ℕ)
        → ((k : ℕ) → Lands rows (step_from n forwards rows k))
        → Lands rows (do
          stepped ← w
          let further = step_from n forwards rows stepped
          if has_some (landable rows stepped) then some stepped else further)
    go none more = λ i h. cc
    go (some k) more =
        tried-Lands rows (has_some (landable rows k)) k (step_from n forwards rows k) (λ e. e)
          (more k)

wrapped-lt : (forwards : Bool) (i n j : ℕ) → wrapped forwards (some i) n ≡ some j → j < n
unfolding wrapped
wrapped-lt forwards i zero j h = cc
wrapped-lt true i (suc n) j h =
    let at : (i + 1) % suc n ≡ j = some-injective _ _ h in subst (λ k. k < suc n) at (omega arith)
wrapped-lt false i (suc n) j h =
    let at : (i + suc n - 1) % suc n ≡ j = some-injective _ _ h in
    subst (λ k. k < suc n) at (omega arith)

no_heading :
    (rows : List Row) (k : ℕ) (row : Row)
    → get_elem? rows k ≡ some row
    → is_heading rows k ≡ false
    → row.heading ≡ false
unfolding is_heading
no_heading rows k row hit e = ground arith

not_heading-lem :
    (rows : List Row) (k : ℕ)
    → k < length rows
    → is_heading rows k ≡ false
    → has_some (landable rows k) ≡ true
not_heading-lem rows k h e =
    let (row, hit) = get_elem?-some rows k h in
    landable_row rows k row hit (no_heading rows k row hit e)

heading_from-Lands :
    (n : ℕ) (forwards : Bool) (rows : List Row) (seen : Bool) (next : ℕ)
    → Lands rows (heading_from n forwards rows seen next)
unfolding heading_from
heading_from-Lands zero forwards rows seen next = λ i h. cc
heading_from-Lands (suc n) forwards rows seen next =
    go (wrapped forwards (some next) (length rows)) refl
      (λ b k. heading_from-Lands n forwards rows b k)
  where
    go :
        (w : Option ℕ)
        → wrapped forwards (some next) (length rows) ≡ w
        → ((b : Bool) (k : ℕ) → Lands rows (heading_from n forwards rows b k))
        → Lands rows (do
          stepped ← w
          let under = heading_from n forwards rows true stepped
          let further = heading_from n forwards rows seen stepped
          if is_heading rows stepped
              then under
              else if seen && (forwards || starts_a_run rows stepped)
              then some stepped
              else further)
    go none to more = λ i h. cc
    go (some k) to more = elim (Bool-cases (is_heading rows k)) [
      | inl e ↦ rw e (more true k)
      | inr e ↦ rw e (
          tried-Lands rows (seen && (forwards || starts_a_run rows k)) k
            (heading_from n forwards rows seen k)
            (λ g. not_heading-lem rows k (wrapped-lt forwards next (length rows) k to) e)
            (more seen k))
    ]

land_at-AreHighlit :
    (p : Picker) (choice : Option ℕ)
    → Lands p.rows choice
    → AreHighlit p.rows p.at
    → AreHighlit (land_at p choice).rows (land_at p choice).at
unfolding land_at AreHighlit
land_at-AreHighlit p none lands h = h
land_at-AreHighlit p (some i) lands h = inl (lands i refl)

new_picker-AreHighlit :
    (title hints : Text) (rows : List Row) (at : ℕ)
    → AreHighlit (new_picker title hints rows at).rows (new_picker title hints rows at).at
unfolding new_picker
new_picker-AreHighlit title hints rows at = elim (Bool-cases (has_some (landable rows at))) [
  | inl e ↦ rw e (unfold AreHighlit in inl e)
  | inr e ↦ rw e (chosen-AreHighlit rows (first_row rows) (λ i h. first_row-lem rows i h) (λ h. h))
]

module _ (to_lowercase : Text → Text) where
  -- What happens to a picker.
  pub data Happens (p : Picker) : Picker → Type 0 where
    searched : (query : Text) → Happens p (search to_lowercase p query)
    replaced : (rows : List Row) (at : ℕ) → Happens p (replace to_lowercase p rows at)
    stepped : (forwards : Bool) → Happens p (step p forwards)
    headed : (forwards : Bool) → Happens p (next_heading p forwards)
    pointed : (id : ℕ) → Happens p (point_at p id)

  pub data Reachable : Picker → Type 0 where
    starts :
        (title hints : Text) (rows : List Row) (at : ℕ) → Reachable (new_picker title hints rows at)
    happens : (p q : Picker) → Reachable p → Happens p q → Reachable q

  rebuild-AreHighlit :
      (p : Picker) (was at : Option ℕ)
      → AreHighlit (rebuild to_lowercase p was at).rows (rebuild to_lowercase p was at).at
  unfolding rebuild
  rebuild-AreHighlit p was at =
      let rows = filtered to_lowercase p.source p.query in
      chosen-AreHighlit rows _
        (or_else-Lands rows _ _ (by_id-Lands rows was)
          (or_else-Lands rows _ _ (by_id-Lands rows _) (λ i h. first_row-lem rows i h)))
        (λ h. or_else-none _ _ (or_else-none _ _ h))

  Happens-AreHighlit :
      (p q : Picker) → Happens p q → AreHighlit p.rows p.at → AreHighlit q.rows q.at
  Happens-AreHighlit p q (searched query) h =
      unfold search in rebuild-AreHighlit (record p { query = query }) _ none
  Happens-AreHighlit p q (replaced rows at) h =
      unfold replace in rebuild-AreHighlit (record p { source = rows }) _ (some at)
  Happens-AreHighlit p q (stepped forwards) h =
      unfold step in
      land_at-AreHighlit p (step_from (length p.rows) forwards p.rows p.at)
        (step_from-Lands (length p.rows) forwards p.rows p.at) h
  Happens-AreHighlit p q (headed forwards) h =
      unfold next_heading in
      land_at-AreHighlit p (heading_from (length p.rows) forwards p.rows false p.at)
        (heading_from-Lands (length p.rows) forwards p.rows false p.at) h
  Happens-AreHighlit p q (pointed id) h =
      unfold point_at in
      land_at-AreHighlit p (index_of p.rows id) (λ i e. index_of-lem p.rows id i e) h

  -- Whatever happens to a picker, the row that is highlighted can be landed on, unless none of its rows can.
  pub Reachable-AreHighlit : (p : Picker) → Reachable p → AreHighlit p.rows p.at
  Reachable-AreHighlit p (starts title hints rows at) = new_picker-AreHighlit title hints rows at
  Reachable-AreHighlit p (happens q _ r h) = Happens-AreHighlit q p h (Reachable-AreHighlit q r)
