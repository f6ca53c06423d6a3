-- ===== src/Switch/Narrowed.antt =====
-- src/client/switch.rs: the group that a run is narrowed to and the session that it is in agree.
use manymux.Prelude.{
  Bool, true, false, not, ◌||◌, List, [], ◌∷◌, Option, none, some, Text, any, keep, first, ◌≡◌, ◌≢◌,
  refl, arith, inl, inr, Bool-cases, if◌then◌else◌, sym, subst,
}
use mathlib.Core.Option.{some-injective}
use manymux.Switch.{
  narrowed, Located, Entry, Cycle, same_place, refresh, in_group, has_left, visible, visible_in,
  holds,
}

-- The first session that passes a test is also among those that pass another.
first-among {ℓ} :
    {A : Type ℓ} (p q : A → Bool) (xs : List A) (found : A)
    → first p xs ≡ some found
    → q found ≡ true
    → any p (keep q xs) ≡ true
first-among p q [] found h g = cc
first-among p q (x ∷ xs) found h g = elim (Bool-cases (p x)) [
  | inl e ↦
      let same : x ≡ found =
        some-injective _ _ (subst (λ b. (if b then some x else first p xs) ≡ some found) e h) in
      let hit : q x ≡ true = rw same g in rw (hit, e) refl
  | inr e ↦
      let later =
        first-among p q xs found (subst (λ b. (if b then some x else first p xs) ≡ some found) e h)
          g in
      elim (Bool-cases (q x)) [ inl f ↦ rw (f, e) later | inr f ↦ rw f later ]
]

listed-first {ℓ} :
    {A : Type ℓ} (p : A → Bool) (xs : List A)
    → any p xs ≡ true
    → (found : A) × (first p xs ≡ some found)
listed-first p [] h = cc
listed-first p (x ∷ xs) h = elim (Bool-cases (p x)) [
  | inl e ↦ (x, rw e refl)
  | inr e ↦ let (found, at) = listed-first p xs (ground (arith, h)) in (found, rw e at)
]

any-keep {ℓ} : {A : Type ℓ} (p : A → Bool) (xs : List A) → any p xs ≡ true → keep p xs ≢ []
any-keep p [] h = cc
any-keep p (x ∷ xs) h = elim (Bool-cases (p x)) [
  | inl e ↦ rw e (λ g. cc)
  | inr e ↦ rw e (any-keep p xs (ground (arith, h)))
]

has_left-found :
    (sessions : List Entry) (current : Located) (group : Text) (found : Entry)
    → first (λ e. same_place e.at current) sessions ≡ some found
    → has_left sessions current group ≡ false
    → in_group group found ≡ true
unfolding has_left
has_left-found sessions current group found at h = ground arith

has_left-stays :
    (sessions : List Entry) (current : Located) (group : Text)
    → has_left sessions current group ≡ false
    → any (λ e. same_place e.at current) sessions ≡ true
    → any (λ e. same_place e.at current) (keep (in_group group) sessions) ≡ true
has_left-stays sessions current group h listed =
    let (found, at) = listed-first (λ e. same_place e.at current) sessions listed in
    first-among (λ e. same_place e.at current) (in_group group) sessions found at
      (has_left-found sessions current group found at h)

narrowed-some :
    (sessions : List Entry) (current : Located) (focus : Option Text) (group : Text)
    → narrowed sessions current focus ≡ some group
    → (any (in_group group) sessions ≡ true) × (has_left sessions current group ≡ false)
unfolding narrowed
narrowed-some sessions current none group h = cc
narrowed-some sessions current (some g) group h =
    let gives = not (any (in_group g) sessions) || has_left sessions current g in
    elim (Bool-cases gives) [
      | inl e ↦
          let no : none ≡ some group = subst (λ b. (if b then none else some g) ≡ some group) e h in
          cc
      | inr e ↦
          let at : g ≡ group =
            some-injective _ _ (subst (λ b. (if b then none else some g) ≡ some group) e h) in
          subst (λ w. (any (in_group w) sessions ≡ true) × (has_left sessions current w ≡ false)) at
            (ground (arith, e))
    ]

-- After a listing was taken, a group that the run is still narrowed to has a session to go to, and has the
-- session that the run is in wherever that one is listed at all.
pub refresh-agrees :
    (c : Cycle) (sessions : List Entry) (group : Text)
    → (refresh c sessions).focus ≡ some group
    → (visible (refresh c sessions) ≢ [])
      × (any (λ e. same_place e.at c.current) sessions ≡ true
          → holds (refresh c sessions) c.current ≡ true)
unfolding refresh visible holds visible_in
refresh-agrees c sessions group h =
    let (some_in, stays) = narrowed-some sessions c.current c.focus group h in
    (
      subst (λ o. visible_in sessions o ≢ []) (sym h) (any-keep (in_group group) sessions some_in),
      λ listed.
          subst (λ o. any (λ e. same_place e.at c.current) (visible_in sessions o) ≡ true) (sym h)
            (has_left-stays sessions c.current group stays listed),
    )
