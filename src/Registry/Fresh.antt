-- ===== src/Registry/Fresh.antt =====
-- src/node/registry.rs: a name that no session has.
use manymux.Prelude.{
  ℕ, zero, suc, ◌≤◌, ◌<◌, Bool, true, false, not, List, [], ◌∷◌, ◌++◌, Option, none, some, Text,
  codes, length, same, same_iff, if◌then◌else◌, ◌≡◌, ◌≢◌, refl, sym, ap, ◌∙◌, arith, Bool-cases,
  inl, inr, length-keep-le, ◌||◌,
}
use manymux.Registry.Entries.{contains_key, remove}
use manymux.Std.Decimal.{decimal}
use manymux.Std.Decimal.RoundTrip.{decimal-injective}

-- The first free one of `candidate n`, `candidate (n + 1)`, …, on fuel.
unfoldable pub first_free : (Text → Bool) → (ℕ → Text) → ℕ → ℕ → Option Text
first_free taken candidate zero n = none
first_free taken candidate (suc fuel) n =
    let rest = first_free taken candidate fuel (suc n) in
    if taken (candidate n) then rest else some (candidate n)

abbrev pub numbered : Text → ℕ → Text
numbered base n = base ++ (b'-' ∷ decimal n)

abbrev pub or_session : Text → Text
or_session [] = codes "session"
or_session (c ∷ base) = c ∷ base

unfoldable pub unique_name : Text → (Text → Bool) → ℕ → Option Text
unfolding first_free
unique_name base taken fuel =
    let base = or_session base in
    if not (taken base) then some base else first_free taken (numbered base) fuel 2

first_free-agree :
    (free_of other : Text → Bool) (candidate : ℕ → Text) (fuel n : ℕ)
    → ((i : ℕ) → n ≤ i → free_of (candidate i) ≡ other (candidate i))
    → first_free free_of candidate fuel n ≡ first_free other candidate fuel n
unfolding first_free
first_free-agree free_of other candidate zero n h = refl
first_free-agree free_of other candidate (suc fuel) n h =
    let more = first_free-agree free_of other candidate fuel (suc n) (λ i le. h i (omega arith)) in
    rw (h n (omega arith), more) refl

numbered-injective : (base : Text) (i j : ℕ) → numbered base i ≡ numbered base j → i ≡ j
numbered-injective [] i j e = decimal-injective i j (cc e)
numbered-injective (c ∷ base) i j e = numbered-injective base i j (cc e)

module _ {ℓ} {A : Type ℓ} where
  contains-remove :
      (name k : Text) (entries : List (Text × A))
      → name ≢ k
      → contains_key name (remove k entries) ≡ contains_key name entries
  unfolding contains_key remove
  contains-remove name k [] ne = refl
  contains-remove name k ((key, a) ∷ entries) ne = elim (Bool-cases (same k key)) [
    | inl e ↦
        let at : k ≡ key = (same_iff k key).0 e in
        rw (e, contains-remove name k entries ne, other key at) refl
    | inr e ↦ rw e (ap (λ b. same name key || b) (contains-remove name k entries ne))
  ]
    where
      other : (key : Text) → k ≡ key → same name key ≡ false
      other key at = elim (Bool-cases (same name key)) [
        | inl hit ↦ absurd (ne ((same_iff name key).0 hit ∙ sym at))
        | inr miss ↦ miss
      ]

  pub length-remove :
      (k : Text) (entries : List (Text × A))
      → contains_key k entries ≡ true
      → length (remove k entries) < length entries
  unfolding contains_key remove
  length-remove k [] h = cc
  length-remove k ((key, a) ∷ entries) h =
      let shorter = length-remove k entries in
      let le = length-keep-le (λ (e : Text × A). not (same k e.0)) entries in
      ground (arith, shorter, le)

  abbrev FreeFrom : List (Text × A) → (ℕ → Text) → ℕ → ℕ → ℕ → Type 0
  FreeFrom entries candidate fuel n i =
      (n ≤ i)
      × (first_free (λ c. contains_key c entries) candidate fuel n ≡ some (candidate i))
      × (contains_key (candidate i) entries ≡ false)

  first_free-some :
      (entries : List (Text × A)) (candidate : ℕ → Text) (fuel n : ℕ)
      → ((i j : ℕ) → candidate i ≡ candidate j → i ≡ j)
      → length entries < fuel
      → (i : ℕ) × FreeFrom entries candidate fuel n i
  unfolding first_free
  first_free-some entries candidate zero n distinct few = absurd (omega arith)
  first_free-some entries candidate (suc fuel) n distinct few =
      elim (Bool-cases (contains_key (candidate n) entries)) [
        | inr e ↦ (n, (omega arith, rw e refl, e))
        | inl e ↦
            let others = remove (candidate n) entries in
            let shorter = length-remove (candidate n) entries e in
            let (i, (le, found, isFree)) =
              first_free-some others candidate fuel (suc n) distinct (omega arith) in
            let same_there : (j : ℕ)
                → suc n ≤ j
                → contains_key (candidate j) others ≡ contains_key (candidate j) entries =
              λ j le.
                contains-remove (candidate j) (candidate n) entries
                  (λ at. let h = distinct j n at in omega (arith, h)) in
            (
              i,
              (
                omega arith,
                rw e (
                    sym (
                      first_free-agree (λ c. contains_key c others) (λ c. contains_key c entries)
                        candidate fuel (suc n) same_there)
                    ∙ found),
                sym (same_there i le) ∙ isFree,
              ),
            )
      ]

  -- A name is always found with as much fuel as there are sessions and one more, and no session has it.
  pub unique_name-some :
      (base : Text) (entries : List (Text × A))
      → (name : Text) × (unique_name base (λ n. contains_key n entries) (suc (length entries))
          ≡ some name)
        × (contains_key name entries ≡ false)
  unfolding unique_name
  unique_name-some base entries = elim (Bool-cases (contains_key (or_session base) entries)) [
    | inr e ↦ (or_session base, rw e refl, e)
    | inl e ↦
        let (i, (le, found, isFree)) =
          first_free-some entries (numbered (or_session base)) (suc (length entries)) 2
            (numbered-injective (or_session base)) (omega arith) in
        (numbered (or_session base) i, rw e found, isFree)
  ]
