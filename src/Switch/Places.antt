-- ===== src/Switch/Places.antt =====
-- src/client/switch.rs: addresses as names of sessions, and places in a list of them.
use manymux.Prelude.{
  ℕ, zero, suc, ◌+◌, ◌-◌, ◌<◌, Bool, true, false, List, [], ◌∷◌, Option, none, some, length,
  get_elem?, any, same_iff, ◌≡◌, refl, arith, inl, inr, Bool-cases, Text, ap, sym, subst, ◌∙◌,
  if◌then◌else◌, ◌==◌, same_refl, keep, ◌>>=◌,
}
use manymux.Switch.{Located, Entry, same_place, position, wrapped}
use mathlib.Core.Path.{ap₂}
use native.Mathlib.Nat.{mod-eq_of_lt, mod_self, add-mod_right}

pub same_place→eq : (a b : Located) → same_place a b ≡ true → a ≡ b
unfolding same_place
same_place→eq a b h =
    let host : a.host ≡ b.host = (same_iff a.host b.host).0 (ground (arith, h)) in
    let session : a.session ≡ b.session = (same_iff a.session b.session).0 (ground (arith, h)) in
    ap₂ (λ (x y : Text). record { host = x; session = y }) host session

pub same_place_refl : (a : Located) → same_place a a ≡ true
unfolding same_place
same_place_refl a = rw (same_refl a.host, same_refl a.session) refl

pub same_place_sym : (a b : Located) → same_place a b ≡ same_place b a
same_place_sym a b = elim (Bool-cases (same_place a b)) [
  | inl e ↦ let at : a ≡ b = same_place→eq a b e in rw at refl
  | inr e ↦ elim (Bool-cases (same_place b a)) [
    | inl f ↦ let at : b ≡ a = same_place→eq b a f in rw at refl
    | inr f ↦ e ∙ sym f
  ]
]

pub wrapped_next :
    (i n : ℕ) → i < n → wrapped true (some i) n ≡ some (if i + 1 == n then 0 else i + 1)
unfolding wrapped
wrapped_next i zero h = absurd (omega arith)
wrapped_next i (suc n) h = elim (Bool-cases (i + 1 == suc n)) [
  | inl e ↦ let at : i + 1 ≡ suc n = ground arith in rw (e, at, mod_self (suc n)) refl
  | inr e ↦ let less : i + 1 < suc n = ground arith in rw (e, mod-eq_of_lt less) refl
]

pub wrapped_previous :
    (i n : ℕ) → i < n → wrapped false (some i) n ≡ some (if i == 0 then n - 1 else i - 1)
unfolding wrapped
wrapped_previous i zero h = absurd (omega arith)
wrapped_previous zero (suc n) h =
    let at : 0 + suc n - 1 ≡ n = omega arith in
    let less : n < suc n = omega arith in
    let same : suc n - 1 ≡ n = omega arith in rw (at, mod-eq_of_lt less, same) refl
wrapped_previous (suc i) (suc n) h =
    let at : suc i + suc n - 1 ≡ i + suc n = omega arith in
    let less : i < suc n = omega arith in
    let more : (suc i == 0) ≡ false = ground arith in
    rw (at, add-mod_right i (suc n), mod-eq_of_lt less, more) (ap some (omega arith))

-- No two entries are one address.
abbrev pub IsOnce : List Entry → Type 0
IsOnce [] = Unit
IsOnce (e ∷ es) = (any (λ x. same_place x.at e.at) es ≡ false) × IsOnce es

any_at :
    (at : Located) (es : List Entry) (k : ℕ) (e : Entry)
    → get_elem? es k ≡ some e
    → any (λ x. same_place x.at at) es ≡ false
    → same_place e.at at ≡ false
any_at at [] k e h a = cc
any_at at (x ∷ es) zero e h a =
    let hit : x ≡ e = cc in subst (λ y. same_place y.at at ≡ false) hit (ground arith)
any_at at (x ∷ es) (suc k) e h a = any_at at es k e h (ground arith)

-- Where a session of the list is found.
pub position_at :
    (es : List Entry) (k : ℕ) (e : Entry)
    → IsOnce es
    → get_elem? es k ≡ some e
    → position (λ x. same_place x.at e.at) es ≡ some k
unfolding position
position_at [] k e o h = cc
position_at (x ∷ es) zero e o h = let hit : x ≡ e = cc in rw (hit, same_place_refl e.at) refl
position_at (x ∷ es) (suc k) e o h =
    let miss : same_place x.at e.at ≡ false = same_place_sym x.at e.at ∙ any_at x.at es k e h o.0 in
    rw (miss, position_at es k e o.1 h) refl

pub get_elem?-some {ℓ} :
    {A : Type ℓ} (xs : List A) (k : ℕ) → k < length xs → (x : A) × (get_elem? xs k ≡ some x)
get_elem?-some [] k h = absurd (omega arith)
get_elem?-some (x ∷ xs) zero h = (x, refl)
get_elem?-some (x ∷ xs) (suc k) h = get_elem?-some xs k (omega arith)

found-cons {ℓ} :
    {A : Type ℓ} (p : A → Bool) (y : A) (ys : List A) (k : ℕ) (x : A)
    → p y ≡ true
    → ((j : ℕ) → get_elem? ys j ≡ some x → p x ≡ true)
    → get_elem? (y ∷ ys) k ≡ some x
    → p x ≡ true
found-cons p y ys zero x e more h = let hit : y ≡ x = cc in subst (λ z. p z ≡ true) hit e
found-cons p y ys (suc k) x e more h = more k h

pub keep-get_elem? {ℓ} :
    {A : Type ℓ} (p : A → Bool) (xs : List A) (k : ℕ) (x : A)
    → get_elem? (keep p xs) k ≡ some x
    → p x ≡ true
keep-get_elem? p [] k x h = cc
keep-get_elem? p (y ∷ ys) k x h = elim (Bool-cases (p y)) [
  | inl e ↦
      found-cons p y (keep p ys) k x e (λ j g. keep-get_elem? p ys j x g)
        (subst (λ b. get_elem? (if b then y ∷ keep p ys else keep p ys) k ≡ some x) e h)
  | inr e ↦
      keep-get_elem? p ys k x
        (subst (λ b. get_elem? (if b then y ∷ keep p ys else keep p ys) k ≡ some x) e h)
]

abbrev shifted : Option ℕ → Option ℕ
shifted o = do i ← o; some (suc i)

abbrev IsFound {ℓ} : {A : Type ℓ} → (A → Bool) → List A → ℕ → Type ℓ
IsFound {A = A} p xs k = (x : A) × (get_elem? xs k ≡ some x) × (p x ≡ true)

IsFound-later {ℓ} :
    {A : Type ℓ} (p : A → Bool) (y : A) (ys : List A) (o : Option ℕ) (k : ℕ)
    → ((j : ℕ) → o ≡ some j → IsFound p ys j)
    → shifted o ≡ some k
    → IsFound p (y ∷ ys) k
IsFound-later p y ys none k more h = cc
IsFound-later p y ys (some j) zero more h = absurd (ground (arith, h))
IsFound-later p y ys (some j) (suc k) more h = more k (ground (arith, h))

-- What is found at the first place that passes a test passes it.
pub position-holds {ℓ} :
    {A : Type ℓ} (p : A → Bool) (xs : List A) (k : ℕ)
    → position p xs ≡ some k
    → (x : A) × (get_elem? xs k ≡ some x) × (p x ≡ true)
unfolding position
position-holds p [] k h = cc
position-holds p (y ∷ ys) k h = elim (Bool-cases (p y)) [
  | inl e ↦
      let at : some 0 ≡ some k =
        subst (λ b. (if b then some 0 else shifted (position p ys)) ≡ some k) e h in
      let zero_at : 0 ≡ k = cc in subst (λ i. IsFound p (y ∷ ys) i) zero_at (y, refl, e)
  | inr e ↦
      IsFound-later p y ys (position p ys) k (λ j. position-holds p ys j)
        (subst (λ b. (if b then some 0 else shifted (position p ys)) ≡ some k) e h)
]
