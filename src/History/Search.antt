-- ===== src/History/Search.antt =====
-- What a search finds.
use mathlib.Core.List.{reverse, reverse-cons, reverse-reverse}
use manymux.Prelude.{
  ℕ, zero, suc, ◌+◌, ◌-◌, ◌≤◌, ◌<◌, Bool, false, ◌||◌, List, [], ◌∷◌, ◌++◌, some, Text, ◌≡◌, ◌≢◌,
  refl, arith, ap, ◌∙◌, ◌==◌, length, get_elem?, get_elem?_lt, any, Bool-cases, inl, inr,
}
use manymux.Terminal.{Line}
use manymux.History.{hits, matches, find}

abbrev pub has : ℕ → List ℕ → Bool
has o = any (λ n. n == o)

-- Each smaller than the one before, and all below the bound.
abbrev pub Falling : ℕ → List ℕ → Type 0
Falling bound [] = Unit
Falling bound (o ∷ os) = (o < bound) × Falling o os

Falling-mono : (m n : ℕ) (os : List ℕ) → m ≤ n → Falling m os → Falling n os
Falling-mono m n [] le h = tt
Falling-mono m n (o ∷ os) le h = (omega arith, h.1)

module _ (p : Line → Bool) (total : ℕ) where
  hits-Falling :
      (lines : List Line) (i : ℕ)
      → i + length lines ≤ total
      → Falling (total - i) (hits p total i lines)
  unfolding hits
  hits-Falling [] i fits = tt
  hits-Falling (line ∷ lines) i fits = elim (Bool-cases (p line)) [
    | inl e ↦ rw e (
      omega arith,
      Falling-mono (total - suc i) (total - 1 - i) _ (omega arith)
          (hits-Falling lines (suc i) (omega arith)),
    )
    | inr e ↦ rw e (
        Falling-mono (total - suc i) (total - i) _ (omega arith)
          (hits-Falling lines (suc i) (omega arith)))
  ]

  has-Falling : (o bound : ℕ) (os : List ℕ) → Falling bound os → bound ≤ o → has o os ≡ false
  has-Falling o bound [] h le = refl
  has-Falling o bound (x ∷ os) h le = ground (arith, has-Falling o x os h.1)

  has-hits :
      (lines : List Line) (i k o : ℕ) (line : Line)
      → i + length lines ≤ total
      → get_elem? lines k ≡ some line
      → o ≡ total - 1 - (i + k)
      → has o (hits p total i lines) ≡ p line
  unfolding hits
  has-hits [] i k o line fits e at_o = cc
  has-hits (x ∷ lines) i zero o line fits e at_o = ground (
    arith,
    has-Falling o (total - suc i) (hits p total (suc i) lines)
        (hits-Falling lines (suc i) (omega arith)),
  )
  has-hits (x ∷ lines) i (suc k) o line fits e at_o = ground (
    arith,
    get_elem?_lt k lines line e,
    has-hits lines (suc i) k o line (omega arith) e (omega arith),
  )

has-concat : (o x : ℕ) (os : List ℕ) → has o (os ++ x ∷ []) ≡ ((x == o) || has o os)
has-concat o x [] = refl
has-concat o x (y ∷ os) = ground (arith, has-concat o x os)

has-reverse : (o : ℕ) (os : List ℕ) → has o (reverse os) ≡ has o os
has-reverse o [] = refl
has-reverse o (x ∷ os) =
    ap (has o) (reverse-cons x os)
    ∙ has-concat o x (reverse os)
    ∙ ap (λ b. (x == o) || b) (has-reverse o os)

-- A search for a needle that is not empty lists the offset of a line, counted back from the newest,
-- exactly when the line matches; it lists nothing twice and nothing past the buffer, nearest the
-- bottom first: read from the far end the offsets fall.
find_lem :
    (lowercase : Text → Text) (buffer : List Line) (printed k : ℕ) (needle : Text) (line : Line)
    → needle ≢ []
    → get_elem? buffer k ≡ some line
    → (has (length buffer - 1 - k) (find lowercase buffer printed needle).lines
        ≡ matches lowercase needle line)
      × Falling (length buffer) (reverse (find lowercase buffer printed needle).lines)
unfolding find
find_lem lowercase buffer printed k [] line ne e = absurd (ne refl)
find_lem lowercase buffer printed k (c ∷ needle) line ne e =
    let total = length buffer in
    let p = matches lowercase (c ∷ needle) in
    (
      has-reverse (total - 1 - k) (hits p total 0 buffer)
          ∙ has-hits p total buffer 0 k (total - 1 - k) line (omega arith) e (omega arith),
      rw (reverse-reverse (hits p total 0 buffer)) (
          Falling-mono (total - 0) total (hits p total 0 buffer) (omega arith)
            (hits-Falling p total buffer 0 (omega arith))),
    )
