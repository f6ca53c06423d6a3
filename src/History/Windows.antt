-- ===== src/History/Windows.antt =====
-- What a window holds, and how windows meet.
use mathlib.Core.Path.{ap₂}
use manymux.Prelude.{
  ℕ, zero, suc, ◌+◌, ◌-◌, ◌≤◌, ◌<◌, min, List, [], ◌∷◌, ◌++◌, ◌≡◌, refl, arith, ap, sym, ◌∙◌,
  length, length-take, length-drop, take, drop, map, map-append,
}
use manymux.Terminal.{Line}
use manymux.History.{ViewRequest, view_line, window}

length-map {ℓ κ} :
    {A : Type ℓ} {B : Type κ} (f : A → B) (xs : List A) → length (map f xs) ≡ length xs
length-map f [] = refl
length-map f (x ∷ xs) = ap suc (length-map f xs)

nothing {ℓ} : {A : Type ℓ} (m n : ℕ) → take {A = A} m [] ≡ take {A = A} n []
nothing zero zero = refl
nothing zero (suc n) = refl
nothing (suc m) zero = refl
nothing (suc m) (suc n) = refl

none_left {ℓ} : {A : Type ℓ} (n : ℕ) → [] ≡ drop {A = A} n []
none_left zero = refl
none_left (suc n) = refl

drop-drop {ℓ} : {A : Type ℓ} (m n : ℕ) (xs : List A) → drop n (drop m xs) ≡ drop (m + n) xs
drop-drop zero n xs = ap (λ k. drop k xs) (omega arith)
drop-drop (suc m) zero [] = none_left (suc m + 0)
drop-drop (suc m) (suc n) [] = none_left (suc m + suc n)
drop-drop (suc m) n (x ∷ xs) =
    let e : suc (m + n) ≡ suc m + n = omega arith in drop-drop m n xs ∙ ap (λ k. drop k (x ∷ xs)) e

take-append {ℓ} :
    {A : Type ℓ} (m n : ℕ) (xs : List A) → take m xs ++ take n (drop m xs) ≡ take (m + n) xs
take-append zero n xs = ap (λ k. take k xs) (omega arith)
take-append (suc m) n [] = nothing n (suc m + n)
take-append (suc m) n (x ∷ xs) =
    let e : suc (m + n) ≡ suc m + n = omega arith in
    ap (◌∷◌ x) (take-append m n xs) ∙ ap (λ k. take k (x ∷ xs)) e

-- A window is clamped into the buffer: it holds the lines that were asked for, counted up from the
-- one that its `from` names, or as many of them as there are.
pub length-window :
    (buffer : List Line) (printed : ℕ) (request : ViewRequest)
    → let view = window buffer printed request in
      (view.total ≡ length buffer)
      × (view.from ≤ request.from)
      × (length view.lines ≡ min request.lines (length buffer - view.from))
unfolding window
length-window buffer printed request =
    let n = length buffer in
    let from = min request.from (n - 1) in
    let top = n - from - request.lines in
    (
      refl,
      omega arith,
      omega (
        arith,
        length-map view_line (take (n - from - top) (drop top buffer)),
        length-take (n - from - top) (drop top buffer),
        length-drop top buffer,
      ),
    )

-- Two windows that meet are one: asked for the `n` lines up from `from` and for the `m` lines above
-- those, with the meeting point inside the buffer, a client has what one window of `m + n` lines
-- holds, in the same order.
window-append :
    (buffer : List Line) (printed from m n : ℕ)
    → from + n < length buffer
    → (window buffer printed (record { from = from + n; lines = m; printed = 0 })).lines
        ++ (window buffer printed (record { from = from; lines = n; printed = 0 })).lines
      ≡ (window buffer printed (record { from = from; lines = m + n; printed = 0 })).lines
unfolding window
window-append buffer printed from m n h =
    ap₂ (λ (a b : List Line). map view_line a ++ map view_line b) upper lower
    ∙ sym (map-append view_line (take k (drop top buffer)) (take n (drop k (drop top buffer))))
    ∙ ap (map view_line) (take-append k n (drop top buffer) ∙ whole)
  where
    total : ℕ
    total = length buffer

    top : ℕ
    top = total - (from + n) - m

    k : ℕ
    k = total - (from + n) - top

    upper :
        take
          (total - min (from + n) (total - 1) - (total - min (from + n) (total - 1) - m))
          (drop (total - min (from + n) (total - 1) - m) buffer)
        ≡ take k (drop top buffer)
    upper = ap₂ (λ (a b : ℕ). take a (drop b buffer)) (omega arith) (omega arith)

    lower :
        take
          (total - min from (total - 1) - (total - min from (total - 1) - n))
          (drop (total - min from (total - 1) - n) buffer)
        ≡ take n (drop k (drop top buffer))
    lower =
        ap₂ (λ (a b : ℕ). take a (drop b buffer)) (omega arith) (omega arith)
        ∙ ap (take n) (sym (drop-drop top k buffer))

    whole :
        take (k + n) (drop top buffer)
        ≡ take
            (total - min from (total - 1) - (total - min from (total - 1) - (m + n)))
            (drop (total - min from (total - 1) - (m + n)) buffer)
    whole = ap₂ (λ (a b : ℕ). take a (drop b buffer)) (omega arith) (omega arith)
