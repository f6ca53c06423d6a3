-- ===== src/Keys/Ends.antt =====
-- src/client/attach/keys.rs: the loop of `filter_at` comes to an end, and what it leaves as it was.
use manymux.Keys.{KeyFilter, Keystrokes}
use manymux.Keys.Filter.{Turn, again, over, filter_from, filter_at, finish_chunk}
use manymux.Keys.Steady.{Steady, Steady-refl, Steady-trans}
use manymux.Prelude.{ℕ, zero, suc, ◌-◌, ◌≤◌, [], ◌∷◌, Option, some, Bytes, length, ◌≡◌, refl, arith}
use manymux.Keys.Turns.{TurnFrom, goes_on, ended}
use manymux.Keys.Rounds.{turn-TurnFrom}

-- What a chunk comes to: the settings are as they were, less of the chunk is left than there was, and the
-- mode that is told is the one that the filter is in.
pub record Filtered (f : KeyFilter) (input : Bytes) (out : KeyFilter × Keystrokes) : Type 0 where
  pub steady_after : Steady f out.0
  pub shorter : length out.1.rest ≤ length input - 1
  pub mode_told : out.1.mode ≡ out.0.mode

step_from :
    (f : KeyFilter) (fuel : ℕ) (now b : ℕ) (r : Bytes) {t : Turn}
    → TurnFrom f (length r) t
    → length r ≤ fuel
    → ((g : KeyFilter) (forward left : Bytes)
        → length left ≤ fuel
        → (out : KeyFilter × Keystrokes) × (filter_from fuel g forward now left ≡ some out)
          × (Steady g out.0)
          × (length out.1.rest ≤ length left)
          × (out.1.mode ≡ out.0.mode))
    → (out : KeyFilter × Keystrokes) × ((elim t as (λ _. Option (KeyFilter × Keystrokes)) [
      | again g forward left ↦ filter_from fuel g forward now left
      | over g k ↦ some (g, k)
    ])
        ≡ some out)
      × (Steady f out.0)
      × (length out.1.rest ≤ length r)
      × (out.1.mode ≡ out.0.mode)
step_from f fuel now b r (goes_on {f' = g} forward left s l) h loop =
    let (out, e, t, m, k) = loop g forward left (omega arith) in
    (out, e, Steady-trans f g out.0 s t, omega arith, k)
step_from f fuel now b r (ended {f' = g} {k = k} s l m) h loop = ((g, k), refl, s, l, m)

filter_from-ends :
    (fuel : ℕ) (f : KeyFilter) (forward : Bytes) (now : ℕ) (input : Bytes)
    → length input ≤ fuel
    → (out : KeyFilter × Keystrokes) × (filter_from fuel f forward now input ≡ some out)
      × (Steady f out.0)
      × (length out.1.rest ≤ length input - 1)
      × (out.1.mode ≡ out.0.mode)
unfolding filter_from
filter_from-ends fuel f forward now [] h =
    ((f, finish_chunk f forward), refl, Steady-refl f, omega arith, refl)
filter_from-ends zero f forward now (b ∷ r) h = absurd (omega arith)
filter_from-ends (suc fuel) f forward now (b ∷ r) h =
    let (out, e, t, m, k) =
      step_from f fuel now b r (turn-TurnFrom f forward now b r) (omega arith) (λ g forward' left l.
        let (out, e, t, m, k) = filter_from-ends fuel g forward' now left l in
        (out, e, t, omega arith, k)) in
    (out, e, t, omega arith, k)

-- The filter comes to an end on every chunk, with every filter and at every time, and what it comes to
-- keeps the settings, leaves less than the whole chunk to read again, and tells the mode it is in.
pub filter_at-Filtered :
    (f : KeyFilter) (input : Bytes) (now : ℕ)
    → (out : KeyFilter × Keystrokes) × (filter_at f input now ≡ some out) × Filtered f input out
unfolding filter_at
filter_at-Filtered f input now =
    let (out, e, t, m, k) = filter_from-ends (length input) f [] now input (omega arith) in
    (out, e, record { steady_after = t; shorter = m; mode_told = k })
