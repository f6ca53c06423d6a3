-- ===== src/Keys/Turns.antt =====
-- src/client/attach/keys.rs: how a round of the loop of `filter_at` ends, and the ways to such an end.
use manymux.Keys.{KeyFilter, Keystrokes, Action, Select, after}
use manymux.Keys.Filter.{Turn, finish, rest_after, after_key, after_mouse}
use manymux.Keys.Lengths.{wheel_run-le, drag_run-le}
use manymux.Keys.Mouse.{
  Report, Moused, mousing, mouse_wheel, mouse_drag, mouse_press, report_scroll, moved_off,
}
use manymux.Keys.Press.{Taken}
use manymux.Keys.Steady.{Steady, Steady-refl, Steady-trans, steady, TakenFrom}
use manymux.Prelude.{
  ℕ, ◌≤◌, not, ◌==◌, Option, none, some, Bytes, length, drop, if◌then◌else◌, ◌≡◌, refl, arith,
  if_holds,
}

-- How a round ends: with a filter that is steady and at most `n` bytes left.
pub data TurnFrom (f : KeyFilter) (n : ℕ) : Turn → Type 0 where
  goes_on :
      {f' : KeyFilter} (forward left : Bytes)
      → Steady f f'
      → length left ≤ n
      → TurnFrom f n (Turn.again f' forward left)
  ended :
      {f' : KeyFilter} {k : Keystrokes}
      → Steady f f'
      → length k.rest ≤ n
      → k.mode ≡ f'.mode
      → TurnFrom f n (Turn.over f' k)

pub finish-TurnFrom :
    (f g : KeyFilter) (n : ℕ) (forward : Bytes) (action : Action) (rest : Bytes)
    → Steady f g
    → length rest ≤ n
    → TurnFrom f n (finish g forward action rest)
unfolding finish
finish-TurnFrom f g n forward action rest s h =
    let done = record g { mode = after action g.mode } in
    ended (Steady-trans f g done s (steady g done (refl, refl, refl, refl) (λ b. b))) h refl

pub length-rest_after :
    (action : Action) (left : Bytes) → length (rest_after action left) ≤ length left
unfolding rest_after
length-rest_after action left = ground arith

pub after_key-TurnFrom :
    (f : KeyFilter) {t : Taken} (left : Bytes)
    → TakenFrom f t
    → TurnFrom f (length left) (after_key t left)
unfolding after_key
after_key-TurnFrom f left (TakenFrom.acted_on {f' = g} forward action s) =
    finish-TurnFrom f g _ forward action _ s (length-rest_after action left)
after_key-TurnFrom f left (TakenFrom.gone forward s) = goes_on forward left s (omega arith)

pub data MousedFrom (f : KeyFilter) (n : ℕ) : Moused → Type 0 where
  moused :
      (action : Option Action) {f' : KeyFilter} {left : Bytes}
      → Steady f f'
      → length left ≤ n
      → MousedFrom f n (action, f', left)

pub after_mouse-TurnFrom :
    (f : KeyFilter) (n : ℕ) {m : Moused} (forward : Bytes)
    → MousedFrom f n m
    → TurnFrom f n (after_mouse m forward)
unfolding after_mouse
after_mouse-TurnFrom f n forward (moused none {left = left} s h) = goes_on forward left s h
after_mouse-TurnFrom f n forward (moused (some action) {f' = g} {left = left} s h) =
    finish-TurnFrom f g n forward action left s h

pub mousing-MousedFrom :
    (f : KeyFilter) (first : Report) (now : ℕ) (input : Bytes)
    → MousedFrom f (length (drop first.len input)) (mousing f first now input)
unfolding mousing
mousing-MousedFrom f first now input =
    let left = drop first.len input in
    elim (report_scroll first)
      as (λ o. MousedFrom f (length left) (elim o [
        | some s ↦ mouse_wheel f s left
        | none ↦
            if not (first.button == 0)
            then (none, f, left)
            else if first.motion
            then mouse_drag f first left
            else if not first.press
            then (some (Action.select Select.done), f, left)
            else mouse_press f first now left
      ])) [
        | some s ↦ moused _ (Steady-refl f) (wheel_run-le _ 0 left)
        | none ↦
            if_holds (MousedFrom f (length left)) (not (first.button == 0))
              (moused none (Steady-refl f) (omega arith))
              (if_holds (MousedFrom f (length left)) first.motion
                (moused _ (steady f _ (refl, refl, refl, refl) (λ h. h))
                  (drag_run-le first.at (moved_off f.clicked first.at) 0 left))
                (if_holds (MousedFrom f (length left)) (not first.press)
                  (moused (some (Action.select Select.done)) (Steady-refl f) (omega arith))
                  (moused _ (steady f _ (refl, refl, refl, refl) (λ h. h)) (omega arith))))
      ]
