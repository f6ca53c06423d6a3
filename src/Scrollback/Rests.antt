-- ===== src/Scrollback/Rests.antt =====
-- src/client/scroll.rs: a chase comes to rest, however long the history is and wherever the drag is held.
use manymux.Keys.{Spot}
use manymux.Prelude.{
  ℕ, zero, suc, ◌+◌, ◌-◌, ◌≤◌, ◌<◌, max, Bool, true, false, none, some, inl, inr, Option-cases, ltb,
  leb, if◌then◌else◌, ◌==◌, ◌≡◌, ◌≢◌, Bool-cases, refl, arith, ap, sym, subst, ◌∙◌, ◌⊎◌,
}
use manymux.Scrollback.{Scrollback, up, down, furthest, u64_max}
use manymux.Scrollback.Chasing.{Chased, chase, chase_at, held_to, pace, moved, stopped, full}
use manymux.Scrollback.Selecting.{select_to, at_an_edge, stop_chasing}

-- Whether the view is still moving after so many moves of a chase.
pub still_moving : ℕ → Scrollback → Bool
still_moving zero s = true
still_moving (suc n) s = elim (chase s).0 [
  | moved ↦ still_moving n (chase s).1
  | stopped ↦ false
  | full ↦ false
]

pace_pos : (n : ℕ) → 1 ≤ pace n
unfolding pace
pace_pos n = omega arith

-- How far the view can still go, up or down.
abbrev left_by : Bool → Scrollback → ℕ
left_by b s =
    if b then (if ltb (furthest s) s.offset then 1 else furthest s - s.offset) else s.offset

abbrev left_to_go : Spot → Scrollback → ℕ
left_to_go spot s = left_by (leb spot.row 1) s

held_to-moved :
    (t : Scrollback) (spot : Spot) → (held_to t spot).0 ≡ Chased.moved → (held_to t spot).1 ≡ t
unfolding held_to
held_to-moved t spot m = ground arith

record SameView (s t : Scrollback) : Type 0 where
  same_offset : t.offset ≡ s.offset
  same_total : t.total ≡ s.total
  same_rows : t.rows ≡ s.rows
  same_answered : t.answered ≡ s.answered

select_to-SameView : (s : Scrollback) (spot : Spot) → SameView s (select_to s spot)
unfolding select_to stop_chasing
select_to-SameView s spot = ground arith

left_to_go-SameView :
    (spot : Spot) (s t : Scrollback) → SameView s t → left_to_go spot t ≡ left_to_go spot s
left_to_go-SameView spot s t h = rw (h.same_offset, h.same_total, h.same_rows)

-- A view that has been answered, at an offset that a `u64` holds.
record IsTold (s : Scrollback) : Type 0 where
  told : s.answered ≡ true
  fits : s.offset ≤ u64_max

abbrev going : Bool → Scrollback → ℕ → Scrollback
going b s k = if b then up s k else down s k

going-less :
    (b : Bool) (s : Scrollback) (k : ℕ)
    → IsTold s
    → (going b s k).offset ≢ s.offset
    → left_by b (going b s k) < left_by b s
unfolding up down
going-less true s k a m = ground arith
going-less false s k a m = ground arith

going-IsTold : (b : Bool) (s : Scrollback) (k : ℕ) → IsTold s → IsTold (going b s k)
unfolding up down
going-IsTold true s k a = ground arith
going-IsTold false s k a = ground arith

chase_at-moved :
    (s : Scrollback) (spot : Spot)
    → (chase_at s spot).0 ≡ Chased.moved
    → ((going (leb spot.row 1) s (pace s.chased)).offset ≢ s.offset)
      × ((chase_at s spot).1 ≡ select_to (going (leb spot.row 1) s (pace s.chased)) spot)
unfolding chase_at
chase_at-moved s spot m = go (going (leb spot.row 1) s (pace s.chased)) m
  where
    go :
        (t : Scrollback)
        → (if t.offset == s.offset
            then (Chased.stopped, stop_chasing t)
            else held_to (select_to t spot) spot).0
          ≡ Chased.moved
        → (t.offset ≢ s.offset)
          × ((if t.offset == s.offset
                then (Chased.stopped, stop_chasing t)
                else held_to (select_to t spot) spot).1
              ≡ select_to t spot)
    go t m = ground (arith, held_to-moved (select_to t spot) spot)

IsTold-SameView : (s t : Scrollback) → SameView s t → IsTold s → IsTold t
IsTold-SameView s t v a = record { told = v.same_answered ∙ a.told; fits = rw v.same_offset a.fits }

-- A chase that goes on has less to go.
chase-less :
    (s : Scrollback) (spot : Spot)
    → IsTold s
    → (chase_at s spot).0 ≡ Chased.moved
    → (left_to_go spot (chase_at s spot).1 < left_to_go spot s) × IsTold (chase_at s spot).1
chase-less s spot a m =
    let (apart, same) = chase_at-moved s spot m in
    let t = going (leb spot.row 1) s (pace s.chased) in
    let view = select_to-SameView t spot in
    let told = going-IsTold (leb spot.row 1) s (pace s.chased) a in
    let less = going-less (leb spot.row 1) s (pace s.chased) a apart in
    let kept = left_to_go-SameView spot t (select_to t spot) view in
    (rw (same, kept) less, subst IsTold (sym same) (IsTold-SameView t (select_to t spot) view told))

chase_at-chasing :
    (s : Scrollback) (spot : Spot)
    → (chase_at s spot).0 ≡ Chased.moved
    → ((chase_at s spot).1.chasing ≡ some spot) ⊎ ((chase_at s spot).1.chasing ≡ none)
chase_at-chasing s spot m =
    subst (λ t. (t.chasing ≡ some spot) ⊎ (t.chasing ≡ none)) (sym (chase_at-moved s spot m).1)
      (select_to-chasing (going (leb spot.row 1) s (pace s.chased)) spot)
  where
    select_to-chasing :
        (t : Scrollback) (spot : Spot)
        → ((select_to t spot).chasing ≡ some spot) ⊎ ((select_to t spot).chasing ≡ none)
    select_to-chasing t spot =
        unfold select_to stop_chasing in
        elim (Bool-cases (at_an_edge t spot)) [
          | inl e ↦ inl (ground arith)
          | inr e ↦ inr (ground arith)
        ]

chase-some :
    (s : Scrollback) (spot : Spot)
    → s.chasing ≡ some spot
    → chase s ≡ chase_at (record s { chased = s.chased + 1 }) spot
unfolding chase
chase-some s spot e = ground arith

chase-none : (s : Scrollback) → s.chasing ≡ none → (chase s).0 ≡ Chased.stopped
unfolding chase
chase-none s e = ground arith

-- One move, by what it comes to.
abbrev moves_on : ℕ → Chased → Scrollback → Bool
moves_on n moved s = still_moving n s
moves_on n stopped s = false
moves_on n full s = false

still_moving-suc :
    (n : ℕ) (s : Scrollback) → still_moving (suc n) s ≡ moves_on n (chase s).0 (chase s).1
unfolding still_moving
still_moving-suc n s = ground arith

rests_none : (n : ℕ) (s : Scrollback) → s.chasing ≡ none → 1 ≤ n → still_moving n s ≡ false
rests_none zero s e h = absurd (omega arith)
rests_none (suc n) s e h =
    still_moving-suc n s ∙ ap (λ c. moves_on n c (chase s).1) (chase-none s e)

after_move :
    (n : ℕ) (c : Chased) (s : Scrollback)
    → (c ≡ Chased.moved → still_moving n s ≡ false)
    → moves_on n c s ≡ false
after_move n moved s h = h refl
after_move n stopped s h = refl
after_move n full s h = refl

rests :
    (n : ℕ) (s : Scrollback) (spot : Spot)
    → IsTold s
    → s.chasing ≡ some spot
    → left_to_go spot s < n
    → still_moving n s ≡ false
rests zero s spot a e h = absurd (omega arith)
rests (suc n) s spot a e h =
    let s' = record s { chased = s.chased + 1 } in
    let a' : IsTold s' = record { told = a.told; fits = a.fits } in
    still_moving-suc n s
    ∙ ap (λ (o : Chased × Scrollback). moves_on n o.0 o.1) (chase-some s spot e)
    ∙ after_move n (chase_at s' spot).0 (chase_at s' spot).1 (λ m.
      let (less, told) = chase-less s' spot a' m in
      elim (chase_at-chasing s' spot m) [
        | inl c ↦ rests n (chase_at s' spot).1 spot told c (omega arith)
        | inr c ↦ rests_none n (chase_at s' spot).1 c (omega arith)
      ])

-- Where the host has answered and the window is at a line that a `u64` counts, a drag that is held at an edge
-- comes to rest, wherever it is held: the view has stopped moving by itself within two moves more than there
-- are lines to the bottom, or to the oldest line, whichever is more.
pub chase_rests :
    (s : Scrollback) (n : ℕ)
    → s.answered ≡ true
    → s.offset ≤ u64_max
    → max s.offset (furthest s - s.offset) + 1 < n
    → still_moving n s ≡ false
chase_rests s n told fits h = elim (Option-cases s.chasing) [
  | inl e ↦ rests_none n s e (omega arith)
  | inr (spot, e) ↦ rests n s spot (record { told = told; fits = fits }) e (go (leb spot.row 1))
]
  where
    go : (b : Bool) → left_by b s < n
    go true = ground arith
    go false = omega arith
