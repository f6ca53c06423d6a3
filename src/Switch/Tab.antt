-- ===== src/Switch/Tab.antt =====
-- src/client/switch.rs: tab walks the sessions of a group, or of a machine, in a ring.
use mathlib.Core.Option.{some-injective}
use manymux.Keys.{Motion}
use manymux.Prelude.{
  ℕ, zero, suc, ◌+◌, ◌-◌, ◌<◌, ◌≤◌, Bool, true, false, List, Option, none, some, length, get_elem?,
  same, same_iff, ◌≡◌, refl, arith, inl, inr, Bool-cases, Text, ap, sym, subst, ◌∙◌, if◌then◌else◌,
  ◌==◌, not, get_elem?_lt, leb,
}
use manymux.Switch.{
  Located, Entry, Cycle, same_place, position, wrapped, here, here_in, visible, visible_in, walk,
  towards, step, moved_to,
}
use manymux.Switch.Places.{
  IsOnce, same_place→eq, wrapped_next, wrapped_previous, position_at, get_elem?-some,
  keep-get_elem?, position-holds, same_place_sym,
}

-- The session that the run is in stands at this place of the ring.
record IsAt (c : Cycle) (ring : List Entry) (i : ℕ) : Type 0 where
  rings : here c ≡ ring
  stands : Entry
  found : get_elem? ring i ≡ some stands
  is_current : stands.at ≡ c.current

walk_lem :
    (c : Cycle) (ring : List Entry) (i j : ℕ) (e : Entry) (forwards : Bool)
    → IsOnce ring
    → IsAt c ring i
    → wrapped forwards (some i) (length ring) ≡ some j
    → get_elem? ring j ≡ some e
    → walk c forwards ≡ some e.at
unfolding walk
walk_lem c ring i j e forwards once at to hit =
    let place : position (λ x. same_place x.at c.current) ring ≡ some i =
      subst (λ w. position (λ x. same_place x.at w) ring ≡ some i) at.is_current
        (position_at ring i at.stands once at.found) in
    rw (at.rings, place, to, hit) refl

-- The ring stays the same where one goes round it.
here-moved_to :
    (c : Cycle) (j : ℕ) (e : Entry)
    → get_elem? (here c) j ≡ some e
    → here (moved_to c e.at) ≡ here c
unfolding here moved_to visible
here-moved_to c j e h = go c.focus h
  where
    go :
        (focus : Option Text)
        → get_elem? (here_in focus c.current.host (visible_in c.sessions focus)) j ≡ some e
        → here_in focus e.at.host (visible_in c.sessions focus)
          ≡ here_in focus c.current.host (visible_in c.sessions focus)
    go none h =
        unfold here_in in
        let at : e.at.host ≡ c.current.host = (same_iff e.at.host c.current.host).0 (
          keep-get_elem? (λ x. same x.at.host c.current.host) (visible_in c.sessions none) j e h) in
        rw at refl
    go (some group) h = unfold here_in in refl

-- One step round the ring.
around : Bool → ℕ → ℕ → ℕ
around true i n = if i + 1 == n then 0 else i + 1
around false i n = if i == 0 then n - 1 else i - 1

wrapped-around :
    (forwards : Bool) (i n : ℕ) → i < n → wrapped forwards (some i) n ≡ some (around forwards i n)
unfolding around
wrapped-around true i n h = wrapped_next i n h
wrapped-around false i n h = wrapped_previous i n h

around-lt : (forwards : Bool) (i n : ℕ) → i < n → around forwards i n < n
unfolding around
around-lt true i n h = ground arith
around-lt false i n h = ground arith

around_back :
    (forwards : Bool) (i n : ℕ) → i < n → around (not forwards) (around forwards i n) n ≡ i
unfolding around
around_back true i n h = ground arith
around_back false i n h = ground arith

-- A step that is made lands on the next place of the ring.
walk-around :
    (c : Cycle) (ring : List Entry) (i : ℕ) (forwards : Bool)
    → IsOnce ring
    → IsAt c ring i
    → (e : Entry) × (get_elem? ring (around forwards i (length ring)) ≡ some e)
      × (walk c forwards ≡ some e.at)
      × (here (moved_to c e.at) ≡ ring)
walk-around c ring i forwards once at =
    let n = length ring in
    let within : i < n = omega (arith, get_elem?_lt i ring at.stands at.found) in
    let j = around forwards i n in
    let (e, hit) = get_elem?-some ring j (around-lt forwards i n within) in
    let to = walk_lem c ring i j e forwards once at (wrapped-around forwards i n within) hit in
    let kept = here-moved_to c j e (subst (λ r. get_elem? r j ≡ some e) (sym at.rings) hit) in
    (e, hit, to, kept ∙ at.rings)

-- The key of a direction.
abbrev pub tab : Bool → Motion
tab true = Motion.next
tab false = Motion.previous

towards-tab : (c : Cycle) (forwards : Bool) → towards c (tab forwards) ≡ walk c forwards
unfolding towards
towards-tab c true = refl
towards-tab c false = refl

step-walk :
    (c : Cycle) (forwards : Bool) (at : Located)
    → walk c forwards ≡ some at
    → same_place at c.current ≡ false
    → step c (tab forwards) ≡ some at
unfolding step
step-walk c forwards at h apart = rw (towards-tab c forwards, h, apart) refl

step-stays :
    (c : Cycle) (forwards : Bool) (at : Located)
    → walk c forwards ≡ some at
    → same_place at c.current ≡ true
    → step c (tab forwards) ≡ none
unfolding step
step-stays c forwards at h same = rw (towards-tab c forwards, h, same) refl

IsAt-position :
    (c : Cycle) (i : ℕ)
    → position (λ e. same_place e.at c.current) (here c) ≡ some i
    → IsAt c (here c) i
IsAt-position c i h =
    let (e, hit, same) = position-holds (λ x. same_place x.at c.current) (here c) i h in
    record { rings = refl; stands = e; found = hit; is_current = same_place→eq e.at c.current same }

-- Where a session is stood in, given that it is on the ring.
arrived :
    (c : Cycle) (ring : List Entry) (j : ℕ) (e : Entry)
    → get_elem? ring j ≡ some e
    → here (moved_to c e.at) ≡ ring
    → IsAt (moved_to c e.at) ring j
unfolding moved_to
arrived c ring j e hit kept = record { rings = kept; stands = e; found = hit; is_current = refl }

-- From the next place of the ring the other key comes back.
step_back :
    (c : Cycle) (ring : List Entry) (forwards : Bool) (i : ℕ) (e : Entry)
    → IsOnce ring
    → IsAt c ring i
    → get_elem? ring (around forwards i (length ring)) ≡ some e
    → here (moved_to c e.at) ≡ ring
    → same_place e.at c.current ≡ false
    → step (moved_to c e.at) (tab (not forwards)) ≡ some c.current
step_back c ring forwards i e once at hit kept apart =
    let n = length ring in
    let within : i < n = omega (arith, get_elem?_lt i ring at.stands at.found) in
    let j = around forwards i n in
    let (e', hit', to', kept') =
      walk-around (moved_to c e.at) ring j (not forwards) once (arrived c ring j e hit kept) in
    let came = around_back forwards i n within in
    let same_entry : at.stands ≡ e' =
      some-injective _ _ (sym at.found ∙ ap (λ k. get_elem? ring k) (sym came) ∙ hit') in
    let home : e'.at ≡ c.current = ap (λ (x : Entry). x.at) (sym same_entry) ∙ at.is_current in
    step-walk (moved_to c e.at) (not forwards) c.current (to' ∙ ap some home)
      (unfold moved_to in same_place_sym c.current e.at ∙ apart)

-- Where the session that the run is in is on the ring, and no session is there twice, tab and shift-tab take
-- each other back: where one of them goes to another session, the other comes back from there, whether the
-- ring is the machine's or the group's.
pub step-step_back :
    (c : Cycle) (forwards : Bool) (i : ℕ) (next : Located)
    → IsOnce (here c)
    → position (λ e. same_place e.at c.current) (here c) ≡ some i
    → step c (tab forwards) ≡ some next
    → step (moved_to c next) (tab (not forwards)) ≡ some c.current
step-step_back c forwards i next once placed h =
    let at = IsAt-position c i placed in
    let (e, hit, to, kept) = walk-around c (here c) i forwards once at in
    elim (Bool-cases (same_place e.at c.current)) [
      | inl stay ↦ let stays = step-stays c forwards e.at to stay in cc
      | inr apart ↦
          let hop = step-walk c forwards e.at to apart in
          let there : e.at ≡ next = cc in
          subst (λ w. step (moved_to c w) (tab (not forwards)) ≡ some c.current) there
            (step_back c (here c) forwards i e once at hit kept apart)
    ]

-- What a client does with a motion.
landed : Cycle → Option Located → Cycle
landed c none = c
landed c (some at) = moved_to c at

unfoldable pub hop : Cycle → Motion → Cycle
unfolding landed
hop c motion = landed c (step c motion)

unfoldable pub tabs : ℕ → Cycle → Cycle
unfolding hop
tabs zero c = c
tabs (suc k) c = tabs k (hop c Motion.next)

hop-IsAt :
    (c : Cycle) (ring : List Entry) (i : ℕ)
    → IsOnce ring
    → IsAt c ring i
    → IsAt (hop c Motion.next) ring (around true i (length ring))
unfolding hop landed
hop-IsAt c ring i once at =
    let (e, hit, to, kept) = walk-around c ring i true once at in
    elim (Bool-cases (same_place e.at c.current)) [
      | inl stay ↦
          let stays = step-stays c true e.at to stay in
          let stood : IsAt c ring (around true i (length ring)) = record {
            rings = at.rings;
            stands = e;
            found = hit;
            is_current = same_place→eq e.at c.current stay;
          } in
          subst (λ o. IsAt (landed c o) ring (around true i (length ring))) (sym stays) stood
      | inr apart ↦
          let goes = step-walk c true e.at to apart in
          subst (λ o. IsAt (landed c o) ring (around true i (length ring))) (sym goes)
            (arrived c ring (around true i (length ring)) e hit kept)
    ]

tabs_on :
    (k : ℕ) (c : Cycle) (ring : List Entry) (i : ℕ)
    → IsOnce ring
    → i + k < length ring
    → IsAt c ring i
    → IsAt (tabs k c) ring (i + k)
unfolding tabs around
tabs_on zero c ring i once h at = let same : i + 0 ≡ i = omega arith in rw same at
tabs_on (suc k) c ring i once h at =
    let next : around true i (length ring) ≡ i + 1 = ground arith in
    let shifts : i + suc k ≡ i + 1 + k = omega arith in
    rw shifts (
      tabs_on k (hop c Motion.next) ring (i + 1) once (omega arith)
        (subst (λ j. IsAt (hop c Motion.next) ring j) next (hop-IsAt c ring i once at)))

tabs-add : (a b : ℕ) (c : Cycle) → tabs (a + b) c ≡ tabs b (tabs a c)
unfolding tabs
tabs-add zero b c = let same : 0 + b ≡ b = omega arith in rw same refl
tabs-add (suc a) b c =
    let same : suc a + b ≡ suc (a + b) = omega arith in rw same (tabs-add a b (hop c Motion.next))

-- Over the end of the ring, back to its start.
tabs_over :
    (c : Cycle) (ring : List Entry) (i j : ℕ)
    → IsOnce ring
    → j < i
    → IsAt c ring i
    → i < length ring
    → IsAt (tabs (length ring - i + j) c) ring j
unfolding tabs around
tabs_over c ring i j once less at within =
    let n = length ring in
    let up_to = n - 1 - i in
    let last = tabs_on up_to c ring i once (omega arith) at in
    let start : around true (i + up_to) n ≡ 0 = ground arith in
    let first =
      subst (λ k. IsAt (hop (tabs up_to c) Motion.next) ring k) start
        (hop-IsAt (tabs up_to c) ring (i + up_to) once last) in
    let split : n - i + j ≡ up_to + suc j = omega arith in
    let none_added : 0 + j ≡ j = omega arith in
    rw (split, tabs-add up_to (suc j) c)
      (subst (λ k. IsAt (tabs j (hop (tabs up_to c) Motion.next)) ring k) none_added
        (tabs_on j (hop (tabs up_to c) Motion.next) ring 0 once (omega arith) first))

IsAt-current :
    (c : Cycle) (ring : List Entry) (j : ℕ) (e : Entry)
    → get_elem? ring j ≡ some e
    → IsAt c ring j
    → c.current ≡ e.at
IsAt-current c ring j e hit at =
    sym at.is_current ∙ ap (λ (x : Entry). x.at) (some-injective _ _ (sym at.found ∙ hit))

-- From a session that is on the ring, where no session is there twice, tab reaches every session of the ring
-- in fewer hops than the ring has sessions.
pub tabs_reach :
    (c : Cycle) (i j : ℕ) (e : Entry)
    → IsOnce (here c)
    → position (λ x. same_place x.at c.current) (here c) ≡ some i
    → get_elem? (here c) j ≡ some e
    → (k : ℕ) × (k < length (here c)) × ((tabs k c).current ≡ e.at)
tabs_reach c i j e once placed hit =
    let ring = here c in
    let at = IsAt-position c i placed in
    let within : i < length ring = omega (arith, get_elem?_lt i ring at.stands at.found) in
    let below : j < length ring = omega (arith, get_elem?_lt j ring e hit) in
    elim (Bool-cases (leb i j)) [
      | inl e' ↦
          let le : i ≤ j = ground arith in
          let sums : i + (j - i) ≡ j = omega arith in
          let there = tabs_on (j - i) c ring i once (omega arith) at in
          (
            j - i,
            omega arith,
            IsAt-current (tabs (j - i) c) ring j e hit
                (subst (λ k. IsAt (tabs (j - i) c) ring k) sums there),
          )
      | inr e' ↦
          let less : j < i = ground arith in
          let k = length ring - i + j in
          (
            k,
            omega arith,
            IsAt-current (tabs k c) ring j e hit (tabs_over c ring i j once less at within),
          )
    ]
