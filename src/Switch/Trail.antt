-- ===== src/Switch/Trail.antt =====
-- src/client/switch.rs: the trail, and what a listing does to the group that a run is narrowed to.
use manymux.Prelude.{
  Bool, true, false, not, ◌||◌, List, [], ◌∷◌, Option, some, Text, any, keep, map, ◌≡◌, refl, arith,
  inl, inr, Bool-cases, if◌then◌else◌, sym, ap, subst,
}
use manymux.Switch.{
  Located, Entry, Cycle, same_place, new_cycle, focus_on, refresh, moved_to, started, renamed_at,
  rename_place, forget, fall_back, fall_back_to, undo, undo_to, recent,
}
use manymux.Switch.Places.{same_place→eq, same_place_refl, same_place_sym}

abbrev pub is_among : Located → List Located → Bool
is_among at trail = any (λ x. same_place x at) trail

-- No address is there twice.
abbrev pub AreDistinct : List Located → Type 0
AreDistinct [] = Unit
AreDistinct (at ∷ trail) = (is_among at trail ≡ false) × AreDistinct trail

-- What happens to a cycle: `next` is never where the run is already, and no session it remembers has the
-- name that another is given.
pub data Happens (c : Cycle) : Cycle → Type 0 where
  focused : (group : Option Text) → Happens c (focus_on c group)
  listed : (sessions : List Entry) → Happens c (refresh c sessions)
  hopped : (next : Located) → same_place c.current next ≡ false → Happens c (moved_to c next)
  began : (next : Located) → same_place c.current next ≡ false → Happens c (started c next)
  named :
      (was : Located) (name : Text)
      → is_among (record was { session = name }) (recent c) ≡ false
      → Happens c (renamed_at c was name)
  fell_back : Happens c (fall_back c).1
  undone : Happens c (undo c)
  forgot : (gone : Located) → Happens c (forget c gone)

pub data Reachable : Cycle → Type 0 where
  starts : (current : Located) → Reachable (new_cycle current)
  happens : (c c' : Cycle) → Reachable c → Happens c c' → Reachable c'

among-keep :
    (at : Located) (p : Located → Bool) (trail : List Located)
    → is_among at trail ≡ false
    → is_among at (keep p trail) ≡ false
among-keep at p [] h = refl
among-keep at p (x ∷ trail) h = ground (arith, among-keep at p trail)

keep-AreDistinct :
    (p : Located → Bool) (trail : List Located) → AreDistinct trail → AreDistinct (keep p trail)
keep-AreDistinct p [] h = tt
keep-AreDistinct p (x ∷ trail) h =
    elim (p x) as (λ b. AreDistinct (if b then x ∷ keep p trail else keep p trail)) [
      | true ↦ (among-keep x p trail h.0, keep-AreDistinct p trail h.1)
      | false ↦ keep-AreDistinct p trail h.1
    ]

-- Of what is left without them there are none, and taking them out again changes nothing.
any-without {ℓ} :
    {A : Type ℓ} (p : A → Bool) (xs : List A) → any p (keep (λ x. not (p x)) xs) ≡ false
any-without p [] = refl
any-without p (x ∷ xs) = elim (Bool-cases (p x)) [
  | inl e ↦ ground (arith, any-without p xs)
  | inr e ↦ ground (arith, any-without p xs)
]

keep_again {ℓ} : {A : Type ℓ} (p : A → Bool) (xs : List A) → keep p (keep p xs) ≡ keep p xs
keep_again p [] = refl
keep_again p (x ∷ xs) = elim (Bool-cases (p x)) [
  | inl e ↦ rw (e, e, keep_again p xs) refl
  | inr e ↦ rw (e, keep_again p xs) refl
]

abbrev called : Located → Text → Located
called was name = record was { session = name }

rename_hit :
    (was : Located) (name : Text) (at : Located)
    → same_place at was ≡ true
    → rename_place was name at ≡ called was name
unfolding rename_place
rename_hit was name at h = rw h (ap (λ (x : Located). called x name) (same_place→eq at was h))

rename_miss :
    (was : Located) (name : Text) (at : Located)
    → same_place at was ≡ false
    → rename_place was name at ≡ at
unfolding rename_place
rename_miss was name at h = rw h refl

rename-apart :
    (was : Located) (name : Text) (at x : Located)
    → same_place x at ≡ false
    → same_place x (record was { session = name }) ≡ false
    → same_place at (record was { session = name }) ≡ false
    → same_place (rename_place was name x) (rename_place was name at) ≡ false
rename-apart was name at x h hx ha = elim (Bool-cases (same_place x was)) [
  | inl e ↦ elim (Bool-cases (same_place at was)) [
    | inl f ↦
        let there : x ≡ was = same_place→eq x was e in
        let here : at ≡ was = same_place→eq at was f in
        let one : same_place x at ≡ true = rw (there, here) (same_place_refl was) in cc
    | inr f ↦
        rw (rename_hit was name x e, rename_miss was name at f, same_place_sym (called was name) at)
          ha
  ]
  | inr e ↦ elim (Bool-cases (same_place at was)) [
    | inl f ↦ rw (rename_miss was name x e, rename_hit was name at f) hx
    | inr f ↦ rw (rename_miss was name x e, rename_miss was name at f) h
  ]
]

or-false : (a b : Bool) → (a || b) ≡ false → (a ≡ false) × (b ≡ false)
or-false a b h = ground arith

rename-among :
    (was : Located) (name : Text) (at : Located) (trail : List Located)
    → is_among at trail ≡ false
    → is_among (record was { session = name }) (at ∷ trail) ≡ false
    → is_among (rename_place was name at) (map (rename_place was name) trail) ≡ false
rename-among was name at [] h g = refl
rename-among was name at (x ∷ trail) h g =
    let (hx, ht) = or-false (same_place x at) (is_among at trail) h in
    let (ga, gr) =
      or-false (same_place at (called was name)) (is_among (called was name) (x ∷ trail)) g in
    let (gx, gt) =
      or-false (same_place x (called was name)) (is_among (called was name) trail) gr in
    let first = rename-apart was name at x hx gx ga in
    let rest = rename-among was name at trail ht (rw (ga, gt) refl) in rw (first, rest) refl

rename-AreDistinct :
    (was : Located) (name : Text) (trail : List Located)
    → AreDistinct trail
    → is_among (record was { session = name }) trail ≡ false
    → AreDistinct (map (rename_place was name) trail)
rename-AreDistinct was name [] d h = tt
rename-AreDistinct was name (x ∷ trail) d h =
    (rename-among was name x trail d.0 h, rename-AreDistinct was name trail d.1 (ground (arith, h)))

refresh_trail : (c : Cycle) (sessions : List Entry) → recent (refresh c sessions) ≡ recent c
unfolding refresh recent
refresh_trail c sessions = refl

fall_back-AreDistinct :
    (c : Cycle) (trail : List Located)
    → AreDistinct (recent c)
    → AreDistinct (c.current ∷ trail)
    → AreDistinct (recent (fall_back_to c trail).1)
unfolding recent fall_back_to forget
fall_back-AreDistinct c [] d e = d
fall_back-AreDistinct c (back ∷ trail) d e =
    (among-keep back _ trail e.1.0, keep-AreDistinct _ trail e.1.1)

undo-AreDistinct :
    (c : Cycle) (trail : List Located)
    → AreDistinct (recent c)
    → AreDistinct (c.current ∷ trail)
    → AreDistinct (recent (undo_to c trail))
unfolding recent undo_to
undo-AreDistinct c [] d e = d
undo-AreDistinct c (back ∷ trail) d e = e.1

moved_to-AreDistinct :
    (c : Cycle) (next : Located)
    → same_place c.current next ≡ false
    → AreDistinct (recent c)
    → AreDistinct (recent (moved_to c next))
unfolding recent moved_to
moved_to-AreDistinct c next apart d = (
  rw (apart, any-without (λ x. same_place x next) c.trail) refl,
  (among-keep c.current _ c.trail d.0, keep-AreDistinct _ c.trail d.1),
)

Happens-AreDistinct :
    (c c' : Cycle) → Happens c c' → AreDistinct (recent c) → AreDistinct (recent c')
unfolding recent
Happens-AreDistinct c c' (focused group) d = unfold focus_on in d
Happens-AreDistinct c c' (listed sessions) d = subst AreDistinct (sym (refresh_trail c sessions)) d
Happens-AreDistinct c c' (hopped next apart) d = moved_to-AreDistinct c next apart d
Happens-AreDistinct c c' (began next apart) d =
    unfold started in moved_to-AreDistinct c next apart d
Happens-AreDistinct c c' (named was name free) d =
    unfold renamed_at in rename-AreDistinct was name (c.current ∷ c.trail) d free
Happens-AreDistinct c c' fell_back d = unfold fall_back in fall_back-AreDistinct c c.trail d d
Happens-AreDistinct c c' undone d = unfold undo in undo-AreDistinct c c.trail d d
Happens-AreDistinct c c' (forgot gone) d =
    unfold forget in (among-keep c.current _ c.trail d.0, keep-AreDistinct _ c.trail d.1)

-- Over everything that can happen to a cycle, where no hop is to the session that the run is in and no session
-- is given a name that is remembered already, the session a run is in and those it has been in are all
-- different ones.
pub Reachable-AreDistinct : (c : Cycle) → Reachable c → AreDistinct (recent c)
Reachable-AreDistinct c (starts current) = unfold recent new_cycle in (refl, tt)
Reachable-AreDistinct c' (happens c _ r h) = Happens-AreDistinct c c' h (Reachable-AreDistinct c r)

-- Where a run goes to another session and that one ends, it is back where it was, and neither the listing nor
-- the trail has the one that ended. Where the hop could not be made, undoing it leaves the run where it was.
fall_back-moved_to :
    (c : Cycle) (next : Located)
    → ((fall_back (moved_to c next)).0 ≡ some c.current)
      × (recent (fall_back (moved_to c next)).1
          ≡ c.current ∷ keep (λ at. not (same_place at next)) c.trail)
      × (any (λ e. same_place e.at next) (fall_back (moved_to c next)).1.sessions ≡ false)
      × (recent (undo (moved_to c next))
          ≡ c.current ∷ keep (λ at. not (same_place at next)) c.trail)
unfolding fall_back fall_back_to moved_to forget recent undo undo_to
fall_back-moved_to c next = (
  refl,
  ap (◌∷◌ c.current) (keep_again _ c.trail),
  any-without (λ e. same_place e.at next) c.sessions,
  refl,
)
