-- ===== src/Groups/Membership.antt =====
-- In how many groups a session is, after each change.
use mathlib.Core.Path.{ap₂}
use manymux.Groups.{
  Member, Members, Groups, HostedSession, Assigned, assigned, refused, same_member, contains,
  insert_member, member_before, forget_the_empty, insert_into, retain, group_name, member_of, clear,
  assign, group_of, live_members, prune,
}
use manymux.Prelude.{
  and_false, and_true, ℕ, suc, Bool, true, false, not, ◌&&◌, ◌||◌, List, [], ◌∷◌, some, Text, any,
  keep, same, same_iff, same_refl, if◌then◌else◌, ◌==◌, ◌≡◌, refl, sym, ap, subst, ◌∙◌, arith,
  Bool-cases, inl, inr, if_holds,
}
use manymux.Registry.Order.{before}
use manymux.Session.{Info}

-- The number of groups that hold a member.
unfoldable pub times : Member → Groups → ℕ
times m [] = 0
times m ((name, ms) ∷ groups) =
    let rest = times m groups in if contains m ms then suc rest else rest

pub same_member→eq : (a b : Member) → same_member a b ≡ true → a ≡ b
unfolding same_member
same_member→eq a b h =
    let host : a.host ≡ b.host = (same_iff a.host b.host).0 (ground (arith, h)) in
    let pid : a.pid ≡ b.pid = ground (arith, h) in
    let started : a.started ≡ b.started = ground (arith, h) in
    ap₂ (λ (x : Text) (y : ℕ). record { host = x; pid = y; started = a.started }) host pid
    ∙ ap (λ (z : ℕ). record { host = b.host; pid = b.pid; started = z }) started

pub same_member_refl : (a : Member) → same_member a a ≡ true
unfolding same_member
same_member_refl a = rw (same_refl a.host) (ground arith)

pub contains-keep :
    (p : Member → Bool) (m : Member) (ms : Members)
    → contains m (keep p ms) ≡ (contains m ms && p m)
contains-keep p m [] = refl
contains-keep p m (n ∷ ms) = elim (Bool-cases (same_member m n)) [
  | inl e ↦
      let at : m ≡ n = same_member→eq m n e in
      elim (Bool-cases (p n)) [
        | inl f ↦ let f' = rw (← at) at f in rw (f, e) (sym f')
        | inr f ↦
            let f' = rw (← at) at f in
            rw (f, e) (contains-keep p m ms ∙ rw f' (and_false (contains m ms)))
      ]
  | inr e ↦ elim (Bool-cases (p n)) [
    | inl f ↦ rw (f, e) (contains-keep p m ms)
    | inr f ↦ rw (f, e) (contains-keep p m ms)
  ]
]

contains-insert_member :
    (m n : Member) (ms : Members)
    → contains m (insert_member n ms) ≡ (same_member m n || contains m ms)
unfolding insert_member
contains-insert_member m n [] = refl
contains-insert_member m n (k ∷ ms) = elim (Bool-cases (same_member n k)) [
  | inl e ↦
      let at : n ≡ k = same_member→eq n k e in
      rw e (rw at (twice (same_member m k) (contains m ms)))
  | inr e ↦ elim (Bool-cases (member_before n k)) [
    | inl f ↦ rw (e, f) refl
    | inr f ↦
        rw (e, f)
          (ap (λ b. same_member m k || b) (contains-insert_member m n ms)
            ∙ swap (same_member m k) (same_member m n) (contains m ms))
  ]
]
  where
    twice : (a b : Bool) → (a || b) ≡ (a || (a || b))
    twice true b = refl
    twice false b = refl

    swap : (a b c : Bool) → (a || (b || c)) ≡ (b || (a || c))
    swap true true c = refl
    swap true false c = refl
    swap false true c = refl
    swap false false c = refl

times-forget_the_empty :
    (m : Member) (groups : Groups) → times m (forget_the_empty groups) ≡ times m groups
unfolding forget_the_empty times
times-forget_the_empty m [] = refl
times-forget_the_empty m ((name, []) ∷ groups) = times-forget_the_empty m groups
times-forget_the_empty m ((name, n ∷ ms) ∷ groups) =
    ap (λ k. if contains m (n ∷ ms) then suc k else k) (times-forget_the_empty m groups)

times-retain :
    (p : Member → Bool) (m : Member) (groups : Groups)
    → times m (retain p groups) ≡ (if p m then times m groups else 0)
unfolding times
times-retain p m [] = if_holds (λ (k : ℕ). 0 ≡ k) (p m) refl refl
times-retain p m ((name, ms) ∷ groups) = elim (Bool-cases (p m)) [
  | inl e ↦ rw (contains-keep p m ms, times-retain p m groups, e, and_true (contains m ms)) refl
  | inr e ↦ rw (contains-keep p m ms, times-retain p m groups, e, and_false (contains m ms)) refl
]

times-insert_into :
    (name : Text) (m : Member) (groups : Groups)
    → times m groups ≡ 0
    → times m (insert_into name m groups) ≡ 1
unfolding insert_into times
times-insert_into name m [] none_yet = rw (same_member_refl m) refl
times-insert_into name m ((k, ms) ∷ groups) none_yet = elim (Bool-cases (contains m ms)) [
  | inl e ↦ let bad = rw e at none_yet in absurd (omega (arith, bad))
  | inr e ↦
      let later : times m groups ≡ 0 = rw e at none_yet in
      elim (Bool-cases (same name k)) [
        | inl f ↦ rw (f, contains-insert_member m m ms, same_member_refl m) (ap suc later)
        | inr f ↦ elim (Bool-cases (before name k)) [
          | inl g ↦ rw (f, g, same_member_refl m, e) (ap suc later)
          | inr g ↦ rw (f, g, e) (times-insert_into name m groups later)
        ]
      ]
]

times-insert_into_other :
    (name : Text) (m n : Member) (groups : Groups)
    → same_member n m ≡ false
    → times n (insert_into name m groups) ≡ times n groups
unfolding insert_into times
times-insert_into_other name m n [] apart = rw apart refl
times-insert_into_other name m n ((k, ms) ∷ groups) apart = elim (Bool-cases (same name k)) [
  | inl f ↦ rw (f, contains-insert_member n m ms, apart) refl
  | inr f ↦ elim (Bool-cases (before name k)) [
    | inl g ↦ rw (f, g, apart) refl
    | inr g ↦ rw (f, g, times-insert_into_other name m n groups apart) refl
  ]
]

module _ (this_machine : Text) where
  group_of-insert_into :
      (name : Text) (groups : Groups) (host : Text) (session : Info)
      → times (member_of this_machine host session) groups ≡ 0
      → group_of this_machine
          (insert_into name (member_of this_machine host session) groups)
          host
          session
        ≡ some name
  unfolding insert_into group_of times
  group_of-insert_into name [] host session none_yet =
      rw (same_member_refl (member_of this_machine host session)) refl
  group_of-insert_into name ((k, ms) ∷ groups) host session none_yet =
      elim (Bool-cases (contains (member_of this_machine host session) ms)) [
        | inl e ↦ let bad = rw e at none_yet in absurd (omega (arith, bad))
        | inr e ↦
            let m = member_of this_machine host session in
            let later : times m groups ≡ 0 = rw e at none_yet in
            elim (Bool-cases (same name k)) [
              | inl f ↦
                  rw (f, contains-insert_member m m ms, same_member_refl m)
                    (ap some (sym ((same_iff name k).0 f)))
              | inr f ↦ elim (Bool-cases (before name k)) [
                | inl g ↦ rw (f, g, same_member_refl m) refl
                | inr g ↦ rw (f, g, e) (group_of-insert_into name groups host session later)
              ]
            ]
      ]

  -- A session that is cleared is in no group, and every other one is in as many as before.
  pub times-clear :
      (m : Member) (groups : Groups) (host : Text) (session : Info)
      → times m (clear this_machine groups host session)
        ≡ (if same_member (member_of this_machine host session) m then 0 else times m groups)
  unfolding clear
  times-clear m groups host session =
      times-forget_the_empty m
        (retain (λ n. not (same_member (member_of this_machine host session) n)) groups)
      ∙ times-retain (λ n. not (same_member (member_of this_machine host session) n)) m groups
      ∙ flip (same_member (member_of this_machine host session) m) (times m groups)
    where
      flip : (b : Bool) (k : ℕ) → (if not b then k else 0) ≡ (if b then 0 else k)
      flip true k = refl
      flip false k = refl

  abbrev Moved : Groups → Text → Info → Member → Assigned → Type 0
  Moved groups host session other (refused why) = Unit
  Moved groups host session other (assigned name after) =
      (group_of this_machine after host session ≡ some name)
      × (times (member_of this_machine host session) after ≡ 1)
      × (times other after ≡ times other groups)

  -- Assigning moves one session: whatever groups it was in, it is in the one that it was assigned to
  -- and in no other, and every other session is in as many groups as before.
  pub assign-moves :
      (groups : Groups) (group : Text) (host : Text) (session : Info) (other : Member) {name : Text}
      {after : Groups}
      → assign this_machine groups group host session ≡ assigned name after
      → same_member (member_of this_machine host session) other ≡ false
      → (group_of this_machine after host session ≡ some name)
        × (times (member_of this_machine host session) after ≡ 1)
        × (times other after ≡ times other groups)
  unfolding assign
  assign-moves groups group host session other e apart = subst (Moved groups host session other) e (
      if_holds (Moved groups host session other) (same (group_name group) []) tt (
        if_holds (Moved groups host session other) (any (λ c. c == b'/') (group_name group)) tt
          moved))
    where
      m : Member
      m = member_of this_machine host session

      cleared : Groups
      cleared = clear this_machine groups host session

      gone : times m cleared ≡ 0
      gone = times-clear m groups host session ∙ rw (same_member_refl m) refl

      turned : same_member other m ≡ false
      turned = elim (Bool-cases (same_member other m)) [
        | inl hit ↦
            let at = same_member→eq other m hit in
            let back : same_member m other ≡ true = rw at (same_member_refl m) in cc (back, apart)
        | inr miss ↦ miss
      ]

      moved :
          Moved groups host session other
            (assigned (group_name group) (insert_into (group_name group) m cleared))
      moved = (
        group_of-insert_into (group_name group) cleared host session gone,
        times-insert_into (group_name group) m cleared gone,
        times-insert_into_other (group_name group) m other cleared turned
            ∙ times-clear other groups host session
            ∙ rw apart refl,
      )

  -- Pruning takes a session out of its groups exactly when its machine answered and did not list it.
  times-prune :
      (m : Member) (groups : Groups) (reached : List Text) (listing : List HostedSession)
      → times m (prune this_machine groups reached listing) ≡ (
          if not (any (same m.host) reached) || contains m (live_members this_machine listing)
          then times m groups
          else 0)
  unfolding prune
  times-prune m groups reached listing =
      times-forget_the_empty m (
        retain
          (λ n. not (any (same n.host) reached) || contains n (live_members this_machine listing))
          groups)
      ∙ times-retain
          (λ n. not (any (same n.host) reached) || contains n (live_members this_machine listing)) m
          groups
