-- ===== src/Groups/Refresh.antt =====
-- What a late listing may take out of the groups.
use manymux.Groups.{
  Member, Members, Groups, HostedSession, contains, forget_the_empty, retain, lookup_group,
  retain_in, in_group, live_members, prune, refresh_groups, refresh,
}
use manymux.Groups.Membership.{contains-keep}
use manymux.Prelude.{
  and_true, or_false, Bool, true, false, not, ◌&&◌, ◌||◌, List, [], ◌∷◌, Option, Text, any, keep,
  same, same_iff, ◌≡◌, refl, sym, ap, ◌∙◌, arith, Bool-cases, inl, inr,
}
use manymux.Registry.Entries.{contains_key}
use manymux.Registry.Lookups.{Distinct}

-- Whether a group of that name holds the member.
unfoldable pub holds : Text → Member → Groups → Bool
holds name m [] = false
holds name m ((k, ms) ∷ groups) =
    let rest = holds name m groups in (same name k && contains m ms) || rest

holds_missing :
    (name : Text) (m : Member) (groups : Groups)
    → contains_key name groups ≡ false
    → holds name m groups ≡ false
unfolding holds contains_key
holds_missing name m [] h = refl
holds_missing name m ((k, ms) ∷ groups) h = ground (arith, holds_missing name m groups)

holds-forget_the_empty :
    (name : Text) (m : Member) (groups : Groups)
    → holds name m (forget_the_empty groups) ≡ holds name m groups
unfolding holds forget_the_empty
holds-forget_the_empty name m [] = refl
holds-forget_the_empty name m ((k, []) ∷ groups) =
    holds-forget_the_empty name m groups ∙ no (same name k)
  where
    no : (b : Bool) → holds name m groups ≡ ((b && false) || holds name m groups)
    no true = refl
    no false = refl
holds-forget_the_empty name m ((k, n ∷ ms) ∷ groups) =
    ap (λ b. (same name k && contains m (n ∷ ms)) || b) (holds-forget_the_empty name m groups)

holds-retain :
    (p : Member → Bool) (name : Text) (m : Member) (groups : Groups)
    → holds name m (retain p groups) ≡ (holds name m groups && p m)
unfolding holds
holds-retain p name m [] = refl
holds-retain p name m ((k, ms) ∷ groups) =
    rw (contains-keep p m ms, holds-retain p name m groups)
      (spread (same name k) (contains m ms) (holds name m groups) (p m))
  where
    spread : (a b c d : Bool) → ((a && (b && d)) || (c && d)) ≡ (((a && b) || c) && d)
    spread true true true true = refl
    spread true true true false = refl
    spread true true false true = refl
    spread true true false false = refl
    spread true false c d = refl
    spread false b c d = refl

contains_key-retain_in :
    (key name : Text) (p : Member → Bool) (groups : Groups)
    → contains_key key (retain_in name p groups) ≡ contains_key key groups
unfolding contains_key retain_in
contains_key-retain_in key name p [] = refl
contains_key-retain_in key name p ((k, ms) ∷ groups) = elim (Bool-cases (same name k)) [
  | inl e ↦ rw e refl
  | inr e ↦ rw (e, contains_key-retain_in key name p groups) refl
]

retain_in-Distinct :
    (name : Text) (p : Member → Bool) (groups : Groups)
    → Distinct groups
    → Distinct (retain_in name p groups)
unfolding retain_in
retain_in-Distinct name p [] h = tt
retain_in-Distinct name p ((k, ms) ∷ groups) h = elim (Bool-cases (same name k)) [
  | inl e ↦ rw e h
  | inr e ↦
      rw e (contains_key-retain_in k name p groups ∙ h.0, retain_in-Distinct name p groups h.1)
]

-- The group that is named loses the members that do not pass; the others stay as they are.
holds-retain_in :
    (key : Text) (p : Member → Bool) (name : Text) (m : Member) (groups : Groups)
    → Distinct groups
    → holds name m (retain_in key p groups) ≡ (holds name m groups && (not (same name key) || p m))
unfolding holds retain_in
holds-retain_in key p name m [] h = refl
holds-retain_in key p name m ((k, ms) ∷ groups) h = elim (Bool-cases (same key k)) [
  | inl e ↦
      let at : key ≡ k = (same_iff key k).0 e in
      elim (Bool-cases (same name k)) [
        | inl f ↦
            let named : name ≡ k = (same_iff name k).0 f in
            let rest : holds name m groups ≡ false = rw named (holds_missing k m groups h.0) in
            rw (e, at, f, rest, contains-keep p m ms) (one (contains m ms) (p m))
        | inr f ↦ rw (e, at, f) (two (holds name m groups) (p m))
      ]
  | inr e ↦
      let rest = holds-retain_in key p name m groups h.1 in
      elim (Bool-cases (same name k)) [
        | inl f ↦
            rw (e, f, rest, apart e ((same_iff name k).0 f))
              (three (contains m ms) (holds name m groups))
        | inr f ↦ rw (e, f, rest) refl
      ]
]
  where
    apart : same key k ≡ false → name ≡ k → same name key ≡ false
    apart e at = elim (Bool-cases (same name key)) [
      | inl hit ↦
          let met : key ≡ k = sym ((same_iff name key).0 hit) ∙ at in
          let full = (same_iff key k).1 met in cc (full, e)
      | inr miss ↦ miss
    ]

    three : (a b : Bool) → (a || (b && true)) ≡ ((a || b) && true)
    three true b = refl
    three false b = refl

    one : (a b : Bool) → ((a && b) || false) ≡ ((a || false) && b)
    one true true = refl
    one true false = refl
    one false b = refl

    two : (a b : Bool) → a ≡ (a && true)
    two true b = refl
    two false b = refl

abbrev kept_by : Members → Option Members → Member → Bool
kept_by previous survivors m = not (contains m previous) || in_group m survivors

holds-refresh_groups :
    (before survivors current : Groups) (name : Text) (m : Member)
    → Distinct before
    → Distinct current
    → holds name m (refresh_groups before survivors current) ≡ (
        holds name m current
        && (not (holds name m before) || in_group m (lookup_group name survivors)))
unfolding refresh_groups holds
holds-refresh_groups [] survivors current name m d c = sym (and_true (holds name m current))
holds-refresh_groups ((k, previous) ∷ before) survivors current name m d c =
    let p = kept_by previous (lookup_group k survivors) in
    let rest =
      holds-refresh_groups before survivors (retain_in k p current) name m d.1
        (retain_in-Distinct k p current c) in
    rest ∙ (rw (holds-retain_in k p name m current c) merged)
  where
    join :
        (h a l : Bool) → ((h && (not a || l)) && (not false || l)) ≡ (h && (not (a || false) || l))
    join true true true = refl
    join true true false = refl
    join true false true = refl
    join true false false = refl
    join false a l = refl

    drop_true : (h x : Bool) → ((h && true) && x) ≡ (h && x)
    drop_true true x = refl
    drop_true false x = refl

    merged :
        ((holds name m current
            && (not (same name k) || kept_by previous (lookup_group k survivors) m))
          && (not (holds name m before) || in_group m (lookup_group name survivors)))
        ≡ (holds name m current
            && (not ((same name k && contains m previous) || holds name m before)
                || in_group m (lookup_group name survivors)))
    merged = elim (Bool-cases (same name k)) [
      | inl e ↦
          let at : name ≡ k = (same_iff name k).0 e in
          let rest : holds k m before ≡ false = holds_missing k m before d.0 in
          rw e (
            rw at (
              rw rest (
                join (holds k m current) (contains m previous)
                  (in_group m (lookup_group k survivors)))))
      | inr e ↦ rw e (
          drop_true (holds name m current)
            (not (holds name m before) || in_group m (lookup_group name survivors)))
    ]

in_group-lookup :
    (name : Text) (m : Member) (groups : Groups)
    → Distinct groups
    → in_group m (lookup_group name groups) ≡ holds name m groups
unfolding holds
in_group-lookup name m [] d = refl
in_group-lookup name m ((k, ms) ∷ groups) d = elim (Bool-cases (same name k)) [
  | inl e ↦
      let at : name ≡ k = (same_iff name k).0 e in
      let rest : holds name m groups ≡ false = rw at (holds_missing k m groups d.0) in
      rw (e, rest) (sym (or_false (contains m ms)))
  | inr e ↦ rw e (in_group-lookup name m groups d.1)
]

contains_key-pruned :
    (key : Text) (p : Member → Bool) (groups : Groups)
    → contains_key key groups ≡ false
    → contains_key key (forget_the_empty (retain p groups)) ≡ false
unfolding contains_key forget_the_empty
contains_key-pruned key p [] h = refl
contains_key-pruned key p ((k, ms) ∷ groups) h =
    cut (keep p ms) (contains_key-pruned key p groups (ground (arith, h)))
  where
    cut :
        (kept : Members)
        → contains_key key (forget_the_empty (retain p groups)) ≡ false
        → contains_key key (forget_the_empty ((k, kept) ∷ retain p groups)) ≡ false
    cut [] rest = rest
    cut (n ∷ ns) rest = ground (arith, h, rest)

pruned-Distinct :
    (p : Member → Bool) (groups : Groups)
    → Distinct groups
    → Distinct (forget_the_empty (retain p groups))
unfolding forget_the_empty
pruned-Distinct p [] d = tt
pruned-Distinct p ((k, ms) ∷ groups) d = cut (keep p ms) (pruned-Distinct p groups d.1)
  where
    cut :
        (kept : Members)
        → Distinct (forget_the_empty (retain p groups))
        → Distinct (forget_the_empty ((k, kept) ∷ retain p groups))
    cut [] rest = rest
    cut (n ∷ ns) rest = (contains_key-pruned k p groups d.0, rest)

module _ (this_machine : Text) where
  abbrev pub kept : List Text → List HostedSession → Member → Bool
  kept reached listing m =
      not (any (same m.host) reached) || contains m (live_members this_machine listing)

  -- However late a listing is, a refresh takes a session out of a group of the file exactly when it was
  -- in that group before the hosts were asked, its machine answered, and it was not listed. Whatever
  -- was put there since is kept, and nothing is put back.
  pub holds-refresh :
      (current before : Groups) (reached : List Text) (listing : List HostedSession) (name : Text)
      (m : Member)
      → Distinct current
      → Distinct before
      → holds name m (refresh this_machine current before reached listing)
        ≡ (holds name m current && (not (holds name m before) || kept reached listing m))
  unfolding refresh prune
  holds-refresh current before reached listing name m c d =
      let p = kept reached listing in
      let survivors = forget_the_empty (retain p before) in
      holds-forget_the_empty name m (refresh_groups before survivors current)
      ∙ holds-refresh_groups before survivors current name m d c
      ∙ ap (λ b. holds name m current && (not (holds name m before) || b))
          (in_group-lookup name m survivors (pruned-Distinct p before d)
            ∙ holds-forget_the_empty name m (retain p before)
            ∙ holds-retain p name m before)
      ∙ absorb (holds name m current) (holds name m before) (p m)
    where
      absorb : (a b c : Bool) → (a && (not b || (b && c))) ≡ (a && (not b || c))
      absorb true true c = refl
      absorb true false c = refl
      absorb false b c = refl
