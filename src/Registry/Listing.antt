-- ===== src/Registry/Listing.antt =====
-- The order in which a listing shows the sessions.
use mathlib.Core.List.{Perm}
use mathlib.Core.List.Perm
use manymux.Prelude.{
  ℕ, ◌<◌, ◌⊎◌, ltb, true, false, List, [], ◌∷◌, Text, map, if_holds, ◌≡◌, arith, Bool-cases, inl,
  inr,
}
use manymux.Registry.{Registry, list, prune}
use manymux.Registry.Order.{before, earlier, insert_info, sort_infos}
use manymux.Session.{Info, Session, info}
use manymux.Terminal.{Terminal}

-- A name that is not later than another, as `str` compares them.
abbrev pub IsUpTo : Text → Text → Type 0
IsUpTo [] t = Unit
IsUpTo (c ∷ s) [] = ⊥
IsUpTo (c ∷ s) (d ∷ t) = (c < d) ⊎ ((c ≡ d) × IsUpTo s t)

before-IsUpTo : (s t : Text) → before s t ≡ true → IsUpTo s t
unfolding before
before-IsUpTo [] t h = tt
before-IsUpTo (c ∷ s) [] h = cc h
before-IsUpTo (c ∷ s) (d ∷ t) h = elim (Bool-cases (ltb c d)) [
  | inl e ↦ inl (ground arith)
  | inr e ↦ inr (ground (arith, h), before-IsUpTo s t (ground (arith, h)))
]

not_before-IsUpTo : (s t : Text) → before t s ≡ false → IsUpTo s t
unfolding before
not_before-IsUpTo [] t h = tt
not_before-IsUpTo (c ∷ s) [] h = cc h
not_before-IsUpTo (c ∷ s) (d ∷ t) h = elim (Bool-cases (ltb c d)) [
  | inl e ↦ inl (ground arith)
  | inr e ↦ inr (ground (arith, h), not_before-IsUpTo s t (ground (arith, h)))
]

-- Started earlier, or at the same instant and with a name that is not later.
abbrev pub IsShownBefore : Info → Info → Type 0
IsShownBefore a b = (a.started < b.started) ⊎ ((a.started ≡ b.started) × IsUpTo a.name b.name)

earlier-IsShownBefore : (a b : Info) → earlier a b ≡ true → IsShownBefore a b
unfolding earlier
earlier-IsShownBefore a b h = elim (Bool-cases (ltb a.started b.started)) [
  | inl e ↦ inl (ground arith)
  | inr e ↦ inr (ground (arith, h), before-IsUpTo a.name b.name (ground (arith, h)))
]

not_earlier-IsShownBefore : (a b : Info) → earlier b a ≡ false → IsShownBefore a b
unfolding earlier
not_earlier-IsShownBefore a b h = elim (Bool-cases (ltb a.started b.started)) [
  | inl e ↦ inl (ground arith)
  | inr e ↦ inr (ground (arith, h), not_before-IsUpTo a.name b.name (ground (arith, h)))
]

abbrev Leads : Info → List Info → Type 0
Leads a [] = Unit
Leads a (b ∷ infos) = IsShownBefore a b

-- Each is to be shown before the next.
abbrev pub IsOrdered : List Info → Type 0
IsOrdered [] = Unit
IsOrdered (a ∷ infos) = Leads a infos × IsOrdered infos

insert_info-Leads :
    (a b : Info) (infos : List Info)
    → IsShownBefore b a
    → Leads b infos
    → Leads b (insert_info a infos)
unfolding insert_info
insert_info-Leads a b [] later h = later
insert_info-Leads a b (c ∷ infos) later h = if_holds (Leads b) (earlier c a) h later

insert_info-IsOrdered :
    (a : Info) (infos : List Info) → IsOrdered infos → IsOrdered (insert_info a infos)
unfolding insert_info
insert_info-IsOrdered a [] h = (tt, tt)
insert_info-IsOrdered a (b ∷ infos) h = elim (Bool-cases (earlier b a)) [
  | inl e ↦ rw e (
    insert_info-Leads a b infos (earlier-IsShownBefore b a e) h.0,
    insert_info-IsOrdered a infos h.1,
  )
  | inr e ↦ rw e (not_earlier-IsShownBefore a b e, h)
]

insert_info-Perm : (a : Info) (infos : List Info) → Perm (insert_info a infos) (a ∷ infos)
unfolding insert_info
insert_info-Perm a [] = Perm.refl (a ∷ [])
insert_info-Perm a (b ∷ infos) =
    if_holds (λ (out : List Info). Perm out (a ∷ b ∷ infos)) (earlier b a)
      (Perm.trans (Perm.cons b (insert_info-Perm a infos)) (Perm.swap a b infos))
      (Perm.refl (a ∷ b ∷ infos))

sort_infos-IsOrdered : (infos : List Info) → IsOrdered (sort_infos infos)
unfolding sort_infos
sort_infos-IsOrdered [] = tt
sort_infos-IsOrdered (a ∷ infos) =
    insert_info-IsOrdered a (sort_infos infos) (sort_infos-IsOrdered infos)

sort_infos-Perm : (infos : List Info) → Perm (sort_infos infos) infos
unfolding sort_infos
sort_infos-Perm [] = Perm.nil
sort_infos-Perm (a ∷ infos) =
    Perm.trans (insert_info-Perm a (sort_infos infos)) (Perm.cons a (sort_infos-Perm infos))

module _ (T : Terminal) where
  open T use {Vt}

  -- A listing shows every live session once and nothing else, oldest first, and by name where two
  -- started at the same instant.
  pub list-IsOrdered :
      (r : Registry Vt) (now : ℕ)
      → IsOrdered (list T r now).0
        × Perm (list T r now).0 (map (λ e. info T e.1 now) (prune T r).sessions)
  unfolding list
  list-IsOrdered r now =
      let rows = map (λ (e : Text × Session Vt). info T e.1 now) (prune T r).sessions in
      (sort_infos-IsOrdered rows, sort_infos-Perm rows)
