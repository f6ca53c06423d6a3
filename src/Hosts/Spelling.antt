-- ===== src/Hosts/Spelling.antt =====
-- A target is what was typed, and what a listing says to type is read as the session that it stands for.
use manymux.Hosts.{local_name, is_this_machine, qualified, same_machine, as_listed}
use manymux.Hosts.Target.{
  Named, session, group, Target, Result, ok, err, here, there, named_of, parse_named, parse_parts,
  parse, spell_named, spell,
}
use mathlib.Core.Path.{ap₂}
use manymux.Prelude.{
  or_true, ℕ, Bool, true, false, not, ◌&&◌, ◌||◌, [], ◌∷◌, ◌++◌, Option, none, some, Text, same,
  same_iff, same_refl, if◌then◌else◌, ◌≡◌, ◌≢◌, ◌↔◌, refl, sym, ap, ◌∙◌, Bool-cases, inl, inr, ◌==◌,
  arith,
}
use manymux.Std.Strings.{split_once, strip_prefix, head_to}
use manymux.Std.Strings.Fields.{Lacks, split_once-append}

split_once-some : (sep : ℕ) (s a b : Text) → split_once sep s ≡ some (a, b) → s ≡ a ++ sep ∷ b
unfolding split_once
split_once-some sep [] a b h = cc h
split_once-some sep (c ∷ s) a b h = elim (Bool-cases (c == sep)) [
  | inl e ↦
      let at : c ≡ sep = ground (arith, e) in
      let whole : some ([], s) ≡ some (a, b) = rw e at h in cc (at, whole)
  | inr e ↦ later (split_once sep s) refl (split_once-some sep s) (rw e at h)
]
  where
    later :
        (o : Option (Text × Text))
        → split_once sep s ≡ o
        → ((a b : Text) → split_once sep s ≡ some (a, b) → s ≡ a ++ sep ∷ b)
        → head_to c o ≡ some (a, b)
        → c ∷ s ≡ a ++ sep ∷ b
    later none q ih h = cc h
    later (some (a', b')) q ih h =
        let first : c ∷ a' ≡ a = cc h in
        let last : b' ≡ b = cc h in
        ap (◌∷◌ c) (ih a' b' q) ∙ ap₂ (λ (x y : Text). x ++ sep ∷ y) first last

spelled : (m n : Named) → ok m ≡ ok n → spell_named n ≡ spell_named m
spelled m n h = let at : n ≡ m = cc h in ap spell_named at

parse_named_ok : (text : Text) (n : Named) → parse_named text ≡ ok n → spell_named n ≡ text
unfolding parse_named named_of strip_prefix
parse_named_ok [] n h = spelled (session []) n h
parse_named_ok (c ∷ []) n h = elim (Bool-cases (b'@' == c)) [
  | inl e ↦ let bad = rw e at h in cc bad
  | inr e ↦ let good : ok (session (c ∷ [])) ≡ ok n = rw e at h in spelled _ n good
]
parse_named_ok (c ∷ d ∷ text) n h = elim (Bool-cases (b'@' == c)) [
  | inl e ↦
      let at : b'@' ≡ c = ground (arith, e) in
      let good : ok (group (d ∷ text)) ≡ ok n = rw e at h in
      spelled _ n good ∙ ap (λ x. x ∷ d ∷ text) at
  | inr e ↦ let good : ok (session (c ∷ d ∷ text)) ≡ ok n = rw e at h in spelled _ n good
]

-- A target that is read is spelled the way it was typed: no part of the text is passed over.
parse-spell : (text : Text) (t : Target) → parse text ≡ ok t → spell t.host t.at ≡ text
unfolding parse parse_parts here there
parse-spell text t h = parts (split_once b'/' text) refl h
  where
    one : (n : Result Named) → parse_named text ≡ n → here n ≡ ok t → spell t.host t.at ≡ text
    one (err e) q h = cc h
    one (ok at) q h =
        let whole : record { host = none; at = at } ≡ t = cc h in
        ap (λ (u : Target). spell u.host u.at) (sym whole) ∙ parse_named_ok text at q

    two :
        (a b : Text) (m n : Result Named)
        → parse_named a ≡ m
        → parse_named b ≡ n
        → text ≡ a ++ b'/' ∷ b
        → there m n ≡ ok t
        → spell t.host t.at ≡ text
    two a b (err e) n p q e' h = cc h
    two a b (ok host) (err e) p q e' h = cc h
    two a b (ok host) (ok at) p q e' h =
        let whole : record { host = some host; at = at } ≡ t = cc h in
        ap (λ (u : Target). spell u.host u.at) (sym whole)
        ∙ ap₂ (λ (x y : Text). x ++ b'/' ∷ y) (parse_named_ok a host p) (parse_named_ok b at q)
        ∙ sym e'

    parts :
        (o : Option (Text × Text))
        → split_once b'/' text ≡ o
        → parse_parts text o ≡ ok t
        → spell t.host t.at ≡ text
    parts none q h = one (parse_named text) refl h
    parts (some (a, b)) q h = elim (Bool-cases (not (same a []) && not (same b []))) [
      | inl e ↦
          two a b (parse_named a) (parse_named b) refl refl (split_once-some b'/' text a b q)
            (rw e at h)
      | inr e ↦ let bad = rw e at h in cc bad
    ]

-- What can stand for a name of its own: not empty, and no sigil in front.
abbrev pub IsPlain : Text → Type 0
IsPlain [] = ⊥
IsPlain (c ∷ name) = c ≢ b'@'

plain-parse : (name : Text) → IsPlain name → parse_named name ≡ ok (session name)
unfolding parse_named named_of strip_prefix
plain-parse [] h = absurd h
plain-parse (c ∷ name) h = rw (other c h) refl
  where
    other : (c : ℕ) → c ≢ b'@' → (b'@' == c) ≡ false
    other c ne = ground arith

plain-same : (name : Text) → IsPlain name → same name [] ≡ false
unfolding same
plain-same [] h = absurd h
plain-same (c ∷ name) h = refl

no_slash : (name : Text) → Lacks b'/' name → split_once b'/' name ≡ none
unfolding split_once
no_slash [] h = refl
no_slash (c ∷ name) h = ground (arith, no_slash name h.1)

module _ (this_machine : Text) where
  -- Where neither name is empty, begins with `@` or holds a `/`, what a listing says to type for a session
  -- is read as that session: on this machine by the bare name, and anywhere else behind the machine's.
  pub parse-qualified :
      (host name : Text)
      → IsPlain host
      → IsPlain name
      → Lacks b'/' host
      → Lacks b'/' name
      → parse (qualified this_machine host name)
        ≡ ok (record {
          host = if is_this_machine this_machine host then none else some (session host);
          at = session name;
        })
  unfolding parse parse_parts here there qualified
  parse-qualified host name ph pn lh ln = elim (Bool-cases (is_this_machine this_machine host)) [
    | inl e ↦ rw e (rw (no_slash name ln, parse_parts) (rw (plain-parse name pn) refl))
    | inr e ↦ rw e (
        rw (split_once-append b'/' host name lh, parse_parts)
          (rw (plain-same host ph, plain-same name pn, plain-parse host ph, plain-parse name pn)
            refl))
  ]

  -- Two names are the same machine exactly when a listing gives them the same name.
  pub same_machine-as_listed :
      (a b : Text)
      → (same_machine this_machine a b ≡ true)
        ↔ (as_listed this_machine a ≡ as_listed this_machine b)
  unfolding same_machine as_listed is_this_machine
  same_machine-as_listed a b = elim (Bool-cases (is_this_machine this_machine a)) [
    | inl e ↦ elim (Bool-cases (is_this_machine this_machine b)) [
      | inl f ↦ rw (e, f) (λ h. refl, λ h. or_true (same a b))
      | inr f ↦
          rw (e, f)
            (
              λ h. absurd (apart b a f e (sym ((same_iff a b).0 (left_true (same a b) h)))),
              λ h. absurd (named b f (sym h)),
            )
    ]
    | inr e ↦ elim (Bool-cases (is_this_machine this_machine b)) [
      | inl f ↦
          rw (e, f)
            (
              λ h. absurd (apart a b e f ((same_iff a b).0 (left_true (same a b) h))),
              λ h. absurd (named a e h),
            )
      | inr f ↦
          rw (e, f)
            (λ h. (same_iff a b).0 (left_true (same a b) h), λ h. rw ((same_iff a b).1 h) refl)
    ]
  ]
    where
      left_true : (x : Bool) → (x || false) ≡ true → x ≡ true
      left_true true h = refl
      left_true false h = h

      apart :
          (x y : Text)
          → is_this_machine this_machine x ≡ false
          → is_this_machine this_machine y ≡ true
          → x ≢ y
      apart x y f e at = let bad = rw at at f in cc (bad, e)

      named : (x : Text) → is_this_machine this_machine x ≡ false → x ≢ this_machine
      named x f at =
          let bad =
            rw (at, is_this_machine, same_refl this_machine, or_true (same this_machine local_name))
              at f in
          cc bad
