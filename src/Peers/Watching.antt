-- ===== src/Peers/Watching.antt =====
-- Which machines are watched, and when one is given up on.
use manymux.Peers.{
  Peers, Watcher, Watched, gave_up, waiting, continue, is_wanted, watched, sync, watching,
  watch_hosts, watch_peers, rewatch, turn, retry_after, watch, one_more, steady,
}
use manymux.Prelude.{
  or_false, or_true, and_false, ℕ, zero, suc, ◌+◌, ◌≤◌, ◌<◌, Bool, true, false, not, ◌&&◌, ◌||◌,
  List, [], ◌∷◌, ◌++◌, Option, none, some, Text, keep, same, same_iff, same_refl, length, leb,
  if◌then◌else◌, ◌≡◌, ◌≢◌, refl, sym, ap, ◌∙◌, arith, All, Bool-cases, inl, inr,
}
use manymux.Registry.Entries.{lookup}
use manymux.Registry.Lookups.{lookup-insert, lookup-insert_other}

lookup-keep :
    (host : Text) (wanted : List Text) (peers : Peers)
    → lookup host (keep (λ (e : Text × Watcher). is_wanted e.0 wanted) peers)
      ≡ (if is_wanted host wanted then lookup host peers else none)
unfolding lookup
lookup-keep host wanted [] = elim (Bool-cases (is_wanted host wanted)) [
  | inl e ↦ rw e refl
  | inr e ↦ rw e refl
]
lookup-keep host wanted ((k, w) ∷ peers) = elim (Bool-cases (same host k)) [
  | inl e ↦
      let at : k ≡ host = sym ((same_iff host k).0 e) in
      elim (Bool-cases (is_wanted host wanted)) [
        | inl f ↦ rw at (rw (f, same_refl host) refl)
        | inr f ↦ rw at (rw f (lookup-keep host wanted peers ∙ rw f refl))
      ]
  | inr e ↦ elim (Bool-cases (is_wanted k wanted)) [
    | inl f ↦ rw (f, e) (lookup-keep host wanted peers)
    | inr f ↦ rw (f, e) (lookup-keep host wanted peers)
  ]
]

watched-watching :
    (peers : Peers) (host other : Text) (task : ℕ)
    → watched (watching peers host task) other ≡ (same other host || watched peers other)
unfolding watched watching
watched-watching peers host other task = elim (Bool-cases (same other host)) [
  | inl e ↦
      let at : other ≡ host = (same_iff other host).0 e in
      rw e (rw (at, lookup-insert host (record { task = task; is_finished = false }) peers) refl)
  | inr e ↦
      let apart : other ≢ host = λ at. let hit = (same_iff other host).1 at in cc (hit, e) in
      rw
        (
          e,
          lookup-insert_other host other (record { task = task; is_finished = false }) peers apart,
        )
        refl
]

or-first : (a b c : Bool) → (b || (a || c)) ≡ ((a || b) || c)
or-first true true c = refl
or-first true false c = refl
or-first false b c = refl

watched-watch_hosts :
    (peers : Peers) (hosts : List Text) (task : ℕ) (host : Text)
    → watched (watch_hosts peers hosts task) host ≡ (is_wanted host hosts || watched peers host)
unfolding watch_hosts
watched-watch_hosts peers [] task host = refl
watched-watch_hosts peers (h ∷ hosts) task host =
    watched-watch_hosts (watching peers h task) hosts (suc task) host
    ∙ ap (λ b. is_wanted host hosts || b) (watched-watching peers h host task)
    ∙ or-first (same host h) (is_wanted host hosts) (watched peers host)

is_wanted-keep :
    (p : Text → Bool) (host : Text) (wanted : List Text)
    → is_wanted host (keep p wanted) ≡ (is_wanted host wanted && p host)
is_wanted-keep p host [] = refl
is_wanted-keep p host (h ∷ wanted) = elim (Bool-cases (same host h)) [
  | inl e ↦
      let at : h ≡ host = sym ((same_iff host h).0 e) in
      elim (Bool-cases (p host)) [
        | inl f ↦ rw at (rw (f, same_refl host) refl)
        | inr f ↦ rw at (
            rw (f, same_refl host)
              (is_wanted-keep p host wanted ∙ rw f (and_false (is_wanted host wanted))))
      ]
  | inr e ↦ elim (Bool-cases (p h)) [
    | inl f ↦ rw (f, e) (is_wanted-keep p host wanted)
    | inr f ↦ rw (f, e) (is_wanted-keep p host wanted)
  ]
]

-- After the watched machines are made to match the list, exactly those on it are watched, whatever was
-- watched before and whichever of those watchers had given up.
watched-watch_peers :
    (peers : Peers) (wanted : List Text) (task : ℕ) (host : Text)
    → watched (watch_peers peers wanted task) host ≡ is_wanted host wanted
unfolding watch_peers sync watched
watched-watch_peers peers wanted task host =
    let left = keep (λ (e : Text × Watcher). is_wanted e.0 wanted) peers in
    let new = keep (λ h. not (watched left h)) wanted in
    watched-watch_hosts left new task host
    ∙ ap (λ b. b || watched left host) (is_wanted-keep (λ h. not (watched left h)) host wanted)
    ∙ settled
  where
    settle : (a b : Bool) → ((a && not (a && b)) || (a && b)) ≡ a
    settle true true = refl
    settle true false = refl
    settle false b = refl

    settled :
        let left = keep (λ (e : Text × Watcher). is_wanted e.0 wanted) peers in
        ((is_wanted host wanted && not (watched left host)) || watched left host)
        ≡ is_wanted host wanted
    settled = elim (Bool-cases (is_wanted host wanted)) [
      | inl e ↦ rw (lookup-keep host wanted peers, e) (settle true (watched peers host))
      | inr e ↦ rw (lookup-keep host wanted peers, e) refl
    ]

-- What a client reached is watched again where it is on the list, and nothing else changes in what is
-- watched.
pub watched-rewatch :
    (peers : Peers) (answered wanted : List Text) (task : ℕ) (host : Text)
    → watched (rewatch peers answered wanted task) host
      ≡ (watched peers host || (is_wanted host answered && is_wanted host wanted))
unfolding rewatch
watched-rewatch peers [] wanted task host = sym (or_false (watched peers host))
watched-rewatch peers (h ∷ answered) wanted task host =
    elim (Bool-cases (not (is_wanted h wanted) || watched peers h)) [
      | inl e ↦ rw e (watched-rewatch peers answered wanted task host ∙ skip e)
      | inr e ↦ rw e (
          watched-rewatch (watching peers h task) answered wanted (suc task) host
          ∙ ap (λ b. b || (is_wanted host answered && is_wanted host wanted))
              (watched-watching peers h host task)
          ∙ begin e)
    ]
  where
    skipping : (w a l : Bool) → (not l || w) ≡ true → (w || (a && l)) ≡ (w || (true && l))
    skipping true a l e = refl
    skipping false true l e = refl
    skipping false false false e = refl
    skipping false false true e = cc e

    skip :
        (not (is_wanted h wanted) || watched peers h) ≡ true
        → (watched peers host || (is_wanted host answered && is_wanted host wanted)) ≡ (
            watched peers host
            || ((same host h || is_wanted host answered) && is_wanted host wanted))
    skip e = elim (Bool-cases (same host h)) [
      | inl f ↦
          let at : h ≡ host = sym ((same_iff host h).0 f) in
          let e' = rw at at e in
          rw f (skipping (watched peers host) (is_wanted host answered) (is_wanted host wanted) e')
      | inr f ↦ rw f refl
    ]

    beginning : (w a l : Bool) → (not l || w) ≡ false → true ≡ (w || (true && l))
    beginning w a true e = sym (or_true w)
    beginning w a false e = cc e

    begin :
        (not (is_wanted h wanted) || watched peers h) ≡ false
        → ((same host h || watched peers host)
            || (is_wanted host answered && is_wanted host wanted))
          ≡ (watched peers host
              || ((same host h || is_wanted host answered) && is_wanted host wanted))
    begin e = elim (Bool-cases (same host h)) [
      | inl f ↦
          let at : h ≡ host = sym ((same_iff host h).0 f) in
          let e' = rw at at e in
          rw f (beginning (watched peers host) (is_wanted host answered) (is_wanted host wanted) e')
      | inr f ↦ rw f refl
    ]

brief : (stood : ℕ) → stood < steady → leb steady stood ≡ false
brief stood h = ground arith

-- Subscriptions that did not stand, as many as make three failures.
all_short :
    (failed : ℕ) (short : List ℕ)
    → failed + length short ≡ 3
    → All (λ stood. stood < steady) short
    → watch failed short ≡ waiting 3
unfolding watch turn retry_after
all_short failed [] e h = ap waiting (omega arith)
all_short zero (stood ∷ short) e h =
    rw (brief stood h.0) (ap one_more (all_short 1 short (omega arith) h.1))
all_short (suc zero) (stood ∷ short) e h =
    rw (brief stood h.0) (ap one_more (all_short 2 short (omega arith) h.1))
all_short (suc (suc zero)) (stood ∷ short) e h =
    rw (brief stood h.0) (ap one_more (all_short 3 short (omega arith) h.1))
all_short (suc (suc (suc failed))) (stood ∷ short) e h = absurd (omega arith)

-- What a watcher comes to, so many subscriptions further on.
abbrev further : ℕ → Watched → Watched
further n (gave_up k) = gave_up (n + k)
further n (waiting f) = waiting f

one_more-further : (n : ℕ) (w : Watched) → one_more (further n w) ≡ further (suc n) w
one_more-further n (gave_up k) = ap gave_up (omega arith)
one_more-further n (waiting f) = refl

further_zero : (w : Watched) → w ≡ further 0 w
further_zero (gave_up k) = ap gave_up (omega arith)
further_zero (waiting f) = refl

still_on :
    (o : Option ℕ) (w v : Watched) (f : ℕ)
    → continue o w ≡ waiting f
    → (w ≡ waiting f) × (continue o v ≡ one_more v)
still_on none w v f h = cc
still_on (some delay) (gave_up n) v f h = cc
still_on (some delay) (waiting g) v f h = (h, refl)

-- A watcher that is still at it goes on from how many attempts have failed.
watch-append :
    (failed f : ℕ) (before more : List ℕ)
    → watch failed before ≡ waiting f
    → watch failed (before ++ more) ≡ further (length before) (watch f more)
unfolding watch
watch-append failed f [] more h =
    let same : failed ≡ f = cc in rw same (further_zero (watch f more))
watch-append failed f (stood ∷ before) more h =
    let (count, delay) = turn failed stood in
    let (left, goes) = still_on delay (watch count before) (watch count (before ++ more)) f h in
    goes
    ∙ ap one_more (watch-append count f before more left)
    ∙ one_more-further (length before) (watch f more)

after_steady : (f stood : ℕ) → steady ≤ stood → watch f (stood ∷ []) ≡ waiting 1
unfolding watch turn retry_after
after_steady f stood h = let long : leb steady stood ≡ true = ground arith in rw long refl

after_three : (stood : ℕ) (rest : List ℕ) → stood < steady → watch 3 (stood ∷ rest) ≡ gave_up 1
unfolding watch turn retry_after
after_three stood rest h = rw (brief stood h) refl

-- A machine that is still watched, after whatever subscriptions, is given up on at the fourth failure in a
-- row and not before: subscriptions that do not stand, as many as are left of three, leave the watcher at
-- it with three failures, and one more of them ends it, whatever would come then. A subscription that
-- stood starts the count again, as its first.
pub watch-gives_up :
    (before : List ℕ) (f : ℕ) (short : List ℕ) (last : ℕ) (rest : List ℕ) (stood : ℕ)
    → watch 0 before ≡ waiting f
    → f + length short ≡ 3
    → All (λ stood. stood < steady) short
    → last < steady
    → steady ≤ stood
    → (watch 0 (before ++ short) ≡ waiting 3)
      × (watch 0 ((before ++ short) ++ last ∷ rest) ≡ gave_up (length (before ++ short) + 1))
      × (watch 0 (before ++ stood ∷ []) ≡ waiting 1)
watch-gives_up before f short last rest stood at e h brief_last long =
    let three =
      watch-append 0 f before short at ∙ ap (further (length before)) (all_short f short e h) in
    (
      three,
      watch-append 0 3 (before ++ short) (last ∷ rest) three
          ∙ ap (further (length (before ++ short))) (after_three last rest brief_last),
      watch-append 0 f before (stood ∷ []) at
          ∙ ap (further (length before)) (after_steady f stood long),
    )
