-- ===== src/Keys/Rounds.antt =====
-- src/client/attach/keys.rs: every round of the loop of `filter_at` takes a byte at least, and keeps the settings.
use manymux.Keys.{KeyFilter, Prompt, Action, Pick, Mode, Find, Rename, paste_key, esc, lf}
use manymux.Keys.Encoded.{parse_key}
use manymux.Keys.Filter.{
  Turn, rest_after, focus_byte, table_byte, given_back, taken_byte, control_byte, plain_byte,
  byte_turn, skip_sequence, key_turn, named_turn, view_key, popup_key, picked, prompt_turn,
  mouse_turn, turn, wheel_report,
}
use manymux.Keys.Lengths.{parse_key-len, sequence-len, parse_report-len, special-len}
use manymux.Keys.Mouse.{Report}
use manymux.Keys.Press.{spell, recent}
use manymux.Keys.Special.{Special, pick_keys}
use manymux.Keys.Steady.{Steady, Steady-refl, Steady-trans, opening-Steady, steady, encoded-Steady}
use manymux.Keys.Tables.{opening, picking, scrolling, controlling}
use manymux.Keys.Typing.{
  typing, typing_from, kept_line, prompt_action, edits, runs, cancels, edits, runs, cancels,
}
use manymux.Prelude.{
  ℕ, ◌≤◌, ◌==◌, ◌&&◌, ◌||◌, [], ◌∷◌, ◌++◌, Option, none, some, inl, inr, Option-cases, Bytes,
  length, length-drop, take, drop, if◌then◌else◌, ◌≡◌, refl, arith, if_holds,
}
use manymux.Keys.Turns.{
  TurnFrom, goes_on, ended, finish-TurnFrom, length-rest_after, after_key-TurnFrom,
  after_mouse-TurnFrom, mousing-MousedFrom,
}

focus_byte-TurnFrom :
    (f : KeyFilter) (forward : Bytes) (now b : ℕ) (left : Bytes)
    → TurnFrom f (length left) (focus_byte f forward now b left)
unfolding focus_byte
focus_byte-TurnFrom f forward now b left =
    let spelled = spell f (b ∷ []) in
    if_holds (TurnFrom f (length left)) (b == f.prefix)
      (goes_on forward left
        (steady f (record spelled { mode = Mode.control; pressed = some now })
          (refl, refl, refl, refl) (λ h. h))
        (omega arith))
      (if_holds (TurnFrom f (length left)) (f.paste && b == paste_key)
        (finish-TurnFrom f spelled _ forward Action.paste []
          (steady f spelled (refl, refl, refl, refl) (λ h. h)) (omega arith))
        (goes_on (forward ++ b ∷ []) left (Steady-refl f) (omega arith)))

table_byte-TurnFrom :
    (f : KeyFilter) (forward : Bytes) (found : Option Action) (rest : Action → Bytes) (left : Bytes)
    → ((action : Action) → length (rest action) ≤ length left)
    → TurnFrom f (length left) (table_byte f forward found rest left)
unfolding table_byte
table_byte-TurnFrom f forward none rest left h = goes_on forward left (Steady-refl f) (omega arith)
table_byte-TurnFrom f forward (some action) rest left h =
    finish-TurnFrom f (opening f action) _ forward action (rest action) (opening-Steady f action)
      (h action)

given_back-TurnFrom :
    (f : KeyFilter) (forward : Bytes) (b : ℕ) (left : Bytes) (found : Option Action)
    → TurnFrom f (length left) (given_back f forward b left found)
unfolding given_back
given_back-TurnFrom f forward b left none =
    goes_on (forward ++ (f.spelling ++ b ∷ [])) left
      (steady f (record f { mode = Mode.focus }) (refl, refl, refl, refl) (λ h. h)) (omega arith)
given_back-TurnFrom f forward b left (some action) =
    finish-TurnFrom f (opening f action) _ forward action (rest_after action left)
      (opening-Steady f action) (length-rest_after action left)

TurnFrom-of : (f g : KeyFilter) {n : ℕ} {t : Turn} → Steady f g → TurnFrom g n t → TurnFrom f n t
TurnFrom-of f g s (goes_on {f' = h} forward left t l) =
    goes_on forward left (Steady-trans f g h s t) l
TurnFrom-of f g s (ended {f' = h} t l m) = ended (Steady-trans f g h s t) l m

taken_byte-TurnFrom :
    (f : KeyFilter) (pressed : Option ℕ) (forward : Bytes) (now b : ℕ) (left : Bytes)
    → TurnFrom f (length left) (taken_byte f pressed forward now b left)
unfolding taken_byte
taken_byte-TurnFrom f pressed forward now b left =
    let focused = record f { mode = Mode.focus } in
    if_holds (TurnFrom f (length left)) (b == f.prefix)
      (goes_on (if recent pressed now then forward ++ b ∷ [] else forward) left
        (steady f (record (spell f (b ∷ [])) { mode = Mode.focus }) (refl, refl, refl, refl)
          (λ h. h))
        (omega arith))
      (if_holds (TurnFrom f (length left)) (b == esc || b == lf)
        (goes_on forward left (steady f focused (refl, refl, refl, refl) (λ h. h)) (omega arith))
        (given_back-TurnFrom f forward b left (controlling f b)))

control_byte-TurnFrom :
    (f : KeyFilter) (forward : Bytes) (now b : ℕ) (left : Bytes)
    → TurnFrom f (length left) (control_byte f forward now b left)
unfolding control_byte
control_byte-TurnFrom f forward now b left =
    let cleared = record f { pressed = none } in
    TurnFrom-of f cleared (steady f cleared (refl, refl, refl, refl) (λ h. h))
      (taken_byte-TurnFrom cleared f.pressed forward now b left)

plain_byte-TurnFrom :
    (f : KeyFilter) (forward : Bytes) (now b : ℕ) (left : Bytes)
    → TurnFrom f (length left) (plain_byte f forward now b left)
unfolding plain_byte
plain_byte-TurnFrom f forward now b left =
    elim f.mode
      as (λ m. TurnFrom f (length left) (elim m [
        | Mode.focus ↦ focus_byte f forward now b left
        | Mode.picking ↦ table_byte f forward (picking f b) (λ action. rest_after action left) left
        | Mode.scroll ↦ table_byte f forward (scrolling f b) (λ action. []) left
        | Mode.control ↦ control_byte f forward now b left
        | Mode.rename ↦ control_byte f forward now b left
      ])) [
        | Mode.focus ↦ focus_byte-TurnFrom f forward now b left
        | Mode.picking ↦
            table_byte-TurnFrom f forward (picking f b) _ left
              (λ action. length-rest_after action left)
        | Mode.scroll ↦ table_byte-TurnFrom f forward (scrolling f b) _ left (λ action. omega arith)
        | Mode.control ↦ control_byte-TurnFrom f forward now b left
        | Mode.rename ↦ control_byte-TurnFrom f forward now b left
      ]

TurnFrom-le : (f : KeyFilter) (m n : ℕ) {t : Turn} → m ≤ n → TurnFrom f m t → TurnFrom f n t
TurnFrom-le f m n h (goes_on forward left s l) = goes_on forward left s (omega arith)
TurnFrom-le f m n h (ended s l e) = ended s (omega arith) e

skipped : (len b : ℕ) (r : Bytes) → 1 ≤ len → length (drop len (b ∷ r)) ≤ length r
skipped len b r h = omega (arith, length-drop len (b ∷ r))

skip_sequence-len : (f : KeyFilter) (s : Bytes) {n : ℕ} → skip_sequence f s ≡ some n → 1 ≤ n
unfolding skip_sequence
skip_sequence-len f s {n} e = ground (arith, sequence-len s {n = n})

wheel_report-len :
    (f : KeyFilter) (s : Bytes) {report : Report} → wheel_report f s ≡ some report → 1 ≤ report.len
unfolding wheel_report
wheel_report-len f s {report} e = ground (arith, parse_report-len s {k = report})

byte_turn-TurnFrom :
    (f : KeyFilter) (forward : Bytes) (now b : ℕ) (r : Bytes)
    → TurnFrom f (length r) (byte_turn f forward now b r)
unfolding byte_turn
byte_turn-TurnFrom f forward now b r = elim (Option-cases (skip_sequence f (b ∷ r))) [
  | inl e ↦ rw (e, byte_turn) (plain_byte-TurnFrom f forward now b r)
  | inr (len, e) ↦
      rw (e, byte_turn)
        (goes_on forward (drop len (b ∷ r)) (Steady-refl f)
          (skipped len b r (skip_sequence-len f (b ∷ r) e)))
]

key_turn-TurnFrom :
    (f : KeyFilter) (forward : Bytes) (now b : ℕ) (r : Bytes)
    → TurnFrom f (length r) (key_turn f forward now b r)
unfolding key_turn
key_turn-TurnFrom f forward now b r = elim (Option-cases (parse_key (b ∷ r))) [
  | inl e ↦ rw (e, key_turn) (byte_turn-TurnFrom f forward now b r)
  | inr (key, e) ↦
      rw (e, key_turn)
        (TurnFrom-le f _ _ (skipped key.len b r (parse_key-len (b ∷ r) e)) (
          after_key-TurnFrom f (drop key.len (b ∷ r))
            (encoded-Steady f key (take key.len (b ∷ r)) now forward)))
]

popup_key-len :
    (f : KeyFilter) (s : Bytes) {key : Special} {pick : Pick}
    → popup_key f s ≡ some (key, pick)
    → 1 ≤ key.len
unfolding popup_key
popup_key-len f s {key} {pick} e = ground (arith, special-len s pick_keys {key = key} {a = pick})

named_turn-TurnFrom :
    (f : KeyFilter) (forward : Bytes) (now b : ℕ) (r : Bytes)
    → TurnFrom f (length r) (named_turn f forward now b r)
unfolding named_turn spell picked
named_turn-TurnFrom f forward now b r = elim (Option-cases (view_key f (b ∷ r))) [
  | inr (found, e) ↦
      rw (e, named_turn)
        (finish-TurnFrom f f _ forward (Action.scroll found.1) [] (Steady-refl f) (omega arith))
  | inl e ↦ elim (Option-cases (popup_key f (b ∷ r))) [
    | inr (found, p) ↦ rw (e, p, named_turn) (go found.0 found.1 p)
    | inl p ↦ rw (e, p, named_turn) (key_turn-TurnFrom f forward now b r)
  ]
]
  where
    go :
        (key : Special) (pick : Pick)
        → popup_key f (b ∷ r) ≡ some (key, pick)
        → TurnFrom f (length r) (picked f forward (b ∷ r) key pick)
    go key pick p =
        let g = record (spell f (take key.len (b ∷ r))) { pressed = none } in
        let left = drop key.len (b ∷ r) in
        finish-TurnFrom f g _ forward (Action.pick pick) (rest_after (Action.pick pick) left)
          (steady f g (refl, refl, refl, refl) (λ h. h))
          (omega (
            arith,
            length-rest_after (Action.pick pick) left,
            skipped key.len b r (popup_key-len f (b ∷ r) p),
          ))

typing-Steady :
    (f : KeyFilter) (prompt : Prompt) (input : Bytes) → Steady f (typing f prompt input).0
unfolding typing
typing-Steady f prompt input =
    elim (typing_from prompt.line 0 input)
      as (λ e.
        Steady f
          (elim e as (λ _. KeyFilter × Action) [
            | edits line ↦
                (kept_line f prompt line, prompt_action prompt.what Find.typed Rename.typed)
            | runs line ↦ (kept_line f prompt line, prompt_action prompt.what Find.run Rename.run)
            | cancels ↦
                (record f { prompt = none }, prompt_action prompt.what Find.cancel Rename.cancel)
          ]).0) [
            | edits line ↦ steady f _ (refl, refl, refl, refl) (λ h. h)
            | runs line ↦ steady f _ (refl, refl, refl, refl) (λ h. h)
            | cancels ↦ steady f _ (refl, refl, refl, refl) (λ h. h)
          ]

mouse_turn-TurnFrom :
    (f : KeyFilter) (forward : Bytes) (now b : ℕ) (r : Bytes)
    → TurnFrom f (length r) (mouse_turn f forward now b r)
unfolding mouse_turn
mouse_turn-TurnFrom f forward now b r = elim (Option-cases (wheel_report f (b ∷ r))) [
  | inr (report, p) ↦
      rw (p, mouse_turn)
        (TurnFrom-le f _ _ (skipped report.len b r (wheel_report-len f (b ∷ r) p))
          (after_mouse-TurnFrom f _ forward (mousing-MousedFrom f report now (b ∷ r))))
  | inl p ↦ rw (p, mouse_turn) (named_turn-TurnFrom f forward now b r)
]

pub turn-TurnFrom :
    (f : KeyFilter) (forward : Bytes) (now b : ℕ) (r : Bytes)
    → TurnFrom f (length r) (turn f forward now b r)
unfolding turn prompt_turn
turn-TurnFrom f forward now b r =
    elim f.prompt
      as (λ o. TurnFrom f (length r) (elim o [
        | some prompt ↦ prompt_turn f prompt forward (b ∷ r)
        | none ↦ mouse_turn f forward now b r
      ])) [
        | some prompt ↦
            finish-TurnFrom f (typing f prompt (b ∷ r)).0 _ forward (typing f prompt (b ∷ r)).1 []
              (typing-Steady f prompt (b ∷ r)) (omega arith)
        | none ↦ mouse_turn-TurnFrom f forward now b r
      ]
