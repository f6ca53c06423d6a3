-- ===== src/Keys/Steady.antt =====
-- src/client/attach/keys.rs: what a chunk leaves as it was, and that the loop of `filter_at` comes to an
-- end with less of the chunk than it was given.
use manymux.Keys.{KeyFilter, Action, Pick, Mode, tab, is_scroll, is_picking, is_focus}
use manymux.Keys.Encoded.{Encoded, is_key, key_byte, is_modifier, down, press, shift, escape}
use manymux.Keys.Press.{
  Taken, focus_release, focus_press, by_table, control_key, control, taken_control, modal, encoded,
  spell, remove, insert, remember_forwarded,
}
use manymux.Keys.Tables.{opening, opens, open_prompt, picking, scrolling, controlling}
use manymux.Prelude.{
  ℕ, ◌+◌, ◌≤◌, not, ◌==◌, ◌&&◌, List, [], ◌++◌, Option, none, some, Bytes, length, length-keep-le,
  ◌>>=◌, if◌then◌else◌, ◌≡◌, refl, arith, if_holds,
}

-- No key changes a setting, and the codes of the keys that were forwarded stay thirty-two at most.
pub record Steady (f f' : KeyFilter) : Type 0 where
  pub prefix_kept : f'.prefix ≡ f.prefix
  pub paste_kept : f'.paste ≡ f.paste
  pub scroll_kept : f'.scroll ≡ f.scroll
  pub wheel_kept : f'.wheel ≡ f.wheel
  pub bounded : length f.forwarded ≤ 32 → length f'.forwarded ≤ 32

pub Steady-refl : (f : KeyFilter) → Steady f f
Steady-refl f = record {
  prefix_kept = refl;
  paste_kept = refl;
  scroll_kept = refl;
  wheel_kept = refl;
  bounded = λ h. h;
}

pub Steady-trans : (f g h : KeyFilter) → Steady f g → Steady g h → Steady f h
Steady-trans f g h s t = record {
  prefix_kept = cc;
  paste_kept = cc;
  scroll_kept = cc;
  wheel_kept = cc;
  bounded = λ b. t.bounded (s.bounded b);
}

pub opening-Steady : (f : KeyFilter) (a : Action) → Steady f (opening f a)
unfolding opening
opening-Steady f a =
    elim (opens a) as (λ o. Steady f (elim o [ none ↦ f | some what ↦ open_prompt f what ])) [
      | none ↦ Steady-refl f
      | some what ↦ record {
        prefix_kept = refl;
        paste_kept = refl;
        scroll_kept = refl;
        wheel_kept = refl;
        bounded = λ h. h;
      }
    ]

length-insert : (code : ℕ) (codes : List ℕ) → length (insert code codes) ≤ length codes + 1
unfolding insert
length-insert code codes = ground arith

length-remove : (code : ℕ) (codes : List ℕ) → length (remove code codes) ≤ length codes
unfolding remove
length-remove code codes = length-keep-le _ codes

remembered :
    (code : ℕ) (codes : List ℕ)
    → length codes ≤ 32
    → length (insert code (if length codes == 32 then [] else codes)) ≤ 32
remembered code codes h = ground (arith, length-insert code codes, length-insert code [])

-- What a key comes to.
pub data TakenFrom (f : KeyFilter) : Taken → Type 0 where
  acted_on :
      {f' : KeyFilter} (forward : Bytes) (action : Action)
      → Steady f f'
      → TakenFrom f (Taken.acts f' forward action)
  gone : {f' : KeyFilter} (forward : Bytes) → Steady f f' → TakenFrom f (Taken.goes f' forward)

abbrev pub Unchanged : (f f' : KeyFilter) → Type 0
Unchanged f f' =
    (f'.prefix ≡ f.prefix) × (f'.paste ≡ f.paste) × (f'.scroll ≡ f.scroll) × (f'.wheel ≡ f.wheel)

pub steady :
    (f f' : KeyFilter)
    → Unchanged f f'
    → (length f.forwarded ≤ 32 → length f'.forwarded ≤ 32)
    → Steady f f'
steady f f' u h = record {
  prefix_kept = u.0;
  paste_kept = u.1;
  scroll_kept = u.2;
  wheel_kept = u.3;
  bounded = h;
}

focus_release-Steady :
    (f : KeyFilter) (key : Encoded) (spelling forward : Bytes)
    → TakenFrom f (focus_release f key spelling forward)
unfolding focus_release
focus_release-Steady f key spelling forward =
    gone _ (
      steady f _ (refl, refl, refl, refl) (λ h. ground (arith, length-remove key.code f.forwarded)))

remember-Steady : (f : KeyFilter) (code : ℕ) → Steady f (remember_forwarded f code)
unfolding remember_forwarded
remember-Steady f code = steady f _ (refl, refl, refl, refl) (λ h. remembered code f.forwarded h)

focus_press-Steady :
    (f : KeyFilter) (key : Encoded) (spelling : Bytes) (now : ℕ) (forward : Bytes)
    → TakenFrom f (focus_press f key spelling now forward)
unfolding focus_press remember_forwarded
focus_press-Steady f key spelling now forward =
    if_holds (TakenFrom f) _ (gone _ (steady f _ (refl, refl, refl, refl) (λ h. h))) (
      if_holds (TakenFrom f) _ (acted_on _ _ (steady f _ (refl, refl, refl, refl) (λ h. h)))
        (gone _ (steady f _ (refl, refl, refl, refl) (λ h. remembered key.code f.forwarded h))))

by_table-Steady :
    (f : KeyFilter) (forward : Bytes) (found : Option Action)
    → TakenFrom f (by_table f forward found)
unfolding by_table
by_table-Steady f forward none = gone _ (Steady-refl f)
by_table-Steady f forward (some action) = acted_on _ _ (opening-Steady f action)

control_key-Steady :
    (f : KeyFilter) (key : Encoded) (spelling : Bytes) (byte : Option ℕ) (forward : Bytes)
    → TakenFrom f (control_key f key spelling byte forward)
unfolding control_key remember_forwarded
control_key-Steady f key spelling byte forward =
    elim (byte >>= controlling f)
      as (λ o. TakenFrom f (elim o [
        | some action ↦ Taken.acts (opening f action) forward action
        | none ↦
            Taken.goes (remember_forwarded (record f { mode = Mode.focus; acted = none }) key.code)
              (forward ++ (f.spelling ++ spelling))
      ])) [
        | none ↦
            gone _ (steady f _ (refl, refl, refl, refl) (λ h. remembered key.code f.forwarded h))
        | some action ↦ acted_on _ _ (opening-Steady f action)
      ]

TakenFrom-of : (f g : KeyFilter) {t : Taken} → Steady f g → TakenFrom g t → TakenFrom f t
TakenFrom-of f g s (acted_on {f' = h} fw a t) = acted_on fw a (Steady-trans f g h s t)
TakenFrom-of f g s (gone {f' = h} fw t) = gone fw (Steady-trans f g h s t)

taken_control-Steady :
    (f : KeyFilter) (pressed : Option ℕ) (key : Encoded) (spelling : Bytes) (byte : Option ℕ)
    (now : ℕ) (forward : Bytes)
    → TakenFrom f (taken_control f pressed key spelling byte now forward)
unfolding taken_control spell
taken_control-Steady f pressed key spelling byte now forward =
    if_holds (TakenFrom f) (is_key key f.prefix)
      (gone _ (
        steady f (record f { mode = Mode.focus; spelling = spelling }) (refl, refl, refl, refl)
          (λ h. h)))
      (if_holds (TakenFrom f) (key.code == tab && shift key.mods)
        (acted_on forward (Action.pick Pick.up) (Steady-refl f))
        (if_holds (TakenFrom f) (key.code == escape)
          (gone forward
            (steady f (record f { mode = Mode.focus }) (refl, refl, refl, refl) (λ h. h)))
          (control_key-Steady f key spelling byte forward)))

control-Steady :
    (f : KeyFilter) (key : Encoded) (spelling : Bytes) (byte : Option ℕ) (now : ℕ) (forward : Bytes)
    → TakenFrom f (control f key spelling byte now forward)
unfolding control
control-Steady f key spelling byte now forward =
    TakenFrom-of f (record f { pressed = none }) (steady f _ (refl, refl, refl, refl) (λ h. h))
      (taken_control-Steady _ _ key spelling byte now forward)

modal-Steady :
    (f : KeyFilter) (key : Encoded) (spelling : Bytes) (now : ℕ) (forward : Bytes)
    → TakenFrom f (modal f key spelling now forward)
unfolding modal
modal-Steady f key spelling now forward =
    let byte = if is_key key f.prefix then some f.prefix else key_byte key in
    if_holds (TakenFrom f) (is_scroll f.mode) (by_table-Steady f forward (byte >>= scrolling f)) (
      if_holds (TakenFrom f) (is_picking f.mode)
        (if_holds (TakenFrom f) (key.code == tab && shift key.mods)
          (acted_on forward (Action.pick Pick.up) (Steady-refl f))
          (by_table-Steady f forward (byte >>= picking f)))
        (control-Steady f key spelling byte now forward))

pub encoded-Steady :
    (f : KeyFilter) (key : Encoded) (spelling : Bytes) (now : ℕ) (forward : Bytes)
    → TakenFrom f (encoded f key spelling now forward)
unfolding encoded
encoded-Steady f key spelling now forward =
    let acted = record f { acted = some key.code } in
    if_holds (TakenFrom f) (is_focus f.mode)
      (if_holds (TakenFrom f) (not (key.event == press))
        (focus_release-Steady f key spelling forward)
        (focus_press-Steady f key spelling now forward))
      (if_holds (TakenFrom f) (not (down key))
        (gone forward (
          steady f (record f { forwarded = remove key.code f.forwarded }) (refl, refl, refl, refl)
            (λ h. omega (arith, length-remove key.code f.forwarded))))
        (if_holds (TakenFrom f) (is_modifier key) (gone forward (Steady-refl f)) (
          TakenFrom-of f acted (steady f acted (refl, refl, refl, refl) (λ h. h))
            (modal-Steady acted key spelling now forward))))
