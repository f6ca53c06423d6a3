-- ===== src/Keys/Silent.antt =====
-- src/client/attach/keys.rs: while a prompt, the history or a list has the keyboard, the program gets nothing.
use manymux.Keys.{KeyFilter, Keystrokes, Action, is_scroll, is_picking}
use manymux.Keys.Encoded.{Encoded, parse_key}
use manymux.Keys.Filter.{
  Turn, again, over, finish, after_key, after_mouse, table_byte, plain_byte, byte_turn, key_turn,
  named_turn, picked, mouse_turn, prompt_turn, turn, wheel_report, filter_from, filter_at,
  finish_chunk,
}
use manymux.Keys.Mouse.{Moused, Report, mousing, mouse_wheel, mouse_drag, mouse_press}
use manymux.Keys.Press.{Taken, encoded, modal, by_table}
use manymux.Keys.Ends.{filter_at-Filtered}
use manymux.Prelude.{
  ℕ, zero, suc, Bool, true, ◌||◌, [], ◌∷◌, Option, none, some, Bytes, length, take, drop, ◌≡◌, refl,
  arith, has_some, Option-cases, inl, inr, ◌∙◌,
}

-- The client has the keyboard to itself.
abbrev pub is_private : KeyFilter → Bool
is_private f = has_some f.prompt || (is_scroll f.mode || is_picking f.mode)

-- What a round has forwarded so far, and whether the keyboard is still private where it goes on.
abbrev turn_forward : Turn → Bytes
turn_forward (Turn.again f forward left) = forward
turn_forward (Turn.over f k) = k.forward

abbrev turn_private : Turn → Bool
turn_private (Turn.again f forward left) = is_private f
turn_private (Turn.over f k) = true

abbrev taken_forward : Taken → Bytes
taken_forward (Taken.acts f forward action) = forward
taken_forward (Taken.goes f forward) = forward

abbrev taken_private : Taken → Bool
taken_private (Taken.acts f forward action) = true
taken_private (Taken.goes f forward) = is_private f

abbrev IsQuiet : Bytes → Turn → Type 0
IsQuiet forward t = (turn_forward t ≡ forward) × (turn_private t ≡ true)

by_table-quiet :
    (f : KeyFilter) (forward : Bytes) (o : Option Action)
    → is_private f ≡ true
    → (taken_forward (by_table f forward o) ≡ forward)
      × (taken_private (by_table f forward o) ≡ true)
unfolding by_table
by_table-quiet f forward none h = (refl, h)
by_table-quiet f forward (some action) h = (refl, refl)

modal-quiet :
    (f : KeyFilter) (key : Encoded) (spelling : Bytes) (now : ℕ) (forward : Bytes)
    → is_private f ≡ true
    → f.prompt ≡ none
    → (taken_forward (modal f key spelling now forward) ≡ forward)
      × (taken_private (modal f key spelling now forward) ≡ true)
unfolding modal by_table
modal-quiet f key spelling now forward h p = ground arith

encoded-quiet :
    (f : KeyFilter) (key : Encoded) (spelling : Bytes) (now : ℕ) (forward : Bytes)
    → is_private f ≡ true
    → f.prompt ≡ none
    → (taken_forward (encoded f key spelling now forward) ≡ forward)
      × (taken_private (encoded f key spelling now forward) ≡ true)
unfolding encoded
encoded-quiet f key spelling now forward h p =
    ground (arith, modal-quiet (record f { acted = some key.code }) key spelling now forward)

-- The mouse changes neither the mode nor the prompt.
mousing-kept :
    (f : KeyFilter) (first : Report) (now : ℕ) (input : Bytes)
    → ((mousing f first now input).1.mode ≡ f.mode)
      × ((mousing f first now input).1.prompt ≡ f.prompt)
unfolding mousing mouse_wheel mouse_drag mouse_press
mousing-kept f first now input = ground arith

after_mouse-IsQuiet :
    (f : KeyFilter) (m : Moused) (forward : Bytes)
    → is_private f ≡ true
    → (m.1.mode ≡ f.mode) × (m.1.prompt ≡ f.prompt)
    → IsQuiet forward (after_mouse m forward)
unfolding after_mouse finish
after_mouse-IsQuiet f (none, g, left) forward h k = ground arith
after_mouse-IsQuiet f (some action, g, left) forward h k = (refl, refl)

after_key-IsQuiet :
    (t : Taken) (forward left : Bytes)
    → (taken_forward t ≡ forward) × (taken_private t ≡ true)
    → IsQuiet forward (after_key t left)
unfolding after_key finish
after_key-IsQuiet (Taken.acts f w action) forward left h = (h.0, refl)
after_key-IsQuiet (Taken.goes f w) forward left h = (h.0, h.1)

table_byte-IsQuiet :
    (f : KeyFilter) (forward : Bytes) (o : Option Action) (rest : Action → Bytes) (left : Bytes)
    → is_private f ≡ true
    → IsQuiet forward (table_byte f forward o rest left)
unfolding table_byte finish
table_byte-IsQuiet f forward none rest left h = (refl, h)
table_byte-IsQuiet f forward (some action) rest left h = (refl, refl)

plain_byte-IsQuiet :
    (f : KeyFilter) (forward : Bytes) (now b : ℕ) (left : Bytes)
    → is_private f ≡ true
    → f.prompt ≡ none
    → IsQuiet forward (plain_byte f forward now b left)
unfolding plain_byte table_byte finish
plain_byte-IsQuiet f forward now b left h p = ground arith

byte_turn-IsQuiet :
    (f : KeyFilter) (forward : Bytes) (now b : ℕ) (r : Bytes)
    → is_private f ≡ true
    → f.prompt ≡ none
    → IsQuiet forward (byte_turn f forward now b r)
unfolding byte_turn
byte_turn-IsQuiet f forward now b r h p = ground (arith, plain_byte-IsQuiet f forward now b r)

key_turn-IsQuiet :
    (f : KeyFilter) (forward : Bytes) (now b : ℕ) (r : Bytes)
    → is_private f ≡ true
    → f.prompt ≡ none
    → IsQuiet forward (key_turn f forward now b r)
unfolding key_turn
key_turn-IsQuiet f forward now b r h p = elim (Option-cases (parse_key (b ∷ r))) [
  | inl e ↦ rw (e, key_turn) (byte_turn-IsQuiet f forward now b r h p)
  | inr (key, e) ↦
      rw (e, key_turn)
        (after_key-IsQuiet _ forward (drop key.len (b ∷ r))
          (encoded-quiet f key (take key.len (b ∷ r)) now forward h p))
]

named_turn-IsQuiet :
    (f : KeyFilter) (forward : Bytes) (now b : ℕ) (r : Bytes)
    → is_private f ≡ true
    → f.prompt ≡ none
    → IsQuiet forward (named_turn f forward now b r)
unfolding named_turn picked finish
named_turn-IsQuiet f forward now b r h p = ground (arith, key_turn-IsQuiet f forward now b r)

mouse_turn-IsQuiet :
    (f : KeyFilter) (forward : Bytes) (now b : ℕ) (r : Bytes)
    → is_private f ≡ true
    → f.prompt ≡ none
    → IsQuiet forward (mouse_turn f forward now b r)
unfolding mouse_turn
mouse_turn-IsQuiet f forward now b r h p = elim (Option-cases (wheel_report f (b ∷ r))) [
  | inl e ↦ rw (e, mouse_turn) (named_turn-IsQuiet f forward now b r h p)
  | inr (report, e) ↦
      rw (e, mouse_turn) (after_mouse-IsQuiet f _ forward h (mousing-kept f report now (b ∷ r)))
]

turn-IsQuiet :
    (f : KeyFilter) (forward : Bytes) (now b : ℕ) (r : Bytes)
    → is_private f ≡ true
    → IsQuiet forward (turn f forward now b r)
unfolding turn prompt_turn finish
turn-IsQuiet f forward now b r h = ground (arith, mouse_turn-IsQuiet f forward now b r)

loop-quiet :
    (fuel : ℕ) (f : KeyFilter) (forward : Bytes) (now : ℕ) (input : Bytes)
    {out : KeyFilter × Keystrokes}
    → is_private f ≡ true
    → filter_from fuel f forward now input ≡ some out
    → out.1.forward ≡ forward
unfolding filter_from finish_chunk
loop-quiet fuel f forward now [] h e = ground arith
loop-quiet zero f forward now (b ∷ r) h e = cc
loop-quiet (suc fuel) f forward now (b ∷ r) {out} h e =
    go (turn f forward now b r) (turn-IsQuiet f forward now b r h)
      (λ g w left. loop-quiet fuel g w now left) e
  where
    go :
        (t : Turn)
        → IsQuiet forward t
        → ((g : KeyFilter) (w left : Bytes)
            → is_private g ≡ true
            → filter_from fuel g w now left ≡ some out
            → out.1.forward ≡ w)
        → (elim t as (λ _. Option (KeyFilter × Keystrokes)) [
          | again g w left ↦ filter_from fuel g w now left
          | over g k ↦ some (g, k)
        ])
          ≡ some out
        → out.1.forward ≡ forward
    go (Turn.again g w left) q rec e = rec g w left q.1 e ∙ q.0
    go (Turn.over g k) q rec e = ground arith

-- While a prompt, the history or a list has the keyboard, the program gets nothing of a chunk, whatever the
-- chunk holds and wherever it is cut.
pub filter_at-silent :
    (f : KeyFilter) (input : Bytes) (now : ℕ)
    → is_private f ≡ true
    → (out : KeyFilter × Keystrokes) × (filter_at f input now ≡ some out) × (out.1.forward ≡ [])
unfolding filter_at
filter_at-silent f input now h =
    let (out, e, kept) = filter_at-Filtered f input now in
    (out, e, loop-quiet (length input) f [] now input h e)
