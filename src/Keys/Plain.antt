-- ===== src/Keys/Plain.antt =====
-- src/client/attach/keys.rs: what a person types reaches the program as it was typed, and what the mode key
-- does to that.
use manymux.Keys.{KeyFilter, Mode, paste_key, literal, esc, lf}
use manymux.Keys.Encoded.{parse_key, sequence}
use manymux.Keys.Filter.{
  Turn, focus_byte, given_back, taken_byte, control_byte, plain_byte, byte_turn, skip_sequence,
  key_turn, named_turn, view_key, popup_key, mouse_turn, turn, wheel_report, filter_from, filter_at,
  finish_chunk,
}
use manymux.Keys.Press.{spell, recent}
use manymux.Keys.Special.{special, parse_special, pick_keys}
use manymux.Keys.Tables.{controlling}
use manymux.Prelude.{
  ℕ, zero, suc, ◌+◌, ◌-◌, ltb, false, ◌==◌, ◌&&◌, List, [], ◌∷◌, ◌++◌, append_assoc, append-nil,
  none, some, Bytes, length, All, All-mono, if◌then◌else◌, ◌≡◌, ◌≢◌, refl, sym, ap, ◌∙◌, arith,
}
use manymux.Std.Strings.{strip_prefix}

-- The keyboard is the session's, and nothing is being typed at the client.
pub record IsFocused (f : KeyFilter) : Type 0 where
  pub focused : f.mode ≡ Mode.focus
  pub unprompted : f.prompt ≡ none
  pub wheel_off : f.wheel ≡ false

-- A byte that the client wants nothing with.
pub record IsPlain (f : KeyFilter) (b : ℕ) : Type 0 where
  pub no_escape : b ≢ esc
  pub no_mode_key : b ≢ f.prefix
  pub no_paste : (f.paste && b == paste_key) ≡ false

pub parse_key-plain : (b : ℕ) (r : Bytes) → b ≢ esc → parse_key (b ∷ r) ≡ none
unfolding parse_key strip_prefix
parse_key-plain b r h = ground arith

pub sequence-plain : (b : ℕ) (r : Bytes) → b ≢ esc → sequence (b ∷ r) ≡ none
unfolding sequence strip_prefix
sequence-plain b r h = ground arith

pub parse_special-plain : (b : ℕ) (r : Bytes) → b ≢ esc → parse_special (b ∷ r) ≡ none
unfolding parse_special strip_prefix
parse_special-plain b r h = ground arith

pub special-plain {ℓ} :
    {A : Type ℓ} (b : ℕ) (r : Bytes) (table : List (Bytes × A))
    → b ≢ esc
    → special (b ∷ r) table ≡ none
unfolding special
special-plain b r table h = rw (parse_special-plain b r h)

pub turn-plain :
    (f : KeyFilter) (forward : Bytes) (now b : ℕ) (r : Bytes)
    → IsFocused f
    → IsPlain f b
    → turn f forward now b r ≡ Turn.again f (forward ++ b ∷ []) r
unfolding turn mouse_turn wheel_report named_turn view_key popup_key key_turn byte_turn
    skip_sequence plain_byte focus_byte
turn-plain f forward now b r h p = ground (arith, parse_key-plain b r)

filter_from-again :
    (n : ℕ) (f g : KeyFilter) (forward forward' : Bytes) (now b : ℕ) (r left : Bytes)
    → turn f forward now b r ≡ Turn.again g forward' left
    → filter_from (suc n) f forward now (b ∷ r) ≡ filter_from n g forward' now left
unfolding filter_from
filter_from-again n f g forward forward' now b r left e = rw (e, filter_from)

-- The whole of a run of such bytes.
pub filter_from-plain :
    (n m : ℕ) (f : KeyFilter) (forward : Bytes) (now : ℕ) (s rest : Bytes)
    → n ≡ length s + m
    → IsFocused f
    → All (IsPlain f) s
    → filter_from n f forward now (s ++ rest) ≡ filter_from m f (forward ++ s) now rest
unfolding filter_from
filter_from-plain n m f forward now [] rest e h p =
    ap (λ k. filter_from k f forward now rest) (omega arith)
    ∙ ap (λ t. filter_from m f t now rest) (sym (append-nil forward))
filter_from-plain zero m f forward now (b ∷ s) rest e h p = absurd (omega arith)
filter_from-plain (suc n) m f forward now (b ∷ s) rest e h p =
    rw (turn-plain f forward now b (s ++ rest) h p.0, filter_from)
      (filter_from-plain n m f (forward ++ b ∷ []) now s rest (omega arith) h p.1
        ∙ ap (λ t. filter_from m f t now rest) (append_assoc forward (b ∷ []) s))

-- Where the keyboard is the session's, a chunk without escapes, mode keys and paste keys is forwarded as
-- it was typed, asks for nothing, leaves nothing to read again and leaves the filter as it was.
filter_at-plain :
    (f : KeyFilter) (s : Bytes) (now : ℕ)
    → IsFocused f
    → All (IsPlain f) s
    → filter_at f s now
      ≡ some (f, record { forward = s; action = none; mode = Mode.focus; rest = [] })
unfolding filter_at filter_from finish_chunk
filter_at-plain f s now h p =
    ap (λ t. filter_from (length s) f [] now t) (sym (append-nil s))
    ∙ filter_from-plain (length s) 0 f [] now s [] (omega arith) h p
    ∙ ground arith

-- The mode key.
pub turn-prefix :
    (f : KeyFilter) (forward : Bytes) (now : ℕ) (r : Bytes)
    → IsFocused f
    → f.prefix ≢ esc
    → turn f forward now f.prefix r
      ≡ Turn.again
          (record f { spelling = f.prefix ∷ []; mode = Mode.control; pressed = some now })
          forward
          r
unfolding turn mouse_turn wheel_report named_turn view_key popup_key key_turn byte_turn
    skip_sequence plain_byte focus_byte spell
turn-prefix f forward now r h p = ground (arith, parse_key-plain f.prefix r)

abbrev IsControl : KeyFilter → Type 0
IsControl f = (f.mode ≡ Mode.control) × (f.prompt ≡ none) × (f.wheel ≡ false)

turn-control :
    (f : KeyFilter) (forward : Bytes) (now b : ℕ) (r : Bytes)
    → IsControl f
    → b ≢ esc
    → turn f forward now b r ≡ control_byte f forward now b r
unfolding turn mouse_turn wheel_report named_turn view_key popup_key key_turn byte_turn
    skip_sequence plain_byte
turn-control f forward now b r h p =
    ground (arith, parse_key-plain b r, sequence-plain b r, special-plain b r pick_keys)

-- The filter behind the mode key, and the filter that has come back from it.
abbrev pub held : KeyFilter → ℕ → KeyFilter
held f now = record f { spelling = f.prefix ∷ []; mode = Mode.control; pressed = some now }

abbrev pub released : KeyFilter → KeyFilter
released f = record f { spelling = f.prefix ∷ []; mode = Mode.focus; pressed = none }

released-IsFocused : (f : KeyFilter) → IsFocused f → IsFocused (released f)
released-IsFocused f h = record {
  focused = refl;
  unprompted = h.unprompted;
  wheel_off = h.wheel_off;
}

released-IsPlain : (f : KeyFilter) (s : Bytes) → All (IsPlain f) s → All (IsPlain (released f)) s
released-IsPlain f s p =
    All-mono (IsPlain f) (IsPlain (released f)) s
      (λ b q. record {
        no_escape = q.no_escape;
        no_mode_key = q.no_mode_key;
        no_paste = q.no_paste;
      })
      p

rest_typed :
    (f : KeyFilter) (forward : Bytes) (now : ℕ) (s : Bytes)
    → IsFocused f
    → All (IsPlain f) s
    → filter_from (length s) (released f) forward now s
      ≡ some (
        released f,
        record { forward = forward ++ s; action = none; mode = Mode.focus; rest = [] },
      )
unfolding filter_from finish_chunk
rest_typed f forward now s h p =
    ap (λ t. filter_from (length s) (released f) forward now t) (sym (append-nil s))
    ∙ filter_from-plain (length s) 0 (released f) forward now s [] (omega arith)
        (released-IsFocused f h) (released-IsPlain f s p)

unknown_turn :
    (f : KeyFilter) (forward : Bytes) (now b : ℕ) (r : Bytes)
    → IsFocused f
    → b ≢ esc
    → b ≢ lf
    → b ≢ f.prefix
    → controlling f b ≡ none
    → turn (held f now) forward now b r ≡ Turn.again (released f) (forward ++ f.prefix ∷ b ∷ []) r
unfolding control_byte taken_byte given_back controlling
unknown_turn f forward now b r h e l k c =
    turn-control (held f now) forward now b r (refl, h.unprompted, h.wheel_off) e ∙ ground arith

-- A key that means nothing behind the mode key is not swallowed: both reach the program, and so does
-- all that is typed behind them, and the keyboard is the session's again.
pub mode_key-given_back :
    (f : KeyFilter) (b : ℕ) (s : Bytes) (now : ℕ)
    → IsFocused f
    → f.prefix ≢ esc
    → b ≢ esc
    → b ≢ lf
    → b ≢ f.prefix
    → controlling f b ≡ none
    → All (IsPlain f) s
    → filter_at f (f.prefix ∷ b ∷ s) now
      ≡ some (
        released f,
        record { forward = f.prefix ∷ b ∷ s; action = none; mode = Mode.focus; rest = [] },
      )
unfolding filter_at
mode_key-given_back f b s now h q e l k c p =
    filter_from-again (suc (length s)) f (held f now) [] [] now f.prefix (b ∷ s) (b ∷ s)
      (turn-prefix f [] now (b ∷ s) h q)
    ∙ filter_from-again (length s) (held f now) (released f) [] (f.prefix ∷ b ∷ []) now b s s
        (unknown_turn f [] now b s h e l k c)
    ∙ rest_typed f (f.prefix ∷ b ∷ []) now s h p

again_turn :
    (f : KeyFilter) (before now : ℕ) (r : Bytes)
    → IsFocused f
    → f.prefix ≢ esc
    → turn (held f before) [] now f.prefix r
      ≡ Turn.again (released f) (if ltb (now - before) literal then f.prefix ∷ [] else []) r
unfolding control_byte taken_byte spell recent
again_turn f before now r h e =
    turn-control (held f before) [] now f.prefix r (refl, h.unprompted, h.wheel_off) e
    ∙ ground arith

-- The mode key holds the keyboard and forwards nothing. Hit again, it hands the keyboard back with all
-- that is typed behind it, and one mode key reaches the program exactly when the two were less than
-- three seconds apart.
pub mode_key-twice :
    (f : KeyFilter) (s : Bytes) (before now : ℕ)
    → IsFocused f
    → f.prefix ≢ esc
    → All (IsPlain f) s
    → (filter_at f (f.prefix ∷ []) before
        ≡ some
            (held f before, record { forward = []; action = none; mode = Mode.control; rest = [] }))
      × (filter_at (held f before) (f.prefix ∷ s) now
          ≡ some (
            released f,
            record {
              forward = (if ltb (now - before) 3000 then f.prefix ∷ s else s);
              action = none;
              mode = Mode.focus;
              rest = [];
            },
          ))
unfolding filter_at filter_from finish_chunk
mode_key-twice f s before now h e p = (
  rw (turn-prefix f [] before [] h e, filter_from),
  rw (again_turn f before now s h e, filter_from)
      (rest_typed f (if ltb (now - before) literal then f.prefix ∷ [] else []) now s h p
        ∙ ground arith),
)
