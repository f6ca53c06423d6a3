-- ===== src/Scanner/Replay/Sequences.antt =====
-- The sequences of a replay, each read back on a scanner that has no sequence in progress.
use manymux.Prelude.{
  ℕ, ◌-◌, ◌<◌, true, false, not, List, [], ◌∷◌, ◌++◌, Option, some, Text, Bytes, ◌≡◌, refl, arith,
  All, All-mono, All-append, length, length-append, append_assoc, ap, ◌∙◌, sym, ◌==◌, keep,
  last?-concat, take, take-length-append,
}
use manymux.Keyboard.{Keyboard, esc, keyboard_stack, set_modify_other_keys}
use manymux.Keyboard.Bounds.{IsU16}
use manymux.Keyboard.Replay.{decimal-IsAscii, decimal-Lacks, note_push, note_base}
use manymux.Scanner.Sound.{IsReplayed}
use manymux.Scanner.{
  Scanner, default, feed, finish_params, finish_private, set_mode, set_modes, set_style,
  set_other_keys, contains, replayed_modes, alternate_screen,
}
use manymux.Scanner.Replay.{IsParam, feed_csi}
use manymux.Std.Decimal.{IsDigit, decimal, parse_to, parse_u16, u16_max}
use manymux.Std.Decimal.RoundTrip.{decimal-IsDigit, parse_to-decimal, length-decimal_u16}
use manymux.Std.Strings.{split}
use manymux.Std.Strings.Fields.{split-Lacks, split-append}
use manymux.Std.Utf8.RoundTrip.{from_utf8-ascii}

-- A scanner between sequences.
abbrev pub resting : Option Text → List ℕ → Keyboard → Option ℕ → Scanner
resting title modes keyboard style = record default {
  title = title;
  modes = modes;
  keyboard = keyboard;
  cursor_style = style;
}

decimal-IsParam : (n : ℕ) → All IsParam (decimal n)
decimal-IsParam n = All-mono IsDigit IsParam (decimal n) (λ c h. ground arith) (decimal-IsDigit n)

not-alternate : (m : ℕ) → contains m replayed_modes ≡ true → contains m alternate_screen ≡ false
not-alternate m h = ground arith

keep_absent : (m : ℕ) (ms : List ℕ) → contains m ms ≡ false → keep (λ x. not (x == m)) ms ≡ ms
keep_absent m [] h = refl
keep_absent m (x ∷ ms) h = ground (arith, keep_absent m ms)

set_mode_new :
    (s : Scanner) (m : ℕ)
    → IsReplayed m
    → contains m s.modes ≡ false
    → set_mode true s m ≡ record s { modes = s.modes ++ m ∷ [] }
unfolding set_mode
set_mode_new s m h new = rw (not-alternate m h.0, h.0, keep_absent m s.modes new) refl

finish_mode :
    (s : Scanner) (m : ℕ)
    → IsReplayed m
    → contains m s.modes ≡ false
    → finish_params s (b'?' ∷ decimal m) b'h' ≡ record s { modes = s.modes ++ m ∷ [] }
finish_mode s m h new = shape ∙ rw (split-Lacks b';' (decimal m) (decimal-Lacks m)) one
  where
    shape : finish_params s (b'?' ∷ decimal m) b'h' ≡ set_modes true s (split b';' (decimal m))
    shape =
        unfold finish_params finish_private in
        rw (from_utf8-ascii (decimal m) (decimal-IsAscii m)) refl

    one : set_modes true s (decimal m ∷ []) ≡ record s { modes = s.modes ++ m ∷ [] }
    one =
        unfold set_modes in rw (parse_to-decimal u16_max m h.1, set_modes) (set_mode_new s m h new)

parse_four : parse_u16 (b'4' ∷ []) ≡ some 4
unfolding parse_to
parse_four = refl

level_fields : (n : ℕ) → split b';' (b'4' ∷ b';' ∷ decimal n) ≡ (b'4' ∷ []) ∷ decimal n ∷ []
level_fields n =
    split-append b';' (b'4' ∷ []) (decimal n) (omega arith)
    ∙ ap (◌∷◌ (b'4' ∷ [])) (split-Lacks b';' (decimal n) (decimal-Lacks n))

finish_level :
    (s : Scanner) (level : ℕ)
    → IsU16 level
    → finish_params s (b'>' ∷ b'4' ∷ b';' ∷ decimal level) b'm'
      ≡ record s { keyboard = record (s.keyboard) { modify_other_keys = some level } }
finish_level s level h = shape ∙ rw (level_fields level) named
  where
    text : Bytes
    text = b'4' ∷ b';' ∷ decimal level

    shape : finish_params s (b'>' ∷ text) b'm' ≡ set_other_keys s (split b';' text)
    shape =
        unfold finish_params finish_private in
        rw (from_utf8-ascii text (omega arith, (omega arith, decimal-IsAscii level))) refl

    named :
        set_other_keys s ((b'4' ∷ []) ∷ decimal level ∷ [])
        ≡ record s { keyboard = record (s.keyboard) { modify_other_keys = some level } }
    named =
        unfold set_other_keys set_modify_other_keys in
        rw (parse_four, set_other_keys) (rw (parse_to-decimal u16_max level h) refl)

finish_style :
    (s : Scanner) (n : ℕ)
    → IsU16 n
    → finish_params s (decimal n ++ b' ' ∷ []) b'q' ≡ record s { cursor_style = some n }
finish_style s n h = shape ∙ named
  where
    params : Bytes
    params = decimal n ++ b' ' ∷ []

    shape : finish_params s params b'q' ≡ set_style s params
    shape = unfold finish_params in rw (last?-concat (decimal n) b' ') refl

    shorter : take (length params - 1) params ≡ decimal n
    shorter =
        ap (λ m. take m params) (omega (arith, length-append (decimal n) (b' ' ∷ [])))
        ∙ take-length-append (decimal n) (b' ' ∷ [])

    named : set_style s params ≡ record s { cursor_style = some n }
    named =
        unfold set_style in
        rw shorter (
          rw (from_utf8-ascii (decimal n) (decimal-IsAscii n))
            (rw (parse_to-decimal u16_max n h) refl))

module _ (title : Option Text) (modes : List ℕ) (k : Keyboard) (style : Option ℕ) where
  pub feed_mode :
      (m : ℕ) (rest : Bytes)
      → IsReplayed m
      → contains m modes ≡ false
      → feed (resting title modes k style) (esc ∷ b'[' ∷ b'?' ∷ decimal m ++ b'h' ∷ rest)
        ≡ feed (resting title (modes ++ m ∷ []) k style) rest
  feed_mode m rest h new =
      let s = resting title modes k style in
      feed_csi s (b'?' ∷ decimal m) b'h' rest refl (refl, decimal-IsParam m)
        (omega (arith, length-decimal_u16 m h.1)) refl
      ∙ ap (λ t. feed t rest) (finish_mode s m h new)

  pub feed_base :
      (base : ℕ) (rest : Bytes)
      → IsU16 base
      → k.stack ≡ []
      → feed
          (resting title modes k style)
          (esc ∷ b'[' ∷ b'=' ∷ decimal base ++ (b';' ∷ b'1' ∷ b'u' ∷ rest))
        ≡ feed (resting title modes (record k { base = base }) style) rest
  unfolding finish_params
  feed_base base rest h none_yet =
      let s = resting title modes k style in
      let tail = b';' ∷ b'1' ∷ [] in
      let params = decimal base ++ tail in
      ap (λ t. feed s (esc ∷ b'[' ∷ b'=' ∷ t))
        (sym (append_assoc (decimal base) tail (b'u' ∷ rest)))
      ∙ feed_csi s (b'=' ∷ params) b'u' rest refl
          (refl, All-append IsParam (decimal base) tail (decimal-IsParam base) (refl, (refl, tt)))
          (omega (arith, length-append (decimal base) tail, length-decimal_u16 base h)) refl
      ∙ ap (λ q. feed (resting title modes q style) rest) (note_base k base h none_yet)

  pub feed_flags :
      (flags : ℕ) (rest : Bytes)
      → IsU16 flags
      → length k.stack < keyboard_stack
      → feed (resting title modes k style) (esc ∷ b'[' ∷ b'>' ∷ decimal flags ++ b'u' ∷ rest)
        ≡ feed (resting title modes (record k { stack = k.stack ++ flags ∷ [] }) style) rest
  unfolding finish_params
  feed_flags flags rest h room =
      feed_csi (resting title modes k style) (b'>' ∷ decimal flags) b'u' rest refl
        (refl, decimal-IsParam flags) (omega (arith, length-decimal_u16 flags h)) refl
      ∙ ap (λ q. feed (resting title modes q style) rest) (note_push k flags h room)

  pub feed_level :
      (level : ℕ) (rest : Bytes)
      → IsU16 level
      → feed
          (resting title modes k style)
          (esc ∷ b'[' ∷ b'>' ∷ b'4' ∷ b';' ∷ decimal level ++ b'm' ∷ rest)
        ≡ feed (resting title modes (record k { modify_other_keys = some level }) style) rest
  feed_level level rest h =
      let s = resting title modes k style in
      feed_csi s (b'>' ∷ b'4' ∷ b';' ∷ decimal level) b'm' rest refl
        (refl, (refl, (refl, decimal-IsParam level))) (omega (arith, length-decimal_u16 level h))
        refl
      ∙ ap (λ t. feed t rest) (finish_level s level h)

  pub feed_style :
      (n : ℕ) (rest : Bytes)
      → IsU16 n
      → feed (resting title modes k style) (esc ∷ b'[' ∷ decimal n ++ (b' ' ∷ b'q' ∷ rest))
        ≡ feed (resting title modes k (some n)) rest
  feed_style n rest h =
      let s = resting title modes k style in
      ap (λ t. feed s (esc ∷ b'[' ∷ t)) (sym (append_assoc (decimal n) (b' ' ∷ []) (b'q' ∷ rest)))
      ∙ feed_csi s (decimal n ++ b' ' ∷ []) b'q' rest refl
          (All-append IsParam (decimal n) (b' ' ∷ []) (decimal-IsParam n) (refl, tt))
          (omega (arith, length-append (decimal n) (b' ' ∷ []), length-decimal_u16 n h)) refl
      ∙ ap (λ t. feed t rest) (finish_style s n h)
