-- ===== src/Scanner/Replay/RoundTrip.antt =====
-- A replay puts a fresh scanner, and so a freshly attached terminal, back where the program left it.
use manymux.Prelude.{
  ℕ, ◌+◌, ◌*◌, ◌≤◌, false, List, [], ◌∷◌, ◌++◌, Option, none, some, Text, Bytes, ◌≡◌, refl, arith,
  All, All-append, length, length-append, append_assoc, append-nil, ap, subst, ◌∙◌, sym, ◌==◌,
  codes, same, if◌then◌else◌, Bool-cases, inl, inr,
}
use manymux.Keyboard.{Keyboard, esc, keyboard_stack, replay_base, replay_stack, replay_other}
use manymux.Keyboard
use manymux.Keyboard.Bounds.{IsU16, IsSomeU16}
use manymux.Keyboard.Replay.{decimal-IsAscii}
use manymux.Scanner.Sound.{IsReplayed, Distinct, IsSound, MaybeClean, default-IsSound}
use manymux.Scanner.Bounds.{feed-IsSound}
use manymux.Scanner.Osc.{Event, parse_osc, parse_fields}
use manymux.Scanner.Osc.Clean.{IsClean, IsShown, clean_id}
use manymux.Scanner.Replay.{IsPayload, feed_osc}
use manymux.Scanner.Replay.Sequences.{
  resting, feed_mode, feed_base, feed_flags, feed_level, feed_style,
}
use manymux.Scanner.{
  Scanner, default, feed, contains, replay, replay_title, replay_modes, replay_style,
}
use manymux.Std.Decimal.{decimal}
use manymux.Std.Strings.{is_control}
use manymux.Std.Strings.Fields.{split_once-append}
use manymux.Std.Utf8.{as_bytes, encode_char, from_utf8_lossy}
use manymux.Std.Utf8.RoundTrip.{IsAscii, as_bytes-append, as_bytes-ascii, from_utf8_lossy-as_bytes}

-- An ASCII piece in front of more text, in bytes, with more bytes behind.
piece :
    (a t : Text) (rest : Bytes)
    → All IsAscii a
    → as_bytes (a ++ t) ++ rest ≡ a ++ (as_bytes t ++ rest)
piece a t rest h = rw (as_bytes-append a t, as_bytes-ascii a h) (append_assoc a (as_bytes t) rest)

differs : (m x : ℕ) (done ms : List ℕ) → contains x (done ++ m ∷ ms) ≡ false → (x == m) ≡ false
differs m x [] ms e = ground arith
differs m x (y ∷ done) ms e = ground (arith, differs m x done ms)

absent : (m : ℕ) (done ms : List ℕ) → Distinct (done ++ m ∷ ms) → contains m done ≡ false
absent m [] ms h = refl
absent m (x ∷ done) ms h = ground (arith, absent m done ms h.1, differs m x done ms h.0)

-- `ESC [`, two ASCII bytes and a number, and what ends it.
sequence :
    (lead : Text) (n : ℕ) (tail : Text)
    → All IsAscii lead
    → All IsAscii tail
    → All IsAscii (lead ++ (decimal n ++ tail))
sequence lead n tail h t =
    All-append IsAscii lead (decimal n ++ tail) h
      (All-append IsAscii (decimal n) tail (decimal-IsAscii n) t)

-- Such a sequence in front of more text.
sequence_bytes :
    (lead : Text) (n : ℕ) (tail t : Text) (rest : Bytes)
    → All IsAscii lead
    → All IsAscii tail
    → as_bytes ((lead ++ (decimal n ++ tail)) ++ t) ++ rest
      ≡ lead ++ (decimal n ++ (tail ++ (as_bytes t ++ rest)))
sequence_bytes lead n tail t rest hl ht =
    piece (lead ++ (decimal n ++ tail)) t rest (sequence lead n tail hl ht)
    ∙ append_assoc lead (decimal n ++ tail) (as_bytes t ++ rest)
    ∙ ap (◌++◌ lead) (append_assoc (decimal n) tail (as_bytes t ++ rest))

-- The level that a replay restores.
abbrev pub in_force : Option ℕ → Option ℕ
in_force none = none
in_force (some level) = if level == 0 then none else some level

module _ (title : Option Text) (k : Keyboard) (style : Option ℕ) where
  feed_modes :
      (ms done : List ℕ) (rest : Bytes)
      → All IsReplayed ms
      → Distinct (done ++ ms)
      → feed (resting title done k style) (as_bytes (replay_modes ms) ++ rest)
        ≡ feed (resting title (done ++ ms) k style) rest
  unfolding replay_modes
  feed_modes [] done rest h d = rw append-nil (unfold as_bytes in refl)
  feed_modes (m ∷ ms) done rest h d =
      let s = resting title done k style in
      ap (feed s) (
        sequence_bytes (esc ∷ b'[' ∷ b'?' ∷ []) m (b'h' ∷ []) (replay_modes ms) rest (omega arith)
          (omega arith))
      ∙ feed_mode title done k style m (as_bytes (replay_modes ms) ++ rest) h.0 (absent m done ms d)
      ∙ feed_modes ms (done ++ m ∷ []) rest h.1
          (subst Distinct (sym (append_assoc done (m ∷ []) ms)) d)
      ∙ rw append_assoc

module _ (title : Option Text) (modes : List ℕ) (style : Option ℕ) where
  feed_replay_base :
      (k : Keyboard) (rest : Bytes)
      → IsU16 k.base
      → feed (resting title modes Keyboard.default style) (as_bytes (replay_base k.base) ++ rest)
        ≡ feed (resting title modes (record Keyboard.default { base = k.base }) style) rest
  unfolding replay_base
  feed_replay_base k rest h = elim (Bool-cases (k.base == 0)) [
    | inl e ↦ rw e (unfold as_bytes in ground (arith, e))
    | inr e ↦ rw e (
        ap (feed (resting title modes Keyboard.default style)) (
          ap (λ t. as_bytes t ++ rest) (sym (append-nil _))
          ∙ sequence_bytes (esc ∷ b'[' ∷ b'=' ∷ []) k.base (codes ";1u") [] rest (omega arith)
              (omega arith))
        ∙ (unfold as_bytes in feed_base title modes Keyboard.default style k.base rest h refl))
  ]

  feed_replay_stack :
      (base : ℕ) (other : Option ℕ) (flags done : List ℕ) (rest : Bytes)
      → All IsU16 flags
      → length done + length flags ≤ keyboard_stack
      → feed
          (resting title modes
            (record { base = base; stack = done; modify_other_keys = other })
            style)
          (as_bytes (replay_stack flags) ++ rest)
        ≡ feed
            (resting title modes
              (record { base = base; stack = done ++ flags; modify_other_keys = other })
              style)
            rest
  unfolding replay_stack
  feed_replay_stack base other [] done rest h fits = rw append-nil (unfold as_bytes in refl)
  feed_replay_stack base other (f ∷ flags) done rest h fits =
      let k : Keyboard = record { base = base; stack = done; modify_other_keys = other } in
      ap (feed (resting title modes k style)) (
        sequence_bytes (esc ∷ b'[' ∷ b'>' ∷ []) f (b'u' ∷ []) (replay_stack flags) rest
          (omega arith) (omega arith))
      ∙ feed_flags title modes k style f (as_bytes (replay_stack flags) ++ rest) h.0 (omega arith)
      ∙ feed_replay_stack base other flags (done ++ f ∷ []) rest h.1
          (omega (arith, length-append done (f ∷ [])))
      ∙ rw append_assoc

  -- A level of zero is what no level is.
  feed_replay_other :
      (base : ℕ) (stack : List ℕ) (other : Option ℕ) (rest : Bytes)
      → IsSomeU16 other
      → feed
          (resting title modes
            (record { base = base; stack = stack; modify_other_keys = none })
            style)
          (as_bytes (replay_other other) ++ rest)
        ≡ feed
            (resting title modes
              (record { base = base; stack = stack; modify_other_keys = in_force other })
              style)
            rest
  unfolding replay_other
  feed_replay_other base stack none rest h = unfold as_bytes in refl
  feed_replay_other base stack (some level) rest h = elim (Bool-cases (level == 0)) [
    | inl e ↦ rw e (unfold as_bytes in refl)
    | inr e ↦
        let k : Keyboard = record { base = base; stack = stack; modify_other_keys = none } in
        rw e (
          ap (feed (resting title modes k style)) (
            ap (λ t. as_bytes t ++ rest) (sym (append-nil _))
            ∙ sequence_bytes (esc ∷ b'[' ∷ b'>' ∷ b'4' ∷ b';' ∷ []) level (codes "m") [] rest
                (omega arith) (omega arith))
          ∙ (unfold as_bytes in feed_level title modes k style level rest h))
  ]

feed_nil : (s : Scanner) → feed s [] ≡ (s, [])
unfolding feed
feed_nil s = refl

feed_replay_style :
    (title : Option Text) (modes : List ℕ) (k : Keyboard) (style : Option ℕ)
    → IsSomeU16 style
    → feed (resting title modes k none) (as_bytes (replay_style style))
      ≡ (resting title modes k style, [])
unfolding replay_style as_bytes
feed_replay_style title modes k none h = feed_nil _
feed_replay_style title modes k (some n) h =
    ap (feed (resting title modes k none)) (
      sym (append-nil _)
      ∙ ap (λ t. as_bytes t ++ []) (sym (append-nil (esc ∷ b'[' ∷ decimal n ++ codes " q")))
      ∙ sequence_bytes (esc ∷ b'[' ∷ []) n (codes " q") [] [] (omega arith) (omega arith))
    ∙ feed_style title modes k none n [] h
    ∙ feed_nil (resting title modes k (some n))

-- The bytes of a shown character end no OSC string.
encode_char-IsPayload : (c : ℕ) → IsShown c → All IsPayload (encode_char c)
unfolding encode_char is_control
encode_char-IsPayload c h = ground arith

title-IsPayload : (t : Text) → All IsShown t → All IsPayload (as_bytes t)
unfolding as_bytes
title-IsPayload [] h = tt
title-IsPayload (c ∷ t) h =
    All-append IsPayload (encode_char c) (as_bytes t) (encode_char-IsPayload c h.0)
      (title-IsPayload t h.1)

length-encode_char : (c : ℕ) → length (encode_char c) ≤ 4
unfolding encode_char
length-encode_char c = ground arith

length-as_bytes : (t : Text) → length (as_bytes t) ≤ 4 * length t
unfolding as_bytes
length-as_bytes [] = omega arith
length-as_bytes (c ∷ t) =
    omega
      (arith, length-append (encode_char c) (as_bytes t), length-encode_char c, length-as_bytes t)

parse_osc_title :
    (t : Text) → IsClean t → parse_osc (b'2' ∷ b';' ∷ as_bytes t) ≡ some (Event.title t)
parse_osc_title t v = shape ∙ named
  where
    decoded : from_utf8_lossy (b'2' ∷ b';' ∷ as_bytes t) ≡ b'2' ∷ b';' ∷ t
    decoded =
        unfold as_bytes encode_char in
        from_utf8_lossy-as_bytes (b'2' ∷ b';' ∷ t) (refl, (refl, v.chars))

    shape : parse_osc (b'2' ∷ b';' ∷ as_bytes t) ≡ parse_fields (b'2' ∷ []) t
    shape =
        unfold parse_osc in
        rw decoded (rw (split_once-append b';' (b'2' ∷ []) t (omega arith)) refl)

    named : parse_fields (b'2' ∷ []) t ≡ some (Event.title t)
    named = unfold parse_fields same in ap (λ c. some (Event.title c)) (clean_id t v)

-- The events of a replay: the title that it sets.
abbrev pub title_events : Option Text → List Event
title_events none = []
title_events (some t) = Event.title t ∷ []

feed_replay_title :
    (title : Option Text) (rest : Bytes)
    → MaybeClean title
    → feed default (as_bytes (replay_title title) ++ rest) ≡ (
      (feed (resting title [] Keyboard.default none) rest).0,
      title_events title ++ (feed (resting title [] Keyboard.default none) rest).1,
    )
unfolding replay_title
feed_replay_title none rest v = unfold as_bytes in refl
feed_replay_title (some t) rest v =
    ap (feed default) bytes
    ∙ feed_osc default (b'2' ∷ b';' ∷ as_bytes t) rest refl
        ((refl, refl), ((refl, refl), title-IsPayload t v.shown))
        (omega (arith, length-as_bytes t, v.short))
    ∙ rw (parse_osc_title t v) refl
  where
    bytes :
        as_bytes (esc ∷ b']' ∷ b'2' ∷ b';' ∷ t ++ 0x07 ∷ []) ++ rest
        ≡ esc ∷ b']' ∷ b'2' ∷ b';' ∷ as_bytes t ++ 0x07 ∷ rest
    bytes =
        piece (esc ∷ b']' ∷ b'2' ∷ b';' ∷ []) (t ++ 0x07 ∷ []) rest (omega arith)
        ∙ ap (λ u. esc ∷ b']' ∷ b'2' ∷ b';' ∷ u)
            (rw (as_bytes-append t (0x07 ∷ []))
              (rw append_assoc (unfold as_bytes encode_char in refl)))

-- What a replay restores.
abbrev pub restored : Scanner → Scanner
restored s =
    resting s.title s.modes
      (record {
        base = s.keyboard.base;
        stack = s.keyboard.stack;
        modify_other_keys = in_force s.keyboard.modify_other_keys;
      })
      s.cursor_style

replay_bytes :
    (s : Scanner)
    → as_bytes (replay s)
      ≡ as_bytes (replay_title s.title)
        ++ (as_bytes (replay_modes s.modes)
            ++ (as_bytes (replay_base s.keyboard.base)
                ++ (as_bytes (replay_stack s.keyboard.stack)
                    ++ (as_bytes (replay_other s.keyboard.modify_other_keys)
                        ++ as_bytes (replay_style s.cursor_style)))))
unfolding replay Keyboard.replay
replay_bytes s = simp (as_bytes-append, append_assoc)

replay-restored :
    (s : Scanner)
    → IsSound s
    → feed default (as_bytes (replay s)) ≡ (restored s, title_events s.title)
replay-restored s v =
    ap (feed default) (replay_bytes s)
    ∙ feed_replay_title s.title _ v.title
    ∙ ap (λ (r : Scanner × List Event). (r.0, title_events s.title ++ r.1)) rest
    ∙ ap (λ e. (restored s, e)) (append-nil (title_events s.title))
  where
    k : Keyboard
    k = s.keyboard

    rest :
        feed (resting s.title [] Keyboard.default none) (
          as_bytes (replay_modes s.modes)
          ++ (as_bytes (replay_base k.base)
              ++ (as_bytes (replay_stack k.stack)
                  ++ (as_bytes (replay_other k.modify_other_keys)
                      ++ as_bytes (replay_style s.cursor_style)))))
        ≡ (restored s, [])
    rest =
        feed_modes s.title Keyboard.default none s.modes [] _ v.replayed v.distinct
        ∙ feed_replay_base s.title s.modes none k _ v.keyboard.base
        ∙ feed_replay_stack s.title s.modes none k.base none k.stack [] _ v.keyboard.stack
            (omega (arith, v.keyboard.depth))
        ∙ feed_replay_other s.title s.modes none k.base k.stack k.modify_other_keys _
            v.keyboard.other
        ∙ feed_replay_style s.title s.modes _ s.cursor_style v.style

-- After any output, what `replay` writes puts a fresh scanner into the same title, modes in the same
-- order, keyboard flags, `modifyOtherKeys` level (a level of zero being none) and cursor style, with
-- no sequence left open and on the primary screen; the only event that it causes is the title's.
pub feed-replay :
    (output : Bytes)
    → feed default (as_bytes (replay (feed default output).0))
      ≡ (restored (feed default output).0, title_events (feed default output).0.title)
feed-replay output =
    replay-restored (feed default output).0 (feed-IsSound default output default-IsSound).0
