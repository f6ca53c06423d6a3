-- ===== src/Keys/Prompts.antt =====
-- src/client/attach/keys.rs: what is typed at a prompt is the line that its prompt asks for, backspace takes a
-- character off it, and while a prompt or a list or the history has the keyboard the program gets nothing.
use manymux.Keys.{KeyFilter, Keystrokes, Prompt, Prompting, Find, Rename, after}
use manymux.Keys.Filter.{filter_at, filter_from, turn, prompt_turn, finish}
use manymux.Keys.Typing.{
  typing, typing_from, stroke, edit, Edit, Stroke, pop_char, before_last, prompt_action, kept_line,
  typed_line, same_prompting,
}
use manymux.Prelude.{
  ℕ, ◌+◌, ltb, leb, true, false, ◌||◌, within, [], ◌∷◌, ◌++◌, append_assoc, append-nil, none, some,
  Bytes, Text, All, ◌≡◌, ◌≢◌, refl, sym, ap, ◌∙◌, arith, unwrap_or, if_split, ◌/◌, ◌%◌,
}
use manymux.Std.Utf8.RoundTrip.{from_utf8_lossy-as_bytes, as_bytes-append}
use manymux.Std.Utf8.{continues, encode_char, as_bytes, IsChar}

-- A byte that a prompt takes onto its line.
abbrev pub IsTyped : ℕ → Type 0
IsTyped b = (within 0x20 0x7e b || leb 0x80 b) ≡ true

typed_byte :
    (line : Bytes) (b : ℕ) → IsTyped b → edit line (Stroke.byte b) ≡ Edit.edits (line ++ b ∷ [])
unfolding edit
typed_byte line b h = ground arith

typed_stroke : (b : ℕ) (r : Bytes) → IsTyped b → stroke b r ≡ (0, Stroke.byte b)
unfolding stroke
typed_stroke b r h = ground arith

typing_from-typed : (line s : Bytes) → All IsTyped s → typing_from line 0 s ≡ Edit.edits (line ++ s)
unfolding typing_from
typing_from-typed line [] h = ap Edit.edits (sym (append-nil line))
typing_from-typed line (b ∷ s) h =
    rw (typed_stroke b s h.0, typed_byte line b h.0, typing_from)
      (rw (typed_stroke b s h.0, typing_from)
        (typing_from-typed (line ++ b ∷ []) s h.1 ∙ ap Edit.edits (append_assoc line (b ∷ []) s)))

before_last-continues : (s : Bytes) → All (λ c. continues c ≡ true) s → before_last s ≡ none
unfolding before_last
before_last-continues [] h = refl
before_last-continues (b ∷ s) h = rw (before_last-continues s h.1, before_last) (rw h.0)

before_last-char :
    (line : Bytes) (b : ℕ) (s : Bytes)
    → continues b ≡ false
    → All (λ c. continues c ≡ true) s
    → before_last (line ++ b ∷ s) ≡ some line
unfolding before_last
before_last-char [] b s h k = rw (before_last-continues s k, before_last) (rw h)
before_last-char (x ∷ line) b s h k = rw (before_last-char line b s h k, before_last)

-- Backspace takes off exactly the character that was typed last, however many bytes it has.
pop_char-encode_char : (line : Bytes) (c : ℕ) → IsChar c → pop_char (line ++ encode_char c) ≡ line
unfolding pop_char encode_char
pop_char-encode_char line c h =
    if_split Popped (ltb c 0x80) (λ a. popped c [] (ground arith) tt)
      (λ a.
        if_split Popped (ltb c 0x800)
          (λ b. popped (0xc0 + c / 64) ((0x80 + c % 64) ∷ []) (ground arith) (ground arith, tt))
          (λ b.
            if_split Popped (ltb c 0x10000)
              (λ d.
                popped (0xe0 + c / 4096) ((0x80 + c / 64 % 64) ∷ (0x80 + c % 64) ∷ [])
                  (ground arith) (ground arith, (ground arith, tt)))
              (λ d.
                popped (0xf0 + c / 262144)
                  ((0x80 + c / 4096 % 64) ∷ (0x80 + c / 64 % 64) ∷ (0x80 + c % 64) ∷ [])
                  (ground arith) (ground arith, (ground arith, (ground arith, tt))))))
  where
    Popped : Bytes → Type 0
    Popped bytes = unwrap_or (line ++ bytes) (before_last (line ++ bytes)) ≡ line

    popped :
        (b : ℕ) (s : Bytes) → continues b ≡ false → All (λ c. continues c ≡ true) s → Popped (b ∷ s)
    popped b s x k = rw (before_last-char line b s x k)

same_prompting_refl : (what : Prompting) → same_prompting what what ≡ true
unfolding same_prompting
same_prompting_refl Prompting.finding = refl
same_prompting_refl Prompting.sessions = refl
same_prompting_refl Prompting.renaming = refl
same_prompting_refl Prompting.grouping = refl

-- The open prompt, with this line.
abbrev pub prompt_of : Prompting → Text → Prompt
prompt_of what t = record { what = what; line = as_bytes t }

-- What a chunk for a prompt comes to.
pub record Edited (f : KeyFilter) (what : Prompting) (t : Text) (out : KeyFilter × Keystrokes)
    : Type 0 where
  pub line_is : typed_line out.0 what ≡ some t
  pub kept : out.0.prompt ≡ some (prompt_of what t)
  pub told : out.1.action ≡ some (prompt_action what Find.typed Rename.typed)
  pub silent : out.1.forward ≡ []

edited :
    (f : KeyFilter) (what : Prompting) (t u : Text) (s : Bytes) (now : ℕ)
    → f.prompt ≡ some (prompt_of what t)
    → s ≢ []
    → typing_from (as_bytes t) 0 s ≡ Edit.edits (as_bytes u)
    → All IsChar u
    → (out : KeyFilter × Keystrokes) × (filter_at f s now ≡ some out) × Edited f what u out
unfolding filter_at filter_from turn prompt_turn typing finish typed_line kept_line
edited f what t u [] now h ne e c = absurd (ne refl)
edited f what t u (b ∷ r) now h ne e c =
    let action = prompt_action what Find.typed Rename.typed in
    let f' = record f { prompt = some (prompt_of what u); mode = after action f.mode } in
    let k : Keystrokes = record { forward = []; action = some action; mode = f'.mode; rest = [] } in
    (
      (f', k),
      ground arith,
      record {
        line_is = rw (same_prompting_refl what, from_utf8_lossy-as_bytes u c);
        kept = refl;
        told = refl;
        silent = refl;
      },
    )

as_bytes-ne-nil : (c : ℕ) (u : Text) → as_bytes (c ∷ u) ≢ []
unfolding as_bytes encode_char
as_bytes-ne-nil c u = ground arith

-- What is typed at a prompt is put behind what its line held: the prompt is asked for that text, the client
-- is told that something was typed, and the program gets none of it.
prompt-typed :
    (f : KeyFilter) (what : Prompting) (t : Text) (c : ℕ) (u : Text) (now : ℕ)
    → f.prompt ≡ some (prompt_of what t)
    → All IsChar (t ++ c ∷ u)
    → All IsTyped (as_bytes (c ∷ u))
    → (out : KeyFilter × Keystrokes) × (filter_at f (as_bytes (c ∷ u)) now ≡ some out)
      × Edited f what (t ++ c ∷ u) out
prompt-typed f what t c u now h chars typed =
    edited f what t (t ++ c ∷ u) (as_bytes (c ∷ u)) now h (as_bytes-ne-nil c u)
      (typing_from-typed (as_bytes t) (as_bytes (c ∷ u)) typed
        ∙ ap Edit.edits (sym (as_bytes-append t (c ∷ u))))
      chars

backspaced : (line : Bytes) → typing_from line 0 (0x7f ∷ []) ≡ Edit.edits (pop_char line)
unfolding typing_from stroke edit
backspaced line = refl

-- Backspace takes back exactly the character that was typed last, however many bytes it has.
pub prompt-backspace :
    (f : KeyFilter) (what : Prompting) (t : Text) (c now : ℕ)
    → f.prompt ≡ some (prompt_of what (t ++ c ∷ []))
    → All IsChar t
    → IsChar c
    → (out : KeyFilter × Keystrokes) × (filter_at f (0x7f ∷ []) now ≡ some out)
      × Edited f what t out
prompt-backspace f what t c now h chars char =
    edited f what (t ++ c ∷ []) t (0x7f ∷ []) now h (λ e. cc e)
      (backspaced (as_bytes (t ++ c ∷ []))
        ∙ ap (λ line. Edit.edits (pop_char line))
            (as_bytes-append t (c ∷ []) ∙ ap (λ k. as_bytes t ++ k) (single c))
        ∙ ap Edit.edits (pop_char-encode_char (as_bytes t) c char))
      chars
  where
    single : (c : ℕ) → as_bytes (c ∷ []) ≡ encode_char c
    single c = unfold as_bytes in append-nil (encode_char c)
