-- ===== src/Tests/Keys.antt =====
-- Witnesses and runs on keys: src/client/attach/keys.rs.
use manymux.Keys.{
  KeyFilter, Keystrokes, Prompting, Action, Scroll, Mode, new_filter, default_prefix, after,
}
use manymux.Keys.Encoded.{up_to}
use manymux.Keys.Ends.{Filtered, filter_at-Filtered}
use manymux.Keys.Filter.{
  filter_at, turn, finish, set_scroll, set_wheel, mouse_turn, after_mouse, wheel_report,
}
use manymux.Keys.Mouse.{
  mousing, mouse_wheel, parse_report, report_scroll, wheel_run, next_notch, wheel_action,
}
use manymux.Keys.Plain.{IsFocused, IsPlain, held, released, mode_key-given_back, mode_key-twice}
use manymux.Keys.Prompts.{Edited, prompt_of, prompt-backspace}
use manymux.Keys.Silent.{filter_at-silent}
use manymux.Keys.Tables.{controlling}
use manymux.Keys.Used.{made, scroll_set, wheel_set, IsUsable, Used-IsUsable}
use manymux.Prelude.{
  true, [], ◌∷◌, ◌++◌, none, some, Bytes, codes, All, ltb, if◌then◌else◌, ◌≡◌, refl, arith,
}
use manymux.Std.Decimal.{parse_to}
use manymux.Std.Strings.{strip_prefix, split}
use manymux.Std.Utf8.{from_utf8, check, head}

abbrev fresh : KeyFilter
fresh = new_filter default_prefix

-- A chunk that a terminal sends.
abbrev shell_line : Bytes
shell_line = codes "ls -l"

fresh-IsFocused : IsFocused fresh
unfolding new_filter
fresh-IsFocused = record { focused = refl; unprompted = refl; wheel_off = refl }

shell_line-IsPlain : All (IsPlain fresh) shell_line
unfolding new_filter
shell_line-IsPlain = ground arith

mode_key-given_back_example :
    filter_at fresh (fresh.prefix ∷ b'z' ∷ shell_line) 5
    ≡ some (
      released fresh,
      record {
        forward = fresh.prefix ∷ b'z' ∷ shell_line;
        action = none;
        mode = Mode.focus;
        rest = [];
      },
    )
unfolding new_filter controlling
mode_key-given_back_example =
    mode_key-given_back fresh b'z' shell_line 5 fresh-IsFocused (λ e. absurd (omega arith))
      (λ e. absurd (omega arith)) (λ e. absurd (omega arith)) (λ e. absurd (omega arith)) refl
      shell_line-IsPlain

mode_key-twice_example :
    (filter_at fresh (fresh.prefix ∷ []) 1000
      ≡ some
          (held fresh 1000, record { forward = []; action = none; mode = Mode.control; rest = [] }))
    × (filter_at (held fresh 1000) (fresh.prefix ∷ shell_line) 1200
        ≡ some (
          released fresh,
          record {
            forward = (if ltb 200 3000 then fresh.prefix ∷ shell_line else shell_line);
            action = none;
            mode = Mode.focus;
            rest = [];
          },
        ))
unfolding new_filter
mode_key-twice_example =
    mode_key-twice fresh shell_line 1000 1200 fresh-IsFocused (λ e. absurd (omega arith))
      shell_line-IsPlain

filter_at-Filtered_example :
    (out : KeyFilter × Keystrokes) × (filter_at fresh (codes "\u{1b}[93;5uj\u{1b}[A") 5 ≡ some out)
    × Filtered fresh (codes "\u{1b}[93;5uj\u{1b}[A") out
filter_at-Filtered_example = filter_at-Filtered fresh (codes "\u{1b}[93;5uj\u{1b}[A") 5

-- The line "hé" at the prompt of a search through the history.
abbrev searching : KeyFilter
searching = record fresh {
  mode = Mode.scroll;
  prompt = some (prompt_of Prompting.finding (codes "h"));
}

abbrev naming : KeyFilter
naming = record fresh {
  mode = Mode.rename;
  prompt = some (prompt_of Prompting.renaming (codes "pié"));
}

prompt-backspace_example :
    (out : KeyFilter × Keystrokes) × (filter_at naming (0x7f ∷ []) 5 ≡ some out)
    × Edited naming Prompting.renaming (codes "pi") out
prompt-backspace_example =
    prompt-backspace naming Prompting.renaming (codes "pi") 0xe9 5 refl (ground arith)
      (ground arith)

-- A spin of the wheel, an arrow and letters, in the history.
abbrev scrolled_back : KeyFilter
scrolled_back = record fresh { mode = Mode.scroll; scroll = true; wheel = true }

abbrev gestures : Bytes
gestures = 0x1b ∷ codes "[<64;10;5M" ++ 0x1b ∷ codes "[5~" ++ codes "xyz"

filter_at-silent_example :
    (out : KeyFilter × Keystrokes) × (filter_at scrolled_back gestures 5 ≡ some out)
    × (out.1.forward ≡ [])
unfolding new_filter
filter_at-silent_example = filter_at-silent scrolled_back gestures 5 refl

Used-IsUsable_example :
    IsUsable default_prefix (set_wheel (set_scroll (new_filter default_prefix) true) true)
Used-IsUsable_example = Used-IsUsable (wheel_set true (scroll_set true made))

-- The source's test `a_notch_on_the_live_session_opens_the_view`.
notch_opens :
    filter_at (set_wheel (set_scroll fresh true) true) (0x1b ∷ codes "[<64;10;5M") 0
    ≡ some (
      record (set_wheel (set_scroll fresh true) true) { mode = Mode.scroll },
      record {
        forward = [];
        action = some (Action.scroll (Scroll.up 3));
        mode = Mode.scroll;
        rest = [];
      },
    )
unfolding filter_at turn mouse_turn wheel_report mousing mouse_wheel parse_report report_scroll
    wheel_run wheel_action next_notch after_mouse finish set_wheel set_scroll new_filter
    strip_prefix up_to from_utf8 check head split parse_to after
notch_opens = refl
