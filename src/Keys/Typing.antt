-- ===== src/Keys/Typing.antt =====
-- src/client/attach/keys.rs: `typing`, what a chunk does to an open prompt.
use manymux.Keys.{KeyFilter, Prompt, Prompting, Action, Find, Rename, esc, cr, lf}
use manymux.Keys.Encoded.{Encoded, parse_key, key_typed, key_text, sequence}
use manymux.Prelude.{
  ℕ, zero, suc, ◌-◌, Bool, ◌||◌, [], ◌∷◌, ◌++◌, Option, none, some, Bytes, leb, ◌==◌, within,
  if◌then◌else◌, unwrap_or, Text, ◌>>=◌, true, false,
}
use manymux.Std.Utf8.{continues, encode_char, from_utf8_lossy}

unfoldable pub prompt_action : Prompting → Find → Rename → Action
prompt_action Prompting.finding f r = Action.find f
prompt_action Prompting.sessions f r = Action.session_search r
prompt_action Prompting.renaming f r = Action.rename r
prompt_action Prompting.grouping f r = Action.group_name r

-- What is before the last byte that begins a character.
unfoldable pub before_last : Bytes → Option Bytes
before_last [] = none
before_last (b ∷ r) = elim (before_last r) [
  | some t ↦ some (b ∷ t)
  | none ↦ if continues b then none else some []
]

unfoldable pub pop_char : Bytes → Bytes
unfolding before_last
pop_char line = unwrap_or line (before_last line)

-- What is at the front of the input: a byte, or a character that a key stands for, or nothing.
pub data Stroke : Type 0 where
  byte : ℕ → Stroke
  text : ℕ → Stroke
  nothing : Stroke

unfoldable pub text_stroke : Option ℕ → Stroke
text_stroke none = Stroke.nothing
text_stroke (some c) = Stroke.text c

unfoldable pub key_stroke : Encoded → Stroke
unfolding text_stroke
key_stroke key = elim (key_typed key) [ some b ↦ Stroke.byte b | none ↦ text_stroke (key_text key) ]

-- With how many bytes after the first it takes.
unfoldable pub stroke : ℕ → Bytes → ℕ × Stroke
unfolding key_stroke
stroke b r =
    if b == esc
    then (elim (sequence (b ∷ r)) [
      | none ↦ (0, Stroke.byte b)
      | some len ↦ (
        len - 1,
        (elim (parse_key (b ∷ r)) [ none ↦ Stroke.nothing | some key ↦ key_stroke key ]),
      )
    ])
    else (0, Stroke.byte b)

pub data Edit : Type 0 where
  edits : Bytes → Edit
  runs : Bytes → Edit
  cancels : Edit

unfoldable pub edit : Bytes → Stroke → Edit
edit line (Stroke.text c) = Edit.edits (line ++ encode_char c)
edit line Stroke.nothing = Edit.edits line
edit line (Stroke.byte b) =
    if b == cr || b == lf
    then Edit.runs line
    else if b == esc
    then Edit.cancels
    else if b == 0x08 || b == 0x7f
    then Edit.edits (pop_char line)
    else if b == 0x15
    then Edit.edits []
    else if within 0x20 0x7e b || leb 0x80 b
    then Edit.edits (line ++ b ∷ [])
    else Edit.edits line

-- How the chunk leaves the prompt, and its line. The number is how many bytes of a sequence are still
-- to be passed over.
unfoldable pub typing_from : Bytes → ℕ → Bytes → Edit
typing_from line k [] = Edit.edits line
typing_from line (suc k) (b ∷ r) = typing_from line k r
typing_from line zero (b ∷ r) = elim (edit line (stroke b r).1) [
  | edits line' ↦ typing_from line' (stroke b r).0 r
  | runs line' ↦ Edit.runs line'
  | cancels ↦ Edit.cancels
]

unfoldable pub kept_line : KeyFilter → Prompt → Bytes → KeyFilter
kept_line f prompt line = record f { prompt = some (record prompt { line = line }) }

unfoldable pub typing : KeyFilter → Prompt → Bytes → KeyFilter × Action
unfolding kept_line
typing f prompt input = elim (typing_from prompt.line 0 input) [
  | edits line ↦ (kept_line f prompt line, prompt_action prompt.what Find.typed Rename.typed)
  | runs line ↦ (kept_line f prompt line, prompt_action prompt.what Find.run Rename.run)
  | cancels ↦ (record f { prompt = none }, prompt_action prompt.what Find.cancel Rename.cancel)
]

unfoldable pub same_prompting : Prompting → Prompting → Bool
same_prompting Prompting.finding Prompting.finding = true
same_prompting Prompting.sessions Prompting.sessions = true
same_prompting Prompting.renaming Prompting.renaming = true
same_prompting Prompting.grouping Prompting.grouping = true
same_prompting a b = false

-- `typed`: the line of the prompt, if it is this prompt that is open.
unfoldable pub typed_line : KeyFilter → Prompting → Option Text
typed_line f what = do
  prompt ← f.prompt
  if same_prompting prompt.what what then some (from_utf8_lossy prompt.line) else none

abbrev pub needle : KeyFilter → Option Text
needle f = typed_line f Prompting.finding

abbrev pub session_query : KeyFilter → Option Text
session_query f = typed_line f Prompting.sessions

abbrev pub wanted_name : KeyFilter → Option Text
wanted_name f = typed_line f Prompting.renaming

abbrev pub wanted_group : KeyFilter → Option Text
wanted_group f = typed_line f Prompting.grouping
