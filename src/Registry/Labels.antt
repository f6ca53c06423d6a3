-- ===== src/Registry/Labels.antt =====
-- src/node/session.rs: what a session is called after the command that it runs.
use manymux.Prelude.{
  not, ◌&&◌, List, [], ◌∷◌, ◌++◌, Option, none, some, Text, codes, keep, last?, same, ◌==◌,
  if◌then◌else◌,
}
use manymux.Std.Strings.{split}

-- `Path::file_name`.
unfoldable pub base_name : Text → Option Text
base_name path =
    elim (last?
      (keep (λ part. not (same part []) && not (same part (codes "."))) (split b'/' path))) [
        | none ↦ none
        | some part ↦ if same part (codes "..") then none else some part
      ]

unfoldable pub trim_dashes : Text → Text
trim_dashes [] = []
trim_dashes (c ∷ s) = let rest = trim_dashes s in if c == b'-' then rest else c ∷ s

unfoldable pub join_words : List Text → Text
join_words [] = []
join_words (word ∷ []) = word
join_words (word ∷ next ∷ words) = word ++ (b' ' ∷ join_words (next ∷ words))

abbrev pub or_whole : Text → Option Text → Text
or_whole path none = path
or_whole path (some part) = part

unfoldable pub describe : List Text → Text
unfolding base_name trim_dashes join_words
describe [] = []
describe (path ∷ []) = trim_dashes (or_whole path (base_name path))
describe (path ∷ word ∷ words) =
    trim_dashes (or_whole path (base_name path)) ++ (b' ' ∷ join_words (word ∷ words))
