-- ===== src/Shell/Commands.antt =====
-- What a POSIX shell makes of the first word of a line before it runs a command, and what it runs of a line
-- that was joined by src/shell.rs. Aliases are left out.
use manymux.Prelude.{
  ℕ, Bool, true, false, not, ◌&&◌, ◌||◌, List, [], ◌∷◌, ◌++◌, Option, none, some, Text, codes, any,
  same, ◌==◌, within, All, if◌then◌else◌, ◌≡◌, refl, sym, ap, ◌∙◌, arith, Bool-cases, inl, inr,
  append-nil,
}
use manymux.Shell.{safe, all_safe, replace_quotes, quote, join}
use manymux.Shell.Words.{read, between, read-join, as_bytes-safe, safe-ascii}
use manymux.Std.Utf8.{as_bytes}

abbrev is_letter : ℕ → Bool
is_letter c = within b'a' b'z' c || within b'A' b'Z' c || c == b'_'

abbrev is_name : ℕ → Bool
is_name c = is_letter c || within b'0' b'9' c

unfoldable assigns_from : Text → Bool
assigns_from [] = false
assigns_from (c ∷ line) = let more = assigns_from line in c == b'=' || (is_name c && more)

-- A name that is not quoted, and `=` behind it.
unfoldable pub assigns : Text → Bool
unfolding assigns_from
assigns [] = false
assigns (c ∷ line) = is_letter c && assigns_from line

-- What stands before the first blank.
unfoldable pub first_token : Text → Text
first_token [] = []
first_token (c ∷ line) = let more = first_token line in if c == b' ' then [] else c ∷ more

-- The reserved words that a shell looks for where a command begins.
abbrev reserved_words : List Text
reserved_words =
    codes "if"
    ∷ codes "then"
    ∷ codes "else"
    ∷ codes "elif"
    ∷ codes "fi"
    ∷ codes "do"
    ∷ codes "done"
    ∷ codes "case"
    ∷ codes "esac"
    ∷ codes "while"
    ∷ codes "until"
    ∷ codes "for"
    ∷ codes "{"
    ∷ codes "}"
    ∷ codes "!"
    ∷ []

unfoldable pub is_reserved : Text → Bool
is_reserved token = any (same token) reserved_words

-- The words of the command that a line is, or nothing where it is none or more than one.
unfoldable pub command : Text → Option (List Text)
unfolding assigns is_reserved
command line = if assigns line || is_reserved (first_token line) then none else read between [] line

-- A word that needs no quotes and that a shell takes for something else where a command begins.
unfoldable pub is_taken : List Text → Bool
unfolding all_safe assigns is_reserved
is_taken [] = false
is_taken (arg ∷ args) =
    (not (same arg []) && all_safe (as_bytes arg)) && (assigns arg || is_reserved arg)

-- What stands behind the first word of a line that was joined.
behind : List Text → Text
behind [] = []
behind (next ∷ args) = b' ' ∷ join (next ∷ args)

join-behind : (arg : Text) (args : List Text) → join (arg ∷ args) ≡ quote arg ++ behind args
unfolding join behind
join-behind arg [] = sym (append-nil (quote arg))
join-behind arg (next ∷ args) = refl

assigns_from-append :
    (s : Text) (args : List Text) → assigns_from (s ++ behind args) ≡ assigns_from s
unfolding assigns_from behind
assigns_from-append [] [] = refl
assigns_from-append [] (next ∷ args) = refl
assigns_from-append (c ∷ s) args = rw (assigns_from-append s args) refl

assigns-append : (s : Text) (args : List Text) → assigns (s ++ behind args) ≡ assigns s
unfolding assigns behind
assigns-append [] [] = refl
assigns-append [] (next ∷ args) = refl
assigns-append (c ∷ s) args = rw (assigns_from-append s args) refl

first_token-append :
    (s : Text) (args : List Text) → All (λ c. safe c ≡ true) s → first_token (s ++ behind args) ≡ s
unfolding first_token behind
first_token-append [] [] h = refl
first_token-append [] (next ∷ args) h = refl
first_token-append (c ∷ s) args h =
    let (low, ordinary, blank, single, back) = safe-ascii c h.0 in
    rw (blank, first_token-append s args h.1) refl

-- What begins with a quote is neither.
quoted-plain :
    (line : Text) → (assigns (b'\'' ∷ line) || is_reserved (first_token (b'\'' ∷ line))) ≡ false
unfolding assigns is_reserved first_token same
quoted-plain line = refl

taken-behind :
    (arg : Text) (args : List Text)
    → (assigns (quote arg ++ behind args) || is_reserved (first_token (quote arg ++ behind args)))
      ≡ is_taken (arg ∷ args)
unfolding quote is_taken
taken-behind arg args = elim (Bool-cases (not (same arg []) && all_safe (as_bytes arg))) [
  | inl e ↦
      let safe_all : All (λ c. safe c ≡ true) arg = as_bytes-safe arg (ground (arith, e)) in
      rw (e, assigns-append arg args, first_token-append arg args safe_all) refl
  | inr e ↦ rw e (quoted-plain ((replace_quotes arg ++ b'\'' ∷ []) ++ behind args))
]

-- What was joined is a command of exactly the words that were joined, whatever is in them, but where the first
-- one needs no quotes and is an assignment or a reserved word; then it is no such command.
pub command-join :
    (args : List Text) → command (join args) ≡ (if is_taken args then none else some args)
unfolding command
command-join [] = unfold join is_taken read assigns first_token is_reserved same in refl
command-join (arg ∷ args) =
    rw (join-behind arg args, taken-behind arg args)
      (ap (λ (words : Option (List Text)). if is_taken (arg ∷ args) then none else words)
        (ap (read between []) (sym (join-behind arg args)) ∙ read-join (arg ∷ args)))
