-- ===== src/Shell/Words.antt =====
-- How a POSIX shell cuts a line into words and takes the quotes off them, before it looks at what the words
-- say (Shell/Commands), and what it cuts a line into that src/shell.rs joined.
use manymux.Prelude.{
  ℕ, ◌+◌, ◌/◌, ◌≤◌, ◌<◌, Bool, true, false, ◌&&◌, ◌||◌, List, [], ◌∷◌, ◌++◌, Option, none, some,
  Text, Bytes, codes, any, same, ◌==◌, ltb, if◌then◌else◌, ◌≡◌, refl, sym, ap, ◌∙◌, arith, All,
  Bool-cases, inl, inr, append-nil, append_assoc,
}
use manymux.Shell.{safe, all_safe, replace_quotes, quote, join}
use manymux.Std.Utf8.{as_bytes, encode_char}

-- Where the reader is: between words, or in a word, plain, in single quotes or behind a backslash.
pub data Place : Type 0 where
  between plain quoted escaped : Place

-- What means something to a shell where it is not quoted, and is neither a blank nor one of the two
-- quotes read here: operators, expansions, patterns, comments, and the control characters.
abbrev pub is_special : ℕ → Bool
is_special c = ltb c 32 || any (λ s. s == c) (codes "|&;<>()$`\"*?[]#~%!{}^")

abbrev pub cons_word : Text → Option (List Text) → Option (List Text)
cons_word word none = none
cons_word word (some words) = some (word ∷ words)

-- The words of a line, where `word` is what has been read of the one that is open. Nothing where a
-- quote is left open or the shell would do more than read words.
unfoldable pub read : Place → Text → Text → Option (List Text)
read between word [] = some []
read plain word [] = some (word ∷ [])
read quoted word [] = none
read escaped word [] = none
read between word (c ∷ line) =
    let blank = read between [] line in
    let open_quote = read quoted [] line in
    let backslash = read escaped [] line in
    let next = read plain (c ∷ []) line in
    if c == b' '
    then blank
    else if c == b'\''
    then open_quote
    else if c == b'\\'
    then backslash
    else if is_special c
    then none
    else next
read plain word (c ∷ line) =
    let blank = read between [] line in
    let open_quote = read quoted word line in
    let backslash = read escaped word line in
    let next = read plain (word ++ c ∷ []) line in
    if c == b' '
    then cons_word word blank
    else if c == b'\''
    then open_quote
    else if c == b'\\'
    then backslash
    else if is_special c
    then none
    else next
read quoted word (c ∷ line) =
    let closed = read plain word line in
    let next = read quoted (word ++ c ∷ []) line in if c == b'\'' then closed else next
read escaped word (c ∷ line) = read plain (word ++ c ∷ []) line

pub safe-ascii :
    (c : ℕ)
    → safe c ≡ true
    → (c < 128)
      × (is_special c ≡ false)
      × ((c == b' ') ≡ false)
      × ((c == b'\'') ≡ false)
      × ((c == b'\\') ≡ false)
unfolding safe
safe-ascii c h = ground (arith, h)

encode-safe :
    (c : ℕ) (rest : Bytes)
    → all_safe (encode_char c ++ rest) ≡ true
    → (safe c ≡ true) × (all_safe rest ≡ true)
unfolding encode_char all_safe
encode-safe c rest h = elim (Bool-cases (ltb c 128)) [
  | inl e ↦ let h' = rw e at h in (and_left _ _ h', and_right _ _ h')
  | inr e ↦ elim (Bool-cases (ltb c 0x800)) [
    | inl f ↦
        let h' = rw (e, f) at h in absurd (wide (0xc0 + c / 64) (omega arith) (and_left _ _ h'))
    | inr f ↦ elim (Bool-cases (ltb c 0x10000)) [
      | inl g ↦
          let h' = rw (e, f, g) at h in
          absurd (wide (0xe0 + c / 4096) (omega arith) (and_left _ _ h'))
      | inr g ↦
          let h' = rw (e, f, g) at h in
          absurd (wide (0xf0 + c / 262144) (omega arith) (and_left _ _ h'))
    ]
  ]
]
  where
    and_left : (a b : Bool) → (a && b) ≡ true → a ≡ true
    and_left true b h = refl
    and_left false b h = h

    and_right : (a b : Bool) → (a && b) ≡ true → b ≡ true
    and_right true b h = h
    and_right false b h = cc h

    wide : (b : ℕ) → 192 ≤ b → ¬ (safe b ≡ true)
    wide b le at = let small = (safe-ascii b at).0 in omega arith

pub as_bytes-safe : (s : Text) → all_safe (as_bytes s) ≡ true → All (λ c. safe c ≡ true) s
unfolding as_bytes
as_bytes-safe [] h = tt
as_bytes-safe (c ∷ s) h =
    let (here, there) = encode-safe c (as_bytes s) h in (here, as_bytes-safe s there)

read-plain :
    (word s rest : Text)
    → All (λ c. safe c ≡ true) s
    → read plain word (s ++ rest) ≡ read plain (word ++ s) rest
unfolding read
read-plain word [] rest h = rw (append-nil word) refl
read-plain word (c ∷ s) rest h =
    let (low, ordinary, blank, single, back) = safe-ascii c h.0 in
    rw (blank, single, back, ordinary)
      (read-plain (word ++ c ∷ []) s rest h.1
        ∙ ap (λ w. read plain w rest) (append_assoc word (c ∷ []) s))

read_quoted :
    (word s rest : Text)
    → read quoted word (replace_quotes s ++ b'\'' ∷ rest) ≡ read plain (word ++ s) rest
unfolding read replace_quotes
read_quoted word [] rest = rw (append-nil word) refl
read_quoted word (c ∷ s) rest = elim (Bool-cases (c == b'\'')) [
  | inl e ↦
      let at : c ≡ b'\'' = ground (arith, e) in
      rw at (
        read_quoted (word ++ b'\'' ∷ []) s rest
        ∙ ap (λ w. read plain w rest) (append_assoc word (b'\'' ∷ []) s))
  | inr e ↦
      rw (e, e)
        (read_quoted (word ++ c ∷ []) s rest
          ∙ ap (λ w. read plain w rest) (append_assoc word (c ∷ []) s))
]

read_between :
    (s rest : Text)
    → same s [] ≡ false
    → All (λ c. safe c ≡ true) s
    → read between [] (s ++ rest) ≡ read plain s rest
unfolding read same
read_between [] rest ne h = cc ne
read_between (c ∷ s) rest ne h =
    let (low, ordinary, blank, single, back) = safe-ascii c h.0 in
    rw (blank, single, back, ordinary) (read-plain (c ∷ []) s rest h.1)

read-quote : (arg rest : Text) → read between [] (quote arg ++ rest) ≡ read plain arg rest
unfolding quote read
read-quote arg rest = elim (Bool-cases (same arg [])) [
  | inl e ↦ rw e (
      ap (read quoted []) (append_assoc (replace_quotes arg) (b'\'' ∷ []) rest)
      ∙ read_quoted [] arg rest)
  | inr e ↦ elim (Bool-cases (all_safe (as_bytes arg))) [
    | inl f ↦ rw (e, f) (read_between arg rest e (as_bytes-safe arg f))
    | inr f ↦
        rw (e, f)
          (ap (read quoted []) (append_assoc (replace_quotes arg) (b'\'' ∷ []) rest)
            ∙ read_quoted [] arg rest)
  ]
]

-- A line that was joined is cut into the words that were joined, whatever is in them, with nothing left of
-- the quotes and nothing that is more than a word.
pub read-join : (args : List Text) → read between [] (join args) ≡ some args
unfolding join read
read-join [] = refl
read-join (arg ∷ []) = ap (read between []) (sym (append-nil (quote arg))) ∙ read-quote arg []
read-join (arg ∷ next ∷ args) =
    read-quote arg (b' ' ∷ join (next ∷ args)) ∙ ap (cons_word arg) (read-join (next ∷ args))
