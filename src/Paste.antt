-- ===== src/Paste.antt =====
-- src/node/paste.rs and the `Paste` of src/node/mod.rs: a file that arrives a frame at a time, is
-- written down under a name of the node's own, and reaches the program as a path.
pub mod Uploads
pub mod Names
use manymux.Prelude.{
  ℕ, suc, ◌+◌, ◌-◌, ◌*◌, ◌^◌, ◌≤◌, Bool, true, false, not, ◌&&◌, List, [], ◌∷◌, ◌++◌, Option, none,
  some, Text, Bytes, length, map, first, keep, codes, same, ltb, ◌==◌, if◌then◌else◌, within,
}
use manymux.Std.Decimal.{decimal}
use manymux.Std.Strings.{trim}

-- Seconds.
abbrev pub keep_for : ℕ
keep_for = 24 * 60 * 60

abbrev pub kinds : List Text
kinds = codes "png" ∷ codes "jpg" ∷ codes "gif" ∷ codes "webp" ∷ []

unfoldable pub to_ascii_lowercase : Text → Text
to_ascii_lowercase = map (λ c. if within b'A' b'Z' c then c + 32 else c)

abbrev pub or_bin : Option Text → Text
or_bin none = codes "bin"
or_bin (some k) = k

unfoldable pub extension : Text → Text
unfolding to_ascii_lowercase
extension kind =
    let kind = to_ascii_lowercase (trim kind) in or_bin (first (λ known. same known kind) kinds)

-- The name of the paste number `n`, made at `seconds`.
unfoldable pub file_name : ℕ → ℕ → Text → Text
file_name seconds n kind =
    codes "paste-" ++ (decimal seconds ++ (b'-' ∷ decimal n ++ (b'.' ∷ extension kind)))

unfoldable pub typed : Text → Bool → Text
typed path bracketed =
    if bracketed
    then 0x1b ∷ codes "[200~" ++ (path ++ (0x1b ∷ codes "[201~ "))
    else path ++ codes " "

-- A file in the directory, with its age where the file system says it.
pub record Entry : Type 0 where
  pub path : Text
  pub age : Option ℕ

abbrev pub is_stale : Option ℕ → Bool
is_stale none = false
is_stale (some age) = ltb keep_for age

unfoldable pub prune : List Entry → List Entry
prune = keep (λ entry. not (is_stale entry.age))

abbrev pub max_paste : ℕ
max_paste = 16 * 2 ^ 20

pub record Paste : Type 0 where
  pub bytes : Bytes
  pub too_big : Bool

abbrev pub empty : Paste
empty = record { bytes = []; too_big = false }

unfoldable pub accept : Bytes → Paste → Bytes → Paste
accept [] p chunk = record p { bytes = chunk }
accept (b ∷ bytes) p chunk = record p { bytes = (b ∷ bytes) ++ chunk }

unfoldable pub take : Paste → Bytes → Paste
unfolding accept
take p chunk =
    if p.too_big
    then p
    else if ltb max_paste (length p.bytes + length chunk)
    then record { too_big = true; bytes = [] }
    else accept p.bytes p chunk

-- What the end of a paste comes to: `paste::write` is called with the bytes, or it is refused.
pub data Finished : Type 0 where
  over_limit : Finished
  no_bytes : Finished
  write : Text → Bytes → Finished

abbrev pub finished : Text → Bytes → Finished
finished kind [] = no_bytes
finished kind (b ∷ bytes) = write kind (b ∷ bytes)

unfoldable pub finish : Paste → Text → Finished × Paste
finish p kind = (if p.too_big then over_limit else finished kind p.bytes, empty)

unfoldable pub take_all : Paste → List Bytes → Paste
unfolding take
take_all p [] = p
take_all p (chunk ∷ chunks) = take_all (take p chunk) chunks
