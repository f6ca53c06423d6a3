-- ===== src/Paste/Uploads.antt =====
-- A paste is written whole or not at all.
use manymux.Prelude.{
  ◌+◌, ◌≤◌, ◌<◌, true, false, List, [], ◌∷◌, ◌++◌, Text, Bytes, ◌≡◌, refl, arith, ap, ◌∙◌, length,
  length-append, concat, append_assoc, append-nil, ltb, if◌then◌else◌, Bool-cases, inl, inr, tests,
}
use manymux.Paste.{
  Paste, empty, accept, take, take_all, finish, finished, Finished, over_limit, max_paste,
}

accept-bytes :
    (held : Bytes) (p : Paste) (chunk : Bytes)
    → accept held p chunk ≡ record p { bytes = held ++ chunk }
unfolding accept
accept-bytes [] p chunk = refl
accept-bytes (b ∷ held) p chunk = refl

take_fits :
    (held chunk : Bytes)
    → length held + length chunk ≤ max_paste
    → take (record { bytes = held; too_big = false }) chunk
      ≡ record { bytes = held ++ chunk; too_big = false }
unfolding take
take_fits held chunk h =
    ground (arith, accept-bytes held (record { bytes = held; too_big = false }) chunk)

take_over :
    (held chunk : Bytes)
    → max_paste < length held + length chunk
    → take (record { bytes = held; too_big = false }) chunk ≡ record { bytes = []; too_big = true }
unfolding take
take_over held chunk h = ground arith

refused :
    (chunks : List Bytes)
    → take_all (record { bytes = []; too_big = true }) chunks
      ≡ record { bytes = []; too_big = true }
unfolding take_all
refused [] = refl
refused (chunk ∷ chunks) = refused chunks

take_all_fits :
    (held : Bytes) (chunks : List Bytes)
    → length held + length (concat chunks) ≤ max_paste
    → take_all (record { bytes = held; too_big = false }) chunks
      ≡ record { bytes = held ++ concat chunks; too_big = false }
unfolding take_all
take_all_fits held [] h = rw append-nil
take_all_fits held (chunk ∷ chunks) h =
    let both = length-append chunk (concat chunks) in
    ap (λ p. take_all p chunks) (take_fits held chunk (omega (arith, both)))
    ∙ take_all_fits (held ++ chunk) chunks (omega (arith, both, length-append held chunk))
    ∙ rw append_assoc

take_all_over :
    (held : Bytes) (chunks : List Bytes)
    → max_paste < length held + length (concat chunks)
    → length held ≤ max_paste
    → take_all (record { bytes = held; too_big = false }) chunks
      ≡ record { bytes = []; too_big = true }
unfolding take_all
take_all_over held [] h le = absurd (omega arith)
take_all_over held (chunk ∷ chunks) h le =
    elim (Bool-cases (ltb max_paste (length held + length chunk))) [
      | inl over ↦
          ap (λ p. take_all p chunks) (take_over held chunk (omega (tests, over))) ∙ refused chunks
      | inr fits ↦
          let room : length held + length chunk ≤ max_paste = ground (arith, fits) in
          ap (λ p. take_all p chunks) (take_fits held chunk room)
          ∙ take_all_over (held ++ chunk) chunks
              (omega (arith, length-append chunk (concat chunks), length-append held chunk))
              (omega (arith, length-append held chunk, room))
    ]

-- What the end of a paste does with the file that its chunks make up.
abbrev pub outcome : Text → Bytes → Finished
outcome kind file = if ltb max_paste (length file) then over_limit else finished kind file

-- However a file is cut into chunks, the end of its paste writes exactly that file, unless it is empty
-- or over the limit, when nothing is written; and in every case the next paste starts from nothing.
pub finish-take_all :
    (chunks : List Bytes) (kind : Text)
    → finish (take_all empty chunks) kind ≡ (outcome kind (concat chunks), empty)
unfolding finish
finish-take_all chunks kind = elim (Bool-cases (ltb max_paste (length (concat chunks)))) [
  | inl over ↦ rw (take_all_over [] chunks (omega (tests, over)) (omega arith)) (rw over refl)
  | inr fits ↦ rw (take_all_fits [] chunks (ground (arith, fits))) (rw fits refl)
]
