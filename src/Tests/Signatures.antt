-- ===== src/Tests/Signatures.antt =====
-- A witness on a release's signature: src/signature.rs.
use manymux.Prelude.{
  ℕ, zero, suc, Bool, List, [], ◌∷◌, Option, some, Text, length, ltb, ◌≡◌, ◌↔◌, arith,
}
use manymux.Signature.{Signed, ok, check}
use manymux.Signature.Checked.{Spells, nothing, pair, IsSigned, check-IsSigned, decimal, upper}
use manymux.Std.Strings.{trim, trim_start, trim_end, is_whitespace}

-- So many bytes, and how they are written: in capitals, with blanks around them.
abbrev bytes : ℕ → List ℕ
bytes zero = []
bytes (suc n) = 167 ∷ bytes n

abbrev digits : ℕ → Text → Text
digits zero text = text
digits (suc n) text = b'A' ∷ b'7' ∷ digits n text

spelled : (n : ℕ) → Spells (digits n []) (bytes n)
spelled zero = nothing
spelled (suc n) =
    pair b'A' b'7' 10 7 (digits n []) (bytes n) (upper 0 (omega arith)) (decimal 7 (omega arith))
      (spelled n)

abbrev any_key : List ℕ → Option ℕ
any_key raw = some (length raw)

-- A scheme that takes a signature of what is shorter than it.
abbrev longer : ℕ → List ℕ → List ℕ → Bool
longer key signed signature = ltb (length signed) (length signature)

check-IsSigned_example :
    (check any_key longer (1 ∷ 2 ∷ []) (some (b' ' ∷ digits 64 (10 ∷ []))) (digits 32 [])
      ≡ ok Signed.by)
    ↔ IsSigned any_key longer (1 ∷ 2 ∷ []) (bytes 64) (bytes 32)
unfolding trim trim_start trim_end is_whitespace
check-IsSigned_example =
    check-IsSigned any_key longer (1 ∷ 2 ∷ []) (bytes 64) (bytes 32) (b' ' ∷ digits 64 (10 ∷ []))
      (digits 32 []) (spelled 64) (spelled 32) (omega arith)
