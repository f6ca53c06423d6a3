-- ===== src/Signature/Checked.antt =====
-- src/signature.rs: a release is its key's exactly where signature and key have their lengths, the key is usable
-- and the scheme verifies the bytes that the two are spelled with.
use mathlib.Core.Option.{some-injective}
use manymux.Prelude.{
  ℕ, ◌+◌, ◌*◌, ◌<◌, ◌≤◌, Bool, true, false, List, [], ◌∷◌, Option, none, some, Text, length, leb,
  ◌==◌, ◌≡◌, ◌↔◌, refl, arith, if◌then◌else◌, ap, sym, subst, ◌∙◌, Bool-cases, inl, inr,
}
use manymux.Signature.{
  ok, err, Signed, Refused, digit, from_pair, from_pairs, unhex, sized, check, check_by, check_with,
  with_key,
}
use manymux.Std.Strings.{trim, trim_end, trim_start}
use manymux.Std.Utf8.{as_bytes, encode_char}

-- A hexadecimal digit and what it is worth: decimal, or a letter of either case.
pub data IsDigit : ℕ → ℕ → Type 0 where
  decimal : (d : ℕ) → d < 10 → IsDigit (48 + d) d
  lower : (d : ℕ) → d < 6 → IsDigit (97 + d) (10 + d)
  upper : (d : ℕ) → d < 6 → IsDigit (65 + d) (10 + d)

-- A text that spells these bytes, two digits each.
pub data Spells : Text → List ℕ → Type 0 where
  nothing : Spells [] []
  pair :
      (a b high low : ℕ) (text : Text) (bytes : List ℕ)
      → IsDigit a high
      → IsDigit b low
      → Spells text bytes
      → Spells (a ∷ b ∷ text) ((16 * high + low) ∷ bytes)

IsDigit-digit : (c d : ℕ) → IsDigit c d → digit c ≡ some d
unfolding digit
IsDigit-digit _ _ (decimal d h) = ground arith
IsDigit-digit _ _ (lower d h) = ground arith
IsDigit-digit _ _ (upper d h) = ground arith

IsDigit-plain : (c d : ℕ) → IsDigit c d → (c == b'+') ≡ false
IsDigit-plain _ _ (decimal d h) = ground arith
IsDigit-plain _ _ (lower d h) = ground arith
IsDigit-plain _ _ (upper d h) = ground arith

IsDigit-ascii : (c d : ℕ) → IsDigit c d → encode_char c ≡ c ∷ []
unfolding encode_char
IsDigit-ascii _ _ (decimal d h) = ground arith
IsDigit-ascii _ _ (lower d h) = ground arith
IsDigit-ascii _ _ (upper d h) = ground arith

Spells-from_pairs :
    (text : Text) (bytes : List ℕ) → Spells text bytes → from_pairs (as_bytes text) ≡ some bytes
unfolding from_pairs from_pair as_bytes
Spells-from_pairs _ _ nothing = refl
Spells-from_pairs _ _ (pair a b high low text bytes ha hb more) =
    rw
      (
        IsDigit-ascii a high ha,
        IsDigit-ascii b low hb,
        IsDigit-plain a high ha,
        IsDigit-digit a high ha,
        IsDigit-digit b low hb,
        Spells-from_pairs text bytes more,
      )
      refl

Spells-unhex : (text : Text) (bytes : List ℕ) → Spells (trim text) bytes → unhex text ≡ some bytes
unfolding unhex
Spells-unhex text bytes h = Spells-from_pairs (trim text) bytes h

spelled_nothing : (text : Text) (bytes : List ℕ) → Spells text bytes → text ≡ [] → length bytes ≡ 0
spelled_nothing _ _ nothing e = refl
spelled_nothing _ _ (pair a b high low text bytes ha hb more) e = cc e

Spells-some :
    (text : Text) (bytes : List ℕ)
    → Spells (trim text) bytes
    → 1 ≤ length bytes
    → leb (length text) 0 ≡ false
Spells-some [] bytes h few =
    let empty = spelled_nothing (trim []) bytes h (unfold trim trim_end trim_start in refl) in
    absurd (omega (arith, empty, few))
Spells-some (c ∷ text) bytes h few = ground arith

sized-cases :
    (n : ℕ) (bytes : List ℕ)
    → sized n (some bytes) ≡ (if length bytes == n then some bytes else none)
unfolding sized
sized-cases n bytes = ground arith

module _ {ℓ} {Key : Type ℓ} (usable : List ℕ → Option Key)
    (verify : Key → List ℕ → List ℕ → Bool) where
  chosen : (b : Bool) (x y : List ℕ) → (if b then some x else none) ≡ some y → (b ≡ true) × (x ≡ y)
  chosen true x y h = (refl, some-injective _ _ h)
  chosen false x y h = cc h

  with_key-by :
      (signed : List ℕ) (text : Text) (o : Option (List ℕ))
      → with_key usable verify signed (some text) o ≡ ok Signed.by
      → (raw : List ℕ) × (key : Key) × (o ≡ some raw)
        × (usable raw ≡ some key)
        × (check_by usable verify signed (some text) key ≡ ok Signed.by)
  unfolding with_key
  with_key-by signed text none h = cc h
  with_key-by signed text (some raw) h = go (usable raw) refl h
    where
      go :
          (u : Option Key)
          → usable raw ≡ u
          → (elim u [
            | none ↦ err Refused.unusable_key
            | some key ↦ check_by usable verify signed (some text) key
          ])
            ≡ ok Signed.by
          → (raw' : List ℕ) × (key : Key) × (some raw ≡ some raw')
            × (usable raw' ≡ some key)
            × (check_by usable verify signed (some text) key ≡ ok Signed.by)
      go none e h = cc h
      go (some key) e h = (raw, key, refl, e, h)

  with_key-usable :
      (signed : List ℕ) (text : Text) (raw : List ℕ) (key : Key)
      → usable raw ≡ some key
      → with_key usable verify signed (some text) (some raw)
        ≡ check_by usable verify signed (some text) key
  unfolding with_key
  with_key-usable signed text raw key e = rw (with_key, e) refl

  check_with-by :
      (signed : List ℕ) (o : Option (List ℕ)) (key : Key)
      → check_with usable verify signed o key ≡ ok Signed.by
      → (signature : List ℕ) × (o ≡ some signature) × (verify key signed signature ≡ true)
  unfolding check_with
  check_with-by signed none key h = cc h
  check_with-by signed (some signature) key h = elim (Bool-cases (verify key signed signature)) [
    | inl e ↦ (signature, refl, e)
    | inr e ↦
        let no : err Refused.not_this_keys ≡ ok Signed.by =
          subst (λ b. (if b then ok Signed.by else err Refused.not_this_keys) ≡ ok Signed.by) e h in
        cc no
  ]

  -- What makes a release the key's.
  pub record IsSigned (signed signature raw : List ℕ) : Type ℓ where
    pub key : Key
    pub key_length : length raw ≡ 32
    pub signature_length : length signature ≡ 64
    pub is_usable : usable raw ≡ some key
    pub verified : verify key signed signature ≡ true

  -- With a key compiled in, a release whose signature and key are spelled in hexadecimal, digits of either
  -- case and blanks around them, is taken for the key's exactly where the key has 32 bytes and is usable, the
  -- signature has 64, and the scheme verifies them.
  pub check-IsSigned :
      (signed signature raw : List ℕ) (signature_text key_text : Text)
      → Spells (trim signature_text) signature
      → Spells (trim key_text) raw
      → 1 ≤ length raw
      → (check usable verify signed (some signature_text) key_text ≡ ok Signed.by)
        ↔ IsSigned signed signature raw
  check-IsSigned signed signature raw signature_text key_text hs hk compiled = (taken, given)
    where
      by_signature :
          (key : Key)
          → check_by usable verify signed (some signature_text) key
            ≡ check_with usable verify signed
                (if length signature == 64 then some signature else none)
                key
      by_signature key =
          unfold check_by in
          rw (Spells-unhex signature_text signature hs, sized-cases 64 signature) refl

      by_key :
          check usable verify signed (some signature_text) key_text
          ≡ with_key usable verify signed
              (some signature_text)
              (if length raw == 32 then some raw else none)
      by_key =
          unfold check in
          rw
            (Spells-some key_text raw hk compiled, Spells-unhex key_text raw hk, sized-cases 32 raw)
            refl

      taken :
          check usable verify signed (some signature_text) key_text ≡ ok Signed.by
          → IsSigned signed signature raw
      taken h =
          let (raw', key, is_raw, is_usable, checked) =
            with_key-by signed signature_text (if length raw == 32 then some raw else none)
              (sym by_key ∙ h) in
          let (signature', is_signature, verified) =
            check_with-by signed (if length signature == 64 then some signature else none) key
              (sym (by_signature key) ∙ checked) in
          let (n, at) = chosen (length raw == 32) raw raw' is_raw in
          let (m, there) = chosen (length signature == 64) signature signature' is_signature in
          record {
            key = key;
            key_length = ground (arith, n);
            signature_length = ground (arith, m);
            is_usable = ap usable at ∙ is_usable;
            verified = ap (verify key signed) there ∙ verified;
          }

      given :
          IsSigned signed signature raw
          → check usable verify signed (some signature_text) key_text ≡ ok Signed.by
      given h =
          let n : (length raw == 32) ≡ true = ground (arith, h.key_length) in
          let m : (length signature == 64) ≡ true = ground (arith, h.signature_length) in
          let checked : check_by usable verify signed (some signature_text) h.key ≡ ok Signed.by =
            by_signature h.key ∙ (unfold check_with in rw (m, check_with, h.verified) refl) in
          by_key ∙ (rw n (with_key-usable signed signature_text raw h.key h.is_usable)) ∙ checked
