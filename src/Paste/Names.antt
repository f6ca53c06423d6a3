-- ===== src/Paste/Names.antt =====
-- The name under which a paste is written: nothing of the client's in it, and never the same twice.
use manymux.Prelude.{
  ℕ, List, [], ◌∷◌, ◌++◌, Option, none, some, Text, Bool, ◌≡◌, ◌≢◌, arith, ap, sym, ◌∙◌, All,
  All-append, All-mono, first, codes, same, drop, if_holds,
}
use manymux.Paste.{kinds, or_bin, extension, file_name, to_ascii_lowercase}
use manymux.Std.Decimal.{IsDigit, decimal}
use manymux.Std.Decimal.RoundTrip.{decimal-IsDigit, decimal-injective}
use manymux.Std.Strings.{split_once, trim}
use manymux.Std.Strings.Fields.{Lacks, split_once-append}

abbrev pub MaybeHolds : (Text → Type 0) → Option Text → Type 0
MaybeHolds P none = Unit
MaybeHolds P (some t) = P t

first-All :
    (P : Text → Type 0) (p : Text → Bool) (ts : List Text) → All P ts → MaybeHolds P (first p ts)
first-All P p [] h = tt
first-All P p (t ∷ ts) h = if_holds (MaybeHolds P) (p t) h.0 (first-All P p ts h.1)

or_bin-holds :
    (P : Text → Type 0) (o : Option Text) → P (codes "bin") → MaybeHolds P o → P (or_bin o)
or_bin-holds P none b h = b
or_bin-holds P (some t) b h = h

extension-Lacks : (kind : Text) → Lacks b'/' (extension kind)
unfolding extension
extension-Lacks kind = or_bin-holds (Lacks b'/') _ (omega arith) (
    first-All (Lacks b'/') (λ known. same known (to_ascii_lowercase (trim kind))) kinds
      (omega arith))

decimal-Lacks : (c n : ℕ) → ¬ (IsDigit c) → Lacks c (decimal n)
decimal-Lacks c n h =
    All-mono IsDigit (λ d. d ≢ c) (decimal n) (λ d at e. h (rw (← e) at)) (decimal-IsDigit n)

-- Whatever kind a client names, the file stays in the directory: its name holds no `/`. And two
-- pastes with different numbers have different names, whenever they were made and whatever kinds
-- they claim.
file_name_lem :
    (seconds n seconds' m : ℕ) (kind kind' : Text)
    → n ≢ m
    → Lacks b'/' (file_name seconds n kind)
      × (file_name seconds n kind ≢ file_name seconds' m kind')
unfolding file_name
file_name_lem seconds n seconds' m kind kind' ne = (safe, λ e. ne (distinct e))
  where
    slash : (k : ℕ) → Lacks b'/' (decimal k)
    slash k = decimal-Lacks b'/' k (λ h. omega (arith, h))

    safe : Lacks b'/' (file_name seconds n kind)
    safe =
        All-append (λ c. c ≢ b'/') (codes "paste-") _ (omega arith)
          (All-append (λ c. c ≢ b'/') (decimal seconds) _ (slash seconds)
            (
              omega arith,
              All-append (λ c. c ≢ b'/') (decimal n) _ (slash n)
                  (omega arith, extension-Lacks kind),
            ))

    number :
        (s k : ℕ) (t : Text)
        → split_once b'-' (drop 6 (file_name s k t))
          ≡ some (decimal s, decimal k ++ b'.' ∷ extension t)
    number s k t =
        split_once-append b'-' (decimal s) _ (decimal-Lacks b'-' s (λ h. omega (arith, h)))

    upto :
        (k : ℕ) (t : Text)
        → split_once b'.' (decimal k ++ b'.' ∷ extension t) ≡ some (decimal k, extension t)
    upto k t = split_once-append b'.' (decimal k) _ (decimal-Lacks b'.' k (λ h. omega (arith, h)))

    distinct : file_name seconds n kind ≡ file_name seconds' m kind' → n ≡ m
    distinct e =
        let whole : some (decimal seconds, decimal n ++ b'.' ∷ extension kind)
            ≡ some (decimal seconds', decimal m ++ b'.' ∷ extension kind') =
          sym (number seconds n kind)
          ∙ ap (λ t. split_once b'-' (drop 6 t)) e
          ∙ number seconds' m kind' in
        let tails : decimal n ++ b'.' ∷ extension kind ≡ decimal m ++ b'.' ∷ extension kind' =
          cc whole in
        let heads : some (decimal n, extension kind) ≡ some (decimal m, extension kind') =
          sym (upto n kind) ∙ ap (split_once b'.') tails ∙ upto m kind' in
        decimal-injective n m (cc heads)
