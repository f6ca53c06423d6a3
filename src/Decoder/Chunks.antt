-- ===== src/Decoder/Chunks.antt =====
-- The decoder against a description with no chunks: the text of a byte string, a replacement for
-- each invalid run, up to a character that the end cuts off.
use manymux.Prelude.{
  ℕ, zero, suc, ◌≤◌, ◌<◌, List, [], ◌∷◌, ◌++◌, ◌≡◌, refl, arith, Bytes, Text, length, append_assoc,
  append-nil, drop, ◌∙◌, length-drop, concat, All,
}
use manymux.Std.Utf8.{
  replacement, Head, char, bad, cut, head, two, three, three_end, four, four_middle, four_end,
  Checked, valid, broken, truncated, prepend, check, as_bytes, IsChar,
}
use manymux.Std.Utf8.RoundTrip.{check-as_bytes}
use manymux.Decoder.{Utf8Decoder, default, decode_loop, decode, decode_all}

-- The text of `bytes`, and the tail that a cut character leaves.
pub text_of : Bytes → ℕ → Text × Bytes
text_of [] k = ([], [])
text_of (b ∷ r) (suc k) = text_of r k
text_of (b ∷ r) zero = elim (head b r) [
  | char c k ↦ (c ∷ (text_of r k).0, (text_of r k).1)
  | bad k ↦ (replacement ∷ (text_of r k).0, (text_of r k).1)
  | cut ↦ ([], b ∷ r)
]

-- What a head takes lies within the bytes behind it, and more bytes do not change it.
abbrev Settled : Head → Bytes → Bytes → ℕ → Type 0
Settled (char c k) r more b = (k ≤ length r) × (head b (r ++ more) ≡ char c k)
Settled (bad k) r more b = (k ≤ length r) × (head b (r ++ more) ≡ bad k)
Settled cut r more b = Unit

head-Settled : (b : ℕ) (r more : Bytes) → Settled (head b r) r more b
unfolding head two three three_end four four_middle four_end
head-Settled b [] more = ground arith
head-Settled b (c ∷ []) more = ground arith
head-Settled b (c ∷ d ∷ []) more = ground arith
head-Settled b (c ∷ d ∷ e ∷ r) more = ground arith

text_of-drop : (k : ℕ) (r : Bytes) → text_of (drop k r) 0 ≡ text_of r k
unfolding text_of
text_of-drop zero r = refl
text_of-drop (suc k) [] = refl
text_of-drop (suc k) (b ∷ r) = text_of-drop k r

-- What `from_utf8` says of the bytes, in terms of their text.
abbrev Agrees : Checked → Text × Bytes → ℕ → Type 0
Agrees (valid s) whole n = whole ≡ (s, [])
Agrees (broken s after) whole n =
    (whole ≡ (s ++ replacement ∷ (text_of after 0).0, (text_of after 0).1)) × (length after < n)
Agrees (truncated s tail) whole n = whole ≡ (s, tail)

prepend-Agrees :
    (c : ℕ) (r : Checked) (whole : Text × Bytes) (n m : ℕ)
    → n ≤ m
    → Agrees r whole n
    → Agrees (prepend c r) (c ∷ whole.0, whole.1) m
prepend-Agrees c (valid s) whole n m le h = ground arith
prepend-Agrees c (broken s after) whole n m le h = ground arith
prepend-Agrees c (truncated s tail) whole n m le h = ground arith

Agrees-mono :
    (r : Checked) (whole : Text × Bytes) (n m : ℕ) → n ≤ m → Agrees r whole n → Agrees r whole m
Agrees-mono (valid s) whole n m le h = h
Agrees-mono (broken s after) whole n m le h = ground arith
Agrees-mono (truncated s tail) whole n m le h = h

check-Agrees : (bytes : Bytes) (k : ℕ) → Agrees (check bytes k) (text_of bytes k) (length bytes)
unfolding check text_of
check-Agrees [] k = refl
check-Agrees (b ∷ r) (suc k) =
    Agrees-mono (check r k) (text_of r k) (length r) _ (omega arith) (check-Agrees r k)
check-Agrees (b ∷ r) zero = go (head b r) refl (check-Agrees r)
  where
    go :
        (h : Head)
        → head b r ≡ h
        → ((k : ℕ) → Agrees (check r k) (text_of r k) (length r))
        → Agrees (check (b ∷ r) 0) (text_of (b ∷ r) 0) (length (b ∷ r))
    go (char c k) e ih =
        rw (e, check, text_of)
          (prepend-Agrees c (check r k) (text_of r k) (length r) _ (omega arith) (ih k))
    go (bad k) e ih =
        rw (e, check, text_of) (rw (text_of-drop k r) refl, omega (arith, length-drop k r))
    go cut e ih = rw (e, check, text_of) refl

decode_loop-text_of :
    (fuel : ℕ) (rest : Bytes) (out : Text)
    → length rest < fuel
    → decode_loop fuel rest out ≡ (out ++ (text_of rest 0).0, (text_of rest 0).1)
unfolding decode_loop
decode_loop-text_of zero rest out h = absurd (omega arith)
decode_loop-text_of (suc fuel) rest out h =
    go (check rest 0) refl (check-Agrees rest 0) (decode_loop-text_of fuel)
  where
    go :
        (r : Checked)
        → check rest 0 ≡ r
        → Agrees (check rest 0) (text_of rest 0) (length rest)
        → ((after : Bytes) (o : Text)
            → length after < fuel
            → decode_loop fuel after o ≡ (o ++ (text_of after 0).0, (text_of after 0).1))
        → decode_loop (suc fuel) rest out ≡ (out ++ (text_of rest 0).0, (text_of rest 0).1)
    go (valid s) e a ih = let a' = rw e at a in rw (e, decode_loop) (cc a')
    go (broken s after) e a ih =
        let a' = rw e at a in
        rw (e, decode_loop) (ih after _ (omega (arith, a'.1)) ∙ rw (a'.0) (simp append_assoc))
    go (truncated s tail) e a ih = let a' = rw e at a in rw (e, decode_loop) (cc a')

-- A byte string cut in two: the tail that the first part leaves goes in front of the second.
text_of-append :
    (xs ys : Bytes) (k : ℕ)
    → k ≤ length xs
    → text_of (xs ++ ys) k ≡ (
      (text_of xs k).0 ++ (text_of ((text_of xs k).1 ++ ys) 0).0,
      (text_of ((text_of xs k).1 ++ ys) 0).1,
    )
unfolding text_of
text_of-append [] ys zero h = refl
text_of-append [] ys (suc k) h = absurd (omega arith)
text_of-append (b ∷ r) ys (suc k) h = text_of-append r ys k (omega arith)
text_of-append (b ∷ r) ys zero h = go (head b r) refl (head-Settled b r ys) (text_of-append r ys)
  where
    go :
        (h : Head)
        → head b r ≡ h
        → Settled (head b r) r ys b
        → ((k : ℕ)
            → k ≤ length r
            → text_of (r ++ ys) k ≡ (
              (text_of r k).0 ++ (text_of ((text_of r k).1 ++ ys) 0).0,
              (text_of ((text_of r k).1 ++ ys) 0).1,
            ))
        → text_of ((b ∷ r) ++ ys) 0 ≡ (
          (text_of (b ∷ r) 0).0 ++ (text_of ((text_of (b ∷ r) 0).1 ++ ys) 0).0,
          (text_of ((text_of (b ∷ r) 0).1 ++ ys) 0).1,
        )
    go (char c k) e s ih =
        let s' = rw e at s in rw (e, text_of) (rw (s'.1, text_of) (rw (ih k s'.0) refl))
    go (bad k) e s ih =
        let s' = rw e at s in rw (e, text_of) (rw (s'.1, text_of) (rw (ih k s'.0) refl))
    go cut e s ih = rw (e, text_of) refl

-- A tail that a cut character leaves has no text yet, and fewer than four bytes.
abbrev pub IsTail : Bytes → Type 0
IsTail p = (text_of p 0 ≡ ([], p)) × (length p ≤ 3)

head-cut : (b : ℕ) (r : Bytes) → head b r ≡ cut → length r ≤ 2
unfolding head two three three_end four four_middle four_end
head-cut b [] h = omega arith
head-cut b (c ∷ []) h = omega arith
head-cut b (c ∷ d ∷ []) h = omega arith
head-cut b (c ∷ d ∷ e ∷ r) h = ground arith

text_of-IsTail : (bytes : Bytes) (k : ℕ) → IsTail (text_of bytes k).1
unfolding text_of
text_of-IsTail [] k = (refl, omega arith)
text_of-IsTail (b ∷ r) (suc k) = text_of-IsTail r k
text_of-IsTail (b ∷ r) zero = go (head b r) refl (text_of-IsTail r)
  where
    go :
        (h : Head)
        → head b r ≡ h
        → ((k : ℕ) → IsTail (text_of r k).1)
        → IsTail (text_of (b ∷ r) 0).1
    go (char c k) e ih = rw (e, text_of) (ih k)
    go (bad k) e ih = rw (e, text_of) (ih k)
    go cut e ih = rw (e, text_of) (rw (e, text_of) refl, omega (arith, head-cut b r e))

pub IsTail-nil : IsTail []
unfolding text_of
IsTail-nil = (refl, omega arith)

decode-text_of :
    (d : Utf8Decoder) (chunk : Bytes)
    → decode d chunk ≡ (
      (text_of (d.pending ++ chunk) 0).0,
      record { pending = (text_of (d.pending ++ chunk) 0).1 },
    )
unfolding decode
decode-text_of d chunk =
    let bytes = d.pending ++ chunk in
    rw (decode_loop-text_of (suc (length bytes)) bytes [] (omega arith)) refl

-- For a decoder that holds the tail of a cut character, and whatever the chunks are: the text that
-- comes out and the bytes that are left are those of the whole byte string read at once. The bytes
-- that are left are fewer than four.
pub decode_all-text_of :
    (d : Utf8Decoder) (chunks : List Bytes)
    → IsTail d.pending
    → (decode_all d chunks ≡ (
      (text_of (d.pending ++ concat chunks) 0).0,
      record { pending = (text_of (d.pending ++ concat chunks) 0).1 },
    ))
      × (length (decode_all d chunks).1.pending ≤ 3)
unfolding decode_all
decode_all-text_of d [] h = (rw append-nil (rw (h.0) refl), h.1)
decode_all-text_of d (chunk ∷ chunks) h =
    let rest = (text_of (d.pending ++ chunk) 0).1 in
    let (out, few) =
      decode_all-text_of (record { pending = rest }) chunks
        (text_of-IsTail (d.pending ++ chunk) 0) in
    rw (decode-text_of d chunk) (
      rw (out, ← append_assoc d.pending chunk (concat chunks))
          (rw (text_of-append (d.pending ++ chunk) (concat chunks) 0 (omega arith)) refl),
      few,
    )

-- The bytes of a string come out as that string and leave nothing pending, however they are cut into
-- chunks.
decode_all-as_bytes :
    (s : Text) (chunks : List Bytes)
    → All IsChar s
    → concat chunks ≡ as_bytes s
    → decode_all default chunks ≡ (s, default)
decode_all-as_bytes s chunks h e =
    let agrees : Agrees (check (as_bytes s) 0) (text_of (as_bytes s) 0) (length (as_bytes s)) =
      check-Agrees (as_bytes s) 0 in
    let whole : text_of (as_bytes s) 0 ≡ (s, []) = rw (check-as_bytes s h) at agrees in
    (decode_all-text_of default chunks IsTail-nil).0 ∙ rw (e, whole) refl
