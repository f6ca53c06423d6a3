-- ===== src/Wire/Frames.antt =====
-- Frames are read back as they were written, and only when they are whole.
use manymux.Prelude.{
  ℕ, zero, suc, ◌+◌, ◌/◌, ◌%◌, ◌^◌, ◌≤◌, ◌<◌, [], ◌∷◌, ◌++◌, none, some, Bytes, ◌≡◌, ◌≢◌, refl,
  arith, All, ap, sym, ◌∙◌, length, length-append, length-take, take, drop, take-length-append,
  drop-length-append,
}
use manymux.Wire.{
  Frame, ok, max_frame, head, to_be_bytes, from_be_bytes, write_frame, decode_body, decode,
}

abbrev frame_bytes : ℕ → Bytes → Bytes
frame_bytes tag body = tag ∷ (to_be_bytes (length body) ++ body)

write_frame_ok :
    (tag : ℕ) (body bytes : Bytes)
    → write_frame tag body ≡ ok bytes
    → (length body ≤ max_frame) × (bytes ≡ frame_bytes tag body)
unfolding write_frame
write_frame_ok tag body bytes h = ground arith

be_bytes :
    (n : ℕ)
    → n < 2 ^ 32
    → from_be_bytes
        (n % 2 ^ 32 / 2 ^ 24)
        (n % 2 ^ 32 / 2 ^ 16 % 256)
        (n % 2 ^ 32 / 2 ^ 8 % 256)
        (n % 2 ^ 32 % 256)
      ≡ n
unfolding from_be_bytes
be_bytes n h = omega arith

decode-frame_bytes :
    (tag : ℕ) (body rest : Bytes)
    → length body ≤ max_frame
    → decode (frame_bytes tag body ++ rest) ≡ ok (some (record { tag = tag; body = body }), rest)
unfolding decode decode_body to_be_bytes
decode-frame_bytes tag body rest h = rw (be_bytes (length body) (omega arith)) (
    ground
      (arith, length-append body rest, take-length-append body rest, drop-length-append body rest))

-- A frame that was written is read back whole, and what is behind it stays in the buffer.
pub decode-write_frame :
    (tag : ℕ) (body rest : Bytes) {bytes : Bytes}
    → write_frame tag body ≡ ok bytes
    → decode (bytes ++ rest) ≡ ok (some (record { tag = tag; body = body }), rest)
decode-write_frame tag body rest {bytes} h =
    let (fits, e) = write_frame_ok tag body bytes h in rw e (decode-frame_bytes tag body rest fits)

short_head : (p : Bytes) → length p < head → decode p ≡ ok (none, p)
unfolding decode
short_head [] h = refl
short_head (a ∷ []) h = refl
short_head (a ∷ b ∷ []) h = refl
short_head (a ∷ b ∷ c ∷ []) h = refl
short_head (a ∷ b ∷ c ∷ d ∷ []) h = refl
short_head (a ∷ b ∷ c ∷ d ∷ e ∷ p) h = absurd (omega arith)

-- A frame that is cut short, wherever that is, is waited for: nothing is taken off the buffer.
decode_cut :
    (tag : ℕ) (body : Bytes) (p q : Bytes)
    → write_frame tag body ≡ ok (p ++ q)
    → q ≢ []
    → decode p ≡ ok (none, p)
decode_cut tag body p [] h ne = absurd (ne refl)
decode_cut tag body [] (x ∷ q) h ne = short_head [] (omega arith)
decode_cut tag body (t ∷ []) (x ∷ q) h ne = short_head (t ∷ []) (omega arith)
decode_cut tag body (t ∷ a ∷ []) (x ∷ q) h ne = short_head (t ∷ a ∷ []) (omega arith)
decode_cut tag body (t ∷ a ∷ b ∷ []) (x ∷ q) h ne = short_head (t ∷ a ∷ b ∷ []) (omega arith)
decode_cut tag body (t ∷ a ∷ b ∷ c ∷ []) (x ∷ q) h ne =
    short_head (t ∷ a ∷ b ∷ c ∷ []) (omega arith)
decode_cut tag body (t ∷ a ∷ b ∷ c ∷ d ∷ r) (x ∷ q) h ne =
    let (fits, e) = write_frame_ok tag body (t ∷ a ∷ b ∷ c ∷ d ∷ r ++ x ∷ q) h in waits fits e
  where
    waits :
        length body ≤ max_frame
        → t ∷ a ∷ b ∷ c ∷ d ∷ r ++ x ∷ q ≡ frame_bytes tag body
        → decode (t ∷ a ∷ b ∷ c ∷ d ∷ r) ≡ ok (none, t ∷ a ∷ b ∷ c ∷ d ∷ r)
    waits fits e =
        unfold decode decode_body to_be_bytes in
        ground (
          arith,
          e,
          be_bytes (length body) (omega (arith, fits)),
          ap length e,
          length-append r (x ∷ q),
        )

abbrev pub IsByte : ℕ → Type 0
IsByte b = b < 256

take-drop : (n : ℕ) (xs : Bytes) → take n xs ++ drop n xs ≡ xs
take-drop zero xs = refl
take-drop (suc n) [] = refl
take-drop (suc n) (x ∷ xs) = ap (◌∷◌ x) (take-drop n xs)

decode_body-some :
    (src : Bytes) (tag len : ℕ) (r : Bytes) {f : Frame} {rest : Bytes}
    → decode_body src tag len r ≡ ok (some f, rest)
    → (len ≤ max_frame)
      × (head + len ≤ length src)
      × (f.tag ≡ tag)
      × (f.body ≡ take len r)
      × (rest ≡ drop len r)
unfolding decode_body
decode_body-some src tag len r e = ground arith

to_be_bytes-from :
    (a b c d : ℕ)
    → All IsByte (a ∷ b ∷ c ∷ d ∷ [])
    → to_be_bytes (from_be_bytes a b c d) ≡ a ∷ b ∷ c ∷ d ∷ []
unfolding to_be_bytes from_be_bytes
to_be_bytes-from a b c d h = ground arith

written :
    (tag : ℕ) (body : Bytes)
    → length body ≤ max_frame
    → write_frame tag body ≡ ok (frame_bytes tag body)
unfolding write_frame
written tag body h = ground arith

-- What a frame was read from is what writing it gives, with the rest of the buffer behind it. So no
-- frame is longer than the limit, and no byte is lost or read twice.
pub write_frame-decode :
    (src : Bytes) {f : Frame} {rest : Bytes}
    → All IsByte src
    → decode src ≡ ok (some f, rest)
    → (bytes : Bytes) × (write_frame f.tag f.body ≡ ok bytes) × (src ≡ bytes ++ rest)
unfolding decode
write_frame-decode [] h e = cc
write_frame-decode (a ∷ []) h e = cc
write_frame-decode (a ∷ b ∷ []) h e = cc
write_frame-decode (a ∷ b ∷ c ∷ []) h e = cc
write_frame-decode (a ∷ b ∷ c ∷ d ∷ []) h e = cc
write_frame-decode (t ∷ a ∷ b ∷ c ∷ d ∷ r) {f} {rest} h e =
    let len = from_be_bytes a b c d in
    let (fits, whole, same_tag, same_body, behind) =
      decode_body-some (t ∷ a ∷ b ∷ c ∷ d ∷ r) t len r e in
    let size : length (take len r) ≡ len = omega (arith, length-take len r) in
    let small : length f.body ≤ max_frame = rw (same_body, size) fits in
    let count : length f.body ≡ len = ap length same_body ∙ size in
    let parts : to_be_bytes (length f.body) ≡ a ∷ b ∷ c ∷ d ∷ [] =
      ap to_be_bytes count ∙ to_be_bytes-from a b c d (omega arith) in
    (frame_bytes f.tag f.body, written f.tag f.body small, spelled parts same_tag same_body behind)
  where
    spelled :
        to_be_bytes (length f.body) ≡ a ∷ b ∷ c ∷ d ∷ []
        → f.tag ≡ t
        → f.body ≡ take (from_be_bytes a b c d) r
        → rest ≡ drop (from_be_bytes a b c d) r
        → t ∷ a ∷ b ∷ c ∷ d ∷ r ≡ frame_bytes f.tag f.body ++ rest
    spelled parts same_tag same_body behind =
        rw (parts, same_tag, behind)
          (ap (λ u. t ∷ a ∷ b ∷ c ∷ d ∷ u)
            (sym (take-drop (from_be_bytes a b c d) r)
              ∙ ap (λ u. u ++ drop (from_be_bytes a b c d) r) (sym same_body)))
