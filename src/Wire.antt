-- ===== src/Wire.antt =====
-- src/proto.rs: the framing of the wire protocol, terminal sizes, session names and the count that
-- moves a window. Message bodies are MessagePack by `rmp_serde`, which is not modelled.
pub mod Tag
pub mod Frames
pub mod Names
use manymux.Prelude.{
  ℕ, zero, suc, ◌+◌, ◌-◌, ◌*◌, ◌/◌, ◌%◌, ◌^◌, ◌≤◌, min, Bool, ◌||◌, List, [], ◌∷◌, ◌++◌, Option,
  none, some, Text, Bytes, length, take, drop, keep, map, ltb, ◌==◌, if◌then◌else◌,
}
use manymux.Std.Strings.{is_whitespace}

abbrev pub max_frame : ℕ
max_frame = 2 ^ 20

-- The tag and the length in front of a body.
abbrev pub head : ℕ
head = 5

pub record Frame : Type 0 where
  pub tag : ℕ
  pub body : Bytes

pub data Error : Type 0 where
  -- A body to write, or a length that the peer announced, over the limit.
  too_long : ℕ → Error

pub data Result {ℓ} (A : Type ℓ) : Type ℓ where
  ok : A → Result A
  err : Error → Result A

-- `(n as u32).to_be_bytes()`.
unfoldable pub to_be_bytes : ℕ → Bytes
to_be_bytes n =
    let n = n % 2 ^ 32 in (n / 2 ^ 24) ∷ (n / 2 ^ 16 % 256) ∷ (n / 2 ^ 8 % 256) ∷ (n % 256) ∷ []

unfoldable pub from_be_bytes : ℕ → ℕ → ℕ → ℕ → ℕ
from_be_bytes a b c d = a * 2 ^ 24 + b * 2 ^ 16 + c * 2 ^ 8 + d

-- The bytes that `write_frame` puts on the stream.
unfoldable pub write_frame : ℕ → Bytes → Result Bytes
unfolding to_be_bytes
write_frame tag body =
    if ltb max_frame (length body)
    then err (too_long (length body))
    else ok (tag ∷ (to_be_bytes (length body) ++ body))

-- `FrameCodec::decode` once there is a head: the buffer that is left, and a frame if it is whole.
unfoldable pub decode_body : Bytes → ℕ → ℕ → Bytes → Result (Option Frame × Bytes)
decode_body src tag len rest =
    if ltb max_frame len
    then err (too_long len)
    else if ltb (length src) (head + len)
    then ok (none, src)
    else ok (some (record { tag = tag; body = take len rest }), drop len rest)

unfoldable pub decode : Bytes → Result (Option Frame × Bytes)
unfolding decode_body from_be_bytes
decode (tag ∷ a ∷ b ∷ c ∷ d ∷ rest) =
    decode_body (tag ∷ a ∷ b ∷ c ∷ d ∷ rest) tag (from_be_bytes a b c d) rest
decode src = ok (none, src)

pub record Size : Type 0 where
  pub cols : ℕ
  pub rows : ℕ

abbrev pub default_size : Size
default_size = record { cols = 80; rows = 24 }

unfoldable pub sane : Size → Size
sane s = record {
  cols = if s.cols == 0 then default_size.cols else min s.cols 1000;
  rows = if s.rows == 0 then default_size.rows else min s.rows 1000;
}

-- Unicode's alphanumeric characters are a table of the standard library.
module _ (is_alphanumeric : ℕ → Bool) where
  unfoldable pub usable : ℕ → Bool
  usable c = is_alphanumeric c || c == b'-' || c == b'_' || c == b'.'

  unfoldable pub session_name : Text → Text
  unfolding usable
  session_name name = take 64 (keep usable (map (λ c. if is_whitespace c then b'-' else c) name))

-- How far the newest line has moved. A zero is a side that counts nothing.
unfoldable pub moved : ℕ → ℕ → ℕ
moved printed since = if printed == 0 || since == 0 then 0 else printed - since
