-- ===== src/Decoder.antt =====
-- src/utf8.rs: `Utf8Decoder`, which turns output that arrives in arbitrary chunks into text.
pub mod Chunks
use manymux.Prelude.{zero, suc, ℕ, List, [], ◌∷◌, ◌++◌, length, Bytes, Text}
use manymux.Std.Utf8.{replacement, Checked, valid, broken, truncated, check}

pub record Utf8Decoder : Type 0 where
  pub pending : Bytes

abbrev pub default : Utf8Decoder
default = record { pending = [] }

-- The loop over `rest`, on fuel: each round but the last takes at least one byte off `rest`. The
-- result is `out` and what is left of `rest`.
pub decode_loop : ℕ → Bytes → Text → Text × Bytes
decode_loop zero rest out = (out, rest)
decode_loop (suc fuel) rest out = elim (check rest 0) [
  | valid s ↦ (out ++ s, [])
  | broken s after ↦ decode_loop fuel after (out ++ (s ++ replacement ∷ []))
  | truncated s tail ↦ (out ++ s, tail)
]

-- `decode`, with the decoder that it leaves behind.
unfoldable pub decode : Utf8Decoder → Bytes → Text × Utf8Decoder
decode d chunk =
    let bytes = d.pending ++ chunk in
    let (out, tail) = decode_loop (suc (length bytes)) bytes [] in (out, record { pending = tail })

-- A decoder over a list of chunks, in order.
pub decode_all : Utf8Decoder → List Bytes → Text × Utf8Decoder
decode_all d [] = ([], d)
decode_all d (chunk ∷ chunks) =
    let (out, d') = decode d chunk in let (more, last) = decode_all d' chunks in (out ++ more, last)
