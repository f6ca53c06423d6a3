-- ===== src/Tests/Bytes.antt =====
-- Witnesses on bytes and text: src/utf8.rs, src/proto.rs, src/keyboard.rs, src/node/events.rs and
-- src/node/paste.rs.
use manymux.Decoder.{default as fresh_decoder, decode_all}
use manymux.Decoder.Chunks.{text_of, IsTail-nil, decode_all-text_of}
use manymux.Paste.{empty, take_all, finish}
use manymux.Paste.Uploads.{outcome, finish-take_all}
use manymux.Prelude.{
  ℕ, ◌≤◌, Bool, List, [], ◌∷◌, ◌++◌, some, Bytes, codes, length, ◌≡◌, refl, arith, All, within,
}
use manymux.Scanner.{default as fresh_scanner, feed, replay}
use manymux.Scanner.Osc.{Event}
use manymux.Scanner.Osc.Clean.{IsCleanEvent}
use manymux.Scanner.Sound.{IsSound, default-IsSound}
use manymux.Scanner.Bounds.{feed-IsSound}
use manymux.Scanner.Replay.RoundTrip.{feed-replay, restored, title_events}
use manymux.Std.Strings.{is_whitespace}
use manymux.Std.Utf8.{as_bytes}
use manymux.Wire.{ok, write_frame, decode, session_name}
use manymux.Wire.Frames.{decode-write_frame, write_frame-decode}

-- A title, bracketed paste and a keyboard that reports, as a program writes them.
abbrev output : Bytes
output = 27 ∷ codes "]2;vim" ++ (7 ∷ 27 ∷ codes "[?2004h" ++ (27 ∷ codes "[>5u"))

feed-replay_example :
    feed fresh_scanner (as_bytes (replay (feed fresh_scanner output).0))
    ≡ (restored (feed fresh_scanner output).0, title_events (feed fresh_scanner output).0.title)
feed-replay_example = feed-replay output

feed-IsSound_example :
    IsSound (feed fresh_scanner output).0 × All IsCleanEvent (feed fresh_scanner output).1
feed-IsSound_example = feed-IsSound fresh_scanner output default-IsSound

-- The sign of the euro, cut after its first byte.
abbrev cut_chunks : List Bytes
cut_chunks = (97 ∷ 0xe2 ∷ []) ∷ (0x82 ∷ 0xac ∷ []) ∷ []

decode_all-text_of_example :
    (decode_all fresh_decoder cut_chunks ≡ (
      (text_of (97 ∷ 0xe2 ∷ 0x82 ∷ 0xac ∷ []) 0).0,
      record { pending = (text_of (97 ∷ 0xe2 ∷ 0x82 ∷ 0xac ∷ []) 0).1 },
    ))
    × (length (decode_all fresh_decoder cut_chunks).1.pending ≤ 3)
decode_all-text_of_example = decode_all-text_of fresh_decoder cut_chunks IsTail-nil

abbrev frame_bytes : Bytes
frame_bytes = 0x10 ∷ 0 ∷ 0 ∷ 0 ∷ 2 ∷ 104 ∷ 105 ∷ []

decode-write_frame_example :
    decode (frame_bytes ++ 0x15 ∷ [])
    ≡ ok (some (record { tag = 0x10; body = 104 ∷ 105 ∷ [] }), 0x15 ∷ [])
unfolding write_frame
decode-write_frame_example = decode-write_frame 0x10 (104 ∷ 105 ∷ []) (0x15 ∷ []) refl

write_frame-decode_example :
    (bytes : Bytes) × (write_frame 0x10 (104 ∷ 105 ∷ []) ≡ ok bytes)
    × (frame_bytes ++ 0x15 ∷ [] ≡ bytes ++ 0x15 ∷ [])
unfolding decode
write_frame-decode_example = write_frame-decode (frame_bytes ++ 0x15 ∷ []) (omega arith) refl

abbrev is_letter : ℕ → Bool
is_letter = within 97 122

session_name_run : session_name is_letter (codes "my work!") ≡ codes "my-work"
unfolding session_name is_whitespace
session_name_run = refl

finish-take_all_example :
    finish (take_all empty ((1 ∷ 2 ∷ []) ∷ (3 ∷ []) ∷ [])) (codes "png")
    ≡ (outcome (codes "png") (1 ∷ 2 ∷ 3 ∷ []), empty)
finish-take_all_example = finish-take_all ((1 ∷ 2 ∷ []) ∷ (3 ∷ []) ∷ []) (codes "png")

-- An escape inside a sequence is passed over, so what follows it is read as text.
escape_in_csi_run :
    (feed fresh_scanner (27 ∷ b'[' ∷ 27 ∷ codes "]2;t" ++ 7 ∷ [])).1 ≡ Event.bell ∷ []
unfolding feed
escape_in_csi_run = refl
