-- ===== src/Wire/Tag.antt =====
-- src/proto.rs, `mod tag`: the byte that says what a frame is.
use manymux.Prelude.{ℕ}

abbrev pub request : ℕ
request = 0x01

abbrev pub response : ℕ
response = 0x02

-- `tag::DATA`.
abbrev pub bytes : ℕ
bytes = 0x10

abbrev pub resize : ℕ
resize = 0x11

abbrev pub exit : ℕ
exit = 0x12

abbrev pub detach : ℕ
detach = 0x13

abbrev pub event : ℕ
event = 0x14

abbrev pub ping : ℕ
ping = 0x15

abbrev pub pong : ℕ
pong = 0x16

abbrev pub paste : ℕ
paste = 0x17

abbrev pub paste_end : ℕ
paste_end = 0x18

abbrev pub resync : ℕ
resync = 0x19

abbrev pub history : ℕ
history = 0x1a

abbrev pub view : ℕ
view = 0x1b

abbrev pub find : ℕ
find = 0x1c

abbrev pub rename : ℕ
rename = 0x1d

abbrev pub size : ℕ
size = 0x1e

abbrev pub park : ℕ
park = 0x20
