-- ===== src/Lib.antt =====
-- manymux keeps terminal sessions alive on a machine, in a node that clients attach to over a socket or
-- ssh. This library models the node's own logic, the protocol between the two ends, and
-- what an attached client makes of its keys, of the history and of the sessions that are listed to it.
--
-- How the parts meet: a session's output goes, chunk by chunk, through the scanner (what the screen
-- model drops), the decoder (bytes to text) and the screen model; a client that attaches is sent the
-- history, the screen and the scanner's replay, and its size joins the sizes that the session's own is
-- made of. Frames carry all of it. A pasted file arrives in frames too and reaches the program as a
-- path. The registry finds sessions by name. A client asks several machines at once, keeps groups of
-- their sessions and a few transports to them; a node watches the machines on its list for events. What is
-- typed at an attached client goes through its key filter, which forwards it or makes an action of it: a
-- move in the history, a hop to another session or a row of a popup.
--
--   * Prelude: shared names, tests on numbers, lists over the native numbers, text as code points.
--   * Std: what the code uses of Rust's standard library. Std/Utf8 (from_utf8, from_utf8_lossy,
--     as_bytes), Std/Decimal (u16::from_str, Display), Std/Strings (split, split_once, trim).
--   * Decoder: src/utf8.rs. `decode` is `Utf8Decoder::decode`; its loop runs on fuel, one unit for each
--     byte and one more, which every round of the source's loop that goes on has used up by then.
--   * Keyboard: src/keyboard.rs. `note` and the functions under it are `Keyboard::note`.
--   * Scanner: src/node/events.rs. `step` is one turn of the loop of `Scanner::feed`, `finish_csi` and
--     `finish_osc` are the methods of those names, Scanner/Osc is `parse_osc` and `clean`. Events that
--     the source hands to a closure are the second result.
--   * Terminal: the avt crate, a parameter: its operations are a record that the session takes.
--   * History: src/node/history.rs, over the lines of the screen model.
--   * Wire: src/proto.rs. Framing, tags, sizes and names. A frame's length is a `u32` written out.
--   * Paste: src/node/paste.rs and the `Paste` of src/node/mod.rs.
--   * Session: src/node/session.rs. `Session V` holds the fields of `Session` and, under `state`, those
--     of `State`; the queue to the PTY, the size that it was told and the output that was published
--     stand for the channels. Session/Geometry is the map of clients, Session/Attachments the methods
--     of `Attachment`. Session/Reachable is everything that can happen to a session, in any order: the
--     source does each of these under one lock, so each is one step.
--   * Pump: `pump_attachment` of src/node/mod.rs. Each branch of its `select!` is an `Input`, `step` one turn
--     of the loop and `run` the loop over the inputs in the order in which they are taken. What the
--     messages' bodies say, the registry's answer to a rename and where a paste is written are
--     parameters. A rename that comes from elsewhere is an input of its own, which takes no branch: it gives
--     the session its name and leaves a change for the branch that tells the client.
--   * Registry: src/node/registry.rs. The map of sessions is the list of its entries (Registry/Entries);
--     `prune` comes first in every operation, as in the source. `unique_name` looks for a free name on
--     fuel, one more than there are sessions, which is proved enough (Registry/Fresh). Registry/Labels
--     is what src/node/session.rs calls a session after its command, Registry/Order the order of a
--     listing. Registry/Keys is everything that can happen to the registry, in any order.
--   * Peers: src/node/peers.rs and the watching of machines of src/node/mod.rs. `watch` is the loop of
--     `Node::watch` over how long each subscription stood.
--   * Hosts: src/hosts.rs. Hosts/Target is `Target` and `Named`; the machine's own name is a parameter.
--   * Groups: src/client/groups.rs, over the groups that the file holds once its lock is taken.
--   * Connections: src/client/connections.rs, over any type of connection. Of several that are oldest at
--     the same instant the source drops the one that its map yields first, the model the first of its
--     list.
--   * Keys: src/client/attach/keys.rs, the key filter of an attached client. Keys holds its types and state,
--     Keys/Tables what a key does in each mode, Keys/Encoded, Keys/Special and Keys/Mouse read keys and
--     reports off the terminal's bytes, Keys/Typing is an open prompt, Keys/Press is
--     `KeyFilter::encoded`. In Keys/Filter `turn` is one round of the loop of `filter_at` and
--     `filter_from` the loop, on fuel, one unit for each byte of the chunk, which is proved enough
--     (Keys/Ends). The source's index into the chunk is the rest of the chunk. An `Instant` is a number
--     of milliseconds, a spin of the wheel how far up and how far down. Keys/Used is everything that
--     can happen to a filter, in any order.
--   * Scrollback: src/client/scroll.rs, the history that an attached client looks at: what moves the
--     window, what is asked of the host (`wanted` and `request`) and what its answers do. Scrollback/Rendered
--     reads a line as cells, over the tables of wide and of alphanumeric characters, which are
--     parameters; Scrollback/Selecting is the selection and the copy of it, Scrollback/Chasing the view that
--     moves under a drag held at an edge. The saturation of `u64` and `u16` is written out. `painted`
--     is kept as the source resets it; painting itself is not modelled.
--   * Switch: src/client/switch.rs. `Cycle` is the listing, the session that the run is in and its trail;
--     what a client does with a motion is `hop` of Switch/Tab, and Switch/Trail is everything that can happen
--     to a cycle, in any order.
--   * Picker: src/client/picker.rs, the list in a popup: its rows, the search of them, the row that is
--     highlighted and the shape of the box. Lower case and the width of a text are parameters. The loops go
--     as many rounds as there are rows, as the source's do. Picker/Rows is everything that can happen to a
--     picker, in any order.
--   * Listed: src/client/listed.rs, what a client keeps of the listings: `Snapshot`, and of `Listed` the ids
--     that its rows have. Listed/Ids is about `preserve_ids`, over any values; an id that is out of bounds,
--     where the source panics, is no result.
--   * Signature: src/signature.rs. The ed25519 scheme is a parameter: what is a usable key, and what verifies.
--   * Shell: src/shell.rs, with the way a POSIX shell cuts a line into words (Shell/Words) and what it takes
--     the first of them for (Shell/Commands), without aliases.
--   * Tests: the theorems at concrete inputs.
--
-- Numbers are natural; a `u16` is read by a parser that refuses what does not fit, and the counts that
-- wrap are taken modulo 2 ^ 64 where the source's do. Characters that Unicode tables decide
-- (`is_alphanumeric`, `to_lowercase`) are parameters. The ids of clients and the counts of lines and
-- bells are not wrapped: a `u64` of them is out of reach.
--
-- Not modelled: sockets, ssh, processes, files, the operating system's services and notifiers, the
-- drawing of the clients' screens, and the mobile apps.
pub mod Connections
pub mod Decoder
pub mod Groups
pub mod History
pub mod Hosts
pub mod Keyboard
pub mod Keys
pub mod Listed
pub mod Paste
pub mod Peers
pub mod Picker
pub mod Prelude
pub mod Pump
pub mod Registry
pub mod Scanner
pub mod Scrollback
pub mod Session
pub mod Shell
pub mod Signature
pub mod Std
pub mod Switch
pub mod Terminal
pub mod Tests
pub mod Wire
