-- ===== src/Session/Attachments.antt =====
-- src/node/session.rs: `Attachment`, the handle that a client has on a session.
use manymux.History.{View, ViewRequest, Found, window as history_window, find as history_find}
use manymux.Prelude.{ℕ, ◌+◌, ◌-◌, ◌%◌, Text, Bytes, length, if◌then◌else◌}
use manymux.Session.{
  Session, Attachment, Sent, queued, apply_size, send_input, count_printed, repaint, u64_mod,
  saturating_add,
}
use manymux.Session.Geometry.{remove, insert, effective_size}
use manymux.Terminal.{Terminal}
use manymux.Wire.{Size, sane, moved}

module _ (T : Terminal) where
  open T use {Vt}

  abbrev S : Type 0
  S = Session Vt

  -- `Attachment::resize`, with the size that the session took.
  unfoldable pub resize : S → Attachment → Size → Size × S
  unfolding apply_size
  resize s a size =
      if a.read_only
      then (s.size, s)
      else (let clients = insert a.id (sane size) s.clients in
          let effective = effective_size s.size clients in
          (
            effective,
            apply_size T (record s { state = record (s.state) { clients = clients } }) effective,
          ))

  -- `Attachment::send_input`.
  unfoldable pub attachment_input : S → Attachment → Bytes → Sent Vt
  unfolding send_input
  attachment_input s a bytes = if a.read_only then queued s else send_input T s bytes

  -- `Drop for Attachment`.
  unfoldable pub drop : S → ℕ → Attachment → S × ℕ
  unfolding apply_size
  drop s host_clients a =
      let clients = remove a.id s.clients in
      let effective = effective_size s.size clients in
      (
        apply_size T (record s { state = record (s.state) { clients = clients } }) effective,
        (host_clients + (u64_mod - 1)) % u64_mod,
      )

  -- `Attachment::window`, with the session that has counted what was printed.
  unfoldable pub window : S → ViewRequest → View × S
  unfolding count_printed
  window s request =
      let state = count_printed T s.state (length (T.lines s.vt)) in
      let asked = record request {
        from = saturating_add request.from (moved state.printed request.printed);
      } in
      (history_window (T.lines s.vt) state.printed asked, record s { state = state })

  unfoldable pub find : (Text → Text) → S → Text → Found × S
  unfolding count_printed
  find lowercase s needle =
      let state = count_printed T s.state (length (T.lines s.vt)) in
      (history_find lowercase (T.lines s.vt) state.printed needle, record s { state = state })

  -- `Attachment::resync`. What the client is sent of the output starts again behind it.
  unfoldable pub resync : S → Text
  unfolding repaint
  resync s = repaint T s.state
