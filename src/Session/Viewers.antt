-- ===== src/Session/Viewers.antt =====
-- A client that only watches.
use manymux.Prelude.{ℕ, suc, true, false, [], ◌∷◌, Bytes, ◌≡◌, refl, arith, ap, sym, ◌∙◌, All}
use manymux.Session.{Session, Attachment, queued, attach, apply_size}
use manymux.Session.Attachments.{resize, attachment_input, drop}
use manymux.Session.Geometry.{Clients, remove, effective_size, same_size}
use manymux.Session.Reachable.{has_id, IsClient, IsSettled}
use manymux.Terminal.{Terminal}
use manymux.Wire.{Size}

remove_absent :
    (id : ℕ) (clients : Clients) → has_id id clients ≡ false → remove id clients ≡ clients
unfolding remove
remove_absent id [] h = refl
remove_absent id ((k, size) ∷ clients) h = ground (arith, remove_absent id clients)

unissued :
    (next : ℕ) (clients : Clients) → All (IsClient next) clients → has_id next clients ≡ false
unissued next [] h = refl
unissued next ((k, size) ∷ clients) h =
    let below = h.0.0 in ground (arith, below, unissued next clients h.1)

same_size_refl : (a b : Size) → a ≡ b → same_size a b ≡ true
same_size_refl a b e = rw e (ground arith)

module _ (T : Terminal) where
  open T use {Vt}

  abbrev S : Type 0
  S = Session Vt

  apply_size_same : (s : S) (size : Size) → size ≡ s.size → apply_size T s size ≡ s
  unfolding apply_size
  apply_size_same s size e = rw (same_size_refl size s.size e) refl

  -- Coming to watch changes nothing of the session but the ids that are left and the bells, which
  -- somebody has seen now: not its size, its clients, its screen or what is typed into it. The id is
  -- nobody else's.
  pub attach-viewer :
      (s : S) (host_clients : ℕ) (size : Size) (history : ℕ)
      → IsSettled T s
      → let (attached, s', host_clients') = attach T s host_clients size history true in
        (s' ≡ record s { state = record (s.state) { bells = 0 }; next_client = suc s.next_client })
        × (has_id attached.attachment.id s'.clients ≡ false)
        × (attached.size ≡ s.size)
  unfolding attach
  attach-viewer s host_clients size history v = (
    ap (λ (t : S). record t { state = record (t.state) { bells = 0 } }) same,
    ap (λ (t : S). has_id s.next_client t.clients) same
        ∙ unissued s.next_client s.clients v.clients_ok,
    sym v.settled,
  )
    where
      same :
          apply_size T
            (record s { next_client = suc s.next_client })
            (effective_size s.size s.clients)
          ≡ record s { next_client = suc s.next_client }
      same =
          apply_size_same (record s { next_client = suc s.next_client })
            (effective_size s.size s.clients) (sym v.settled)

  -- And what a client that only watches does, and its leaving, change nothing at all: its keystrokes are
  -- dropped, its resizes answered with the size that there is.
  viewer-leaves_alone :
      (s : S) (a : Attachment) (size : Size) (bytes : Bytes) (host_clients : ℕ)
      → IsSettled T s
      → a.read_only ≡ true
      → has_id a.id s.clients ≡ false
      → (attachment_input T s a bytes ≡ queued s)
        × (resize T s a size ≡ (s.size, s))
        × ((drop T s host_clients a).0 ≡ s)
  unfolding attachment_input resize drop
  viewer-leaves_alone s a size bytes host_clients v watching absent = (
    rw watching refl,
    rw watching refl,
    ap
          (λ (clients : Clients).
            apply_size T (record s { state = record (s.state) { clients = clients } })
              (effective_size s.size clients))
          (remove_absent a.id s.clients absent)
        ∙ apply_size_same s (effective_size s.size s.clients) (sym v.settled),
  )
