-- ===== src/Session/Settled.antt =====
-- What is always so of a session's sizes.
use mathlib.Core.Path.{ap₂}
use manymux.Prelude.{
  ℕ, suc, ◌<◌, Bool, true, false, not, [], ◌∷◌, Bytes, ◌≡◌, refl, arith, subst, sym, All, All-keep,
  All-mono, length, ltb, leb, ◌==◌, Bool-cases, inl, inr, if_holds,
}
use manymux.Session.{
  State, Session, Attachment, Sent, queued, refused, waits, new_state, count_printed, input_backlog,
  start, apply_size, resize_state, send_input, attach, ingest,
}
use manymux.Session.Attachments.{resize, drop, window, find}
use manymux.Session.Geometry.{Clients, remove, insert, smaller, reduce, effective_size, same_size}
use manymux.Session.Reachable.{
  has_id, AreSettled, Distinct, IsClient, IsSettled, Reachable, starts, attaches, resizes, drops,
  ingests, sends, writes, shows, searches, closes, exits, renames,
}
use manymux.Terminal.{Terminal}
use manymux.Wire.{Size, sane, max_frame}
use manymux.Wire.Names.{IsSane, sane-IsSane}

has-remove :
    (id other : ℕ) (clients : Clients)
    → has_id other clients ≡ false
    → has_id other (remove id clients) ≡ false
unfolding remove
has-remove id other [] h = refl
has-remove id other ((k, size) ∷ clients) h = ground (arith, has-remove id other clients)

has_removed : (id : ℕ) (clients : Clients) → has_id id (remove id clients) ≡ false
unfolding remove
has_removed id [] = refl
has_removed id ((k, size) ∷ clients) = ground (arith, has_removed id clients)

remove-Distinct : (id : ℕ) (clients : Clients) → Distinct clients → Distinct (remove id clients)
unfolding remove
remove-Distinct id [] h = tt
remove-Distinct id ((k, size) ∷ clients) h =
    if_holds Distinct (not (k == id)) (has-remove id k clients h.0, remove-Distinct id clients h.1)
      (remove-Distinct id clients h.1)

insert-Distinct :
    (id : ℕ) (size : Size) (clients : Clients)
    → Distinct clients
    → Distinct (insert id size clients)
unfolding insert
insert-Distinct id size clients h = (has_removed id clients, remove-Distinct id clients h)

remove-All :
    (next id : ℕ) (clients : Clients)
    → All (IsClient next) clients
    → All (IsClient next) (remove id clients)
unfolding remove
remove-All next id clients h = All-keep (IsClient next) _ clients h

reduce-IsSane :
    (next : ℕ) (acc : Size) (clients : Clients)
    → IsSane acc
    → All (IsClient next) clients
    → IsSane (reduce acc clients)
unfolding reduce smaller
reduce-IsSane next acc [] a h = a
reduce-IsSane next acc ((id, size) ∷ clients) a h =
    let ok = h.0.1 in reduce-IsSane next (smaller acc size) clients (omega (arith, a, ok)) h.1

effective_size-IsSane :
    (next : ℕ) (current : Size) (clients : Clients)
    → IsSane current
    → All (IsClient next) clients
    → IsSane (effective_size current clients)
unfolding effective_size
effective_size-IsSane next current [] a h = a
effective_size-IsSane next current ((id, size) ∷ clients) a h =
    reduce-IsSane next size clients h.0.1 h.1

effective_size-settles :
    (current : Size) (clients : Clients)
    → effective_size current clients ≡ effective_size (effective_size current clients) clients
unfolding effective_size
effective_size-settles current [] = refl
effective_size-settles current (c ∷ clients) = refl

same_size→eq : (a b : Size) → same_size a b ≡ true → a ≡ b
same_size→eq a b h =
    let cols : a.cols ≡ b.cols = ground (arith, h) in
    let rows : a.rows ≡ b.rows = ground (arith, h) in
    ap₂ (λ (c r : ℕ). record { cols = c; rows = r }) cols rows

wider :
    (next : ℕ) (clients : Clients) → All (IsClient next) clients → All (IsClient (suc next)) clients
wider next clients =
    All-mono (IsClient next) (IsClient (suc next)) clients (λ c h. (omega (arith, h.0), h.1))

module _ (T : Terminal) where
  open T use {Vt}

  abbrev S : Type 0
  S = Session Vt

  apply_size-IsSettled :
      (s : S) (clients : Clients)
      → All (IsClient s.next_client) clients
      → Distinct clients
      → IsSane s.size
      → s.size_tx ≡ s.size
      → IsSettled T (
          apply_size T
            (record s { state = record (s.state) { clients = clients } })
            (effective_size s.size clients))
  unfolding apply_size resize_state
  apply_size-IsSettled s clients h d ok told =
      elim (Bool-cases (same_size (effective_size s.size clients) s.size)) [
        | inl e ↦ rw e (record {
          clients_ok = h;
          distinct = d;
          settled = sym (same_size→eq (effective_size s.size clients) s.size e);
          told_ok = told;
          size_ok = ok;
        })
        | inr e ↦ rw e (record {
          clients_ok = h;
          distinct = d;
          settled = effective_size-settles s.size clients;
          told_ok = refl;
          size_ok = effective_size-IsSane s.next_client s.size clients ok h;
        })
      ]

  later :
      (s : S) (size : Size)
      → IsSettled T s
      → All (IsClient (suc s.next_client)) (insert s.next_client (sane size) s.clients)
  unfolding insert
  later s size v = (
    (omega arith, (sane-IsSane size).0),
    remove-All (suc s.next_client) s.next_client s.clients
        (wider s.next_client s.clients v.clients_ok),
  )

  attach-IsSettled :
      (s : S) (host_clients : ℕ) (size : Size) (history : ℕ) (read_only : Bool)
      → IsSettled T s
      → IsSettled T (attach T s host_clients size history read_only).1
  unfolding attach
  attach-IsSettled s host_clients size history true v =
      let w =
        apply_size-IsSettled (record s { next_client = suc s.next_client }) s.clients
          (wider s.next_client s.clients v.clients_ok) v.distinct v.size_ok v.told_ok in
      w
  attach-IsSettled s host_clients size history false v =
      let w =
        apply_size-IsSettled (record s { next_client = suc s.next_client })
          (insert s.next_client (sane size) s.clients) (later s size v)
          (insert-Distinct s.next_client (sane size) s.clients v.distinct) v.size_ok v.told_ok in
      w

  resize-IsSettled :
      (s : S) (a : Attachment) (size : Size)
      → a.id < s.next_client
      → IsSettled T s
      → IsSettled T (resize T s a size).1
  unfolding resize insert
  resize-IsSettled s a size le v = elim (Bool-cases a.read_only) [
    | inl e ↦ rw e v
    | inr e ↦ rw e (
        apply_size-IsSettled s (insert a.id (sane size) s.clients)
          ((le, (sane-IsSane size).0), remove-All s.next_client a.id s.clients v.clients_ok)
          (insert-Distinct a.id (sane size) s.clients v.distinct) v.size_ok v.told_ok)
  ]

  drop-IsSettled :
      (s : S) (host_clients : ℕ) (a : Attachment)
      → IsSettled T s
      → IsSettled T (drop T s host_clients a).0
  unfolding drop
  drop-IsSettled s host_clients a v =
      apply_size-IsSettled s (remove a.id s.clients)
        (remove-All s.next_client a.id s.clients v.clients_ok)
        (remove-Distinct a.id s.clients v.distinct) v.size_ok v.told_ok

  abbrev IsSettledSent : Sent Vt → Type 0
  IsSettledSent (queued s) = IsSettled T s
  IsSettledSent (refused e) = Unit
  IsSettledSent waits = Unit

  send_input-IsSettled :
      (s s' : S) (bytes : Bytes) → send_input T s bytes ≡ queued s' → IsSettled T s → IsSettled T s'
  unfolding send_input
  send_input-IsSettled s s' bytes e v = subst IsSettledSent e (
      if_holds IsSettledSent (ltb max_frame (length bytes)) tt (
        if_holds IsSettledSent (not s.input_open) tt
          (if_holds IsSettledSent (leb input_backlog (length s.input)) tt v)))

  count_printed-IsSettled :
      (s : S) (total : ℕ)
      → IsSettled T s
      → IsSettled T (record s { state = count_printed T s.state total })
  unfolding count_printed
  count_printed-IsSettled s total v =
      if_holds (λ (st : State Vt). AreSettled s.next_client st.clients st.size s.size_tx)
        s.scanner.on_alternate v v

  -- Whatever a session's clients, its program and its tasks do, and in whatever order: every attached
  -- client has an id of its own that was handed out to it, and asked for a size that a terminal can
  -- have; the session's size is the one that those leave room for, or stays where it was when nobody
  -- is attached; and it is the size that the program's terminal was told.
  pub Reachable-IsSettled : (s : S) → Reachable T s → IsSettled T s
  unfolding start new_state ingest window find count_printed effective_size
  Reachable-IsSettled s (starts size now name command pid at) = record {
    clients_ok = tt;
    distinct = tt;
    settled = refl;
    told_ok = refl;
    size_ok = (sane-IsSane size).0;
  }
  Reachable-IsSettled s (attaches host_clients size history read_only r) =
      attach-IsSettled _ host_clients size history read_only (Reachable-IsSettled _ r)
  Reachable-IsSettled s (resizes a size le r) =
      resize-IsSettled _ a size le (Reachable-IsSettled _ r)
  Reachable-IsSettled s (drops host_clients a r) =
      drop-IsSettled _ host_clients a (Reachable-IsSettled _ r)
  Reachable-IsSettled s (ingests host_clients now chunk r) = Reachable-IsSettled _ r
  Reachable-IsSettled s' (sends {s} bytes e r) =
      send_input-IsSettled s s' bytes e (Reachable-IsSettled s r)
  Reachable-IsSettled s (writes bytes rest e r) = Reachable-IsSettled _ r
  Reachable-IsSettled s' (shows {s} request r) =
      count_printed-IsSettled s (length (T.lines s.vt)) (Reachable-IsSettled s r)
  Reachable-IsSettled s' (searches {s} lowercase needle r) =
      count_printed-IsSettled s (length (T.lines s.vt)) (Reachable-IsSettled s r)
  Reachable-IsSettled s (closes r) = Reachable-IsSettled _ r
  Reachable-IsSettled s (exits code r) = Reachable-IsSettled _ r
  Reachable-IsSettled s (renames name r) = Reachable-IsSettled _ r
