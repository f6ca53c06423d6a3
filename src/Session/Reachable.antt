-- ===== src/Session/Reachable.antt =====
-- What can happen to a session, in whatever order its clients and its program make it happen, and
-- what is always so of its sizes.
use mathlib.Core.List.{◌∷◌}
use manymux.Prelude.{ℕ, ◌<◌, Bool, false, List, [], some, Text, Bytes, ◌≡◌, All, any, ◌==◌}
use manymux.History.{ViewRequest}
use manymux.Session.{Session, Attachment, queued, start, send_input, attach, ingest, set_name}
use manymux.Session.Attachments.{resize, drop, window, find}
use manymux.Session.Geometry.{Clients, effective_size}
use manymux.Terminal.{Terminal}
use manymux.Wire.{Size}
use manymux.Wire.Names.{IsSane}

-- Each id below the next one to hand out, each size one that a terminal can have, and no id twice.
abbrev pub has_id : ℕ → Clients → Bool
has_id id = any (λ c. c.0 == id)

abbrev pub Distinct : Clients → Type 0
Distinct [] = Unit
Distinct ((id, size) ∷ clients) = (has_id id clients ≡ false) × Distinct clients

abbrev pub IsClient : ℕ → ℕ × Size → Type 0
IsClient next c = (c.0 < next) × IsSane c.1

-- The next id, the clients, the size of the screen and the one that the PTY was told.
pub record AreSettled (next : ℕ) (clients : Clients) (size told : Size) : Type 0 where
  pub clients_ok : All (IsClient next) clients
  pub distinct : Distinct clients
  pub settled : size ≡ effective_size size clients
  pub told_ok : told ≡ size
  pub size_ok : IsSane size

module _ (T : Terminal) where
  open T use {Vt}

  abbrev pub S : Type 0
  S = Session Vt

  abbrev pub IsSettled : S → Type 0
  IsSettled s = AreSettled s.next_client s.clients s.size s.size_tx

  -- A session as its clients, its reader and its writer can have left it.
  pub data Reachable : S → Type 0 where
    starts :
        (size : Size) (now : ℕ) (name command : Text) (pid at : ℕ)
        → Reachable (start T size now name command pid at)
    attaches :
        {s : S} (host_clients : ℕ) (size : Size) (history : ℕ) (read_only : Bool)
        → Reachable s
        → Reachable (attach T s host_clients size history read_only).1
    resizes :
        {s : S} (a : Attachment) (size : Size)
        → a.id < s.next_client
        → Reachable s
        → Reachable (resize T s a size).1
    drops :
        {s : S} (host_clients : ℕ) (a : Attachment)
        → Reachable s
        → Reachable (drop T s host_clients a).0
    ingests :
        {s : S} (host_clients now : ℕ) (chunk : Bytes)
        → Reachable s
        → Reachable (ingest T s host_clients now chunk).0
    sends :
        {s s' : S} (bytes : Bytes) → send_input T s bytes ≡ queued s' → Reachable s → Reachable s'
    writes :
        {s : S} (bytes : Bytes) (rest : List Bytes)
        → s.input ≡ bytes ∷ rest
        → Reachable s
        → Reachable (record s { input = rest })
    shows : {s : S} (request : ViewRequest) → Reachable s → Reachable (window T s request).1
    searches :
        {s : S} (lowercase : Text → Text) (needle : Text)
        → Reachable s
        → Reachable (find T lowercase s needle).1
    closes : {s : S} → Reachable s → Reachable (record s { input_open = false })
    exits : {s : S} (code : ℕ) → Reachable s → Reachable (record s { exit = some code })
    renames : {s : S} (name : Text) → Reachable s → Reachable (set_name T s name)
