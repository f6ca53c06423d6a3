-- ===== src/Listed.antt =====
-- src/client/listed.rs: what a client keeps of the listings that it was sent. `Snapshot` is one listing with
-- the sessions that are remembered of machines that did not answer; `Listed` is the rows of the popup with
-- what their ids stand for. A row whose id stands for nothing is an index out of bounds, and no result.
pub mod Ids
use manymux.Groups.{HostedSession, Member, Groups, member_of, group_of, same_member}
use manymux.Hosts.{same_machine}
use manymux.Picker.{Row}
use manymux.Prelude.{
  ℕ, zero, suc, ◌+◌, Bool, true, false, not, ◌&&◌, ◌||◌, List, [], ◌∷◌, ◌++◌, Option, none, some,
  Text, length, get_elem?, any, keep, first, map, same, ltb, ◌==◌, if◌then◌else◌, ◌>>=◌,
}
use manymux.Registry.Order.{before}
use manymux.Session.{Info}
use manymux.Switch.{Located, Entry, same_place, position}

pub record Snapshot : Type 0 where
  pub sessions : List HostedSession
  pub cached : List HostedSession
  pub answered : List Text
  pub groups_before : Groups

unfoldable pub with_name : Text → HostedSession → HostedSession
with_name name hosted = record hosted { session = record hosted.session { name = name } }

unfoldable pub known : Snapshot → List HostedSession
known s = elim s.cached [ [] ↦ s.sessions | hosted ∷ more ↦ hosted ∷ more ]

unfoldable pub is_available : Snapshot → Located → Bool
is_available s at =
    any (λ live. same live.on at.host && same live.session.name at.session) s.sessions

unfoldable pub info : Snapshot → Located → Option Info
info s at = do
  hosted ←
      first (λ hosted. same hosted.on at.host && same hosted.session.name at.session) s.sessions
  some hosted.session

-- By the machine and then by when the session was started.
unfoldable pub listed_before : HostedSession → HostedSession → Bool
unfolding before
listed_before a b = before a.on b.on || (same a.on b.on && ltb a.session.started b.session.started)

unfoldable pub insert_hosted : HostedSession → List HostedSession → List HostedSession
unfolding listed_before
insert_hosted a [] = a ∷ []
insert_hosted a (b ∷ sessions) =
    let rest = insert_hosted a sessions in if listed_before b a then b ∷ rest else a ∷ b ∷ sessions

-- A stable `sort_by`.
unfoldable pub sort_hosted : List HostedSession → List HostedSession
unfolding insert_hosted
sort_hosted [] = []
sort_hosted (a ∷ sessions) = insert_hosted a (sort_hosted sessions)

module _ (this_machine : Text) where
  abbrev pub is_member : Member → HostedSession → Bool
  is_member m hosted = same_member (member_of this_machine hosted.on hosted.session) m

  abbrev pub is_at : Located → HostedSession → Bool
  is_at at hosted =
      same_machine this_machine hosted.on at.host && same hosted.session.name at.session

  abbrev pub rename_where : (HostedSession → Bool) → Text → HostedSession → HostedSession
  rename_where p name hosted = if p hosted then with_name name hosted else hosted

  unfoldable pub renamed : Snapshot → Located → Text → Snapshot
  unfolding with_name
  renamed s at name = record s {
    sessions = map (rename_where (is_at at) name) s.sessions;
    cached = map (rename_where (is_at at) name) s.cached;
  }

  unfoldable pub renamed_member : Snapshot → Member → Text → Snapshot
  unfolding with_name
  renamed_member s member name = record s {
    sessions = map (rename_where (is_member member) name) s.sessions;
    cached = map (rename_where (is_member member) name) s.cached;
  }

  unfoldable pub forget : Snapshot → Located → Snapshot
  forget s at = record s {
    sessions = keep (λ hosted. not (is_at at hosted)) s.sessions;
    cached = keep (λ hosted. not (is_at at hosted)) s.cached;
  }

  -- A live session that is this one or has its name.
  unfoldable pub stands_for : HostedSession → HostedSession → Bool
  stands_for hosted live =
      is_member (member_of this_machine hosted.on hosted.session) live
      || (same live.on hosted.on && same live.session.name hosted.session.name)

  -- What is remembered: of a machine that did not answer, and not stood for by a live one.
  unfoldable pub is_remembered : Snapshot → HostedSession → Bool
  unfolding stands_for
  is_remembered s hosted =
      not (any (λ host. same_machine this_machine host hosted.on) s.answered)
      && not (any (stands_for hosted) s.sessions)

  unfoldable pub known_before : Snapshot → Snapshot → List HostedSession
  unfolding known
  known_before s previous = elim s.cached [ [] ↦ known previous | hosted ∷ more ↦ hosted ∷ more ]

  unfoldable pub following : Snapshot → Snapshot → Snapshot
  unfolding is_remembered known_before sort_hosted
  following s previous = record s {
    cached = sort_hosted (s.sessions ++ keep (is_remembered s) (known_before s previous));
  }

  unfoldable pub entries : Snapshot → Groups → List Entry
  unfolding group_of
  entries s groups =
      map
        (λ hosted. record {
          at = record { host = hosted.on; session = hosted.session.name };
          group = group_of this_machine groups hosted.on hosted.session;
        })
        s.sessions

  unfoldable pub locate : Snapshot → Member → Option Located
  locate s member = do
    hosted ← first (is_member member) s.sessions
    some (record { host = hosted.on; session = hosted.session.name })

pub record Listed : Type 0 where
  pub session_rows : List Row
  pub group_rows : List Row
  pub host_rows : List Row
  pub at : List Located
  pub groups : List (Option Text)
  pub hosts : List Text

-- A row with the label that a session is called now.
unfoldable pub relabel : ℕ → Text → Row → Row
relabel id name row = if not row.heading && row.id == id then record row { label = name } else row

unfoldable pub renamed_from : Located → Text → ℕ → List Located → List Row → List Located × List Row
unfolding relabel same_place
renamed_from was name id [] rows = ([], rows)
renamed_from was name id (at ∷ ats) rows =
    let hit = same_place at was in
    let (ats', rows') =
      renamed_from was name (suc id) ats (if hit then map (relabel id name) rows else rows) in
    ((if hit then record at { session = name } else at) ∷ ats', rows')

unfoldable pub renamed_row : Listed → Located → Text → Listed
unfolding renamed_from
renamed_row l was name =
    let (at, rows) = renamed_from was name 0 l.at l.session_rows in
    record l { at = at; session_rows = rows }

unfoldable pub accepts_commands : Listed → ℕ → Bool
accepts_commands l id = any (λ row. not row.heading && row.id == id && row.available) l.session_rows

module _ {ℓ} {A : Type ℓ} (eq : A → A → Bool) where
  -- The id that stands for a value, and what the ids stand for then.
  unfoldable pub id_of : A → List A → Option ℕ → ℕ × List A
  id_of value kept none = (length kept, kept ++ value ∷ [])
  id_of value kept (some id) = (id, kept)

  unfoldable pub preserve_ids : List A → List A → List Row → Option (List Row × List A)
  unfolding id_of position
  preserve_ids values kept [] = some ([], kept)
  preserve_ids values kept (row ∷ rows) = elim row.heading [
    | true ↦ do rest ← preserve_ids values kept rows; some (row ∷ rest.0, rest.1)
    | false ↦ do
      value ← get_elem? values row.id
      let given = id_of value kept (position (λ before. eq before value) kept)
      rest ← preserve_ids values given.1 rows
      some (record row { id = given.0 } ∷ rest.0, rest.1)
  ]
