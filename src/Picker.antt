-- ===== src/Picker.antt =====
-- src/client/picker.rs: the list in a popup. `Picker` is its rows, the query they are searched by and the row
-- that is highlighted; drawing is left out but for the shape of the box. Lower case and the width of a text
-- are tables of other libraries, and parameters.
pub mod Rows
pub mod Searched
pub mod Boxes
use manymux.Prelude.{
  ℕ, zero, suc, ◌+◌, ◌-◌, ◌*◌, ◌/◌, ◌%◌, ◌^◌, min, max, Bool, true, false, not, ◌&&◌, ◌||◌, List,
  [], ◌∷◌, ◌++◌, Option, none, some, Text, codes, length, get_elem?, any, keep, first, ltb, leb,
  ◌==◌, same, if◌then◌else◌, ◌>>=◌, then_some, has_some, unwrap_or,
}
use manymux.Std.Strings.{push_front, strip_prefix}
use manymux.Switch.{position, wrapped}
use manymux.Wire.{Size}

abbrev pub margin : ℕ
margin = 2

abbrev pub frame : ℕ
frame = 5

abbrev pub min_cols : ℕ
min_cols = 24

abbrev pub widest : ℕ
widest = 60

pub record Row : Type 0 where
  pub id : ℕ
  pub label : Text
  pub detail : Text
  pub note : Text
  pub number : Option ℕ
  pub heading : Bool
  pub available : Bool
  pub indent : ℕ

unfoldable pub new_row : ℕ → Text → Row
new_row id label = record {
  id = id;
  label = label;
  detail = [];
  note = [];
  number = none;
  heading = false;
  available = true;
  indent = 0;
}

unfoldable pub heading_row : Text → Row
unfolding new_row
heading_row label = record (new_row (2 ^ 64 - 1) label) { heading = true }

pub record Picker : Type 0 where
  pub title : Text
  pub hints : Text
  pub source : List Row
  pub rows : List Row
  pub query : Text
  pub at : ℕ
  pub top : ℕ
  pub drawn : Option (ℕ × ℕ)

unfoldable pub landable : List Row → ℕ → Option Row
landable rows index = do row ← get_elem? rows index; then_some (not row.heading) row

unfoldable pub first_row : List Row → Option ℕ
unfolding position
first_row rows = position (λ row. not row.heading) rows

unfoldable pub index_of : List Row → ℕ → Option ℕ
unfolding position
index_of rows id = position (λ row. row.id == id && not row.heading) rows

abbrev pub chosen : Picker → Option Row
chosen p = landable p.rows p.at

unfoldable pub actionable : Picker → Option Row
unfolding landable
actionable p = do row ← chosen p; then_some row.available row

unfoldable pub at_number : Picker → ℕ → Option Row
at_number p number =
    first
      (λ row.
        not row.heading
        && row.available
        && (elim row.number [ none ↦ false | some n ↦ n == number ]))
      p.rows

unfoldable pub new_picker : Text → Text → List Row → ℕ → Picker
unfolding landable first_row
new_picker title hints rows at = record {
  title = title;
  hints = hints;
  source = rows;
  rows = rows;
  query = [];
  at = (if has_some (landable rows at) then at else unwrap_or 0 (first_row rows));
  top = 0;
  drawn = none;
}

unfoldable pub shown_title : Picker → Text
shown_title p = if leb (length p.query) 0 then p.title else p.title ++ codes " /" ++ p.query

-- `str::contains`.
unfoldable pub contains_text : Text → Text → Bool
contains_text part [] = leb (length part) 0
contains_text part (c ∷ text) = has_some (strip_prefix part (c ∷ text)) || contains_text part text

-- The headings that a row stands under and that are not shown yet, and the last that is shown.
unfoldable pub headings_to_show : Option ℕ → List (ℕ × Row) → List Row × Option ℕ
headings_to_show last [] = ([], last)
headings_to_show last ((i, heading) ∷ headings) =
    let skipped = headings_to_show last headings in
    let (shown, last') = headings_to_show (some i) headings in
    if (elim last [ none ↦ true | some l ↦ ltb l i ]) then (heading ∷ shown, last') else skipped

abbrev pub or_else : Option ℕ → Option ℕ → Option ℕ
or_else none later = later
or_else (some i) later = some i

unfoldable pub or_none : List Row → List Row
unfolding heading_row
or_none [] = heading_row (codes "no matches") ∷ []
or_none (row ∷ rows) = row ∷ rows

module _ (to_lowercase : Text → Text) where
  unfoldable pub matches : Text → Row → Bool
  matches query row =
      contains_text query (to_lowercase row.label) || contains_text query (to_lowercase row.detail)

  -- The rows that match, each under its headings, from the row of this index on.
  unfoldable pub filtered_from : Text → ℕ → List (ℕ × Row) → Option ℕ → List Row → List Row
  unfolding headings_to_show
  filtered_from query index headings last [] = []
  filtered_from query index headings last (row ∷ rows) =
      let under = keep (λ h. ltb h.1.indent row.indent) headings ++ (index, row) ∷ [] in
      let opened = filtered_from query (index + 1) under last rows in
      let (shown, last') = headings_to_show last headings in
      let taken = shown ++ row ∷ filtered_from query (index + 1) headings last' rows in
      let left_out = filtered_from query (index + 1) headings last rows in
      if row.heading then opened else if matches query row then taken else left_out

  unfoldable pub filtered : List Row → Text → List Row
  unfolding filtered_from or_none
  filtered source query =
      if leb (length query) 0
      then source
      else or_none (filtered_from (to_lowercase query) 0 [] none source)

  unfoldable pub rebuild : Picker → Option ℕ → Option ℕ → Picker
  unfolding filtered index_of first_row
  rebuild p was at =
      let rows = filtered p.source p.query in
      let preferred : Option ℕ = do index ← at; row ← get_elem? p.source index; some row.id
      in record p {
        rows = rows;
        at = unwrap_or 0 (
            or_else (do id ← was; index_of rows id)
              (or_else (do id ← preferred; index_of rows id) (first_row rows)));
        top = 0;
      }

  abbrev pub chosen_id : Picker → Option ℕ
  chosen_id p = do row ← chosen p; some row.id

  unfoldable pub search : Picker → Text → Picker
  unfolding rebuild landable
  search p query = rebuild (record p { query = query }) (chosen_id p) none

  unfoldable pub replace : Picker → List Row → ℕ → Picker
  unfolding rebuild landable
  replace p rows at = rebuild (record p { source = rows }) (chosen_id p) (some at)

unfoldable pub land_at : Picker → Option ℕ → Picker
land_at p none = p
land_at p (some at) = record p { at = at }

unfoldable pub point_at : Picker → ℕ → Picker
unfolding index_of land_at
point_at p id = land_at p (index_of p.rows id)

-- The loop of `step`: as many rounds as there are rows.
unfoldable pub step_from : ℕ → Bool → List Row → ℕ → Option ℕ
unfolding landable
step_from zero forwards rows next = none
step_from (suc n) forwards rows next = do
  stepped ← wrapped forwards (some next) (length rows)
  let further = step_from n forwards rows stepped
  if has_some (landable rows stepped) then some stepped else further

unfoldable pub step : Picker → Bool → Picker
unfolding step_from land_at
step p forwards = land_at p (step_from (length p.rows) forwards p.rows p.at)

unfoldable pub is_heading : List Row → ℕ → Bool
is_heading rows index = elim (get_elem? rows index) [ none ↦ false | some row ↦ row.heading ]

unfoldable pub starts_a_run : List Row → ℕ → Bool
unfolding is_heading
starts_a_run rows index = index == 0 || is_heading rows (index - 1)

-- The loop of `next_heading`.
unfoldable pub heading_from : ℕ → Bool → List Row → Bool → ℕ → Option ℕ
unfolding is_heading starts_a_run
heading_from zero forwards rows seen next = none
heading_from (suc n) forwards rows seen next = do
  stepped ← wrapped forwards (some next) (length rows)
  let under = heading_from n forwards rows true stepped
  let further = heading_from n forwards rows seen stepped
  if is_heading rows stepped
      then under
      else if seen && (forwards || starts_a_run rows stepped)
      then some stepped
      else further

unfoldable pub next_heading : Picker → Bool → Picker
unfolding heading_from land_at
next_heading p forwards = land_at p (heading_from (length p.rows) forwards p.rows false p.at)

-- `hints.split("  ")`.
unfoldable pub split_pairs : Text → List Text
split_pairs [] = [] ∷ []
split_pairs (a ∷ []) = (a ∷ []) ∷ []
split_pairs (a ∷ b ∷ text) =
    let behind = split_pairs text in
    let further = split_pairs (b ∷ text) in
    if a == 32 && b == 32 then [] ∷ behind else push_front a further

pub record Shape : Type 0 where
  pub row : ℕ
  pub col : ℕ
  pub inner : ℕ
  pub top : ℕ
  pub visible : ℕ
  pub hints : List Text

unfoldable pub inner_width : Size → ℕ
inner_width size = min (max (size.cols - (margin * 2 + 2)) min_cols) widest

-- The window that the box has, and the rows that stand in it, where there is room. `FRAME` and the hints are
-- added as `u16`s.
unfoldable pub placed : Picker → Size → ℕ → List Text → Option Shape
placed p size inner hints =
    let furniture = (frame + min (length hints) (2 ^ 16 - 1)) % 2 ^ 16 in
    let visible = max (min (size.rows - (furniture + 2)) (length p.rows)) 1 in
    if ltb size.cols (inner + margin * 2 + 2) || ltb size.rows (furniture + 3)
    then none
    else some (record {
      row = (size.rows - (min visible (2 ^ 16 - 1) + furniture)) / 2 + 1;
      col = (size.cols - (inner + 2)) / 2 + 1;
      inner = inner;
      top = (if ltb p.at visible then 0 else p.at + 1 - visible);
      visible = visible;
      hints = hints;
    })

module _ (columns : Text → ℕ) where
  -- The lines of the hints, the line in progress last where there is one.
  unfoldable pub wrap_from : ℕ → Text → List Text → List Text
  wrap_from width line [] = if ltb 0 (length line) then line ∷ [] else []
  wrap_from width line (hint ∷ hints) =
      let next = if ltb 0 (length line) then line ++ codes "  " ++ hint else hint in
      let apart = line ∷ wrap_from width hint hints in
      let on = wrap_from width next hints in
      if ltb 0 (length line) && ltb width (columns next) then apart else on

  unfoldable pub wrap_hints : Text → ℕ → List Text
  unfolding split_pairs wrap_from
  wrap_hints hints width =
      wrap_from width [] (keep (λ hint. ltb 0 (length hint)) (split_pairs hints))

  unfoldable pub shape : Picker → Size → Option Shape
  unfolding wrap_hints placed
  shape p size = placed p size (inner_width size) (wrap_hints p.hints (inner_width size - 2))
