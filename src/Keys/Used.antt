-- ===== src/Keys/Used.antt =====
-- src/client/attach/keys.rs: everything that can happen to a key filter, in any order.
use manymux.Keys.{KeyFilter, Keystrokes, Mode, new_filter}
use manymux.Keys.Filter.{
  filter_at, stop_typing, set_paste, set_scroll, set_wheel, set_mode, begin_attach,
  release_reports_ended,
}
use manymux.Keys.Ends.{filter_at-Filtered}
use manymux.Prelude.{ℕ, ◌≤◌, Bool, ◌&&◌, some, Bytes, length, ◌≡◌, arith}

-- Constructors are the methods of `KeyFilter`.
pub data Used (prefix : ℕ) : KeyFilter → Type 0 where
  made : Used prefix (new_filter prefix)
  filtered :
      {f g : KeyFilter} {k : Keystrokes} (input : Bytes) (now : ℕ)
      → Used prefix f
      → filter_at f input now ≡ some (g, k)
      → Used prefix g
  stopped : {f : KeyFilter} → Used prefix f → Used prefix (stop_typing f)
  paste_set : {f : KeyFilter} (on : Bool) → Used prefix f → Used prefix (set_paste f on)
  scroll_set : {f : KeyFilter} (on : Bool) → Used prefix f → Used prefix (set_scroll f on)
  wheel_set : {f : KeyFilter} (ours : Bool) → Used prefix f → Used prefix (set_wheel f ours)
  mode_set : {f : KeyFilter} (mode : Mode) → Used prefix f → Used prefix (set_mode f mode)
  attached :
      {f : KeyFilter} (mode : Mode) (scroll : Bool)
      → Used prefix f
      → Used prefix (begin_attach f mode scroll)
  reports_ended : {f : KeyFilter} → Used prefix f → Used prefix (release_reports_ended f)

-- The mode key is the one that was chosen, the wheel is only taken where there is a history, and the keys that
-- are remembered are thirty-two at most.
pub record IsUsable (prefix : ℕ) (f : KeyFilter) : Type 0 where
  pub chosen : f.prefix ≡ prefix
  pub wheel_scrolls : (f.wheel && f.scroll) ≡ f.wheel
  pub few : length f.forwarded ≤ 32

filtered-IsUsable :
    (prefix : ℕ) (f g : KeyFilter) (k : Keystrokes) (input : Bytes) (now : ℕ)
    → filter_at f input now ≡ some (g, k)
    → IsUsable prefix f
    → IsUsable prefix g
filtered-IsUsable prefix f g k input now e u =
    let (out, same, kept) = filter_at-Filtered f input now in
    let s = kept.steady_after in let few = s.bounded u.few in ground arith

-- Whatever happens to a filter, the mode key stays the one that was chosen, the wheel is the client's only
-- where there is a history to scroll, and at most thirty-two keys are remembered.
pub Used-IsUsable : {prefix : ℕ} {f : KeyFilter} → Used prefix f → IsUsable prefix f
unfolding new_filter stop_typing set_paste set_scroll set_wheel set_mode begin_attach
    release_reports_ended
Used-IsUsable made = ground arith
Used-IsUsable (filtered {f = f} {g = g} {k = k} input now u e) =
    filtered-IsUsable _ f g k input now e (Used-IsUsable u)
Used-IsUsable (stopped u) = let h = Used-IsUsable u in ground arith
Used-IsUsable (paste_set on u) = let h = Used-IsUsable u in ground arith
Used-IsUsable (scroll_set on u) = let h = Used-IsUsable u in ground arith
Used-IsUsable (wheel_set ours u) = let h = Used-IsUsable u in ground arith
Used-IsUsable (mode_set mode u) = let h = Used-IsUsable u in ground arith
Used-IsUsable (attached mode scroll u) = let h = Used-IsUsable u in ground arith
Used-IsUsable (reports_ended u) = let h = Used-IsUsable u in ground arith
