-- ===== src/Tui/Rows.antt =====
-- tui/model.go, rebuildDisplayRows, and tui/export.go, filteredExportEvents: two filters over the
-- captured events. `to_lower` is `strings.ToLower`, `sort` is `sort.Slice`.
pub mod Laws
pub mod Order
use grpc_tap.Prelude.{
  ℕ, zero, suc, ◌+◌, ◌≤◌, ◌<◌, ◌≡◌, refl, sym, ap, ◌∙◌, inl, inr, Option, none, some, List, [], ◌∷◌,
  ◌++◌, Bytes, Bool, true, false, not, ◌&&◌, ◌||◌, if◌then◌else◌, length, get_elem?, map, contains,
  is_empty, arith, All, Bool-cases,
}
use grpc_tap.Prelude.Int.{ℤ, pos, eq_ℤ, ltb_ℤ}
use grpc_tap.Tui.TapEvent.{TapEvent, as_duration}

pub data SortMode : Type 0 where
  sort_chronological sort_duration : SortMode

-- `m.events[i].GetDuration().AsDuration()`; the rows that are sorted are in range.
abbrev pub duration_at : List TapEvent → ℕ → ℤ
duration_at evs i = elim (get_elem? evs i) [ none ↦ pos 0 | some ev ↦ as_duration ev.duration ]

module _ (to_lower : Bytes → Bytes) where
  -- The loop bodies skip an event by two `continue`s.
  unfoldable pub keeps : Bytes → Bool → TapEvent → Bool
  keeps filter filter_errors ev =
      if not (is_empty filter) && not (contains (to_lower ev.method) filter)
      then false
      else not (filter_errors && eq_ℤ ev.status (pos 0))

  -- The indices of the events that are kept, counted from `i`.
  unfoldable pub rows_from : Bytes → Bool → ℕ → List TapEvent → List ℕ
  rows_from filter filter_errors i [] = []
  rows_from filter filter_errors i (ev ∷ evs) =
      let rest = rows_from filter filter_errors (suc i) evs in
      if keeps filter filter_errors ev then i ∷ rest else rest

  -- The filter of an export.
  unfoldable pub exports : Bytes → Bool → TapEvent → Bool
  exports filter filter_errors ev =
      if not (is_empty filter) && not (contains (to_lower ev.method) filter)
      then false
      else if filter_errors && eq_ℤ ev.status (pos 0)
      then false
      else true

  unfoldable pub filtered_events : Bytes → Bool → List TapEvent → List TapEvent
  filtered_events filter filter_errors [] = []
  filtered_events filter filter_errors (ev ∷ evs) =
      let rest = filtered_events filter filter_errors evs in
      if exports filter filter_errors ev then ev ∷ rest else rest

  -- `filteredExportEvents`.
  unfoldable pub filtered_export_events : List TapEvent → Bytes → Bool → List TapEvent
  filtered_export_events evs query filter_errors =
      filtered_events (to_lower query) filter_errors evs

  unfoldable pub rebuild_display_rows :
      ((ℕ → ℕ → Bool) → List ℕ → List ℕ) → List TapEvent → Bytes → Bool → SortMode → List ℕ
  rebuild_display_rows sort evs query filter_errors mode =
      let rows = rows_from (to_lower query) filter_errors 0 evs in
      elim mode [
        | sort_chronological ↦ rows
        | sort_duration ↦ sort (λ a b. ltb_ℤ (duration_at evs b) (duration_at evs a)) rows
      ]
