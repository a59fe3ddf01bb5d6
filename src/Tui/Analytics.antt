-- ===== src/Tui/Analytics.antt =====
-- tui/analytics.go: the sums for each method, their order, and the sort modes.
pub mod Groups
use grpc_tap.Prelude.{
  ℕ, suc, ◌+◌, ◌-◌, ◌/◌, max, ◌≡◌, Option, none, some, List, [], ◌∷◌, ◌++◌, Bytes, codes, Bool,
  true, false, not, ◌==◌, if◌then◌else◌, length, map, eq_bytes, is_empty, ltb,
}
use grpc_tap.Prelude.Int.{ℤ, pos, eq_ℤ, ltb_ℤ, add_int64, div_int64}
use grpc_tap.Tui.TapEvent.{TapEvent, as_duration}
use grpc_tap.Tui.Env.{Floats}

pub data AnalyticsSortMode : Type 0 where
  sort_total_duration sort_count sort_avg_duration sort_error_rate : AnalyticsSortMode

unfoldable pub sort_mode_string : AnalyticsSortMode → Bytes
sort_mode_string sort_total_duration = codes "total"
sort_mode_string sort_count = codes "count"
sort_mode_string sort_avg_duration = codes "avg"
sort_mode_string sort_error_rate = codes "errors"

unfoldable pub next : AnalyticsSortMode → AnalyticsSortMode
next sort_total_duration = sort_count
next sort_count = sort_avg_duration
next sort_avg_duration = sort_error_rate
next sort_error_rate = sort_total_duration

pub record AnalyticsRow : Type 0 where
  pub method : Bytes
  pub count : ℕ
  pub errors : ℕ
  pub total_duration : ℤ
  pub avg_duration : ℤ

-- `agg`.
pub record Agg : Type 0 where
  pub count : ℕ
  pub errors : ℕ
  pub total_dur : ℤ

abbrev pub empty_agg : Agg
empty_agg = record { count = 0; errors = 0; total_dur = pos 0 }

unfoldable pub count_event : TapEvent → Agg → Agg
count_event ev g = record {
  count = g.count + 1;
  errors = if eq_ℤ ev.status (pos 0) then g.errors else g.errors + 1;
  total_dur = add_int64 g.total_dur (as_duration ev.duration);
}

-- The map of groups; a new method starts from `empty_agg`.
unfoldable pub add_to_group : TapEvent → List (Bytes × Agg) → List (Bytes × Agg)
add_to_group ev [] = (ev.method, count_event ev empty_agg) ∷ []
add_to_group ev ((method, g) ∷ gs) =
    if eq_bytes method ev.method
    then (method, count_event ev g) ∷ gs
    else (method, g) ∷ add_to_group ev gs

unfoldable pub group_events : List (Bytes × Agg) → List TapEvent → List (Bytes × Agg)
group_events gs [] = gs
group_events gs (ev ∷ evs) =
    group_events (if is_empty ev.method then gs else add_to_group ev gs) evs

unfoldable pub row_of : Bytes × Agg → AnalyticsRow
row_of (method, g) = record {
  method = method;
  count = g.count;
  errors = g.errors;
  total_duration = g.total_dur;
  avg_duration = div_int64 g.total_dur g.count;
}

-- `range_order` is the order in which the range loop over the map visits the groups.
unfoldable pub build_analytics_rows :
    (List (Bytes × Agg) → List (Bytes × Agg)) → List TapEvent → List AnalyticsRow
build_analytics_rows range_order evs = map row_of (range_order (group_events [] evs))

module _ (f : Floats) where
  open f use {Float, of_int, mul, div, gt}

  unfoldable pub error_rate : AnalyticsRow → Float
  error_rate r =
      if r.count == 0
      then of_int (pos 0)
      else mul (div (of_int (pos r.errors)) (of_int (pos r.count))) (of_int (pos 100))

  -- The comparison that `sortAnalyticsRows` hands to `sort.Slice`.
  unfoldable pub comes_before : AnalyticsSortMode → AnalyticsRow → AnalyticsRow → Bool
  comes_before sort_total_duration a b = ltb_ℤ b.total_duration a.total_duration
  comes_before sort_count a b = ltb b.count a.count
  comes_before sort_avg_duration a b = ltb_ℤ b.avg_duration a.avg_duration
  comes_before sort_error_rate a b = gt (error_rate a) (error_rate b)

unfoldable pub sort_analytics_rows :
    (f : Floats)
    → ((AnalyticsRow → AnalyticsRow → Bool) → List AnalyticsRow → List AnalyticsRow)
    → AnalyticsSortMode
    → List AnalyticsRow
    → List AnalyticsRow
sort_analytics_rows f sort mode rows = sort (comes_before f mode) rows

-- `analyticsVisibleRows`, at the height of the window.
unfoldable pub analytics_visible_rows : ℕ → ℕ
analytics_visible_rows height = max (height - 4) 3
