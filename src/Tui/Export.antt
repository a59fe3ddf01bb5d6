-- ===== src/Tui/Export.antt =====
-- tui/export.go, buildExportAnalyticsRows and percentile. `slices.SortFunc` at `cmp.Compare`,
-- float64, and the index that it computes for a percentile are parameters.
pub mod Laws
pub mod Data
pub mod Markdown
mod Runs
use grpc_tap.Prelude.{
  ℕ, ◌+◌, ◌-◌, ◌==◌, ◌>>=◌, Option, none, some, List, [], ◌∷◌, ◌++◌, Bytes, Bool, if◌then◌else◌,
  is_empty, eq_bytes, length, get_elem?,
}
use grpc_tap.Prelude.Int.{ℤ, pos, eq_ℤ, add_int64, div_int64}
use grpc_tap.Tui.TapEvent.{TapEvent, as_duration}
use grpc_tap.Tui.Env.{Floats}

-- `agg`, with every duration.
pub record ExportAgg : Type 0 where
  pub count : ℕ
  pub errors : ℕ
  pub total_dur : ℤ
  pub durations : List ℤ

unfoldable pub export_event : TapEvent → ExportAgg → ExportAgg
export_event ev g = record {
  count = g.count + 1;
  errors = if eq_ℤ ev.status (pos 0) then g.errors else g.errors + 1;
  total_dur = add_int64 g.total_dur (as_duration ev.duration);
  durations = g.durations ++ (as_duration ev.duration ∷ []);
}

-- The groups in the order of `order`, in which their methods came first.
unfoldable pub export_add : TapEvent → List (Bytes × ExportAgg) → List (Bytes × ExportAgg)
export_add ev [] =
    (
      ev.method,
      export_event ev (record { count = 0; errors = 0; total_dur = pos 0; durations = [] }),
    )
    ∷ []
export_add ev ((method, g) ∷ gs) =
    if eq_bytes method ev.method
    then (method, export_event ev g) ∷ gs
    else (method, g) ∷ export_add ev gs

unfoldable pub export_groups : List (Bytes × ExportAgg) → List TapEvent → List (Bytes × ExportAgg)
export_groups gs [] = gs
export_groups gs (ev ∷ evs) =
    export_groups (if is_empty ev.method then gs else export_add ev gs) evs

-- `exportAnalyticsRow`.
pub record ExportRow (F : Type 0) : Type 0 where
  pub method : Bytes
  pub count : ℕ
  pub errors : ℕ
  pub total_ms : F
  pub avg_ms : F
  pub p95_ms : F
  pub max_ms : F

unfoldable pub millis : (f : Floats) → ℤ → f.Float
millis f d = f.div (f.of_int (div_int64 d 1000)) (f.of_int (pos 1000))

-- `percentile`, where `index n` is `int(float64(n) * p)`. `none` is an index out of range.
unfoldable pub percentile : (ℕ → ℕ) → List ℤ → Option ℤ
percentile index sorted =
    if length sorted == 0 then some (pos 0) else get_elem? sorted (index (length sorted - 1))

module _ (f : Floats) (sort : List ℤ → List ℤ) (p95_index : ℕ → ℕ) where
  unfoldable pub export_row : Bytes × ExportAgg → Option (ExportRow f.Float)
  export_row (method, g) = do
    let sorted = sort g.durations
    p95 ← percentile p95_index sorted
    longest ← get_elem? sorted (length sorted - 1)
    some (record {
      method = method;
      count = g.count;
      errors = g.errors;
      total_ms = millis f g.total_dur;
      avg_ms = f.div (millis f g.total_dur) (f.of_int (pos g.count));
      p95_ms = millis f p95;
      max_ms = millis f longest;
    })

  unfoldable pub export_rows : List (Bytes × ExportAgg) → Option (List (ExportRow f.Float))
  export_rows [] = some []
  export_rows (g ∷ gs) = do row ← export_row g; rows ← export_rows gs; some (row ∷ rows)

  unfoldable pub build_export_analytics_rows : List TapEvent → Option (List (ExportRow f.Float))
  build_export_analytics_rows evs = export_rows (export_groups [] evs)
