-- ===== src/Tui/Export/Laws.antt =====
-- The analytics of an export against those on the screen.
use mathlib.Core.List.{Perm}
use grpc_tap.Prelude.{
  ℕ, ◌-◌, ◌≤◌, ◌<◌, ◌==◌, ◌≡◌, refl, ap, ◌∙◌, some, List, [], ◌∷◌, map, Bytes, false, is_empty,
  eq_bytes, length, get_elem?-some, length-append, All, Bool-cases, inl, inr, arith,
}
use mathlib.Core.Path.{ap₂}
use grpc_tap.Prelude.Int.{ℤ}
use grpc_tap.Prelude.Perms.{length-perm}
use grpc_tap.Tui.TapEvent.{TapEvent, as_duration}
use grpc_tap.Tui.Env.{Floats}
use grpc_tap.Tui.Analytics.{
  Agg, AnalyticsRow, count_event, add_to_group, group_events, row_of, build_analytics_rows,
}
use grpc_tap.Tui.Export.{
  ExportAgg, export_event, export_add, export_groups, ExportRow, millis, percentile, export_row,
  export_rows, build_export_analytics_rows,
}

-- A group without its durations.
abbrev forget : Bytes × ExportAgg → Bytes × Agg
forget (method, g) =
    (method, record { count = g.count; errors = g.errors; total_dur = g.total_dur })

map-export_add :
    (ev : TapEvent) (gs : List (Bytes × ExportAgg))
    → map forget (export_add ev gs) ≡ add_to_group ev (map forget gs)
unfolding export_add add_to_group export_event count_event
map-export_add ev [] = refl
map-export_add ev ((method, g) ∷ gs) = elim (Bool-cases (eq_bytes method ev.method)) [
  | inl e ↦ rw e
  | inr e ↦ rw e (ap (◌∷◌ (forget (method, g))) (map-export_add ev gs))
]

map-export_groups :
    (gs : List (Bytes × ExportAgg)) (evs : List TapEvent)
    → map forget (export_groups gs evs) ≡ group_events (map forget gs) evs
unfolding export_groups group_events
map-export_groups gs [] = refl
map-export_groups gs (ev ∷ evs) = elim (Bool-cases (is_empty ev.method)) [
  | inl e ↦ rw e (map-export_groups gs evs)
  | inr e ↦ rw e (
      map-export_groups (export_add ev gs) evs
      ∙ ap (λ hs. group_events hs evs) (map-export_add ev gs))
]

-- A group that was made by an event has a duration.
abbrev AreFilled : List (Bytes × ExportAgg) → Type 0
AreFilled = All (λ g. 0 < length g.1.durations)

export_event-filled : (ev : TapEvent) (g : ExportAgg) → 0 < length (export_event ev g).durations
unfolding export_event
export_event-filled ev g = omega (arith, length-append g.durations (as_duration ev.duration ∷ []))

export_add-AreFilled :
    (ev : TapEvent) (gs : List (Bytes × ExportAgg)) → AreFilled gs → AreFilled (export_add ev gs)
unfolding export_add
export_add-AreFilled ev [] h = (export_event-filled ev _, tt)
export_add-AreFilled ev ((method, g) ∷ gs) h = elim (Bool-cases (eq_bytes method ev.method)) [
  | inl e ↦ rw e (export_event-filled ev g, h.1)
  | inr e ↦ rw e (h.0, export_add-AreFilled ev gs h.1)
]

export_groups-AreFilled :
    (gs : List (Bytes × ExportAgg)) (evs : List TapEvent)
    → AreFilled gs
    → AreFilled (export_groups gs evs)
unfolding export_groups
export_groups-AreFilled gs [] h = h
export_groups-AreFilled gs (ev ∷ evs) h = elim (Bool-cases (is_empty ev.method)) [
  | inl e ↦ rw e (export_groups-AreFilled gs evs h)
  | inr e ↦ rw e (export_groups-AreFilled (export_add ev gs) evs (export_add-AreFilled ev gs h))
]

module _ (f : Floats) where
  -- The method, the count, the errors and the milliseconds in total.
  abbrev pub Figures : Type 0
  Figures = Bytes × ℕ × ℕ × f.Float

  abbrev pub exported : ExportRow f.Float → Figures
  exported r = (r.method, r.count, r.errors, r.total_ms)

  abbrev pub on_screen : AnalyticsRow → Figures
  on_screen r = (r.method, r.count, r.errors, millis f r.total_duration)

module _ (f : Floats) (sort : List ℤ → List ℤ) (p95_index : ℕ → ℕ)
    (permutes : (ds : List ℤ) → Perm (sort ds) ds) (in_range : (n : ℕ) → p95_index n ≤ n) where
  percentile-some :
      (sorted : List ℤ) → 0 < length sorted → (d : ℤ) × (percentile p95_index sorted ≡ some d)
  unfolding percentile
  percentile-some sorted h =
      let full : (length sorted == 0) ≡ false = ground arith in
      let (d, e) =
        get_elem?-some sorted (p95_index (length sorted - 1))
          (omega (arith, in_range (length sorted - 1))) in
      (d, rw (full, e))

  export_row-some :
      (g : Bytes × ExportAgg)
      → 0 < length g.1.durations
      → (r : ExportRow f.Float) × (export_row f sort p95_index g ≡ some r)
        × (exported f r ≡ on_screen f (row_of (forget g)))
  unfolding export_row row_of
  export_row-some (method, g) h =
      let full : 0 < length (sort g.durations) =
        omega (arith, length-perm (permutes g.durations)) in
      let (p, ep) = percentile-some (sort g.durations) full in
      let (m, em) =
        get_elem?-some (sort g.durations) (length (sort g.durations) - 1) (omega arith) in
      rw (ep, em) (_, refl, refl)

  export_rows-some :
      (gs : List (Bytes × ExportAgg))
      → AreFilled gs
      → (rows : List (ExportRow f.Float)) × (export_rows f sort p95_index gs ≡ some rows)
        × (map (exported f) rows ≡ map (on_screen f) (map row_of (map forget gs)))
  unfolding export_rows
  export_rows-some [] h = ([], refl, refl)
  export_rows-some (g ∷ gs) h =
      let (r, er, sr) = export_row-some g h.0 in
      let (rows, es, ss) = export_rows-some gs h.1 in (r ∷ rows, rw (er, es), ap₂ ◌∷◌ sr ss)

  -- The analytics of an export never index out of range, and give the same methods as the analytics
  -- on the screen would for the exported events, in the order in which the methods came first, with
  -- the same counts, errors and total times. It is assumed that sorting permutes the durations, and
  -- that 0.95 n cut to an int is at most n.
  pub build_export_analytics_rows-on_screen :
      (evs : List TapEvent)
      → (rows : List (ExportRow f.Float)) × (build_export_analytics_rows f sort p95_index evs
          ≡ some rows)
        × (map (exported f) rows ≡ map (on_screen f) (build_analytics_rows (λ gs. gs) evs))
  unfolding build_export_analytics_rows build_analytics_rows
  build_export_analytics_rows-on_screen evs =
      let (rows, e, s) =
        export_rows-some (export_groups [] evs) (export_groups-AreFilled [] evs tt) in
      (rows, e, s ∙ ap (λ gs. map (on_screen f) (map row_of gs)) (map-export_groups [] evs))
