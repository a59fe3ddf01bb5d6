-- ===== src/Tui/Rows/Laws.antt =====
-- What the rows of the list are.
use grpc_tap.Prelude.{
  ℕ, suc, ◌+◌, ◌≤◌, ◌≡◌, refl, inl, inr, some, List, [], ◌∷◌, ◌++◌, Bytes, Bool, length, get_elem?,
  map, arith, Bool-cases, length-append, get_elem?-append_middle, append_assoc,
}
use mathlib.Core.Path.{ap₂}
use grpc_tap.Prelude.Perms.{AllBelow, AllBelow-perm, length-perm}
use grpc_tap.Tui.TapEvent.{TapEvent}
use grpc_tap.Tui.Env.{IsSorter}
use grpc_tap.Tui.Rows.{
  SortMode, sort_chronological, sort_duration, keeps, exports, rows_from, filtered_events,
  filtered_export_events, rebuild_display_rows,
}

module _ (to_lower : Bytes → Bytes) where
  rows_from-AllBelow :
      (f : Bytes) (e : Bool) (i n : ℕ) (evs : List TapEvent)
      → i + length evs ≤ n
      → AllBelow n (rows_from to_lower f e i evs)
  unfolding rows_from
  rows_from-AllBelow f e i n [] h = tt
  rows_from-AllBelow f e i n (ev ∷ evs) h =
      ground (arith, rows_from-AllBelow f e (suc i) n evs (omega arith))

  pub rows_from-append :
      (f : Bytes) (e : Bool) (i : ℕ) (xs ys : List TapEvent)
      → rows_from to_lower f e i (xs ++ ys)
        ≡ rows_from to_lower f e i xs ++ rows_from to_lower f e (i + length xs) ys
  unfolding rows_from
  rows_from-append f e i [] ys = let z : i + 0 ≡ i = omega arith in rw z
  rows_from-append f e i (ev ∷ xs) ys =
      let z : i + suc (length xs) ≡ suc i + length xs = omega arith in
      rw z (ground (arith, rows_from-append f e (suc i) xs ys))

  -- Without a search every event passes that passed with one.
  pub rows_from-unfiltered :
      (f : Bytes) (e : Bool) (i : ℕ) (evs : List TapEvent)
      → length (rows_from to_lower f e i evs) ≤ length (rows_from to_lower [] e i evs)
  unfolding rows_from keeps
  rows_from-unfiltered f e i [] = omega arith
  rows_from-unfiltered f e i (ev ∷ evs) = ground (arith, rows_from-unfiltered f e (suc i) evs)

  -- The two filters agree.
  exports-keeps :
      (f : Bytes) (e : Bool) (ev : TapEvent) → exports to_lower f e ev ≡ keeps to_lower f e ev
  unfolding exports keeps
  exports-keeps f e ev = ground arith

  rows_from-filtered :
      (f : Bytes) (e : Bool) (pre evs : List TapEvent)
      → map (get_elem? (pre ++ evs)) (rows_from to_lower f e (length pre) evs)
        ≡ map some (filtered_events to_lower f e evs)
  unfolding rows_from filtered_events
  rows_from-filtered f e pre [] = refl
  rows_from-filtered f e pre (ev ∷ evs) =
      let at_next : length (pre ++ (ev ∷ [])) ≡ suc (length pre) =
        omega (arith, length-append pre (ev ∷ [])) in
      let rest : map (get_elem? (pre ++ (ev ∷ evs))) (rows_from to_lower f e (suc (length pre)) evs)
          ≡ map some (filtered_events to_lower f e evs) =
        rw (append_assoc pre (ev ∷ []) evs, at_next) at
          (rows_from-filtered f e (pre ++ (ev ∷ [])) evs) in
      elim (Bool-cases (keeps to_lower f e ev)) [
        | inl k ↦ rw (exports-keeps f e ev, k) (ap₂ ◌∷◌ (get_elem?-append_middle pre ev evs) rest)
        | inr k ↦ rw (exports-keeps f e ev, k) rest
      ]

module _ (to_lower : Bytes → Bytes) where
  -- The rows in chronological order, against an export under the same search and filter.
  pub rebuild_display_rows-export :
      (sort : (ℕ → ℕ → Bool) → List ℕ → List ℕ) (evs : List TapEvent) (query : Bytes)
      (filter_errors : Bool)
      → map
          (get_elem? evs)
          (rebuild_display_rows to_lower sort evs query filter_errors sort_chronological)
        ≡ map some (filtered_export_events to_lower evs query filter_errors)
  unfolding rebuild_display_rows filtered_export_events
  rebuild_display_rows-export sort evs query filter_errors =
      rows_from-filtered to_lower (to_lower query) filter_errors [] evs

module _ (to_lower : Bytes → Bytes) {sort : (ℕ → ℕ → Bool) → List ℕ → List ℕ} (law : IsSorter sort)
    (evs : List TapEvent) (query : Bytes) (filter_errors : Bool) where
  abbrev rebuilt : SortMode → List ℕ
  rebuilt = rebuild_display_rows to_lower sort evs query filter_errors

  -- Every row is the index of a captured event, in either order, given that the sort permutes.
  pub rebuild_display_rows-AllBelow : (mode : SortMode) → AllBelow (length evs) (rebuilt mode)
  unfolding rebuild_display_rows
  rebuild_display_rows-AllBelow sort_chronological =
      rows_from-AllBelow to_lower (to_lower query) filter_errors 0 (length evs) evs (omega arith)
  rebuild_display_rows-AllBelow sort_duration =
      AllBelow-perm (length evs) _ _ (law.permutes _ _) (
        rows_from-AllBelow to_lower (to_lower query) filter_errors 0 (length evs) evs (omega arith))

  pub length-rebuild_display_rows :
      (mode : SortMode)
      → length (rebuilt mode) ≡ length (rows_from to_lower (to_lower query) filter_errors 0 evs)
  unfolding rebuild_display_rows
  length-rebuild_display_rows sort_chronological = refl
  length-rebuild_display_rows sort_duration = length-perm (law.permutes _ _)
