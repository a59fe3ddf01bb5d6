-- ===== src/Tui/Rows/Order.antt =====
-- tui/model.go, rebuildDisplayRows, against tui/export.go, filteredExportEvents: what the list shows
-- in either order.
use mathlib.Core.Logic.{∥∥₁_map}
use mathlib.Core.List.{Perm, Permᴰ}
use grpc_tap.Prelude.{
  ℕ, ◌≡◌, ap, some, List, [], ◌∷◌, Bytes, Bool, false, get_elem?, map, arith, All,
}
use grpc_tap.Prelude.Int.{ℤ, ◌≤ℤ◌, ltb_ℤ}
use grpc_tap.Tui.TapEvent.{TapEvent}
use grpc_tap.Tui.Env.{IsSorter, NoInversion, IsStrictWeak, IsOrdering}
use grpc_tap.Tui.Rows.{
  sort_chronological, sort_duration, duration_at, filtered_export_events, rebuild_display_rows,
}
use grpc_tap.Tui.Rows.Laws.{rebuild_display_rows-export}

map-permᴰ : {A B : Type 0} (f : A → B) {xs ys : List A} → Permᴰ xs ys → Permᴰ (map f xs) (map f ys)
map-permᴰ f Permᴰ.nil = Permᴰ.nil
map-permᴰ f (Permᴰ.cons e p) = Permᴰ.cons (ap f e) (map-permᴰ f p)
map-permᴰ f (Permᴰ.swap e e') = Permᴰ.swap (ap f e) (ap f e')
map-permᴰ f (Permᴰ.trans p q) = Permᴰ.trans (map-permᴰ f p) (map-permᴰ f q)

map-perm : {A B : Type 0} (f : A → B) {xs ys : List A} → Perm xs ys → Perm (map f xs) (map f ys)
map-perm f {xs} {ys} p = ∥∥₁_map {B = Permᴰ (map f xs) (map f ys)} p (map-permᴰ f)

-- Every element is at least as large as those after it.
abbrev pub IsDescending : List ℤ → Type 0
IsDescending [] = Unit {0}
IsDescending (d ∷ ds) = All (λ e. e ≤ℤ d) ds × IsDescending ds

slower : List TapEvent → ℕ → ℕ → Bool
slower evs a b = ltb_ℤ (duration_at evs b) (duration_at evs a)

below-first :
    (evs : List TapEvent) (i : ℕ) (rows : List ℕ)
    → All (λ j. slower evs j i ≡ false) rows
    → All (λ e. e ≤ℤ duration_at evs i) (map (duration_at evs) rows)
unfolding slower
below-first evs i [] h = tt
below-first evs i (j ∷ rows) h = (ground (arith, h.0), below-first evs i rows h.1)

descending :
    (evs : List TapEvent) (rows : List ℕ)
    → NoInversion (slower evs) rows
    → IsDescending (map (duration_at evs) rows)
descending evs [] h = tt
descending evs (i ∷ rows) h = (below-first evs i rows h.0, descending evs rows h.1)

slower-IsStrictWeak : (evs : List TapEvent) → IsStrictWeak (slower evs)
unfolding slower
slower-IsStrictWeak evs = record {
  irreflexive = λ a. ground arith;
  transitive = λ a b c p q. ground arith;
  connected = λ a b c p q. ground arith;
}

module _ (to_lower : Bytes → Bytes) where
  -- Under the same search and filter, the list on the screen and an export show the same events: in
  -- chronological order the rows are the indices, in order, of the events that the export writes; in
  -- the order by duration they are those indices in another order, the longest duration first. It
  -- is assumed that sorting permutes its input, and leaves no inversion if the order is a strict
  -- weak one.
  pub rebuild_display_rows-shows :
      {sort : (ℕ → ℕ → Bool) → List ℕ → List ℕ}
      → IsSorter sort
      → IsOrdering sort
      → (evs : List TapEvent) (query : Bytes) (filter_errors : Bool)
      → (map
            (get_elem? evs)
            (rebuild_display_rows to_lower sort evs query filter_errors sort_chronological)
          ≡ map some (filtered_export_events to_lower evs query filter_errors))
        × Perm
            (map
              (get_elem? evs)
              (rebuild_display_rows to_lower sort evs query filter_errors sort_duration))
            (map some (filtered_export_events to_lower evs query filter_errors))
        × IsDescending (
            map
              (duration_at evs)
              (rebuild_display_rows to_lower sort evs query filter_errors sort_duration))
  unfolding rebuild_display_rows slower
  rebuild_display_rows-shows {sort = sort} sorter ordering evs query filter_errors =
      let same = rebuild_display_rows-export to_lower sort evs query filter_errors in
      let rows = rebuild_display_rows to_lower sort evs query filter_errors sort_chronological in
      let permuted : Perm (map (get_elem? evs) (sort (slower evs) rows))
          (map (get_elem? evs) rows) =
        map-perm (get_elem? evs) (sorter.permutes (slower evs) rows) in
      (
        same,
        rw same at permuted,
        descending evs _ (ordering.orders (slower evs) (slower-IsStrictWeak evs) _),
      )
