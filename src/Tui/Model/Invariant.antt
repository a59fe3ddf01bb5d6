-- ===== src/Tui/Model/Invariant.antt =====
-- What holds of the TUI's model after every message: no index that it keeps is out of range.
pub mod Keys
use grpc_tap.Prelude.{
  ℕ, ◌+◌, ◌-◌, ◌≤◌, ◌<◌, ◌≡◌, refl, ap, ◌⊎◌, inl, inr, none, List, [], ◌∷◌, ◌++◌, Bytes, Bool, true,
  false, not, ◌==◌, ◌&&◌, if◌then◌else◌, length, get_elem?, ltb, is_empty, eq_bytes, arith,
  Bool-cases, Option-cases, length-append, All-get_elem?, get_elem?-some,
}
use grpc_tap.Prelude.Perms.{AllBelow}
use grpc_tap.Tui.TapEvent.{TapEvent}
use grpc_tap.Tui.Env.{IsSorter}
use grpc_tap.Tui.Rows.{SortMode, rows_from, rebuild_display_rows}
use grpc_tap.Tui.Analytics.{AnalyticsRow}
use grpc_tap.Tui.Rows.Laws.{
  rows_from-append, rows_from-unfiltered, rebuild_display_rows-AllBelow,
  length-rebuild_display_rows,
}
use grpc_tap.Tui.Model.{
  Model, Machine, nil, found, ViewMode, view_list, cursor_event, last_row, rebuild, refilter,
  analyse, Cmd, KeyMsg,
}
use grpc_tap.Tui.Model.Keys.{
  ListKey, PromptKey, FormatKey, AnalyticsKey, list_key, prompt_key, format_key,
}
use grpc_tap.Tui.Model.ListKeys.{
  LastRune, clear_filter, flip_sort, toggle_sort, follow_at_end, back_to_list, on_list_key,
  on_prompt_key, on_format_key, update_list,
}
use grpc_tap.Tui.Model.Update.{on_analytics_key, list_event, on_event}

-- The laws of the libraries that the proofs use.
pub record IsMachine (k : Machine) : Type 0 where
  pub lower_empty : k.to_lower [] ≡ []
  pub sorts_rows : IsSorter k.sort_rows

-- `rows_grow`: between a change of the search and the next rebuild the rows on the screen may be
-- stale, and then they are no more than a rebuild would give.
pub record Indices (k : Machine) (events : List TapEvent) (rows : List ℕ) (cursor : ℕ)
    (query : Bytes) (filter_errors : Bool) (mode : SortMode) (analytics_rows : List AnalyticsRow)
    (analytics_cursor : ℕ) : Type 0 where
  pub rows_in_range : AllBelow (length events) rows
  pub cursor_in_range : cursor ≤ length rows - 1
  pub rows_grow :
      length rows
      ≤ length (rebuild_display_rows k.to_lower k.sort_rows events query filter_errors mode)
  pub analytics_in_range : analytics_cursor ≤ length analytics_rows - 1

abbrev pub Inv : Machine → Model → Type 0
Inv k m =
    Indices k m.events m.display_rows m.cursor m.search_query m.filter_errors m.sort_mode
      m.analytics_rows m.analytics_cursor

module _ (k : Machine) (law : IsMachine k) where
  rebuild-AllBelow : (m : Model) → AllBelow (length m.events) (rebuild k m)
  unfolding rebuild
  rebuild-AllBelow m =
      rebuild_display_rows-AllBelow k.to_lower law.sorts_rows m.events m.search_query
        m.filter_errors m.sort_mode

  length-rebuild :
      (m : Model)
      → length (rebuild k m)
        ≡ length (rows_from k.to_lower (k.to_lower m.search_query) m.filter_errors 0 m.events)
  unfolding rebuild
  length-rebuild m =
      length-rebuild_display_rows k.to_lower law.sorts_rows m.events m.search_query m.filter_errors
        m.sort_mode

  -- One more event gives no fewer rows, and so does no search.
  rebuild-event :
      (m : Model) (ev : TapEvent)
      → length (rebuild k m) ≤ length (rebuild k (record m { events = m.events ++ (ev ∷ []) }))
  rebuild-event m ev = omega (
    arith,
    length-rebuild m,
    length-rebuild (record m { events = m.events ++ (ev ∷ []) }),
    ap length (
        rows_from-append k.to_lower (k.to_lower m.search_query) m.filter_errors 0 m.events
          (ev ∷ [])),
    length-append (rows_from k.to_lower (k.to_lower m.search_query) m.filter_errors 0 m.events) (
        rows_from k.to_lower (k.to_lower m.search_query) m.filter_errors (0 + length m.events)
          (ev ∷ [])),
  )

  rebuild-unfiltered :
      (m : Model) → length (rebuild k m) ≤ length (rebuild k (record m { search_query = [] }))
  rebuild-unfiltered m =
      let all = length-rebuild (record m { search_query = [] }) in
      omega (
        arith,
        length-rebuild m,
        rw law.lower_empty at all,
        rows_from-unfiltered k.to_lower (k.to_lower m.search_query) m.filter_errors 0 m.events,
      )

  AllBelow-mono : (n n' : ℕ) (xs : List ℕ) → n ≤ n' → AllBelow n xs → AllBelow n' xs
  AllBelow-mono n n' [] h a = tt
  AllBelow-mono n n' (x ∷ xs) h a = (omega arith, AllBelow-mono n n' xs h a.1)

  -- Rows that were just rebuilt, under a cursor that fits them.
  fresh-Inv :
      (m : Model) (c : ℕ)
      → c ≤ length (rebuild k m) - 1
      → m.analytics_cursor ≤ length m.analytics_rows - 1
      → Inv k (record m { display_rows = rebuild k m; cursor = c })
  unfolding rebuild
  fresh-Inv m c h a = record {
    rows_in_range = rebuild-AllBelow m;
    cursor_in_range = h;
    rows_grow = omega arith;
    analytics_in_range = a;
  }

  refilter-Inv :
      (m : Model) → m.analytics_cursor ≤ length m.analytics_rows - 1 → Inv k (refilter k m)
  unfolding refilter
  refilter-Inv m a = fresh-Inv m _ (omega arith) a

  pub back_to_list-Inv : (m : Model) → Inv k m → Inv k (back_to_list k m)
  unfolding back_to_list rebuild
  back_to_list-Inv m v = elim (Bool-cases m.follow) [
    | inl f ↦ rw f (fresh-Inv m (last_row (rebuild k m)) (omega arith) v.analytics_in_range)
    | inr f ↦ rw f (fresh-Inv m m.cursor (omega (arith, v)) v.analytics_in_range)
  ]

  follow_at_end-Inv : (m : Model) → Inv k m → Inv k (follow_at_end m)
  unfolding follow_at_end
  follow_at_end-Inv m v =
      elim (Bool-cases (ltb 0 (length m.display_rows) && m.cursor == length m.display_rows - 1)) [
        | inl e ↦ rw e v
        | inr e ↦ rw e v
      ]

  -- The cursor moves within the rows.
  cursor-Inv :
      (m : Model) (c : ℕ)
      → c ≤ length m.display_rows - 1
      → Inv k m
      → Inv k (record m { cursor = c })
  cursor-Inv m c h v = record {
    rows_in_range = v.rows_in_range;
    cursor_in_range = h;
    rows_grow = v.rows_grow;
    analytics_in_range = v.analytics_in_range;
  }

  analytics-Inv :
      (m : Model) (rows : List AnalyticsRow) (c : ℕ)
      → c ≤ length rows - 1
      → Inv k m
      → Inv k (record m { analytics_rows = rows; analytics_cursor = c })
  analytics-Inv m rows c h v = record {
    rows_in_range = v.rows_in_range;
    cursor_in_range = v.cursor_in_range;
    rows_grow = v.rows_grow;
    analytics_in_range = h;
  }

  append-Inv :
      (ev : TapEvent) (m : Model) → Inv k m → Inv k (record m { events = m.events ++ (ev ∷ []) })
  unfolding rebuild
  append-Inv ev m v = record {
    rows_in_range =
        AllBelow-mono (length m.events) (length (m.events ++ (ev ∷ []))) m.display_rows
          (omega (arith, length-append m.events (ev ∷ []))) v.rows_in_range;
    cursor_in_range = v.cursor_in_range;
    rows_grow = omega (arith, v.rows_grow, rebuild-event m ev);
    analytics_in_range = v.analytics_in_range;
  }

  -- An empty search before the rows are rebuilt.
  unsearch-Inv : (m : Model) → Inv k m → Inv k (record m { search_query = [] })
  unfolding rebuild
  unsearch-Inv m v = record {
    rows_in_range = v.rows_in_range;
    cursor_in_range = v.cursor_in_range;
    rows_grow = omega (arith, v.rows_grow, rebuild-unfiltered m);
    analytics_in_range = v.analytics_in_range;
  }

  list_event-Inv : (view : ViewMode) (m : Model) → Inv k m → Inv k (list_event k view m)
  unfolding list_event
  list_event-Inv view_list m v =
      fresh-Inv m _ (unfold rebuild in ground (arith, v)) v.analytics_in_range
  list_event-Inv _ m v = v

  pub on_event-Inv : (ev : TapEvent) (m : Model) → Inv k m → Inv k (on_event k ev m)
  unfolding on_event rebuild
  on_event-Inv ev m v =
      let m1 : Model = record m { events = m.events ++ (ev ∷ []) } in
      elim (Bool-cases (not (is_empty m.replay_event_id) && eq_bytes ev.id m.replay_event_id)) [
        | inl e ↦ rw e (fresh-Inv m1 (last_row (rebuild k m1)) (omega arith) v.analytics_in_range)
        | inr e ↦ rw e (list_event-Inv m.view m1 (append-Inv ev m v))
      ]

  toggle_sort-Inv : (m : Model) → Inv k m → Inv k (toggle_sort k m)
  unfolding toggle_sort flip_sort rebuild
  toggle_sort-Inv m v =
      fresh-Inv (flip_sort m) 0 (omega arith) (ground (arith, v.analytics_in_range))

  clear_filter-Inv : (m : Model) → Inv k m → Inv k (clear_filter k m)
  unfolding clear_filter
  clear_filter-Inv m v = elim (Bool-cases (is_empty m.search_query)) [
    | inl e ↦ rw e v
    | inr e ↦ rw e (refilter-Inv (record m { search_query = [] }) v.analytics_in_range)
  ]
