-- ===== src/Tui/Model/Invariant/Keys.antt =====
-- Every key keeps the invariant, and the cursor is on an event.
use grpc_tap.Prelude.{
  ℕ, ◌+◌, ◌-◌, ◌≤◌, ◌<◌, ◌≡◌, refl, ◌⊎◌, inl, inr, none, List, [], ◌∷◌, Bytes, Bool, true, false,
  ◌&&◌, if◌then◌else◌, length, get_elem?, ltb, is_empty, arith, Bool-cases, Option-cases,
  All-get_elem?, get_elem?-some,
}
use grpc_tap.Tui.TapEvent.{TapEvent}
use grpc_tap.Tui.Model.{Model, Machine, nil, found, cursor_event, analyse, Cmd, KeyMsg}
use grpc_tap.Tui.Model.Keys.{
  ListKey, PromptKey, FormatKey, AnalyticsKey, list_key, prompt_key, format_key,
}
use grpc_tap.Tui.Model.ListKeys.{LastRune, on_list_key, on_prompt_key, on_format_key, update_list}
use grpc_tap.Tui.Model.Update.{on_analytics_key}
use grpc_tap.Tui.Model.Invariant.{
  IsMachine, Inv, refilter-Inv, back_to_list-Inv, follow_at_end-Inv, cursor-Inv, analytics-Inv,
  unsearch-Inv, toggle_sort-Inv, clear_filter-Inv,
}

module _ (k : Machine) (law : IsMachine k) where
  -- Every key of the list view keeps the indices in range.
  pub on_list_key-Inv : (key : ListKey) (m : Model) → Inv k m → Inv k (on_list_key k key m).0
  unfolding on_list_key
  on_list_key-Inv ListKey.quit_key m v = v
  on_list_key-Inv ListKey.enter_key m v = elim (Bool-cases (ltb 0 (length m.display_rows))) [
    | inl e ↦ rw e v
    | inr e ↦ rw e v
  ]
  on_list_key-Inv ListKey.search_key m v = unsearch-Inv k law m v
  on_list_key-Inv ListKey.errors_key m v = refilter-Inv k law _ v.analytics_in_range
  on_list_key-Inv ListKey.analytics_key m v =
      unfold analyse in analytics-Inv k law m _ 0 (omega arith) v
  on_list_key-Inv ListKey.write_key m v = v
  on_list_key-Inv ListKey.sort_key m v = toggle_sort-Inv k law m v
  on_list_key-Inv ListKey.esc_key m v = clear_filter-Inv k law m v
  on_list_key-Inv ListKey.down_key m v =
      follow_at_end-Inv k law _
        (elim (Bool-cases
          (ltb 0 (length m.display_rows) && ltb m.cursor (length m.display_rows - 1))) [
            | inl e ↦ rw e (cursor-Inv k law m (m.cursor + 1) (ground arith) v)
            | inr e ↦ rw e v
          ])
  on_list_key-Inv ListKey.up_key m v = elim (Bool-cases (ltb 0 m.cursor)) [
    | inl e ↦ rw e (cursor-Inv k law m (m.cursor - 1) (omega (arith, v.cursor_in_range)) v)
    | inr e ↦ rw e v
  ]
  on_list_key-Inv ListKey.page_down_key m v =
      follow_at_end-Inv k law _ (cursor-Inv k law m _ (omega arith) v)
  on_list_key-Inv ListKey.page_up_key m v =
      cursor-Inv k law m _ (omega (arith, v.cursor_in_range)) v
  on_list_key-Inv ListKey.other_key m v = v

  on_prompt_key-Inv :
      (last_rune : LastRune) (key : PromptKey) (runes : Bytes) (m : Model)
      → Inv k m
      → Inv k (on_prompt_key k last_rune key runes m).0
  unfolding on_prompt_key
  on_prompt_key-Inv last_rune PromptKey.accept_key runes m v = v
  on_prompt_key-Inv last_rune PromptKey.cancel_key runes m v =
      refilter-Inv k law _ v.analytics_in_range
  on_prompt_key-Inv last_rune PromptKey.erase_key runes m v =
      elim (Bool-cases (is_empty m.search_query)) [
        | inl e ↦ rw e v
        | inr e ↦ rw e (refilter-Inv k law _ v.analytics_in_range)
      ]
  on_prompt_key-Inv last_rune PromptKey.abort_key runes m v = v
  on_prompt_key-Inv last_rune PromptKey.text_key runes m v = elim (Bool-cases (is_empty runes)) [
    | inl e ↦ rw e v
    | inr e ↦ rw e (refilter-Inv k law _ v.analytics_in_range)
  ]

  on_format_key-Inv : (key : FormatKey) (m : Model) → Inv k m → Inv k (on_format_key key m).0
  unfolding on_format_key
  on_format_key-Inv FormatKey.json_key m v = v
  on_format_key-Inv FormatKey.markdown_key m v = v
  on_format_key-Inv FormatKey.no_format_key m v = v

  choose-Inv : (b : Bool) (r s : Model × Cmd) → Inv k r.0 → Inv k s.0 → Inv k (if b then r else s).0
  choose-Inv true r s hr hs = hr
  choose-Inv false r s hr hs = hs

  pub update_list-Inv :
      (last_rune : LastRune) (msg : KeyMsg) (m : Model)
      → Inv k m
      → Inv k (update_list k last_rune msg m).0
  unfolding update_list
  update_list-Inv last_rune msg m v =
      choose-Inv m.write_mode _ _ (on_format_key-Inv (format_key msg.name) m v) (
        choose-Inv m.search_mode _ _
          (on_prompt_key-Inv last_rune (prompt_key msg.name) msg.runes m v)
          (on_list_key-Inv (list_key msg.name) m v))

  pub on_analytics_key-Inv :
      (key : AnalyticsKey) (m : Model) → Inv k m → Inv k (on_analytics_key k key m).0
  unfolding on_analytics_key
  on_analytics_key-Inv AnalyticsKey.abort_key m v = v
  on_analytics_key-Inv AnalyticsKey.back_key m v = back_to_list-Inv k law m v
  on_analytics_key-Inv AnalyticsKey.down_key m v =
      elim (Bool-cases
        (ltb 0 (length m.analytics_rows) && ltb m.analytics_cursor (length m.analytics_rows - 1))) [
          | inl e ↦
              rw e
                (analytics-Inv k law m m.analytics_rows (m.analytics_cursor + 1) (ground arith) v)
          | inr e ↦ rw e v
        ]
  on_analytics_key-Inv AnalyticsKey.up_key m v = elim (Bool-cases (ltb 0 m.analytics_cursor)) [
    | inl e ↦ rw e (
        analytics-Inv k law m m.analytics_rows (m.analytics_cursor - 1)
          (omega (arith, v.analytics_in_range)) v)
    | inr e ↦ rw e v
  ]
  on_analytics_key-Inv AnalyticsKey.page_down_key m v =
      analytics-Inv k law m m.analytics_rows _ (omega arith) v
  on_analytics_key-Inv AnalyticsKey.page_up_key m v =
      analytics-Inv k law m m.analytics_rows _ (omega (arith, v.analytics_in_range)) v
  on_analytics_key-Inv AnalyticsKey.sort_key m v = analytics-Inv k law m _ 0 (omega arith) v
  on_analytics_key-Inv AnalyticsKey.other_key m v = v

  -- Under the invariant the cursor is on an event, unless there is no row at all.
  pub cursor_event_lem :
      (m : Model)
      → Inv k m
      → ((m.display_rows ≡ []) × (cursor_event m ≡ nil))
        ⊎ ((ev : TapEvent) × (cursor_event m ≡ found ev))
  unfolding cursor_event
  cursor_event_lem m v = elim (Option-cases (get_elem? m.display_rows m.cursor)) [
    | inl miss ↦
        inl (no_rows m.display_rows m.cursor v.cursor_in_range miss, rw (cursor_event, miss))
    | inr (row, at) ↦
        let (ev, e) =
          get_elem?-some m.events row
            (All-get_elem? (λ i. i < length m.events) m.display_rows m.cursor v.rows_in_range at) in
        inr (ev, rw (cursor_event, at, e))
  ]
    where
      no_rows : (rows : List ℕ) (c : ℕ) → c ≤ length rows - 1 → get_elem? rows c ≡ none → rows ≡ []
      no_rows [] c h e = refl
      no_rows (x ∷ rows) c h e = let (a, s) = get_elem?-some (x ∷ rows) c (omega arith) in cc
