-- ===== src/Tui/Model/Messages.antt =====
-- tui/model.go: what `Update` does for an event that answers a replay, and for the timers of alerts.
use grpc_tap.Prelude.{
  ℕ, ◌+◌, ◌≡◌, refl, ap, ◌∙◌, some, none, List, [], ◌∷◌, ◌++◌, Bytes, Bool, true, false, ◌==◌,
  arith, length, is_empty, eq_bytes_self, get_elem?, get_elem?-append_self, length-append,
}
use grpc_tap.Tui.TapEvent.{TapEvent}
use grpc_tap.Tui.Rows.{sort_chronological, keeps, rows_from, rebuild_display_rows}
use grpc_tap.Tui.Rows.Laws.{rows_from-append}
use grpc_tap.Tui.Model.{
  Model, ViewMode, Machine, Cmd, no_cmd, recv_event, clear_alert_after, found, view_inspect,
  view_list, view_analytics, replay_result_msg, cursor_event, last_row, rebuild, show_alert,
  event_msg, clear_alert_msg,
}
use grpc_tap.Tui.Model.ListKeys.{LastRune}
use grpc_tap.Tui.Model.Update.{list_event, on_event, update}
use grpc_tap.Tui.Model.Safety.{update_all}

-- The event that arrived last, where it is the last row, and the cursor is on that row.
cursor_event-last :
    (m : Model) (rows : List ℕ) (evs : List TapEvent) (ev : TapEvent)
    → m.display_rows ≡ rows ++ (length evs ∷ [])
    → m.events ≡ evs ++ (ev ∷ [])
    → m.cursor ≡ length rows
    → cursor_event m ≡ found ev
unfolding cursor_event
cursor_event-last m rows evs ev r e c =
    let at : get_elem? m.display_rows m.cursor ≡ some (length evs) =
      ap (get_elem? m.display_rows) c
      ∙ ap (λ xs. get_elem? xs (length rows)) r
      ∙ get_elem?-append_self rows (length evs) in
    let last : get_elem? m.events (length evs) ≡ some ev =
      ap (λ xs. get_elem? xs (length evs)) e ∙ get_elem?-append_self evs ev in
    rw (cursor_event, at, last)

-- The model in which `on_event` shows the rows' last event in the inspector.
abbrev replayed : Model → List ℕ → Model
replayed m rows = record m {
  replay_event_id = [];
  display_rows = rows;
  cursor = last_row rows;
  view = view_inspect;
  inspect_scroll = 0;
}

module _ (k : Machine) where
  rebuild_display_rows-kept :
      (evs : List TapEvent) (ev : TapEvent) (query : Bytes) (filter_errors : Bool)
      → keeps k.to_lower (k.to_lower query) filter_errors ev ≡ true
      → rebuild_display_rows k.to_lower k.sort_rows
          (evs ++ (ev ∷ []))
          query
          filter_errors
          sort_chronological
        ≡ rows_from k.to_lower (k.to_lower query) filter_errors 0 evs ++ (length evs ∷ [])
  unfolding rebuild_display_rows rows_from
  rebuild_display_rows-kept evs ev query filter_errors h =
      let z : 0 + length evs ≡ length evs = omega arith in
      rows_from-append k.to_lower (k.to_lower query) filter_errors 0 evs (ev ∷ [])
      ∙ ap (◌++◌ (rows_from k.to_lower (k.to_lower query) filter_errors 0 evs))
          (rw h (ap (λ i. i ∷ []) z))

  -- The event whose id, not empty, a replay returned arrives while the rows are in chronological
  -- order and the filters let it pass: the inspector opens on that event, and no replay is awaited
  -- any more.
  pub update-replayed :
      (last_rune : LastRune) (lines : TapEvent → List Bytes) (ev : TapEvent) (m : Model)
      → is_empty ev.id ≡ false
      → m.replay_event_id ≡ ev.id
      → m.sort_mode ≡ sort_chronological
      → keeps k.to_lower (k.to_lower m.search_query) m.filter_errors ev ≡ true
      → (r : Model × Cmd) × (update k last_rune lines (event_msg ev) m ≡ some r)
        × (r.0.view ≡ view_inspect)
        × (cursor_event r.0 ≡ found ev)
        × (r.0.replay_event_id ≡ [])
  update-replayed last_rune lines ev m nonempty awaited order kept =
      let m1 : Model = record m { events = m.events ++ (ev ∷ []) } in
      let rows = rows_from k.to_lower (k.to_lower m.search_query) m.filter_errors 0 m.events in
      let fresh : rebuild k m1 ≡ rows ++ (length m.events ∷ []) =
        unfold rebuild in
        ap (rebuild_display_rows k.to_lower k.sort_rows m1.events m.search_query m.filter_errors)
          order
        ∙ rebuild_display_rows-kept m.events ev m.search_query m.filter_errors kept in
      let at_end : last_row (rebuild k m1) ≡ length rows =
        omega (arith, ap length fresh, length-append rows (length m.events ∷ [])) in
      let shown : on_event k ev m ≡ replayed m1 (rebuild k m1) =
        unfold on_event in simp (awaited, nonempty, eq_bytes_self ev.id) in
      (
        (on_event k ev m, recv_event),
        unfold update in refl,
        ap (λ r. r.view) shown,
        ap cursor_event shown
            ∙ cursor_event-last (replayed m1 (rebuild k m1)) rows m.events ev fresh refl at_end,
        ap (λ r. r.replay_event_id) shown,
      )

  -- While one alert is on the screen another is shown. The timer that the first one started changes
  -- nothing then, and the timer of the second one takes its text away.
  pub update-alerts :
      (last_rune : LastRune) (lines : TapEvent → List Bytes) (first second : Bytes) (m : Model)
      → let (m1, timer1) = show_alert first m in
        let (m2, timer2) = show_alert second m1 in
        (seq1 seq2 : ℕ) × (timer1 ≡ clear_alert_after seq1)
        × (timer2 ≡ clear_alert_after seq2)
        × (update k last_rune lines (clear_alert_msg seq1) m2 ≡ some (m2, no_cmd))
        × (update k last_rune lines (clear_alert_msg seq2) m2
            ≡ some (record m2 { alert_message = [] }, no_cmd))
  unfolding update show_alert
  update-alerts last_rune lines first second m =
      let old : (m.alert_seq + 1 == m.alert_seq + 1 + 1) ≡ false = ground arith in
      let same : (m.alert_seq + 1 + 1 == m.alert_seq + 1 + 1) ≡ true = ground arith in
      (m.alert_seq + 1, m.alert_seq + 1 + 1, refl, refl, rw old, rw same)

  list_event-view : (view : ViewMode) (m : Model) → (list_event k view m).view ≡ m.view
  unfolding list_event
  list_event-view view_list m = refl
  list_event-view view_inspect m = refl
  list_event-view view_analytics m = refl

  on_event-view :
      (ev : TapEvent) (m : Model)
      → is_empty m.replay_event_id ≡ true
      → (on_event k ev m).view ≡ m.view
  unfolding on_event
  on_event-view ev m none_awaited =
      rw none_awaited (list_event-view m.view (record m { events = m.events ++ (ev ∷ []) }))

  list_event-events : (view : ViewMode) (m : Model) → (list_event k view m).events ≡ m.events
  unfolding list_event
  list_event-events view_list m = refl
  list_event-events view_inspect m = refl
  list_event-events view_analytics m = refl

  on_event-events :
      (ev : TapEvent) (m : Model)
      → is_empty m.replay_event_id ≡ true
      → (on_event k ev m).events ≡ m.events ++ (ev ∷ [])
  unfolding on_event
  on_event-events ev m none_awaited =
      rw none_awaited (list_event-events m.view (record m { events = m.events ++ (ev ∷ []) }))

  -- The event of a replay may arrive before the result of the replay does. If no replay was awaited
  -- until then, the view stays what it was, and the id of the event is awaited from then on, though
  -- the event has passed.
  pub update_all-late :
      (last_rune : LastRune) (lines : TapEvent → List Bytes) (ev : TapEvent) (m : Model)
      → is_empty m.replay_event_id ≡ true
      → (m' : Model) × (update_all k last_rune lines
            (event_msg ev ∷ replay_result_msg ev.id none ∷ [])
            m
          ≡ some m')
        × (m'.view ≡ m.view)
        × (m'.replay_event_id ≡ ev.id)
        × (m'.events ≡ m.events ++ (ev ∷ []))
  unfolding update_all update
  update_all-late last_rune lines ev m none_awaited = (
    record (on_event k ev m) { replay_event_id = ev.id },
    refl,
    on_event-view ev m none_awaited,
    refl,
    on_event-events ev m none_awaited,
  )
