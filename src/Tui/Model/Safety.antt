-- ===== src/Tui/Model/Safety.antt =====
-- `Update` of tui/model.go never indexes out of range, and leaves no index out of range.
use grpc_tap.Prelude.{
  ◌+◌, ◌-◌, if◌then◌else◌, ◌≡◌, refl, ◌∙◌, ◌⊎◌, inl, inr, Option, none, some, List, [], ◌∷◌, Bytes,
  Bool-cases, ltb, arith, ◌==◌, length, is_empty,
}
use grpc_tap.Tui.TapEvent.{TapEvent}
use grpc_tap.Tui.Model.{
  Model, new, Machine, Msg, Cmd, no_cmd, KeyMsg, nil, found, ViewMode, view_list, view_inspect,
  view_analytics, cursor_event, show_alert, connected_msg, event_msg, replay_result_msg,
  export_result_msg, clear_status_msg, clear_alert_msg, err_msg, key_msg, window_size_msg,
  other_msg,
}
use grpc_tap.Tui.Model.Keys.{InspectKey, inspect_key, analytics_key_of}
use grpc_tap.Tui.Model.ListKeys.{LastRune}
use grpc_tap.Tui.Model.Update.{
  copy_body, edit, copy_request, copy_response, at_cursor, scroll_down, on_inspect_key, on_key,
  update,
}
use grpc_tap.Tui.Model.Invariant.{IsMachine, Inv, back_to_list-Inv, on_event-Inv}
use grpc_tap.Tui.Model.Invariant.Keys.{cursor_event_lem, update_list-Inv, on_analytics_key-Inv}

-- A message that is handled, and leaves the indices in range.
abbrev pub IsHandled : Machine → Option (Model × Cmd) → Type 0
IsHandled k o = (r : Model × Cmd) × (o ≡ some r) × Inv k r.0

module _ (k : Machine) (law : IsMachine k) where
  at_cursor-IsHandled :
      (f : TapEvent → Model → Model × Cmd) (m : Model)
      → ((ev : TapEvent) → Inv k (f ev m).0)
      → Inv k m
      → IsHandled k (at_cursor f m)
  at_cursor-IsHandled f m h v = elim (cursor_event_lem k law m v) [
    | inl (e, c) ↦ ((m, no_cmd), rw (at_cursor, c), v)
    | inr (ev, c) ↦ (f ev m, rw (at_cursor, c), h ev)
  ]

  show_alert-Inv : (text : Bytes) (m : Model) → Inv k m → Inv k (show_alert text m).0
  unfolding show_alert
  show_alert-Inv text m v = v

  copy_body-Inv : (body status : Bytes) (m : Model) → Inv k m → Inv k (copy_body k body status m).0
  unfolding copy_body
  copy_body-Inv body status m v = show_alert-Inv _ m v

  scroll_down-Inv :
      (lines : TapEvent → List Bytes) (ev : TapEvent) (m : Model)
      → Inv k m
      → Inv k (scroll_down lines ev m).0
  unfolding scroll_down
  scroll_down-Inv lines ev m v =
      elim (Bool-cases (ltb m.inspect_scroll (length (lines ev) + 2 - m.height))) [
        | inl e ↦ rw e v
        | inr e ↦ rw e v
      ]

  copy_request-Inv : (ev : TapEvent) (m : Model) → Inv k m → Inv k (copy_request k ev m).0
  unfolding copy_request
  copy_request-Inv ev m v = elim (Bool-cases (is_empty ev.request_body)) [
    | inl e ↦ rw e v
    | inr e ↦ rw e (copy_body-Inv ev.request_body _ m v)
  ]

  copy_response-Inv : (ev : TapEvent) (m : Model) → Inv k m → Inv k (copy_response k ev m).0
  unfolding copy_response
  copy_response-Inv ev m v = elim (Bool-cases (is_empty ev.response_body)) [
    | inl e ↦ rw e v
    | inr e ↦ rw e (copy_body-Inv ev.response_body _ m v)
  ]

  on_inspect_key-IsHandled :
      (lines : TapEvent → List Bytes) (key : InspectKey) (m : Model)
      → Inv k m
      → IsHandled k (on_inspect_key k lines key m)
  unfolding on_inspect_key
  on_inspect_key-IsHandled lines InspectKey.abort_key m v = (_, refl, v)
  on_inspect_key-IsHandled lines InspectKey.back_key m v = (_, refl, back_to_list-Inv k law m v)
  on_inspect_key-IsHandled lines InspectKey.edit_key m v =
      unfold edit in at_cursor-IsHandled edit m (λ ev. v) v
  on_inspect_key-IsHandled lines InspectKey.copy_request_key m v =
      at_cursor-IsHandled (copy_request k) m (λ ev. copy_request-Inv ev m v) v
  on_inspect_key-IsHandled lines InspectKey.copy_response_key m v =
      at_cursor-IsHandled (copy_response k) m (λ ev. copy_response-Inv ev m v) v
  on_inspect_key-IsHandled lines InspectKey.down_key m v =
      at_cursor-IsHandled (scroll_down lines) m (λ ev. scroll_down-Inv lines ev m v) v
  on_inspect_key-IsHandled lines InspectKey.up_key m v = (_, refl, scrolled)
    where
      scrolled :
          Inv k (
            if ltb 0 m.inspect_scroll
            then record m { inspect_scroll = m.inspect_scroll - 1 }
            else m)
      scrolled = elim (Bool-cases (ltb 0 m.inspect_scroll)) [ inl e ↦ rw e v | inr e ↦ rw e v ]
  on_inspect_key-IsHandled lines InspectKey.other_key m v = (_, refl, v)

  on_key-IsHandled :
      (last_rune : LastRune) (lines : TapEvent → List Bytes) (view : ViewMode) (msg : KeyMsg)
      (m : Model)
      → Inv k m
      → IsHandled k (on_key k last_rune lines view msg m)
  unfolding on_key
  on_key-IsHandled last_rune lines view_analytics msg m v =
      (_, refl, on_analytics_key-Inv k law (analytics_key_of msg.name) m v)
  on_key-IsHandled last_rune lines view_inspect msg m v =
      on_inspect_key-IsHandled lines (inspect_key msg.name) m v
  on_key-IsHandled last_rune lines view_list msg m v =
      (_, refl, update_list-Inv k law last_rune msg m v)

  -- From a model whose indices are in range, every message is handled without an index out of
  -- range, whatever the number of lines of an inspected event, and the indices of the model that
  -- results are in range again. It is assumed that the empty text is its own lower case and that
  -- the sort permutes.
  pub update-IsHandled :
      (last_rune : LastRune) (lines : TapEvent → List Bytes) (msg : Msg) (m : Model)
      → Inv k m
      → IsHandled k (update k last_rune lines msg m)
  unfolding update
  update-IsHandled last_rune lines connected_msg m v = (_, refl, v)
  update-IsHandled last_rune lines (event_msg ev) m v = (_, refl, on_event-Inv k law ev m v)
  update-IsHandled last_rune lines (replay_result_msg id none) m v = (_, refl, v)
  update-IsHandled last_rune lines (replay_result_msg id (some e)) m v = (_, refl, v)
  update-IsHandled last_rune lines (export_result_msg path none) m v =
      (_, refl, show_alert-Inv _ m v)
  update-IsHandled last_rune lines (export_result_msg path (some e)) m v =
      (_, refl, show_alert-Inv _ m v)
  update-IsHandled last_rune lines clear_status_msg m v = (_, refl, v)
  update-IsHandled last_rune lines (clear_alert_msg seq) m v = (_, refl, cleared)
    where
      cleared : Inv k (if seq == m.alert_seq then record m { alert_message = [] } else m)
      cleared = elim (Bool-cases (seq == m.alert_seq)) [ inl e ↦ rw e v | inr e ↦ rw e v ]
  update-IsHandled last_rune lines (err_msg e) m v = (_, refl, v)
  update-IsHandled last_rune lines (key_msg msg) m v =
      on_key-IsHandled last_rune lines m.view msg (record m { alert_message = [] }) v
  update-IsHandled last_rune lines (window_size_msg w h) m v = (_, refl, v)
  update-IsHandled last_rune lines other_msg m v = (_, refl, v)

-- The program's loop: every message in its turn, until one crashes.
unfoldable pub update_all :
    Machine → LastRune → (TapEvent → List Bytes) → List Msg → Model → Option Model
update_all k last_rune lines [] m = some m
update_all k last_rune lines (msg ∷ msgs) m = elim (update k last_rune lines msg m) [
  | none ↦ none
  | some r ↦ update_all k last_rune lines msgs r.0
]

module _ (k : Machine) (law : IsMachine k) where
  update_all-cons :
      (last_rune : LastRune) (lines : TapEvent → List Bytes) (msg : Msg) (msgs : List Msg)
      (m : Model) (r : Model × Cmd)
      → update k last_rune lines msg m ≡ some r
      → update_all k last_rune lines (msg ∷ msgs) m ≡ update_all k last_rune lines msgs r.0
  unfolding update_all
  update_all-cons last_rune lines msg msgs m r e = rw (update_all, e)

  pub update_all-Inv :
      (last_rune : LastRune) (lines : TapEvent → List Bytes) (msgs : List Msg) (m : Model)
      → Inv k m
      → (m' : Model) × (update_all k last_rune lines msgs m ≡ some m') × Inv k m'
  unfolding update_all
  update_all-Inv last_rune lines [] m v = (m, refl, v)
  update_all-Inv last_rune lines (msg ∷ msgs) m v =
      let (r, e, v') = update-IsHandled k law last_rune lines msg m v in
      let (m', e', h) = update_all-Inv last_rune lines msgs r.0 v' in
      (m', update_all-cons last_rune lines msg msgs m r e ∙ e', h)

  pub new-Inv : (target : Bytes) → Inv k (new target)
  unfolding new
  new-Inv target = record {
    rows_in_range = tt;
    cursor_in_range = omega arith;
    rows_grow = omega arith;
    analytics_in_range = omega arith;
  }

  -- A run of the program over any list of messages, started by New, meets no index out of range,
  -- and ends in a model where the cursor is on an event unless the list of rows is empty. It is
  -- assumed that the empty text is its own lower case and that the sort permutes.
  pub update_all-new :
      (last_rune : LastRune) (lines : TapEvent → List Bytes) (msgs : List Msg) (target : Bytes)
      → (m : Model) × (update_all k last_rune lines msgs (new target) ≡ some m)
        × (((m.display_rows ≡ []) × (cursor_event m ≡ nil))
            ⊎ ((ev : TapEvent) × (cursor_event m ≡ found ev)))
  update_all-new last_rune lines msgs target =
      let (m, e, v) = update_all-Inv last_rune lines msgs (new target) (new-Inv target) in
      (m, e, cursor_event_lem k law m v)
