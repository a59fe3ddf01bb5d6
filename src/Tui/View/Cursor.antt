-- ===== src/Tui/View/Cursor.antt =====
-- tui/model.go, renderListView: the row under the cursor.
use grpc_tap.Prelude.{
  ℕ, ◌-◌, ◌<◌, ◌≡◌, refl, ◌∙◌, inl, inr, sym, subst, min, some, List, Bytes, true, ◌==◌, length,
  get_elem?, get_elem?-some, get_elem?-lt, All-get_elem?, arith, Option-cases,
}
use grpc_tap.Prelude.Perms.{AllBelow}
use grpc_tap.Tui.TapEvent.{TapEvent}
use grpc_tap.Tui.Model.{Model, new, Machine, Msg, nil, found, panics, cursor_event}
use grpc_tap.Tui.Model.ListKeys.{LastRune}
use grpc_tap.Tui.Model.Invariant.{IsMachine, Inv}
use grpc_tap.Tui.Model.Safety.{update_all, update_all-Inv, new-Inv}
use grpc_tap.Tui.Format.{Terminal}
use grpc_tap.Tui.View.{window_start, event_at}
use grpc_tap.Tui.View.Rows.{list_method_width, list_data_rows, list_row, draw_event, list_rows}
use grpc_tap.Tui.View.Window.{IsSome, row_at_cursor}

module _ (t : Terminal) where
  pub draw_event-IsSome :
      (m : Model)
      → AllBelow (length m.events) m.display_rows
      → (j : ℕ) → j < length m.display_rows
      → IsSome (draw_event t m j)
  unfolding draw_event event_at
  draw_event-IsSome m below j h =
      let (row, er) = get_elem?-some m.display_rows j h in
      let (ev, ee) =
        get_elem?-some m.events row
          (All-get_elem? (λ x. x < length m.events) m.display_rows j below er) in
      rw (er, ee) (_, refl)

  draw_event-cursor :
      (m : Model) (ev : TapEvent)
      → cursor_event m ≡ found ev
      → (m.cursor < length m.display_rows)
        × (draw_event t m m.cursor ≡ some (list_row t (list_method_width m) true ev))
  unfolding draw_event event_at cursor_event
  draw_event-cursor m ev e = elim (Option-cases (get_elem? m.display_rows m.cursor)) [
    | inl miss ↦ let c : nil ≡ found ev = sym (rw (cursor_event, miss) refl) ∙ e in cc
    | inr (row, at) ↦ elim (Option-cases (get_elem? m.events row)) [
      | inl miss ↦ let c : panics ≡ found ev = sym (rw (cursor_event, at, miss) refl) ∙ e in cc
      | inr (ev', at') ↦
          let c : found ev' ≡ found ev = sym (rw (cursor_event, at, at') refl) ∙ e in
          let same : (m.cursor == m.cursor) ≡ true = ground arith in
          let p : ev' ≡ ev = cc in
          (get_elem?-lt m.display_rows m.cursor at, rw (at, at', same, p) refl)
    ]
  ]

  -- The list draws the event under the cursor, in the row that is marked, however it is sorted and
  -- filtered and however small the window is, and draws as many rows as there are and as there is
  -- room for: after any messages from the start, where the list has a row. It is assumed that the
  -- empty text is its own lower case and that the sort permutes.
  pub list_rows-cursor :
      (k : Machine) (law : IsMachine k) (last_rune : LastRune) (lines : TapEvent → List Bytes)
      (msgs : List Msg) (target : Bytes) (m : Model) (ev : TapEvent)
      → update_all k last_rune lines msgs (new target) ≡ some m
      → cursor_event m ≡ found ev
      → (ls : List Bytes) × (list_rows t m ≡ some ls)
        × (length ls ≡ min (list_data_rows m) (length m.display_rows))
        × (get_elem? ls
              (m.cursor - window_start (length m.display_rows) m.cursor (list_data_rows m))
            ≡ some (list_row t (list_method_width m) true ev))
  unfolding list_rows
  list_rows-cursor k law last_rune lines msgs target m ev ran at_ev =
      let (m', e, v) =
        update_all-Inv k law last_rune lines msgs (new target) (new-Inv k law target) in
      let p : m' ≡ m = cc in
      let below = (subst (Inv k) p v).rows_in_range in
      let (c, row) = draw_event-cursor m ev at_ev in
      let (ls, el, len, at) =
        row_at_cursor (draw_event t m) (length m.display_rows) m.cursor (list_data_rows m)
          (omega arith) c (draw_event-IsSome m below) in
      (ls, el, len, at ∙ row)
