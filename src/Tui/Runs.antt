-- ===== src/Tui/Runs.antt =====
-- Concrete runs of the TUI, and its theorems at concrete inputs.
use grpc_tap.Prelude.{
  false, ℕ, ◌*◌, ◌/◌, ◌≡◌, refl, ◌⊎◌, none, some, List, [], ◌∷◌, map, Bytes, codes, get_elem?,
  arith,
}
use grpc_tap.Prelude.Int.{ltb_ℤ}
use grpc_tap.Tui.TapEvent.{TapEvent}
use grpc_tap.Tui.Rows.{
  duration_at, sort_duration, sort_chronological, rebuild_display_rows, filtered_export_events,
}
use mathlib.Core.List.{Perm}
use grpc_tap.Tui.Rows.Order.{IsDescending, rebuild_display_rows-shows}
use grpc_tap.Tui.Analytics.{group_events, build_analytics_rows}
use grpc_tap.Tui.Analytics.Groups.{find_group, sum_of, group_events-sum_of}
use grpc_tap.Tui.Model.{
  Model, new, Msg, found, nil, view_list, cursor_event, event_msg, replay_result_msg, key_msg,
}
use grpc_tap.Tui.Model.Update.{update}
use grpc_tap.Tui.Model.Safety.{IsHandled, update-IsHandled, update_all, update_all-new, new-Inv}
use grpc_tap.Tui.Model.Messages.{update_all-late}
use grpc_tap.Tui.Export.{ExportRow, build_export_analytics_rows}
use grpc_tap.Tui.Export.Laws.{exported, on_screen, build_export_analytics_rows-on_screen}
use grpc_tap.Tui.Toy.{
  insertion_sort-IsSorter, insertion_sort-IsOrdering, insertion_sort, insertion_sort-permᴰ, machine,
  machine-IsMachine, one_byte, one_line, echo, ping,
}

-- The list awaits the replayed call b.
abbrev awaiting : Model
awaiting = record (new (codes "localhost")) {
  events = echo ∷ [];
  display_rows = 0 ∷ [];
  replay_event_id = codes "b";
}

abbrev pressed : Bytes → Msg
pressed name = key_msg (record { name = name; runes = name })

update-IsHandled_example :
    IsHandled machine
      (update machine one_byte one_line (pressed (codes "s")) (new (codes "localhost")))
update-IsHandled_example =
    update-IsHandled machine machine-IsMachine one_byte one_line (pressed (codes "s"))
      (new (codes "localhost")) (new-Inv machine machine-IsMachine (codes "localhost"))

update_all-new_example :
    (m : Model) × (update_all machine one_byte one_line
        (event_msg echo ∷ pressed (codes "enter") ∷ event_msg ping ∷ pressed (codes "j") ∷ [])
        (new (codes "localhost"))
      ≡ some m)
    × (((m.display_rows ≡ []) × (cursor_event m ≡ nil))
        ⊎ ((ev : TapEvent) × (cursor_event m ≡ found ev)))
update_all-new_example =
    update_all-new machine machine-IsMachine one_byte one_line
      (event_msg echo ∷ pressed (codes "enter") ∷ event_msg ping ∷ pressed (codes "j") ∷ [])
      (codes "localhost")

-- Both calls are shown, and the second takes longer.
rebuild_display_rows-shows_example :
    (map (get_elem? (echo ∷ ping ∷ [])) (
        rebuild_display_rows (λ s. s) insertion_sort (echo ∷ ping ∷ []) [] false sort_chronological)
      ≡ map some (filtered_export_events (λ s. s) (echo ∷ ping ∷ []) [] false))
    × Perm
        (map
          (get_elem? (echo ∷ ping ∷ []))
          (rebuild_display_rows (λ s. s) insertion_sort (echo ∷ ping ∷ []) [] false sort_duration))
        (map some (filtered_export_events (λ s. s) (echo ∷ ping ∷ []) [] false))
    × IsDescending (
        map
          (duration_at (echo ∷ ping ∷ []))
          (rebuild_display_rows (λ s. s) insertion_sort (echo ∷ ping ∷ []) [] false sort_duration))
rebuild_display_rows-shows_example =
    rebuild_display_rows-shows (λ s. s) insertion_sort-IsSorter insertion_sort-IsOrdering
      (echo ∷ ping ∷ []) [] false

group_events-sum_of_example :
    find_group (codes "/ping") (group_events [] (echo ∷ ping ∷ ping ∷ []))
    ≡ sum_of (codes "/ping") none (echo ∷ ping ∷ ping ∷ [])
group_events-sum_of_example = group_events-sum_of (codes "/ping") (echo ∷ ping ∷ ping ∷ []) refl

update_all-late_example :
    (m : Model) × (update_all machine one_byte one_line
        (event_msg ping ∷ replay_result_msg (codes "b") none ∷ [])
        (new (codes "localhost"))
      ≡ some m)
    × (m.view ≡ view_list)
    × (m.replay_event_id ≡ codes "b")
    × (m.events ≡ ping ∷ [])
unfolding new
update_all-late_example =
    update_all-late machine one_byte one_line ping (new (codes "localhost")) refl

-- 0.95 n, cut.
abbrev p95 : ℕ → ℕ
p95 n = n * 95 / 100

build_export_analytics_rows-on_screen_example :
    (rows : List (ExportRow machine.floats.Float)) × (build_export_analytics_rows machine.floats
        (insertion_sort ltb_ℤ)
        p95
        (echo ∷ ping ∷ echo ∷ [])
      ≡ some rows)
    × (map (exported machine.floats) rows
        ≡ map
            (on_screen machine.floats)
            (build_analytics_rows (λ gs. gs) (echo ∷ ping ∷ echo ∷ [])))
build_export_analytics_rows-on_screen_example =
    build_export_analytics_rows-on_screen machine.floats (insertion_sort ltb_ℤ) p95
      (λ ds. ∣ insertion_sort-permᴰ ltb_ℤ ds ∣₁) (λ n. omega arith) (echo ∷ ping ∷ echo ∷ [])
