-- ===== src/Tui/View.antt =====
-- tui/model.go and tui/analytics.go: what the views share, and `View`. A text of the screen is
-- none where the code would index out of range, or where the rounds of a decoder did not suffice.
pub mod Rows
pub mod Inspector
pub mod Screen
pub mod Window
pub mod Cursor
pub mod Scroll
pub mod Shows
mod Runs
use grpc_tap.Prelude.{
  ℕ, zero, suc, ◌+◌, ◌-◌, ◌/◌, ◌≤◌, ◌<◌, ◌≡◌, max, min, Option, none, some, List, [], ◌∷◌, ◌++◌,
  Bytes, codes, Bool, true, false, ltb, if◌then◌else◌, length, get_elem?, ◌>>=◌, split_lines,
}
use grpc_tap.Tui.TapEvent.{TapEvent}
use grpc_tap.Tui.Model.{Model}
use grpc_tap.Tui.Format.{Terminal, Style, bold, faint, color, dashes, join_lines}

abbrev pub inner_width : Model → ℕ
inner_width m = max (m.width - 4) 20

-- The first and the last row that are drawn of `n`, with room for `rows`, so that the cursor is
-- among them. The list and the analytics compute both in the same words.
unfoldable pub window_start : ℕ → ℕ → ℕ → ℕ
window_start n cursor rows =
    if ltb rows n
    then (let start = cursor - rows / 2 in if ltb n (start + rows) then n - rows else start)
    else 0

unfoldable pub window_end : ℕ → ℕ → ℕ → ℕ
window_end n cursor rows = min (window_start n cursor rows + rows) n

-- `for i := start; i < start + count; i++`, each round one line.
unfoldable pub collect : (ℕ → Option Bytes) → ℕ → ℕ → Option (List Bytes)
collect draw zero i = some []
collect draw (suc count) i = do l ← draw i; ls ← collect draw count (suc i); some (l ∷ ls)

-- `m.events[m.displayRows[i]]`.
unfoldable pub event_at : Model → ℕ → Option TapEvent
event_at m i = do row ← get_elem? m.display_rows i; get_elem? m.events row

-- `lines[0] = l` and `lines[len(lines)-1] = l`, where there are lines.
abbrev pub set_first : Bytes → List Bytes → List Bytes
set_first l [] = []
set_first l (x ∷ xs) = l ∷ xs

abbrev pub set_last : Bytes → List Bytes → List Bytes
set_last l [] = []
set_last l (x ∷ []) = l ∷ []
set_last l (x ∷ (y ∷ ys)) = x ∷ set_last l (y ∷ ys)

abbrev pub marker : Bool → Bytes
marker true = 0xe2 ∷ 0x96 ∷ 0xb6 ∷ 0x20 ∷ []
marker false = codes "  "

module _ (t : Terminal) where
  -- The borders that take the place of the box's own: "╭", the title and "╮", or "╰", the help
  -- and "╯".
  unfoldable pub top_border : ℕ → Bytes → Bytes
  top_border width title =
      t.style (color 240) (0xe2 ∷ 0x95 ∷ 0xad ∷ [])
      ++ (t.style bold title
          ++ t.style (color 240) (dashes (width - t.runes title) ++ (0xe2 ∷ 0x95 ∷ 0xae ∷ [])))

  unfoldable pub bottom_border : ℕ → Bytes → Bytes
  bottom_border width help =
      t.style (color 240) (0xe2 ∷ 0x95 ∷ 0xb0 ∷ [])
      ++ (t.style faint help
          ++ t.style (color 240) (dashes (width - t.runes help) ++ (0xe2 ∷ 0x95 ∷ 0xaf ∷ [])))

  unfoldable pub titled_box : ℕ → Bytes → Bytes → Bytes
  titled_box width title content =
      join_lines (set_first (top_border width title) (split_lines (t.frame width content)))

  unfoldable pub helped_box : ℕ → Bytes → Bytes → Bytes → Bytes
  helped_box width title help content = join_lines (
      set_last (bottom_border width help)
        (set_first (top_border width title) (split_lines (t.frame width content))))
