-- ===== src/Tui/Format.antt =====
-- tui/format.go: the texts of the screen. What the packages lipgloss and ansi and the formatting of
-- floats and of times give is a parameter, `Terminal`.
pub mod Laws
use grpc_tap.Prelude.{
  ℕ, zero, suc, ◌+◌, ◌-◌, ◌/◌, ◌≡◌, Option, none, some, List, [], ◌∷◌, ◌++◌, map, Bytes, codes,
  Bool, true, false, ◌||◌, ◌==◌, leb, ltb, if◌then◌else◌, length, get_elem?, set, take, replicate,
  contains, eq_bytes, split_lines,
}
use grpc_tap.Prelude.Int.{ℤ, pos, eq_ℤ, ltb_ℤ, div_int64}
use grpc_tap.Prelude.Decimal.{print_int}
use grpc_tap.Tui.Env.{Floats}
use grpc_tap.Tui.Body.{Verbs}

-- The styles in use: bold, faint, and a foreground colour by its number.
pub data Style : Type 0 where
  bold faint : Style
  color : ℕ → Style
  bold_color : ℕ → Style

-- `width` is `lipgloss.Width`, `runes` the number of code points, `fixed` the verb `%.nf`,
-- `seconds` is `Duration.Seconds`, `clock` a time in the local zone in the format of `formatTime`.
-- `style` renders with a style; `frame` in a rounded border of a given width; `alert_frame` in that
-- of an alert; `wrap` in a given width. `cut` is `ansi.Cut`.
pub record Terminal : Type 1 where
  pub width : Bytes → ℕ
  pub runes : Bytes → ℕ
  pub floats : Floats
  pub fixed : ℕ → floats.Float → Bytes
  pub seconds : ℤ → floats.Float
  pub clock : ℤ → Bytes
  pub style : Style → Bytes → Bytes
  pub frame : ℕ → Bytes → Bytes
  pub alert_frame : Bytes → Bytes
  pub wrap : ℕ → Bytes → Bytes
  pub cut : Bytes → ℕ → ℕ → Bytes
  pub sort_strings : List Bytes → List Bytes
  pub verbs : Verbs

-- `strings.Repeat(" ", n)`.
abbrev pub spaces : ℕ → Bytes
spaces n = replicate n 0x20

-- `strings.Repeat("─", n)`.
abbrev pub dashes : ℕ → Bytes
dashes zero = []
dashes (suc n) = 0xe2 ∷ 0x94 ∷ 0x80 ∷ dashes n

-- "…".
abbrev pub ellipsis : Bytes
ellipsis = 0xe2 ∷ 0x80 ∷ 0xa6 ∷ []

-- `strings.Join(lines, "\n")`.
abbrev pub join_lines : List Bytes → Bytes
join_lines [] = []
join_lines (l ∷ []) = l
join_lines (l ∷ (l' ∷ ls)) = l ++ (0x0a ∷ join_lines (l' ∷ ls))

-- `headers[k]`.
abbrev pub header_value : List (Bytes × Bytes) → Bytes → Bytes
header_value [] k = []
header_value ((k', v) ∷ hs) k = if eq_bytes k' k then v else header_value hs k

unfoldable pub status_string : ℤ → Bytes
status_string status =
    if eq_ℤ status (pos 0) then codes "OK" else codes "ERR(" ++ (print_int status ++ codes ")")

-- `statusStyle`, plain and for the row under the cursor.
unfoldable pub status_style : Bool → ℤ → Style
status_style true status = bold_color (if eq_ℤ status (pos 0) then 2 else 1)
status_style false status = color (if eq_ℤ status (pos 0) then 2 else 1)

module _ (t : Terminal) where
  open t use {floats}

  unfoldable pub format_duration_value : ℤ → Bytes
  format_duration_value dur =
      let micros = floats.of_int (div_int64 dur 1000) in
      if ltb_ℤ dur (pos 1000000)
      then t.fixed 0 micros ++ (0xc2 ∷ 0xb5 ∷ codes "s")
      else if ltb_ℤ dur (pos 1000000000)
      then t.fixed 1 (floats.div micros (floats.of_int (pos 1000))) ++ codes "ms"
      else t.fixed 2 (t.seconds dur) ++ codes "s"

  unfoldable pub format_duration : Option ℤ → Bytes
  format_duration none = codes "-"
  format_duration (some d) = format_duration_value d

  unfoldable pub format_time : Option ℤ → Bytes
  format_time none = codes "-"
  format_time (some time) = t.clock time

  -- `truncate`, for a length that is not negative.
  unfoldable pub truncate : Bytes → ℕ → Bytes
  truncate s max_len =
      let trimmed = t.verbs.trim_space s in
      if leb (length trimmed) max_len
      then trimmed
      else if leb max_len 1
      then take max_len trimmed
      else take (max_len - 1) trimmed ++ ellipsis

  unfoldable pub pad_right : Bytes → ℕ → Bytes
  pad_right s width = if leb width (t.width s) then s else s ++ spaces (width - t.width s)

  unfoldable pub pad_left : Bytes → ℕ → Bytes
  pad_left s width = if leb width (t.width s) then s else spaces (width - t.width s) ++ s

  -- The verbs `%-*s` and `%*s`, whose widths count code points.
  abbrev pub left_aligned : ℕ → Bytes → Bytes
  left_aligned width s = s ++ spaces (width - t.runes s)

  abbrev pub right_aligned : ℕ → Bytes → Bytes
  right_aligned width s = spaces (width - t.runes s) ++ s

  unfoldable pub friendly_error : Bytes → ℕ → Bytes
  friendly_error msg width = t.wrap width (
      if contains msg (codes "connection refused") || contains msg (codes "Unavailable")
      then codes "Could not connect to grpc-tapd."
        ++ (0x0a ∷ codes "Is grpc-tapd running?" ++ (0x0a ∷ 0x0a ∷ codes "Error: " ++ msg))
      else codes "Error: " ++ msg)

  -- `formatHeaders`.
  unfoldable pub format_headers : List (Bytes × Bytes) → List Bytes
  format_headers headers =
      map (λ k. k ++ (codes ": " ++ header_value headers k))
        (t.sort_strings (map (λ h. h.0) headers))

  -- A line of the alert over a line of the view.
  unfoldable pub overlay_line : ℕ → Bytes → Bytes → Bytes
  overlay_line width fl bl =
      let fw = t.width fl in
      let pad = (width - fw) / 2 in t.cut bl 0 pad ++ (fl ++ t.cut bl (pad + fw) width)

  -- The loop of `overlayAlert`, from the line `y` of the view.
  unfoldable pub overlay_lines : ℕ → ℕ → List Bytes → List Bytes → List Bytes
  overlay_lines width y [] bg = bg
  overlay_lines width y (fl ∷ fls) bg = elim (get_elem? bg y) [
    | none ↦ bg
    | some bl ↦ overlay_lines width (suc y) fls (set bg y (overlay_line width fl bl))
  ]

  abbrev pub overlay_start : List Bytes → List Bytes → ℕ
  overlay_start fg bg = (length bg - length fg) / 2

  unfoldable pub overlay_alert : Bytes → Bytes → ℕ → Bytes
  overlay_alert bg msg width =
      let fg_lines = split_lines (t.alert_frame msg) in
      let bg_lines = split_lines bg in
      join_lines (overlay_lines width (overlay_start fg_lines bg_lines) fg_lines bg_lines)
