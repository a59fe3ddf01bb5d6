-- ===== src/Tui/Model/ListKeys.antt =====
-- tui/model.go: the keys of the list, of its search and of its export, updateList to updateWrite.
use grpc_tap.Prelude.{
  ℕ, ◌+◌, ◌-◌, ◌/◌, max, min, [], ◌++◌, Bytes, true, false, not, ◌==◌, ◌&&◌, length, ltb,
  if◌then◌else◌, is_empty, take,
}
use grpc_tap.Tui.Rows.{sort_chronological, sort_duration}
use grpc_tap.Tui.Model.{
  Model, Cmd, KeyMsg, view_list, view_inspect, export_json, export_markdown, Machine, no_cmd, quit,
  export, list_height, last_row, rebuild, refilter, analyse,
}
use grpc_tap.Tui.Model.Keys.{ListKey, PromptKey, FormatKey, list_key, prompt_key, format_key}

-- Both branches of "ctrl+c" and "q" that end the program.
abbrev pub leave : Model → Model × Cmd
leave m = (m, quit m.connected)

-- The size of the last UTF-8 sequence of a text, as `utf8.DecodeLastRuneInString` gives it.
abbrev pub LastRune : Type 0
LastRune = Bytes → ℕ

unfoldable pub clear_filter : Machine → Model → Model
clear_filter k m =
    if is_empty m.search_query then m else refilter k (record m { search_query = [] })

-- The model before the rows are rebuilt.
unfoldable pub flip_sort : Model → Model
flip_sort m = elim m.sort_mode [
  | sort_chronological ↦ record m { sort_mode = sort_duration; follow = false }
  | sort_duration ↦ record m { sort_mode = sort_chronological }
]

unfoldable pub toggle_sort : Machine → Model → Model
toggle_sort k m = let m1 = flip_sort m in record m1 { display_rows = rebuild k m1; cursor = 0 }

-- At the last row the list begins to follow.
unfoldable pub follow_at_end : Model → Model
follow_at_end m =
    if ltb 0 (length m.display_rows) && m.cursor == length m.display_rows - 1
    then record m { follow = true }
    else m

-- Back to the list from the inspector or the analytics.
unfoldable pub back_to_list : Machine → Model → Model
back_to_list k m =
    let m1 : Model = record m { view = view_list } in
    let rows = rebuild k m1 in
    if m.follow
    then record m1 { display_rows = rows; cursor = last_row rows }
    else record m1 { display_rows = rows }

unfoldable pub on_list_key : Machine → ListKey → Model → Model × Cmd
on_list_key k ListKey.quit_key m = leave m
on_list_key k ListKey.enter_key m = (
  if ltb 0 (length m.display_rows) then record m { view = view_inspect; inspect_scroll = 0 } else m,
  no_cmd,
)
on_list_key k ListKey.search_key m = (record m { search_mode = true; search_query = [] }, no_cmd)
on_list_key k ListKey.errors_key m =
    (refilter k (record m { filter_errors = not m.filter_errors }), no_cmd)
on_list_key k ListKey.analytics_key m = (analyse k m, no_cmd)
on_list_key k ListKey.write_key m = (record m { write_mode = true }, no_cmd)
on_list_key k ListKey.sort_key m = (toggle_sort k m, no_cmd)
on_list_key k ListKey.esc_key m = (clear_filter k m, no_cmd)
on_list_key k ListKey.down_key m = (
  follow_at_end (
      if ltb 0 (length m.display_rows) && ltb m.cursor (length m.display_rows - 1)
      then record m { cursor = m.cursor + 1 }
      else m),
  no_cmd,
)
on_list_key k ListKey.up_key m =
    (if ltb 0 m.cursor then record m { cursor = m.cursor - 1; follow = false } else m, no_cmd)
on_list_key k ListKey.page_down_key m =
    let half = max (list_height m / 2) 1 in
    (follow_at_end (record m { cursor = min (m.cursor + half) (last_row m.display_rows) }), no_cmd)
on_list_key k ListKey.page_up_key m =
    let half = max (list_height m / 2) 1 in
    (record m { cursor = m.cursor - half; follow = false }, no_cmd)
on_list_key k ListKey.other_key m = (m, no_cmd)

unfoldable pub on_prompt_key : Machine → LastRune → PromptKey → Bytes → Model → Model × Cmd
on_prompt_key k last_rune PromptKey.accept_key runes m = (record m { search_mode = false }, no_cmd)
on_prompt_key k last_rune PromptKey.cancel_key runes m =
    (refilter k (record m { search_mode = false; search_query = [] }), no_cmd)
on_prompt_key k last_rune PromptKey.erase_key runes m =
    let q = m.search_query in
    (
      if is_empty q
          then m
          else refilter k (record m { search_query = take (length q - last_rune q) q }),
      no_cmd,
    )
on_prompt_key k last_rune PromptKey.abort_key runes m = leave m
on_prompt_key k last_rune PromptKey.text_key runes m = (
  if is_empty runes then m else refilter k (record m { search_query = m.search_query ++ runes }),
  no_cmd,
)

unfoldable pub on_format_key : FormatKey → Model → Model × Cmd
on_format_key FormatKey.json_key m =
    (record m { write_mode = false }, export m.events m.search_query m.filter_errors export_json)
on_format_key FormatKey.markdown_key m = (
  record m { write_mode = false },
  export m.events m.search_query m.filter_errors export_markdown,
)
on_format_key FormatKey.no_format_key m = (record m { write_mode = false }, no_cmd)

unfoldable pub update_list : Machine → LastRune → KeyMsg → Model → Model × Cmd
update_list k last_rune msg m =
    if m.write_mode
    then on_format_key (format_key msg.name) m
    else if m.search_mode
    then on_prompt_key k last_rune (prompt_key msg.name) msg.runes m
    else on_list_key k (list_key msg.name) m
