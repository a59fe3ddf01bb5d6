-- ===== src/Tui/Export/Markdown.antt =====
-- tui/export.go, renderExportMarkdown and writeExport. `json.MarshalIndent`, the time stamp of the
-- file's name, `filepath.Join` and `os.WriteFile` are parameters.
pub mod Cells
use grpc_tap.Prelude.{
  ℕ, ◌+◌, ◌>>=◌, Option, none, some, List, [], ◌∷◌, ◌++◌, Bytes, codes, Bool, ltb, ◌==◌,
  if◌then◌else◌, is_empty,
}
use grpc_tap.Prelude.Int.{ℤ, pos}
use grpc_tap.Prelude.Decimal.{print_nat}
use grpc_tap.Tui.TapEvent.{TapEvent}
use grpc_tap.Tui.Env.{Floats}
use grpc_tap.Tui.Model.{ExportFormat, export_json, export_markdown}
use grpc_tap.Tui.Format.{status_string}
use grpc_tap.Tui.Export.{ExportRow}
use grpc_tap.Tui.Export.Data.{Exporter, ExportCall, ExportData, build_export_data}

-- `escapeMarkdownPipe`.
unfoldable pub escape_markdown_pipe : Bytes → Bytes
escape_markdown_pipe [] = []
escape_markdown_pipe (c ∷ s) =
    if c == b'|' then b'\\' ∷ b'|' ∷ escape_markdown_pipe s else c ∷ escape_markdown_pipe s

-- A line "| a | b |\n" of a table.
unfoldable pub row_tail : List Bytes → Bytes
row_tail [] = 0x0a ∷ []
row_tail (s ∷ ss) = 0x20 ∷ (s ++ (0x20 ∷ b'|' ∷ row_tail ss))

unfoldable pub table_row : List Bytes → Bytes
table_row ss = b'|' ∷ row_tail ss

-- "—", and "µs".
abbrev pub em_dash : Bytes
em_dash = 0xe2 ∷ 0x80 ∷ 0x94 ∷ []

-- A text and the end of its line.
abbrev pub ending : Bytes → Bytes
ending s = s ++ (0x0a ∷ [])

module _ (x : Exporter) where
  open x use {floats}

  -- `ms < a` on floats.
  abbrev pub below : floats.Float → ℕ → Bool
  below ms a = floats.gt (floats.of_int (pos a)) ms

  unfoldable pub format_duration_ms : floats.Float → Bytes
  format_duration_ms ms =
      let thousand = floats.of_int (pos 1000) in
      if below ms 1
      then x.fixed 0 (floats.mul ms thousand) ++ (0xc2 ∷ 0xb5 ∷ codes "s")
      else if below ms 1000
      then x.fixed 1 ms ++ codes "ms"
      else x.fixed 2 (floats.div ms thousand) ++ codes "s"

  -- `formatStatusMarkdown` writes what `statusString` writes.
  unfoldable pub call_line : ℕ → ExportCall floats.Float → Bytes
  call_line i c = table_row (
      print_nat i
      ∷ (c.time
          ∷ (escape_markdown_pipe c.method
              ∷ (c.call_type
                  ∷ (c.protocol
                      ∷ (format_duration_ms c.duration_ms
                          ∷ (status_string c.status ∷ (escape_markdown_pipe c.error ∷ []))))))))

  unfoldable pub call_lines : ℕ → List (ExportCall floats.Float) → Bytes
  call_lines i [] = []
  call_lines i (c ∷ cs) = call_line i c ++ call_lines (i + 1) cs

  unfoldable pub errors_markdown : ExportRow floats.Float → Bytes
  errors_markdown r =
      if ltb 0 r.errors
      then print_nat r.errors
        ++ (codes "("
            ++ (x.fixed 0 (
                  floats.mul
                    (floats.div (floats.of_int (pos r.errors)) (floats.of_int (pos r.count)))
                    (floats.of_int (pos 100)))
                ++ codes "%)"))
      else codes "0"

  unfoldable pub analytics_line : ExportRow floats.Float → Bytes
  analytics_line r = table_row (
      escape_markdown_pipe r.method
      ∷ (print_nat r.count
          ∷ (errors_markdown r
              ∷ (format_duration_ms r.avg_ms
                  ∷ (format_duration_ms r.p95_ms
                      ∷ (format_duration_ms r.max_ms ∷ (format_duration_ms r.total_ms ∷ [])))))))

  unfoldable pub analytics_table : List (ExportRow floats.Float) → Bytes
  analytics_table [] = []
  analytics_table (r ∷ rs) = analytics_line r ++ analytics_table rs

  unfoldable pub analytics_section : List (ExportRow floats.Float) → Bytes
  analytics_section [] = []
  analytics_section (r ∷ rs) =
      0x0a
      ∷ (ending (codes "## Analytics")
          ++ (0x0a
              ∷ (ending (codes "| Method | Count | Errors | Avg | P95 | Max | Total |")
                  ++ (ending (codes "|--------|-------|--------|-----|-----|-----|-------|")
                      ++ analytics_table (r ∷ rs)))))

  unfoldable pub summary : ExportData floats.Float → Bytes
  summary d =
      ending (codes "# grpc-tap export")
      ++ (0x0a
          ∷ (ending (codes "- Captured: " ++ (print_nat d.captured ++ codes " calls"))
              ++ (ending (
                    codes "- Exported: "
                    ++ (print_nat d.exported
                        ++ (codes " calls"
                            ++ (if is_empty d.search
                                then []
                                else codes " (search: " ++ (d.search ++ codes ")")))))
                  ++ (if is_empty d.period_start
                      then []
                      else ending (
                          codes "- Period: "
                          ++ (d.period_start
                              ++ (codes " " ++ (em_dash ++ (codes " " ++ d.period_end)))))))))

  unfoldable pub markdown : ExportData floats.Float → Bytes
  markdown d =
      summary d
      ++ (0x0a
          ∷ (ending (codes "## Calls")
              ++ (0x0a
                  ∷ (ending (
                        codes "| # | Time | Method | Type | Protocol | Duration | Status | Error |")
                      ++ (ending (
                            codes
                              "|---|------|--------|------|----------|----------|--------|-------|")
                          ++ (call_lines 1 d.calls ++ analytics_section d.analytics))))))

  -- `renderExportMarkdown`.
  unfoldable pub render_export_markdown : List TapEvent → Bytes → Bool → Option Bytes
  render_export_markdown evs query filter_errors = do
    d ← build_export_data x evs query filter_errors
    some (markdown d)

  -- The text or an error, each as its text.
  pub data Rendered : Type 0 where
    rendered : Bytes → Rendered
    failed : Bytes → Rendered

  -- The packages and the machine that `writeExport` uses: `write_file` gives the error, if any.
  pub record Output : Type 0 where
    pub marshal_indent : ExportData floats.Float → Rendered
    pub stamp : Bytes
    pub join_path : Bytes → Bytes → Bytes
    pub write_file : Bytes → Bytes → Option Bytes

  module _ (out : Output) where
    unfoldable pub json : Rendered → Rendered
    json (rendered b) = rendered (ending b)
    json (failed e) = failed (codes "marshal export: " ++ e)

    -- `renderExportJSON`, `renderExportMarkdown`.
    unfoldable pub render_export : ExportFormat → ExportData floats.Float → Rendered
    render_export export_json d = json (out.marshal_indent d)
    render_export export_markdown d = rendered (markdown d)

    unfoldable pub file_name : ExportFormat → Bytes
    file_name export_json = codes "grpc-tap-" ++ (out.stamp ++ codes ".json")
    file_name export_markdown = codes "grpc-tap-" ++ (out.stamp ++ codes ".md")

    unfoldable pub in_dir : Bytes → Bytes → Bytes
    in_dir dir name = if is_empty dir then name else out.join_path dir name

    unfoldable pub write_rendered : Bytes → Rendered → Bytes × Option Bytes
    write_rendered path (failed e) = ([], some e)
    write_rendered path (rendered content) = elim (out.write_file path content) [
      | none ↦ (path, none)
      | some e ↦ ([], some (codes "write export: " ++ e))
    ]

    -- `writeExport`: the path and the error.
    unfoldable pub write_export :
        List TapEvent → Bytes → Bool → ExportFormat → Bytes → Option (Bytes × Option Bytes)
    write_export evs query filter_errors format dir = do
      d ← build_export_data x evs query filter_errors
      some (write_rendered (in_dir dir (file_name format)) (render_export format d))
