-- ===== src/Tui/Export/Runs.antt =====
-- The theorems on the export at concrete inputs.
use grpc_tap.Prelude.{◌≡◌, refl, some, [], ◌∷◌, ◌++◌, map, codes, false}
use grpc_tap.Prelude.Decimal.{print_nat}
use grpc_tap.Prelude.Int.{pos}
use grpc_tap.Tui.TapEvent.{TapEvent}
use grpc_tap.Tui.Names.{call_type_name, protocol_name}
use grpc_tap.Tui.Format.{status_string}
use grpc_tap.Tui.Export.Data.{Exporter, duration_ms, export_call}
use grpc_tap.Tui.Export.Markdown.{call_line, format_duration_ms}
use grpc_tap.Tui.Export.Markdown.Cells.{read_row, spaced, is_bare-IsBare, read_row-call_line}
use grpc_tap.Tui.Toy.{machine, echo}

-- Durations in the order in which they came, and constant formats.
abbrev exporter : Exporter
exporter = record {
  floats = machine.floats;
  fixed = λ n f. codes "1.0";
  sort_durations = λ ds. ds;
  p95_index = λ n. n;
  clock = λ time. codes "12:00:00";
  clock_millis = λ time. codes "12:00:00.000";
  to_lower = λ s. s;
}

-- A call whose error has a pipe.
abbrev piped : TapEvent
piped = record echo { error = codes "a|b" }

-- The rest of the file is left.
read_row-call_line_example :
    read_row false (call_line exporter 1 (export_call exporter piped) ++ codes "end") ≡ (
      []
          ∷ (map spaced (
                print_nat 1
                ∷ (codes "12:00:00.000"
                    ∷ (codes "/echo"
                        ∷ (call_type_name (pos 1)
                            ∷ (protocol_name (pos 1)
                                ∷ (format_duration_ms exporter (duration_ms exporter (some (pos 5)))
                                    ∷ (status_string (pos 0) ∷ (codes "a|b" ∷ []))))))))
              ++ ([] ∷ [])),
      codes "end",
    )
read_row-call_line_example =
    read_row-call_line exporter (λ time. is_bare-IsBare (codes "12:00:00.000") refl)
      (λ n f. is_bare-IsBare (codes "1.0") refl) 1 piped (codes "end")
      ((refl, refl), ((refl, refl), ((refl, refl), ((refl, refl), ((refl, refl), tt)))))
      ((refl, refl), ((refl, refl), ((refl, refl), tt)))
