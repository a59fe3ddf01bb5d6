-- ===== src/Tui/View/Runs.antt =====
-- The theorems on the screen at concrete inputs.
use grpc_tap.Prelude.{
  ◌-◌, ◌≤◌, ◌<◌, ◌≡◌, refl, min, some, List, [], ◌∷◌, Bytes, codes, true, length, get_elem?, arith,
}
use grpc_tap.Proxy.Wire.{proto_wire_to_map, Decoded, is_message}
use grpc_tap.Proxy.Wire.Toy.{toy_wire, toy_wire-Consumes}
use grpc_tap.Tui.Body.{decode_proto_wire}
use grpc_tap.Tui.Body.Shape.{has_lines, decode_proto_wire-is_message}
use grpc_tap.Tui.Model.{Model, new, Msg, event_msg, window_size_msg, cursor_event, rebuild}
use grpc_tap.Tui.Model.Update.{update, on_event, list_event}
use grpc_tap.Tui.Rows.{rebuild_display_rows, rows_from, keeps}
use grpc_tap.Tui.Model.Safety.{update_all}
use grpc_tap.Tui.Toy.{machine, machine-IsMachine, one_byte, one_line, echo, ping}
use grpc_tap.Tui.Format.{Terminal}
use grpc_tap.Tui.View.{window_start, window_end}
use grpc_tap.Tui.View.Window.{window-In}
use grpc_tap.Tui.View.Rows.{list_row, list_rows, list_data_rows, list_method_width}
use grpc_tap.Tui.View.Scroll.{j_key, visible_lines-update_all}
use grpc_tap.Tui.View.Inspector.{visible_lines, inspect_rows}
use grpc_tap.Tui.Model.{view_inspect}
use grpc_tap.Prelude.{ℕ, replicate, ◌++◌}
use grpc_tap.Tui.TapEvent.{TapEvent}
use grpc_tap.Tui.View.Screen.{view}
use grpc_tap.Tui.View.Cursor.{list_rows-cursor}
use grpc_tap.Tui.View.Shows.{view-update_all}

-- A terminal without styles and borders.
abbrev plain_terminal : Terminal
plain_terminal = record {
  width = length;
  runes = length;
  floats = machine.floats;
  fixed = λ n f. codes "1.0";
  seconds = λ d. d;
  clock = λ time. codes "12:00";
  style = λ s text. text;
  frame = λ width text. text;
  alert_frame = λ text. text;
  wrap = λ width text. text;
  cut = λ text from to. [];
  sort_strings = λ ss. ss;
  verbs = record { quote = λ s. s; hex = λ s. s; trim_space = λ s. s; hex_dump = λ s. s };
}

decode_proto_wire-is_message_example :
    (d : Decoded) × (ls : List Bytes) × (proto_wire_to_map toy_wire (8 ∷ 7 ∷ []) ≡ some d)
    × (decode_proto_wire toy_wire plain_terminal.verbs (8 ∷ 7 ∷ []) [] ≡ some ls)
    × (is_message d ≡ has_lines ls)
decode_proto_wire-is_message_example =
    decode_proto_wire-is_message toy_wire plain_terminal.verbs toy_wire-Consumes (8 ∷ 7 ∷ []) []

abbrev three_lines : List Bytes
three_lines = codes "a" ∷ codes "b" ∷ codes "c" ∷ []

window-In_example :
    (window_start 10 7 4 ≤ 7)
    × (7 < window_end 10 7 4)
    × (window_end 10 7 4 ≤ 10)
    × (window_end 10 7 4 - window_start 10 7 4 ≡ min 4 10)
window-In_example = window-In 10 7 4 (omega arith) (omega arith)

abbrev arrivals : List Msg
arrivals = window_size_msg 80 24 ∷ event_msg echo ∷ event_msg ping ∷ []

-- The model after the arrivals: the cursor stays on the first call.
abbrev arrived : Model
arrived = record (new (codes "localhost")) {
  width = 80;
  height = 24;
  events = echo ∷ ping ∷ [];
  display_rows = 0 ∷ 1 ∷ [];
}

list_rows-cursor_example :
    (ls : List Bytes) × (list_rows plain_terminal arrived ≡ some ls)
    × (length ls ≡ min (list_data_rows arrived) 2)
    × (get_elem? ls (0 - window_start 2 0 (list_data_rows arrived))
        ≡ some (list_row plain_terminal (list_method_width arrived) true echo))
unfolding new update_all update on_event list_event rebuild rebuild_display_rows rows_from keeps
    cursor_event
list_rows-cursor_example =
    list_rows-cursor plain_terminal machine machine-IsMachine one_byte one_line arrivals
      (codes "localhost") arrived echo refl refl

view-update_all_example :
    (m : Model) × (text : Bytes) × (update_all machine one_byte one_line arrivals
        (new (codes "localhost"))
      ≡ some m)
    × (view plain_terminal toy_wire m ≡ some text)
view-update_all_example =
    view-update_all plain_terminal toy_wire toy_wire-Consumes machine machine-IsMachine one_byte
      one_line arrivals (codes "localhost")

-- The first call in the inspector of a window of six rows, with nine lines.
abbrev inspected : Model
inspected = record arrived { view = view_inspect; height = 6 }

abbrev nine_lines : TapEvent → List Bytes
nine_lines ev = replicate 8 [] ++ (codes "last" ∷ [])

visible_lines-update_all_example :
    (m : Model) × (vs : List Bytes) × (i : ℕ) × (update_all machine one_byte nine_lines
        (replicate 8 j_key)
        inspected
      ≡ some m)
    × (visible_lines m.inspect_scroll (inspect_rows m) (nine_lines echo) ≡ some vs)
    × (get_elem? vs i ≡ some (codes "last"))
unfolding new cursor_event
visible_lines-update_all_example =
    visible_lines-update_all machine one_byte nine_lines inspected echo 8 refl refl refl
      (omega arith)
