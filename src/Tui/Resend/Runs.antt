-- ===== src/Tui/Resend/Runs.antt =====
-- The theorems on editing and resending at concrete inputs.
use grpc_tap.Prelude.{◌≤◌, ◌≡◌, refl, none, some, List, [], ◌∷◌, codes, length, arith}
use grpc_tap.Prelude.Decimal.{print_nat, parse_int}
use grpc_tap.Proxy.Wire.Encode.{
  good, JsonMap, no_members, member, float, join_fields, keyed_field, is_whole, value_field,
  members, map_to_proto_wire,
}
use grpc_tap.Proxy.Wire.Plain.{ArePlain}
use grpc_tap.Proxy.Wire.Text.{JsonCodec, parsed}
use grpc_tap.Proxy.Wire.Toy.{
  toy_wire, toy_wire-Consumes, toy_wire-ReadsBack, toy_numbers, toy_numbers-KeepsOrder,
}
use grpc_tap.Tui.TapEvent.{TapEvent}
use grpc_tap.Tui.Model.{Msg, replay_result_msg}
use grpc_tap.Tui.Toy.{echo}
use grpc_tap.Tui.Resend.{Desk, done, Deed, edit_and_resend}
use grpc_tap.Tui.Resend.Laws.{files_left, calls, edit_and_resend_tidy, edit_and_resend_untouched}

-- An editor that changes nothing, and a service that answers with one id.
abbrev desk : Desk
desk = record {
  create_temp = done (codes "/tmp/a");
  write_temp = λ path text. none;
  editor = [];
  run_editor = λ editor path. none;
  read_file = λ path. done (codes "json");
  replay = λ method body. done (codes "b");
}

-- Field 1 with the number 7, and its body.
abbrev one_field : JsonMap
one_field = member (codes "1") (float 7) no_members

abbrev codec : JsonCodec
codec = record { marshal = λ m. good (codes "json"); unmarshal = λ text. parsed one_field }

abbrev request : TapEvent
request = record echo { request_body = 8 ∷ 7 ∷ [] }

edit_and_resend_tidy_example :
    (deeds : List Deed) × (msg : Msg) × (edit_and_resend desk toy_wire toy_numbers codec request
      ≡ some (deeds, msg))
    × (files_left [] deeds ≡ [])
    × (length (calls deeds) ≤ 1)
edit_and_resend_tidy_example =
    edit_and_resend_tidy desk toy_wire toy_numbers codec toy_wire-Consumes request

one_field-ArePlain : ArePlain toy_wire toy_numbers one_field
unfolding print_nat
one_field-ArePlain = ((1, refl, omega arith, omega arith), tt, (omega arith, omega arith), tt)

request_encodes : map_to_proto_wire toy_wire toy_numbers one_field ≡ good (8 ∷ 7 ∷ [])
unfolding map_to_proto_wire members value_field keyed_field join_fields is_whole parse_int
request_encodes = refl

edit_and_resend_untouched_example :
    (deeds : List Deed) × (edit_and_resend desk toy_wire toy_numbers codec request
      ≡ some (deeds, replay_result_msg (codes "b") none))
    × (calls deeds ≡ (codes "/echo", 8 ∷ 7 ∷ []) ∷ [])
edit_and_resend_untouched_example =
    edit_and_resend_untouched desk toy_wire toy_numbers codec toy_wire-Consumes toy_wire-ReadsBack
      toy_numbers-KeepsOrder request one_field (codes "json") (codes "/tmp/a") (codes "b")
      one_field-ArePlain request_encodes refl refl refl refl refl refl refl
