-- ===== src/Proxy/Wire/Runs.antt =====
-- Concrete runs of the decoder and the encoder, and their theorems at concrete inputs.
use grpc_tap.Prelude.{◌<◌, ◌^◌, ◌≡◌, refl, some, [], ◌∷◌, Bytes, codes, true, arith}
use grpc_tap.Prelude.Decimal.{print_nat, parse_int}
use grpc_tap.Proxy.Wire.{
  WireMap, no_fields, field, number, text, nested, Decoded, good, put, is_message,
  is_printable_bytes, number_field, bytes_value, with_nested, bytes_field, field_at, after_field,
  after_tag, decode_loop, proto_wire_to_map,
}
use grpc_tap.Proxy.Wire.Fuel.{proto_wire_to_map-ends}
use grpc_tap.Proxy.Wire.Encode.{
  key_less, JsonMap, no_members, member, string, float, boolean, object, Encoded, map_to_proto_wire,
}
use grpc_tap.Proxy.Wire.Plain.{ArePlain, fill}
use grpc_tap.Proxy.Wire.RoundTrip.{proto_wire_to_map-map_to_proto_wire}
use grpc_tap.Proxy.Wire.Toy.{
  toy_wire, toy_wire-Consumes, toy_wire-ReadsBack, toy_numbers, toy_numbers-KeepsOrder,
}

-- Field 1 with the number 7, field 2 with a text, and field 3 with a message.
abbrev message : Bytes
message = 8 ∷ 7 ∷ 18 ∷ 1 ∷ 99 ∷ 26 ∷ 2 ∷ 8 ∷ 5 ∷ []

abbrev message_map : WireMap
message_map = field (codes "1") (number 7) (
    field (codes "2") (text (codes "c"))
      (field (codes "3") (nested (field (codes "1") (number 5) no_fields)) no_fields))

message_decodes : proto_wire_to_map toy_wire message ≡ some (good message_map)
unfolding proto_wire_to_map decode_loop after_tag field_at number_field bytes_field with_nested
    bytes_value after_field put is_printable_bytes print_nat
message_decodes = refl

proto_wire_to_map-ends_example :
    (d : Decoded) × (proto_wire_to_map toy_wire message ≡ some d)
    × (decode_loop toy_wire 20 no_fields message ≡ some d)
proto_wire_to_map-ends_example =
    proto_wire_to_map-ends toy_wire toy_wire-Consumes 20 message (omega arith)

abbrev fields : JsonMap
fields = member (codes "1") (float 7) (
    member (codes "2") (string (codes "c"))
      (member (codes "3") (object (member (codes "1") (boolean true) no_members)) no_members))

fields-ArePlain : ArePlain toy_wire toy_numbers fields
unfolding print_nat parse_int is_printable_bytes proto_wire_to_map decode_loop after_tag field_at
    after_field is_message key_less
fields-ArePlain =
    let whole : (7 < 2 ^ 64) × (7 < 2 ^ 64) = (omega arith, omega arith) in
    let inner : ArePlain toy_wire toy_numbers (member (codes "1") (boolean true) no_members) =
      ((1, refl, omega arith, omega arith), tt, tt, tt) in
    let third : ArePlain toy_wire toy_numbers
        (member (codes "3") (object (member (codes "1") (boolean true) no_members)) no_members) =
      ((3, refl, omega arith, omega arith), tt, inner, tt) in
    let second : ArePlain toy_wire toy_numbers (
        member (codes "2") (string (codes "c"))
          (member (codes "3") (object (member (codes "1") (boolean true) no_members)) no_members)) =
      ((2, refl, omega arith, omega arith), (refl, tt), (refl, (_, refl, refl)), third) in
    ((1, refl, omega arith, omega arith), (refl, (refl, tt)), whole, second)

proto_wire_to_map-map_to_proto_wire_example :
    (b : Bytes) × (map_to_proto_wire toy_wire toy_numbers fields ≡ Encoded.good b)
    × (proto_wire_to_map toy_wire b ≡ some (good (fill toy_wire toy_numbers no_fields fields)))
proto_wire_to_map-map_to_proto_wire_example =
    proto_wire_to_map-map_to_proto_wire toy_wire toy_numbers toy_wire-Consumes toy_wire-ReadsBack
      toy_numbers-KeepsOrder fields fields-ArePlain
