-- ===== src/Proxy/Wire.antt =====
-- proxy/frame.go, protoWireToMap: protobuf wire format as a map of field numbers, without a schema.
-- The package protowire, utf8.Valid and hex.EncodeToString are parameters.
pub mod Fuel
pub mod Encode
pub mod Plain
pub mod Fields
pub mod RoundTrip
pub mod Text
pub mod Toy
mod Runs
use grpc_tap.Prelude.{
  ℕ, zero, suc, ◌<◌, ◌≤◌, ◌≡◌, Option, none, some, List, [], ◌∷◌, ◌++◌, Bytes, codes, Bool, true,
  false, not, ◌&&◌, ◌||◌, ◌==◌, ltb, if◌then◌else◌, length, drop, eq_bytes,
}
use grpc_tap.Prelude.Int.{ℤ}
use grpc_tap.Prelude.Decimal.{print_nat}
use Prim.Native.String.{String}

-- The functions of protowire. A `Consume` function gives what it read and how many bytes that took,
-- or none where its count is negative. An `Append` function is given as the bytes it appends.
pub record ProtoWire : Type 0 where
  pub consume_tag : Bytes → Option (ℕ × ℕ × ℕ)
  pub consume_varint : Bytes → Option (ℕ × ℕ)
  pub consume_fixed32 : Bytes → Option (ℕ × ℕ)
  pub consume_fixed64 : Bytes → Option (ℕ × ℕ)
  pub consume_bytes : Bytes → Option (Bytes × ℕ)
  pub append_tag : ℤ → ℕ → Bytes
  pub append_varint : ℕ → Bytes
  pub append_fixed64 : ℕ → Bytes
  pub append_bytes : Bytes → Bytes
  pub utf8_valid : Bytes → Bool
  pub hex_encode : Bytes → Bytes

-- A `Consume` function takes no more than there is; a tag takes a byte at least, and a bytes field
-- more than its value.
pub record Consumes (w : ProtoWire) : Type 0 where
  pub tag_takes :
      (s : Bytes) (num t n : ℕ) → w.consume_tag s ≡ some (num, t, n) → (0 < n) × (n ≤ length s)
  pub bytes_takes :
      (s v : Bytes) (n : ℕ) → w.consume_bytes s ≡ some (v, n) → (length v < n) × (n ≤ length s)

-- The wire types.
abbrev pub varint_type : ℕ
varint_type = 0

abbrev pub fixed64_type : ℕ
fixed64_type = 1

abbrev pub bytes_type : ℕ
bytes_type = 2

abbrev pub start_group_type : ℕ
start_group_type = 3

abbrev pub end_group_type : ℕ
end_group_type = 4

abbrev pub fixed32_type : ℕ
fixed32_type = 5

-- `map[string]any`, as it is filled here.
mutual
  pub data WireValue : Type 0 where
    number : ℕ → WireValue
    text : Bytes → WireValue
    nested : WireMap → WireValue

  pub data WireMap : Type 0 where
    no_fields : WireMap
    field : Bytes → WireValue → WireMap → WireMap

-- `m[key] = v`.
unfoldable pub put : Bytes → WireValue → WireMap → WireMap
put key v no_fields = field key v no_fields
put key v (field k u m) = if eq_bytes k key then field k v m else field k u (put key v m)

-- The map, or the text of an error.
pub data Decoded : Type 0 where
  good : WireMap → Decoded
  bad : Bytes → Decoded

-- `err == nil && len(nested) > 0`.
unfoldable pub is_message : Decoded → Bool
is_message (good (field k v m)) = true
is_message (good no_fields) = false
is_message (bad e) = false

-- `isPrintableBytes`, and `isPrintable` of tui/format.go, which is the same function.
unfoldable pub is_printable_bytes : Bytes → Bool
is_printable_bytes [] = true
is_printable_bytes (b ∷ s) =
    if ltb b 0x20 && not (b == 0x0a) && not (b == 0x0d) && not (b == 0x09)
    then false
    else is_printable_bytes s

-- What the body of the loop finds behind a tag: a value with the bytes it takes, nothing for the
-- wire types that the switch does not name, or an error. `exhausted`: the rounds did not suffice.
pub data FieldAt : Type 0 where
  value : WireValue → ℕ → FieldAt
  skipped exhausted : FieldAt
  refused : Bytes → FieldAt

unfoldable pub number_field : String → ℕ → Option (ℕ × ℕ) → FieldAt
number_field kind num none =
    refused (codes "invalid " ++ (codes kind ++ (codes " for field " ++ print_nat num)))
number_field kind num (some (v, n)) = value (number v) n

unfoldable pub after_field :
    (WireMap → Bytes → Option Decoded) → WireMap → ℕ → Bytes → FieldAt → Option Decoded
after_field loop m num s (value v n) = loop (put (print_nat num) v m) (drop n s)
after_field loop m num s skipped = loop m s
after_field loop m num s exhausted = none
after_field loop m num s (refused e) = some (bad e)

module _ (w : ProtoWire) where
  -- A bytes field: a nested message if it decodes as one that is not empty, else text or hex.
  unfoldable pub bytes_value : Bytes → Decoded → WireValue
  bytes_value v (good (field k u m)) = nested (field k u m)
  bytes_value v _ = text (if w.utf8_valid v && is_printable_bytes v then v else w.hex_encode v)

  unfoldable pub with_nested : Bytes → ℕ → Option Decoded → FieldAt
  with_nested v n none = exhausted
  with_nested v n (some d) = value (bytes_value v d) n

  unfoldable pub bytes_field : (Bytes → Option Decoded) → ℕ → Option (Bytes × ℕ) → FieldAt
  bytes_field decode num none = refused (codes "invalid bytes for field " ++ print_nat num)
  bytes_field decode num (some (v, n)) = with_nested v n (decode v)

  -- The switch over the wire type.
  unfoldable pub field_at : (Bytes → Option Decoded) → ℕ → ℕ → Bytes → FieldAt
  field_at decode num wtype s =
      if wtype == varint_type
      then number_field "varint" num (w.consume_varint s)
      else if wtype == fixed32_type
      then number_field "fixed32" num (w.consume_fixed32 s)
      else if wtype == fixed64_type
      then number_field "fixed64" num (w.consume_fixed64 s)
      else if wtype == bytes_type
      then bytes_field decode num (w.consume_bytes s)
      else if wtype == start_group_type || wtype == end_group_type
      then refused (
          codes "unsupported wire type "
          ++ (print_nat wtype ++ (codes " for field " ++ print_nat num)))
      else skipped

  unfoldable pub after_tag :
      (WireMap → Bytes → Option Decoded) → WireMap → Bytes → Option (ℕ × ℕ × ℕ) → Option Decoded
  after_tag loop m s none = some (bad (codes "invalid protobuf tag"))
  after_tag loop m s (some (num, wtype, n)) =
      let rest = drop n s in after_field loop m num rest (field_at (loop no_fields) num wtype rest)

  -- The loop, with the recursive call on fuel as well; `none`: the fuel ran out.
  unfoldable pub decode_loop : ℕ → WireMap → Bytes → Option Decoded
  decode_loop fuel m [] = some (good m)
  decode_loop zero m (b ∷ s) = none
  decode_loop (suc fuel) m (b ∷ s) = after_tag (decode_loop fuel) m (b ∷ s) (w.consume_tag (b ∷ s))

  -- `protoWireToMap`. A round takes a byte at least, and a nested message is shorter than the
  -- message, so as many rounds as bytes are enough (`Fuel`).
  unfoldable pub proto_wire_to_map : Bytes → Option Decoded
  proto_wire_to_map s = decode_loop (length s) no_fields s
