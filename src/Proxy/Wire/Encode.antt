-- ===== src/Proxy/Wire/Encode.antt =====
-- proxy/frame.go, mapToProtoWire: a JSON object of field numbers as protobuf wire format. The
-- package protowire, float64, the order of `sort.Slice` and the verb %q are parameters.
use grpc_tap.Prelude.{
  ℕ, Option, none, some, List, [], ◌∷◌, ◌++◌, Bytes, codes, Bool, ◌&&◌, if◌then◌else◌,
}
use grpc_tap.Prelude.Int.{ℤ, ltb_ℤ}
use grpc_tap.Prelude.Decimal.{parse_int, print_int, ParseError}
use grpc_tap.Proxy.Wire.{ProtoWire, varint_type, fixed64_type, bytes_type}

-- What json.Unmarshal stores in a `map[string]any`. A float64 is its bits; `other` is nil or a
-- slice, with its name under the verb %T.
mutual
  pub data Json : Type 0 where
    string : Bytes → Json
    float : ℕ → Json
    boolean : Bool → Json
    object : JsonMap → Json
    other : Bytes → Json

  pub data JsonMap : Type 0 where
    no_members : JsonMap
    member : Bytes → Json → JsonMap → JsonMap

-- The bytes, or the text of an error.
pub data Encoded : Type 0 where
  good : Bytes → Encoded
  bad : Bytes → Encoded

-- float64 and its constants, `sort.Slice` over the keys with what their fields encode to, and %q.
pub record Numbers : Type 0 where
  pub trunc : ℕ → ℕ
  pub eq : ℕ → ℕ → Bool
  pub le : ℕ → ℕ → Bool
  pub zero : ℕ
  pub max_int64 : ℕ
  pub to_uint64 : ℕ → ℕ
  pub sort :
      (Bytes × Encoded → Bytes × Encoded → Bool) → List (Bytes × Encoded) → List (Bytes × Encoded)
  pub quote : Bytes → Bytes

-- The comparison of two keys, which drops the errors of ParseInt.
unfoldable pub key_less : Bytes × Encoded → Bytes × Encoded → Bool
key_less (a, x) (b, y) = ltb_ℤ (parse_int 64 a).0 (parse_int 64 b).0

-- The loop over the sorted keys: the first error ends it.
unfoldable pub join_fields : List (Bytes × Encoded) → Encoded
join_fields [] = good []
join_fields ((k, bad e) ∷ xs) = bad e
join_fields ((k, good b) ∷ xs) = elim (join_fields xs) [ bad e ↦ bad e | good bs ↦ good (b ++ bs) ]

-- The check of a key: `ParseInt(key, 10, 32)` has no error.
unfoldable pub keyed_field : (Bytes → Bytes) → Bytes → Option ParseError → Encoded → Encoded
keyed_field quote key (some e) field = bad (codes "invalid field number " ++ quote key)
keyed_field quote key none field = field

module _ (w : ProtoWire) (n : Numbers) where
  abbrev pub varint_field : ℤ → ℕ → Encoded
  varint_field num v = good (w.append_tag num varint_type ++ w.append_varint v)

  abbrev pub bytes_field : ℤ → Bytes → Encoded
  bytes_field num v = good (w.append_tag num bytes_type ++ w.append_bytes v)

  -- `v == math.Trunc(v) && v >= 0 && v <= math.MaxInt64`.
  unfoldable pub is_whole : ℕ → Bool
  is_whole x = n.eq x (n.trunc x) && n.le n.zero x && n.le x n.max_int64

  unfoldable pub nested_field : ℤ → Encoded → Encoded
  nested_field num (bad e) = bad (codes "field " ++ (print_int num ++ (codes ": " ++ e)))
  nested_field num (good b) = bytes_field num b

  -- The switch over the type of a value, and the fields of an object with their keys.
  unfoldable mutual
    pub value_field : ℤ → Json → Encoded
    value_field num (string v) = bytes_field num v
    value_field num (float x) =
        if is_whole x
        then varint_field num (n.to_uint64 x)
        else good (w.append_tag num fixed64_type ++ w.append_fixed64 x)
    value_field num (boolean b) = varint_field num (if b then 1 else 0)
    value_field num (object o) = nested_field num (join_fields (n.sort key_less (members o)))
    value_field num (other name) =
        bad (codes "unsupported type " ++ (name ++ (codes " for field " ++ print_int num)))

    pub members : JsonMap → List (Bytes × Encoded)
    members no_members = []
    members (member key v o) =
        (key, keyed_field n.quote key (parse_int 32 key).1 (value_field (parse_int 32 key).0 v))
        ∷ members o

  -- `mapToProtoWire`.
  unfoldable pub map_to_proto_wire : JsonMap → Encoded
  map_to_proto_wire o = join_fields (n.sort key_less (members o))
