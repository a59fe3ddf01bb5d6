-- ===== src/Proxy/Wire/RoundTrip.antt =====
-- proxy/frame.go: mapToProtoWire followed by protoWireToMap.
use grpc_tap.Prelude.{
  ℕ, zero, suc, ◌^◌, ◌<◌, ◌≤◌, ◌≡◌, refl, sym, ap, ◌∙◌, none, some, [], ◌++◌, Bytes, Bool, true,
  if◌then◌else◌, length, arith, Bool-cases, inl, inr,
}
use grpc_tap.Prelude.Int.{pos}
use grpc_tap.Prelude.Decimal.{parse_int, print_nat, parse_int-print_nat}
use grpc_tap.Proxy.Wire.{
  ProtoWire, Consumes, number, text, nested, WireMap, no_fields, put, Decoded, is_message,
  bytes_value, decode_loop, proto_wire_to_map, varint_type, fixed64_type, bytes_type,
}
use grpc_tap.Proxy.Wire.Fuel.{put-is_message, proto_wire_to_map-ends}
use grpc_tap.Proxy.Wire.Encode.{
  Json, string, float, boolean, object, other, JsonMap, no_members, member, Encoded, Numbers,
  key_less, join_fields, keyed_field, is_whole, nested_field, value_field, members,
  map_to_proto_wire,
}
use grpc_tap.Proxy.Wire.Plain.{
  ReadsBack, KeepsOrder, IsText, IsPlain, ArePlain, to_wire, fill, members-IsAscending,
  fill-is_message, bytes_value-nested, bytes_value-text,
}
use grpc_tap.Proxy.Wire.Fields.{
  FieldReads, decode_loop-field, field_at-fixed64, longer, bytes-Reads, varint-Reads, bool_uint,
}

module _ (w : ProtoWire) (n : Numbers) where
  module _ (takes : Consumes w) (back : ReadsBack w) where
    module _ (order : KeepsOrder n) where
      object-eq :
          (o : JsonMap)
          → ArePlain w n o
          → join_fields (n.sort key_less (members w n o)) ≡ join_fields (members w n o)
      object-eq o p = ap join_fields (order (members w n o) (members-IsAscending w n o p))

      text-Reads :
          (v : Bytes) (f : ℕ)
          → IsText w n v
          → length v ≤ f
          → (d : Decoded) × (decode_loop w f no_fields v ≡ some d) × (bytes_value w v d ≡ text v)
      text-Reads v f (plain, (d, e, no_message)) h =
          let (d', e', r) = proto_wire_to_map-ends w takes f v h in
          let same : d' ≡ d = cc in (d, r ∙ ap some same, bytes_value-text w n v d no_message plain)

      -- A value encodes, and its field is read back; likewise the members of an object.
      abbrev Reads : ℕ → Json → Type 0
      Reads num v =
          (b : Bytes) × (value_field w n (pos num) v ≡ Encoded.good b)
          × FieldReads w n takes back num v b

      abbrev AllRead : JsonMap → Type 0
      AllRead o =
          (b : Bytes) × (join_fields (members w n o) ≡ Encoded.good b)
          × ((f : ℕ) (m : WireMap)
              → length b ≤ f
              → decode_loop w f m b ≡ some (Decoded.good (fill w n m o)))

      string-Reads :
          (num : ℕ) (v : Bytes) → 0 < num → num < 2 ^ 29 → IsText w n v → Reads num (string v)
      unfolding value_field
      string-Reads num v a b p = (
        _,
        refl,
        λ f m s h. (
          omega
              (arith, longer w n takes back num bytes_type (w.append_bytes v) s a b (omega arith)),
          bytes-Reads w n takes back num v f m s (text v) a b h (text-Reads v f p),
        ),
      )

      float-Reads :
          (num x : ℕ) → 0 < num → num < 2 ^ 29 → IsPlain w n (float x) → Reads num (float x)
      unfolding value_field
      float-Reads num x a b p = elim (Bool-cases (is_whole w n x)) [
        | inl e ↦ rw e (
          _,
          refl,
          λ f m s h. (
            omega (
              arith,
              longer w n takes back num varint_type (w.append_varint (n.to_uint64 x)) s a b
                  (omega arith),
            ),
            varint-Reads w n takes back num (n.to_uint64 x) f m s a b p.1,
          ),
        )
        | inr e ↦ rw e (
          _,
          refl,
          λ f m s h. (
            omega (
              arith,
              longer w n takes back num fixed64_type (w.append_fixed64 x) s a b (omega arith),
            ),
            decode_loop-field w n takes back f num fixed64_type m (w.append_fixed64 x) s (number x)
                a b (omega arith)
                (field_at-fixed64 w n takes back (decode_loop w f no_fields) num x s p.0),
          ),
        )
      ]

      boolean-Reads : (num : ℕ) (x : Bool) → 0 < num → num < 2 ^ 29 → Reads num (boolean x)
      unfolding value_field
      boolean-Reads num x a b =
          let v = if x then 1 else 0 in
          (
            _,
            refl,
            λ f m s h. (
              omega (
                arith,
                longer w n takes back num varint_type (w.append_varint v) s a b (omega arith),
              ),
              varint-Reads w n takes back num v f m s a b (bool_uint w n takes back x),
            ),
          )

      object-Reads :
          (num : ℕ) (o : JsonMap)
          → 0 < num
          → num < 2 ^ 29
          → ArePlain w n o
          → is_message (Decoded.good (fill w n no_fields o)) ≡ true
          → AllRead o
          → Reads num (object o)
      unfolding value_field nested_field
      object-Reads num o a b p some_member (v, e, reads) = (
        _,
        rw (object-eq o p ∙ e),
        λ f m s h. (
          omega
              (arith, longer w n takes back num bytes_type (w.append_bytes v) s a b (omega arith)),
          bytes-Reads w n takes back num v f m s (nested (fill w n no_fields o)) a b h (λ l. (
            Decoded.good (fill w n no_fields o),
            reads f no_fields l,
            bytes_value-nested w n v (fill w n no_fields o) some_member,
          )),
        ),
      )

      member_key :
          (key : Bytes) (num : ℕ) (v : Json) {b : Bytes}
          → key ≡ print_nat num
          → num < 2 ^ 29
          → value_field w n (pos num) v ≡ Encoded.good b
          → keyed_field n.quote key (parse_int 32 key).1 (value_field w n (parse_int 32 key).0 v)
            ≡ Encoded.good b
      unfolding keyed_field
      member_key key num v k h e =
          let parsed : parse_int 32 key ≡ (pos num, none) =
            ap (parse_int 32) k ∙ parse_int-print_nat 31 num (omega arith) in
          rw parsed e

      member-Reads :
          (key : Bytes) (num : ℕ) (v : Json) (o : JsonMap)
          → key ≡ print_nat num
          → num < 2 ^ 29
          → Reads num v
          → AllRead o
          → AllRead (member key v o)
      unfolding members join_fields
      member-Reads key num v o k h (b, e, reads) (bs, es, all) =
          (b ++ bs, rw (member_key key num v k h e, es), after)
        where
          after :
              (f : ℕ) (m : WireMap)
              → length (b ++ bs) ≤ f
              → decode_loop w f m (b ++ bs)
                ≡ some (Decoded.good (fill w n (put key (to_wire w n v) m) o))
          after zero m l = let (shorter, _) = reads zero m bs (omega arith) in absurd (omega arith)
          after (suc f) m l =
              let (shorter, step) = reads f m bs l in
              step
              ∙ all f (put (print_nat num) (to_wire w n v) m) (omega arith)
              ∙ ap (λ j. some (Decoded.good (fill w n (put j (to_wire w n v) m) o))) (sym k)

      no_members-Reads : AllRead no_members
      unfolding members join_fields decode_loop
      no_members-Reads = ([], refl, λ f m h. refl)

      mutual
        value_field-Reads :
            (v : Json) (num : ℕ) → 0 < num → num < 2 ^ 29 → IsPlain w n v → Reads num v
        value_field-Reads (string v) num a b p = string-Reads num v a b p
        value_field-Reads (float x) num a b p = float-Reads num x a b p
        value_field-Reads (boolean x) num a b p = boolean-Reads num x a b
        value_field-Reads (object no_members) num a b p = absurd p
        value_field-Reads (object (member key v o)) num a b p =
            object-Reads num (member key v o) a b p
              (fill-is_message w n (put key (to_wire w n v) no_fields) o
                (put-is_message key (to_wire w n v) no_fields))
              (members-Reads (member key v o) p)
        value_field-Reads (other name) num a b p = absurd p

        members-Reads : (o : JsonMap) → ArePlain w n o → AllRead o
        members-Reads no_members p = no_members-Reads
        members-Reads (member key v o) ((num, k, a, b), _, q, r) =
            member-Reads key num v o k b (value_field-Reads v num a b q) (members-Reads o r)

      -- An object is encoded without an error, and the decoder reads it back, if its keys are valid
      -- field numbers in ascending order, and its values are Booleans, numbers, printable texts that
      -- are no message themselves, or objects of this kind that are not empty. It is read back with
      -- the same fields, texts, nested objects and whole numbers, a Boolean as 0 or 1, and any other
      -- number as its bits. It is assumed that protowire consumes what it appends and no more bytes
      -- than there are, and that a sort leaves keys in strict order alone.
      pub proto_wire_to_map-map_to_proto_wire :
          (o : JsonMap)
          → ArePlain w n o
          → (b : Bytes) × (map_to_proto_wire w n o ≡ Encoded.good b)
            × (proto_wire_to_map w b ≡ some (Decoded.good (fill w n no_fields o)))
      unfolding map_to_proto_wire proto_wire_to_map
      proto_wire_to_map-map_to_proto_wire o p =
          let (b, e, reads) = members-Reads o p in
          (b, object-eq o p ∙ e, reads (length b) no_fields (omega arith))
