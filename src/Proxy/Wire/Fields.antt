-- ===== src/Proxy/Wire/Fields.antt =====
-- proxy/frame.go: a field that mapToProtoWire wrote, in a round of the loop of protoWireToMap.
use grpc_tap.Prelude.{
  ℕ, suc, ◌+◌, ◌^◌, ◌<◌, ◌≤◌, ◌≡◌, refl, ap, ◌∙◌, Option, some, [], ◌∷◌, ◌++◌, Bytes, Bool, true,
  false, if◌then◌else◌, length, drop, length-append, append_assoc, arith,
}
use grpc_tap.Prelude.Int.{pos}
use grpc_tap.Prelude.Decimal.{print_nat}
use grpc_tap.Proxy.Wire.{
  ProtoWire, Consumes, WireValue, number, WireMap, no_fields, put, Decoded, value, number_field,
  bytes_value, with_nested, bytes_field, field_at, after_field, after_tag, decode_loop, varint_type,
  fixed64_type, bytes_type,
}
use grpc_tap.Proxy.Wire.Encode.{Json, Numbers}
use grpc_tap.Proxy.Wire.Plain.{ReadsBack, to_wire}

drop-length_append : (p s : Bytes) → drop (length p) (p ++ s) ≡ s
drop-length_append [] s = refl
drop-length_append (x ∷ p) s = drop-length_append p s

module _ (w : ProtoWire) (n : Numbers) where
  module _ (takes : Consumes w) (back : ReadsBack w) where
    decode_loop-step :
        (f : ℕ) (m : WireMap) (s : Bytes)
        → 0 < length s
        → decode_loop w (suc f) m s ≡ after_tag w (decode_loop w f) m s (w.consume_tag s)
    unfolding decode_loop
    decode_loop-step f m [] h = absurd (omega arith)
    decode_loop-step f m (b ∷ s) h = refl

    tag_pos : (num t : ℕ) → 0 < num → num < 2 ^ 29 → t < 6 → 0 < length (w.append_tag (pos num) t)
    tag_pos num t a b c =
        (takes.tag_takes (w.append_tag (pos num) t ++ []) num t _ (back.tag_back num t [] a b c)).0

    -- One round over a field that was written.
    pub decode_loop-field :
        (f num t : ℕ) (m : WireMap) (p s : Bytes) (v : WireValue)
        → 0 < num
        → num < 2 ^ 29
        → t < 6
        → field_at w (decode_loop w f no_fields) num t (p ++ s) ≡ value v (length p)
        → decode_loop w (suc f) m ((w.append_tag (pos num) t ++ p) ++ s)
          ≡ decode_loop w f (put (print_nat num) v m) s
    decode_loop-field f num t m p s v a b c e =
        let tag = w.append_tag (pos num) t in
        let rest = drop-length_append tag (p ++ s) in
        ap (decode_loop w (suc f) m) (append_assoc tag p s)
        ∙ decode_loop-step f m (tag ++ (p ++ s))
            (omega (arith, tag_pos num t a b c, length-append tag (p ++ s)))
        ∙ ap (after_tag w (decode_loop w f) m (tag ++ (p ++ s)))
            (back.tag_back num t (p ++ s) a b c)
        ∙ unfold after_tag in
          ap
            (λ r.
              after_field (decode_loop w f) m num r
                (field_at w (decode_loop w f no_fields) num t r))
            rest
          ∙ ap (after_field (decode_loop w f) m num (p ++ s)) e
          ∙ unfold after_field in
            ap (decode_loop w f (put (print_nat num) v m)) (drop-length_append p s)

    field_at-varint :
        (dec : Bytes → Option Decoded) (num v : ℕ) (s : Bytes)
        → v < 2 ^ 64
        → field_at w dec num varint_type (w.append_varint v ++ s)
          ≡ value (number v) (length (w.append_varint v))
    unfolding field_at number_field
    field_at-varint dec num v s h = rw (back.varint_back v s h)

    pub field_at-fixed64 :
        (dec : Bytes → Option Decoded) (num v : ℕ) (s : Bytes)
        → v < 2 ^ 64
        → field_at w dec num fixed64_type (w.append_fixed64 v ++ s)
          ≡ value (number v) (length (w.append_fixed64 v))
    unfolding field_at number_field
    field_at-fixed64 dec num v s h = rw (back.fixed64_back v s h)

    field_at-bytes :
        (dec : Bytes → Option Decoded) (num : ℕ) (v s : Bytes) {d : Decoded}
        → dec v ≡ some d
        → field_at w dec num bytes_type (w.append_bytes v ++ s)
          ≡ value (bytes_value w v d) (length (w.append_bytes v))
    unfolding field_at bytes_field with_nested
    field_at-bytes dec num v s e = rw (back.bytes_back v s, e)

    -- The bytes of a field are not empty, and one round of the loop reads them.
    abbrev pub FieldReads : ℕ → Json → Bytes → Type 0
    FieldReads num v b =
        (f : ℕ) (m : WireMap) (s : Bytes)
        → length (b ++ s) ≤ suc f
        → (length s < length (b ++ s))
          × (decode_loop w (suc f) m (b ++ s)
              ≡ decode_loop w f (put (print_nat num) (to_wire w n v) m) s)

    pub longer :
        (num t : ℕ) (p s : Bytes)
        → 0 < num
        → num < 2 ^ 29
        → t < 6
        → length p + length s < length ((w.append_tag (pos num) t ++ p) ++ s)
    longer num t p s a b c = omega (
      arith,
      tag_pos num t a b c,
      length-append (w.append_tag (pos num) t) p,
      length-append (w.append_tag (pos num) t ++ p) s,
    )

    -- A bytes field is read in a round whose fuel is enough for its value.
    pub bytes-Reads :
        (num : ℕ) (v : Bytes) (f : ℕ) (m : WireMap) (s : Bytes) (u : WireValue)
        → 0 < num
        → num < 2 ^ 29
        → length ((w.append_tag (pos num) bytes_type ++ w.append_bytes v) ++ s) ≤ suc f
        → (length v ≤ f
            → (d : Decoded) × (decode_loop w f no_fields v ≡ some d) × (bytes_value w v d ≡ u))
        → decode_loop w (suc f) m ((w.append_tag (pos num) bytes_type ++ w.append_bytes v) ++ s)
          ≡ decode_loop w f (put (print_nat num) u m) s
    bytes-Reads num v f m s u a b h inner =
        let size = takes.bytes_takes (w.append_bytes v ++ s) v _ (back.bytes_back v s) in
        let (d, e, q) =
          inner
            (omega (arith, size, longer num bytes_type (w.append_bytes v) s a b (omega arith))) in
        decode_loop-field f num bytes_type m (w.append_bytes v) s u a b (omega arith) (
          field_at-bytes (decode_loop w f no_fields) num v s e
          ∙ ap (λ x. value x (length (w.append_bytes v))) q)

    pub varint-Reads :
        (num v : ℕ) (f : ℕ) (m : WireMap) (s : Bytes)
        → 0 < num
        → num < 2 ^ 29
        → v < 2 ^ 64
        → decode_loop w (suc f) m ((w.append_tag (pos num) varint_type ++ w.append_varint v) ++ s)
          ≡ decode_loop w f (put (print_nat num) (number v) m) s
    varint-Reads num v f m s a b h =
        decode_loop-field f num varint_type m (w.append_varint v) s (number v) a b (omega arith)
          (field_at-varint (decode_loop w f no_fields) num v s h)

    pub bool_uint : (b : Bool) → (if b then 1 else 0) < 2 ^ 64
    bool_uint true = omega arith
    bool_uint false = omega arith
