-- ===== src/Proxy/Wire/Fuel.antt =====
-- proxy/frame.go: the rounds of the loop of protoWireToMap.
use grpc_tap.Prelude.{
  ℕ, zero, suc, ◌<◌, ◌≤◌, ◌≡◌, refl, Option, none, some, [], ◌∷◌, Bytes, Bool, true, false, ◌||◌,
  ◌==◌, if◌then◌else◌, length, drop, length-drop, arith,
}
use grpc_tap.Prelude.Decimal.{print_nat}
use grpc_tap.Proxy.Wire.{
  ProtoWire, Consumes, WireValue, WireMap, no_fields, field, is_message, put, Decoded, good, bad,
  FieldAt, value, skipped, refused, number_field, with_nested, bytes_field, field_at, after_field,
  after_tag, decode_loop, proto_wire_to_map, varint_type, fixed64_type, bytes_type,
  start_group_type, end_group_type, fixed32_type,
}
use Prim.Native.String.{String}

-- Two runs that agree and do not run out of fuel.
abbrev pub Agree : Option Decoded → Option Decoded → Type 0
Agree o o' = (d : Decoded) × (o ≡ some d) × (o' ≡ some d)

pub put-is_message :
    (key : Bytes) (v : WireValue) (m : WireMap) → is_message (good (put key v m)) ≡ true
unfolding put is_message
put-is_message key v no_fields = refl
put-is_message key v (field k u m) = ground (arith)

module _ (w : ProtoWire) where
  -- What stands behind a tag, when both decoders agree on shorter bytes.
  data Settled : FieldAt → FieldAt → Type 0 where
    found : (v : WireValue) (k : ℕ) → Settled (value v k) (value v k)
    none_there : Settled skipped skipped
    error : (e : Bytes) → Settled (refused e) (refused e)

  number_field-Settled :
      (kind : String) (num : ℕ) (o : Option (ℕ × ℕ))
      → Settled (number_field kind num o) (number_field kind num o)
  unfolding number_field
  number_field-Settled kind num none = error _
  number_field-Settled kind num (some (v, k)) = found _ k

  module _ (law : Consumes w) where
    if-Settled :
        (b : Bool) (x x' y y' : FieldAt)
        → Settled x x'
        → Settled y y'
        → Settled (if b then x else y) (if b then x' else y')
    if-Settled true x x' y y' p q = p
    if-Settled false x x' y y' p q = q

    bytes_field-Settled :
        (dec dec' : Bytes → Option Decoded) (num : ℕ) (s : Bytes)
        → ((v : Bytes) → length v < length s → Agree (dec v) (dec' v))
        → Settled
            (bytes_field w dec num (w.consume_bytes s))
            (bytes_field w dec' num (w.consume_bytes s))
    bytes_field-Settled dec dec' num s agree =
        split (w.consume_bytes s) (λ v n e. law.bytes_takes s v n e)
      where
        split :
            (o : Option (Bytes × ℕ))
            → ((v : Bytes) (n : ℕ) → o ≡ some (v, n) → (length v < n) × (n ≤ length s))
            → Settled (bytes_field w dec num o) (bytes_field w dec' num o)
        split none h = unfold bytes_field in error _
        split (some (v, n)) h =
            let (d, e, e') = agree v (omega (arith, h v n refl)) in
            unfold bytes_field in rw (e, e') (unfold with_nested in found _ n)

    field_at-Settled :
        (dec dec' : Bytes → Option Decoded) (num t : ℕ) (s : Bytes)
        → ((v : Bytes) → length v < length s → Agree (dec v) (dec' v))
        → Settled (field_at w dec num t s) (field_at w dec' num t s)
    unfolding field_at
    field_at-Settled dec dec' num t s agree =
        if-Settled (t == varint_type) _ _ _ _ (number_field-Settled "varint" num _) (
          if-Settled (t == fixed32_type) _ _ _ _ (number_field-Settled "fixed32" num _) (
            if-Settled (t == fixed64_type) _ _ _ _ (number_field-Settled "fixed64" num _) (
              if-Settled (t == bytes_type) _ _ _ _ (bytes_field-Settled dec dec' num s agree) (
                if-Settled (t == start_group_type || t == end_group_type) _ _ _ _ (error _)
                  none_there))))

    after_field-Agree :
        (loop loop' : WireMap → Bytes → Option Decoded) (m : WireMap) (num n : ℕ) (s : Bytes)
        {x x' : FieldAt}
        → length s < n
        → ((m' : WireMap) (s' : Bytes) → length s' < n → Agree (loop m' s') (loop' m' s'))
        → Settled x x'
        → Agree (after_field loop m num s x) (after_field loop' m num s x')
    unfolding after_field
    after_field-Agree loop loop' m num n s h agree (found v k) =
        agree (put (print_nat num) v m) (drop k s) (omega (arith, length-drop k s))
    after_field-Agree loop loop' m num n s h agree none_there = agree m s h
    after_field-Agree loop loop' m num n s h agree (error e) = (bad e, refl, refl)

    decode_loop-Agree :
        (n f g : ℕ) (m : WireMap) (s : Bytes)
        → length s < n
        → length s ≤ f
        → length s ≤ g
        → Agree (decode_loop w f m s) (decode_loop w g m s)
    unfolding decode_loop after_tag
    decode_loop-Agree zero f g m s h hf hg = absurd (omega arith)
    decode_loop-Agree (suc n) f g m [] h hf hg = (good m, refl, refl)
    decode_loop-Agree (suc n) zero g m (b ∷ s) h hf hg = absurd (omega arith)
    decode_loop-Agree (suc n) (suc f) zero m (b ∷ s) h hf hg = absurd (omega arith)
    decode_loop-Agree (suc n) (suc f) (suc g) m (b ∷ s) h hf hg =
        after (λ m' s' l. decode_loop-Agree n f g m' s' (omega arith) (omega arith) (omega arith))
          (w.consume_tag (b ∷ s)) (λ num t k e. law.tag_takes (b ∷ s) num t k e)
      where
        after :
            ((m' : WireMap) (s' : Bytes)
              → length s' < length (b ∷ s)
              → Agree (decode_loop w f m' s') (decode_loop w g m' s'))
            → (o : Option (ℕ × ℕ × ℕ))
            → ((num t k : ℕ) → o ≡ some (num, t, k) → (0 < k) × (k ≤ length (b ∷ s)))
            → Agree
                (after_tag w (decode_loop w f) m (b ∷ s) o)
                (after_tag w (decode_loop w g) m (b ∷ s) o)
        after ih none takes = (bad _, refl, refl)
        after ih (some (num, t, k)) takes =
            let rest = drop k (b ∷ s) in
            let shorter : length rest < length (b ∷ s) =
              omega (arith, takes num t k refl, length-drop k (b ∷ s)) in
            after_field-Agree (decode_loop w f) (decode_loop w g) m num (length (b ∷ s)) rest
              shorter ih
              (field_at-Settled (decode_loop w f no_fields) (decode_loop w g no_fields) num t rest
                (λ v l. ih no_fields v (omega (arith, l, shorter))))

    -- The decoder ends on every input with a map or an error, given that protowire takes no more
    -- bytes than there are; and any number of rounds that is no less than the number of bytes gives
    -- the same result, so that the fuel stands for an unbounded loop.
    pub proto_wire_to_map-ends :
        (fuel : ℕ) (s : Bytes)
        → length s ≤ fuel
        → (d : Decoded) × (proto_wire_to_map w s ≡ some d)
          × (decode_loop w fuel no_fields s ≡ some d)
    unfolding proto_wire_to_map
    proto_wire_to_map-ends fuel s h =
        decode_loop-Agree (suc (length s)) (length s) fuel no_fields s (omega arith) (omega arith) h
