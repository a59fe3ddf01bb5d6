-- ===== src/Tui/Body/Shape.antt =====
-- decodeProtoWire of tui/format.go against protoWireToMap of proxy/frame.go.
use grpc_tap.Prelude.{
  ℕ, zero, suc, ◌≡◌, subst, refl, ◌∙◌, sym, Option, none, some, List, [], ◌∷◌, ◌++◌, Bytes, codes,
  Bool, true, false, ◌||◌, ◌==◌, if◌then◌else◌, length, drop, arith,
}
use grpc_tap.Prelude.Decimal.{print_nat}
use grpc_tap.Proxy.Wire.{
  ProtoWire, Consumes, WireValue, WireMap, no_fields, put, Decoded, good, is_message, FieldAt,
  value, refused, number_field, with_nested, bytes_field, field_at, after_field, after_tag,
  decode_loop, proto_wire_to_map, varint_type, fixed64_type, bytes_type, start_group_type,
  end_group_type, fixed32_type,
}
use grpc_tap.Proxy.Wire.Fuel.{put-is_message, proto_wire_to_map-ends}
use grpc_tap.Tui.Body.{
  Verbs, LineAt, lines, stopped, number_line, after_line, bytes_lines, with_lines, bytes_line,
  line_at, lines_after_tag, lines_loop, decode_proto_wire,
}
use Prim.Native.String.{String}

abbrev pub has_lines : List Bytes → Bool
has_lines [] = false
has_lines (l ∷ ls) = true

-- Both run out of fuel, or neither does, and there are lines exactly where there is a message.
abbrev pub Alike : Option Decoded → Option (List Bytes) → Type 0
Alike none none = Unit {0}
Alike none (some ls) = ⊥
Alike (some d) none = ⊥
Alike (some d) (some ls) = is_message d ≡ has_lines ls

-- What stands behind a tag for the one and for the other.
data Pair : FieldAt → LineAt → Type 0 where
  found :
      (v : WireValue) (l : Bytes) (ls : List Bytes) (n : ℕ) → Pair (value v n) (lines (l ∷ ls) n)
  neither : Pair FieldAt.skipped LineAt.skipped
  starved : Pair FieldAt.exhausted LineAt.exhausted
  ended : (e : Bytes) → Pair (refused e) stopped

number-Pair :
    (kind : String) (indent : Bytes) (num : ℕ) (o : Option (ℕ × ℕ))
    → Pair (number_field kind num o) (number_line indent num o)
unfolding number_field number_line
number-Pair kind indent num none = ended _
number-Pair kind indent num (some (v, n)) = found _ _ _ n

if-Pair :
    (b : Bool) (x y : FieldAt) (x' y' : LineAt)
    → Pair x x'
    → Pair y y'
    → Pair (if b then x else y) (if b then x' else y')
if-Pair true x y x' y' p q = p
if-Pair false x y x' y' p q = q

has_lines-append : (xs ys : List Bytes) → has_lines ys ≡ true → has_lines (xs ++ ys) ≡ true
has_lines-append [] ys h = h
has_lines-append (x ∷ xs) ys h = refl

module _ (w : ProtoWire) (f : Verbs) where
  with_lines-Pair :
      (indent : Bytes) (num : ℕ) (v : Bytes) (n : ℕ) (o : Option Decoded) (o' : Option (List Bytes))
      → Alike o o'
      → Pair (with_nested w v n o) (with_lines w f indent num v n o')
  unfolding with_nested with_lines bytes_lines
  with_lines-Pair indent num v n none none a = starved
  with_lines-Pair indent num v n none (some ls) a = absurd a
  with_lines-Pair indent num v n (some d) none a = absurd a
  with_lines-Pair indent num v n (some d) (some []) a = found _ _ _ n
  with_lines-Pair indent num v n (some d) (some (l ∷ ls)) a = found _ _ _ n

  bytes-Pair :
      (dec : Bytes → Option Decoded) (dec' : Bytes → Option (List Bytes)) (indent : Bytes) (num : ℕ)
      (o : Option (Bytes × ℕ))
      → ((v : Bytes) → Alike (dec v) (dec' v))
      → Pair (bytes_field w dec num o) (bytes_line w f dec' indent num o)
  unfolding bytes_field bytes_line
  bytes-Pair dec dec' indent num none alike = ended _
  bytes-Pair dec dec' indent num (some (v, n)) alike =
      with_lines-Pair indent num v n (dec v) (dec' v) (alike v)

  field_at-Pair :
      (dec : Bytes → Option Decoded) (dec' : Bytes → Option (List Bytes)) (indent : Bytes)
      (num t : ℕ) (s : Bytes)
      → ((v : Bytes) → Alike (dec v) (dec' v))
      → Pair (field_at w dec num t s) (line_at w f dec' indent num t s)
  unfolding field_at line_at
  field_at-Pair dec dec' indent num t s alike =
      if-Pair (t == varint_type) _ _ _ _ (number-Pair "varint" indent num _) (
        if-Pair (t == fixed32_type) _ _ _ _ (number-Pair "fixed32" indent num _) (
          if-Pair (t == fixed64_type) _ _ _ _ (number-Pair "fixed64" indent num _) (
            if-Pair (t == bytes_type) _ _ _ _ (bytes-Pair dec dec' indent num _ alike)
              (if-Pair (t == start_group_type || t == end_group_type) _ _ _ _ (ended _) neither))))

  after-Alike :
      (loop : WireMap → Bytes → Option Decoded) (loop' : List Bytes → Bytes → Option (List Bytes))
      (m : WireMap) (acc : List Bytes) (num : ℕ) (s : Bytes) {x : FieldAt} {x' : LineAt}
      → is_message (good m) ≡ has_lines acc
      → ((m' : WireMap) (acc' : List Bytes) (s' : Bytes)
          → is_message (good m') ≡ has_lines acc'
          → Alike (loop m' s') (loop' acc' s'))
      → Pair x x'
      → Alike (after_field loop m num s x) (after_line loop' acc s x')
  unfolding after_field after_line
  after-Alike loop loop' m acc num s h alike (found v l ls n) =
      alike (put (print_nat num) v m) (acc ++ (l ∷ ls)) (drop n s)
        (put-is_message (print_nat num) v m ∙ sym (has_lines-append acc (l ∷ ls) refl))
  after-Alike loop loop' m acc num s h alike neither = alike m acc s h
  after-Alike loop loop' m acc num s h alike starved = tt
  after-Alike loop loop' m acc num s h alike (ended e) = unfold is_message in refl

  after_tag-Alike :
      (loop : WireMap → Bytes → Option Decoded)
      (loop' : Bytes → List Bytes → Bytes → Option (List Bytes)) (indent : Bytes) (m : WireMap)
      (acc : List Bytes) (s : Bytes) (o : Option (ℕ × ℕ × ℕ))
      → is_message (good m) ≡ has_lines acc
      → ((indent' : Bytes) (m' : WireMap) (acc' : List Bytes) (s' : Bytes)
          → is_message (good m') ≡ has_lines acc'
          → Alike (loop m' s') (loop' indent' acc' s'))
      → Alike (after_tag w loop m s o) (lines_after_tag w f loop' indent acc s o)
  unfolding after_tag lines_after_tag
  after_tag-Alike loop loop' indent m acc s none h alike = unfold is_message in refl
  after_tag-Alike loop loop' indent m acc s (some (num, t, n)) h alike =
      after-Alike (loop) (loop' indent) m acc num (drop n s) h (alike indent) (
        field_at-Pair (loop no_fields) (loop' (indent ++ codes "  ") []) indent num t (drop n s)
          (λ v. alike (indent ++ codes "  ") no_fields [] v (unfold is_message in refl)))

  lines_loop-Alike :
      (fuel : ℕ) (indent : Bytes) (m : WireMap) (acc : List Bytes) (s : Bytes)
      → is_message (good m) ≡ has_lines acc
      → Alike (decode_loop w fuel m s) (lines_loop w f fuel indent acc s)
  unfolding decode_loop lines_loop
  lines_loop-Alike zero indent m acc [] h = h
  lines_loop-Alike (suc fuel) indent m acc [] h = h
  lines_loop-Alike zero indent m acc (b ∷ s) h = tt
  lines_loop-Alike (suc fuel) indent m acc (b ∷ s) h =
      after_tag-Alike (decode_loop w fuel) (lines_loop w f fuel) indent m acc (b ∷ s)
        (w.consume_tag (b ∷ s)) h
        (λ indent' m' acc' s' h'. lines_loop-Alike fuel indent' m' acc' s' h')

  Alike-lines :
      {d : Decoded} {o : Option Decoded} (o' : Option (List Bytes))
      → o ≡ some d
      → Alike o o'
      → (ls : List Bytes) × (o' ≡ some ls) × (is_message d ≡ has_lines ls)
  Alike-lines {d} o' e a = split o' (subst (λ x. Alike x o') e a)
    where
      split :
          (o' : Option (List Bytes))
          → Alike (some d) o'
          → (ls : List Bytes) × (o' ≡ some ls) × (is_message d ≡ has_lines ls)
      split none a = absurd a
      split (some ls) a = (ls, refl, a)

  -- The inspector shows a body as protobuf lines exactly where the decoder behind the editor and
  -- the clipboard finds a message that is not empty: both end, given that protowire takes no more
  -- bytes than there are, and there are lines if and only if the map is a message.
  pub decode_proto_wire-is_message :
      Consumes w
      → (s indent : Bytes)
      → (d : Decoded) × (ls : List Bytes) × (proto_wire_to_map w s ≡ some d)
        × (decode_proto_wire w f s indent ≡ some ls)
        × (is_message d ≡ has_lines ls)
  decode_proto_wire-is_message law s indent =
      let (d, e, e') = proto_wire_to_map-ends w law (length s) s (omega arith) in
      let (ls, el, h) = Alike-lines (decode_proto_wire w f s indent) e (
        unfold proto_wire_to_map in
        unfold decode_proto_wire in
        lines_loop-Alike (length s) indent no_fields [] s (unfold is_message in refl)) in
      (d, ls, e, el, h)
