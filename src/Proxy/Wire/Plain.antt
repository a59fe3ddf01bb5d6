-- ===== src/Proxy/Wire/Plain.antt =====
-- The objects of the round trip between mapToProtoWire and protoWireToMap of proxy/frame.go, and
-- what it assumes of the libraries.
use grpc_tap.Prelude.{
  ℕ, ◌^◌, ◌<◌, ◌≡◌, refl, some, List, [], ◌∷◌, ◌++◌, Bytes, true, false, ◌&&◌, if◌then◌else◌,
  length, All,
}
use grpc_tap.Prelude.Int.{pos}
use grpc_tap.Prelude.Decimal.{print_nat}
use grpc_tap.Proxy.Wire.{
  ProtoWire, WireValue, number, text, nested, WireMap, no_fields, field, put, Decoded, is_message,
  is_printable_bytes, bytes_value, proto_wire_to_map,
}
use grpc_tap.Proxy.Wire.Fuel.{put-is_message}
use grpc_tap.Proxy.Wire.Encode.{
  Json, string, float, boolean, object, other, JsonMap, no_members, member, Encoded, Numbers,
  key_less, is_whole, members,
}

-- What protowire appends for a valid field number or value, it consumes.
pub record ReadsBack (w : ProtoWire) : Type 0 where
  pub tag_back :
      (n t : ℕ) (s : Bytes)
      → 0 < n
      → n < 2 ^ 29
      → t < 6
      → w.consume_tag (w.append_tag (pos n) t ++ s) ≡ some (n, t, length (w.append_tag (pos n) t))
  pub varint_back :
      (v : ℕ) (s : Bytes)
      → v < 2 ^ 64
      → w.consume_varint (w.append_varint v ++ s) ≡ some (v, length (w.append_varint v))
  pub fixed64_back :
      (v : ℕ) (s : Bytes)
      → v < 2 ^ 64
      → w.consume_fixed64 (w.append_fixed64 v ++ s) ≡ some (v, length (w.append_fixed64 v))
  pub bytes_back :
      (v s : Bytes) → w.consume_bytes (w.append_bytes v ++ s) ≡ some (v, length (w.append_bytes v))

abbrev pub IsAscending : List (Bytes × Encoded) → Type 0
IsAscending [] = Unit {0}
IsAscending (x ∷ xs) = All (λ y. key_less x y ≡ true) xs × IsAscending xs

-- A list in strict order is left as it is by a sort.
abbrev pub KeepsOrder : Numbers → Type 0
KeepsOrder n = (xs : List (Bytes × Encoded)) → IsAscending xs → n.sort key_less xs ≡ xs

module _ (w : ProtoWire) (n : Numbers) where
  -- The key is a number, and the numbers of the later keys are higher.
  abbrev pub Above : Bytes → JsonMap → Type 0
  Above key no_members = Unit {0}
  Above key (member j v o) =
      (key_less (key, Encoded.good []) (j, Encoded.good []) ≡ true) × Above key o

  abbrev pub IsKey : Bytes → Type 0
  IsKey key = (num : ℕ) × (key ≡ print_nat num) × (0 < num) × (num < 2 ^ 29)

  -- A text that the decoder takes for a text: it can be printed, and is no message itself.
  abbrev pub IsText : Bytes → Type 0
  IsText v =
      ((w.utf8_valid v && is_printable_bytes v) ≡ true)
      × ((d : Decoded) × (proto_wire_to_map w v ≡ some d) × (is_message d ≡ false))

  -- An object whose keys are valid field numbers in ascending order, and whose values are texts as
  -- above, numbers, Booleans, or objects of this kind that are not empty.
  abbrev mutual
    pub IsPlain : Json → Type 0
    IsPlain (string v) = IsText v
    IsPlain (float x) = (x < 2 ^ 64) × (n.to_uint64 x < 2 ^ 64)
    IsPlain (boolean b) = Unit {0}
    IsPlain (object no_members) = ⊥
    IsPlain (object (member key v o)) = ArePlain (member key v o)
    IsPlain (other name) = ⊥

    pub ArePlain : JsonMap → Type 0
    ArePlain no_members = Unit {0}
    ArePlain (member key v o) = IsKey key × Above key o × IsPlain v × ArePlain o

  -- The same object as the decoder shows it: assigned member by member.
  abbrev mutual
    pub to_wire : Json → WireValue
    to_wire (string v) = text v
    to_wire (float x) = number (if is_whole w n x then n.to_uint64 x else x)
    to_wire (boolean b) = number (if b then 1 else 0)
    to_wire (object o) = nested (fill no_fields o)
    to_wire (other name) = text name

    pub fill : WireMap → JsonMap → WireMap
    fill m no_members = m
    fill m (member key v o) = fill (put key (to_wire v) m) o

  members-All :
      (key : Bytes) (x : Encoded) (o : JsonMap)
      → Above key o
      → All (λ y. key_less (key, x) y ≡ true) (members w n o)
  unfolding members key_less
  members-All key x no_members a = tt
  members-All key x (member j v o) a = (a.0, members-All key x o a.1)

  pub members-IsAscending : (o : JsonMap) → ArePlain o → IsAscending (members w n o)
  unfolding members
  members-IsAscending no_members p = tt
  members-IsAscending (member key v o) p = (members-All key _ o p.1, members-IsAscending o p.3)

  pub fill-is_message :
      (m : WireMap) (o : JsonMap)
      → is_message (Decoded.good m) ≡ true
      → is_message (Decoded.good (fill m o)) ≡ true
  fill-is_message m no_members h = h
  fill-is_message m (member key v o) h =
      fill-is_message (put key (to_wire v) m) o (put-is_message key (to_wire v) m)

  pub bytes_value-nested :
      (v : Bytes) (m : WireMap)
      → is_message (Decoded.good m) ≡ true
      → bytes_value w v (Decoded.good m) ≡ nested m
  unfolding bytes_value is_message
  bytes_value-nested v no_fields h = cc
  bytes_value-nested v (field k u m) h = refl

  pub bytes_value-text :
      (v : Bytes) (d : Decoded)
      → is_message d ≡ false
      → (w.utf8_valid v && is_printable_bytes v) ≡ true
      → bytes_value w v d ≡ text v
  unfolding bytes_value is_message
  bytes_value-text v (Decoded.good no_fields) h p = rw p
  bytes_value-text v (Decoded.good (field k u m)) h p = cc
  bytes_value-text v (Decoded.bad e) h p = rw p
