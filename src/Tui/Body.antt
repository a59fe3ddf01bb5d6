-- ===== src/Tui/Body.antt =====
-- tui/format.go, decodeProtoWire and formatBody: a body as lines of text. The verbs %q and %x,
-- strings.TrimSpace and hex.Dump are parameters, and so is the package protowire.
pub mod Shape
use grpc_tap.Prelude.{
  ℕ, zero, suc, Option, none, some, List, [], ◌∷◌, ◌++◌, Bytes, codes, Bool, true, false, ◌&&◌,
  ◌||◌, ◌==◌, if◌then◌else◌, length, drop, is_empty, split_lines,
}
use grpc_tap.Prelude.Decimal.{print_nat}
use grpc_tap.Proxy.Wire.{
  ProtoWire, is_printable_bytes, varint_type, fixed64_type, bytes_type, start_group_type,
  end_group_type, fixed32_type,
}

pub record Verbs : Type 0 where
  pub quote : Bytes → Bytes
  pub hex : Bytes → Bytes
  pub trim_space : Bytes → Bytes
  pub hex_dump : Bytes → Bytes

-- What the body of the loop finds behind a tag: lines with the bytes that were taken, nothing for
-- the wire types that the switch does not name, or the end, `return nil`. `exhausted`: the rounds
-- did not suffice.
pub data LineAt : Type 0 where
  lines : List Bytes → ℕ → LineAt
  skipped exhausted stopped : LineAt

-- `fmt.Sprintf("%s%d: ", indent, num)` and what follows.
abbrev pub line : Bytes → ℕ → Bytes → Bytes
line indent num rest = indent ++ (print_nat num ++ (codes ": " ++ rest))

unfoldable pub number_line : Bytes → ℕ → Option (ℕ × ℕ) → LineAt
number_line indent num none = stopped
number_line indent num (some (v, n)) = lines (line indent num (print_nat v) ∷ []) n

unfoldable pub after_line :
    (List Bytes → Bytes → Option (List Bytes)) → List Bytes → Bytes → LineAt → Option (List Bytes)
after_line loop acc s (lines ls n) = loop (acc ++ ls) (drop n s)
after_line loop acc s skipped = loop acc s
after_line loop acc s exhausted = none
after_line loop acc s stopped = some []

-- `strings.TrimRight(s, "\n")`.
abbrev pub trim_newlines : Bytes → Bytes
trim_newlines [] = []
trim_newlines (c ∷ s) =
    let rest = trim_newlines s in if c == 0x0a && is_empty rest then [] else c ∷ rest

module _ (w : ProtoWire) (f : Verbs) where
  unfoldable pub bytes_lines : Bytes → ℕ → Bytes → List Bytes → List Bytes
  bytes_lines indent num v [] =
      line indent num (if w.utf8_valid v && is_printable_bytes v then f.quote v else f.hex v) ∷ []
  bytes_lines indent num v (l ∷ ls) =
      line indent num (codes "{") ∷ ((l ∷ ls) ++ ((indent ++ codes "}") ∷ []))

  unfoldable pub with_lines : Bytes → ℕ → Bytes → ℕ → Option (List Bytes) → LineAt
  with_lines indent num v n none = exhausted
  with_lines indent num v n (some ls) = lines (bytes_lines indent num v ls) n

  unfoldable pub bytes_line :
      (Bytes → Option (List Bytes)) → Bytes → ℕ → Option (Bytes × ℕ) → LineAt
  bytes_line decode indent num none = stopped
  bytes_line decode indent num (some (v, n)) = with_lines indent num v n (decode v)

  -- The switch over the wire type.
  unfoldable pub line_at : (Bytes → Option (List Bytes)) → Bytes → ℕ → ℕ → Bytes → LineAt
  line_at decode indent num wtype s =
      if wtype == varint_type
      then number_line indent num (w.consume_varint s)
      else if wtype == fixed32_type
      then number_line indent num (w.consume_fixed32 s)
      else if wtype == fixed64_type
      then number_line indent num (w.consume_fixed64 s)
      else if wtype == bytes_type
      then bytes_line decode indent num (w.consume_bytes s)
      else if wtype == start_group_type || wtype == end_group_type
      then stopped
      else skipped

  unfoldable pub lines_after_tag :
      (Bytes → List Bytes → Bytes → Option (List Bytes))
      → Bytes
      → List Bytes
      → Bytes
      → Option (ℕ × ℕ × ℕ)
      → Option (List Bytes)
  lines_after_tag loop indent acc s none = some []
  lines_after_tag loop indent acc s (some (num, wtype, n)) =
      let rest = drop n s in
      after_line (loop indent) acc rest
        (line_at (loop (indent ++ codes "  ") []) indent num wtype rest)

  -- The loop, with the recursive call on fuel as well; `none`: the fuel ran out.
  unfoldable pub lines_loop : ℕ → Bytes → List Bytes → Bytes → Option (List Bytes)
  lines_loop fuel indent acc [] = some acc
  lines_loop zero indent acc (b ∷ s) = none
  lines_loop (suc fuel) indent acc (b ∷ s) =
      lines_after_tag (lines_loop fuel) indent acc (b ∷ s) (w.consume_tag (b ∷ s))

  -- `decodeProtoWire`; the nil slice is the list without lines.
  unfoldable pub decode_proto_wire : Bytes → Bytes → Option (List Bytes)
  decode_proto_wire s indent = lines_loop (length s) indent [] s

  unfoldable pub plain_body : Bytes → List Bytes
  plain_body s =
      if w.utf8_valid s
      then split_lines (f.trim_space s)
      else split_lines (trim_newlines (f.hex_dump s))

  unfoldable pub body_lines : Bytes → List Bytes → List Bytes
  body_lines s [] = plain_body s
  body_lines s (l ∷ ls) = l ∷ ls

  -- `formatBody`.
  unfoldable pub format_body : Bytes → Option (List Bytes)
  format_body s = elim (decode_proto_wire s []) [ none ↦ none | some ls ↦ some (body_lines s ls) ]
