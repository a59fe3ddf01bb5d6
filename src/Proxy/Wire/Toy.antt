-- ===== src/Proxy/Wire/Toy.antt =====
-- A wire format for the tests, in place of protowire: a tag, a number and a length are one element
-- each, whatever their size.
use grpc_tap.Prelude.{
  ℕ, suc, ◌+◌, ◌*◌, ◌/◌, ◌%◌, ◌<◌, ◌≤◌, ◌^◌, ◌≡◌, refl, ap, ◌∙◌, Option, none, some, List, [], ◌∷◌,
  ◌++◌, Bytes, codes, Bool, true, leb, if◌then◌else◌, length, take, length-append, length-take,
  take-length_append, arith, Bool-cases, inl, inr, All,
}
use grpc_tap.Prelude.Int.{pos_part}
use grpc_tap.Proxy.Wire.{ProtoWire, Consumes}
use grpc_tap.Proxy.Wire.Encode.{Numbers, Encoded, key_less}
use grpc_tap.Proxy.Wire.Plain.{ReadsBack, KeepsOrder}

abbrev take_tag : Bytes → Option (ℕ × ℕ × ℕ)
take_tag [] = none
take_tag (x ∷ s) = some (x / 8, x % 8, 1)

abbrev take_number : Bytes → Option (ℕ × ℕ)
take_number [] = none
take_number (x ∷ s) = some (x, 1)

abbrev take_bytes : Bytes → Option (Bytes × ℕ)
take_bytes [] = none
take_bytes (x ∷ s) = if leb x (length s) then some (take x s, x + 1) else none

abbrev pub toy_wire : ProtoWire
toy_wire = record {
  consume_tag = take_tag;
  consume_varint = take_number;
  consume_fixed32 = take_number;
  consume_fixed64 = take_number;
  consume_bytes = take_bytes;
  append_tag = λ n t. (pos_part n * 8 + t) ∷ [];
  append_varint = λ v. v ∷ [];
  append_fixed64 = λ v. v ∷ [];
  append_bytes = λ v. length v ∷ v;
  utf8_valid = λ s. true;
  hex_encode = λ s. codes "hex";
}

take_tag-takes :
    (s : Bytes) (num t n : ℕ) → take_tag s ≡ some (num, t, n) → (0 < n) × (n ≤ length s)
take_tag-takes [] num t n e = cc
take_tag-takes (x ∷ s) num t n e = let p : 1 ≡ n = cc in (omega (arith, p), omega (arith, p))

take_bytes-takes :
    (s v : Bytes) (n : ℕ) → take_bytes s ≡ some (v, n) → (length v < n) × (n ≤ length s)
take_bytes-takes [] v n e = cc
take_bytes-takes (x ∷ s) v n e = elim (Bool-cases (leb x (length s))) [
  | inl fits ↦
      let e' : ◌≡◌ {A = Option (Bytes × ℕ)} (some (take x s, x + 1)) (some (v, n)) = rw fits at e in
      let p : x + 1 ≡ n = cc in
      let q : take x s ≡ v = cc in
      let l = length-take x s in
      let m : length (take x s) ≡ length v = ap length q in
      (omega (arith, p, l, m), ground (arith, p, fits))
  | inr over ↦ let e' : ◌≡◌ {A = Option (Bytes × ℕ)} none (some (v, n)) = rw over at e in cc
]

pub toy_wire-Consumes : Consumes toy_wire
toy_wire-Consumes = record { tag_takes = take_tag-takes; bytes_takes = take_bytes-takes }

pub toy_wire-ReadsBack : ReadsBack toy_wire
toy_wire-ReadsBack = record {
  tag_back = tag_back;
  varint_back = λ v s h. refl;
  fixed64_back = λ v s h. refl;
  bytes_back = bytes_back;
}
  where
    tag_back :
        (n t : ℕ) (s : Bytes)
        → 0 < n
        → n < 2 ^ 29
        → t < 6
        → take_tag ((n * 8 + t) ∷ s) ≡ some (n, t, 1)
    tag_back n t s a b c =
        let p : (n * 8 + t) / 8 ≡ n = omega arith in
        let q : (n * 8 + t) % 8 ≡ t = omega arith in rw (p, q)

    bytes_back : (v s : Bytes) → take_bytes (length v ∷ (v ++ s)) ≡ some (v, suc (length v))
    bytes_back v s =
        let fits : leb (length v) (length (v ++ s)) ≡ true = ground (arith, length-append v s) in
        let p : length v + 1 ≡ suc (length v) = omega arith in rw (fits, take-length_append v s, p)

abbrev insert :
    (Bytes × Encoded → Bytes × Encoded → Bool)
    → Bytes × Encoded
    → List (Bytes × Encoded)
    → List (Bytes × Encoded)
insert less x [] = x ∷ []
insert less x (y ∷ ys) = let rest = insert less x ys in if less x y then x ∷ y ∷ ys else y ∷ rest

abbrev sort :
    (Bytes × Encoded → Bytes × Encoded → Bool) → List (Bytes × Encoded) → List (Bytes × Encoded)
sort less [] = []
sort less (x ∷ xs) = insert less x (sort less xs)

-- Whole numbers in place of float64.
abbrev pub toy_numbers : Numbers
toy_numbers = record {
  trunc = λ x. x;
  eq = λ x y. true;
  le = leb;
  zero = 0;
  max_int64 = 2 ^ 63;
  to_uint64 = λ x. x;
  sort = sort;
  quote = λ s. s;
}

pub toy_numbers-KeepsOrder : KeepsOrder toy_numbers
toy_numbers-KeepsOrder [] h = refl
toy_numbers-KeepsOrder (x ∷ xs) (lower, h) =
    ap (insert key_less x) (toy_numbers-KeepsOrder xs h) ∙ first xs lower
  where
    first :
        (ys : List (Bytes × Encoded))
        → All (λ y. key_less x y ≡ true) ys
        → insert key_less x ys ≡ x ∷ ys
    first [] l = refl
    first (y ∷ ys) l = rw l.0
