-- ===== src/Prelude/Decimal.antt =====
-- Decimal text: `strconv.ParseInt` in base 10, and the verb `%d` of `fmt`.
use grpc_tap.Prelude.Tests.{ltb, leb, ◌==◌, if◌then◌else◌, Bool-cases}
use grpc_tap.Prelude.Text.{Bytes, is_empty}
use grpc_tap.Prelude.Int.{ℤ, pos, negsuc}
use Prim.Native.Nat.{ℕ, zero, suc, ◌+◌, ◌-◌, ◌*◌, ◌/◌, ◌%◌, ◌^◌, ◌≤◌, ◌<◌}
use mathlib.Core.Path.{◌≡◌, refl, sym, ap, ◌∙◌}
use mathlib.Core.Bool.{Bool, true, false, ◌||◌}
use mathlib.Core.Logic.{inl, inr}
use mathlib.Core.Option.{Option, none, some}
use mathlib.Core.List.{[], ◌∷◌, ◌++◌, append_assoc, append-nil}
use native.Mathlib.Omega.{arith}
use native.Mathlib.Nat.{pow-suc}

-- One digit for each round; `n + 1` rounds are more than enough for `n`.
unfoldable pub print_loop : ℕ → ℕ → Bytes
print_loop zero n = []
print_loop (suc fuel) n =
    let front = print_loop fuel (n / 10) in
    if ltb n 10 then (b'0' + n) ∷ [] else front ++ ((b'0' + n % 10) ∷ [])

unfoldable pub print_nat : ℕ → Bytes
unfolding print_loop
print_nat n = print_loop (n + 1) n

unfoldable pub print_int : ℤ → Bytes
unfolding print_nat
print_int (pos n) = print_nat n
print_int (negsuc n) = b'-' ∷ print_nat (suc n)

pub data ParseError : Type 0 where
  err_syntax err_range : ParseError

-- The loop of `ParseUint`: the first bad byte or the first value above `top` ends it.
unfoldable pub parse_digits : ℕ → ℕ → Bytes → ℕ × Option ParseError
parse_digits top acc [] = (acc, none)
parse_digits top acc (c ∷ cs) =
    let next = acc * 10 + (c - b'0') in
    let rest = parse_digits top next cs in
    if ltb c b'0' || ltb b'9' c
    then (0, some err_syntax)
    else if ltb top next
    then (top, some err_range)
    else rest

unfoldable pub parse_uint : ℕ → Bytes → ℕ × Option ParseError
unfolding parse_digits
parse_uint bits [] = (0, some err_syntax)
parse_uint bits (c ∷ cs) = parse_digits (2 ^ bits - 1) 0 (c ∷ cs)

-- The end of `ParseInt`: a syntax error gives 0, and a value out of range the nearest bound.
unfoldable pub clamp_int : ℕ → Bool → ℕ × Option ParseError → ℤ × Option ParseError
clamp_int bits neg (un, some err_syntax) = (pos 0, some err_syntax)
clamp_int bits true (un, e) =
    if ltb (2 ^ (bits - 1)) un
    then (negsuc (2 ^ (bits - 1) - 1), some err_range)
    else (if un == 0 then pos 0 else negsuc (un - 1), none)
clamp_int bits false (un, e) =
    if leb (2 ^ (bits - 1)) un then (pos (2 ^ (bits - 1) - 1), some err_range) else (pos un, none)

-- `strconv.ParseInt(s, 10, bits)`.
unfoldable pub parse_int : ℕ → Bytes → ℤ × Option ParseError
unfolding clamp_int parse_uint
parse_int bits [] = (pos 0, some err_syntax)
parse_int bits (c ∷ cs) =
    if c == b'+'
    then clamp_int bits false (parse_uint bits cs)
    else if c == b'-'
    then clamp_int bits true (parse_uint bits cs)
    else clamp_int bits false (parse_uint bits (c ∷ cs))

print_loop_digit :
    (fuel n : ℕ)
    → n < fuel
    → (c : ℕ) × (cs : Bytes) × (print_loop fuel n ≡ c ∷ cs) × (b'0' ≤ c) × (c ≤ b'9')
unfolding print_loop
print_loop_digit zero n h = absurd (omega arith)
print_loop_digit (suc fuel) n h = elim (Bool-cases (ltb n 10)) [
  | inl e ↦ (b'0' + n, [], rw e, omega arith, ground arith)
  | inr e ↦
      let (c, cs, p, lo, hi) = print_loop_digit fuel (n / 10) (ground arith) in
      (c, cs ++ ((b'0' + n % 10) ∷ []), rw (e, p), lo, hi)
]

parse_digits-cons :
    (top acc d : ℕ) (rest : Bytes)
    → d < 10
    → acc * 10 + d ≤ top
    → parse_digits top acc ((b'0' + d) ∷ rest) ≡ parse_digits top (acc * 10 + d) rest
unfolding parse_digits
parse_digits-cons top acc d rest h t =
    let e : acc * 10 + (b'0' + d - b'0') ≡ acc * 10 + d = omega arith in rw e (ground arith)

parse_digits-print_loop :
    (fuel n top : ℕ) (rest : Bytes)
    → n < fuel
    → n ≤ top
    → parse_digits top 0 (print_loop fuel n ++ rest) ≡ parse_digits top n rest
unfolding print_loop
parse_digits-print_loop zero n top rest h t = absurd (omega arith)
parse_digits-print_loop (suc fuel) n top rest h t = elim (Bool-cases (ltb n 10)) [
  | inl e ↦
      let value : 0 * 10 + n ≡ n = omega arith in
      rw e (
        parse_digits-cons top 0 n rest (ground arith) (omega arith)
        ∙ ap (λ v. parse_digits top v rest) value)
  | inr e ↦
      let last : ℕ = b'0' + n % 10 in
      let value : n / 10 * 10 + n % 10 ≡ n = omega arith in
      rw (e, append_assoc)
        (parse_digits-print_loop fuel (n / 10) top (last ∷ rest) (ground arith) (omega arith)
          ∙ parse_digits-cons top (n / 10) (n % 10) rest (omega arith) (omega arith)
          ∙ ap (λ v. parse_digits top v rest) value)
]

parse_uint-print_nat : (bits n : ℕ) → n < 2 ^ bits → parse_uint bits (print_nat n) ≡ (n, none)
unfolding parse_uint print_nat
parse_uint-print_nat bits n h =
    let (c, cs, p, _, _) = print_loop_digit (n + 1) n (omega arith) in
    rw (p, parse_uint)
      (ap (parse_digits (2 ^ bits - 1) 0) (sym p ∙ sym (append-nil (print_loop (n + 1) n)))
        ∙ parse_digits-print_loop (n + 1) n (2 ^ bits - 1) [] (omega arith) (omega arith)
        ∙ unfold parse_digits in refl)

parse_int-digit :
    (bits c : ℕ) (cs : Bytes)
    → b'0' ≤ c
    → c ≤ b'9'
    → parse_int bits (c ∷ cs) ≡ clamp_int bits false (parse_uint bits (c ∷ cs))
unfolding parse_int
parse_int-digit bits c cs lo hi = ground arith

clamp_int-fits : (b n : ℕ) → n < 2 ^ b → clamp_int (suc b) false (n, none) ≡ (pos n, none)
unfolding clamp_int
clamp_int-fits b n h = let e : suc b - 1 ≡ b = omega arith in rw e (ground arith)

-- A number that fits in the integer type is read back from its decimal text.
pub parse_int-print_nat : (b n : ℕ) → n < 2 ^ b → parse_int (suc b) (print_nat n) ≡ (pos n, none)
parse_int-print_nat b n h =
    let (c, cs, p, lo, hi) = print_loop_digit (n + 1) n (omega arith) in
    let text : print_nat n ≡ c ∷ cs = unfold print_nat in p in
    let wide : n < 2 ^ suc b = rw (pow-suc 2 b) (omega arith) in
    ap (parse_int (suc b)) text
    ∙ parse_int-digit (suc b) c cs lo hi
    ∙ ap (λ t. clamp_int (suc b) false (parse_uint (suc b) t)) (sym text)
    ∙ ap (clamp_int (suc b) false) (parse_uint-print_nat (suc b) n wide)
    ∙ clamp_int-fits b n h

pub is_empty-print_nat : (n : ℕ) → is_empty (print_nat n) ≡ false
unfolding print_nat
is_empty-print_nat n = let (c, cs, p, _, _) = print_loop_digit (n + 1) n (omega arith) in rw p
