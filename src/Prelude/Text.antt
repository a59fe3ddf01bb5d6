-- ===== src/Prelude/Text.antt =====
-- Go strings and byte slices: lists of bytes as numbers, with the operations of `bytes` and `strings`.
use Prim.Native.Nat.{ℕ}
use Prim.Native.Char.{code}
use Prim.Native.String.{String}
use mathlib.Core.Path.{◌≡◌, refl}
use mathlib.Core.Bool.{Bool, true, false, ◌&&◌, ◌||◌}
use mathlib.Core.Logic.{◌↔◌}
use mathlib.Core.List.{List, [], ◌∷◌, ◌++◌}
use native.Mathlib.Omega.{arith}
use grpc_tap.Prelude.Tests.{◌==◌, if◌then◌else◌}

abbrev pub Bytes : Type 0
Bytes = List ℕ

-- The code points of a literal: its bytes, as every literal here is ASCII.
abbrev pub codes : String → Bytes
codes String.[] = []
codes (String.◌∷◌ c s) = code c ∷ codes s

abbrev pub eq_bytes : Bytes → Bytes → Bool
eq_bytes [] [] = true
eq_bytes [] (y ∷ ys) = false
eq_bytes (x ∷ xs) [] = false
eq_bytes (x ∷ xs) (y ∷ ys) = x == y && eq_bytes xs ys

pub eq_bytes_self : (s : Bytes) → eq_bytes s s ≡ true
eq_bytes_self [] = refl
eq_bytes_self (x ∷ xs) = ground (arith, eq_bytes_self xs)

pub eq_bytes_sound : (s t : Bytes) → eq_bytes s t ≡ true → s ≡ t
eq_bytes_sound [] [] h = refl
eq_bytes_sound [] (y ∷ ys) h = cc
eq_bytes_sound (x ∷ xs) [] h = cc
eq_bytes_sound (x ∷ xs) (y ∷ ys) h = ground (arith, eq_bytes_sound xs ys)

pub eq_bytes_iff : (s t : Bytes) → (eq_bytes s t ≡ true) ↔ (s ≡ t)
eq_bytes_iff s t = (eq_bytes_sound s t, λ e. rw e (eq_bytes_self t))

-- `strings.HasPrefix s p`.
abbrev pub has_prefix : Bytes → Bytes → Bool
has_prefix s [] = true
has_prefix [] (y ∷ ys) = false
has_prefix (x ∷ xs) (y ∷ ys) = x == y && has_prefix xs ys

-- `strings.Contains s p`.
abbrev pub contains : Bytes → Bytes → Bool
contains [] p = has_prefix [] p
contains (x ∷ xs) p = has_prefix (x ∷ xs) p || contains xs p

abbrev pub cons_first : ℕ → List Bytes → List Bytes
cons_first c [] = (c ∷ []) ∷ []
cons_first c (l ∷ ls) = (c ∷ l) ∷ ls

-- `strings.Split s "\n"`.
abbrev pub split_lines : Bytes → List Bytes
split_lines [] = [] ∷ []
split_lines (c ∷ s) = if c == 0x0a then [] ∷ split_lines s else cons_first c (split_lines s)

abbrev pub is_empty : Bytes → Bool
is_empty [] = true
is_empty (x ∷ xs) = false

pub has_prefix-append : (p s : Bytes) → has_prefix (p ++ s) p ≡ true
has_prefix-append [] s = refl
has_prefix-append (x ∷ p) s = ground (arith, has_prefix-append p s)

pub has_prefix-shorter : (s a b : Bytes) → has_prefix s (a ++ b) ≡ true → has_prefix s a ≡ true
has_prefix-shorter s [] b h = refl
has_prefix-shorter [] (y ∷ a) b h = cc
has_prefix-shorter (x ∷ s) (y ∷ a) b h = ground (arith, has_prefix-shorter s a b)
