-- ===== src/Tui/Env.antt =====
-- What the TUI takes from the standard library and from the machine.
use grpc_tap.Prelude.{◌≡◌, List, [], ◌∷◌, Bool, true, false, All}
use grpc_tap.Prelude.Int.{ℤ}
use mathlib.Core.List.{Perm}

-- float64, with the operations that are used: conversion from int, `*`, `/`, `>`.
pub record Floats : Type 1 where
  pub Float : Type 0
  pub of_int : ℤ → Float
  pub mul : Float → Float → Float
  pub div : Float → Float → Float
  pub gt : Float → Float → Bool

-- `sort.Slice`: the result is a permutation of the input. Nothing is assumed of its order, which
-- for elements that compare equal is not fixed.
pub record IsSorter {A : Type 0} (sort : (A → A → Bool) → List A → List A) : Type 0 where
  pub permutes : (less : A → A → Bool) (xs : List A) → Perm (sort less xs) xs

-- What `sort.Slice` takes an order for.
pub record IsStrictWeak {A : Type 0} (less : A → A → Bool) : Type 0 where
  pub irreflexive : (a : A) → less a a ≡ false
  pub transitive : (a b c : A) → less a b ≡ true → less b c ≡ true → less a c ≡ true
  pub connected : (a b c : A) → less a b ≡ false → less b c ≡ false → less a c ≡ false

-- No element is to stand before one that comes earlier.
abbrev pub NoInversion : {A : Type 0} → (A → A → Bool) → List A → Type 0
NoInversion less [] = Unit {0}
NoInversion less (x ∷ xs) = All (λ y. less y x ≡ false) xs × NoInversion less xs

-- `sort.Slice` sorts. Elements that compare equal may stand in any order.
pub record IsOrdering {A : Type 0} (sort : (A → A → Bool) → List A → List A) : Type 0 where
  pub orders :
      (less : A → A → Bool) → IsStrictWeak less → (xs : List A) → NoInversion less (sort less xs)
