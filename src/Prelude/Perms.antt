-- ===== src/Prelude/Perms.antt =====
-- What a permutation of a list keeps: its length, and a bound on its elements.
use Prim.Native.Nat.{ℕ, suc, ◌<◌}
use mathlib.Core.Path.{◌≡◌, refl, ap, ◌∙◌}
use mathlib.Core.Logic.{∥∥₁_elim}
use mathlib.Core.List.{List, [], ◌∷◌, Perm, Permᴰ}
use native.Mathlib.Nat.{ℕ_set}
use native.Mathlib.Bridge.{le_prop}
use native.Mathlib.Omega.{arith}
use grpc_tap.Prelude.Lists.{length, All}

length-permᴰ {ℓ} : {A : Type ℓ} {xs ys : List A} → Permᴰ xs ys → length xs ≡ length ys
length-permᴰ Permᴰ.nil = refl
length-permᴰ (Permᴰ.cons e p) = ap suc (length-permᴰ p)
length-permᴰ (Permᴰ.swap e f) = refl
length-permᴰ (Permᴰ.trans p q) = length-permᴰ p ∙ length-permᴰ q

pub length-perm {ℓ} : {A : Type ℓ} {xs ys : List A} → Perm xs ys → length xs ≡ length ys
length-perm p = ∥∥₁_elim p (ℕ_set _ _) length-permᴰ

abbrev pub AllBelow : ℕ → List ℕ → Type 0
AllBelow n = All (λ i. i < n)

AllBelow-prop : (n : ℕ) (xs : List ℕ) → IsProp (AllBelow n xs)
AllBelow-prop n [] = hlevel
AllBelow-prop n (x ∷ xs) = hlevel (le_prop, AllBelow-prop n xs)

AllBelow-permᴰ : (n : ℕ) {xs ys : List ℕ} → Permᴰ xs ys → AllBelow n ys → AllBelow n xs
AllBelow-permᴰ n Permᴰ.nil h = h
AllBelow-permᴰ n (Permᴰ.cons e p) h = (omega arith, AllBelow-permᴰ n p h.1)
AllBelow-permᴰ n (Permᴰ.swap e f) h = (omega arith, (omega arith, h.1.1))
AllBelow-permᴰ n (Permᴰ.trans p q) h = AllBelow-permᴰ n p (AllBelow-permᴰ n q h)

pub AllBelow-perm : (n : ℕ) (xs ys : List ℕ) → Perm xs ys → AllBelow n ys → AllBelow n xs
AllBelow-perm n xs ys p h = ∥∥₁_elim p (AllBelow-prop n xs) (λ q. AllBelow-permᴰ n q h)
