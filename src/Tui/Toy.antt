-- ===== src/Tui/Toy.antt =====
-- A machine and calls for the tests of the TUI.
use mathlib.Core.List.{Permᴰ}
use grpc_tap.Prelude.{
  ◌≡◌, refl, inl, inr, some, List, [], ◌∷◌, Bytes, codes, Bool, true, false, All, if◌then◌else◌,
  Bool-cases,
}
use grpc_tap.Prelude.Int.{ℤ, pos, ltb_ℤ, ◌+ℤ◌}
use grpc_tap.Tui.TapEvent.{TapEvent}
use grpc_tap.Tui.Env.{IsSorter, NoInversion, IsStrictWeak, IsOrdering}
use grpc_tap.Tui.Model.{Machine}
use grpc_tap.Tui.Model.ListKeys.{LastRune}
use grpc_tap.Tui.Model.Invariant.{IsMachine}

-- Insertion sort, for `sort.Slice`.
abbrev pub insert {ℓ} : {A : Type ℓ} → (A → A → Bool) → A → List A → List A
insert less x [] = x ∷ []
insert less x (y ∷ ys) = let rest = insert less x ys in if less y x then y ∷ rest else x ∷ y ∷ ys

abbrev pub insertion_sort {ℓ} : {A : Type ℓ} → (A → A → Bool) → List A → List A
insertion_sort less [] = []
insertion_sort less (x ∷ xs) = insert less x (insertion_sort less xs)

pub permᴰ_self {ℓ} : {A : Type ℓ} (zs : List A) → Permᴰ zs zs
permᴰ_self [] = Permᴰ.nil
permᴰ_self (z ∷ zs) = Permᴰ.cons refl (permᴰ_self zs)

insert-permᴰ {ℓ} :
    {A : Type ℓ} (less : A → A → Bool) (x : A) (ys : List A) → Permᴰ (insert less x ys) (x ∷ ys)
insert-permᴰ less x [] = Permᴰ.cons refl Permᴰ.nil
insert-permᴰ less x (y ∷ ys) = elim (Bool-cases (less y x)) [
  | inl e ↦ rw e (Permᴰ.trans (Permᴰ.cons refl (insert-permᴰ less x ys)) (Permᴰ.swap refl refl))
  | inr e ↦ rw e (permᴰ_self (x ∷ y ∷ ys))
]

pub insertion_sort-permᴰ {ℓ} :
    {A : Type ℓ} (less : A → A → Bool) (xs : List A) → Permᴰ (insertion_sort less xs) xs
insertion_sort-permᴰ less [] = Permᴰ.nil
insertion_sort-permᴰ less (x ∷ xs) =
    Permᴰ.trans (insert-permᴰ less x (insertion_sort less xs))
      (Permᴰ.cons refl (insertion_sort-permᴰ less xs))

pub insertion_sort-IsSorter : {A : Type 0} → IsSorter {A = A} insertion_sort
insertion_sort-IsSorter = record { permutes = λ less xs. ∣ insertion_sort-permᴰ less xs ∣₁ }

insert-All {ℓ} :
    {A : Type ℓ} (P : A → Type 0) (less : A → A → Bool) (x : A) (ys : List A)
    → P x
    → All P ys
    → All P (insert less x ys)
insert-All P less x [] p h = (p, tt)
insert-All P less x (y ∷ ys) p h = elim (Bool-cases (less y x)) [
  | inl e ↦ rw e (h.0, insert-All P less x ys p h.1)
  | inr e ↦ rw e (p, h)
]

module _ {A : Type 0} (less : A → A → Bool) (weak : IsStrictWeak less) where
  not_less_after :
      (x y : A) (zs : List A)
      → less y x ≡ false
      → All (λ z. less z y ≡ false) zs
      → All (λ z. less z x ≡ false) zs
  not_less_after x y [] e h = tt
  not_less_after x y (z ∷ zs) e h = (weak.connected z y x h.0 e, not_less_after x y zs e h.1)

  not_both : (x y : A) → less y x ≡ true → less x y ≡ false
  not_both x y e = elim (Bool-cases (less x y)) [
    | inl e' ↦ let no = weak.irreflexive x in let yes = weak.transitive x y x e' e in absurd cc
    | inr e' ↦ e'
  ]

  insert-NoInversion :
      (x : A) (ys : List A) → NoInversion less ys → NoInversion less (insert less x ys)
  insert-NoInversion x [] h = (tt, tt)
  insert-NoInversion x (y ∷ ys) h = elim (Bool-cases (less y x)) [
    | inl e ↦ rw e (insert-All _ less x ys (not_both x y e) h.0, insert-NoInversion x ys h.1)
    | inr e ↦ rw e ((e, not_less_after x y ys e h.0), h)
  ]

  insertion_sort-NoInversion : (xs : List A) → NoInversion less (insertion_sort less xs)
  insertion_sort-NoInversion [] = tt
  insertion_sort-NoInversion (x ∷ xs) =
      insert-NoInversion x (insertion_sort less xs) (insertion_sort-NoInversion xs)

pub insertion_sort-IsOrdering : {A : Type 0} → IsOrdering {A = A} insertion_sort
insertion_sort-IsOrdering = record {
  orders = λ less weak xs. insertion_sort-NoInversion less weak xs;
}

-- Texts in lower case, and sums in place of float64.
abbrev pub machine : Machine
machine = record {
  to_lower = λ s. s;
  sort_rows = insertion_sort;
  sort_analytics = insertion_sort;
  range_order = λ gs. gs;
  floats = record { Float = ℤ; of_int = λ i. i; mul = ◌+ℤ◌; div = ◌+ℤ◌; gt = λ a b. ltb_ℤ b a };
  copies = λ s. true;
}

pub machine-IsMachine : IsMachine machine
machine-IsMachine = record { lower_empty = refl; sorts_rows = insertion_sort-IsSorter }

abbrev pub one_byte : LastRune
one_byte s = 1

abbrev pub one_line : TapEvent → List Bytes
one_line ev = ev.method ∷ []

abbrev pub call : Bytes → Bytes → ℤ → ℤ → TapEvent
call id method status duration = record {
  id = id;
  method = method;
  call_type = pos 1;
  start_time = some (pos 0);
  duration = some duration;
  status = status;
  error = [];
  protocol = pos 1;
  request_body = 1 ∷ [];
  response_body = [];
  request_headers = [];
  response_headers = [];
}

abbrev pub echo : TapEvent
echo = call (codes "a") (codes "/echo") (pos 0) (pos 5)

abbrev pub ping : TapEvent
ping = call (codes "b") (codes "/ping") (pos 2) (pos 9)
