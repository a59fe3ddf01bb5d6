-- ===== src/Prelude/Results.antt =====
-- What a Go function with an error returns: a value, or the text of the error.
use mathlib.Core.Path.{◌≡◌, refl}
use mathlib.Core.Logic.{◌⊎◌, inl, inr}
use grpc_tap.Prelude.Text.{Bytes}

pub data Result (A : Type 0) : Type 0 where
  bad : Bytes → Result A
  good : A → Result A

pub Result-cases :
    {A : Type 0} (r : Result A) → ((e : Bytes) × (r ≡ bad e)) ⊎ ((a : A) × (r ≡ good a))
Result-cases (bad e) = inl (e, refl)
Result-cases (good a) = inr (a, refl)
