-- ===== src/Tui/View/Window.antt =====
-- tui/model.go and tui/analytics.go: the rows of a list that are drawn.
use grpc_tap.Prelude.{
  ℕ, zero, suc, ◌+◌, ◌-◌, ◌≤◌, ◌<◌, ◌≡◌, refl, ap, ◌∙◌, sym, subst, min, Option, some, List, [],
  ◌∷◌, Bytes, length, get_elem?, arith,
}
use grpc_tap.Tui.View.{window_start, window_end, collect}

window_end-le :
    (n cursor rows : ℕ)
    → (window_start n cursor rows ≤ window_end n cursor rows) × (window_end n cursor rows ≤ n)
unfolding window_start window_end
window_end-le n cursor rows = ground arith

-- A cursor on a row is among the rows that are drawn, and these lie within the list and fill the
-- room that there is for at least one row, as far as there are rows.
pub window-In :
    (n cursor rows : ℕ)
    → 0 < rows
    → cursor < n
    → (window_start n cursor rows ≤ cursor)
      × (cursor < window_end n cursor rows)
      × (window_end n cursor rows ≤ n)
      × (window_end n cursor rows - window_start n cursor rows ≡ min rows n)
unfolding window_start window_end
window-In n cursor rows h l = ground arith

-- A thing that is there.
abbrev pub IsSome {ℓ} : {A : Type ℓ} → Option A → Type ℓ
IsSome {A} o = (a : A) × (o ≡ some a)

collect-IsSome :
    (draw : ℕ → Option Bytes) (count i : ℕ)
    → ((j : ℕ) → i ≤ j → j < i + count → IsSome (draw j))
    → (ls : List Bytes) × (collect draw count i ≡ some ls)
      × (length ls ≡ count)
      × ((j : ℕ) → j < count → get_elem? ls j ≡ draw (i + j))
unfolding collect
collect-IsSome draw zero i h = ([], refl, refl, λ j l. absurd (omega arith))
collect-IsSome draw (suc count) i h =
    let (l, e) = h i (omega arith) (omega arith) in
    let (ls, el, en, at) =
      collect-IsSome draw count (suc i) (λ j a b. h j (omega arith) (omega arith)) in
    (l ∷ ls, rw (e, el) refl, ap suc en, at_all l ls e at)
  where
    at_all :
        (l : Bytes) (ls : List Bytes)
        → draw i ≡ some l
        → ((j : ℕ) → j < count → get_elem? ls j ≡ draw (suc i + j))
        → (j : ℕ) → j < suc count
        → get_elem? (l ∷ ls) j ≡ draw (i + j)
    at_all l ls e at zero b = let p : i + 0 ≡ i = omega arith in rw p (sym e)
    at_all l ls e at (suc j) b =
        let p : i + suc j ≡ suc i + j = omega arith in rw p (at j (omega arith))

pub rows-IsSome :
    (draw : ℕ → Option Bytes) (n cursor rows : ℕ)
    → ((j : ℕ) → j < n → IsSome (draw j))
    → IsSome (
        collect draw
          (window_end n cursor rows - window_start n cursor rows)
          (window_start n cursor rows))
rows-IsSome draw n cursor rows h =
    let (le, end) = window_end-le n cursor rows in
    let (ls, e, len, at) =
      collect-IsSome draw (window_end n cursor rows - window_start n cursor rows)
        (window_start n cursor rows) (λ j a b. h j (omega arith)) in
    (ls, e)

-- The line of the cursor in the window.
pub row_at_cursor :
    (draw : ℕ → Option Bytes) (n cursor rows : ℕ)
    → 0 < rows
    → cursor < n
    → ((j : ℕ) → j < n → IsSome (draw j))
    → (ls : List Bytes) × (collect draw
          (window_end n cursor rows - window_start n cursor rows)
          (window_start n cursor rows)
        ≡ some ls)
      × (length ls ≡ min rows n)
      × (get_elem? ls (cursor - window_start n cursor rows) ≡ draw cursor)
row_at_cursor draw n cursor rows r c h =
    let (lo, hi, end, fill) = window-In n cursor rows r c in
    let start = window_start n cursor rows in
    let (ls, e, len, at) =
      collect-IsSome draw (window_end n cursor rows - start) start (λ j a b. h j (omega arith)) in
    let p : start + (cursor - start) ≡ cursor = omega arith in
    (
      ls,
      e,
      len ∙ fill,
      subst (λ i. get_elem? ls (cursor - start) ≡ draw i) p (at (cursor - start) (omega arith)),
    )
