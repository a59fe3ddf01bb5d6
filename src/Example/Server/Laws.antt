-- ===== src/Example/Server/Laws.antt =====
-- example/server/main.go: the loop of Reverse, against the reverse of a list.
use mathlib.Core.List.{reverse, reverse-cons, reverse-append, reverse-reverse}
use grpc_tap.Prelude.{
  ℕ, zero, suc, ◌+◌, ◌-◌, ◌<◌, ◌≡◌, refl, sym, ap, ◌∙◌, some, List, [], ◌∷◌, ◌++◌, Bytes, true,
  false, ltb, get_elem?, set, length, length-append, append_assoc, append-nil,
  get_elem?-append_middle, arith,
}
use grpc_tap.Example.Server.{response, swap, reverse_loop, reverse_runes, reverse_message}

set-append_middle :
    (xs : List ℕ) (x y : ℕ) (ys : List ℕ) → set (xs ++ (x ∷ ys)) (length xs) y ≡ xs ++ (y ∷ ys)
set-append_middle [] x y ys = refl
set-append_middle (z ∷ xs) x y ys = ap (λ l. z ∷ l) (set-append_middle xs x y ys)

-- The two ends of a middle part change places.
swap_ends :
    (pre mid post : List ℕ) (a b : ℕ)
    → swap (length pre) (length (pre ++ (a ∷ mid))) (pre ++ (a ∷ (mid ++ (b ∷ post))))
      ≡ some (pre ++ (b ∷ (mid ++ (a ∷ post))))
unfolding swap
swap_ends pre mid post a b =
    let first = get_elem?-append_middle pre a (mid ++ (b ∷ post)) in
    let last : get_elem? (pre ++ (a ∷ (mid ++ (b ∷ post)))) (length (pre ++ (a ∷ mid))) ≡ some b =
      ap (λ l. get_elem? l (length (pre ++ (a ∷ mid))))
        (sym (append_assoc pre (a ∷ mid) (b ∷ post)))
      ∙ get_elem?-append_middle (pre ++ (a ∷ mid)) b post in
    let same : length (pre ++ (a ∷ mid)) ≡ length (pre ++ (b ∷ mid)) =
      omega (arith, length-append pre (a ∷ mid), length-append pre (b ∷ mid)) in
    let write : set (pre ++ (b ∷ (mid ++ (b ∷ post)))) (length (pre ++ (a ∷ mid))) a
        ≡ pre ++ (b ∷ (mid ++ (a ∷ post))) =
      ap (λ l. set l (length (pre ++ (a ∷ mid))) a) (sym (append_assoc pre (b ∷ mid) (b ∷ post)))
      ∙ ap (λ n. set ((pre ++ (b ∷ mid)) ++ (b ∷ post)) n a) same
      ∙ set-append_middle (pre ++ (b ∷ mid)) b a post
      ∙ append_assoc pre (b ∷ mid) (a ∷ post) in
    simp (swap, first, last, set-append_middle) (ap some write)

-- A list that is not empty has a last element.
unsnoc : (x : ℕ) (xs : List ℕ) → (m : List ℕ) × (b : ℕ) × (x ∷ xs ≡ m ++ (b ∷ []))
unsnoc x [] = ([], x, refl)
unsnoc x (y ∷ xs) = let (m, b, e) = unsnoc y xs in (x ∷ m, b, ap (λ l. x ∷ l) e)

reverse_ends :
    (pre m post : List ℕ) (a b : ℕ)
    → (pre ++ (b ∷ [])) ++ (reverse m ++ (a ∷ post))
      ≡ pre ++ (reverse (a ∷ (m ++ (b ∷ []))) ++ post)
reverse_ends pre m post a b = simp (reverse-cons, reverse-append, append_assoc)

-- The loop reverses what lies between its two indices, and leaves the rest.
reverse_loop_lem :
    (fuel : ℕ) (pre mid post : List ℕ) (j : ℕ)
    → length mid < fuel
    → j ≡ length pre + length mid - 1
    → reverse_loop fuel (length pre) j (pre ++ (mid ++ post)) ≡ some (pre ++ (reverse mid ++ post))
unfolding reverse_loop
reverse_loop_lem zero pre mid post j h e = absurd (omega arith)
reverse_loop_lem (suc fuel) pre [] post j h e =
    let done : ltb (length pre) j ≡ false = ground arith in rw done refl
reverse_loop_lem (suc fuel) pre (a ∷ []) post j h e =
    let done : ltb (length pre) j ≡ false = ground arith in rw done refl
reverse_loop_lem (suc fuel) pre (a ∷ x ∷ r) post j h e =
    let (m, b, l) = unsnoc x r in
    let size : suc (length r) ≡ length m + 1 = ap length l ∙ length-append m (b ∷ []) in
    let more : ltb (length pre) j ≡ true = ground arith in
    let at : j ≡ length (pre ++ (a ∷ m)) = omega (arith, length-append pre (a ∷ m)) in
    let apart : pre ++ ((a ∷ x ∷ r) ++ post) ≡ pre ++ (a ∷ (m ++ (b ∷ post))) =
      ap (λ l. pre ++ (a ∷ (l ++ post))) l
      ∙ ap (λ l. pre ++ (a ∷ l)) (append_assoc m (b ∷ []) post) in
    let rest : reverse_loop fuel (length (pre ++ (b ∷ []))) (j - 1)
          ((pre ++ (b ∷ [])) ++ (m ++ (a ∷ post)))
        ≡ some ((pre ++ (b ∷ [])) ++ (reverse m ++ (a ∷ post))) =
      reverse_loop_lem fuel (pre ++ (b ∷ [])) m (a ∷ post) (j - 1) (omega arith)
        (omega (arith, length-append pre (b ∷ []), length-append pre (a ∷ m))) in
    let step : swap (length pre) j (pre ++ ((a ∷ x ∷ r) ++ post))
        ≡ some ((pre ++ (b ∷ [])) ++ (m ++ (a ∷ post))) =
      ap (swap (length pre) j) apart
      ∙ ap (λ k. swap (length pre) k (pre ++ (a ∷ (m ++ (b ∷ post))))) at
      ∙ swap_ends pre m post a b
      ∙ ap some (sym (append_assoc pre (b ∷ []) (m ++ (a ∷ post)))) in
    let next : length pre + 1 ≡ length (pre ++ (b ∷ [])) =
      omega (arith, length-append pre (b ∷ [])) in
    let ends : reverse (a ∷ (m ++ (b ∷ []))) ≡ reverse (a ∷ (x ∷ r)) =
      ap (λ l. reverse (a ∷ l)) (sym l) in
    rw (more, step, next)
      (rest ∙ ap some (reverse_ends pre m post a b ∙ ap (λ l. pre ++ (l ++ post)) ends))

-- The loop that exchanges the runes at both ends, inwards, ends without an index out of range, and
-- gives the runes in the reverse order.
pub reverse_runes-eq : (runes : List ℕ) → reverse_runes runes ≡ some (reverse runes)
unfolding reverse_runes
reverse_runes-eq runes =
    ap (λ l. reverse_loop (suc (length runes)) 0 (length runes - 1) l) (sym (append-nil runes))
    ∙ reverse_loop_lem (suc (length runes)) [] runes [] (length runes - 1) (omega arith)
        (omega arith)
    ∙ ap some (append-nil (reverse runes))

-- Reverse answers every message with its runes in the reverse order, and the answer reversed again
-- is the message. It is assumed that the message is the text of its runes, and that runes in the
-- reverse order come back from their text.
pub reverse_message-twice :
    (to_runes : Bytes → List ℕ) (of_runes : List ℕ → Bytes) (message : Bytes)
    → of_runes (to_runes message) ≡ message
    → to_runes (of_runes (reverse (to_runes message))) ≡ reverse (to_runes message)
    → (answer : Bytes) × (reverse_message to_runes of_runes message ≡ some (response answer))
      × (to_runes answer ≡ reverse (to_runes message))
      × (reverse_message to_runes of_runes answer ≡ some (response message))
unfolding reverse_message
reverse_message-twice to_runes of_runes message there back = (
  of_runes (reverse (to_runes message)),
  rw (reverse_runes-eq (to_runes message)) refl,
  back,
  rw
      (
        back,
        reverse_runes-eq (reverse (to_runes message)),
        reverse-reverse (to_runes message),
        there,
      )
      refl,
)
