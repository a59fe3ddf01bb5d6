-- ===== src/Broker/Delivery.antt =====
-- Delivery to each subscriber, over every interleaving.
use grpc_tap.Prelude.{
  ℕ, ◌≤◌, ◌<◌, ◌≡◌, refl, ◌⊎◌, inl, inr, none, some, List, [], ◌∷◌, ◌++◌, length, get_elem?, arith,
  get_elem?-some, Option-cases,
}
use native.Mathlib.Decide.{dec_lt}
use mathlib.Core.List.{Sublist}
use mathlib.Core.List.Sublist
use grpc_tap.Broker.{new}
use grpc_tap.Broker.Inv.{IsValid, new-IsValid}
use grpc_tap.Broker.World.{Action, World, start, run, Delivers}
use grpc_tap.Broker.Steps.{Inv, step-Goes}

module _ {E : Type 0} where
  pub start-Inv : (n : ℕ) → Inv {E = E} n (start n)
  unfolding new
  start-Inv n = record {
    valid = new-IsValid n;
    size = refl;
    delivers = λ i ch e. cc;
    unborn = λ i h. (refl, refl);
  }

  run-Inv :
      (n : ℕ) (acts : List (Action E)) (w : World E)
      → Inv n w
      → (w' : World E) × (run acts w ≡ some w') × Inv n w'
  unfolding run
  run-Inv n [] w v = (w, refl, v)
  run-Inv n (a ∷ acts) w v =
      let (w1, r1, v1) = step-Goes n a w v in
      let (w2, r2, v2) = run-Inv n acts w1 v1 in (w2, rw (r1, run) r2, v2)

  -- What waits in the buffer of a subscriber's channel.
  abbrev pub waiting : ℕ → World E → List E
  waiting i w = elim (get_elem? w.broker.chans i) [ none ↦ [] | some ch ↦ ch.buf ]

  pub waiting-Delivers :
      (n : ℕ) (w : World E) (i : ℕ) → Inv n w → Delivers n (w.got i ++ waiting i w) (w.offered i)
  waiting-Delivers n w i v = elim (Option-cases (get_elem? w.broker.chans i)) [
    | inl z ↦
        let out : length w.broker.chans ≤ i = elim (dec_lt i (length w.broker.chans)) [
          | yes h ↦ let (ch, e) = get_elem?-some w.broker.chans i h in absurd cc
          | no h ↦ omega arith
        ] in
        let (g, o) = v.unborn i (omega (arith, v.valid.allocated)) in
        rw (waiting, z, g, o) (record { in_order = Sublist.refl []; lossless = λ h. refl })
    | inr (ch, z) ↦ rw (waiting, z) (v.delivers i ch z)
  ]

  -- Whatever calls and receives are made, in whatever order, no call panics (no send on a closed
  -- channel, no second close), and the broker stays valid. What a subscriber has received, followed
  -- by what waits in its buffer, is a subsequence of the events published while it was subscribed,
  -- in their order; and it is all of them, unless more of them were published than its buffer holds.
  pub run-delivers :
      (n : ℕ) (acts : List (Action E)) (i : ℕ)
      → (w : World E) × (run acts (start n) ≡ some w)
        × IsValid w.broker
        × Sublist (w.got i ++ waiting i w) (w.offered i)
        × ((w.got i ++ waiting i w ≡ w.offered i) ⊎ (n < length (w.offered i)))
  run-delivers n acts i =
      let (w, r, v) = run-Inv n acts (start n) (start-Inv n) in
      let d = waiting-Delivers n w i v in
      (
        w,
        r,
        v.valid,
        d.in_order,
        elim (dec_lt n (length (w.offered i))) [
          | yes h ↦ inr h
          | no h ↦ inl (d.lossless (omega arith))
        ],
      )
