-- ===== src/Daemon/Flow/Steps.antt =====
-- cmd/grpc-tapd/main.go: one move of the goroutines.
use grpc_tap.Prelude.{
  ℕ, ◌≡◌, ◌≢◌, refl, sym, ap, ◌∙◌, inl, inr, none, some, [], ◌∷◌, ◌++◌, true, if◌then◌else◌, arith,
  Option-cases, get_elem?,
}
use grpc_tap.Chan.{Received, value, ended, blocked, receive}
use grpc_tap.Broker.{Broker, has_key, subscribe, unsubscribe, publish}
use grpc_tap.Broker.Inv.{has_key-delete}
use grpc_tap.Broker.World.{Action, subscribes, unsubscribes, publishes, receives, World, took, step}

module _ {E : Type 0} where
  -- What a step of the world other than a publish leaves alone.
  abbrev pub IsQuiet : Action E → Type 0
  IsQuiet subscribes = Unit
  IsQuiet (unsubscribes i) = Unit
  IsQuiet (publishes ev) = ⊥
  IsQuiet (receives i) = Unit

  took-same :
      (i : ℕ) (w : World E) (r : Received E)
      → ((took i w r).offered ≡ w.offered)
        × ((took i w r).broker.subscribers ≡ w.broker.subscribers)
  unfolding took
  took-same i w (value ev ch) = (refl, refl)
  took-same i w ended = (refl, refl)
  took-same i w blocked = (refl, refl)

  receives-same :
      (i : ℕ) (w w' : World E)
      → step (receives i) w ≡ some w'
      → (w'.offered ≡ w.offered) × (w'.broker.subscribers ≡ w.broker.subscribers)
  unfolding step
  receives-same i w w' e = elim (Option-cases (get_elem? w.broker.chans i)) [
    | inl z ↦ let s : w' ≡ w = cc in rw s (refl, refl)
    | inr (ch, z) ↦ let s : w' ≡ took i w (receive ch) = cc in rw s (took-same i w (receive ch))
  ]

  pub step-offered :
      (a : Action E) (w w' : World E) → IsQuiet a → step a w ≡ some w' → w'.offered ≡ w.offered
  unfolding step
  step-offered subscribes w w' q e = cc
  step-offered (unsubscribes i) w w' q e = ground arith
  step-offered (publishes ev) w w' q e = absurd q
  step-offered (receives i) w w' q e = (receives-same i w w' e).0

  publishes-same :
      (ev : E) (w w' : World E)
      → step (publishes ev) w ≡ some w'
      → w'.broker.subscribers ≡ w.broker.subscribers
  unfolding step publish
  publishes-same ev w w' e = ground arith

  some-offered : {w w' : World E} → some w ≡ some w' → w.offered ≡ w'.offered
  some-offered e = cc

  pub publishes-offered :
      (ev : E) (w w' : World E) (i : ℕ)
      → step (publishes ev) w ≡ some w'
      → w'.offered i
        ≡ (if has_key i w.broker.subscribers then w.offered i ++ (ev ∷ []) else w.offered i)
  unfolding step
  publishes-offered ev w w' i e = elim (Option-cases (publish ev w.broker)) [
    | inl z ↦ let no_step : step (publishes ev) w ≡ none = rw (z, step) in cc
    | inr (b, z) ↦
        let s : step (publishes ev) w
            ≡ some (record w {
              broker = b;
              offered = λ j.
                  if has_key j w.broker.subscribers then w.offered j ++ (ev ∷ []) else w.offered j;
            }) =
          rw (z, step) in
        ap (λ f. f i) (some-offered (sym e ∙ s))
  ]

  abbrev pub Stays : ℕ → Action E → Type 0
  Stays i subscribes = Unit
  Stays i (unsubscribes j) = j ≢ i
  Stays i (publishes ev) = Unit
  Stays i (receives j) = Unit

  -- A subscriber stays, unless it unsubscribes.
  unsubscribe-has_key :
      (i j : ℕ) (b b' : Broker E)
      → j ≢ i
      → unsubscribe (j, j) b ≡ some b'
      → has_key i b.subscribers ≡ true
      → has_key i b'.subscribers ≡ true
  unfolding unsubscribe
  unsubscribe-has_key i j b b' n e k = ground (arith, has_key-delete i j b.subscribers)

  pub step-has_key :
      (i : ℕ) (a : Action E) (w w' : World E)
      → Stays i a
      → step a w ≡ some w'
      → has_key i w.broker.subscribers ≡ true
      → has_key i w'.broker.subscribers ≡ true
  unfolding step subscribe has_key
  step-has_key i subscribes w w' n e k = ground arith
  step-has_key i (unsubscribes j) w w' n e k =
      ground (arith, unsubscribe-has_key i j w.broker w'.broker)
  step-has_key i (publishes ev) w w' n e k = rw (publishes-same ev w w' e) k
  step-has_key i (receives j) w w' n e k = rw ((receives-same j w w' e).1) k
