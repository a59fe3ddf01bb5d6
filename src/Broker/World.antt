-- ===== src/Broker/World.antt =====
-- The broker with its subscribers, under any interleaving of calls and receives. `got` is what each
-- subscriber has received and `offered` what was published while it was subscribed; both only
-- record the history.
use mathlib.Core.List.{Sublist, sublist-append_left}
use mathlib.Core.List.Sublist
use grpc_tap.Prelude.{
  ℕ, ◌+◌, ◌≤◌, ◌≡◌, sym, ap, ◌∙◌, inl, inr, Option, none, some, List, [], ◌∷◌, ◌++◌, ltb, ◌==◌,
  if◌then◌else◌, length, get_elem?, set, arith, length-append, Bool-cases, append_assoc,
}
use grpc_tap.Chan.{Chan, Received, value, ended, blocked, receive, offer}
use grpc_tap.Broker.{Broker, has_key, new, subscribe, unsubscribe, publish}
use grpc_tap.Broker.Inv.{IsBounded}

pub data Action (E : Type 0) : Type 0 where
  subscribes : Action E
  unsubscribes : ℕ → Action E
  publishes : E → Action E
  receives : ℕ → Action E

pub record World (E : Type 0) : Type 0 where
  pub broker : Broker E
  pub got : ℕ → List E
  pub offered : ℕ → List E

module _ {E : Type 0} where
  abbrev pub start : ℕ → World E
  start n = record { broker = new n; got = λ i. []; offered = λ i. [] }

  abbrev pub note_at : ℕ → E → (ℕ → List E) → ℕ → List E
  note_at i a f j = if i == j then f j ++ (a ∷ []) else f j

  unfoldable pub took : ℕ → World E → Received E → World E
  took i w (value a ch) = record w {
    broker = record (w.broker) { chans = set w.broker.chans i ch };
    got = note_at i a w.got;
  }
  took i w ended = w
  took i w blocked = w

  unfoldable pub step : Action E → World E → Option (World E)
  unfolding took
  step subscribes w = some (record w { broker = (subscribe w.broker).0 })
  step (unsubscribes i) w = elim (unsubscribe (i, i) w.broker) [
    | none ↦ none
    | some b ↦ some (record w { broker = b })
  ]
  step (publishes ev) w = elim (publish ev w.broker) [
    | none ↦ none
    | some b ↦ some (record w {
      broker = b;
      offered =
          λ i. if has_key i w.broker.subscribers then w.offered i ++ (ev ∷ []) else w.offered i;
    })
  ]
  step (receives i) w = elim (get_elem? w.broker.chans i) [
    | none ↦ some w
    | some ch ↦ some (took i w (receive ch))
  ]

  unfoldable pub run : List (Action E) → World E → Option (World E)
  run [] w = some w
  run (a ∷ acts) w = elim (step a w) [ none ↦ none | some w' ↦ run acts w' ]

  -- What a subscriber has seen or will see, against what was published for it.
  pub record Delivers (n : ℕ) (seen offered : List E) : Type 0 where
    pub in_order : Sublist seen offered
    pub lossless : length offered ≤ n → seen ≡ offered

  pub offer-Delivers :
      (n : ℕ) (got offered : List E) (ev : E) (ch : Chan E)
      → IsBounded n ch
      → Delivers n (got ++ ch.buf) offered
      → Delivers n (got ++ (offer ev ch).buf) (offered ++ (ev ∷ []))
  offer-Delivers n got offered ev ch b d = elim (Bool-cases (ltb (length ch.buf) ch.cap)) [
    | inl e ↦
        let buf : (offer ev ch).buf ≡ ch.buf ++ (ev ∷ []) = unfold offer in rw e in
        rw (buf, ← append_assoc got ch.buf (ev ∷ []))
          (record {
            in_order = Sublist.append d.in_order (Sublist.refl (ev ∷ []));
            lossless = λ h.
                ap (λ s. s ++ (ev ∷ []))
                  (d.lossless (omega (arith, length-append offered (ev ∷ []))));
          })
    | inr e ↦
        let buf : (offer ev ch).buf ≡ ch.buf = unfold offer in rw e in
        let full : n ≤ length ch.buf = ground arith in
        rw buf (record {
          in_order = Sublist.trans d.in_order (sublist-append_left offered (ev ∷ []));
          lossless = λ h.
              let small : length offered + 1 ≤ n = omega (arith, length-append offered (ev ∷ [])) in
              let all : length got + length ch.buf ≡ length offered =
                sym (length-append got ch.buf) ∙ ap length (d.lossless (omega arith)) in
              absurd (omega arith);
        })
  ]

  pub receive-Delivers :
      (n : ℕ) (got rest offered : List E) (a : E)
      → Delivers n (got ++ (a ∷ rest)) offered
      → Delivers n ((got ++ (a ∷ [])) ++ rest) offered
  receive-Delivers n got rest offered a d = rw (append_assoc got (a ∷ []) rest) d
