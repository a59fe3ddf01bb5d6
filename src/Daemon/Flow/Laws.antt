-- ===== src/Daemon/Flow/Laws.antt =====
-- cmd/grpc-tapd/main.go: the moves of the goroutines in any order.
use mathlib.Core.List.{Sublist, sublist-append_left}
use mathlib.Core.List.Sublist
use grpc_tap.Prelude.{
  ℕ, ◌≡◌, refl, sym, ap, ◌∙◌, subst, inl, inr, some, List, [], ◌∷◌, ◌++◌, false, if◌then◌else◌,
  length, arith, Bool-cases, append-nil, append_assoc, All,
}
use grpc_tap.Chan.{value, make, try_send-open, offer, offer_bounded, receive-cases}
use grpc_tap.Broker.{has_key}
use grpc_tap.Broker.Inv.{IsBounded}
use grpc_tap.Broker.World
use grpc_tap.Broker.World.{World, Action, Delivers, offer-Delivers, receive-Delivers}
use grpc_tap.Broker.Steps.{Inv, step-Goes}
use grpc_tap.Broker.Delivery.{start-Inv}
use grpc_tap.Daemon.Flow.{
  Flow, Move, captures, pumps, ends, opens, leaves, takes, buffer_size, start, in_world, pump, move,
  flow, captured,
}
use grpc_tap.Daemon.Flow.Steps.{IsQuiet, step-offered, publishes-offered}

module _ {E : Type 0} where
  -- What holds between two moves.
  pub record Flows (f : Flow E) : Type 0 where
    pub inner : Inv buffer_size f.world
    pub queue : IsBounded buffer_size f.events
    pub order : Delivers buffer_size (f.published ++ f.events.buf) f.sent
    pub heard : (i : ℕ) → Sublist (f.world.offered i) f.published

  -- A move that does not panic, by what it leaves in the channel of events and in the history.
  abbrev Goes : Move E → Flow E → Type 0
  Goes m f =
      (f' : Flow E) × (move m f ≡ some f')
      × Flows f'
      × (f'.sent ≡ f.sent ++ captured (m ∷ []))
      × (f'.events.closed ≡ f.events.closed)

  captures-Goes : (ev : E) (f : Flow E) → f.events.closed ≡ false → Flows f → Goes (captures ev) f
  unfolding move
  captures-Goes ev f live v = (
    record f { events = offer ev f.events; sent = f.sent ++ (ev ∷ []) },
    rw (move, try_send-open ev f.events live) refl,
    record {
      inner = v.inner;
      queue = (
        same_cap ∙ v.queue.0,
        unfold offer in ground (arith, v.queue, offer_bounded ev f.events),
      );
      order = offer-Delivers buffer_size f.published f.sent ev f.events v.queue v.order;
      heard = v.heard;
    },
    refl,
    same_closed,
  )
    where
      same_cap : (offer ev f.events).cap ≡ f.events.cap
      same_cap = unfold offer in ground arith

      same_closed : (offer ev f.events).closed ≡ f.events.closed
      same_closed = unfold offer in ground arith

  in_world-Goes :
      (a : Action E) (f : Flow E)
      → IsQuiet a
      → Flows f
      → (f' : Flow E) × (in_world a f ≡ some f')
        × Flows f'
        × (f'.sent ≡ f.sent)
        × (f'.events.closed ≡ f.events.closed)
  unfolding in_world
  in_world-Goes a f q v =
      let (w, e, i) = step-Goes buffer_size a f.world v.inner in
      let same = step-offered a f.world w q e in
      (
        record f { world = w },
        rw (in_world, e) refl,
        record { inner = i; queue = v.queue; order = v.order; heard = λ j. rw same (v.heard j) },
        refl,
        refl,
      )

  quiet-Goes :
      (m : Move E) (a : Action E) (f : Flow E)
      → IsQuiet a
      → move m f ≡ in_world a f
      → captured (m ∷ []) ≡ []
      → Flows f
      → Goes m f
  quiet-Goes m a f q e c v =
      let (f', r, v', s, l) = in_world-Goes a f q v in
      (f', e ∙ r, v', s ∙ sym (append-nil f.sent) ∙ ap (λ xs. f.sent ++ xs) (sym c), l)

  -- After a round that found `ev`, it has been published.
  abbrev pub Pumped : E → List E → Flow E → Flow E → Type 0
  Pumped ev rest f f' = (f'.events.buf ≡ rest) × (f'.published ≡ f.published ++ (ev ∷ []))

  pub pump_value :
      (f : Flow E) (ev : E) (rest : List E)
      → f.events.buf ≡ ev ∷ rest
      → Flows f
      → (f' : Flow E) × (pump (value ev (record f.events { buf = rest })) f ≡ some f')
        × Flows f'
        × (f'.sent ≡ f.sent)
        × (f'.events.closed ≡ f.events.closed)
        × Pumped ev rest f f'
  unfolding pump in_world
  pump_value f ev rest buf v =
      let (w, e, i) = step-Goes buffer_size (World.publishes ev) f.world v.inner in
      (
        record f {
          events = record f.events { buf = rest };
          world = w;
          published = f.published ++ (ev ∷ []);
        },
        rw (pump, in_world, e) refl,
        record {
          inner = i;
          queue = (v.queue.0, omega (arith, ap length buf, v.queue.1));
          order =
              receive-Delivers buffer_size f.published rest f.sent ev
                (subst (λ b. Delivers buffer_size (f.published ++ b) f.sent) buf v.order);
          heard = λ j.
              subst (λ o. Sublist o (f.published ++ (ev ∷ [])))
                (sym (publishes-offered ev f.world w j e)) (after j);
        },
        refl,
        refl,
        (refl, refl),
      )
    where
      after :
          (j : ℕ)
          → Sublist
              (if has_key j f.world.broker.subscribers
                then f.world.offered j ++ (ev ∷ [])
                else f.world.offered j)
              (f.published ++ (ev ∷ []))
      after j = elim (Bool-cases (has_key j f.world.broker.subscribers)) [
        | inl k ↦ rw k (Sublist.append (v.heard j) (Sublist.refl (ev ∷ [])))
        | inr k ↦ rw k (Sublist.trans (v.heard j) (sublist-append_left f.published (ev ∷ [])))
      ]

  pumps-Goes : (f : Flow E) → Flows f → Goes pumps f
  unfolding move pump
  pumps-Goes f v = elim (receive-cases f.events) [
    | inl (ev, rest, buf, r) ↦
        let (f', e, v', s, l, _) = pump_value f ev rest buf v in
        (f', rw (move, r) e, v', s ∙ sym (append-nil f.sent), l)
    | inr (inl r) ↦ (f, rw (move, r, pump) refl, v, sym (append-nil f.sent), refl)
    | inr (inr r) ↦ (f, rw (move, r, pump) refl, v, sym (append-nil f.sent), refl)
  ]

  -- The proxy has not ended.
  abbrev pub IsLive : Move E → Type 0
  IsLive (captures ev) = Unit
  IsLive pumps = Unit
  IsLive ends = ⊥
  IsLive opens = Unit
  IsLive (leaves i) = Unit
  IsLive (takes i) = Unit

  live-Goes : (m : Move E) (f : Flow E) → IsLive m → f.events.closed ≡ false → Flows f → Goes m f
  unfolding move
  live-Goes (captures ev) f h live v = captures-Goes ev f live v
  live-Goes pumps f h live v = pumps-Goes f v
  live-Goes ends f h live v = absurd h
  live-Goes opens f h live v = quiet-Goes opens World.subscribes f tt refl refl v
  live-Goes (leaves i) f h live v = quiet-Goes (leaves i) (World.unsubscribes i) f tt refl refl v
  live-Goes (takes i) f h live v = quiet-Goes (takes i) (World.receives i) f tt refl refl v

  captured-cons :
      (m : Move E) (moves : List (Move E))
      → captured (m ∷ moves) ≡ captured (m ∷ []) ++ captured moves
  captured-cons (captures ev) moves = refl
  captured-cons pumps moves = refl
  captured-cons ends moves = refl
  captured-cons opens moves = refl
  captured-cons (leaves i) moves = refl
  captured-cons (takes i) moves = refl

  pub start-Flows : Flows start
  unfolding make
  start-Flows = record {
    inner = start-Inv buffer_size;
    queue = (refl, omega arith);
    order = record { in_order = Sublist.refl []; lossless = λ h. refl };
    heard = λ i. Sublist.refl [];
  }

  pub flow-Flows :
      (moves : List (Move E)) (f : Flow E)
      → All IsLive moves
      → f.events.closed ≡ false
      → Flows f
      → (f' : Flow E) × (flow moves f ≡ some f')
        × Flows f'
        × (f'.sent ≡ f.sent ++ captured moves)
        × (f'.events.closed ≡ false)
  unfolding flow
  flow-Flows [] f h live v = (f, refl, v, sym (append-nil f.sent), live)
  flow-Flows (m ∷ moves) f h live v =
      let (f1, r1, v1, s1, l1) = live-Goes m f h.0 live v in
      let (f2, r2, v2, s2, l2) = flow-Flows moves f1 h.1 (l1 ∙ live) v1 in
      (
        f2,
        rw (flow, r1) r2,
        v2,
        s2
            ∙ ap (λ xs. xs ++ captured moves) s1
            ∙ append_assoc f.sent (captured (m ∷ [])) (captured moves)
            ∙ ap (λ xs. f.sent ++ xs) (sym (captured-cons m moves)),
        l2,
      )
