-- ===== src/Daemon/Flow/Delivery.antt =====
-- cmd/grpc-tapd/main.go: what reaches a subscriber from the proxy.
use mathlib.Core.List.{Sublist, sublist-append_left}
use mathlib.Core.List.Sublist
use grpc_tap.Prelude.{
  ℕ, ◌≡◌, ◌≢◌, refl, sym, ap, ◌∙◌, subst, inl, inr, none, some, List, [], ◌∷◌, ◌++◌, true, arith,
  Option-cases, All,
}
use grpc_tap.Chan.{Received, value, ended, blocked, make, receive}
use grpc_tap.Broker.{has_key}
use grpc_tap.Broker.World
use grpc_tap.Broker.World.{World, Action, Delivers, offer-Delivers, receive-Delivers}
use grpc_tap.Broker.Delivery.{waiting, waiting-Delivers}
use grpc_tap.Daemon.Flow.{
  Flow, Move, captures, pumps, ends, opens, leaves, takes, buffer_size, start, in_world, pump, move,
  flow, captured,
}
use grpc_tap.Daemon.Flow.Steps.{IsQuiet, step-offered, publishes-offered, step-has_key, Stays}
use grpc_tap.Daemon.Flow.Laws.{IsLive, start-Flows, flow-Flows}

module _ {E : Type 0} where
  -- Until the proxy ends, nothing of this panics, in whatever order the calls, the loop that hands
  -- the events on and the subscribers run: what a subscriber has received, followed by what waits in
  -- its buffer, is a subsequence of the events that the proxy captured, in their order.
  pub flow-order :
      (moves : List (Move E)) (i : ℕ)
      → All IsLive moves
      → (f : Flow E) × (flow moves start ≡ some f)
        × Sublist (f.world.got i ++ waiting i f.world) (captured moves)
  unfolding make
  flow-order moves i h =
      let (f, r, v, s, _) = flow-Flows moves start h refl start-Flows in
      let d = waiting-Delivers buffer_size f.world i v.inner in
      (
        f,
        r,
        subst (Sublist (f.world.got i ++ waiting i f.world)) s (
            Sublist.trans d.in_order (
              Sublist.trans (v.heard i)
                (Sublist.trans (sublist-append_left f.published f.events.buf) v.order.in_order))),
      )

  -- The move is not this subscriber's unsubscribe.
  abbrev pub StaysIn : ℕ → Move E → Type 0
  StaysIn i (captures ev) = Unit
  StaysIn i pumps = Unit
  StaysIn i ends = Unit
  StaysIn i opens = Unit
  StaysIn i (leaves j) = j ≢ i
  StaysIn i (takes j) = Unit

  -- All that was published was published for the subscriber.
  pub record Hears (i : ℕ) (f : Flow E) : Type 0 where
    pub key : has_key i f.world.broker.subscribers ≡ true
    pub all : f.world.offered i ≡ f.published

  in_world-some :
      (a : Action E) (f f' : Flow E)
      → in_world a f ≡ some f'
      → (w : World E) × (World.step a f.world ≡ some w) × (f' ≡ record f { world = w })
  unfolding in_world
  in_world-some a f f' e = elim (Option-cases (World.step a f.world)) [
    | inl z ↦ let stuck : in_world a f ≡ none = rw (in_world, z) refl in cc
    | inr (w, z) ↦
        let found : in_world a f ≡ some (record f { world = w }) = rw (in_world, z) refl in
        (w, z, cc)
  ]

  quiet-Hears :
      (i : ℕ) (a : Action E) (f f' : Flow E)
      → IsQuiet a
      → Stays i a
      → in_world a f ≡ some f'
      → Hears i f
      → Hears i f'
  quiet-Hears i a f f' q st e h =
      let (w, z, s) = in_world-some a f f' e in
      rw s (record {
        key = step-has_key i a f.world w st z h.key;
        all = ap (λ o. o i) (step-offered a f.world w q z) ∙ h.all;
      })

  pump-Hears :
      (i : ℕ) (r : Received E) (f f' : Flow E) → pump r f ≡ some f' → Hears i f → Hears i f'
  unfolding pump
  pump-Hears i (value ev ch) f f' e h =
      let (w, z, s) =
        in_world-some (World.publishes ev)
          (record f { events = ch; published = f.published ++ (ev ∷ []) }) f' e in
      rw s (record {
        key = step-has_key i (World.publishes ev) f.world w tt z h.key;
        all = publishes-offered ev f.world w i z ∙ rw (h.key) (ap (λ xs. xs ++ (ev ∷ [])) h.all);
      })
  pump-Hears i ended f f' e h = let s : f' ≡ f = cc in rw s h
  pump-Hears i blocked f f' e h = let s : f' ≡ f = cc in rw s h

  same-Hears :
      (i : ℕ) (f f' : Flow E)
      → f'.world ≡ f.world
      → f'.published ≡ f.published
      → Hears i f
      → Hears i f'
  same-Hears i f f' w p h = record {
    key = rw w (h.key);
    all = ap (λ x. x.offered i) w ∙ h.all ∙ sym p;
  }

  move-Hears :
      (i : ℕ) (m : Move E) (f f' : Flow E)
      → StaysIn i m
      → move m f ≡ some f'
      → Hears i f
      → Hears i f'
  unfolding move
  move-Hears i (captures ev) f f' st e h = same-Hears i f f' (ground arith) (ground arith) h
  move-Hears i pumps f f' st e h = pump-Hears i (receive f.events) f f' e h
  move-Hears i ends f f' st e h = same-Hears i f f' (ground arith) (ground arith) h
  move-Hears i opens f f' st e h = quiet-Hears i World.subscribes f f' tt tt e h
  move-Hears i (leaves j) f f' st e h = quiet-Hears i (World.unsubscribes j) f f' tt st e h
  move-Hears i (takes j) f f' st e h = quiet-Hears i (World.receives j) f f' tt tt e h

  pub flow-Hears :
      (i : ℕ) (moves : List (Move E)) (f f' : Flow E)
      → All (StaysIn i) moves
      → flow moves f ≡ some f'
      → Hears i f
      → Hears i f'
  unfolding flow
  flow-Hears i [] f f' st e h = let s : f' ≡ f = cc in rw s h
  flow-Hears i (m ∷ moves) f f' st e h = elim (Option-cases (move m f)) [
    | inl z ↦ let stuck : flow (m ∷ moves) f ≡ none = rw (flow, z) refl in cc
    | inr (f1, z) ↦
        let rest : flow (m ∷ moves) f ≡ flow moves f1 = rw (flow, z) refl in
        flow-Hears i moves f1 f' st.1 (sym rest ∙ e) (move-Hears i m f f1 st.0 z h)
  ]
