-- ===== src/Daemon/Flow/End.antt =====
-- cmd/grpc-tapd/main.go: the end of the proxy, and what the subscribers have then.
use grpc_tap.Prelude.{
  ℕ, zero, suc, ◌≡◌, ◌≢◌, ◌≤◌, ◌<◌, refl, sym, ap, ◌∙◌, ◌⊎◌, inl, inr, some, List, [], ◌∷◌, ◌++◌,
  true, false, length, arith, get_elem?, append-nil, All, replicate,
}
use grpc_tap.Chan.{Chan, value, ended, make, close, receive}
use native.Mathlib.Decide.{dec_lt}
use grpc_tap.Broker.{has_key, subscribe, new}
use grpc_tap.Broker.Inv.{AreLive-IsOpen}
use grpc_tap.Broker.World
use grpc_tap.Broker.World.{World, Action, Delivers, offer-Delivers, receive-Delivers}
use grpc_tap.Broker.Delivery.{waiting, waiting-Delivers}
use grpc_tap.Daemon.Flow.{
  Flow, Move, pumps, ends, opens, buffer_size, start, in_world, pump, move, flow, captured,
}
use grpc_tap.Daemon.Flow.Laws.{Flows, IsLive, start-Flows, flow-Flows, pump_value}
use grpc_tap.Daemon.Flow.Delivery.{StaysIn, Hears, flow-Hears}

All-replicate : {A : Type 0} (P : A → Type 0) (a : A) (n : ℕ) → P a → All P (replicate n a)
All-replicate P a zero h = tt
All-replicate P a (suc n) h = (h, All-replicate P a n h)

module _ {E : Type 0} where
  receive-front :
      (ch : Chan E) (a : E) (rest : List E)
      → ch.buf ≡ a ∷ rest
      → receive ch ≡ value a (record ch { buf = rest })
  unfolding receive
  receive-front ch a rest e = rw e

  -- The loop over the channel, as often as there are events in it.
  pump_out :
      (buf : List E) (f : Flow E)
      → f.events.buf ≡ buf
      → Flows f
      → (f' : Flow E) × (flow (replicate (length buf) pumps) f ≡ some f')
        × Flows f'
        × (f'.sent ≡ f.sent)
        × (f'.events.closed ≡ f.events.closed)
        × (f'.events.buf ≡ [])
  unfolding flow
  pump_out [] f e v = (f, refl, v, refl, refl, e)
  pump_out (ev ∷ rest) f e v =
      let (f1, r1, v1, s1, l1, p1) = pump_value f ev rest e v in
      let (f2, r2, v2, s2, l2, b2) = pump_out rest f1 p1.0 v1 in
      (f2, rw (flow, found f1 r1) r2, v2, s2 ∙ s1, l2 ∙ l1, b2)
    where
      found :
          (f1 : Flow E)
          → pump (value ev (record f.events { buf = rest })) f ≡ some f1
          → move pumps f ≡ some f1
      found f1 r = unfold move in rw (receive-front f.events ev rest e) r

  receive-open : (ch : Chan E) → ch.closed ≡ false → receive ch ≢ ended
  unfolding receive
  receive-open ch o = ground arith

  receive-ended : (ch : Chan E) → ch.closed ≡ true → ch.buf ≡ [] → receive ch ≡ ended
  unfolding receive
  receive-ended ch c b = rw (b, c) refl

  -- The state in which ListenAndServe has closed the channel of events.
  abbrev shut : Flow E → Flow E
  shut f = record f { events = record f.events { closed = true } }

  ends-shut : (f : Flow E) → f.events.closed ≡ false → move ends f ≡ some (shut f)
  unfolding move close
  ends-shut f live = rw live refl

  shut-Flows : (f : Flow E) → Flows f → Flows (shut f)
  shut-Flows f v = record { inner = v.inner; queue = v.queue; order = v.order; heard = v.heard }

  opened : Flow E
  opened = record (start) {
    world = record (World.start buffer_size) { broker = (subscribe (new buffer_size)).0 };
  }

  opens-opened : move opens start ≡ some opened
  unfolding move opened in_world World.step
  opens-opened = refl

  opened-Hears : Hears 0 opened
  unfolding opened subscribe new has_key
  opened-Hears = record { key = refl; all = refl }

  -- Nothing that the proxy captured is lost to a subscriber that is there from the start and stays:
  -- when the proxy has ended and the loop over its events has run as often as there were events
  -- left, the loop is over, and what the subscriber has received, followed by what waits in its
  -- buffer, is all that was captured, in its order, unless this is more than 256 events. Its channel
  -- is still open then, so that the end of the proxy does not end its Watch.
  pub flow_complete :
      (moves : List (Move E))
      → All IsLive moves
      → All (StaysIn 0) moves
      → (f : Flow E) × (f' : Flow E) × (flow (opens ∷ moves) start ≡ some f)
        × (flow (ends ∷ replicate (length f.events.buf) pumps) f ≡ some f')
        × (receive f'.events ≡ ended)
        × ((f'.world.got 0 ++ waiting 0 f'.world ≡ captured moves)
            ⊎ (256 < length (captured moves)))
        × ((ch : Chan E) × (get_elem? f'.world.broker.chans 0 ≡ some ch) × (receive ch ≢ ended))
  unfolding flow
  flow_complete moves live stay =
      let (f, r, v, s, o) =
        flow-Flows (opens ∷ moves) start (tt, live) (unfold make in refl) start-Flows in
      let (f', r', v', s', c', b') = pump_out f.events.buf (shut f) refl (shut-Flows f v) in
      let rest : flow (opens ∷ moves) start ≡ flow moves opened = rw (flow, opens-opened) refl in
      let h : Hears 0 f = flow-Hears 0 moves opened f stay (sym rest ∙ r) opened-Hears in
      let h' : Hears 0 f' =
        flow-Hears 0 (replicate (length f.events.buf) pumps) (shut f) f'
          (All-replicate (StaysIn 0) pumps (length f.events.buf) tt) r'
          (record { key = h.key; all = h.all }) in
      let (ch, e, open_still) =
        AreLive-IsOpen f'.world.broker.chans 0 f'.world.broker.subscribers v'.inner.valid.live
          h'.key in
      (
        f,
        f',
        r,
        rw (flow, ends-shut f o) r',
        receive-ended f'.events c' b',
        all_of f' v' (s' ∙ s) b' h',
        (ch, e, receive-open ch open_still),
      )
    where
      all_of :
          (f' : Flow E)
          → Flows f'
          → f'.sent ≡ captured moves
          → f'.events.buf ≡ []
          → Hears 0 f'
          → (f'.world.got 0 ++ waiting 0 f'.world ≡ captured moves)
            ⊎ (256 < length (captured moves))
      all_of f' v s' b h = elim (dec_lt 256 (length (captured moves))) [
        | yes l ↦ inr l
        | no n ↦
            let few : length f'.sent ≤ buffer_size = omega (arith, ap length s') in
            let all : f'.published ≡ captured moves =
              sym (append-nil f'.published)
              ∙ ap (λ b. f'.published ++ b) (sym b)
              ∙ v.order.lossless few
              ∙ s' in
            let heard : f'.world.offered 0 ≡ captured moves = h.all ∙ all in
            inl (
              (waiting-Delivers buffer_size f'.world 0 v.inner).lossless
                (omega (arith, ap length heard))
              ∙ heard)
      ]
