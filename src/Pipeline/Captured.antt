-- ===== src/Pipeline/Captured.antt =====
-- From the proxy's channel of events to the screen: proxy/reverse_proxy.go, cmd/grpc-tapd/main.go,
-- broker/broker.go, server/server.go and tui/model.go together.
use mathlib.Core.List.{Sublist, sublist-append_left}
use mathlib.Core.List.Sublist
use grpc_tap.Prelude.{
  ℕ, zero, suc, ◌≤◌, ◌≡◌, refl, ◌∙◌, sym, inl, inr, none, some, List, [], ◌∷◌, map, length,
  replicate, All, Bytes, arith, Option-cases,
}
use grpc_tap.Proxy.Types.{Event}
use grpc_tap.Broker.World
use grpc_tap.Broker.World.{World}
use grpc_tap.Broker.Delivery.{waiting}
use grpc_tap.Broker.Drain.{drain_buffer}
use grpc_tap.Server.{event_to_proto}
use grpc_tap.Server.Watch.{watch, watching, received, watch-delivered}
use grpc_tap.Tui.TapEvent.{TapEvent}
use grpc_tap.Tui.Model.{Model, Machine}
use grpc_tap.Tui.Model.ListKeys.{LastRune}
use grpc_tap.Daemon.Flow.{
  Flow, Move, pumps, ends, opens, takes, start, in_world, move, flow, captured,
}
use grpc_tap.Daemon.Flow.Laws.{IsLive}
use grpc_tap.Daemon.Flow.Delivery.{StaysIn, flow-order}
use grpc_tap.Daemon.Flow.End.{flow_complete}
use grpc_tap.Pipeline.{Shows, update_all-Shows}

-- Receives of one subscriber are steps of the broker's world alone.
takes-in_world :
    {E : Type 0} (i : ℕ) (f : Flow E) (w : World E)
    → World.step (World.receives i) f.world ≡ some w
    → move (takes i) f ≡ some (record f { world = w })
unfolding move in_world
takes-in_world i f w e = rw (move, in_world, e) refl

flow-takes :
    {E : Type 0} (i n : ℕ) (f : Flow E) (w : World E)
    → World.run (replicate n (World.receives i)) f.world ≡ some w
    → flow (replicate n (takes i)) f ≡ some (record f { world = w })
unfolding flow World.run
flow-takes i zero f w e = let s : w ≡ f.world = cc in rw s refl
flow-takes {E} i (suc n) f w e = elim (Option-cases (World.step (World.receives i) f.world)) [
  | inl z ↦
      let stuck : World.run (replicate (suc n) (World.receives i)) f.world ≡ none =
        rw (World.run, z) refl in
      cc
  | inr (w1, z) ↦
      let rest : World.run (replicate (suc n) (World.receives i)) f.world
          ≡ World.run (replicate n (World.receives i)) w1 =
        rw (World.run, z) refl in
      let f1 : Flow E = record f { world = w1 } in
      rw (flow, takes-in_world i f w1 z) (flow-takes i n f1 w (sym rest ∙ e))
]

-- All that was captured is received by a subscriber that is there from the start and stays.
pub flow_received :
    {E : Type 0} (moves : List (Move E))
    → All IsLive moves
    → All (StaysIn 0) moves
    → length (captured moves) ≤ 256
    → (f : Flow E) × (f' : Flow E) × (f'' : Flow E) × (flow (opens ∷ moves) start ≡ some f)
      × (flow (ends ∷ replicate (length f.events.buf) pumps) f ≡ some f')
      × (flow (replicate (length (waiting 0 f'.world)) (takes 0)) f' ≡ some f'')
      × (f''.world.got 0 ≡ captured moves)
flow_received moves live stay few =
    let (f, f', r, r', _, all, _) = flow_complete moves live stay in
    let (w, d, g, _, _) = drain_buffer 0 (waiting 0 f'.world) f'.world refl in
    (
      f,
      f',
      record f' { world = w },
      r,
      r',
      flow-takes 0 (length (waiting 0 f'.world)) f' w d,
      elim all [ inl e ↦ g ∙ e | inr l ↦ absurd (omega arith) ],
    )

module _ (k : Machine) (lower_empty : k.to_lower [] ≡ []) (last_rune : LastRune)
    (lines : TapEvent → List Bytes) (target : Bytes) where
  -- From the proxy to the screen, until the proxy ends: in whatever order the calls, the loop of the
  -- daemon and the subscribers run, nothing panics, and a TUI that is started and reads the Watch
  -- stream of a subscriber, whose sends succeed, holds the events that the subscriber has received,
  -- converted, shows each of them in its list, and they are a subsequence of the events that the
  -- proxy captured. It is assumed that the empty text is its own lower case.
  pub flow-Shows :
      (moves : List (Move Event)) (i : ℕ)
      → All IsLive moves
      → (f : Flow Event) × (m : Model) × (flow moves start ≡ some f)
        × (watch (map (λ ev. received ev none) (f.world.got i))
            ≡ (map event_to_proto (f.world.got i), watching))
        × Shows k lower_empty last_rune lines target (f.world.got i) m
        × Sublist (f.world.got i) (captured moves)
  flow-Shows moves i live =
      let (f, r, order) = flow-order moves i live in
      let (m, shown) = update_all-Shows k lower_empty last_rune lines target (f.world.got i) in
      (
        f,
        m,
        r,
        watch-delivered (f.world.got i),
        shown,
        Sublist.trans (sublist-append_left (f.world.got i) (waiting i f.world)) order,
      )

  -- Every call that the proxy captures reaches the screen: if a subscriber is there from the start
  -- and stays, and the proxy captures at most 256 events before it ends, then, once the loop of the
  -- daemon has handed on what is left and the subscriber has received what waits for it, a TUI that
  -- is started and gets what the subscriber received shows all that was captured, in its order. It
  -- is assumed that the empty text is its own lower case.
  pub flow_complete-Shows :
      (moves : List (Move Event))
      → All IsLive moves
      → All (StaysIn 0) moves
      → length (captured moves) ≤ 256
      → (f : Flow Event) × (f' : Flow Event) × (f'' : Flow Event) × (m : Model) × (flow
            (opens ∷ moves)
            start
          ≡ some f)
        × (flow (ends ∷ replicate (length f.events.buf) pumps) f ≡ some f')
        × (flow (replicate (length (waiting 0 f'.world)) (takes 0)) f' ≡ some f'')
        × (f''.world.got 0 ≡ captured moves)
        × Shows k lower_empty last_rune lines target (captured moves) m
  flow_complete-Shows moves live stay few =
      let (f, f', f'', r, r', r'', got) = flow_received moves live stay few in
      let (m, shown) = update_all-Shows k lower_empty last_rune lines target (captured moves) in
      (f, f', f'', m, r, r', r'', got, shown)
