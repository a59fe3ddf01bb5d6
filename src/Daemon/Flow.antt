-- ===== src/Daemon/Flow.antt =====
-- cmd/grpc-tapd/main.go, run: the goroutines between the proxy and the subscribers. ServeHTTP and
-- Replay of proxy/reverse_proxy.go send to the channel of events, the goroutine of `run` receives
-- from it and publishes, and ListenAndServe closes it. They run in any order.
pub mod Steps
pub mod Laws
pub mod Delivery
pub mod End
use grpc_tap.Prelude.{ℕ, Option, none, some, List, [], ◌∷◌, ◌++◌, replicate}
use grpc_tap.Chan.{Chan, Received, value, ended, blocked, make, receive, try_send, close}
use grpc_tap.Broker.World
use grpc_tap.Broker.World.{World}

-- `events` is what `Events` of the proxy returns. `sent` and `published` only record the history:
-- what was sent to that channel, also where it was full, and what was published.
pub record Flow (E : Type 0) : Type 0 where
  pub events : Chan E
  pub world : World E
  pub sent : List E
  pub published : List E

-- `captures` is a send in ServeHTTP or Replay. Where the channel is full the event is lost, as in
-- Replay; ServeHTTP waits for room instead, so that its send is a later move. `pumps` is a round of
-- the loop over `p.Events()`, `ends` the close in ListenAndServe; the others are calls and receives
-- of the subscribers.
pub data Move (E : Type 0) : Type 0 where
  captures : E → Move E
  pumps : Move E
  ends : Move E
  opens : Move E
  leaves : ℕ → Move E
  takes : ℕ → Move E

-- `broker.New(256)`, and `make(chan Event, 256)` in New of the proxy.
abbrev pub buffer_size : ℕ
buffer_size = 256

module _ {E : Type 0} where
  abbrev pub start : Flow E
  start = record {
    events = make buffer_size;
    world = World.start buffer_size;
    sent = [];
    published = [];
  }

  -- One step of the broker's world.
  unfoldable pub in_world : World.Action E → Flow E → Option (Flow E)
  in_world a f = elim (World.step a f.world) [
    | none ↦ none
    | some w ↦ some (record f { world = w })
  ]

  -- `b.Publish(ev)` in the loop, which waits where nothing has come and is over where the channel is
  -- closed and drained.
  unfoldable pub pump : Received E → Flow E → Option (Flow E)
  pump (value ev ch) f =
      in_world (World.publishes ev) (record f { events = ch; published = f.published ++ (ev ∷ []) })
  pump ended f = some f
  pump blocked f = some f

  -- `none` is a panic.
  unfoldable pub move : Move E → Flow E → Option (Flow E)
  move (captures ev) f = elim (try_send ev f.events) [
    | none ↦ none
    | some ch ↦ some (record f { events = ch; sent = f.sent ++ (ev ∷ []) })
  ]
  move pumps f = pump (receive f.events) f
  move ends f = elim (close f.events) [ none ↦ none | some ch ↦ some (record f { events = ch }) ]
  move opens f = in_world World.subscribes f
  move (leaves i) f = in_world (World.unsubscribes i) f
  move (takes i) f = in_world (World.receives i) f

  unfoldable pub flow : List (Move E) → Flow E → Option (Flow E)
  flow [] f = some f
  flow (m ∷ moves) f = elim (move m f) [ none ↦ none | some f' ↦ flow moves f' ]

  -- What the proxy captures in these moves.
  abbrev pub captured : List (Move E) → List E
  captured [] = []
  captured (captures ev ∷ moves) = ev ∷ captured moves
  captured (pumps ∷ moves) = captured moves
  captured (ends ∷ moves) = captured moves
  captured (opens ∷ moves) = captured moves
  captured (leaves i ∷ moves) = captured moves
  captured (takes i ∷ moves) = captured moves
