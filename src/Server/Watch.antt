-- ===== src/Server/Watch.antt =====
-- server/server.go, Watch: the loop that sends a subscriber's events to the TUI. Each round takes
-- what its `select` chose.
use mathlib.Core.List.{Sublist, sublist-append_left}
use mathlib.Core.List.Sublist
use grpc_tap.Prelude.{ℕ, ◌≡◌, refl, ap, ◌++◌, Option, none, some, List, [], ◌∷◌, map, Bytes, codes}
use grpc_tap.Proxy.Types.{Event}
use grpc_tap.Tui.TapEvent.{TapEvent}
use grpc_tap.Server.{event_to_proto}
use grpc_tap.Broker.World.{Action, World, start, run}
use grpc_tap.Broker.Delivery.{waiting, run-delivers}

-- The context is done, with its error; the channel is closed and drained; or an event is received,
-- and `Send` then has an error or none.
pub data Turn : Type 0 where
  context_done : Bytes → Turn
  channel_closed : Turn
  received : Event → Option Bytes → Turn

-- Where the loop is after the turns: in it, or out of it with the error that `Watch` returns.
pub data Watched : Type 0 where
  watching : Watched
  returned : Option Bytes → Watched

-- What is handed to `Send`, and where the loop is.
unfoldable pub watch : List Turn → List TapEvent × Watched
watch [] = ([], watching)
watch (context_done e ∷ turns) = ([], returned (some (codes "server: watch: " ++ e)))
watch (channel_closed ∷ turns) = ([], returned none)
watch (received ev none ∷ turns) = let (sent, end) = watch turns in (event_to_proto ev ∷ sent, end)
watch (received ev (some e) ∷ turns) =
    (event_to_proto ev ∷ [], returned (some (codes "server: watch send: " ++ e)))

abbrev delivered : Event → Turn
delivered ev = received ev none

pub watch-delivered :
    (evs : List Event) → watch (map delivered evs) ≡ (map event_to_proto evs, watching)
unfolding watch
watch-delivered [] = refl
watch-delivered (ev ∷ evs) = ap (λ r. (event_to_proto ev ∷ r.0, r.1)) (watch-delivered evs)

-- A Watch stream whose sends succeed, while its subscriber has received the events of the broker
-- under any interleaving of calls and receives: no call panics, the loop goes on, and what it has
-- sent is its events converted one by one, which are a subsequence of those that were published
-- while the subscriber was subscribed, in their order.
pub watch-delivers :
    (n : ℕ) (acts : List (Action Event)) (i : ℕ)
    → (w : World Event) × (run acts (start n) ≡ some w)
      × (watch (map (λ ev. received ev none) (w.got i)) ≡ (map event_to_proto (w.got i), watching))
      × Sublist (w.got i) (w.offered i)
watch-delivers n acts i =
    let (w, r, _, order, _) = run-delivers n acts i in
    (
      w,
      r,
      watch-delivered (w.got i),
      Sublist.trans (sublist-append_left (w.got i) (waiting i w)) order,
    )
