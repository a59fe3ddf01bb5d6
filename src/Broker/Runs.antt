-- ===== src/Broker/Runs.antt =====
-- Concrete runs of the broker, and its theorems at concrete inputs.
use mathlib.Core.List.{Sublist}
use grpc_tap.Prelude.{ℕ, ◌<◌, ◌≡◌, ◌⊎◌, some, List, [], ◌∷◌, ◌++◌, length}
use grpc_tap.Broker.{Broker, new, subscribe, publish}
use grpc_tap.Broker.Inv.{IsValid, new-IsValid, subscribe-IsValid}
use grpc_tap.Broker.Publish.{Published, publish-Published}
use grpc_tap.Broker.World.{Action, subscribes, unsubscribes, publishes, receives, World, start, run}
use grpc_tap.Broker.Delivery.{waiting, run-delivers}

abbrev two_subscribers : Broker ℕ
two_subscribers = (subscribe (subscribe (new 1)).0).0

two_subscribers-IsValid : IsValid two_subscribers
two_subscribers-IsValid = subscribe-IsValid _ (subscribe-IsValid _ (new-IsValid 1))

-- Two subscribers, of which the second leaves; a buffer of one event that is read once.
abbrev one_leaves : List (Action ℕ)
one_leaves =
    subscribes
    ∷ subscribes
    ∷ publishes 7
    ∷ unsubscribes 1
    ∷ receives 0
    ∷ publishes 8
    ∷ publishes 9
    ∷ unsubscribes 1
    ∷ []

publish-Published_example :
    (b' : Broker ℕ) × (publish 7 two_subscribers ≡ some b')
    × IsValid b'
    × (b' ≡ record two_subscribers { chans = b'.chans })
    × Published 7 two_subscribers.subscribers two_subscribers.chans b'.chans
publish-Published_example = publish-Published 7 two_subscribers two_subscribers-IsValid

run-delivers_example :
    (w : World ℕ) × (run one_leaves (start 1) ≡ some w)
    × IsValid w.broker
    × Sublist (w.got 0 ++ waiting 0 w) (w.offered 0)
    × ((w.got 0 ++ waiting 0 w ≡ w.offered 0) ⊎ (1 < length (w.offered 0)))
run-delivers_example = run-delivers 1 one_leaves 0
