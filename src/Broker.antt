-- ===== src/Broker.antt =====
-- broker/broker.go. Each method holds the mutex from its first to its last line and is modelled as
-- one atomic function of the state. Publish holds it for reading only, so that two calls of Publish
-- could mix their sends; the program publishes from one goroutine. A channel is a place in the heap `chans`, which outlives its entry
-- in the map: a subscriber still reads what is left after it has unsubscribed.
pub mod Inv
pub mod Unsubscribe
pub mod Publish
pub mod World
pub mod Steps
pub mod Delivery
pub mod Drain
mod Runs
use grpc_tap.Prelude.{
  ℕ, suc, ◌+◌, ◌≡◌, Option, none, some, List, [], ◌∷◌, ◌++◌, Bool, true, false, ◌==◌, ◌||◌,
  if◌then◌else◌, length, get_elem?, set,
}
use grpc_tap.Chan.{Chan, make, try_send, close}

-- `subscribers` holds, for each key, the place of its channel, in the order of a range loop.
pub record Broker (E : Type 0) : Type 0 where
  pub subscribers : List (ℕ × ℕ)
  pub next_id : ℕ
  pub buf_size : ℕ
  pub chans : List (Chan E)

unfoldable pub has_key : ℕ → List (ℕ × ℕ) → Bool
has_key k [] = false
has_key k ((id, ref) ∷ m) = id == k || has_key k m

unfoldable pub delete : ℕ → List (ℕ × ℕ) → List (ℕ × ℕ)
delete k [] = []
delete k ((id, ref) ∷ m) = if id == k then delete k m else (id, ref) ∷ delete k m

module _ {E : Type 0} where
  unfoldable pub new : ℕ → Broker E
  new n = record { subscribers = []; next_id = 0; buf_size = n; chans = [] }

  -- The second part is what the unsubscribe function closes over: the key and the channel.
  unfoldable pub subscribe : Broker E → Broker E × (ℕ × ℕ)
  subscribe b =
      let id = b.next_id in
      let ref = length b.chans in
      (
        record b {
          next_id = id + 1;
          chans = b.chans ++ (make b.buf_size ∷ []);
          subscribers = (id, ref) ∷ b.subscribers;
        },
        (id, ref),
      )

  -- Runs an operation of one channel of the heap.
  unfoldable pub at_chan : ℕ → (Chan E → Option (Chan E)) → List (Chan E) → Option (List (Chan E))
  at_chan ref op chans = elim (get_elem? chans ref) [
    | none ↦ none
    | some ch ↦ elim (op ch) [ none ↦ none | some ch' ↦ some (set chans ref ch') ]
  ]

  unfoldable pub unsubscribe : ℕ × ℕ → Broker E → Option (Broker E)
  unsubscribe (id, ref) b =
      if has_key id b.subscribers
      then elim (at_chan ref close b.chans) [
        | none ↦ none
        | some chans' ↦ some (record b { subscribers = delete id b.subscribers; chans = chans' })
      ]
      else some b

  unfoldable pub publish_loop : E → List (ℕ × ℕ) → List (Chan E) → Option (List (Chan E))
  publish_loop ev [] chans = some chans
  publish_loop ev ((id, ref) ∷ m) chans = elim (at_chan ref (try_send ev) chans) [
    | none ↦ none
    | some chans' ↦ publish_loop ev m chans'
  ]

  unfoldable pub publish : E → Broker E → Option (Broker E)
  publish ev b = elim (publish_loop ev b.subscribers b.chans) [
    | none ↦ none
    | some chans' ↦ some (record b { chans = chans' })
  ]

  unfoldable pub subscriber_count : Broker E → ℕ
  subscriber_count b = length b.subscribers
