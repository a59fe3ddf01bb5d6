-- ===== src/Chan.antt =====
-- Go channels with a buffer, as the program uses them: a send that does not block (`select` with a
-- `default` branch), `close`, and a receive. `none` is the runtime panic. A buffered channel of
-- capacity 0, which hands a value over only to a receiver that waits, is not used by the program.
use grpc_tap.Prelude.{
  ℕ, ◌≤◌, ◌≡◌, refl, Option, none, some, List, [], ◌∷◌, ◌++◌, Bool, true, false, ltb, if◌then◌else◌,
  length, arith, length-append, ◌⊎◌, inl, inr, Bool-cases,
}

pub record Chan (A : Type 0) : Type 0 where
  pub buf : List A
  pub cap : ℕ
  pub closed : Bool

-- What a receiver finds: a value, the end of a closed and drained channel, or nothing yet.
pub data Received (A : Type 0) : Type 0 where
  value : A → Chan A → Received A
  ended : Received A
  blocked : Received A

module _ {A : Type 0} where
  unfoldable pub make : ℕ → Chan A
  make n = record { buf = []; cap = n; closed = false }

  -- What `select { case ch <- a: default: }` leaves in an open channel: a full buffer drops `a`.
  unfoldable pub offer : A → Chan A → Chan A
  offer a ch = if ltb (length ch.buf) ch.cap then record ch { buf = ch.buf ++ (a ∷ []) } else ch

  -- A send on a closed channel panics, also under `select`.
  unfoldable pub try_send : A → Chan A → Option (Chan A)
  unfolding offer
  try_send a ch = if ch.closed then none else some (offer a ch)

  pub try_send-open : (a : A) (ch : Chan A) → ch.closed ≡ false → try_send a ch ≡ some (offer a ch)
  unfolding try_send
  try_send-open a ch e = rw e

  -- Closing a closed channel panics.
  unfoldable pub close : Chan A → Option (Chan A)
  close ch = if ch.closed then none else some (record ch { closed = true })

  unfoldable pub receive : Chan A → Received A
  receive ch = elim ch.buf [
    | [] ↦ if ch.closed then ended else blocked
    | a ∷ rest ↦ value a (record ch { buf = rest })
  ]

  -- The buffer never outgrows the capacity.
  pub offer_bounded :
      (a : A) (ch : Chan A) → length ch.buf ≤ ch.cap → length (offer a ch).buf ≤ (offer a ch).cap
  unfolding offer
  offer_bounded a ch h = ground (arith, length-append ch.buf (a ∷ []))

  pub receive-cases :
      (ch : Chan A)
      → ((a : A) × (rest : List A) × (ch.buf ≡ a ∷ rest)
          × (receive ch ≡ value a (record ch { buf = rest })))
        ⊎ (receive ch ≡ ended)
        ⊎ (receive ch ≡ blocked)
  receive-cases ch = split ch.buf refl
    where
      split :
          (l : List A)
          → ch.buf ≡ l
          → ((a : A) × (rest : List A) × (ch.buf ≡ a ∷ rest)
              × (receive ch ≡ value a (record ch { buf = rest })))
            ⊎ (receive ch ≡ ended)
            ⊎ (receive ch ≡ blocked)
      split (a ∷ rest) e = inl (a, rest, e, unfold receive in rw e)
      split [] e = elim (Bool-cases ch.closed) [
        | inl c ↦ inr (inl (unfold receive in rw (e, c)))
        | inr c ↦ inr (inr (unfold receive in rw (e, c)))
      ]
