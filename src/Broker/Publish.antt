-- ===== src/Broker/Publish.antt =====
-- What `Publish` does to each channel, whatever the order in which the range loop visits them.
use mathlib.Core.Option
use grpc_tap.Prelude.{
  ℕ, ◌≡◌, refl, ◌∙◌, inl, inr, some, List, [], ◌∷◌, false, ◌==◌, if◌then◌else◌, length, get_elem?,
  set, All, arith, length-set, All-set, get_elem?-lt, get_elem?-set_ne, get_elem?-set_self,
  All-get_elem?, Bool-cases, ==_iff, subst,
}
use grpc_tap.Chan.{Chan, try_send, offer, offer_bounded}
use grpc_tap.Broker.{Broker, has_key, at_chan, publish_loop, publish}
use grpc_tap.Broker.Inv.{
  IsOpen, IsFresh, AreLive, IsBounded, IsValid, AreLive-set, AreLive-mono, at_chan-some,
  has_key-IsFresh,
}

module _ {E : Type 0} (ev : E) where
  try_send-open : (ch : Chan E) → ch.closed ≡ false → try_send ev ch ≡ some (offer ev ch)
  unfolding try_send
  try_send-open ch o = rw o

  offer-closed : (ch : Chan E) → (offer ev ch).closed ≡ ch.closed
  unfolding offer
  offer-closed ch = ground arith

  offer-IsBounded : (n : ℕ) (ch : Chan E) → IsBounded n ch → IsBounded n (offer ev ch)
  offer-IsBounded n ch h =
      (cap_same ∙ h.0, omega (arith, offer_bounded ev ch (omega arith), cap_same, h))
    where
      cap_same : (offer ev ch).cap ≡ ch.cap
      cap_same = unfold offer in ground arith

  -- What the subscribed channels hold afterwards; the others are as before.
  abbrev pub Published : List (ℕ × ℕ) → List (Chan E) → List (Chan E) → Type 0
  Published m chans chans' =
      (i : ℕ)
      → get_elem? chans' i
        ≡ (if has_key i m then Option.map (offer ev) (get_elem? chans i) else get_elem? chans i)

  Published-cons :
      (id : ℕ) (m : List (ℕ × ℕ)) (chans chans' : List (Chan E)) (ch : Chan E)
      → get_elem? chans id ≡ some ch
      → IsFresh id m
      → Published m (set chans id (offer ev ch)) chans'
      → Published ((id, id) ∷ m) chans chans'
  unfolding has_key
  Published-cons id m chans chans' ch e f p i = elim (Bool-cases (id == i)) [
    | inl h ↦
        let kept : get_elem? chans' id ≡ get_elem? (set chans id (offer ev ch)) id =
          rw (has_key-IsFresh id m f) at (p id) in
        let here : get_elem? chans' id ≡ Option.map (offer ev) (get_elem? chans id) =
          kept ∙ get_elem?-set_self chans id (offer ev ch) (get_elem?-lt chans id e) ∙ rw e refl in
        rw h (
          subst (λ j. get_elem? chans' j ≡ Option.map (offer ev) (get_elem? chans j))
            ((==_iff id i).0 h) here)
    | inr h ↦ rw (h, p i, get_elem?-set_ne chans id i (offer ev ch) (ground arith))
  ]

  publish_loop-cons :
      (id : ℕ) (m : List (ℕ × ℕ)) (chans chans1 : List (Chan E))
      → at_chan id (try_send ev) chans ≡ some chans1
      → publish_loop ev ((id, id) ∷ m) chans ≡ publish_loop ev m chans1
  unfolding publish_loop
  publish_loop-cons id m chans chans1 e = rw (e, publish_loop)

  publish_loop-Published :
      (n : ℕ) (m : List (ℕ × ℕ)) (chans : List (Chan E))
      → AreLive chans m
      → All (IsBounded n) chans
      → (chans' : List (Chan E)) × (publish_loop ev m chans ≡ some chans')
        × (length chans' ≡ length chans)
        × All (IsBounded n) chans'
        × Published m chans chans'
  unfolding publish_loop
  publish_loop-Published n [] chans h b = (chans, refl, refl, b, λ i. unfold has_key in refl)
  publish_loop-Published n ((id, ref) ∷ m) chans (same, (ch, e, o), f, h) b =
      let chans1 = set chans id (offer ev ch) in
      let (chans', r, l, b', p) =
        publish_loop-Published n m chans1 (AreLive-set chans id (offer ev ch) m f h) (
          All-set (IsBounded n) chans id (offer ev ch) b
            (offer-IsBounded n ch (All-get_elem? (IsBounded n) chans id b e))) in
      (
        chans',
        rw same (
            publish_loop-cons id m chans chans1
              (at_chan-some id (try_send ev) chans ch (offer ev ch) e (try_send-open ch o))
            ∙ r),
        l ∙ length-set chans id (offer ev ch),
        b',
        rw same (Published-cons id m chans chans' ch e f p),
      )

  IsOpen-Published :
      (subs : List (ℕ × ℕ)) (chans chans' : List (Chan E))
      → Published subs chans chans'
      → (i : ℕ) → IsOpen chans i
      → IsOpen chans' i
  IsOpen-Published subs chans chans' p i (ch, e, o) = elim (Bool-cases (has_key i subs)) [
    | inl k ↦ (offer ev ch, p i ∙ rw (k, e), offer-closed ch ∙ o)
    | inr k ↦ (ch, p i ∙ rw k e, o)
  ]

  -- On a valid broker `Publish` does not panic: it offers the event to the channel of every
  -- subscriber once, leaves every other channel and the map alone, and keeps the broker valid.
  pub publish-Published :
      (b : Broker E)
      → IsValid b
      → (b' : Broker E) × (publish ev b ≡ some b')
        × IsValid b'
        × (b' ≡ record b { chans = b'.chans })
        × Published b.subscribers b.chans b'.chans
  unfolding publish
  publish-Published b v =
      let (chans', r, l, bounded, p) =
        publish_loop-Published b.buf_size b.subscribers b.chans v.live v.bounded in
      (
        record b { chans = chans' },
        rw (r, publish),
        record {
          allocated = l ∙ v.allocated;
          live =
              AreLive-mono b.chans chans' b.subscribers
                (IsOpen-Published b.subscribers b.chans chans' p) v.live;
          bounded = bounded;
        },
        refl,
        p,
      )
