-- ===== src/Broker/Steps.antt =====
-- broker/broker.go: one call or receive, and what the world records of each subscriber.
use grpc_tap.Prelude.{
  ℕ, ◌≤◌, ◌≡◌, refl, sym, ap, ◌∙◌, inl, inr, some, List, [], ◌∷◌, ◌++◌, true, false, ◌==◌,
  if◌then◌else◌, length, get_elem?, set, arith, length-set, All-set, get_elem?-lt, get_elem?-set_ne,
  get_elem?-append_left, get_elem?-append_last, get_elem?-set_self, All-get_elem?, Bool-cases,
  ==_iff, subst, Option-cases,
}
use native.Mathlib.Decide.{dec_lt}
use mathlib.Core.List.Sublist
use mathlib.Core.Option
use grpc_tap.Chan.{Chan, make, offer, receive-cases}
use grpc_tap.Broker.{has_key, subscribe}
use grpc_tap.Broker.Inv.{
  IsOpen, IsBounded, IsValid, subscribe-IsValid, AreLive-mono, IsFresh-above, has_key-IsFresh,
}
use grpc_tap.Broker.Unsubscribe.{unsubscribe-IsValid}
use grpc_tap.Broker.Publish.{publish-Published}
use grpc_tap.Broker.World.{
  Action, subscribes, unsubscribes, publishes, receives, World, note_at, took, step, Delivers,
  offer-Delivers, receive-Delivers,
}

module _ {E : Type 0} where
  -- `unborn`: before a subscriber comes there is no record of it.
  pub record Inv (n : ℕ) (w : World E) : Type 0 where
    pub valid : IsValid w.broker
    pub size : w.broker.buf_size ≡ n
    pub delivers :
        (i : ℕ) (ch : Chan E)
        → get_elem? w.broker.chans i ≡ some ch
        → Delivers n (w.got i ++ ch.buf) (w.offered i)
    pub unborn : (i : ℕ) → w.broker.next_id ≤ i → (w.got i ≡ []) × (w.offered i ≡ [])

  -- The action does not panic, and leads to a world with the invariant.
  abbrev pub Goes : ℕ → Action E → World E → Type 0
  Goes n a w = (w' : World E) × (step a w ≡ some w') × Inv n w'

  subscribe-Goes : (n : ℕ) (w : World E) → Inv n w → Goes n subscribes w
  unfolding step subscribe
  subscribe-Goes n w v = (
    record w { broker = (subscribe w.broker).0 },
    refl,
    record {
      valid = subscribe-IsValid w.broker v.valid;
      size = v.size;
      delivers = after;
      unborn = λ i h. v.unborn i (omega arith);
    },
  )
    where
      after :
          (i : ℕ) (ch : Chan E)
          → get_elem? (w.broker.chans ++ (make w.broker.buf_size ∷ [])) i ≡ some ch
          → Delivers n (w.got i ++ ch.buf) (w.offered i)
      after i ch e = elim (dec_lt i (length w.broker.chans)) [
        | yes h ↦ v.delivers i ch (sym (get_elem?-append_left w.broker.chans _ i h) ∙ e)
        | no h ↦
            let fresh : ch ≡ make w.broker.buf_size =
              get_elem?-append_last w.broker.chans _ i (omega arith) e in
            let (g, o) = v.unborn i (omega (arith, v.valid.allocated)) in
            rw (g, o, fresh)
              (unfold make in record { in_order = Sublist.refl []; lossless = λ _. refl })
      ]

  unsubscribe-Goes : (n i : ℕ) (w : World E) → Inv n w → Goes n (unsubscribes i) w
  unfolding step
  unsubscribe-Goes n i w v =
      let (b', r, valid, eq, same) = unsubscribe-IsValid w.broker i v.valid in
      (
        record w { broker = b' },
        rw (r, step),
        record {
          valid = valid;
          size = ap (λ b. b.buf_size) eq ∙ v.size;
          delivers = λ j c' e. let (c, ec, buf) = same j c' e in rw buf (v.delivers j c ec);
          unborn = λ j h. v.unborn j (omega (arith, ap (λ b. b.next_id) eq));
        },
      )

  publish-Goes : (n : ℕ) (ev : E) (w : World E) → Inv n w → Goes n (publishes ev) w
  unfolding step
  publish-Goes n ev w v =
      let (b', r, valid, eq, p) = publish-Published ev w.broker v.valid in
      (
        record w {
          broker = b';
          offered =
              λ i. if has_key i w.broker.subscribers then w.offered i ++ (ev ∷ []) else w.offered i;
        },
        rw (r, step),
        record {
          valid = valid;
          size = ap (λ b. b.buf_size) eq ∙ v.size;
          delivers = λ i c e. after i c (sym (p i) ∙ e);
          unborn = λ i h. before i (omega (arith, ap (λ b. b.next_id) eq));
        },
      )
    where
      subs : List (ℕ × ℕ)
      subs = w.broker.subscribers

      before :
          (i : ℕ)
          → w.broker.next_id ≤ i
          → (w.got i ≡ [])
            × ((if has_key i subs then w.offered i ++ (ev ∷ []) else w.offered i) ≡ [])
      before i h =
          let gone : has_key i subs ≡ false =
            has_key-IsFresh i subs (
              IsFresh-above w.broker.chans i subs (omega (arith, v.valid.allocated))
                v.valid.live) in
          rw gone (v.unborn i h)

      after :
          (i : ℕ) (c : Chan E)
          → (if has_key i subs
              then Option.map (offer ev) (get_elem? w.broker.chans i)
              else get_elem? w.broker.chans i)
            ≡ some c
          → Delivers n
              (w.got i ++ c.buf)
              (if has_key i subs then w.offered i ++ (ev ∷ []) else w.offered i)
      after i c e = elim (Bool-cases (has_key i subs)) [
        | inl k ↦ rw k (heard i c (rw k at e))
        | inr k ↦ rw k (v.delivers i c (rw k at e))
      ]
        where
          heard :
              (i : ℕ) (c : Chan E)
              → Option.map (offer ev) (get_elem? w.broker.chans i) ≡ some c
              → Delivers n (w.got i ++ c.buf) (w.offered i ++ (ev ∷ []))
          heard i c e = elim (Option-cases (get_elem? w.broker.chans i)) [
            | inl z ↦ cc
            | inr (ch, z) ↦
                let same : c ≡ offer ev ch = cc in
                rw same (
                  offer-Delivers n (w.got i) (w.offered i) ev ch
                    (subst (λ k. IsBounded k ch) v.size
                      (All-get_elem? (IsBounded w.broker.buf_size) w.broker.chans i v.valid.bounded
                        z))
                    (v.delivers i ch z))
          ]

  -- The world after subscriber `i` has taken `a` from the front of its buffer.
  abbrev taken : ℕ → E → Chan E → World E → World E
  taken i a ch' w = record w {
    broker = record (w.broker) { chans = set w.broker.chans i ch' };
    got = note_at i a w.got;
  }

  taken-Inv :
      (n i : ℕ) (w : World E) (a : E) (rest : List E) (ch : Chan E)
      → Inv n w
      → get_elem? w.broker.chans i ≡ some ch
      → ch.buf ≡ a ∷ rest
      → Inv n (taken i a (record ch { buf = rest }) w)
  taken-Inv n i w a rest ch v z buf = record {
    valid = record {
      allocated = length-set w.broker.chans i ch' ∙ v.valid.allocated;
      live = AreLive-mono w.broker.chans (set w.broker.chans i ch') _ still_open v.valid.live;
      bounded =
          let (cap, len) =
            All-get_elem? (IsBounded w.broker.buf_size) w.broker.chans i v.valid.bounded z in
          All-set (IsBounded w.broker.buf_size) w.broker.chans i ch' v.valid.bounded
            (cap, omega (arith, ap length buf));
    };
    size = v.size;
    delivers = after;
    unborn = λ j h.
        let other : (i == j) ≡ false =
          ground (arith, get_elem?-lt w.broker.chans i z, v.valid.allocated) in
        rw other (v.unborn j h);
  }
    where
      ch' : Chan E
      ch' = record ch { buf = rest }

      at_i : (j : ℕ) → (i == j) ≡ true → get_elem? (set w.broker.chans i ch') j ≡ some ch'
      at_i j h =
          subst (λ k. get_elem? (set w.broker.chans i ch') k ≡ some ch') ((==_iff i j).0 h)
            (get_elem?-set_self w.broker.chans i ch' (get_elem?-lt w.broker.chans i z))

      was_i : (j : ℕ) → (i == j) ≡ true → get_elem? w.broker.chans j ≡ some ch
      was_i j h = subst (λ k. get_elem? w.broker.chans k ≡ some ch) ((==_iff i j).0 h) z

      still_open : (j : ℕ) → IsOpen w.broker.chans j → IsOpen (set w.broker.chans i ch') j
      still_open j (c, e, o) = elim (Bool-cases (i == j)) [
        | inl h ↦ (ch', at_i j h, cc (was_i j h))
        | inr h ↦ (c, get_elem?-set_ne w.broker.chans i j ch' (ground arith) ∙ e, o)
      ]

      after :
          (j : ℕ) (c : Chan E)
          → get_elem? (set w.broker.chans i ch') j ≡ some c
          → Delivers n (note_at i a w.got j ++ c.buf) (w.offered j)
      after j c e = elim (Bool-cases (i == j)) [
        | inl h ↦
            let same : c ≡ ch' = cc (at_i j h) in
            let before : Delivers n (w.got j ++ (a ∷ rest)) (w.offered j) =
              rw buf at (v.delivers j ch (was_i j h)) in
            rw (h, same) (receive-Delivers n (w.got j) rest (w.offered j) a before)
        | inr h ↦
            rw h (v.delivers j c (sym (get_elem?-set_ne w.broker.chans i j ch' (ground arith)) ∙ e))
      ]

  receive-Goes : (n i : ℕ) (w : World E) → Inv n w → Goes n (receives i) w
  unfolding step took
  receive-Goes n i w v = elim (Option-cases (get_elem? w.broker.chans i)) [
    | inl z ↦ (w, rw (z, step), v)
    | inr (ch, z) ↦ elim (receive-cases ch) [
      | inl (a, rest, buf, r) ↦ (
        taken i a (record ch { buf = rest }) w,
        rw (z, step, r),
        taken-Inv n i w a rest ch v z buf,
      )
      | inr (inl r) ↦ (w, rw (z, step, r), v)
      | inr (inr r) ↦ (w, rw (z, step, r), v)
    ]
  ]

  pub step-Goes : (n : ℕ) (a : Action E) (w : World E) → Inv n w → Goes n a w
  step-Goes n subscribes w v = subscribe-Goes n w v
  step-Goes n (unsubscribes i) w v = unsubscribe-Goes n i w v
  step-Goes n (publishes ev) w v = publish-Goes n ev w v
  step-Goes n (receives i) w v = receive-Goes n i w v
