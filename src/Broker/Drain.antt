-- ===== src/Broker/Drain.antt =====
-- broker/broker.go: a subscriber that receives until its buffer is empty.
use grpc_tap.Prelude.{
  ℕ, ◌<◌, ◌≡◌, refl, sym, ap, ◌∙◌, ◌⊎◌, inl, inr, Option, some, List, [], ◌∷◌, ◌++◌, true, ◌==◌,
  length, get_elem?, set, replicate, arith, append_assoc, append-nil, get_elem?-lt,
  get_elem?-set_self, Option-cases,
}
use grpc_tap.Chan.{Chan, receive}
use grpc_tap.Broker.World.{Action, receives, World, start, note_at, took, step, run}
use grpc_tap.Broker.Delivery.{waiting, run-delivers}

module _ {E : Type 0} where
  -- Receiving as often as there are events in the buffer.
  abbrev pub drain : ℕ → World E → Option (World E)
  drain i w = run (replicate (length (waiting i w)) (receives i)) w

  -- The world after one receive of a waiting event.
  receive-waiting :
      (i : ℕ) (w : World E) (a : E) (rest : List E)
      → waiting i w ≡ a ∷ rest
      → (w' : World E) × (step (receives i) w ≡ some w')
        × (w'.got i ≡ w.got i ++ (a ∷ []))
        × (waiting i w' ≡ rest)
        × (w'.offered ≡ w.offered)
  unfolding step took receive
  receive-waiting i w a rest e = elim (Option-cases (get_elem? w.broker.chans i)) [
    | inl z ↦ let empty : [] ≡ a ∷ rest = sym (rw (waiting, z) refl) ∙ e in cc
    | inr (ch, z) ↦
        let full : ch.buf ≡ a ∷ rest = sym (rw (waiting, z) refl) ∙ e in
        let same : (i == i) ≡ true = ground arith in
        let chans = w.broker.chans in
        let ch' : Chan E = record ch { buf = rest } in
        (
          record w {
            broker = record (w.broker) { chans = set chans i ch' };
            got = note_at i a w.got;
          },
          rw (step, z, receive, full) refl,
          rw same refl,
          rw (waiting, get_elem?-set_self chans i ch' (get_elem?-lt chans i z)) refl,
          refl,
        )
  ]

  run-cons :
      (act : Action E) (acts : List (Action E)) (w w' : World E)
      → step act w ≡ some w'
      → run (act ∷ acts) w ≡ run acts w'
  unfolding run
  run-cons act acts w w' e = rw (run, e) refl

  pub drain_buffer :
      (i : ℕ) (buf : List E) (w : World E)
      → waiting i w ≡ buf
      → (w' : World E) × (run (replicate (length buf) (receives i)) w ≡ some w')
        × (w'.got i ≡ w.got i ++ buf)
        × (waiting i w' ≡ [])
        × (w'.offered ≡ w.offered)
  unfolding run
  drain_buffer i [] w e = (w, refl, sym (append-nil (w.got i)), e, refl)
  drain_buffer i (a ∷ buf) w e =
      let (w1, s, g, b, o) = receive-waiting i w a buf e in
      let (w', r, g', b', o') = drain_buffer i buf w1 b in
      (
        w',
        run-cons (receives i) (replicate (length buf) (receives i)) w w1 s ∙ r,
        g' ∙ ap (λ xs. xs ++ buf) g ∙ append_assoc (w.got i) (a ∷ []) buf,
        b',
        o' ∙ o,
      )

  -- Nothing that is in a subscriber's buffer is lost: after any calls and receives, as many receives
  -- as there are events in the buffer all find one, leave the buffer empty, and give the
  -- subscriber these events in their order; it has then received all that was published while it
  -- was subscribed, unless that was more than the buffer holds.
  pub drain-got :
      (n : ℕ) (acts : List (Action E)) (i : ℕ)
      → (w : World E) × (w' : World E) × (run acts (start n) ≡ some w)
        × (drain i w ≡ some w')
        × (w'.got i ≡ w.got i ++ waiting i w)
        × (waiting i w' ≡ [])
        × ((w'.got i ≡ w'.offered i) ⊎ (n < length (w'.offered i)))
  drain-got n acts i =
      let (w, r, _, _, all) = run-delivers n acts i in
      let (w', d, g, b, o) = drain_buffer i (waiting i w) w refl in
      let same : w'.offered i ≡ w.offered i = ap (λ f. f i) o in
      (w, w', r, d, g, b, elim all [ inl e ↦ inl (g ∙ e ∙ sym same) | inr l ↦ inr (rw same l) ])
