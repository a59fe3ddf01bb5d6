-- ===== src/Broker/Unsubscribe.antt =====
-- broker/broker.go: the function that Subscribe returns.
use grpc_tap.Prelude.{
  ℕ, ◌≡◌, refl, sym, ap, ◌∙◌, inl, inr, some, List, true, false, ◌==◌, get_elem?, set, arith,
  length-set, All-set, get_elem?-lt, get_elem?-set_ne, get_elem?-set_self, All-get_elem?,
  Bool-cases, ==_iff, subst,
}
use grpc_tap.Chan.{Chan, close}
use grpc_tap.Broker.{Broker, has_key, delete, unsubscribe}
use grpc_tap.Broker.Inv.{
  IsBounded, IsValid, AreLive-delete, AreLive-IsOpen, at_chan-some, delete-absent, has_key-delete,
}

module _ {E : Type 0} where
  close-open : (ch : Chan E) → ch.closed ≡ false → close ch ≡ some (record ch { closed = true })
  unfolding close
  close-open ch o = ground arith

  -- The channels hold what they held.
  abbrev pub SameBufs : List (Chan E) → List (Chan E) → Type 0
  SameBufs chans chans' =
      (j : ℕ) (c' : Chan E)
      → get_elem? chans' j ≡ some c'
      → (c : Chan E) × (get_elem? chans j ≡ some c) × (c'.buf ≡ c.buf)

  pub SameBufs-set :
      (chans : List (Chan E)) (i : ℕ) (ch ch' : Chan E)
      → get_elem? chans i ≡ some ch
      → ch'.buf ≡ ch.buf
      → SameBufs chans (set chans i ch')
  SameBufs-set chans i ch ch' e same j c' r = elim (Bool-cases (i == j)) [
    | inl h ↦
        let at_i : get_elem? (set chans i ch') j ≡ some ch' =
          subst (λ k. get_elem? (set chans i ch') k ≡ some ch') ((==_iff i j).0 h)
            (get_elem?-set_self chans i ch' (get_elem?-lt chans i e)) in
        (ch, subst (λ k. get_elem? chans k ≡ some ch) ((==_iff i j).0 h) e, cc)
    | inr h ↦ (c', sym (get_elem?-set_ne chans i j ch' (ground arith)) ∙ r, refl)
  ]

  -- The function that `Subscribe` returned for key `i` does not panic on a valid broker. It takes
  -- the key out of the map, leaves every channel what it holds, and keeps the broker valid.
  pub unsubscribe-IsValid :
      (b : Broker E) (i : ℕ)
      → IsValid b
      → (b' : Broker E) × (unsubscribe (i, i) b ≡ some b')
        × IsValid b'
        × (b' ≡ record b { subscribers = delete i b.subscribers; chans = b'.chans })
        × SameBufs b.chans b'.chans
  unfolding unsubscribe
  unsubscribe-IsValid b i v = elim (Bool-cases (has_key i b.subscribers)) [
    | inl k ↦
        let (ch, e, o) = AreLive-IsOpen b.chans i b.subscribers v.live k in
        let ch' : Chan E = record ch { closed = true } in
        (
          record b { subscribers = delete i b.subscribers; chans = set b.chans i ch' },
          rw (k, at_chan-some i close b.chans ch ch' e (close-open ch o)),
          record {
            allocated = length-set b.chans i ch' ∙ v.allocated;
            live = AreLive-delete b.chans i ch' b.subscribers v.live;
            bounded =
                All-set (IsBounded b.buf_size) b.chans i ch' v.bounded
                  (All-get_elem? (IsBounded b.buf_size) b.chans i v.bounded e);
          },
          refl,
          SameBufs-set b.chans i ch ch' e refl,
        )
    | inr k ↦ (
      b,
      rw k,
      v,
      λ t. record b { subscribers = delete-absent i b.subscribers k t },
      λ j c' r. (c', r, refl),
    )
  ]

  unsubscribe_twice :
      (b b' : Broker E) (i : ℕ)
      → unsubscribe (i, i) b ≡ some b'
      → (unsubscribe (i, i) b' ≡ some b') × (has_key i b'.subscribers ≡ false)
  unfolding unsubscribe
  unsubscribe_twice b b' i e =
      let gone : has_key i b'.subscribers ≡ false =
        ground (arith, has_key-delete i i b.subscribers) in
      (rw gone, gone)

  -- The function that `Subscribe` returned for key `i` does not panic on a valid broker and keeps it
  -- valid: it takes the key out of the map. It can be called twice: the second call changes nothing.
  pub unsubscribe-idempotent :
      (b : Broker E) (i : ℕ)
      → IsValid b
      → (b' : Broker E) × (unsubscribe (i, i) b ≡ some b')
        × IsValid b'
        × (b'.subscribers ≡ delete i b.subscribers)
        × (has_key i b'.subscribers ≡ false)
        × (unsubscribe (i, i) b' ≡ some b')
  unsubscribe-idempotent b i v =
      let (b', e, v', same, _) = unsubscribe-IsValid b i v in
      let (again, gone) = unsubscribe_twice b b' i e in
      (b', e, v', ap (λ x. x.subscribers) same, gone, again)
