-- ===== src/Broker/Inv.antt =====
-- What holds of a broker between two calls.
use grpc_tap.Prelude.{
  ℕ, ◌≤◌, ◌≡◌, refl, sym, ap, ◌∙◌, ◌≢◌, inl, inr, Option, some, List, [], ◌∷◌, ◌++◌, true, false,
  ◌==◌, length, get_elem?, set, All, arith, length-append, All-append, get_elem?-lt,
  get_elem?-set_ne, get_elem?-append_left, get_elem?-append_self, Bool-cases, ==_iff, subst, ◌&&◌,
  not,
}
use grpc_tap.Chan.{Chan, make}
use grpc_tap.Broker.{Broker, has_key, delete, new, subscribe, at_chan}

abbrev pub IsFresh : ℕ → List (ℕ × ℕ) → Type 0
IsFresh k = All (λ e. e.0 ≢ k)

IsFresh-delete : (k i : ℕ) (m : List (ℕ × ℕ)) → IsFresh k m → IsFresh k (delete i m)
unfolding delete
IsFresh-delete k i [] h = tt
IsFresh-delete k i ((id, ref) ∷ m) h = ground (arith, IsFresh-delete k i m h.1)

pub has_key-IsFresh : (k : ℕ) (m : List (ℕ × ℕ)) → IsFresh k m → has_key k m ≡ false
unfolding has_key
has_key-IsFresh k [] h = refl
has_key-IsFresh k ((id, ref) ∷ m) h = ground (arith, has_key-IsFresh k m h.1)

pub has_key-delete :
    (k i : ℕ) (m : List (ℕ × ℕ)) → has_key k (delete i m) ≡ (has_key k m && not (k == i))
unfolding has_key delete
has_key-delete k i [] = refl
has_key-delete k i ((id, ref) ∷ m) = ground (arith, has_key-delete k i m)

pub delete-absent : (i : ℕ) (m : List (ℕ × ℕ)) → has_key i m ≡ false → m ≡ delete i m
unfolding has_key delete
delete-absent i [] h = refl
delete-absent i ((id, ref) ∷ m) h = ground (arith, delete-absent i m)

module _ {E : Type 0} where
  -- The place holds an open channel.
  abbrev pub IsOpen : List (Chan E) → ℕ → Type 0
  IsOpen chans i = (ch : Chan E) × (get_elem? chans i ≡ some ch) × (ch.closed ≡ false)

  -- Each key has a channel of its own, open, which lies at the place that the key names.
  abbrev pub AreLive : List (Chan E) → List (ℕ × ℕ) → Type 0
  AreLive chans [] = Unit {0}
  AreLive chans ((id, ref) ∷ m) = (ref ≡ id) × IsOpen chans id × IsFresh id m × AreLive chans m

  abbrev pub IsBounded : ℕ → Chan E → Type 0
  IsBounded n ch = (ch.cap ≡ n) × (length ch.buf ≤ n)

  pub record IsValid (b : Broker E) : Type 0 where
    pub allocated : length b.chans ≡ b.next_id
    pub live : AreLive b.chans b.subscribers
    pub bounded : All (IsBounded b.buf_size) b.chans

  pub new-IsValid : (n : ℕ) → IsValid (new n)
  unfolding new
  new-IsValid n = record { allocated = refl; live = tt; bounded = tt }

  IsOpen-set :
      (chans : List (Chan E)) (i j : ℕ) (c : Chan E)
      → i ≢ j
      → IsOpen chans j
      → IsOpen (set chans i c) j
  IsOpen-set chans i j c n (ch, e, o) = (ch, get_elem?-set_ne chans i j c n ∙ e, o)

  -- Where open channels stay open, the map stays live.
  pub AreLive-mono :
      (chans chans' : List (Chan E)) (m : List (ℕ × ℕ))
      → ((i : ℕ) → IsOpen chans i → IsOpen chans' i)
      → AreLive chans m
      → AreLive chans' m
  AreLive-mono chans chans' [] p h = tt
  AreLive-mono chans chans' ((id, ref) ∷ m) p h =
      (h.0, p id h.1, h.2, AreLive-mono chans chans' m p h.3)

  pub AreLive-set :
      (chans : List (Chan E)) (i : ℕ) (c : Chan E) (m : List (ℕ × ℕ))
      → IsFresh i m
      → AreLive chans m
      → AreLive (set chans i c) m
  AreLive-set chans i c [] f h = tt
  AreLive-set chans i c ((id, ref) ∷ m) f h =
      (h.0, IsOpen-set chans i id c (λ e. f.0 (sym e)) h.1, h.2, AreLive-set chans i c m f.1 h.3)

  AreLive-append :
      (chans ys : List (Chan E)) (m : List (ℕ × ℕ)) → AreLive chans m → AreLive (chans ++ ys) m
  AreLive-append chans ys [] h = tt
  AreLive-append chans ys ((id, ref) ∷ m) (same, (ch, e, o), f, h) = (
    same,
    (ch, get_elem?-append_left chans ys id (get_elem?-lt chans id e) ∙ e, o),
    f,
    AreLive-append chans ys m h,
  )

  pub AreLive-delete :
      (chans : List (Chan E)) (i : ℕ) (c : Chan E) (m : List (ℕ × ℕ))
      → AreLive chans m
      → AreLive (set chans i c) (delete i m)
  unfolding delete
  AreLive-delete chans i c [] h = tt
  AreLive-delete chans i c ((id, ref) ∷ m) h = elim (Bool-cases (id == i)) [
    | inl e ↦ rw e (AreLive-delete chans i c m h.3)
    | inr e ↦ rw e (
      h.0,
      IsOpen-set chans i id c (ground arith) h.1,
      IsFresh-delete id i m h.2,
      AreLive-delete chans i c m h.3,
    )
  ]

  pub IsFresh-above :
      (chans : List (Chan E)) (k : ℕ) (m : List (ℕ × ℕ))
      → length chans ≤ k
      → AreLive chans m
      → IsFresh k m
  IsFresh-above chans k [] l h = tt
  IsFresh-above chans k ((id, ref) ∷ m) l (same, (ch, e, o), f, h) =
      (omega (arith, get_elem?-lt chans id e), IsFresh-above chans k m l h)

  pub AreLive-IsOpen :
      (chans : List (Chan E)) (i : ℕ) (m : List (ℕ × ℕ))
      → AreLive chans m
      → has_key i m ≡ true
      → IsOpen chans i
  unfolding has_key
  AreLive-IsOpen chans i [] h k = cc
  AreLive-IsOpen chans i ((id, ref) ∷ m) h k = elim (Bool-cases (id == i)) [
    | inl e ↦ subst (IsOpen chans) ((==_iff id i).0 e) h.1
    | inr e ↦ AreLive-IsOpen chans i m h.3 (ground arith)
  ]

  pub subscribe-IsValid : (b : Broker E) → IsValid b → IsValid (subscribe b).0
  unfolding subscribe
  subscribe-IsValid b v = record {
    allocated = omega (arith, length-append b.chans (make b.buf_size ∷ []), v.allocated);
    live = (
      v.allocated,
      (
        make b.buf_size,
        ap (get_elem? (b.chans ++ (make b.buf_size ∷ []))) (sym v.allocated)
            ∙ get_elem?-append_self b.chans (make b.buf_size),
        unfold make in refl,
      ),
      IsFresh-above b.chans b.next_id b.subscribers (omega (arith, v.allocated)) v.live,
      AreLive-append b.chans (make b.buf_size ∷ []) b.subscribers v.live,
    );
    bounded =
        All-append (IsBounded b.buf_size) b.chans (make b.buf_size ∷ []) v.bounded
          (unfold make in omega arith);
  }

  pub at_chan-some :
      (i : ℕ) (op : Chan E → Option (Chan E)) (chans : List (Chan E)) (ch ch' : Chan E)
      → get_elem? chans i ≡ some ch
      → op ch ≡ some ch'
      → at_chan i op chans ≡ some (set chans i ch')
  unfolding at_chan
  at_chan-some i op chans ch ch' e o = rw (e, at_chan, o)
