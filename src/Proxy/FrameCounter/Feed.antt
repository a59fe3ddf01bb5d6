-- ===== src/Proxy/FrameCounter/Feed.antt =====
-- The loop of `scan` is the automaton that takes one byte at a time.
use mathlib.Core.List.{foldl}
use grpc_tap.Prelude.{
  ℕ, zero, suc, ◌+◌, ◌-◌, ◌%◌, ◌^◌, ◌≤◌, ◌<◌, min, ◌≡◌, refl, sym, ap, ◌∙◌, ◌⊎◌, inl, inr, some, [],
  ◌∷◌, ◌++◌, Bytes, ◌==◌, if◌then◌else◌, length, take, drop, arith, length-take, length-drop,
  take-append-drop, Bool-cases,
}
use grpc_tap.Proxy.FrameCounter.{
  FrameCounter, copy_at, header_done, fill_header, scan_header, scan_payload, scan_step, scan_loop,
  scan,
}

-- One byte at a time, the reference that the buffered loop is measured by.
unfoldable pub feed : FrameCounter → ℕ → FrameCounter
feed fc b =
    if fc.state == 0
    then fill_header fc (b ∷ []) 1
    else record fc { remain = fc.remain - 1; state = if (fc.remain - 1) == 0 then 0 else fc.state }

unfoldable pub feed_all : FrameCounter → Bytes → FrameCounter
feed_all = foldl feed

pub record IsValid (fc : FrameCounter) : Type 0 where
  pub header : fc.hdr_n < 5
  pub payload : (fc.state ≡ 0) ⊎ (0 < fc.remain)

copy_at-nil : (xs : Bytes) (i : ℕ) → copy_at xs i [] ≡ xs
unfolding copy_at
copy_at-nil [] i = refl
copy_at-nil (x ∷ xs) zero = refl
copy_at-nil (x ∷ xs) (suc i) = ap (◌∷◌ x) (copy_at-nil xs i)

copy_at-cons :
    (xs : Bytes) (i b : ℕ) (bs : Bytes)
    → copy_at (copy_at xs i (b ∷ [])) (suc i) bs ≡ copy_at xs i (b ∷ bs)
unfolding copy_at
copy_at-cons [] i b bs = refl
copy_at-cons (x ∷ xs) zero b bs = rw (copy_at-nil xs 0)
copy_at-cons (x ∷ xs) (suc i) b bs = ap (◌∷◌ x) (copy_at-cons xs i b bs)

-- A header byte that is not the last.
after_byte : FrameCounter → ℕ → FrameCounter
after_byte fc b = record fc { hdr_buf = copy_at fc.hdr_buf fc.hdr_n (b ∷ []); hdr_n = fc.hdr_n + 1 }

feed-after_byte :
    (fc : FrameCounter) (b : ℕ) → fc.state ≡ 0 → fc.hdr_n < 4 → feed fc b ≡ after_byte fc b
unfolding feed fill_header after_byte
feed-after_byte fc b s h = ground arith

fill_header-after_byte :
    (fc : FrameCounter) (b : ℕ) (bs : Bytes)
    → fill_header (after_byte fc b) bs (length bs) ≡ fill_header fc (b ∷ bs) (suc (length bs))
unfolding fill_header after_byte
fill_header-after_byte fc b bs =
    let next : fc.hdr_n + 1 ≡ suc fc.hdr_n = omega arith in
    let total : suc fc.hdr_n + length bs ≡ fc.hdr_n + suc (length bs) = omega arith in
    rw (next, total, copy_at-cons fc.hdr_buf fc.hdr_n b bs)

pub feed_header :
    (b : ℕ) (bs : Bytes) (fc : FrameCounter)
    → fc.state ≡ 0
    → fc.hdr_n + length (b ∷ bs) ≤ 5
    → feed_all fc (b ∷ bs) ≡ fill_header fc (b ∷ bs) (length (b ∷ bs))
unfolding feed_all
feed_header b [] fc s h = unfold feed in ground arith
feed_header b (c ∷ cs) fc s h = rw (feed-after_byte fc b s (omega arith)) (
    feed_header c cs (after_byte fc b) (unfold after_byte in s) (unfold after_byte in omega arith)
    ∙ fill_header-after_byte fc b (c ∷ cs))

pub feed_payload :
    (b : ℕ) (bs : Bytes) (fc : FrameCounter)
    → ¬ (fc.state ≡ 0)
    → length (b ∷ bs) ≤ fc.remain
    → feed_all fc (b ∷ bs) ≡ record fc {
      remain = fc.remain - length (b ∷ bs);
      state = if (fc.remain - length (b ∷ bs)) == 0 then 0 else fc.state;
    }
unfolding feed_all feed
feed_payload b [] fc s h = ground arith
feed_payload b (c ∷ cs) fc s h = ground (arith, feed_payload c cs (feed fc b))

pub feed-IsValid : (fc : FrameCounter) (b : ℕ) → IsValid fc → IsValid (feed fc b)
unfolding feed fill_header header_done
feed-IsValid fc b v = ground arith

pub feed_all-append :
    (xs ys : Bytes) (fc : FrameCounter) → feed_all fc (xs ++ ys) ≡ feed_all (feed_all fc xs) ys
unfolding feed_all
feed_all-append [] ys fc = refl
feed_all-append (x ∷ xs) ys fc = feed_all-append xs ys (feed fc x)

pub feed_all-IsValid : (xs : Bytes) (fc : FrameCounter) → IsValid fc → IsValid (feed_all fc xs)
unfolding feed_all
feed_all-IsValid [] fc v = v
feed_all-IsValid (x ∷ xs) fc v = feed_all-IsValid xs (feed fc x) (feed-IsValid fc x v)

-- One round feeds a non-empty prefix of the input and leaves the rest.
abbrev Consumes : FrameCounter → Bytes → FrameCounter × Bytes → Type 0
Consumes fc input r =
    (n : ℕ) × (1 ≤ n) × (n ≤ length input) × (r ≡ (feed_all fc (take n input), drop n input))

header_chunk :
    (xs : Bytes) (n : ℕ) (fc : FrameCounter)
    → length xs ≡ n
    → 1 ≤ n
    → fc.state ≡ 0
    → fc.hdr_n + n ≤ 5
    → fill_header fc xs n ≡ feed_all fc xs
header_chunk [] n fc e h s f = absurd (omega arith)
header_chunk (b ∷ bs) n fc e h s f = rw (← e) (sym (feed_header b bs fc s (omega arith)))

payload_chunk :
    (xs : Bytes) (n : ℕ) (fc : FrameCounter)
    → length xs ≡ n
    → 1 ≤ n
    → ¬ (fc.state ≡ 0)
    → n ≤ fc.remain
    → record fc { remain = fc.remain - n; state = if (fc.remain - n) == 0 then 0 else fc.state }
      ≡ feed_all fc xs
payload_chunk [] n fc e h s f = absurd (omega arith)
payload_chunk (b ∷ bs) n fc e h s f = rw (← e) (sym (feed_payload b bs fc s (omega arith)))

scan_header-Consumes :
    (fc : FrameCounter) (b : ℕ) (bs : Bytes)
    → fc.state ≡ 0
    → fc.hdr_n < 5
    → Consumes fc (b ∷ bs) (scan_header fc (b ∷ bs))
unfolding scan_header
scan_header-Consumes fc b bs s h =
    let n = min (5 - fc.hdr_n) (length (b ∷ bs)) in
    let size : length (take n (b ∷ bs)) ≡ n = omega (arith, length-take n (b ∷ bs)) in
    (
      n,
      omega arith,
      omega arith,
      ap (λ fc'. (fc', drop n (b ∷ bs)))
          (header_chunk (take n (b ∷ bs)) n fc size (omega arith) s (omega arith)),
    )

scan_payload-Consumes :
    (fc : FrameCounter) (b : ℕ) (bs : Bytes)
    → ¬ (fc.state ≡ 0)
    → 0 < fc.remain
    → length (b ∷ bs) < 2 ^ 32
    → Consumes fc (b ∷ bs) (scan_payload fc (b ∷ bs))
unfolding scan_payload
scan_payload-Consumes fc b bs s h w =
    let n = min (length (b ∷ bs) % 2 ^ 32) fc.remain in
    let size : length (take n (b ∷ bs)) ≡ n = omega (arith, length-take n (b ∷ bs)) in
    (
      n,
      omega arith,
      omega arith,
      ap (λ fc'. (fc', drop n (b ∷ bs)))
          (payload_chunk (take n (b ∷ bs)) n fc size (omega arith) s (omega arith)),
    )

scan_step-Consumes :
    (fc : FrameCounter) (b : ℕ) (bs : Bytes)
    → IsValid fc
    → length (b ∷ bs) < 2 ^ 32
    → Consumes fc (b ∷ bs) (scan_step fc (b ∷ bs))
unfolding scan_step
scan_step-Consumes fc b bs v w = elim (Bool-cases (fc.state == 0)) [
  | inl e ↦ rw e (scan_header-Consumes fc b bs (ground arith) v.header)
  | inr e ↦ rw e (scan_payload-Consumes fc b bs (ground arith) (ground arith) w)
]

scan_loop-feed :
    (fuel : ℕ) (fc : FrameCounter) (input : Bytes)
    → length input ≤ fuel
    → length input < 2 ^ 32
    → IsValid fc
    → scan_loop fuel fc input ≡ some (feed_all fc input)
unfolding scan_loop
scan_loop-feed fuel fc [] f w v = unfold feed_all in refl
scan_loop-feed zero fc (b ∷ bs) f w v = absurd (omega arith)
scan_loop-feed (suc fuel) fc (b ∷ bs) f w v =
    let (n, pos, fits, fed) = scan_step-Consumes fc b bs v w in
    ap (λ r. scan_loop fuel r.0 r.1) fed
    ∙ scan_loop-feed fuel (feed_all fc (take n (b ∷ bs))) (drop n (b ∷ bs))
        (omega (arith, length-drop n (b ∷ bs))) (omega (arith, length-drop n (b ∷ bs)))
        (feed_all-IsValid (take n (b ∷ bs)) fc v)
    ∙ ap some (
        sym (feed_all-append (take n (b ∷ bs)) (drop n (b ∷ bs)) fc)
        ∙ ap (feed_all fc) (take-append-drop n (b ∷ bs)))

-- On a chunk shorter than 2 ^ 32 bytes the loop of `scan`, from a valid counter, ends, and does what
-- the automaton that takes one byte at a time does.
pub scan-feed_all :
    (fc : FrameCounter) (input : Bytes)
    → IsValid fc
    → length input < 2 ^ 32
    → scan fc input ≡ some (feed_all fc input)
unfolding scan
scan-feed_all fc input v w = scan_loop-feed (length input) fc input (omega arith) w v
