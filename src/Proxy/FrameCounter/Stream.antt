-- ===== src/Proxy/FrameCounter/Stream.antt =====
-- What the count means: chunks do not matter, and the count is the number of message headers in
-- the stream.
use mathlib.Core.List.{flatten}
use native.Mathlib.Decide.{dec_lt}
use grpc_tap.Prelude.{
  ℕ, zero, suc, ◌+◌, ◌^◌, ◌≤◌, ◌<◌, ◌≡◌, refl, sym, ap, ◌∙◌, inl, some, List, [], ◌∷◌, ◌++◌, Bytes,
  ltb, if◌then◌else◌, length, take, drop, arith, All, length-drop, take-append-drop, drop_all,
  length-take,
}
use grpc_tap.Proxy.FrameCounter.{
  FrameCounter, new_frame_counter, be_uint32, copy_at, header_done, fill_header, read_all,
}
use grpc_tap.Proxy.FrameCounter.Feed.{
  IsValid, feed_all, feed_header, feed_payload, feed_all-append, feed_all-IsValid, scan-feed_all,
}

abbrev pub IsChunk : Bytes → Type 0
IsChunk c = length c < 2 ^ 32

pub new-IsValid : IsValid new_frame_counter
unfolding new_frame_counter
new-IsValid = record { header = omega arith; payload = inl refl }

-- However the reader cuts the stream into chunks, the state after them is that of the automaton
-- on the whole stream.
pub read_all-feed_all :
    (cs : List Bytes) (fc : FrameCounter)
    → IsValid fc
    → All IsChunk cs
    → read_all fc cs ≡ some (feed_all fc (flatten cs))
unfolding read_all flatten
read_all-feed_all [] fc v h = unfold feed_all in refl
read_all-feed_all (c ∷ cs) fc v h =
    rw (scan-feed_all fc c v h.0, read_all)
      (read_all-feed_all cs (feed_all fc c) (feed_all-IsValid c fc v) h.1
        ∙ ap some (sym (feed_all-append c (flatten cs) fc)))

-- The messages of a stream, read off its headers: each header that is complete counts, and the
-- payload that it announces is passed over.
pub headers : ℕ → Bytes → ℕ
headers zero s = 0
headers (suc fuel) s =
    let rest = headers fuel (drop (5 + be_uint32 (take 4 (drop 1 s))) s) in
    if ltb (length s) 5 then 0 else 1 + rest

-- Between two messages.
abbrev AtBoundary : FrameCounter → Type 0
AtBoundary fc = (fc.state ≡ 0) × (fc.hdr_n ≡ 0) × (length fc.hdr_buf ≡ 5)

copy_at_all : (xs ys : Bytes) → length xs ≡ length ys → copy_at xs 0 ys ≡ ys
unfolding copy_at
copy_at_all [] [] e = refl
copy_at_all [] (y ∷ ys) e = absurd (omega arith)
copy_at_all (x ∷ xs) [] e = absurd (omega arith)
copy_at_all (x ∷ xs) (y ∷ ys) e = ap (◌∷◌ y) (copy_at_all xs ys (omega arith))

-- The counter after a whole header that announces `len` bytes.
after_header : FrameCounter → Bytes → ℕ → FrameCounter
after_header fc hdr len = record fc {
  count = fc.count + 1;
  state = if ltb 0 len then 1 else 0;
  hdr_buf = hdr;
  hdr_n = 0;
  remain = len;
}

feed_all-after_header :
    (fc : FrameCounter) (f a b c d : ℕ)
    → AtBoundary fc
    → let hdr = f ∷ a ∷ b ∷ c ∷ d ∷ [] in
      feed_all fc hdr ≡ after_header fc hdr (be_uint32 (a ∷ b ∷ c ∷ d ∷ []))
unfolding after_header
feed_all-after_header fc f a b c d (s, n, l) =
    let hdr : Bytes = f ∷ a ∷ b ∷ c ∷ d ∷ [] in
    feed_header f (a ∷ b ∷ c ∷ d ∷ []) fc s (omega arith)
    ∙ unfold fill_header header_done in ground (arith, copy_at_all fc.hdr_buf hdr l)

-- Payload bytes are not counted, and after the last of them the next message begins.
feed_all-payload :
    (xs : Bytes) (fc : FrameCounter) (hdr : Bytes) (len : ℕ)
    → length hdr ≡ 5
    → length xs ≤ len
    → ((feed_all (after_header fc hdr len) xs).count ≡ fc.count + 1)
      × (length xs ≡ len → AtBoundary (feed_all (after_header fc hdr len) xs))
feed_all-payload [] fc hdr len l h = unfold feed_all after_header in (refl, λ e. ground arith)
feed_all-payload (x ∷ xs) fc hdr len l h =
    rw
      (feed_payload x xs (after_header fc hdr len) (unfold after_header in ground arith)
        (unfold after_header in h))
      (unfold after_header in (refl, λ e. ground arith))

-- `rest` is what follows a header.
headers-cons :
    (fuel f a b c d : ℕ) (rest : Bytes)
    → headers (suc fuel) (f ∷ a ∷ b ∷ c ∷ d ∷ rest)
      ≡ 1 + headers fuel (drop (be_uint32 (a ∷ b ∷ c ∷ d ∷ [])) rest)
unfolding headers
headers-cons fuel f a b c d rest =
    let len = be_uint32 (a ∷ b ∷ c ∷ d ∷ []) in
    let e : 5 + len ≡ suc (suc (suc (suc (suc len)))) = omega arith in rw e (ground arith)

headers-nil : (fuel : ℕ) → headers fuel [] ≡ 0
unfolding headers
headers-nil zero = refl
headers-nil (suc fuel) = refl

headers-short : (fuel : ℕ) (s : Bytes) → length s < 5 → headers fuel s ≡ 0
unfolding headers
headers-short zero s h = refl
headers-short (suc fuel) s h = ground arith

feed_all-short :
    (s : Bytes) (fc : FrameCounter)
    → AtBoundary fc
    → length s < 5
    → (feed_all fc s).count ≡ fc.count
feed_all-short [] fc b h = unfold feed_all in refl
feed_all-short (x ∷ xs) fc (s, n, l) h =
    rw (feed_header x xs fc s (omega arith)) (unfold fill_header in ground arith)

count-short :
    (fuel : ℕ) (s : Bytes) (fc : FrameCounter)
    → AtBoundary fc
    → length s < 5
    → (feed_all fc s).count ≡ fc.count + headers fuel s
count-short fuel s fc b h = omega (arith, feed_all-short s fc b h, headers-short fuel s h)

count-headers :
    (fuel : ℕ) (s : Bytes) (fc : FrameCounter)
    → AtBoundary fc
    → length s ≤ fuel
    → (feed_all fc s).count ≡ fc.count + headers fuel s
count-headers fuel [] fc at h = count-short fuel [] fc at (omega arith)
count-headers zero (f ∷ s) fc at h = absurd (omega arith)
count-headers (suc n) (f ∷ []) fc at h = count-short (suc n) _ fc at (omega arith)
count-headers (suc n) (f ∷ a ∷ []) fc at h = count-short (suc n) _ fc at (omega arith)
count-headers (suc n) (f ∷ a ∷ b ∷ []) fc at h = count-short (suc n) _ fc at (omega arith)
count-headers (suc n) (f ∷ a ∷ b ∷ c ∷ []) fc at h = count-short (suc n) _ fc at (omega arith)
count-headers (suc n) (f ∷ a ∷ b ∷ c ∷ d ∷ rest) fc at h =
    let hdr : Bytes = f ∷ a ∷ b ∷ c ∷ d ∷ [] in
    let len = be_uint32 (a ∷ b ∷ c ∷ d ∷ []) in
    let payload = take len rest in
    let next = feed_all (after_header fc hdr len) payload in
    let size = length-take len rest in
    let (counted, done) = feed_all-payload payload fc hdr len refl (omega arith) in
    let split : feed_all fc (hdr ++ rest) ≡ feed_all next (drop len rest) =
      feed_all-append hdr rest fc
      ∙ ap (λ c'. feed_all c' rest) (feed_all-after_header fc f a b c d at)
      ∙ ap (feed_all (after_header fc hdr len)) (sym (take-append-drop len rest))
      ∙ feed_all-append payload (drop len rest) (after_header fc hdr len) in
    let left : (feed_all next (drop len rest)).count ≡ next.count + headers n (drop len rest) =
      elim (dec_lt (length rest) len) [
        | yes p ↦
            rw (drop_all len rest (omega arith)) (unfold feed_all in omega (arith, headers-nil n))
        | no p ↦
            count-headers n (drop len rest) next (done (omega arith))
              (omega (arith, length-drop len rest))
      ] in
    omega (arith, ap (λ c'. c'.count) split, left, counted, headers-cons n f a b c d rest)

new-AtBoundary : AtBoundary new_frame_counter
unfolding new_frame_counter
new-AtBoundary = (refl, refl, refl)

new-count : new_frame_counter.count ≡ 0
unfolding new_frame_counter
new-count = refl

-- A new counter reads any sequence of chunks shorter than 2 ^ 32 bytes to the end, and its count is
-- the number of messages whose header is complete in the concatenation of the chunks.
pub read_all-headers :
    (cs : List Bytes)
    → All IsChunk cs
    → (fc : FrameCounter) × (read_all new_frame_counter cs ≡ some fc)
      × (fc.count ≡ headers (length (flatten cs)) (flatten cs))
read_all-headers cs h =
    let s = flatten cs in
    (
      feed_all new_frame_counter s,
      read_all-feed_all cs new_frame_counter new-IsValid h,
      omega (
        arith,
        count-headers (length s) s new_frame_counter new-AtBoundary (omega arith),
        new-count,
      ),
    )
