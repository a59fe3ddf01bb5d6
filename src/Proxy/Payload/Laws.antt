-- ===== src/Proxy/Payload/Laws.antt =====
-- What the captured bytes become: the body of the first message, where it was captured whole.
use mathlib.Core.List.{flatten}
use native.Mathlib.Decide.{dec_le, dec_lt}
use grpc_tap.Prelude.{
  ℕ, suc, ◌+◌, ◌-◌, ◌%◌, ◌^◌, ◌≤◌, ◌<◌, ◌≡◌, sym, ap, ◌∙◌, ◌≢◌, ◌⊎◌, inl, inr, Option, none, some,
  List, [], ◌∷◌, ◌++◌, Bytes, leb, ◌==◌, if◌then◌else◌, length, take, drop, get_or, arith,
  length-append, take-length_append, take_all, length-take, take-append, append-nil, subst, le→leb,
  false,
}
use grpc_tap.Proxy.FrameCounter.{be_uint32}
use grpc_tap.Proxy.Capture.{new_capture_reader, read_all, bytes, bytes-read_all}
use grpc_tap.Proxy.Payload.{
  put_uint32, frame, slice?, gunzip_or_self, extract_payload, decompress_gzip,
}

-- The length field is read back.
pub be_uint32-put_uint32 :
    (n : ℕ) (rest : Bytes) → n < 2 ^ 32 → be_uint32 (take 4 (put_uint32 n ++ rest)) ≡ n
unfolding be_uint32 put_uint32
be_uint32-put_uint32 n rest h = omega arith

length-frame : (body : Bytes) → length (frame body) ≡ 5 + length body
unfolding frame put_uint32
length-frame body = omega arith

slice?-tail :
    (f a b c d : ℕ) (tail : Bytes) (len hi : ℕ)
    → hi ≡ 5 + len
    → len ≤ length tail
    → slice? (f ∷ a ∷ b ∷ c ∷ d ∷ tail) 5 hi ≡ some (take len tail)
unfolding slice?
slice?-tail f a b c d tail len hi e h =
    let e' : hi ≡ suc (suc (suc (suc (suc len)))) = omega arith in rw e' (ground arith)

-- The first `n` bytes of a stream that begins with a message.
take-frame_fits :
    (n : ℕ) (body rest : Bytes)
    → 5 + length body ≤ n
    → take n (frame body ++ rest) ≡ frame body ++ take (n - length (frame body)) rest
take-frame_fits n body rest h =
    take-append n (frame body) rest
    ∙ ap (λ s. s ++ take (n - length (frame body)) rest)
        (take_all n (frame body) (omega (arith, length-frame body)))

take-frame_cut :
    (n : ℕ) (body rest : Bytes)
    → ¬ (5 + length body ≤ n)
    → take n (frame body ++ rest) ≡ take n (frame body)
take-frame_cut n body rest h =
    let none_left : n - length (frame body) ≡ 0 = omega (arith, length-frame body) in
    take-append n (frame body) rest ∙ rw none_left (append-nil (take n (frame body)))

length_field :
    (m : ℕ) (body : Bytes)
    → be_uint32 (take 4 (drop 1 (take (suc (suc (suc (suc (suc m))))) (frame body))))
      ≡ length body % 2 ^ 32
unfolding frame put_uint32
length_field m body = be_uint32-put_uint32 (length body % 2 ^ 32) [] (omega arith)

frame_cut :
    (n : ℕ) (body : Bytes)
    → length body < 2 ^ 32
    → ¬ (5 + length body ≤ n)
    → length (take n (frame body)) ≡ n
    → let s = take n (frame body) in (length s < 5) ⊎ (length s < 5 + be_uint32 (take 4 (drop 1 s)))
frame_cut n body v h size = elim (dec_lt n 5) [
  | yes p ↦ inl (omega arith)
  | no p ↦
      let long : n ≡ suc (suc (suc (suc (suc (n - 5))))) = omega arith in
      let field : be_uint32 (take 4 (drop 1 (take n (frame body)))) ≡ length body % 2 ^ 32 =
        subst (λ k. be_uint32 (take 4 (drop 1 (take k (frame body)))) ≡ length body % 2 ^ 32)
          (sym long) (length_field (n - 5) body) in
      inr (omega arith)
]

module _ {R : Type 0} (new_reader : Bytes → Option R) (inflate : R → Option Bytes) where
  -- On data shorter than 2 ^ 32 bytes no slice bound is out of range: there is no panic.
  pub extract_payload-ne-none :
      (s : Bytes) → length s < 2 ^ 32 → extract_payload new_reader inflate s ≢ none
  unfolding extract_payload slice?
  extract_payload-ne-none s h = ground arith

  -- From data of less than 2^32 bytes whose payload is there in full, the payload is taken,
  -- decompressed if the flag says so and gzip accepts it, whatever follows it.
  pub extract_payload-whole :
      (f a b c d : ℕ) (tail : Bytes)
      → be_uint32 (a ∷ b ∷ c ∷ d ∷ []) ≤ length tail
      → 5 + length tail < 2 ^ 32
      → let payload = take (be_uint32 (a ∷ b ∷ c ∷ d ∷ [])) tail in
        extract_payload new_reader inflate (f ∷ a ∷ b ∷ c ∷ d ∷ tail)
        ≡ some (if f == 1 then gunzip_or_self new_reader inflate payload else payload)
  unfolding extract_payload
  extract_payload-whole f a b c d tail h w =
      let len = be_uint32 (a ∷ b ∷ c ∷ d ∷ []) in
      ground (arith, slice?-tail f a b c d tail len ((5 + len) % 2 ^ 32) (omega arith) h)

  -- A message that is cut short, in its header or in its payload, is given back as it is.
  pub extract_payload-short :
      (s : Bytes)
      → length s < 2 ^ 32
      → (length s < 5) ⊎ (length s < 5 + be_uint32 (take 4 (drop 1 s)))
      → extract_payload new_reader inflate s ≡ some s
  unfolding extract_payload
  extract_payload-short s w h = ground arith

  -- The frame that `Replay` builds gives its body back, whatever follows it.
  pub extract_payload-frame :
      (body rest : Bytes)
      → 5 + length body + length rest < 2 ^ 32
      → extract_payload new_reader inflate (frame body ++ rest) ≡ some body
  unfolding frame put_uint32
  extract_payload-frame body rest h =
      let len : length body % 2 ^ 32 ≡ length body = omega arith in
      let read : be_uint32 (take 4 (put_uint32 (length body % 2 ^ 32) ++ [])) ≡ length body =
        be_uint32-put_uint32 (length body % 2 ^ 32) [] (omega arith) ∙ len in
      extract_payload-whole 0 _ _ _ _ (body ++ rest) (omega (arith, read, length-append body rest))
        (omega (arith, length-append body rest))
      ∙ ap some (ap (λ n. take n (body ++ rest)) read ∙ take-length_append body rest)

  -- What is shown of a stream that begins with a whole uncompressed message, of less than 2^32
  -- bytes, when the reader keeps its first n bytes, n below 2^32: the body, if the message fits
  -- with its frame; otherwise the cut message, header and all.
  pub extract_payload-captured :
      (n : ℕ) (body rest : Bytes) (cs : List Bytes)
      → n < 2 ^ 32
      → length body < 2 ^ 32
      → flatten cs ≡ frame body ++ rest
      → extract_payload new_reader inflate (bytes (read_all (new_capture_reader n) cs))
        ≡ some (if leb (5 + length body) n then body else take n (frame body))
  extract_payload-captured n body rest cs w v e =
      rw (bytes-read_all n cs, e)
        (elim (dec_le (5 + length body) n) [
          | yes h ↦
              let left = take (n - length (frame body)) rest in
              rw (take-frame_fits n body rest h, le→leb _ _ h)
                (extract_payload-frame body left
                  (omega (arith, length-take (n - length (frame body)) rest, length-frame body)))
          | no h ↦
              let fits : leb (5 + length body) n ≡ false = ground arith in
              let size : length (take n (frame body)) ≡ n =
                omega (arith, length-take n (frame body), length-frame body) in
              rw (take-frame_cut n body rest h, fits)
                (extract_payload-short (take n (frame body)) (omega arith)
                  (frame_cut n body v h size))
        ])

  -- Only data with the gzip magic bytes can change.
  pub decompress_gzip-other :
      (s : Bytes)
      → (length s < 2) ⊎ (get_or s 0 0 ≢ 0x1f) ⊎ (get_or s 1 0 ≢ 0x8b)
      → decompress_gzip new_reader inflate s ≡ s
  unfolding decompress_gzip
  decompress_gzip-other s h = ground arith
