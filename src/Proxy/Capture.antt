-- ===== src/Proxy/Capture.antt =====
-- proxy/frame.go, CaptureReader: keeps the first `max_size` bytes that pass through it. The wrapped
-- reader is the sequence of chunks that its calls return.
use mathlib.Core.List.{foldl, flatten}
use grpc_tap.Prelude.{
  ℕ, ◌-◌, ◌*◌, min, ◌≡◌, refl, sym, ap, ◌∙◌, List, [], ◌∷◌, ◌++◌, Bytes, ltb, ◌&&◌, if◌then◌else◌,
  length, take, arith, length-take, take-append, take_all, append_assoc, append-nil, ◌⊎◌, inl, inr,
  Bool-cases,
}
use mathlib.Core.Path.{ap₂}
use native.Mathlib.Decide.{dec_le}

pub record CaptureReader : Type 0 where
  pub buf : Bytes
  pub max_size : ℕ

unfoldable pub new_capture_reader : ℕ → CaptureReader
new_capture_reader max_size = record { buf = []; max_size = max_size }

-- `MaxCaptureSize`.
abbrev pub max_capture_size : ℕ
max_capture_size = 64 * 1024

-- The bookkeeping of `Read`, with the chunk that the wrapped reader returned. `remaining` is an int
-- in the source, and where it would be negative nothing is taken either.
unfoldable pub read : CaptureReader → Bytes → CaptureReader
read cr p =
    let remaining = cr.max_size - length cr.buf in
    if ltb 0 remaining && ltb 0 (length p)
    then record cr { buf = cr.buf ++ take (min (length p) remaining) p }
    else cr

unfoldable pub read_all : CaptureReader → List Bytes → CaptureReader
read_all = foldl read

-- `Bytes`.
abbrev pub bytes : CaptureReader → Bytes
bytes cr = cr.buf

-- What the reader holds after the bytes `s`.
abbrev Holds : ℕ → Bytes → CaptureReader → Type 0
Holds n s cr = (cr.max_size ≡ n) × (cr.buf ≡ take n s)

take-min : (p : Bytes) (n : ℕ) → take (min (length p) n) p ≡ take n p
take-min p n = elim (dec_le (length p) n) [
  | yes h ↦
      let e : min (length p) n ≡ length p = omega arith in
      rw e (take_all (length p) p (omega arith) ∙ sym (take_all n p h))
  | no h ↦ let e : min (length p) n ≡ n = omega arith in rw e
]

take-zero : (p : Bytes) (n : ℕ) → (n ≡ 0) ⊎ (length p ≡ 0) → take n p ≡ []
take-zero p n (inl e) = rw e
take-zero [] n (inr e) = take_all n [] (omega arith)
take-zero (x ∷ p) n (inr e) = absurd (omega arith)

read-Holds :
    (n : ℕ) (s p : Bytes) (cr : CaptureReader) → Holds n s cr → Holds n (s ++ p) (read cr p)
unfolding read
read-Holds n s p cr (m, b) =
    let held : length cr.buf ≡ min n (length s) = ap length b ∙ length-take n s in
    let room : cr.max_size - length cr.buf ≡ n - length s = omega arith in
    elim (Bool-cases (ltb 0 (cr.max_size - length cr.buf) && ltb 0 (length p))) [
      | inl e ↦
          rw (e, read)
            (m, rw room (ap₂ ◌++◌ b (take-min p (n - length s)) ∙ sym (take-append n s p)))
      | inr e ↦
          let stop : take (n - length s) p ≡ [] = take-zero p (n - length s) (ground arith) in
          rw (e, read) (m, b ∙ sym (take-append n s p ∙ rw stop (append-nil (take n s))))
    ]

read_all-Holds :
    (cs : List Bytes) (n : ℕ) (s : Bytes) (cr : CaptureReader)
    → Holds n s cr
    → Holds n (s ++ flatten cs) (read_all cr cs)
unfolding read_all flatten
read_all-Holds [] n s cr h = rw append-nil h
read_all-Holds (c ∷ cs) n s cr h =
    rw (← append_assoc) (read_all-Holds cs n (s ++ c) (read cr c) (read-Holds n s c cr h))

-- Over any sequence of reads the captured bytes are the first `n` bytes of the stream.
pub bytes-read_all :
    (n : ℕ) (cs : List Bytes) → bytes (read_all (new_capture_reader n) cs) ≡ take n (flatten cs)
bytes-read_all n cs =
    (read_all-Holds cs n [] (new_capture_reader n)
      (unfold new_capture_reader in (refl, sym (take_all n [] (omega arith))))).1
