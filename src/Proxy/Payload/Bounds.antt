-- ===== src/Proxy/Payload/Bounds.antt =====
-- proxy/frame.go, ExtractPayload and DecompressGzip: how long what they return can be.
use grpc_tap.Prelude.{
  ℕ, ◌+◌, ◌-◌, ◌≤◌, ◌≡◌, refl, sym, subst, ◌⊎◌, inl, inr, Option, none, some, Bytes, Bool, true,
  false, leb, ltb, ◌&&◌, ◌==◌, if◌then◌else◌, length, take, drop, ◌%◌, ◌^◌, length-take,
  length-drop, get_or, arith, Option-cases, Bool-cases,
}
use grpc_tap.Proxy.FrameCounter.{be_uint32}
use grpc_tap.Proxy.Payload.{slice?, gunzip_or_self, extract_payload, decompress_gzip}

length-slice? : (s p : Bytes) (lo hi : ℕ) → slice? s lo hi ≡ some p → length p ≤ length s
unfolding slice?
length-slice? s p lo hi e = elim (Bool-cases (leb lo hi && leb hi (length s))) [
  | inl b ↦
      let same : p ≡ drop lo (take hi s) = cc (rw b at e) in
      rw same (omega (arith, length-drop lo (take hi s), length-take hi s))
  | inr b ↦ cc (rw b at e)
]

module _ {R : Type 0} (new_reader : Bytes → Option R) (inflate : R → Option Bytes) where
  -- It is what gzip makes of at most `n` bytes.
  abbrev pub IsInflated : ℕ → Bytes → Type 0
  IsInflated n s =
      (z : Bytes) × (r : R) × (length z ≤ n) × (new_reader z ≡ some r) × (inflate r ≡ some s)

  abbrev pub IsWithin : ℕ → Bytes → Type 0
  IsWithin n s = (length s ≤ n) ⊎ IsInflated n s

  gunzip_or_self-IsWithin :
      (n : ℕ) (z : Bytes) → length z ≤ n → IsWithin n (gunzip_or_self new_reader inflate z)
  unfolding gunzip_or_self
  gunzip_or_self-IsWithin n z h = elim (Option-cases (new_reader z)) [
    | inl e ↦
        let same : gunzip_or_self new_reader inflate z ≡ z = rw (gunzip_or_self, e) refl in
        subst (IsWithin n) (sym same) (inl h)
    | inr (r, e) ↦ elim (Option-cases (inflate r)) [
      | inl i ↦
          let same : gunzip_or_self new_reader inflate z ≡ z = rw (gunzip_or_self, e, i) refl in
          subst (IsWithin n) (sym same) (inl h)
      | inr (s, i) ↦
          let same : gunzip_or_self new_reader inflate z ≡ s = rw (gunzip_or_self, e, i) refl in
          subst (IsWithin n) (sym same) (inr (z, r, h, e, i))
    ]
  ]

  if-IsWithin :
      (n : ℕ) (b : Bool) (s t : Bytes)
      → IsWithin n s
      → IsWithin n t
      → IsWithin n (if b then s else t)
  if-IsWithin n true s t h k = h
  if-IsWithin n false s t h k = k

  -- The first message of the captured bytes is no longer than they are, unless gzip made it so.
  pub extract_payload-IsWithin :
      (n : ℕ) (s p : Bytes)
      → length s ≤ n
      → extract_payload new_reader inflate s ≡ some p
      → IsWithin n p
  unfolding extract_payload
  extract_payload-IsWithin n s p h e = elim (Bool-cases (ltb (length s) 5)) [
    | inl b ↦ let same : s ≡ p = cc (rw b at e) in rw (← same) (inl h)
    | inr b ↦
        let long = rw b at e in
        elim (Bool-cases (ltb ((length s - 5) % 2 ^ 32) len)) [
          | inl c ↦ let same : s ≡ p = cc (rw c at long) in rw (← same) (inl h)
          | inr c ↦ whole (rw c at long)
        ]
  ]
    where
      len : ℕ
      len = be_uint32 (take 4 (drop 1 s))

      whole :
          (elim (slice? s 5 ((5 + len) % 2 ^ 32)) as (λ o. Option Bytes) [
            | none ↦ none
            | some payload ↦
                some
                  (if get_or s 0 0 == 1 then gunzip_or_self new_reader inflate payload else payload)
          ])
            ≡ some p
          → IsWithin n p
      whole w = elim (Option-cases (slice? s 5 ((5 + len) % 2 ^ 32))) [
        | inl z ↦ cc (rw z at w)
        | inr (payload, z) ↦
            let small : length payload ≤ n =
              omega (arith, length-slice? s payload 5 ((5 + len) % 2 ^ 32) z) in
            let same : (if get_or s 0 0 == 1
                  then gunzip_or_self new_reader inflate payload
                  else payload)
                ≡ p =
              cc (rw z at w) in
            subst (IsWithin n) same (
              if-IsWithin n (get_or s 0 0 == 1) _ _ (gunzip_or_self-IsWithin n payload small)
                (inl small))
      ]

  pub decompress_gzip-IsWithin :
      (n : ℕ) (s : Bytes) → length s ≤ n → IsWithin n (decompress_gzip new_reader inflate s)
  unfolding decompress_gzip
  decompress_gzip-IsWithin n s h = if-IsWithin n _ _ _ (inl h) (gunzip_or_self-IsWithin n s h)
