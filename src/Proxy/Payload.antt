-- ===== src/Proxy/Payload.antt =====
-- proxy/frame.go, ExtractPayload and DecompressGzip, and the message frame that Replay in
-- proxy/reverse_proxy.go builds. The gzip reader is a parameter: `new_reader` and `inflate` are
-- `gzip.NewReader` and `io.ReadAll`, with `none` for an error.
pub mod Laws
pub mod Bounds
use grpc_tap.Prelude.{
  ℕ, ◌+◌, ◌-◌, ◌*◌, ◌/◌, ◌%◌, ◌^◌, Option, none, some, [], ◌∷◌, ◌++◌, Bytes, ltb, leb, ◌==◌, not,
  ◌&&◌, ◌||◌, if◌then◌else◌, length, take, drop, get_or,
}
use grpc_tap.Proxy.FrameCounter.{be_uint32}

-- `binary.BigEndian.PutUint32`: the four bytes of a uint32.
unfoldable pub put_uint32 : ℕ → Bytes
put_uint32 n = n / 2 ^ 24 % 256 ∷ n / 2 ^ 16 % 256 ∷ n / 2 ^ 8 % 256 ∷ n % 256 ∷ []

-- The frame of `Replay`: flag 0, the length as a uint32, the body.
unfoldable pub frame : Bytes → Bytes
frame body = 0 ∷ (put_uint32 (length body % 2 ^ 32) ++ body)

-- `data[lo:hi]`; `none` is the runtime panic of bounds that do not fit.
unfoldable pub slice? : Bytes → ℕ → ℕ → Option Bytes
slice? s lo hi = if leb lo hi && leb hi (length s) then some (drop lo (take hi s)) else none

module _ {R : Type 0} (new_reader : Bytes → Option R) (inflate : R → Option Bytes) where
  -- Decompression, with the input itself where it fails.
  unfoldable pub gunzip_or_self : Bytes → Bytes
  gunzip_or_self z = elim (new_reader z) [
    | none ↦ z
    | some r ↦ elim (inflate r) [ none ↦ z | some decoded ↦ decoded ]
  ]

  -- `5+length` and `uint32(len(data)-5)` are uint32 expressions and wrap.
  unfoldable pub extract_payload : Bytes → Option Bytes
  extract_payload s =
      let compressed = get_or s 0 0 in
      let len = be_uint32 (take 4 (drop 1 s)) in
      let framed : Option Bytes = elim (slice? s 5 ((5 + len) % 2 ^ 32)) [
        | none ↦ none
        | some payload ↦ some (if compressed == 1 then gunzip_or_self payload else payload)
      ] in
      if ltb (length s) 5
      then some s
      else if ltb ((length s - 5) % 2 ^ 32) len
      then some s
      else framed

  unfoldable pub decompress_gzip : Bytes → Bytes
  decompress_gzip s =
      if ltb (length s) 2 || not (get_or s 0 0 == 0x1f) || not (get_or s 1 0 == 0x8b)
      then s
      else gunzip_or_self s
