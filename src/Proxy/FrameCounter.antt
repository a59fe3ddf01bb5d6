-- ===== src/Proxy/FrameCounter.antt =====
-- proxy/frame.go, FrameCounter: a reader that counts the length-prefixed messages of the bytes
-- that pass through it. The wrapped reader is the sequence of chunks that its calls return.
pub mod Feed
pub mod Stream
use grpc_tap.Prelude.{
  ℕ, zero, suc, ◌+◌, ◌-◌, ◌*◌, ◌%◌, ◌^◌, min, Option, none, some, List, [], ◌∷◌, Bytes, ltb, ◌==◌,
  if◌then◌else◌, length, take, drop, get_or,
}

-- `hdr_buf` is a [5]byte, `state` is 0 in a header and 1 in a payload, `remain` is a uint32.
pub record FrameCounter : Type 0 where
  pub count : ℕ
  pub state : ℕ
  pub hdr_buf : Bytes
  pub hdr_n : ℕ
  pub remain : ℕ

unfoldable pub new_frame_counter : FrameCounter
new_frame_counter = record {
  count = 0;
  state = 0;
  hdr_buf = 0 ∷ 0 ∷ 0 ∷ 0 ∷ 0 ∷ [];
  hdr_n = 0;
  remain = 0;
}

-- `binary.BigEndian.Uint32`, at four bytes or more.
unfoldable pub be_uint32 : Bytes → ℕ
be_uint32 bs =
    get_or bs 0 0 * 2 ^ 24 + get_or bs 1 0 * 2 ^ 16 + get_or bs 2 0 * 2 ^ 8 + get_or bs 3 0

-- `copy(dst[i:], src)`.
unfoldable pub copy_at : Bytes → ℕ → Bytes → Bytes
copy_at [] i src = []
copy_at (x ∷ xs) (suc i) src = x ∷ copy_at xs i src
copy_at (x ∷ xs) zero [] = x ∷ xs
copy_at (x ∷ xs) zero (s ∷ ss) = s ∷ copy_at xs zero ss

-- The header is complete: its length field is read and the frame is counted.
unfoldable pub header_done : FrameCounter → FrameCounter
header_done fc =
    let len = be_uint32 (drop 1 fc.hdr_buf) in
    record fc {
      remain = len;
      count = fc.count + 1;
      hdr_n = 0;
      state = if ltb 0 len then 1 else fc.state;
    }

-- `n` bytes of a header arrive.
unfoldable pub fill_header : FrameCounter → Bytes → ℕ → FrameCounter
fill_header fc chunk n =
    let filled = record fc { hdr_buf = copy_at fc.hdr_buf fc.hdr_n chunk; hdr_n = fc.hdr_n + n } in
    if filled.hdr_n == 5 then header_done filled else filled

unfoldable pub scan_header : FrameCounter → Bytes → FrameCounter × Bytes
scan_header fc input =
    let n = min (5 - fc.hdr_n) (length input) in (fill_header fc (take n input) n, drop n input)

-- `uint32(len(data))` wraps at 2 ^ 32.
unfoldable pub scan_payload : FrameCounter → Bytes → FrameCounter × Bytes
scan_payload fc input =
    let skip = min (length input % 2 ^ 32) fc.remain in
    let left = fc.remain - skip in
    (record fc { remain = left; state = if left == 0 then 0 else fc.state }, drop skip input)

-- One round of the loop.
unfoldable pub scan_step : FrameCounter → Bytes → FrameCounter × Bytes
scan_step fc input = if fc.state == 0 then scan_header fc input else scan_payload fc input

-- `none`: the rounds did not suffice.
unfoldable pub scan_loop : ℕ → FrameCounter → Bytes → Option FrameCounter
scan_loop fuel fc [] = some fc
scan_loop zero fc (b ∷ bs) = none
scan_loop (suc fuel) fc (b ∷ bs) =
    let (next, rest) = scan_step fc (b ∷ bs) in scan_loop fuel next rest

-- A round takes a byte at least, so as many rounds as bytes are enough (`Feed`).
unfoldable pub scan : FrameCounter → Bytes → Option FrameCounter
scan fc input = scan_loop (length input) fc input

-- The calls of `Read`, in their order, each with the chunk that it returned.
unfoldable pub read_all : FrameCounter → List Bytes → Option FrameCounter
read_all fc [] = some fc
read_all fc (c ∷ cs) = elim (scan fc c) [ none ↦ none | some next ↦ read_all next cs ]
