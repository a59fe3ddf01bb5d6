-- ===== src/Web/Sse/Stream.antt =====
-- web/web.go, handleSSE: what a browser reads of the stream.
use mathlib.Core.List.{Sublist, sublist-append_left}
use mathlib.Core.List.Sublist
use grpc_tap.Prelude.{
  Result, ℕ, ◌≡◌, refl, ap, ◌∙◌, sym, some, List, [], ◌∷◌, ◌++◌, map, Bytes, codes, true, false,
  ◌==◌, if◌then◌else◌, has_prefix, split_lines, length, take, drop, length-append,
  take-length_append, append_assoc, All, arith,
}
use grpc_tap.Proxy.Types.{Event}
use grpc_tap.Broker.World.{Action, World, start, run}
use grpc_tap.Broker.Delivery.{waiting, run-delivers}
use grpc_tap.Web.{Formats, EventJson, event_to_json}
use grpc_tap.Web.Sse.{
  arrived, stream, streaming, sse_headers, chunk, write_event, sse_loop, handle_sse,
}

-- A browser's EventSource, on a stream without carriage returns, and without the fields that are
-- not data: a data line adds its value to the buffer, and an empty line makes the buffer a message
-- unless nothing was added to it.
abbrev pub unspaced : Bytes → Bytes
unspaced [] = []
unspaced (c ∷ s) = if c == 0x20 then s else c ∷ s

abbrev pub data_of : Bytes → Bytes
data_of l = if has_prefix l (codes "data:") then unspaced (drop 5 l) ++ (0x0a ∷ []) else []

abbrev pub dispatch : Bytes → List Bytes → List Bytes
dispatch [] rest = rest
dispatch (c ∷ buffer) rest = take (length buffer) (c ∷ buffer) ∷ rest

abbrev pub read_lines : Bytes → List Bytes → List Bytes
read_lines buffer [] = []
read_lines buffer ([] ∷ ls) = dispatch buffer (read_lines [] ls)
read_lines buffer ((c ∷ l) ∷ ls) = read_lines (buffer ++ data_of (c ∷ l)) ls

abbrev pub concat : List Bytes → Bytes
concat [] = []
concat (c ∷ cs) = c ++ concat cs

abbrev pub read_stream : List Bytes → List Bytes
read_stream chunks = read_lines [] (split_lines (concat chunks))

abbrev pub IsLine : Bytes → Type 0
IsLine = All (λ c. (c == 0x0a) ≡ false)

split_lines-line :
    (l rest : Bytes) → IsLine l → split_lines (l ++ (0x0a ∷ rest)) ≡ l ∷ split_lines rest
split_lines-line [] rest h = refl
split_lines-line (c ∷ l) rest h = rw (h.0, split_lines-line l rest h.1)

dispatch-text : (s : Bytes) (rest : List Bytes) → dispatch (s ++ (0x0a ∷ [])) rest ≡ s ∷ rest
dispatch-text [] rest = refl
dispatch-text (c ∷ s) rest =
    let p : length (s ++ (0x0a ∷ [])) ≡ length (c ∷ s) =
      omega (arith, length-append s (0x0a ∷ [])) in
    rw (p, take-length_append (c ∷ s) (0x0a ∷ []))

read_stream-chunk :
    (s : Bytes) (chunks : List Bytes)
    → IsLine s
    → read_stream (chunk s ∷ chunks) ≡ s ∷ read_stream chunks
unfolding chunk
read_stream-chunk s chunks h =
    let line : Bytes = codes "data: " ++ s in
    let whole : line ++ (0x0a ∷ 0x0a ∷ concat chunks) ≡ chunk s ++ concat chunks =
      ap (λ r. codes "data: " ++ r) (sym (append_assoc s (0x0a ∷ 0x0a ∷ []) (concat chunks))) in
    let split : split_lines (chunk s ++ concat chunks) ≡ line ∷ ([] ∷ split_lines (concat chunks)) =
      ap split_lines (sym whole)
      ∙ split_lines-line line (0x0a ∷ concat chunks)
          (refl, (refl, (refl, (refl, (refl, (refl, h)))))) in
    ap (read_lines []) split ∙ dispatch-text s _

module _ (f : Formats) (marshal : EventJson f.floats.Float → Result Bytes)
    (text : EventJson f.floats.Float → Bytes) where
  pub chunks_of :
      ((e : EventJson f.floats.Float) → marshal e ≡ Result.good (text e))
      → ((e : EventJson f.floats.Float) → IsLine (text e))
      → (evs : List Event)
      → (chunks : List Bytes) × (sse_loop f marshal (map arrived evs) ≡ (chunks, streaming))
        × (read_stream chunks ≡ map (λ ev. text (event_to_json f ev)) evs)
  unfolding sse_loop write_event
  chunks_of good line [] = ([], refl, refl)
  chunks_of good line (ev ∷ evs) =
      let e = event_to_json f ev in
      let (chunks, loop, read) = chunks_of good line evs in
      (
        chunk (text e) ∷ chunks,
        rw (loop, good e) refl,
        read_stream-chunk (text e) chunks (line e) ∙ ap (◌∷◌ (text e)) read,
      )

  -- A browser that reads the stream, while its subscriber has received the events of the broker
  -- under any interleaving of calls and receives: no call panics, and the browser has one message
  -- for each of its events, the event's JSON, in the order in which they were published while the
  -- subscriber was subscribed, of which they are a subsequence. It is assumed that an event has a
  -- JSON text, without a line feed.
  pub handle_sse-delivers :
      ((e : EventJson f.floats.Float) → marshal e ≡ Result.good (text e))
      → ((e : EventJson f.floats.Float) → IsLine (text e))
      → (n : ℕ) (acts : List (Action Event)) (i : ℕ)
      → (w : World Event) × (chunks : List Bytes) × (run acts (start n) ≡ some w)
        × (handle_sse f marshal true (map arrived (w.got i)) ≡ stream sse_headers chunks streaming)
        × (read_stream chunks ≡ map (λ ev. text (event_to_json f ev)) (w.got i))
        × Sublist (w.got i) (w.offered i)
  unfolding handle_sse
  handle_sse-delivers good line n acts i =
      let (w, r, _, order, _) = run-delivers n acts i in
      let (chunks, loop, read) = chunks_of good line (w.got i) in
      (
        w,
        chunks,
        r,
        rw loop refl,
        read,
        Sublist.trans (sublist-append_left (w.got i) (waiting i w)) order,
      )
