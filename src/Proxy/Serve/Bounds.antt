-- ===== src/Proxy/Serve/Bounds.antt =====
-- proxy/reverse_proxy.go, ServeHTTP: how long the bodies of an event can be.
use mathlib.Core.List.{flatten}
use grpc_tap.Prelude.{
  ◌*◌, ◌≤◌, ◌≡◌, ap, inl, inr, Option, some, List, [], ◌∷◌, Bytes, length, length-take, All, arith,
  Bool-cases, subst,
}
use grpc_tap.Proxy.Types.{Event, Protocol}
use grpc_tap.Proxy.Capture
use grpc_tap.Proxy.Payload.{decompress_gzip}
use grpc_tap.Proxy.Payload.Bounds.{IsWithin, extract_payload-IsWithin, decompress_gzip-IsWithin}
use grpc_tap.Proxy.Detect.{detect_protocol}
use grpc_tap.Proxy.FrameCounter.Stream.{IsChunk}
use grpc_tap.Proxy.Serve.Laws.{count_frames-some, captured-some, reply_to, serve_http-answered}
use grpc_tap.Proxy.Status.{ConnectCodes, Response}
use grpc_tap.Proxy.Serve.{
  Request, OutRequest, Outcome, answered, Reply, Stamp, is_framed, out_request, captured,
  call_event, serve_http,
}

module _ {R : Type 0} (new_reader : Bytes → Option R) (inflate : R → Option Bytes) where
  captured-IsWithin :
      (p : Protocol) (chunks : List Bytes) (body : Bytes)
      → captured new_reader inflate p chunks ≡ some body
      → IsWithin new_reader inflate (64 * 1024) body
  unfolding captured
  captured-IsWithin p chunks body e =
      let kept =
        Capture.bytes
          (Capture.read_all (Capture.new_capture_reader Capture.max_capture_size) chunks) in
      let small : length kept ≤ 64 * 1024 = omega (
        arith,
        ap length (Capture.bytes-read_all Capture.max_capture_size chunks),
        length-take Capture.max_capture_size (flatten chunks),
      ) in
      elim (Bool-cases (is_framed p)) [
        | inl f ↦
            extract_payload-IsWithin new_reader inflate (64 * 1024) kept body small (rw f at e)
        | inr f ↦
            let same : decompress_gzip new_reader inflate kept ≡ body = cc (rw f at e) in
            subst (IsWithin new_reader inflate (64 * 1024)) same
              (decompress_gzip-IsWithin new_reader inflate (64 * 1024) kept small)
      ]

  -- Both bodies of an event.
  abbrev pub AreWithin : Event → Type 0
  AreWithin ev =
      IsWithin new_reader inflate (64 * 1024) ev.request_body
      × IsWithin new_reader inflate (64 * 1024) ev.response_body

  -- The event of a call that is answered, with bodies read in chunks of less than 2^32 bytes, holds
  -- at most 64 KiB of each body, unless gzip has made the body out of at most 64 KiB.
  pub serve_http-AreWithin :
      (c : ConnectCodes) (upstream : OutRequest → Outcome) (stamp : Stamp) (r : Request)
      (sent received : List Bytes) (resp : Response)
      → upstream (out_request r) ≡ answered sent resp received
      → All IsChunk sent
      → All IsChunk received
      → (reply : Reply) × (ev : Event) × (serve_http new_reader inflate c upstream stamp r
          ≡ some (reply, ev ∷ []))
        × AreWithin ev
  unfolding call_event
  serve_http-AreWithin c upstream stamp r sent received resp u hs hr =
      let p = detect_protocol r.header in
      let (fq, q1) = count_frames-some p sent hs in
      let (fr, q2) = count_frames-some p received hr in
      let (bq, q3) = captured-some new_reader inflate c p sent in
      let (br, q4) = captured-some new_reader inflate c p received in
      (
        reply_to resp received,
        call_event c stamp r resp fq fr bq br,
        serve_http-answered new_reader inflate c upstream stamp r sent received resp u q1 q2 q3 q4,
        (captured-IsWithin p sent bq q3, captured-IsWithin p received br q4),
      )
