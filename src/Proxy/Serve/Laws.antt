-- ===== src/Proxy/Serve/Laws.antt =====
-- proxy/reverse_proxy.go: what ServeHTTP does for a call that the upstream server answers.
use mathlib.Core.List.{flatten}
use grpc_tap.Prelude.{
  ◌+◌, ◌*◌, ◌^◌, ◌≤◌, ◌<◌, ◌≡◌, refl, ap, ◌∙◌, ◌≢◌, inl, inr, ◌++◌, Option, none, some, List, [],
  ◌∷◌, Bytes, codes, true, false, ltb, arith, eq_bytes, length, All, Bool-cases, Option-cases,
  length-take, le→leb,
}
use grpc_tap.Proxy.Types.{Header, Event, Protocol, protocol_connect}
use grpc_tap.Proxy.Header.{get, add, copy_headers, values, IsMap, values-copy_headers, values-add}
use grpc_tap.Proxy.FrameCounter.{FrameCounter, new_frame_counter, read_all}
use grpc_tap.Proxy.FrameCounter.Stream.{IsChunk, headers, read_all-headers}
use grpc_tap.Proxy.Capture
use grpc_tap.Proxy.Payload.{frame, extract_payload}
use grpc_tap.Proxy.Payload.Laws.{extract_payload-ne-none, extract_payload-captured}
use grpc_tap.Proxy.Detect.{detect_protocol, call_type_of, detect_call_type-headers}
use grpc_tap.Proxy.Status.{ConnectCodes, Response, extract_status}
use grpc_tap.Proxy.Serve.{
  Request, OutRequest, Outcome, answered, Reply, forwarded, Stamp, is_framed, out_request, announce,
  add_trailers, count_frames, captured, call_event, serve_http,
}

-- The names of the trailers go under one key.
values-announce :
    (j : Bytes) (ks : List Bytes) (h : Header)
    → eq_bytes (codes "Trailer") j ≡ false
    → values j (announce ks h) ≡ values j h
unfolding announce
values-announce j [] h e = refl
values-announce j (k ∷ ks) h e =
    values-announce j ks (add (codes "Trailer") k h) e ∙ (values-add (codes "Trailer") j k h ∙ rw e)

-- No chunk of a body makes the counter panic.
pub count_frames-some :
    (p : Protocol) (cs : List Bytes)
    → All IsChunk cs
    → (f : Option FrameCounter) × (count_frames p cs ≡ some f)
unfolding count_frames
count_frames-some p cs h = elim (Bool-cases (is_framed p)) [
  | inl e ↦ let (fc, at, _) = read_all-headers cs h in (some fc, rw (e, at))
  | inr e ↦ (none, rw e)
]

count_frames-framed :
    (p : Protocol) (cs : List Bytes)
    → is_framed p ≡ true
    → All IsChunk cs
    → count_frames p cs ≡ some (read_all new_frame_counter cs)
unfolding count_frames
count_frames-framed p cs e h = let (fc, at, _) = read_all-headers cs h in rw (e, at)

is_framed-connect : (p : Protocol) → is_framed p ≡ true → p ≢ protocol_connect
unfolding is_framed
is_framed-connect p e c = let f : is_framed p ≡ false = rw c in absurd cc

-- What the client is sent of an answer.
abbrev pub reply_to : Response → List Bytes → Reply
reply_to resp received =
    let h = announce resp.announced (copy_headers [] resp.header) in
    forwarded resp.status_code h (add_trailers resp.trailer h) (flatten received)

module _ {R : Type 0} (new_reader : Bytes → Option R) (inflate : R → Option Bytes)
    (c : ConnectCodes) where
  extract_payload-some :
      (s : Bytes)
      → length s < 2 ^ 32
      → (b : Bytes) × (extract_payload new_reader inflate s ≡ some b)
  extract_payload-some s h = elim (Option-cases (extract_payload new_reader inflate s)) [
    | inl miss ↦ absurd (extract_payload-ne-none new_reader inflate s h miss)
    | inr found ↦ found
  ]

  captured-framed :
      (p : Protocol) (cs : List Bytes)
      → is_framed p ≡ true
      → captured new_reader inflate p cs
        ≡ extract_payload new_reader inflate (
            Capture.bytes
              (Capture.read_all (Capture.new_capture_reader Capture.max_capture_size) cs))
  unfolding captured
  captured-framed p cs e = rw e

  captured-other :
      (p : Protocol) (cs : List Bytes)
      → is_framed p ≡ false
      → (b : Bytes) × (captured new_reader inflate p cs ≡ some b)
  unfolding captured
  captured-other p cs e = rw e (_, refl)

  -- Nor does any body that was captured make the parser panic.
  pub captured-some :
      (p : Protocol) (cs : List Bytes) → (b : Bytes) × (captured new_reader inflate p cs ≡ some b)
  captured-some p cs = elim (Bool-cases (is_framed p)) [
    | inl e ↦
        let kept =
          Capture.bytes
            (Capture.read_all (Capture.new_capture_reader Capture.max_capture_size) cs) in
        let (b, q) = extract_payload-some kept (
          omega (
            arith,
            ap length (Capture.bytes-read_all Capture.max_capture_size cs),
            length-take Capture.max_capture_size (flatten cs),
          )) in
        (b, captured-framed p cs e ∙ q)
    | inr e ↦ captured-other p cs e
  ]

  pub serve_http-answered :
      (upstream : OutRequest → Outcome) (stamp : Stamp) (r : Request) (sent received : List Bytes)
      (resp : Response) {fq fr : Option FrameCounter} {bq br : Bytes}
      → upstream (out_request r) ≡ answered sent resp received
      → count_frames (detect_protocol r.header) sent ≡ some fq
      → count_frames (detect_protocol r.header) received ≡ some fr
      → captured new_reader inflate (detect_protocol r.header) sent ≡ some bq
      → captured new_reader inflate (detect_protocol r.header) received ≡ some br
      → serve_http new_reader inflate c upstream stamp r
        ≡ some (reply_to resp received, call_event c stamp r resp fq fr bq br ∷ [])
  unfolding serve_http
  serve_http-answered upstream stamp r sent received resp u q1 q2 q3 q4 =
      rw (serve_http, u, q1, q2, q3, q4)

  -- Up to the send, what a call that the upstream server answers comes to: the reply, and the event
  -- that is to be sent. Proxy/Serve/Send goes on from there.
  pub serve_http-forwards :
      (upstream : OutRequest → Outcome) (stamp : Stamp) (r : Request) (sent received : List Bytes)
      (resp : Response) (j : Bytes)
      → upstream (out_request r) ≡ answered sent resp received
      → All IsChunk sent
      → All IsChunk received
      → IsMap resp.header
      → eq_bytes (codes "Trailer") j ≡ false
      → (h late : Header) × (ev : Event) × (serve_http new_reader inflate c upstream stamp r
          ≡ some (forwarded resp.status_code h late (flatten received), ev ∷ []))
        × (values j h ≡ values j resp.header)
        × (ev.method ≡ r.path)
        × ((ev.status, ev.error) ≡ extract_status c (detect_protocol r.header) resp)
  serve_http-forwards upstream stamp r sent received resp j u hs hr m t =
      let p = detect_protocol r.header in
      let (fq, q1) = count_frames-some p sent hs in
      let (fr, q2) = count_frames-some p received hr in
      let (bq, q3) = captured-some p sent in
      let (br, q4) = captured-some p received in
      let h = announce resp.announced (copy_headers [] resp.header) in
      (
        h,
        _,
        call_event c stamp r resp fq fr bq br,
        serve_http-answered upstream stamp r sent received resp u q1 q2 q3 q4,
        values-announce j resp.announced (copy_headers [] resp.header) t
            ∙ unfold values in values-copy_headers j resp.header [] m,
        unfold call_event in refl,
        unfold call_event in refl,
      )

  captured-frame :
      (p : Protocol) (cs : List Bytes) (body rest : Bytes)
      → is_framed p ≡ true
      → flatten cs ≡ frame body ++ rest
      → 5 + length body ≤ 64 * 1024
      → captured new_reader inflate p cs ≡ some body
  captured-frame p cs body rest e f fits =
      captured-framed p cs e
      ∙ extract_payload-captured new_reader inflate Capture.max_capture_size body rest cs
          (omega arith) (omega arith) f
      ∙ rw (le→leb (5 + length body) (64 * 1024) fits)

  -- A gRPC or gRPC-Web call that is answered, and whose bodies each begin with an uncompressed
  -- message that fits in 64 KiB with its frame, cut into chunks of less than 2^32 bytes in any
  -- way: one event is emitted, and it shows the path, the two messages without their frames, and a call type
  -- that says for each direction whether its bytes hold the headers of two messages or more.
  pub serve_http-captures :
      (upstream : OutRequest → Outcome) (stamp : Stamp) (r : Request) (sent received : List Bytes)
      (resp : Response) (req rest_req ans rest_ans : Bytes)
      → upstream (out_request r) ≡ answered sent resp received
      → is_framed (detect_protocol r.header) ≡ true
      → All IsChunk sent
      → All IsChunk received
      → flatten sent ≡ frame req ++ rest_req
      → flatten received ≡ frame ans ++ rest_ans
      → 5 + length req ≤ 64 * 1024
      → 5 + length ans ≤ 64 * 1024
      → (reply : Reply) × (ev : Event) × (serve_http new_reader inflate c upstream stamp r
          ≡ some (reply, ev ∷ []))
        × (ev.method ≡ r.path)
        × (ev.request_body ≡ req)
        × (ev.response_body ≡ ans)
        × (ev.call_type
            ≡ call_type_of
                (ltb 1 (headers (length (flatten sent)) (flatten sent)))
                (ltb 1 (headers (length (flatten received)) (flatten received))))
  serve_http-captures upstream stamp r sent received resp req rest_req ans rest_ans u e hs hr fs fr
        ls lr =
      let p = detect_protocol r.header in
      (
        reply_to resp received,
        call_event c stamp r resp (read_all new_frame_counter sent)
            (read_all new_frame_counter received) req ans,
        serve_http-answered upstream stamp r sent received resp u (count_frames-framed p sent e hs)
            (count_frames-framed p received e hr) (captured-frame p sent req rest_req e fs ls)
            (captured-frame p received ans rest_ans e fr lr),
        unfold call_event in refl,
        unfold call_event in refl,
        unfold call_event in refl,
        unfold call_event in
            detect_call_type-headers p (get (codes "Content-Type") r.header) sent received
              (is_framed-connect p e) hs hr,
      )
