-- ===== src/Proxy/Runs.antt =====
-- Concrete runs of the package proxy, and its theorems at concrete inputs.
use mathlib.Core.List.{flatten}
use grpc_tap.Prelude.{◌≡◌, refl, true, inl, none, some, [], ◌∷◌, codes, length, arith, ltb}
use grpc_tap.Prelude.Int.{pos}
use grpc_tap.Prelude.Decimal.{print_nat}
use grpc_tap.Proxy.Types.{Header, Event, protocol_grpc}
use grpc_tap.Proxy.FrameCounter.{
  FrameCounter, new_frame_counter, scan, read_all, be_uint32, scan_loop, copy_at, header_done,
  fill_header, scan_header, scan_payload, scan_step,
}
use grpc_tap.Proxy.FrameCounter.Feed.{feed_all, scan-feed_all}
use grpc_tap.Proxy.FrameCounter.Stream.{headers, new-IsValid, read_all-headers}
use grpc_tap.Proxy.Payload.{frame, put_uint32}
use grpc_tap.Proxy.Detect.{call_type_of, detect_protocol}
use grpc_tap.Proxy.Header
use grpc_tap.Proxy.Status.{Response, AreErrors, extract_status, extract_status-trailer}
use grpc_tap.Proxy.Listen.{server_closed, listen_and_serve, listen_and_serve-replay}
use grpc_tap.Proxy.Serve.{Reply, forwarded, is_framed, serve_http, replay, replied}
use grpc_tap.Proxy.Serve.Bounds.{AreWithin, serve_http-AreWithin}
use grpc_tap.Proxy.Serve.Laws.{serve_http-captures}
use grpc_tap.Proxy.Serve.Send.{serve_and_send, SendsTo, serve_and_send-forwards}
use grpc_tap.Proxy.Toy.{
  two_messages, no_reader, no_inflate, grpc_codes, grpc_header, call, stamp, ok_response, answering,
}
use grpc_tap.Chan.{Chan, make}

read_all_two :
    read_all new_frame_counter two_messages
    ≡ some
        (record { count = 2; state = 0; hdr_buf = 0 ∷ 0 ∷ 0 ∷ 0 ∷ 0 ∷ []; hdr_n = 0; remain = 0 })
unfolding read_all scan scan_loop scan_step scan_header scan_payload fill_header header_done copy_at
    be_uint32 new_frame_counter
read_all_two = refl

scan-feed_all_example :
    scan new_frame_counter (0 ∷ 0 ∷ 0 ∷ 0 ∷ 1 ∷ 9 ∷ 0 ∷ [])
    ≡ some (feed_all new_frame_counter (0 ∷ 0 ∷ 0 ∷ 0 ∷ 1 ∷ 9 ∷ 0 ∷ []))
scan-feed_all_example =
    scan-feed_all new_frame_counter (0 ∷ 0 ∷ 0 ∷ 0 ∷ 1 ∷ 9 ∷ 0 ∷ []) new-IsValid (omega arith)

read_all-headers_example :
    (fc : FrameCounter) × (read_all new_frame_counter two_messages ≡ some fc)
    × (fc.count ≡ headers (length (flatten two_messages)) (flatten two_messages))
read_all-headers_example = read_all-headers two_messages (omega arith)

abbrev not_found : Response
not_found = record {
  status_code = 404;
  status = codes "404 Not Found";
  header = [];
  trailer = (codes "Grpc-Status", (codes "5" ∷ [])) ∷ [];
  announced = [];
}

grpc_codes-AreErrors : AreErrors grpc_codes
grpc_codes-AreErrors = record {
  internal_ne = λ e. ground arith;
  unauthenticated_ne = λ e. ground arith;
  permission_denied_ne = λ e. ground arith;
  unimplemented_ne = λ e. ground arith;
  unavailable_ne = λ e. ground arith;
  unknown_ne = λ e. ground arith;
}

extract_status-trailer_example :
    extract_status grpc_codes protocol_grpc not_found
    ≡ (pos 5, Header.get (codes "Grpc-Message") not_found.trailer)
unfolding Header.get Header.values print_nat
extract_status-trailer_example =
    extract_status-trailer grpc_codes protocol_grpc not_found 5 (inl refl) (omega arith) refl

-- An error without a body: the status is in the header.
abbrev trailers_only : Response
trailers_only = record {
  status_code = 200;
  status = codes "200 OK";
  header = (codes "Grpc-Status", (codes "5" ∷ [])) ∷ [];
  trailer = [];
  announced = [];
}

call-is_framed : is_framed (detect_protocol call.header) ≡ true
unfolding is_framed detect_protocol Header.get Header.values
call-is_framed = refl

serve_http-captures_example :
    (reply : Reply) × (ev : Event) × (serve_http no_reader no_inflate grpc_codes answering stamp
        call
      ≡ some (reply, ev ∷ []))
    × (ev.method ≡ call.path)
    × (ev.request_body ≡ 9 ∷ [])
    × (ev.response_body ≡ 9 ∷ [])
    × (ev.call_type
        ≡ call_type_of
            (ltb 1 (headers (length (flatten two_messages)) (flatten two_messages)))
            (ltb 1 (headers (length (flatten two_messages)) (flatten two_messages))))
unfolding frame put_uint32 flatten
serve_http-captures_example =
    serve_http-captures no_reader no_inflate grpc_codes answering stamp call two_messages
      two_messages ok_response (9 ∷ []) (0 ∷ 0 ∷ 0 ∷ 0 ∷ 0 ∷ []) (9 ∷ []) (0 ∷ 0 ∷ 0 ∷ 0 ∷ 0 ∷ [])
      refl call-is_framed (omega arith) (omega arith) refl refl (omega arith) (omega arith)

serve_and_send-forwards_example :
    (h late : Header) × (ev : Event) × SendsTo
      (make 1)
      (forwarded 200 h late (flatten two_messages))
      ev
      (serve_and_send no_reader no_inflate grpc_codes answering stamp call (make 1))
    × (Header.values (codes "Content-Type") h ≡ Header.values (codes "Content-Type") grpc_header)
    × (ev.method ≡ codes "/echo.Echo/Say")
    × ((ev.status, ev.error) ≡ extract_status grpc_codes (detect_protocol grpc_header) ok_response)
serve_and_send-forwards_example =
    serve_and_send-forwards no_reader no_inflate grpc_codes answering stamp call two_messages
      two_messages ok_response (codes "Content-Type") (make 1) refl (omega arith) (omega arith)
      (tt, tt) refl

listen_and_serve-replay_example :
    (events' : Chan Event) × (listen_and_serve (codes ":8080") server_closed (make 1)
      ≡ some (none, events'))
    × (replay no_reader no_inflate
          (λ m h b. replied ok_response (frame (9 ∷ [])))
          stamp
          (codes "/echo.Echo/Say")
          (8 ∷ [])
          events'
        ≡ none)
listen_and_serve-replay_example =
    listen_and_serve-replay no_reader no_inflate (λ m h b. replied ok_response (frame (9 ∷ [])))
      stamp (codes ":8080") (codes "/echo.Echo/Say") (8 ∷ []) (frame (9 ∷ [])) ok_response (make 1)
      (unfold make in refl) refl

serve_http-AreWithin_example :
    (reply : Reply) × (ev : Event) × (serve_http no_reader no_inflate grpc_codes answering stamp
        call
      ≡ some (reply, ev ∷ []))
    × AreWithin no_reader no_inflate ev
serve_http-AreWithin_example =
    serve_http-AreWithin no_reader no_inflate grpc_codes answering stamp call two_messages
      two_messages ok_response refl (omega arith) (omega arith)
