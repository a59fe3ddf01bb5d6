-- ===== src/Pipeline/Runs.antt =====
-- From the proxy to the screen at a concrete input.
use mathlib.Core.List.{Sublist}
use grpc_tap.Prelude.{arith, ◌≡◌, refl, none, some, List, [], ◌∷◌, length, replicate, map, codes}
use grpc_tap.Prelude.Int.{pos}
use grpc_tap.Proxy.Types.{Event}
use grpc_tap.Server.{event_to_proto}
use grpc_tap.Server.Watch.{watch, watching, received}
use grpc_tap.Tui.Model.{Model}
use grpc_tap.Tui.Toy.{machine, one_byte, one_line}
use grpc_tap.Pipeline.{Shows}
use grpc_tap.Pipeline.Captured.{flow-Shows, flow_complete-Shows}
use grpc_tap.Broker.Delivery.{waiting}
use grpc_tap.Prelude.Decimal.{parse_int, clamp_int, parse_uint, parse_digits}
use grpc_tap.Proxy.Toy.{
  two_messages, ok_response, no_reader, no_inflate, grpc_codes, grpc_header, call, stamp, answering,
}
use grpc_tap.Proxy.Capture
use grpc_tap.Proxy.Header
use grpc_tap.Proxy.FrameCounter.{
  new_frame_counter, scan, read_all, be_uint32, scan_loop, copy_at, header_done, fill_header,
  scan_header, scan_payload, scan_step,
}
use grpc_tap.Proxy.Payload.{extract_payload, slice?}
use grpc_tap.Proxy.Detect.{detect_call_type, detect_protocol}
use grpc_tap.Proxy.Status.{extract_status, extract_grpc_status, status_code_of}
use grpc_tap.Proxy.Serve.{
  is_framed, out_request, announce, add_trailers, count_frames, call_event, serve_http,
}
use grpc_tap.Proxy.Serve
use grpc_tap.Proxy.Serve.Calls.{Call, answers, serve_all}
use grpc_tap.Web.{event_to_json}
use grpc_tap.Web.Toy.{formats, constant}
use grpc_tap.Web.Sse.{arrived, stream, streaming, sse_headers, handle_sse}
use grpc_tap.Web.Sse.Stream.{read_stream}
use grpc_tap.Prelude.{Result, true, Bytes}
use grpc_tap.Pipeline.Browser.{read_stream-flow}
use mathlib.Core.List.{flatten}
use grpc_tap.Chan.{make}
use grpc_tap.Prelude.{◌++◌}
use grpc_tap.Proxy.Payload.{frame, put_uint32}
use grpc_tap.Proxy.Serve.{Reply, replied}
use grpc_tap.Web.{handle_replay}
use grpc_tap.Pipeline.Replay.{replay_result, serve_http-replayed}
use grpc_tap.Proxy.Serve.{replay, replay_event}
use grpc_tap.Chan.{offer}
use grpc_tap.Server
use grpc_tap.Server.{replay_reply}
use grpc_tap.Tui.TapEvent.{TapEvent}
use grpc_tap.Tui.Model.{replay_result_msg, view_inspect, cursor_event, found}
use grpc_tap.Pipeline.Resend.{replay-update_all}
use grpc_tap.Pipeline.Calls.{row_summary, serve_all-row_summary}
use grpc_tap.Tui.Model.{new, event_msg}
use grpc_tap.Tui.Model.Safety.{update_all}
use grpc_tap.Daemon.Flow.{Flow, Move, captures, pumps, ends, opens, takes, start, flow, captured}

abbrev event : Event
event = record {
  id = codes "a";
  method = codes "/echo";
  call_type = pos 0;
  protocol = pos 0;
  start_time = pos 0;
  duration = pos 7;
  status = pos 0;
  error = [];
  request_headers = [];
  response_headers = [];
  request_body = [];
  response_body = [];
}

abbrev moves : List (Move Event)
moves = captures event ∷ (pumps ∷ (captures event ∷ []))

flow-Shows_example :
    (f : Flow Event) × (m : Model) × (flow moves start ≡ some f)
    × (watch (map (λ ev. received ev none) (f.world.got 0))
        ≡ (map event_to_proto (f.world.got 0), watching))
    × Shows machine refl one_byte one_line (codes "localhost") (f.world.got 0) m
    × Sublist (f.world.got 0) (captured moves)
flow-Shows_example =
    flow-Shows machine refl one_byte one_line (codes "localhost") moves 0 (tt, (tt, (tt, tt)))

flow_complete-Shows_example :
    (f : Flow Event) × (f' : Flow Event) × (f'' : Flow Event) × (m : Model) × (flow
        (opens ∷ moves)
        start
      ≡ some f)
    × (flow (ends ∷ replicate (length f.events.buf) pumps) f ≡ some f')
    × (flow (replicate (length (waiting 0 f'.world)) (takes 0)) f' ≡ some f'')
    × (f''.world.got 0 ≡ captured moves)
    × Shows machine refl one_byte one_line (codes "localhost") (captured moves) m
flow_complete-Shows_example =
    flow_complete-Shows machine refl one_byte one_line (codes "localhost") moves
      (tt, (tt, (tt, tt))) (tt, (tt, (tt, tt))) (omega arith)

-- One call, and the event that it sends.
abbrev calls : List Call
calls = record { upstream = answering; stamp = stamp; request = call } ∷ []

abbrev echoed : Event
echoed = record {
  id = codes "a";
  method = codes "/echo.Echo/Say";
  call_type = pos 3;
  protocol = pos 0;
  start_time = pos 0;
  duration = pos 7;
  status = pos 0;
  error = [];
  request_headers = grpc_header;
  response_headers = grpc_header;
  request_body = 9 ∷ [];
  response_body = 9 ∷ [];
}

serve_all-calls : serve_all grpc_codes no_reader no_inflate calls ≡ some (echoed ∷ [])
unfolding serve_http is_framed detect_protocol Header.get Header.values out_request announce
    add_trailers count_frames call_event Serve.captured extract_payload slice? detect_call_type
    extract_status extract_grpc_status status_code_of Header.copy_headers read_all scan scan_loop
    scan_step scan_header scan_payload fill_header header_done copy_at be_uint32 new_frame_counter
    Capture.read Capture.read_all Capture.new_capture_reader parse_int clamp_int parse_uint
    parse_digits
serve_all-calls = refl

abbrev served : List (Move Event)
served = captures echoed ∷ (pumps ∷ [])

serve_all-row_summary_example :
    (f : Flow Event) × (f' : Flow Event) × (f'' : Flow Event) × (m : Model) × (flow
        (opens ∷ served)
        start
      ≡ some f)
    × (flow (ends ∷ replicate (length f.events.buf) pumps) f ≡ some f')
    × (flow (replicate (length (waiting 0 f'.world)) (takes 0)) f' ≡ some f'')
    × (update_all machine one_byte one_line
          (map event_msg (map event_to_proto (f''.world.got 0)))
          (new (codes "localhost"))
        ≡ some m)
    × (map (row_summary m) m.display_rows ≡ map some (answers grpc_codes calls))
serve_all-row_summary_example =
    serve_all-row_summary machine refl one_byte one_line (codes "localhost") no_reader no_inflate
      grpc_codes calls served (omega arith, tt) serve_all-calls (tt, (tt, tt)) (tt, (tt, tt))
      (omega arith)

read_stream-flow_example :
    (w : Flow Event) × (w' : Flow Event) × (w'' : Flow Event) × (chunks : List Bytes) × (flow
        (opens ∷ served)
        start
      ≡ some w)
    × (flow (ends ∷ replicate (length w.events.buf) pumps) w ≡ some w')
    × (flow (replicate (length (waiting 0 w'.world)) (takes 0)) w' ≡ some w'')
    × (handle_sse formats (λ e. Result.good (constant e)) true (map arrived (w''.world.got 0))
        ≡ stream sse_headers chunks streaming)
    × (read_stream chunks ≡ map (λ ev. constant (event_to_json formats ev)) (captured served))
read_stream-flow_example =
    read_stream-flow formats (λ e. Result.good (constant e)) constant served (λ e. refl)
      (λ e. (refl, (refl, tt))) (tt, (tt, tt)) (tt, (tt, tt)) (omega arith)

call-is_framed : is_framed (detect_protocol call.header) ≡ true
unfolding is_framed detect_protocol Header.get Header.values
call-is_framed = refl

serve_http-replayed_example :
    (reply : Reply) × (first : Event) × (ev : Event) × (serve_http no_reader no_inflate grpc_codes
        answering stamp call
      ≡ some (reply, first ∷ []))
    × (handle_replay formats
          (replay_result no_reader no_inflate
            (λ m h b. replied ok_response (frame (7 ∷ []) ++ []))
            stamp
            (make 1))
          (Result.good
            ((event_to_json formats first).method, (event_to_json formats first).request_body))
        ≡ (
          record { status = 200; event = some (event_to_json formats ev); error = [] },
          (call.path, (9 ∷ [])) ∷ [],
        ))
    × (ev.method ≡ call.path)
    × (ev.request_body ≡ 9 ∷ [])
    × (ev.response_body ≡ 7 ∷ [])
unfolding frame put_uint32 flatten
serve_http-replayed_example =
    serve_http-replayed no_reader no_inflate grpc_codes formats answering stamp stamp call
      two_messages two_messages ok_response ok_response (9 ∷ []) (0 ∷ 0 ∷ 0 ∷ 0 ∷ 0 ∷ []) (9 ∷ [])
      (0 ∷ 0 ∷ 0 ∷ 0 ∷ 0 ∷ []) (7 ∷ []) [] (λ m h b. replied ok_response (frame (7 ∷ []) ++ []))
      (make 1) refl call-is_framed (omega arith) (omega arith) refl refl (omega arith) (omega arith)
      refl refl (omega arith) (unfold make in refl) (λ s. refl) refl

replay-update_all_example :
    (ev : Event) × (shown : TapEvent) × (m' : Model) × (replay no_reader no_inflate
        (λ m h b. replied ok_response (frame (7 ∷ []) ++ []))
        stamp
        (codes "/echo.Echo/Say")
        (9 ∷ [])
        (make 1)
      ≡ some (replay_event ev, offer ev (make 1)))
    × (replay_reply (replay_event ev) ≡ Server.answered shown)
    × (update_all machine one_byte one_line
          (replay_result_msg shown.id none ∷ (event_msg (event_to_proto ev) ∷ []))
          (new (codes "localhost"))
        ≡ some m')
    × (m'.view ≡ view_inspect)
    × (cursor_event m' ≡ found shown)
    × (shown.method ≡ codes "/echo.Echo/Say")
    × (shown.request_body ≡ 9 ∷ [])
    × (shown.response_body ≡ 7 ∷ [])
replay-update_all_example =
    replay-update_all no_reader no_inflate machine refl one_byte one_line
      (λ m h b. replied ok_response (frame (7 ∷ []) ++ [])) stamp (codes "/echo.Echo/Say") (9 ∷ [])
      (7 ∷ []) [] ok_response (make 1) (new (codes "localhost")) refl (omega arith)
      (unfold make in refl) refl (unfold new in refl) (unfold new in refl) (unfold new in refl)
