-- ===== src/Pipeline/Calls.antt =====
-- From the calls to the screen: ServeHTTP of proxy/reverse_proxy.go, cmd/grpc-tapd/main.go,
-- broker/broker.go, server/server.go and tui/model.go together.
use mathlib.Core.Option
use grpc_tap.Prelude.{
  ℕ, ◌≤◌, ◌≡◌, refl, ap, ◌∙◌, sym, Option, some, List, [], ◌∷◌, map, length, replicate, get_elem?,
  All, Bytes,
}
use grpc_tap.Prelude.Int.{ℤ}
use grpc_tap.Proxy.Types.{Event}
use grpc_tap.Proxy.Status.{ConnectCodes}
use grpc_tap.Proxy.Serve.Calls.{Call, IsRead, summary, answers, serve_all, serve_all-summary}
use grpc_tap.Broker.Delivery.{waiting}
use grpc_tap.Server.{event_to_proto}
use grpc_tap.Tui.TapEvent.{TapEvent}
use grpc_tap.Tui.Model.{Model, new, Machine, event_msg}
use grpc_tap.Tui.Model.ListKeys.{LastRune}
use grpc_tap.Tui.Model.Safety.{update_all}
use grpc_tap.Daemon.Flow.{Flow, Move, pumps, ends, opens, takes, start, flow, captured}
use grpc_tap.Daemon.Flow.Laws.{IsLive}
use grpc_tap.Daemon.Flow.Delivery.{StaysIn}
use grpc_tap.Pipeline.Captured.{flow_complete-Shows}

-- What a row of the list says of its call.
abbrev tap_summary : TapEvent → Bytes × (ℤ × Bytes)
tap_summary ev = (ev.method, (ev.status, ev.error))

abbrev pub row_summary : Model → ℕ → Option (Bytes × (ℤ × Bytes))
row_summary m i = Option.map tap_summary (get_elem? m.events i)

map-row_summary :
    (rows : List ℕ) (evs : List TapEvent) (m : Model)
    → map (get_elem? m.events) rows ≡ map some evs
    → map (row_summary m) rows ≡ map some (map tap_summary evs)
map-row_summary [] [] m e = refl
map-row_summary [] (ev ∷ evs) m e = cc
map-row_summary (i ∷ rows) [] m e = cc
map-row_summary (i ∷ rows) (ev ∷ evs) m e =
    let here : get_elem? m.events i ≡ some ev = cc in
    let rest : map (get_elem? m.events) rows ≡ map some evs = cc in
    λ t. Option.map tap_summary (here t) ∷ map-row_summary rows evs m rest t

tap_summary-event_to_proto :
    (evs : List Event) → map tap_summary (map event_to_proto evs) ≡ map summary evs
unfolding event_to_proto
tap_summary-event_to_proto [] = refl
tap_summary-event_to_proto (ev ∷ evs) = ap (λ l. summary ev ∷ l) (tap_summary-event_to_proto evs)

module _ (k : Machine) (lower_empty : k.to_lower [] ≡ []) (last_rune : LastRune)
    (lines : TapEvent → List Bytes) (target : Bytes) {R : Type 0} (new_reader : Bytes → Option R)
    (inflate : R → Option Bytes) (c : ConnectCodes) where
  -- From the calls to the screen. Calls go through the proxy and their bodies are read in chunks of
  -- less than 2^32 bytes; the proxy sends their events in this order and no others, at most 256,
  -- while the calls, the loop of the daemon and the subscribers run in any order; a subscriber is
  -- there from the start and stays. Once the proxy has ended, the loop of the daemon has handed on
  -- what is left and the subscriber has received what waits for it, a TUI that is started and gets
  -- what the subscriber received has one row for each call that the upstream server answered, in
  -- their order, with the path of the call and the status and the message of the answer. It is
  -- assumed that the empty text is its own lower case.
  pub serve_all-row_summary :
      (calls : List Call) (moves : List (Move Event))
      → All IsRead calls
      → serve_all c new_reader inflate calls ≡ some (captured moves)
      → All IsLive moves
      → All (StaysIn 0) moves
      → length (captured moves) ≤ 256
      → (f : Flow Event) × (f' : Flow Event) × (f'' : Flow Event) × (m : Model) × (flow
            (opens ∷ moves)
            start
          ≡ some f)
        × (flow (ends ∷ replicate (length f.events.buf) pumps) f ≡ some f')
        × (flow (replicate (length (waiting 0 f'.world)) (takes 0)) f' ≡ some f'')
        × (update_all k last_rune lines
              (map event_msg (map event_to_proto (f''.world.got 0)))
              (new target)
            ≡ some m)
        × (map (row_summary m) m.display_rows ≡ map some (answers c calls))
  serve_all-row_summary calls moves read served live stay few =
      let (f, f', f'', m, r, r', r'', got, (u, held, rows)) =
        flow_complete-Shows k lower_empty last_rune lines target moves live stay few in
      let (evs, s, sums) = serve_all-summary c new_reader inflate calls read in
      let same : evs ≡ captured moves = cc in
      (
        f,
        f',
        f'',
        m,
        r,
        r',
        r'',
        ap (λ xs. update_all k last_rune lines (map event_msg (map event_to_proto xs)) (new target))
              got
            ∙ u,
        map-row_summary m.display_rows m.events m rows
            ∙ ap (λ xs. map some (map tap_summary xs)) held
            ∙ ap (map some)
                (tap_summary-event_to_proto (captured moves) ∙ ap (map summary) (sym same) ∙ sums),
      )
