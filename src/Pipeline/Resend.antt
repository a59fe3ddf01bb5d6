-- ===== src/Pipeline/Resend.antt =====
-- A call that is sent again from the TUI: Replay of proxy/reverse_proxy.go and of server/server.go,
-- with Update of tui/model.go.
use grpc_tap.Prelude.{
  ◌+◌, ◌^◌, ◌<◌, ◌≡◌, refl, ap, ◌∙◌, ◌++◌, Option, none, some, List, [], ◌∷◌, Bytes, true, false,
  is_empty, length,
}
use grpc_tap.Chan.{Chan, offer}
use grpc_tap.Proxy.Types.{Header, Event}
use grpc_tap.Proxy.Payload.{frame}
use grpc_tap.Proxy.Status.{Response}
use grpc_tap.Proxy.Serve.{Stamp, replay, replay_header, ReplayOutcome, replied, replay_event}
use grpc_tap.Proxy.Serve.Replay.{replay-answered}
use grpc_tap.Server
use grpc_tap.Server.{event_to_proto, replay_reply}
use grpc_tap.Tui.TapEvent.{TapEvent}
use grpc_tap.Tui.Rows.{sort_chronological, keeps}
use grpc_tap.Tui.Model.{
  Model, Cmd, Machine, event_msg, replay_result_msg, view_inspect, cursor_event, found,
}
use grpc_tap.Tui.Model.ListKeys.{LastRune}
use grpc_tap.Tui.Model.Update.{update}
use grpc_tap.Tui.Model.Messages.{update-replayed}
use grpc_tap.Tui.Model.Safety.{update_all}

model_of : Option (Model × Cmd) → Option Model
model_of none = none
model_of (some r) = some r.0

module _ {R : Type 0} (new_reader : Bytes → Option R) (inflate : R → Option Bytes) (k : Machine)
    (lower_empty : k.to_lower [] ≡ []) where
  unfiltered : (ev : TapEvent) → keeps k.to_lower (k.to_lower []) false ev ≡ true
  unfolding keeps
  unfiltered ev = rw lower_empty refl

  -- The TUI sends a call again, and the upstream server answers with a framed message of less than
  -- 2^32 bytes in all. The service then replies with an event, which is offered to the open channel
  -- of events. If its id, not empty, reaches the TUI before the event does, and the list is in
  -- chronological order without filters, the inspector opens on that event: it shows the method and
  -- the body that were sent, and the message of the answer. It is assumed that the empty text is its
  -- own lower case.
  pub replay-update_all :
      (last_rune : LastRune) (lines : TapEvent → List Bytes)
      (upstream : Bytes → Header → Bytes → ReplayOutcome) (stamp : Stamp)
      (method body ans rest : Bytes) (resp : Response) (events : Chan Event) (m : Model)
      → upstream method replay_header (frame body) ≡ replied resp (frame ans ++ rest)
      → 5 + length ans + length rest < 2 ^ 32
      → events.closed ≡ false
      → is_empty stamp.id ≡ false
      → m.sort_mode ≡ sort_chronological
      → m.search_query ≡ []
      → m.filter_errors ≡ false
      → (ev : Event) × (shown : TapEvent) × (m' : Model) × (replay new_reader inflate upstream stamp
            method body events
          ≡ some (replay_event ev, offer ev events))
        × (replay_reply (replay_event ev) ≡ Server.answered shown)
        × (update_all k last_rune lines
              (replay_result_msg shown.id none ∷ (event_msg (event_to_proto ev) ∷ []))
              m
            ≡ some m')
        × (m'.view ≡ view_inspect)
        × (cursor_event m' ≡ found shown)
        × (shown.method ≡ method)
        × (shown.request_body ≡ body)
        × (shown.response_body ≡ ans)
  unfolding replay_reply event_to_proto update_all update model_of
  replay-update_all last_rune lines upstream stamp method body ans rest resp events m u fits live
        nonempty order query errors =
      let (ev, r, id, mt, b, a, _) =
        replay-answered new_reader inflate upstream stamp method body ans rest resp events u fits
          live in
      let waiting : Model = record m { replay_event_id = ev.id } in
      let kept : keeps k.to_lower (k.to_lower m.search_query) m.filter_errors (event_to_proto ev)
          ≡ true =
        rw (query, errors) (unfiltered (event_to_proto ev)) in
      let (x, e, v, c, _) =
        update-replayed k last_rune lines (event_to_proto ev) waiting (ap is_empty id ∙ nonempty)
          refl order kept in
      (ev, event_to_proto ev, x.0, r, refl, ap model_of e, v, c, mt, b, a)
