-- ===== src/Proxy/Serve/Replay.antt =====
-- proxy/reverse_proxy.go: what Replay does for a call that the upstream server answers.
use grpc_tap.Prelude.{◌+◌, ◌^◌, ◌<◌, ◌≡◌, refl, ◌++◌, Option, some, Bytes, false, length}
use grpc_tap.Chan.{Chan, offer, try_send-open}
use grpc_tap.Proxy.Types.{Header, Event}
use grpc_tap.Proxy.Payload.{frame, extract_payload}
use grpc_tap.Proxy.Payload.Laws.{extract_payload-frame}
use grpc_tap.Proxy.Status.{Response, extract_grpc_status}
use grpc_tap.Proxy.Serve.{
  Stamp, replay, replay_header, ReplayOutcome, replied, replay_event, replayed_event,
}

module _ {R : Type 0} (new_reader : Bytes → Option R) (inflate : R → Option Bytes) where
  replay-replied :
      (upstream : Bytes → Header → Bytes → ReplayOutcome) (stamp : Stamp)
      (method body bytes payload : Bytes) (resp : Response) (events : Chan Event)
      → upstream method replay_header (frame body) ≡ replied resp bytes
      → extract_payload new_reader inflate bytes ≡ some payload
      → events.closed ≡ false
      → let ev = replayed_event stamp method body resp payload in
        replay new_reader inflate upstream stamp method body events
        ≡ some (replay_event ev, offer ev events)
  unfolding replay
  replay-replied upstream stamp method body bytes payload resp events u q live =
      rw (replay, u, q, try_send-open (replayed_event stamp method body resp payload) events live)

  -- A replay whose answer begins with an uncompressed message with its frame, of less than 2^32
  -- bytes in all, sends the body in a frame and returns an event that shows the body and the
  -- message of the answer. As the channel of events is open, the event is offered to it, and
  -- dropped when it is full: the replay never waits for a reader.
  pub replay-answered :
      (upstream : Bytes → Header → Bytes → ReplayOutcome) (stamp : Stamp)
      (method body ans rest : Bytes) (resp : Response) (events : Chan Event)
      → upstream method replay_header (frame body) ≡ replied resp (frame ans ++ rest)
      → 5 + length ans + length rest < 2 ^ 32
      → events.closed ≡ false
      → (ev : Event) × (replay new_reader inflate upstream stamp method body events
          ≡ some (replay_event ev, offer ev events))
        × (ev.id ≡ stamp.id)
        × (ev.method ≡ method)
        × (ev.request_body ≡ body)
        × (ev.response_body ≡ ans)
        × ((ev.status, ev.error) ≡ extract_grpc_status resp)
  unfolding replayed_event
  replay-answered upstream stamp method body ans rest resp events u fits live = (
    replayed_event stamp method body resp ans,
    replay-replied upstream stamp method body (frame ans ++ rest) ans resp events u
        (extract_payload-frame new_reader inflate ans rest fits) live,
    refl,
    refl,
    refl,
    refl,
    refl,
  )
