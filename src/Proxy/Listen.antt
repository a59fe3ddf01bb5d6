-- ===== src/Proxy/Listen.antt =====
-- proxy/reverse_proxy.go: New, and ListenAndServe with the end of the proxy, which closes the channel
-- of events. `url.Parse`, the listener and the server of net/http are parameters.
use grpc_tap.Prelude.{
  Result, bad, good, ◌≡◌, refl, Option, none, some, ◌++◌, Bytes, codes, true, false, inl, inr,
  ◌>>=◌, Option-cases,
}
use grpc_tap.Chan.{Chan, make, close, try_send}
use grpc_tap.Proxy.Types.{Header, Event}
use grpc_tap.Proxy.Payload.{frame, extract_payload}
use grpc_tap.Proxy.Status.{Response}
use grpc_tap.Proxy.Serve.{Stamp, ReplayOutcome, replied, replay_header, replay}

-- `ReverseProxy`, less the transport and the server of net/http. `U` is `url.URL`.
pub record ReverseProxy (U : Type 0) : Type 0 where
  pub listen_addr : Bytes
  pub upstream : U
  pub events : Chan Event

-- `New`, with `url.Parse`.
unfoldable pub new : {U : Type 0} → (Bytes → Result U) → Bytes → Bytes → Result (ReverseProxy U)
new parse listen_addr upstream_addr = elim (parse upstream_addr) [
  | bad e ↦ bad (codes "proxy: parse upstream: " ++ e)
  | good u ↦ good (record { listen_addr = listen_addr; upstream = u; events = make 256 })
]

-- `net.Listen` or `Serve` has an error, or `Serve` returns since the server was closed.
pub data ServeOutcome : Type 0 where
  not_listening not_serving : Bytes → ServeOutcome
  server_closed : ServeOutcome

-- The error, if any, and the channel; none is a panic.
unfoldable pub listen_and_serve :
    Bytes → ServeOutcome → Chan Event → Option (Option Bytes × Chan Event)
listen_and_serve addr (not_listening e) events =
    some (some (codes "proxy: listen " ++ (addr ++ (codes ": " ++ e))), events)
listen_and_serve addr (not_serving e) events = some (some (codes "proxy: serve: " ++ e), events)
listen_and_serve addr server_closed events = do events' ← close events; some (none, events')

module _ {R : Type 0} (new_reader : Bytes → Option R) (inflate : R → Option Bytes) where
  -- When the server of the proxy is closed, ListenAndServe closes the channel of events, which was
  -- open, and has no error; a replay after that whose answer could be read panics.
  pub listen_and_serve-replay :
      (upstream : Bytes → Header → Bytes → ReplayOutcome) (stamp : Stamp)
      (addr method body bytes : Bytes) (resp : Response) (events : Chan Event)
      → events.closed ≡ false
      → upstream method replay_header (frame body) ≡ replied resp bytes
      → (events' : Chan Event) × (listen_and_serve addr server_closed events ≡ some (none, events'))
        × (replay new_reader inflate upstream stamp method body events' ≡ none)
  unfolding listen_and_serve close replay try_send
  listen_and_serve-replay upstream stamp addr method body bytes resp events live u = (
    record events { closed = true },
    rw live refl,
    elim (Option-cases (extract_payload new_reader inflate bytes)) [
      | inl e ↦ rw (replay, u, e) refl
      | inr (payload, e) ↦ rw (replay, u, e) refl
    ],
  )
