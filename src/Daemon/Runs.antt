-- ===== src/Daemon/Runs.antt =====
-- The daemon at concrete inputs.
use grpc_tap.Prelude.{
  ◌≡◌, ◌≢◌, ◌<◌, ◌++◌, ◌⊎◌, refl, none, some, List, [], ◌∷◌, ℕ, length, take, replicate, get_elem?,
  codes, false, good, Bytes,
}
use grpc_tap.Chan.{Chan, receive, ended}
use grpc_tap.Broker.Delivery.{waiting}
use grpc_tap.Proxy.Listen.{server_closed, not_serving, new, listen_and_serve}
use grpc_tap.Daemon.Process.{
  signals_caught, signals_released, grpc_serves, web_serves, web_shuts_down, pump_starts,
  proxy_serves,
}
use grpc_tap.Daemon.{
  Flags, Answers, clean, fatal, make_proxy, serve_web, serve_proxy, run_body, run, exit_of, main,
}
use grpc_tap.Daemon.Laws.{IsFine, fine_deeds, main-clean}
use grpc_tap.Daemon.Tidy.{IsTidy, IsPaired, main-IsTidy}
use grpc_tap.Daemon.Flow.{Flow, Move, captures, pumps, ends, opens, takes, start, flow, captured}
use grpc_tap.Daemon.Flow.End.{flow_complete}

abbrev flags : Flags
flags = record {
  listen = codes ":8080";
  upstream = codes "http://localhost:9000";
  grpc_addr = codes ":9092";
  http_addr = codes ":8081";
  show_version = false;
}

abbrev answers : Answers Bytes
answers = record {
  parse = λ s. good s;
  grpc_listen = none;
  http_listen = none;
  proxy_serve = server_closed;
  events = record { buf = []; cap = 256; closed = false };
}

-- It is killed when the web server and the gRPC server run.
main-IsTidy_example : IsTidy (main flags answers) × IsPaired (take 3 (main flags answers).1)
main-IsTidy_example = main-IsTidy flags answers 3

main-clean_example :
    (IsFine flags answers × (main flags answers ≡ (clean, fine_deeds flags)))
    ⊎ (¬ IsFine flags answers × ((main flags answers).0 ≢ clean))
main-clean_example = main-clean flags answers refl

-- The listener of the browser is refused: the gRPC server, which runs already, is left as it is.
no_web : main flags (record answers { http_listen = some (codes "in use") }) ≡ (
  fatal (codes "listen http :8081: in use"),
  signals_caught ∷ (grpc_serves ∷ (signals_released ∷ [])),
)
unfolding main run run_body make_proxy new serve_web serve_proxy listen_and_serve exit_of
no_web = refl

-- The proxy's server fails after all have been started.
no_proxy : main flags (record answers { proxy_serve = not_serving (codes "lost") }) ≡ (
  fatal (codes "proxy: proxy: serve: lost"),
  signals_caught
      ∷ (grpc_serves
          ∷ (web_serves
              ∷ (pump_starts ∷ (proxy_serves ∷ (web_shuts_down ∷ (signals_released ∷ [])))))),
)
unfolding main run run_body make_proxy new serve_web serve_proxy listen_and_serve exit_of
no_proxy = refl

abbrev moves : List (Move ℕ)
moves = captures 7 ∷ (pumps ∷ (captures 8 ∷ (takes 0 ∷ [])))

flow_complete_example :
    (f : Flow ℕ) × (f' : Flow ℕ) × (flow (opens ∷ moves) start ≡ some f)
    × (flow (ends ∷ replicate (length f.events.buf) pumps) f ≡ some f')
    × (receive f'.events ≡ ended)
    × ((f'.world.got 0 ++ waiting 0 f'.world ≡ captured moves) ⊎ (256 < length (captured moves)))
    × ((ch : Chan ℕ) × (get_elem? f'.world.broker.chans 0 ≡ some ch) × (receive ch ≢ ended))
flow_complete_example = flow_complete moves (tt, (tt, (tt, (tt, tt)))) (tt, (tt, (tt, (tt, tt))))
