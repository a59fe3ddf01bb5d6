-- ===== src/Daemon.antt =====
-- cmd/grpc-tapd/main.go: `main` and `run`, which starts the parts of the daemon and stops them. What
-- the operating system answers is a parameter. The functions describe a process that comes to the end
-- of `main`. A panic in another goroutine, as in a handler of the gRPC server, ends the process where
-- it stands, without what `run` has deferred: then only a prefix of the deeds is done.
pub mod Process
pub mod Flow
pub mod Laws
pub mod Tidy
mod Runs
use grpc_tap.Prelude.{
  ◌++◌, Option, none, some, List, [], ◌∷◌, Bytes, codes, Bool, ◌||◌, if◌then◌else◌, is_empty,
  Result, bad, good,
}
use grpc_tap.Chan.{Chan}
use grpc_tap.Proxy.Types.{Event}
use grpc_tap.Proxy.Listen.{ReverseProxy, ServeOutcome, new, listen_and_serve}
use grpc_tap.Daemon.Process.{
  Deed, signals_caught, signals_released, grpc_serves, grpc_stops, web_serves, web_shuts_down,
  pump_starts, proxy_serves, Outcome, next, fails, panics, Action, ◌>>=◌, ◌>>◌, perform, defer,
  check, Ending, returned, panicked, call,
}

-- The flags, by the names of their variables.
pub record Flags : Type 0 where
  pub listen : Bytes
  pub upstream : Bytes
  pub grpc_addr : Bytes
  pub http_addr : Bytes
  pub show_version : Bool

-- The flags where none is given.
abbrev pub default_flags : Bool → Flags
default_flags version = record {
  listen = [];
  upstream = [];
  grpc_addr = codes ":9092";
  http_addr = [];
  show_version = version;
}

-- What the calls of `run` return: `url.Parse` of the upstream address, the two calls of `Listen`,
-- and the server of the proxy. `events` is the channel of events when that server returns.
pub record Answers (U : Type 0) : Type 0 where
  pub parse : Bytes → Result U
  pub grpc_listen : Option Bytes
  pub http_listen : Option Bytes
  pub proxy_serve : ServeOutcome
  pub events : Chan Event

module _ {U : Type 0} where
  -- `proxy.New`.
  unfoldable pub make_proxy : Flags → Answers U → Action (ReverseProxy U)
  make_proxy c a l = elim (new a.parse c.listen c.upstream) [
    | bad e ↦ (fails (codes "proxy: " ++ e), l)
    | good p ↦ (next p, l)
  ]

  -- The part of `run` under `if httpAddr != ""`.
  unfoldable pub serve_web : Flags → Answers U → Action (Unit {0})
  serve_web c a = if is_empty c.http_addr then (λ l. (next tt, l)) else (do
    check (codes "listen http " ++ (c.http_addr ++ codes ": ")) a.http_listen
    perform web_serves
    defer web_shuts_down)

  -- `p.ListenAndServe`.
  unfoldable pub serve_proxy : ReverseProxy U → Answers U → Action (Unit {0})
  serve_proxy p a l = elim (listen_and_serve p.listen_addr a.proxy_serve a.events) [
    | none ↦ (panics, l)
    | some (e, events') ↦ check (codes "proxy: ") e l
  ]

  -- The body of `run`.
  unfoldable pub run_body : Flags → Answers U → Action (Unit {0})
  run_body c a = do
    perform signals_caught
    defer signals_released
    p ← make_proxy c a
    check (codes "listen grpc " ++ (c.grpc_addr ++ codes ": ")) a.grpc_listen
    perform grpc_serves
    serve_web c a
    perform pump_starts
    perform proxy_serves
    serve_proxy p a
    perform grpc_stops

  unfoldable pub run : Flags → Answers U → Ending × List Deed
  run c a = call (run_body c a)

-- How the process ends: the version or the usage is printed, the latter at status 1; `log.Fatal`
-- prints an error, at status 1; `run` has none; or `run` itself panics.
pub data Exit : Type 0 where
  version_printed usage_printed clean crashed : Exit
  fatal : Bytes → Exit

unfoldable pub exit_of : Ending → Exit
exit_of (returned none) = clean
exit_of (returned (some e)) = fatal e
exit_of panicked = crashed

-- `main`, once the flags are parsed.
unfoldable pub main : {U : Type 0} → Flags → Answers U → Exit × List Deed
main c a =
    if c.show_version
    then (version_printed, [])
    else if is_empty c.listen || is_empty c.upstream
    then (usage_printed, [])
    else (let (end, deeds) = run c a in (exit_of end, deeds))
