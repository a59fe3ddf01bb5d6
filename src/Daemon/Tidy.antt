-- ===== src/Daemon/Tidy.antt =====
-- cmd/grpc-tapd/main.go: what the daemon has stopped when it ends, and when it is killed.
use grpc_tap.Prelude.{
  ℕ, zero, suc, ◌+◌, ◌-◌, take, ltb, ◌&&◌, ◌≡◌, ◌≤◌, ◌↔◌, refl, List, [], ◌∷◌, Bool, true, false,
  ◌||◌, if◌then◌else◌, is_empty, arith,
}
use grpc_tap.Chan.{close}
use grpc_tap.Proxy.Listen.{new, listen_and_serve}
use grpc_tap.Daemon.Process.{
  Deed, signals_caught, signals_released, grpc_serves, grpc_stops, web_serves, web_shuts_down,
}
use grpc_tap.Daemon.{
  Flags, Answers, make_proxy, serve_web, serve_proxy, run_body, run, Exit, clean, exit_of, main,
}

-- How often something was done.
abbrev pub times : (Deed → Bool) → List Deed → ℕ
times p [] = 0
times p (d ∷ deeds) = (if p d then 1 else 0) + times p deeds

abbrev pub is_grpc_stop : Deed → Bool
is_grpc_stop grpc_stops = true
is_grpc_stop d = false

abbrev pub is_grpc_start : Deed → Bool
is_grpc_start grpc_serves = true
is_grpc_start d = false

abbrev pub is_web_start : Deed → Bool
is_web_start web_serves = true
is_web_start d = false

abbrev pub is_web_stop : Deed → Bool
is_web_stop web_shuts_down = true
is_web_stop d = false

abbrev pub is_signal_start : Deed → Bool
is_signal_start signals_caught = true
is_signal_start d = false

abbrev pub is_signal_stop : Deed → Bool
is_signal_stop signals_released = true
is_signal_stop d = false

-- What is stopped, against what was started and how the process ends.
abbrev pub IsTidy : Exit × List Deed → Type 0
IsTidy (exit, deeds) =
    (times is_web_stop deeds ≡ times is_web_start deeds)
    × (times is_signal_stop deeds ≡ times is_signal_start deeds)
    × (times is_grpc_stop deeds ≤ times is_grpc_start deeds)
    × ((times is_grpc_stop deeds ≡ 1) ↔ (exit ≡ clean))

run-IsTidy : {U : Type 0} (c : Flags) (a : Answers U) → IsTidy (exit_of (run c a).0, (run c a).1)
unfolding run run_body make_proxy new serve_web serve_proxy listen_and_serve close exit_of
run-IsTidy c a = ground arith

if-IsTidy : (b : Bool) (x y : Exit × List Deed) → IsTidy x → IsTidy y → IsTidy (if b then x else y)
if-IsTidy true x y h k = h
if-IsTidy false x y h k = k

-- Whether every stop in the list comes after a start of its own; `running` counts the starts that
-- no stop has answered yet.
abbrev pub follows : (Deed → Bool) → (Deed → Bool) → ℕ → List Deed → Bool
follows start stop running [] = true
follows start stop running (d ∷ deeds) =
    let started = follows start stop (running + 1) deeds in
    let stopped = follows start stop (running - 1) deeds in
    let same = follows start stop running deeds in
    if stop d then ltb 0 running && stopped else if start d then started else same

-- Then no prefix has more stops than starts.
follows-take :
    (start stop : Deed → Bool) (n running : ℕ) (deeds : List Deed)
    → follows start stop running deeds ≡ true
    → times stop (take n deeds) ≤ running + times start (take n deeds)
follows-take start stop zero running deeds h = omega arith
follows-take start stop (suc n) running [] h = omega arith
follows-take start stop (suc n) running (d ∷ deeds) h = ground (
  arith,
  follows-take start stop n (running - 1) deeds,
  follows-take start stop n (running + 1) deeds,
  follows-take start stop n running deeds,
)

-- What a daemon that is killed after the first `n` deeds has stopped, against what it has started.
abbrev pub IsPaired : List Deed → Type 0
IsPaired deeds =
    (times is_web_stop deeds ≤ times is_web_start deeds)
    × (times is_signal_stop deeds ≤ times is_signal_start deeds)
    × (times is_grpc_stop deeds ≤ times is_grpc_start deeds)

Follows : List Deed → Type 0
Follows deeds =
    (follows is_web_start is_web_stop 0 deeds ≡ true)
    × (follows is_signal_start is_signal_stop 0 deeds ≡ true)
    × (follows is_grpc_start is_grpc_stop 0 deeds ≡ true)

run-Follows : {U : Type 0} (c : Flags) (a : Answers U) → Follows (run c a).1
unfolding run run_body make_proxy new serve_web serve_proxy listen_and_serve close Follows
run-Follows c a = ground arith

if-Follows :
    (b : Bool) (x y : Exit × List Deed) → Follows x.1 → Follows y.1 → Follows (if b then x else y).1
if-Follows true x y h k = h
if-Follows false x y h k = k

main-Follows : {U : Type 0} (c : Flags) (a : Answers U) → Follows (main c a).1
unfolding main Follows
main-Follows c a =
    if-Follows c.show_version _ _ (refl, refl, refl)
      (if-Follows (is_empty c.listen || is_empty c.upstream) _ _ (refl, refl, refl)
        (run-Follows c a))

-- When the daemon comes to its end, with an error or without: the web server was shut down as often
-- as it was started, and the signals were released as often as they were caught; the gRPC server
-- was not stopped more often than it was started, and it was stopped, once, if and only if the
-- process ends as after a `run` without an error. When the process is killed before, after any
-- number of these deeds, as by a panic in another goroutine, none of the three was stopped more
-- often than it was started.
pub main-IsTidy :
    {U : Type 0} (c : Flags) (a : Answers U) (n : ℕ)
    → IsTidy (main c a) × IsPaired (take n (main c a).1)
unfolding main Follows
main-IsTidy c a n =
    let (web, signals, grpc) = main-Follows c a in
    let deeds = (main c a).1 in
    (
      if-IsTidy c.show_version _ _ (refl, refl, omega arith, ground arith)
          (if-IsTidy (is_empty c.listen || is_empty c.upstream) _ _
            (refl, refl, omega arith, ground arith) (run-IsTidy c a)),
      (
        omega (arith, follows-take is_web_start is_web_stop n 0 deeds web),
        omega (arith, follows-take is_signal_start is_signal_stop n 0 deeds signals),
        omega (arith, follows-take is_grpc_start is_grpc_stop n 0 deeds grpc),
      ),
    )
