-- ===== src/Daemon/Laws.antt =====
-- cmd/grpc-tapd/main.go: when the daemon ends without an error, and what it has done then.
use grpc_tap.Prelude.{
  ◌∙◌, ap, ◌≡◌, ◌≢◌, ◌⊎◌, inl, inr, refl, none, List, [], ◌∷◌, Bool, true, false, if◌then◌else◌,
  is_empty, Result, bad, good, arith,
}
use grpc_tap.Chan.{close}
use grpc_tap.Proxy.Listen.{server_closed, new, listen_and_serve}
use grpc_tap.Daemon.Process.{
  Deed, signals_caught, signals_released, grpc_serves, grpc_stops, web_serves, web_shuts_down,
  pump_starts, proxy_serves, Ending, returned,
}
use grpc_tap.Daemon.{
  Flags, version_printed, usage_printed, crashed, fatal, Answers, make_proxy, serve_web,
  serve_proxy, run_body, run, Exit, clean, exit_of, main,
}

abbrev pub is_good : {A : Type 0} → Result A → Bool
is_good (bad e) = false
is_good (good a) = true

-- Both addresses are given, the upstream's can be parsed, both listeners are got, the web's only if
-- it is asked for, and the server of the proxy ends by being closed.
abbrev pub IsFine : {U : Type 0} → Flags → Answers U → Type 0
IsFine c a =
    (c.show_version ≡ false)
    × (is_empty c.listen ≡ false)
    × (is_empty c.upstream ≡ false)
    × (is_good (a.parse c.upstream) ≡ true)
    × (a.grpc_listen ≡ none)
    × ((c.http_addr ≡ []) ⊎ (a.http_listen ≡ none))
    × (a.proxy_serve ≡ server_closed)

-- What is done then, in this order.
abbrev pub fine_deeds : Flags → List Deed
fine_deeds c =
    if is_empty c.http_addr
    then signals_caught
      ∷ (grpc_serves ∷ (pump_starts ∷ (proxy_serves ∷ (grpc_stops ∷ (signals_released ∷ [])))))
    else signals_caught
      ∷ (grpc_serves
          ∷ (web_serves
              ∷ (pump_starts
                  ∷ (proxy_serves ∷ (grpc_stops ∷ (web_shuts_down ∷ (signals_released ∷ [])))))))

-- `run` with what it asked of the system.
run_fine :
    {U : Type 0} (c : Flags) (a : Answers U)
    → a.events.closed ≡ false
    → is_good (a.parse c.upstream) ≡ true
    → a.grpc_listen ≡ none
    → (c.http_addr ≡ []) ⊎ (a.http_listen ≡ none)
    → a.proxy_serve ≡ server_closed
    → run c a ≡ (returned none, fine_deeds c)
unfolding run run_body make_proxy new serve_web serve_proxy listen_and_serve close
run_fine c a live p g h s = ground arith

run_clean :
    {U : Type 0} (c : Flags) (a : Answers U)
    → (run c a).0 ≡ returned none
    → (is_good (a.parse c.upstream) ≡ true)
      × (a.grpc_listen ≡ none)
      × ((c.http_addr ≡ []) ⊎ (a.http_listen ≡ none))
      × (a.proxy_serve ≡ server_closed)
unfolding run run_body make_proxy new serve_web serve_proxy listen_and_serve close
run_clean c a e = ground arith

exit_of-clean : (e : Ending) → exit_of e ≡ clean → e ≡ returned none
unfolding exit_of
exit_of-clean e h = ground arith

exit-cases : (e : Exit) → (e ≡ clean) ⊎ (e ≢ clean)
exit-cases version_printed = inr (λ h. cc)
exit-cases usage_printed = inr (λ h. cc)
exit-cases clean = inl refl
exit-cases crashed = inr (λ h. cc)
exit-cases (fatal e) = inr (λ h. cc)

main_flags :
    {U : Type 0} (c : Flags) (a : Answers U)
    → (main c a).0 ≡ clean
    → (c.show_version ≡ false)
      × (is_empty c.listen ≡ false)
      × (is_empty c.upstream ≡ false)
      × (exit_of (run c a).0 ≡ clean)
unfolding main
main_flags c a e = ground arith

main_run :
    {U : Type 0} (c : Flags) (a : Answers U)
    → c.show_version ≡ false
    → is_empty c.listen ≡ false
    → is_empty c.upstream ≡ false
    → main c a ≡ (exit_of (run c a).0, (run c a).1)
unfolding main
main_run c a v l u = simp (v, l, u)

main-IsFine : {U : Type 0} (c : Flags) (a : Answers U) → (main c a).0 ≡ clean → IsFine c a
main-IsFine c a e =
    let (v, l, u, r) = main_flags c a e in
    let (p, g, h, s) = run_clean c a (exit_of-clean (run c a).0 r) in (v, l, u, p, g, h, s)

main_fine :
    {U : Type 0} (c : Flags) (a : Answers U)
    → a.events.closed ≡ false
    → IsFine c a
    → main c a ≡ (clean, fine_deeds c)
unfolding exit_of
main_fine c a live (v, l, u, p, g, h, s) = main_run c a v l u ∙ rw (run_fine c a live p g h s) refl

-- While the channel of events is open, either all is fine, and the daemon ends without an error and
-- has started and stopped its parts in the order of `fine_deeds`; or not, and it does not end so.
-- All is fine if and only if the version is not asked for, both addresses are given, the upstream's
-- can be parsed, the listeners are got (the one of the browser if an address is given for it), and
-- the server of the proxy ends by being closed.
pub main-clean :
    {U : Type 0} (c : Flags) (a : Answers U)
    → a.events.closed ≡ false
    → (IsFine c a × (main c a ≡ (clean, fine_deeds c))) ⊎ (¬ IsFine c a × ((main c a).0 ≢ clean))
main-clean c a live = elim (exit-cases (main c a).0) [
  | inl e ↦ let f = main-IsFine c a e in inl (f, main_fine c a live f)
  | inr n ↦ inr (λ f. n (ap (λ r. r.0) (main_fine c a live f)), n)
]
