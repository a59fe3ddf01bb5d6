-- ===== src/Example/Runs.antt =====
-- The example's client and server at concrete inputs. A text is the list of its runes here, and
-- strings.ToUpper leaves it as it is.
use mathlib.Core.List
use grpc_tap.Prelude.{◌≡◌, refl, some, [], ◌∷◌, Bytes, codes, bad, true}
use grpc_tap.Prelude.Decimal.{print_nat}
use grpc_tap.Example.Server.{response, swap, reverse_loop, reverse_runes, reverse_message}
use grpc_tap.Example.Server.Laws.{reverse_message-twice}
use grpc_tap.Example.Client.{
  run_round, ticked, context_done, report, round, report_call, run_from, run,
}

abbrev plain : Bytes → Bytes
plain s = s

reversed : reverse_message plain plain (codes "tap") ≡ some (response (codes "pat"))
unfolding reverse_message reverse_runes reverse_loop swap
reversed = refl

reverse_message-twice_example :
    (answer : Bytes) × (reverse_message plain plain (codes "tap") ≡ some (response answer))
    × (plain answer ≡ List.reverse (plain (codes "tap")))
    × (reverse_message plain plain answer ≡ some (response (codes "tap")))
reverse_message-twice_example = reverse_message-twice plain plain (codes "tap") refl refl

-- A server that cannot be reached, and an interrupt after the second round.
unreachable : run (λ c. bad (codes "refused")) (ticked ∷ (context_done ∷ [])) ≡ (
  codes "[gRPC] error: refused"
      ∷ (codes "[Connect] error: refused"
          ∷ (codes "[Connect] upper error: refused"
              ∷ (codes "[gRPC]    reverse error: refused"
                  ∷ (codes "[gRPC] error: refused"
                      ∷ (codes "[Connect] error: refused"
                          ∷ (codes "[Connect] upper error: refused"
                              ∷ (codes "[gRPC]    reverse error: refused"
                                  ∷ (codes "shutting down" ∷ [])))))))),
  true,
)
unfolding run run_from run_round round report_call report print_nat List.flatten
unreachable = refl
