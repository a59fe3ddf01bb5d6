-- ===== src/Example/Client.antt =====
-- example/client/main.go: the rounds of calls that the client makes, and what it prints. The answers
-- to the calls are a parameter. A counter of rounds is a natural number.
pub mod Laws
use grpc_tap.Prelude.{
  ℕ, zero, suc, ◌+◌, ◌%◌, ◌++◌, Option, none, some, List, [], ◌∷◌, Bytes, codes, Bool, true, false,
  ◌==◌, if◌then◌else◌, is_empty, Result, bad, good, map,
}
use mathlib.Core.List.{flatten}
use grpc_tap.Prelude.Decimal.{print_nat}

-- The two clients, by their protocol, and the methods of the service.
pub data Client : Type 0 where
  grpc_client connect_client : Client

pub data Method : Type 0 where
  echo upper reverse : Method

pub record Call : Type 0 where
  pub client : Client
  pub method : Method
  pub message : Bytes

-- `main`: the address of the proxy, from the environment if PROXY_ADDR is there and not empty.
unfoldable pub proxy_address : Bytes → Bytes
proxy_address env = if is_empty env then codes "http://localhost:8080" else env

-- What is printed and logged for an answer, under the headings for both cases, as lines, less the
-- time that the log puts before them. The call that is meant
-- to fail prints nothing if it does not.
unfoldable pub report : Bytes → Option Bytes → Result Bytes → List Bytes
report failing succeeding (bad e) = (failing ++ e) ∷ []
report failing (some heading) (good message) = (heading ++ message) ∷ []
report failing none (good message) = []

-- The calls of one round, each with its headings.
unfoldable pub round : ℕ → List (Call × Bytes × Option Bytes)
round i =
    (
      record {
        client = grpc_client;
        method = echo;
        message = codes "hello from gRPC #" ++ print_nat i;
      },
      codes "[gRPC] error: ",
      some (codes "[gRPC]    echo: "),
    )
    ∷ ((
      record {
        client = connect_client;
        method = echo;
        message = codes "hello from Connect #" ++ print_nat i;
      },
      codes "[Connect] error: ",
      some (codes "[Connect] echo: "),
    )
        ∷ ((
          record {
            client = connect_client;
            method = upper;
            message = codes "hello #" ++ print_nat i;
          },
          codes "[Connect] upper error: ",
          some (codes "[Connect] upper: "),
        )
            ∷ ((
              record {
                client = grpc_client;
                method = reverse;
                message = codes "hello #" ++ print_nat i;
              },
              codes "[gRPC]    reverse error: ",
              some (codes "[gRPC]    reverse: "),
            )
                ∷ (if i % 3 == 0
                    then (
                      record { client = grpc_client; method = echo; message = [] },
                      codes "[gRPC]    error (expected): ",
                      none,
                    )
                      ∷ []
                    else []))))

-- What the `select` at the end of a round chose.
pub data Turn : Type 0 where
  context_done ticked : Turn

module _ (answer : Call → Result Bytes) where
  unfoldable pub report_call : Call × Bytes × Option Bytes → List Bytes
  report_call (c, failing, succeeding) = report failing succeeding (answer c)

  -- The lines of one round.
  unfoldable pub run_round : ℕ → List Bytes
  run_round i = flatten (map report_call (round i))

  -- The loop of `run`, from round `i`: what is printed, and whether the loop is over.
  unfoldable pub run_from : ℕ → List Turn → List Bytes × Bool
  run_from i [] = (run_round i, false)
  run_from i (context_done ∷ turns) = (run_round i ++ (codes "shutting down" ∷ []), true)
  run_from i (ticked ∷ turns) =
      let (lines, over) = run_from (i + 1) turns in (run_round i ++ lines, over)

  unfoldable pub run : List Turn → List Bytes × Bool
  run turns = run_from 1 turns
