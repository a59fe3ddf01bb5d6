-- ===== src/Example/Client/Laws.antt =====
-- example/: the client and the server together.
use mathlib.Core.List
use mathlib.Core.List.{flatten}
use grpc_tap.Prelude.{
  ℕ, ◌%◌, ◌++◌, ◌≡◌, refl, Option, some, List, [], ◌∷◌, Bytes, codes, ◌==◌, if◌then◌else◌, Result,
  bad, good, Bool-cases, inl, inr,
}
use grpc_tap.Prelude.Decimal.{print_nat}
use grpc_tap.Example.Server
use grpc_tap.Example.Server.{Reply, response, invalid_argument}
use grpc_tap.Example.Server.Laws.{reverse_runes-eq}
use grpc_tap.Example.Client.{
  grpc_client, connect_client, echo, upper, reverse, Call, report, round, report_call, run_round,
}

module _ (to_upper : Bytes → Bytes) (to_runes : Bytes → List ℕ) (of_runes : List ℕ → Bytes)
    (error_text : Bytes → Bytes) where
  -- What the server replies to a call of the client.
  abbrev pub reply : Call → Option Reply
  reply c = elim c.method [
    | echo ↦ some (Server.echo c.message)
    | upper ↦ some (Server.upper to_upper c.message)
    | reverse ↦ Server.reverse_message to_runes of_runes c.message
  ]

  -- The reply as the client gets it, with the text of an error of Connect.
  abbrev pub received : Reply → Result Bytes
  received (response message) = good message
  received (invalid_argument e) = bad (error_text e)

  -- The calls are answered by the server.
  abbrev pub IsServed : (Call → Result Bytes) → Type 0
  IsServed answer = (c : Call) (r : Reply) → reply c ≡ some r → answer c ≡ received r

  -- Behind the server, each round of the client prints the two messages that it has echoed, one
  -- raised and one with its runes in the reverse order, and no error; only every third round logs
  -- one more line, the error of the empty message.
  pub run_round-served :
      (answer : Call → Result Bytes) (i : ℕ)
      → IsServed answer
      → run_round answer i
        ≡ (codes "[gRPC]    echo: hello from gRPC #" ++ print_nat i)
          ∷ ((codes "[Connect] echo: hello from Connect #" ++ print_nat i)
              ∷ ((codes "[Connect] upper: " ++ to_upper (codes "hello #" ++ print_nat i))
                  ∷ ((codes "[gRPC]    reverse: "
                        ++ of_runes (List.reverse (to_runes (codes "hello #" ++ print_nat i))))
                      ∷ (if i % 3 == 0
                          then (codes "[gRPC]    error (expected): "
                              ++ error_text (codes "message must not be empty"))
                            ∷ []
                          else []))))
  unfolding run_round round report_call report Server.echo Server.upper Server.reverse_message
      flatten
  run_round-served answer i served =
      let a1 =
        served
          (record {
            client = grpc_client;
            method = echo;
            message = codes "hello from gRPC #" ++ print_nat i;
          })
          (response (codes "hello from gRPC #" ++ print_nat i)) refl in
      let a2 =
        served
          (record {
            client = connect_client;
            method = echo;
            message = codes "hello from Connect #" ++ print_nat i;
          })
          (response (codes "hello from Connect #" ++ print_nat i)) refl in
      let a3 =
        served
          (record {
            client = connect_client;
            method = upper;
            message = codes "hello #" ++ print_nat i;
          })
          (response (to_upper (codes "hello #" ++ print_nat i))) refl in
      let a4 =
        served
          (record {
            client = grpc_client;
            method = reverse;
            message = codes "hello #" ++ print_nat i;
          })
          (response (of_runes (List.reverse (to_runes (codes "hello #" ++ print_nat i)))))
          (rw (reverse_runes-eq (to_runes (codes "hello #" ++ print_nat i))) refl) in
      let a5 =
        served (record { client = grpc_client; method = echo; message = [] })
          (invalid_argument (codes "message must not be empty")) refl in
      elim (Bool-cases (i % 3 == 0)) [
        | inl e ↦ rw (e, a1, a2, a3, a4, a5) refl
        | inr e ↦ rw (e, a1, a2, a3, a4) refl
      ]
