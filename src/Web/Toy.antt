-- ===== src/Web/Toy.antt =====
-- The parameters of the concrete runs of web/web.go.
use grpc_tap.Prelude.{good, [], Bytes, codes}
use grpc_tap.Prelude.Int.{ℤ, ltb_ℤ, ◌+ℤ◌}
use grpc_tap.Web.{Formats, EventJson}

-- Texts that stand for themselves, and sums in place of float64.
abbrev pub formats : Formats
formats = record {
  format_time = λ t. [];
  encode_base64 = λ s. s;
  decode_base64 = good;
  floats = record { Float = ℤ; of_int = λ i. i; mul = ◌+ℤ◌; div = ◌+ℤ◌; gt = λ a b. ltb_ℤ b a };
}

-- JSON that is a constant.
abbrev pub constant : EventJson ℤ → Bytes
constant e = codes "{}"
