-- ===== src/Tui/Names.antt =====
-- tui/export.go, callTypeString, and tui/format.go, protocolString: how the TUI and its exports name the call type and
-- the protocol of an event.
use grpc_tap.Prelude.{Bytes, codes, if◌then◌else◌}
use grpc_tap.Prelude.Int.{ℤ, pos, eq_ℤ}

unfoldable pub call_type_name : ℤ → Bytes
call_type_name ct =
    if eq_ℤ ct (pos 1)
    then codes "Unary"
    else if eq_ℤ ct (pos 2)
    then codes "ServerStream"
    else if eq_ℤ ct (pos 3)
    then codes "ClientStream"
    else if eq_ℤ ct (pos 4)
    then codes "BidiStream"
    else codes "Unknown"

unfoldable pub protocol_name : ℤ → Bytes
protocol_name p =
    if eq_ℤ p (pos 1)
    then codes "gRPC"
    else if eq_ℤ p (pos 2)
    then codes "gRPC-Web"
    else if eq_ℤ p (pos 3)
    then codes "Connect"
    else codes "Unknown"
