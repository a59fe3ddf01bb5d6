-- ===== src/Tui/Connect.antt =====
-- tui/model.go, connectCmd and recvEvent: the messages with which the connection to grpc-tapd
-- reaches the model. The client of gRPC is a parameter.
use grpc_tap.Prelude.{◌++◌, Bytes, codes, Bool, true, false}
use grpc_tap.Tui.TapEvent.{TapEvent}
use grpc_tap.Tui.Model.{Msg, connected_msg, event_msg, err_msg}

-- `grpc.NewClient` or `Watch` has an error, or there is a stream.
pub data Dialled : Type 0 where
  not_dialled not_watching : Bytes → Dialled
  streaming : Dialled

-- The message, and whether the connection was closed.
unfoldable pub connect : Bytes → Dialled → Msg × Bool
connect target (not_dialled e) = (err_msg (codes "dial " ++ (target ++ (codes ": " ++ e))), false)
connect target (not_watching e) = (err_msg (codes "watch " ++ (target ++ (codes ": " ++ e))), true)
connect target streaming = (connected_msg, false)

-- `stream.Recv`.
pub data Taken : Type 0 where
  not_taken : Bytes → Taken
  taken : TapEvent → Taken

unfoldable pub recv_event : Taken → Msg
recv_event (not_taken e) = err_msg e
recv_event (taken ev) = event_msg ev
