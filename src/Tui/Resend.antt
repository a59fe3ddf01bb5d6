-- ===== src/Tui/Resend.antt =====
-- tui/model.go, editAndResend: a captured request in an editor and back to the server. The files,
-- the editor and the service's Replay are parameters; what is done with them is written down.
pub mod Laws
mod Runs
use grpc_tap.Prelude.{
  Option, none, some, List, [], ◌∷◌, ◌++◌, Bytes, codes, Bool, if◌then◌else◌, is_empty, ◌>>=◌,
}
use grpc_tap.Proxy.Wire.{ProtoWire}
use grpc_tap.Proxy.Wire.Encode.{Encoded, good, bad, Numbers}
use grpc_tap.Proxy.Wire.Text.{JsonCodec, proto_wire_to_json, json_to_proto_wire}
use grpc_tap.Tui.TapEvent.{TapEvent}
use grpc_tap.Tui.Model.{Msg, replay_result_msg}

-- A text, or an error as its text.
pub data Outcome : Type 0 where
  done : Bytes → Outcome
  failed : Bytes → Outcome

-- `os.CreateTemp` gives a path; `Write`, the command of the editor at a path and `os.ReadFile` have
-- errors; `editor` is the variable EDITOR. `replay` is the service's Replay, which gives the id of
-- the event.
pub record Desk : Type 0 where
  pub create_temp : Outcome
  pub write_temp : Bytes → Bytes → Option Bytes
  pub editor : Bytes
  pub run_editor : Bytes → Bytes → Option Bytes
  pub read_file : Bytes → Outcome
  pub replay : Bytes → Bytes → Outcome

-- What was done: a file created, removed, or handed to an editor; a call sent.
pub data Deed : Type 0 where
  created : Bytes → Deed
  removed : Bytes → Deed
  edited : Bytes → Bytes → Deed
  replayed : Bytes → Bytes → Deed

abbrev pub fails : Bytes → Bytes → Msg
fails step e = replay_result_msg [] (some (step ++ (codes ": " ++ e)))

module _ (d : Desk) where
  unfoldable pub editor_or_vi : Bytes
  editor_or_vi = if is_empty d.editor then codes "vi" else d.editor

  unfoldable pub answered : Outcome → Msg
  answered (failed e) = fails (codes "replay") e
  answered (done id) = replay_result_msg id none

  unfoldable pub resend : Bytes → Encoded → List Deed × Msg
  resend method (bad e) = ([], fails (codes "encode protobuf") e)
  resend method (good wire) = (replayed method wire ∷ [], answered (d.replay method wire))

  module _ (w : ProtoWire) (n : Numbers) (c : JsonCodec) where
    unfoldable pub resend_text : Bytes → Outcome → List Deed × Msg
    resend_text method (failed e) = ([], fails (codes "read edited file") e)
    resend_text method (done text) = resend method (json_to_proto_wire w n c text)

    -- The function that runs after the editor, up to its deferred removal of the file.
    unfoldable pub after_editor : Bytes → Bytes → Option Bytes → List Deed × Msg
    after_editor method path (some e) = ([], fails (codes "editor") e)
    after_editor method path none = resend_text method (d.read_file path)

    unfoldable pub after_write : Bytes → Bytes → Option Bytes → List Deed × Msg
    after_write method path (some e) =
        (created path ∷ (removed path ∷ []), fails (codes "write temp file") e)
    after_write method path none =
        let (deeds, msg) = after_editor method path (d.run_editor editor_or_vi path) in
        (created path ∷ (edited editor_or_vi path ∷ (deeds ++ (removed path ∷ []))), msg)

    unfoldable pub in_temp : Bytes → Bytes → Outcome → List Deed × Msg
    in_temp method text (failed e) = ([], fails (codes "create temp file") e)
    in_temp method text (done path) = after_write method path (d.write_temp path text)

    unfoldable pub edit_json : Bytes → Encoded → List Deed × Msg
    edit_json method (bad e) = ([], fails (codes "encode JSON") e)
    edit_json method (good text) = in_temp method text d.create_temp

    -- `editAndResend` with the run of its command; none where the fuel of the decoder ran out.
    unfoldable pub edit_and_resend : TapEvent → Option (List Deed × Msg)
    edit_and_resend ev = do
      text ← proto_wire_to_json w n c ev.request_body
      some (edit_json ev.method text)
