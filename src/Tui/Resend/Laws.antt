-- ===== src/Tui/Resend/Laws.antt =====
-- tui/model.go, editAndResend: the temporary file and the call that is sent.
use grpc_tap.Prelude.{
  ◌≤◌, ◌≡◌, refl, Option, none, some, List, [], ◌∷◌, ◌++◌, Bytes, eq_bytes, eq_bytes_self,
  if◌then◌else◌, length, arith,
}
use grpc_tap.Proxy.Wire.{ProtoWire, Consumes, no_fields}
use grpc_tap.Proxy.Wire.Fuel.{proto_wire_to_map-ends}
use grpc_tap.Proxy.Wire.Encode.{Encoded, good, bad, Numbers, JsonMap, map_to_proto_wire}
use grpc_tap.Proxy.Wire.Plain.{ReadsBack, KeepsOrder, ArePlain, fill}
use grpc_tap.Proxy.Wire.RoundTrip.{proto_wire_to_map-map_to_proto_wire}
use grpc_tap.Proxy.Wire.Text.{
  JsonCodec, parsed, marshalled, decoded_to_json, proto_wire_to_json, parsed_to_wire,
  json_to_proto_wire,
}
use grpc_tap.Tui.TapEvent.{TapEvent}
use grpc_tap.Tui.Model.{Msg, replay_result_msg}
use grpc_tap.Tui.Resend.{
  Outcome, done, failed, Desk, Deed, created, removed, edited, replayed, editor_or_vi, answered,
  resend, resend_text, after_editor, after_write, in_temp, edit_json, edit_and_resend,
}

-- The files that are left: a removal takes away every copy of its path.
abbrev without : Bytes → List Bytes → List Bytes
without p [] = []
without p (q ∷ qs) = let rest = without p qs in if eq_bytes q p then rest else q ∷ rest

abbrev pub files_left : List Bytes → List Deed → List Bytes
files_left files [] = files
files_left files (created p ∷ deeds) = files_left (p ∷ files) deeds
files_left files (removed p ∷ deeds) = files_left (without p files) deeds
files_left files (edited e p ∷ deeds) = files_left files deeds
files_left files (replayed m b ∷ deeds) = files_left files deeds

-- The calls that were sent.
abbrev pub calls : List Deed → List (Bytes × Bytes)
calls [] = []
calls (created p ∷ deeds) = calls deeds
calls (removed p ∷ deeds) = calls deeds
calls (edited e p ∷ deeds) = calls deeds
calls (replayed m b ∷ deeds) = (m, b) ∷ calls deeds

-- Deeds that leave no file and send one call at most.
abbrev IsTidy : List Deed → Type 0
IsTidy deeds = (files_left [] deeds ≡ []) × (length (calls deeds) ≤ 1)

module _ (d : Desk) (w : ProtoWire) (n : Numbers) (c : JsonCodec) where
  -- After the editor nothing or one call is sent.
  data Sends : List Deed → Type 0 where
    nothing : Sends []
    one : (m b : Bytes) → Sends (replayed m b ∷ [])

  resend-Sends : (method : Bytes) (e : Encoded) → Sends (resend d method e).0
  unfolding resend
  resend-Sends method (good b) = one method b
  resend-Sends method (bad e) = nothing

  resend_text-Sends : (method : Bytes) (o : Outcome) → Sends (resend_text d w n c method o).0
  unfolding resend_text
  resend_text-Sends method (done text) = resend-Sends method _
  resend_text-Sends method (failed e) = nothing

  after_editor-Sends :
      (method path : Bytes) (o : Option Bytes) → Sends (after_editor d w n c method path o).0
  unfolding after_editor
  after_editor-Sends method path none = resend_text-Sends method _
  after_editor-Sends method path (some e) = nothing

  Sends-IsTidy :
      (e path : Bytes) {deeds : List Deed}
      → Sends deeds
      → IsTidy (created path ∷ (edited e path ∷ (deeds ++ (removed path ∷ []))))
  Sends-IsTidy e path nothing = (rw (eq_bytes_self path) refl, omega arith)
  Sends-IsTidy e path (one m b) = (rw (eq_bytes_self path) refl, omega arith)

  after_write-IsTidy :
      (method path : Bytes) (o : Option Bytes) → IsTidy (after_write d w n c method path o).0
  unfolding after_write
  after_write-IsTidy method path none =
      Sends-IsTidy (editor_or_vi d) path (after_editor-Sends method path _)
  after_write-IsTidy method path (some e) = (rw (eq_bytes_self path) refl, omega arith)

  in_temp-IsTidy : (method text : Bytes) (o : Outcome) → IsTidy (in_temp d w n c method text o).0
  unfolding in_temp
  in_temp-IsTidy method text (done path) = after_write-IsTidy method path _
  in_temp-IsTidy method text (failed e) = (refl, omega arith)

  edit_json-IsTidy : (method : Bytes) (e : Encoded) → IsTidy (edit_json d w n c method e).0
  unfolding edit_json
  edit_json-IsTidy method (good text) = in_temp-IsTidy method text _
  edit_json-IsTidy method (bad e) = (refl, omega arith)

  -- Whatever fails, and wherever, the temporary file is removed, and one call at most is sent; the
  -- decoder ends. It is assumed that protowire takes no more bytes than there are.
  pub edit_and_resend_tidy :
      Consumes w
      → (ev : TapEvent)
      → (deeds : List Deed) × (msg : Msg) × (edit_and_resend d w n c ev ≡ some (deeds, msg))
        × (files_left [] deeds ≡ [])
        × (length (calls deeds) ≤ 1)
  unfolding edit_and_resend proto_wire_to_json
  edit_and_resend_tidy takes ev =
      let (m, e, _) =
        proto_wire_to_map-ends w takes (length ev.request_body) ev.request_body (omega arith) in
      let (left, sent) = edit_json-IsTidy ev.method (decoded_to_json w n c m) in
      let (deeds, msg) = edit_json d w n c ev.method (decoded_to_json w n c m) in
      (deeds, msg, rw e refl, left, sent)

  -- A request that is saved in the editor as it was opened is sent to the same method with the same
  -- body, and the id of the answer is what the TUI then waits for: if the body is what the encoder
  -- makes of a plain object, which the JSON text of the body stands for, and the temporary file, the
  -- editor and the call have no error. It is assumed that protowire consumes what it appends and no
  -- more bytes than there are, and that a sort leaves keys in strict order alone.
  pub edit_and_resend_untouched :
      Consumes w
      → ReadsBack w
      → KeepsOrder n
      → (ev : TapEvent) (o : JsonMap) (text path id : Bytes) → ArePlain w n o
      → map_to_proto_wire w n o ≡ good ev.request_body
      → c.marshal (fill w n no_fields o) ≡ good text
      → c.unmarshal text ≡ parsed o
      → d.create_temp ≡ done path
      → d.write_temp path text ≡ none
      → d.run_editor (editor_or_vi d) path ≡ none
      → d.read_file path ≡ done text
      → d.replay ev.method ev.request_body ≡ done id
      → (deeds : List Deed) × (edit_and_resend d w n c ev ≡ some (deeds, replay_result_msg id none))
        × (calls deeds ≡ (ev.method, ev.request_body) ∷ [])
  unfolding edit_and_resend proto_wire_to_json decoded_to_json marshalled edit_json in_temp
      after_write after_editor resend_text json_to_proto_wire parsed_to_wire resend answered
      editor_or_vi
  edit_and_resend_untouched takes back order ev o text path id plain enc mar unm made wrote ran read
        sent =
      let (b, e, dec) = proto_wire_to_map-map_to_proto_wire w n takes back order o plain in
      let p : b ≡ ev.request_body = cc in
      let dec' = rw p at dec in
      rw (dec', mar, made, wrote, ran, read, unm, enc, sent) (_, refl, refl)
