-- ===== src/Web/Resend.antt =====
-- web/web.go, eventToJSON and handleReplay: a call that the browser was shown, sent back to be
-- replayed.
use grpc_tap.Prelude.{
  ℕ, ◌*◌, ◌≤◌, ◌≡◌, [], ◌∷◌, Bytes, codes, true, false, not, ◌||◌, is_empty, has_prefix, length,
  ltb, arith, Result, good,
}
use grpc_tap.Proxy.Types.{Event}
use grpc_tap.Web.{Formats, encode_body, event_to_json, call_replay, replay_decoded, handle_replay}

is_path :
    (method : Bytes)
    → has_prefix method (codes "/") ≡ true
    → (is_empty method || not (has_prefix method (codes "/"))) ≡ false
is_path [] h = cc
is_path (b ∷ s) h = ground arith

not_longer : (n m : ℕ) → m ≤ n → ltb n m ≡ false
not_longer n m h = ground arith

module _ (f : Formats) (replay : Bytes → Bytes → Result Event) where
  -- The body comes back from its text.
  decode-encode_body :
      ((s : Bytes) → f.decode_base64 (f.encode_base64 s) ≡ good s)
      → f.decode_base64 [] ≡ good []
      → (s : Bytes) → f.decode_base64 (encode_body f s) ≡ good s
  unfolding encode_body
  decode-encode_body inverse none_at_all [] = none_at_all
  decode-encode_body inverse none_at_all (b ∷ s) = inverse (b ∷ s)

  -- Such a call passes all the checks of the handler.
  pub handle_replay-call_replay :
      (ev : Event)
      → ((s : Bytes) → f.decode_base64 (f.encode_base64 s) ≡ good s)
      → f.decode_base64 [] ≡ good []
      → has_prefix ev.method (codes "/") ≡ true
      → length ev.request_body ≤ 64 * 1024
      → handle_replay f replay
          (good ((event_to_json f ev).method, (event_to_json f ev).request_body))
        ≡ call_replay f replay ev.method ev.request_body
  unfolding handle_replay event_to_json replay_decoded
  handle_replay-call_replay ev inverse none_at_all path small =
      let passes = is_path ev.method path in
      let back = decode-encode_body inverse none_at_all ev.request_body in
      let fits = not_longer (64 * 1024) (length ev.request_body) small in simp (passes, back, fits)
