-- ===== src/Web/Laws.antt =====
-- What the handler of a replay lets through.
use grpc_tap.Prelude.{
  Result, bad, good, Result-cases, ◌≤◌, ◌*◌, ◌≡◌, refl, ◌⊎◌, inl, inr, none, some, List, [], ◌∷◌,
  Bytes, codes, Bool, true, false, if◌then◌else◌, has_prefix, length, arith,
}
use grpc_tap.Proxy.Types.{Event}
use grpc_tap.Web.{
  Formats, ReplayResponse, event_to_json, refuse, call_replay, replay_decoded, handle_replay,
}

module _ (f : Formats) (replay : Bytes → Bytes → Result Event) where
  -- A request that is turned away before the proxy sees it.
  abbrev pub IsRefused : ReplayResponse f.floats.Float × List (Bytes × Bytes) → Type 0
  IsRefused (r, calls) = (r.status ≡ 400) × (r.event ≡ none) × (calls ≡ [])

  -- A request that is replayed, once.
  abbrev pub IsReplayed : ReplayResponse f.floats.Float × List (Bytes × Bytes) → Type 0
  IsReplayed (r, calls) =
      (method body : Bytes) × (calls ≡ (method, body) ∷ [])
      × (has_prefix method (codes "/") ≡ true)
      × (length body ≤ 64 * 1024)
      × (((ev : Event) × (replay method body ≡ good ev)
            × (r.status ≡ 200)
            × (r.event ≡ some (event_to_json f ev))
            × (r.error ≡ []))
          ⊎ ((e : Bytes) × (replay method body ≡ bad e)
              × (r.status ≡ 500)
              × (r.event ≡ none)
              × (r.error ≡ e)))

  abbrev IsAnswered : ReplayResponse f.floats.Float × List (Bytes × Bytes) → Type 0
  IsAnswered r = IsRefused r ⊎ IsReplayed r

  if-IsAnswered :
      (b : Bool) (x y : ReplayResponse f.floats.Float × List (Bytes × Bytes))
      → (b ≡ true → IsAnswered x)
      → (b ≡ false → IsAnswered y)
      → IsAnswered (if b then x else y)
  if-IsAnswered true x y p q = p refl
  if-IsAnswered false x y p q = q refl

  call_replay-IsReplayed :
      (method body : Bytes)
      → has_prefix method (codes "/") ≡ true
      → length body ≤ 64 * 1024
      → IsReplayed (call_replay f replay method body)
  unfolding call_replay refuse
  call_replay-IsReplayed method body h l = elim (Result-cases (replay method body)) [
    | inl (e, at) ↦ rw at (method, body, refl, h, l, inr (e, at, refl, refl, refl))
    | inr (ev, at) ↦ rw at (method, body, refl, h, l, inl (ev, at, refl, refl, refl))
  ]

  replay_decoded-IsAnswered :
      (method : Bytes) (d : Result Bytes)
      → has_prefix method (codes "/") ≡ true
      → IsAnswered (replay_decoded f replay method d)
  unfolding replay_decoded refuse
  replay_decoded-IsAnswered method (bad e) h = inl (refl, refl, refl)
  replay_decoded-IsAnswered method (good body) h =
      if-IsAnswered _ _ _ (λ e. inl (refl, refl, refl))
        (λ e. inr (call_replay-IsReplayed method body h (ground arith)))

  -- A request is answered in one of two ways. Either it is turned away with status 400, and the
  -- proxy is not called. Or the proxy is called once, with a path that begins with a slash and a
  -- body of at most 64 KiB: the answer then is the proxy's event at status 200, or the proxy's error
  -- at status 500.
  pub handle_replay-cases :
      (request : Result (Bytes × Bytes))
      → IsRefused (handle_replay f replay request) ⊎ IsReplayed (handle_replay f replay request)
  unfolding handle_replay refuse call_replay
  handle_replay-cases (bad e) = inl (refl, refl, refl)
  handle_replay-cases (good (method, body64)) =
      if-IsAnswered _ _ _ (λ e. inl (refl, refl, refl))
        (λ e. replay_decoded-IsAnswered method (f.decode_base64 body64) (ground arith))
