-- ===== src/Web/Routes/Laws.antt =====
-- web/web.go: the one way by which a request makes the proxy send a call.
use grpc_tap.Prelude.{
  ℕ, ◌*◌, ◌≤◌, ◌≡◌, ◌≢◌, refl, sym, ap, ◌∙◌, subst, ◌⊎◌, inl, inr, Option, none, some, List, [],
  ◌∷◌, Bytes, codes, Bool, true, false, ◌&&◌, ◌||◌, has_prefix, eq_bytes, eq_bytes_sound, length,
  arith, Bool-cases, Result, bad, good,
}
use grpc_tap.Proxy.Types.{Event}
use grpc_tap.Web
use grpc_tap.Web.{Formats, refuse, EventJson, ReplayResponse, event_to_json}
use grpc_tap.Web.Laws.{handle_replay-cases}
use grpc_tap.Web.Routes.{
  Handler, file_server, handle_sse, handle_replay, Route, routes, ends_in_slash, matches, better,
  find_route, Request, Answer, write_json, read_request, answer_replay, handle, dispatch, serve_at,
  serve,
}

abbrev replay_route : Route
replay_route = record { verb = codes "POST"; path = codes "/api/replay"; handler = handle_replay }

-- The pattern of the replay is found only where it matches.
find_route-replay :
    (verb path : Bytes) (r : Route)
    → find_route routes verb path ≡ some r
    → r.handler ≡ handle_replay
    → matches replay_route verb path ≡ true
unfolding find_route better
find_route-replay verb path r e h = ground arith

both : (a b c : Bool) → ((a || (false && b)) && c) ≡ true → (a && c) ≡ true
both a b c h = ground arith

both_true : (a b : Bool) → (a && b) ≡ true → (a ≡ true) × (b ≡ true)
both_true a b h = ground arith

matches-replay :
    (verb path : Bytes)
    → matches replay_route verb path ≡ true
    → (eq_bytes (codes "POST") verb && eq_bytes (codes "/api/replay") path) ≡ true
unfolding matches ends_in_slash
matches-replay verb path h =
    both (eq_bytes (codes "POST") verb) (eq_bytes verb (codes "HEAD"))
      (eq_bytes (codes "/api/replay") path) h

-- The request is one to replay a call, as a statement and as a test.
abbrev pub IsReplay : Request → Type 0
IsReplay r = (r.verb ≡ codes "POST") × (r.path ≡ codes "/api/replay")

abbrev pub is_replay : Request → Bool
is_replay r = eq_bytes (codes "POST") r.verb && eq_bytes (codes "/api/replay") r.path

Handler-cases : (h : Handler) → (h ≡ handle_replay) ⊎ (h ≢ handle_replay)
Handler-cases file_server = inr (λ e. cc)
Handler-cases handle_sse = inr (λ e. cc)
Handler-cases handle_replay = inl refl

is_replay-IsReplay : (r : Request) → is_replay r ≡ true → IsReplay r
is_replay-IsReplay r b = (
  sym (
      eq_bytes_sound (codes "POST") r.verb
        (both_true _ (eq_bytes (codes "/api/replay") r.path) b).0),
  sym (
      eq_bytes_sound (codes "/api/replay") r.path
        (both_true (eq_bytes (codes "POST") r.verb) _ b).1),
)

is_replay-not : (r : Request) → is_replay r ≡ false → ¬ IsReplay r
is_replay-not r b (v, p) = let found : is_replay r ≡ true = rw (v, p) refl in cc

module _ (f : Formats) (marshal : Option (EventJson f.floats.Float) → Bytes → Result Bytes)
    (decode : Bytes → Bool → Result (Bytes × Bytes)) (clean : Bytes → Bytes)
    (replay : Bytes → Bytes → Result Event) where
  handle_elsewhere :
      (h : Handler) (r : Request)
      → h ≢ handle_replay
      → (handle f marshal decode clean replay h r).1 ≡ []
  unfolding handle
  handle_elsewhere file_server r n = refl
  handle_elsewhere handle_sse r n = refl
  handle_elsewhere handle_replay r n = absurd (n refl)

  dispatch_elsewhere :
      (r : Request) (o : Option Route)
      → is_replay r ≡ false
      → find_route routes r.verb r.path ≡ o
      → (dispatch f marshal decode clean replay o r).1 ≡ []
  unfolding dispatch
  dispatch_elsewhere r none b e = refl
  dispatch_elsewhere r (some route) b e = elim (Handler-cases route.handler) [
    | inl h ↦ cc (matches-replay r.verb r.path (find_route-replay r.verb r.path route e h))
    | inr n ↦ handle_elsewhere route.handler r n
  ]

  serve_at-elsewhere :
      (path : Bytes) (r : Request)
      → is_replay r ≡ false
      → (serve_at f marshal decode clean replay path r).1 ≡ []
  unfolding serve_at
  serve_at-elsewhere path r b = elim (Bool-cases (eq_bytes path r.path)) [
    | inl e ↦ rw e (
        subst (λ p. (dispatch f marshal decode clean replay (find_route routes r.verb p) r).1 ≡ [])
          (sym (eq_bytes_sound path r.path e))
          (dispatch_elsewhere r (find_route routes r.verb r.path) b refl))
    | inr e ↦ rw e refl
  ]

  serve_elsewhere :
      (r : Request) → is_replay r ≡ false → (serve f marshal decode clean replay r).1 ≡ []
  unfolding serve
  serve_elsewhere r b = serve_at-elsewhere _ r b

  serve-replay :
      (body : Bytes)
      → clean (codes "/api/replay") ≡ codes "/api/replay"
      → serve f marshal decode clean replay
          (record { verb = codes "POST"; path = codes "/api/replay"; body = body })
        ≡ answer_replay f marshal decode clean replay body
  unfolding serve serve_at dispatch find_route matches better ends_in_slash handle
  serve-replay body h = rw (serve, h) refl

  -- The answer to a request that is turned away, and the one to a replay.
  abbrev pub IsTurnedAway : Answer × List (Bytes × Bytes) → Type 0
  IsTurnedAway (a, calls) =
      (e : Bytes) × (a ≡ write_json f marshal decode clean replay (refuse f 400 e)) × (calls ≡ [])

  abbrev pub IsSent : Answer × List (Bytes × Bytes) → Type 0
  IsSent (a, calls) =
      (method body : Bytes) × (calls ≡ (method, body) ∷ [])
      × (has_prefix method (codes "/") ≡ true)
      × (length body ≤ 64 * 1024)
      × (((ev : Event) × (replay method body ≡ good ev)
            × (a
                ≡ write_json f marshal decode clean replay
                    (record { status = 200; event = some (event_to_json f ev); error = [] })))
          ⊎ ((e : Bytes) × (replay method body ≡ bad e)
              × (a ≡ write_json f marshal decode clean replay (refuse f 500 e))))

  response_eta :
      (status : ℕ) (ev : Option (EventJson f.floats.Float)) (e : Bytes)
      (r : ReplayResponse f.floats.Float)
      → r.status ≡ status
      → r.event ≡ ev
      → r.error ≡ e
      → r ≡ record { status = status; event = ev; error = e }
  response_eta status ev e r p q s = λ i. record { status = p i; event = q i; error = s i }

  answer_replay-cases :
      (body : Bytes)
      → IsTurnedAway (answer_replay f marshal decode clean replay body)
        ⊎ IsSent (answer_replay f marshal decode clean replay body)
  unfolding answer_replay refuse
  answer_replay-cases body =
      let (r, calls) =
        Web.handle_replay f replay (read_request f marshal decode clean replay body) in
      let write = write_json f marshal decode clean replay in
      elim (handle_replay-cases f replay (read_request f marshal decode clean replay body)) [
        | inl (s, n, c) ↦ inl (_, ap write (response_eta 400 none r.error r s n refl), c)
        | inr (m, b, c, h, l, inl (ev, at, s, e, n)) ↦ inr (
          m,
          b,
          c,
          h,
          l,
          inl (ev, at, ap write (response_eta 200 (some (event_to_json f ev)) [] r s e n)),
        )
        | inr (m, b, c, h, l, inr (e, at, s, n, same)) ↦
            inr (m, b, c, h, l, inr (e, at, ap write (response_eta 500 none e r s n same)))
      ]

  -- The proxy sends a call again for no request of a browser but one that posts to /api/replay.
  -- Such a request is answered in one of two ways. Either it is turned away with status 400, and
  -- the proxy is not called. Or the proxy is called once, with a path that begins with a slash and
  -- a body of at most 64 KiB, and the answer is the proxy's event at status 200, or its error at
  -- status 500. These answers are written as JSON, and where there is none the status is 500. It is
  -- assumed that /api/replay is a clean path.
  pub serve-cases :
      (r : Request)
      → clean (codes "/api/replay") ≡ codes "/api/replay"
      → ((¬ IsReplay r) × ((serve f marshal decode clean replay r).1 ≡ []))
        ⊎ (IsReplay r
            × (IsTurnedAway (serve f marshal decode clean replay r)
                ⊎ IsSent (serve f marshal decode clean replay r)))
  serve-cases r h = elim (Bool-cases (is_replay r)) [
    | inl b ↦
        let (v, p) = is_replay-IsReplay r b in
        let at : serve f marshal decode clean replay r
            ≡ answer_replay f marshal decode clean replay r.body =
          ap (serve f marshal decode clean replay)
            (λ i. record { verb = v i; path = p i; body = r.body })
          ∙ serve-replay r.body h in
        inr ((v, p), subst (λ a. IsTurnedAway a ⊎ IsSent a) (sym at) (answer_replay-cases r.body))
    | inr b ↦ inl (is_replay-not r b, serve_elsewhere r b)
  ]
