-- ===== src/Web/Routes.antt =====
-- web/web.go, New, handleReplay and writeJSON: which handler a request reaches, and what it is
-- answered. `path.Clean` and encoding/json are parameters, and so are the files of the page and the
-- handler of the events.
pub mod Laws
use grpc_tap.Prelude.{
  ℕ, ◌*◌, ◌++◌, Option, none, some, List, [], ◌∷◌, Bytes, codes, Bool, true, false, ltb, not, ◌&&◌,
  ◌||◌, if◌then◌else◌, has_prefix, eq_bytes, length, take, Result, bad, good,
}
use grpc_tap.Proxy.Types.{Event}
use grpc_tap.Proxy.Capture.{max_capture_size}
use grpc_tap.Web
use grpc_tap.Web.{Formats, EventJson, ReplayResponse}

pub data Handler : Type 0 where
  file_server handle_sse handle_replay : Handler

-- A pattern for `http.ServeMux`. How the mux reads its patterns is not in web.go: `matches`,
-- `better` and `find_route` follow the documentation of net/http for patterns of a verb and a path
-- without wildcards, where a path that ends in a slash stands for all below it.
pub record Route : Type 0 where
  pub verb : Bytes
  pub path : Bytes
  pub handler : Handler

-- What `New` registers.
abbrev pub routes : List Route
routes =
    record { verb = codes "GET"; path = codes "/"; handler = file_server }
    ∷ (record { verb = codes "GET"; path = codes "/api/events"; handler = handle_sse }
        ∷ (record { verb = codes "POST"; path = codes "/api/replay"; handler = handle_replay }
            ∷ []))

unfoldable pub ends_in_slash : Bytes → Bool
ends_in_slash [] = false
ends_in_slash (b ∷ []) = eq_bytes (b ∷ []) (codes "/")
ends_in_slash (b ∷ c ∷ s) = ends_in_slash (c ∷ s)

-- GET stands for HEAD too.
unfoldable pub matches : Route → Bytes → Bytes → Bool
matches r verb path =
    (eq_bytes r.verb verb || (eq_bytes r.verb (codes "GET") && eq_bytes verb (codes "HEAD")))
    && (if ends_in_slash r.path then has_prefix path r.path else eq_bytes r.path path)

-- Of two patterns that match, the one with the longer path is the more specific.
unfoldable pub better : Route → Option Route → Option Route
better r none = some r
better r (some s) = if ltb (length s.path) (length r.path) then some r else some s

unfoldable pub find_route : List Route → Bytes → Bytes → Option Route
find_route [] verb path = none
find_route (r ∷ rs) verb path =
    let found = find_route rs verb path in if matches r verb path then better r found else found

-- The request, with the size of its body not bounded.
pub record Request : Type 0 where
  pub verb : Bytes
  pub path : Bytes
  pub body : Bytes

-- What a request is answered: a redirect to the clean path; that no pattern matches, which is status
-- 405 for a path that begins with a slash, since "GET /" stands for it; a file of the page; the stream
-- of the events; JSON at a status; or `http.Error`.
pub data Answer : Type 0 where
  moved : Bytes → Answer
  not_allowed : Answer
  file : Bytes → Answer
  event_stream : Answer
  json : ℕ → Bytes → Answer
  http_error : ℕ → Bytes → Answer

module _ (f : Formats) (marshal : Option (EventJson f.floats.Float) → Bytes → Result Bytes)
    (decode : Bytes → Bool → Result (Bytes × Bytes)) (clean : Bytes → Bytes)
    (replay : Bytes → Bytes → Result Event) where
  -- `writeJSON`; the second line of the answer is empty.
  unfoldable pub write_json : ReplayResponse f.floats.Float → Answer
  write_json r = elim (marshal r.event r.error) [
    | bad e ↦ http_error 500 e
    | good text ↦ json r.status (text ++ (0x0a ∷ []))
  ]

  -- What `http.MaxBytesReader` lets through of the body, and whether there was more, which the reader
  -- then has an error for.
  unfoldable pub read_request : Bytes → Result (Bytes × Bytes)
  read_request body =
      let limit = 2 * max_capture_size in decode (take limit body) (ltb limit (length body))

  -- `handleReplay` on the request, with the calls of the proxy.
  unfoldable pub answer_replay : Bytes → Answer × List (Bytes × Bytes)
  answer_replay body =
      let (r, calls) = Web.handle_replay f replay (read_request body) in (write_json r, calls)

  unfoldable pub handle : Handler → Request → Answer × List (Bytes × Bytes)
  handle file_server r = (file r.path, [])
  handle handle_sse r = (event_stream, [])
  handle handle_replay r = answer_replay r.body

  unfoldable pub dispatch : Option Route → Request → Answer × List (Bytes × Bytes)
  dispatch none r = (not_allowed, [])
  dispatch (some route) r = handle route.handler r

  -- From the clean path on: a request for another one is redirected.
  unfoldable pub serve_at : Bytes → Request → Answer × List (Bytes × Bytes)
  serve_at path r =
      if eq_bytes path r.path then dispatch (find_route routes r.verb path) r else (moved path, [])

  -- The request as the mux of `New` serves it. The path of CONNECT is left as it is.
  unfoldable pub serve : Request → Answer × List (Bytes × Bytes)
  serve r = serve_at (if eq_bytes r.verb (codes "CONNECT") then r.path else clean r.path) r
