-- ===== src/Proxy/Status.antt =====
-- The status of a call: ExtractStatus, extractGRPCStatus, extractConnectStatus and
-- httpStatusToGRPCCode of proxy/reverse_proxy.go. The codes of connectrpc.com/connect are a
-- parameter.
use grpc_tap.Prelude.{
  ℕ, ◌^◌, ◌<◌, ◌≡◌, ap, ◌∙◌, ◌≢◌, ◌↔◌, List, [], Bytes, codes, false, ◌==◌, ◌||◌, not,
  if◌then◌else◌, is_empty, arith, ◌⊎◌, inl, inr,
}
use grpc_tap.Prelude.Int.{ℤ, pos, eq_ℤ}
use grpc_tap.Prelude.Decimal.{parse_int, print_nat, parse_int-print_nat, is_empty-print_nat}
use grpc_tap.Proxy.Types.{Protocol, protocol_grpc, protocol_grpc_web, protocol_connect, Header}
use grpc_tap.Proxy.Header

-- `http.Response`, the fields that are read. `announced` holds the keys of `Trailer` before the body
-- is read, `trailer` is its value after that.
pub record Response : Type 0 where
  pub status_code : ℕ
  pub status : Bytes
  pub header : Header
  pub trailer : Header
  pub announced : List Bytes

-- `int32(connect.CodeInternal)` and its kin.
pub record ConnectCodes : Type 0 where
  pub internal : ℤ
  pub unauthenticated : ℤ
  pub permission_denied : ℤ
  pub unimplemented : ℤ
  pub unavailable : ℤ
  pub unknown : ℤ

-- The code of a call that went well is none of them.
pub record AreErrors (c : ConnectCodes) : Type 0 where
  pub internal_ne : c.internal ≢ pos 0
  pub unauthenticated_ne : c.unauthenticated ≢ pos 0
  pub permission_denied_ne : c.permission_denied ≢ pos 0
  pub unimplemented_ne : c.unimplemented ≢ pos 0
  pub unavailable_ne : c.unavailable ≢ pos 0
  pub unknown_ne : c.unknown ≢ pos 0

-- The status as `ParseInt(s, 10, 32)` reads it; its error is dropped.
unfoldable pub status_code_of : Bytes → ℤ
status_code_of s = (parse_int 32 s).0

unfoldable pub extract_grpc_status : Response → ℤ × Bytes
extract_grpc_status resp =
    let in_trailer = Header.get (codes "Grpc-Status") resp.trailer in
    let in_header = Header.get (codes "Grpc-Status") resp.header in
    if not (is_empty in_trailer)
    then (status_code_of in_trailer, Header.get (codes "Grpc-Message") resp.trailer)
    else if not (is_empty in_header)
    then (status_code_of in_header, Header.get (codes "Grpc-Message") resp.header)
    else (pos 0, [])

extract_grpc_status-trailer :
    (resp : Response) (s : Bytes)
    → Header.get (codes "Grpc-Status") resp.trailer ≡ s
    → is_empty s ≡ false
    → extract_grpc_status resp ≡ (status_code_of s, Header.get (codes "Grpc-Message") resp.trailer)
unfolding extract_grpc_status
extract_grpc_status-trailer resp s t e = rw (t, e)

extract_grpc_status-header :
    (resp : Response) (s : Bytes)
    → Header.get (codes "Grpc-Status") resp.trailer ≡ []
    → Header.get (codes "Grpc-Status") resp.header ≡ s
    → is_empty s ≡ false
    → extract_grpc_status resp ≡ (status_code_of s, Header.get (codes "Grpc-Message") resp.header)
unfolding extract_grpc_status
extract_grpc_status-header resp s t u e = rw (t, u, e)

status_code_of-print_nat :
    (code : ℕ)
    → code < 2 ^ 31
    → (status_code_of (print_nat code) ≡ pos code) × (is_empty (print_nat code) ≡ false)
unfolding status_code_of
status_code_of-print_nat code h =
    (ap (λ r. r.0) (parse_int-print_nat 31 code h), is_empty-print_nat code)

module _ (c : ConnectCodes) where
  unfoldable pub http_status_to_grpc_code : ℕ → ℤ
  http_status_to_grpc_code s =
      if s == 400
      then c.internal
      else if s == 401
      then c.unauthenticated
      else if s == 403
      then c.permission_denied
      else if s == 404
      then c.unimplemented
      else if s == 429
      then c.unavailable
      else if s == 502 || s == 503 || s == 504
      then c.unavailable
      else c.unknown

  unfoldable pub extract_connect_status : Response → ℤ × Bytes
  extract_connect_status resp =
      if resp.status_code == 200
      then (pos 0, [])
      else (http_status_to_grpc_code resp.status_code, resp.status)

  unfoldable pub extract_status : Protocol → Response → ℤ × Bytes
  unfolding extract_connect_status http_status_to_grpc_code extract_grpc_status
  extract_status p resp =
      if eq_ℤ p protocol_grpc || eq_ℤ p protocol_grpc_web
      then extract_grpc_status resp
      else if eq_ℤ p protocol_connect
      then extract_connect_status resp
      else (pos 0, [])

  -- A Connect call is reported as a success exactly when the HTTP status is 200, given that none
  -- of the error codes of Connect is 0.
  pub extract_status-connect_iff :
      (resp : Response)
      → AreErrors c
      → ((extract_status protocol_connect resp).0 ≡ pos 0) ↔ (resp.status_code ≡ 200)
  unfolding extract_status
  extract_status-connect_iff resp e = (λ h. ground arith, λ h. ground arith)

  extract_status-eq :
      (p : Protocol) (resp : Response)
      → (p ≡ protocol_grpc) ⊎ (p ≡ protocol_grpc_web)
      → extract_status p resp ≡ extract_grpc_status resp
  unfolding extract_status
  extract_status-eq p resp (inl e) = rw e
  extract_status-eq p resp (inr e) = rw e

  -- A gRPC or gRPC-Web status that the server sends in decimal in the trailer is reported, with the
  -- message of the trailer, whatever the header says.
  pub extract_status-trailer :
      (p : Protocol) (resp : Response) (code : ℕ)
      → (p ≡ protocol_grpc) ⊎ (p ≡ protocol_grpc_web)
      → code < 2 ^ 31
      → Header.get (codes "Grpc-Status") resp.trailer ≡ print_nat code
      → extract_status p resp ≡ (pos code, Header.get (codes "Grpc-Message") resp.trailer)
  extract_status-trailer p resp code n h t =
      let (lands, full) = status_code_of-print_nat code h in
      extract_status-eq p resp n
      ∙ extract_grpc_status-trailer resp (print_nat code) t full
      ∙ rw lands

  -- A gRPC or gRPC-Web status that the server sends in decimal in the header, with none in the
  -- trailer, is reported with the message of the header.
  pub extract_status-header :
      (p : Protocol) (resp : Response) (code : ℕ)
      → (p ≡ protocol_grpc) ⊎ (p ≡ protocol_grpc_web)
      → code < 2 ^ 31
      → Header.get (codes "Grpc-Status") resp.trailer ≡ []
      → Header.get (codes "Grpc-Status") resp.header ≡ print_nat code
      → extract_status p resp ≡ (pos code, Header.get (codes "Grpc-Message") resp.header)
  extract_status-header p resp code n h t s =
      let (lands, full) = status_code_of-print_nat code h in
      extract_status-eq p resp n
      ∙ extract_grpc_status-header resp (print_nat code) t s full
      ∙ rw lands
