-- ===== src/Tui/Export/Markdown/Cells.antt =====
-- The rows of the exported table, read back as GitHub's Markdown reads a row: a pipe ends a cell
-- unless a backslash stands before it, a backslash before any other character stays with it, and a
-- line feed ends the row.
use grpc_tap.Prelude.{
  ℕ, zero, suc, ◌+◌, ◌/◌, ◌≡◌, refl, ap, inl, inr, List, [], ◌∷◌, ◌++◌, map, Bytes, codes,
  append_assoc, Bool, true, false, not, ltb, ◌==◌, ◌&&◌, if◌then◌else◌, All, All-append, arith,
  Bool-cases, cons_first,
}
use grpc_tap.Prelude.Int.{ℤ, pos, negsuc, eq_ℤ}
use grpc_tap.Prelude.Decimal.{print_nat, print_int, print_loop}
use grpc_tap.Tui.TapEvent.{TapEvent}
use grpc_tap.Tui.Names.{call_type_name, protocol_name}
use grpc_tap.Tui.Format.{status_string}
use grpc_tap.Tui.Export.Data.{Exporter, as_time, duration_ms, export_call}
use grpc_tap.Tui.Export.Markdown.{
  escape_markdown_pipe, row_tail, table_row, below, format_duration_ms, call_line,
}

abbrev pub under : (List Bytes → List Bytes) → List Bytes × Bytes → List Bytes × Bytes
under f r = (f r.0, r.1)

-- The cells of the first row, and what comes after it; the flag says that a backslash was the last
-- character.
abbrev pub read_row : Bool → Bytes → List Bytes × Bytes
read_row true [] = ((b'\\' ∷ []) ∷ [], [])
read_row false [] = ([] ∷ [], [])
read_row true (c ∷ s) =
    let r = read_row false s in
    if c == 0x0a
    then ((b'\\' ∷ []) ∷ [], s)
    else if c == b'|'
    then under (cons_first b'|') r
    else under (λ cells. cons_first b'\\' (cons_first c cells)) r
read_row false (c ∷ s) =
    let r = read_row false s in
    let escaped = read_row true s in
    if c == 0x0a
    then ([] ∷ [], s)
    else if c == b'\\'
    then escaped
    else if c == b'|'
    then under (◌∷◌ []) r
    else under (cons_first c) r

abbrev pub spaced : Bytes → Bytes
spaced s = 0x20 ∷ (s ++ (0x20 ∷ []))

-- A text on one line without a backslash, and one without a pipe as well.
abbrev pub IsPlain : Bytes → Type 0
IsPlain = All (λ c. ((c == b'\\') ≡ false) × ((c == 0x0a) ≡ false))

abbrev pub IsBare : Bytes → Type 0
IsBare = All (λ c. ((c == b'\\') ≡ false) × ((c == b'|') ≡ false) × ((c == 0x0a) ≡ false))

IsBare-IsPlain : (s : Bytes) → IsBare s → IsPlain s
IsBare-IsPlain [] h = tt
IsBare-IsPlain (c ∷ s) h = ((h.0.0, h.0.2), IsBare-IsPlain s h.1)

escape_bare : (s : Bytes) → IsBare s → escape_markdown_pipe s ≡ s
unfolding escape_markdown_pipe
escape_bare [] h = refl
escape_bare (c ∷ s) h = rw h.0.1 (ap (◌∷◌ c) (escape_bare s h.1))

read_row-escape :
    (s rest : Bytes)
    → IsPlain s
    → read_row false (escape_markdown_pipe s ++ (0x20 ∷ b'|' ∷ rest))
      ≡ under (◌∷◌ (s ++ (0x20 ∷ []))) (read_row false rest)
unfolding escape_markdown_pipe
read_row-escape [] rest h = refl
read_row-escape (c ∷ s) rest h = elim (Bool-cases (c == b'|')) [
  | inl e ↦ let p : c ≡ b'|' = ground (arith, e) in rw (e, read_row-escape s rest h.1, p) refl
  | inr e ↦ rw e (rw (h.0.0, h.0.1, e, read_row-escape s rest h.1) refl)
]

read_row-row_tail :
    (fs : List Bytes) (rest : Bytes)
    → All IsPlain fs
    → read_row false (row_tail (map escape_markdown_pipe fs) ++ rest)
      ≡ (map spaced fs ++ ([] ∷ []), rest)
unfolding row_tail
read_row-row_tail [] rest h = refl
read_row-row_tail (f ∷ fs) rest h =
    let tail = row_tail (map escape_markdown_pipe fs) in
    rw
      (
        append_assoc (escape_markdown_pipe f) (0x20 ∷ b'|' ∷ tail) rest,
        read_row-escape f (tail ++ rest) h.0,
        read_row-row_tail fs rest h.1,
      )
      refl

print_loop-IsBare : (fuel n : ℕ) → IsBare (print_loop fuel n)
unfolding print_loop
print_loop-IsBare zero n = tt
print_loop-IsBare (suc fuel) n = elim (Bool-cases (ltb n 10)) [
  | inl e ↦ rw e ((ground arith, ground arith, ground arith), tt)
  | inr e ↦ rw e (
      All-append _ (print_loop fuel (n / 10)) _ (print_loop-IsBare fuel (n / 10))
        ((ground arith, ground arith, ground arith), tt))
]

print_nat-IsBare : (n : ℕ) → IsBare (print_nat n)
unfolding print_nat
print_nat-IsBare n = print_loop-IsBare (n + 1) n

print_int-IsBare : (n : ℤ) → IsBare (print_int n)
unfolding print_int
print_int-IsBare (pos n) = print_nat-IsBare n
print_int-IsBare (negsuc n) = ((refl, refl, refl), print_nat-IsBare (suc n))

if-IsBare : (b : Bool) (s s' : Bytes) → IsBare s → IsBare s' → IsBare (if b then s else s')
if-IsBare true s s' h h' = h
if-IsBare false s s' h h' = h'

-- The test, for a literal.
abbrev pub is_bare : Bytes → Bool
is_bare [] = true
is_bare (c ∷ s) = not (c == b'\\') && not (c == b'|') && not (c == 0x0a) && is_bare s

pub is_bare-IsBare : (s : Bytes) → is_bare s ≡ true → IsBare s
is_bare-IsBare [] h = tt
is_bare-IsBare (c ∷ s) h = (
  (ground (arith, h), ground (arith, h), ground (arith, h)),
  is_bare-IsBare s (ground (arith, h)),
)

call_type_name-IsBare : (n : ℤ) → IsBare (call_type_name n)
unfolding call_type_name
call_type_name-IsBare n = if-IsBare (eq_ℤ n (pos 1)) _ _ (is_bare-IsBare (codes "Unary") refl) (
    if-IsBare (eq_ℤ n (pos 2)) _ _ (is_bare-IsBare (codes "ServerStream") refl) (
      if-IsBare (eq_ℤ n (pos 3)) _ _ (is_bare-IsBare (codes "ClientStream") refl) (
        if-IsBare (eq_ℤ n (pos 4)) _ _ (is_bare-IsBare (codes "BidiStream") refl)
          (is_bare-IsBare (codes "Unknown") refl))))

protocol_name-IsBare : (n : ℤ) → IsBare (protocol_name n)
unfolding protocol_name
protocol_name-IsBare n = if-IsBare (eq_ℤ n (pos 1)) _ _ (is_bare-IsBare (codes "gRPC") refl) (
    if-IsBare (eq_ℤ n (pos 2)) _ _ (is_bare-IsBare (codes "gRPC-Web") refl) (
      if-IsBare (eq_ℤ n (pos 3)) _ _ (is_bare-IsBare (codes "Connect") refl)
        (is_bare-IsBare (codes "Unknown") refl)))

status_string-IsBare : (n : ℤ) → IsBare (status_string n)
unfolding status_string
status_string-IsBare n = if-IsBare (eq_ℤ n (pos 0)) _ _ (is_bare-IsBare (codes "OK") refl) (
    All-append _ (codes "ERR(") _ (is_bare-IsBare (codes "ERR(") refl)
      (All-append _ (print_int n) _ (print_int-IsBare n) (is_bare-IsBare (codes ")") refl)))

module _ (x : Exporter) where
  open x use {floats}

  format_duration_ms-IsBare :
      ((n : ℕ) (f : floats.Float) → IsBare (x.fixed n f))
      → (ms : floats.Float) → IsBare (format_duration_ms x ms)
  unfolding format_duration_ms
  format_duration_ms-IsBare bare ms =
      if-IsBare (below x ms _) _ _
        (All-append _ (x.fixed 0 _) _ (bare 0 _) (is_bare-IsBare (0xc2 ∷ 0xb5 ∷ codes "s") refl))
        (if-IsBare (below x ms _) _ _
          (All-append _ (x.fixed 1 _) _ (bare 1 _) (is_bare-IsBare (codes "ms") refl))
          (All-append _ (x.fixed 2 _) _ (bare 2 _) (is_bare-IsBare (codes "s") refl)))

  -- Where the export goes on with the row of a call, its first row is read back as the eight cells
  -- of the call, the method and the error with the pipes that stand in them, and all that follows
  -- is left, whatever the event, if neither of these two has a backslash or a line feed. It is
  -- assumed that the formats of a time and of a number write no pipe, backslash or line feed.
  pub read_row-call_line :
      ((time : ℤ) → IsBare (x.clock_millis time))
      → ((n : ℕ) (f : floats.Float) → IsBare (x.fixed n f))
      → (i : ℕ) (ev : TapEvent) (rest : Bytes) → IsPlain ev.method
      → IsPlain ev.error
      → read_row false (call_line x i (export_call x ev) ++ rest) ≡ (
        []
            ∷ (map spaced (
                  print_nat i
                  ∷ (x.clock_millis (as_time ev.start_time)
                      ∷ (ev.method
                          ∷ (call_type_name ev.call_type
                              ∷ (protocol_name ev.protocol
                                  ∷ (format_duration_ms x (duration_ms x ev.duration)
                                      ∷ (status_string ev.status ∷ (ev.error ∷ []))))))))
                ++ ([] ∷ [])),
        rest,
      )
  unfolding call_line table_row export_call
  read_row-call_line bare_time bare_number i ev rest method error =
      let number = print_nat-IsBare i in
      let time = bare_time (as_time ev.start_time) in
      let call_type = call_type_name-IsBare ev.call_type in
      let protocol = protocol_name-IsBare ev.protocol in
      let duration = format_duration_ms-IsBare bare_number (duration_ms x ev.duration) in
      let status = status_string-IsBare ev.status in
      let read =
        read_row-row_tail
          (print_nat i
            ∷ (x.clock_millis (as_time ev.start_time)
                ∷ (ev.method
                    ∷ (call_type_name ev.call_type
                        ∷ (protocol_name ev.protocol
                            ∷ (format_duration_ms x (duration_ms x ev.duration)
                                ∷ (status_string ev.status ∷ (ev.error ∷ []))))))))
          rest
          (
            IsBare-IsPlain _ number,
            (
              IsBare-IsPlain _ time,
              (
                method,
                (
                  IsBare-IsPlain _ call_type,
                  (
                    IsBare-IsPlain _ protocol,
                    (IsBare-IsPlain _ duration, (IsBare-IsPlain _ status, (error, tt))),
                  ),
                ),
              ),
            ),
          ) in
      ap (under (◌∷◌ [])) (
        rw
          (
            escape_bare _ number,
            escape_bare _ time,
            escape_bare _ call_type,
            escape_bare _ protocol,
            escape_bare _ duration,
            escape_bare _ status,
          )
          at read)
