-- ===== src/Example/Server.antt =====
-- example/server/main.go: the service that echoes, raises and reverses a message. A message is the
-- list of its bytes; strings.ToUpper and the conversions between a string and its runes are
-- parameters.
pub mod Laws
use grpc_tap.Prelude.{
  ℕ, zero, suc, ◌+◌, ◌-◌, ◌>>=◌, Option, none, some, List, Bytes, codes, ltb, if◌then◌else◌,
  is_empty, get_elem?, set, length,
}

-- A response, or an error of Connect: its code and its text.
pub data Reply : Type 0 where
  response : Bytes → Reply
  invalid_argument : Bytes → Reply

-- `Echo`.
unfoldable pub echo : Bytes → Reply
echo message =
    if is_empty message
    then invalid_argument (codes "message must not be empty")
    else response message

-- `Upper`, with strings.ToUpper.
unfoldable pub upper : (Bytes → Bytes) → Bytes → Reply
upper to_upper message =
    if is_empty message
    then invalid_argument (codes "message must not be empty")
    else response (to_upper message)

-- `runes[i], runes[j] = runes[j], runes[i]`; an index out of range panics.
unfoldable pub swap : ℕ → ℕ → List ℕ → Option (List ℕ)
swap i j runes = do a ← get_elem? runes i; b ← get_elem? runes j; some (set (set runes i b) j a)

-- The loop of `Reverse`, on fuel. An index that is `len(runes)-1` for no runes is 0 here.
unfoldable pub reverse_loop : ℕ → ℕ → ℕ → List ℕ → Option (List ℕ)
reverse_loop zero i j runes = none
reverse_loop (suc fuel) i j runes =
    let rest = λ (runes' : List ℕ). reverse_loop fuel (i + 1) (j - 1) runes' in
    if ltb i j then (swap i j runes >>= rest) else some runes

unfoldable pub reverse_runes : List ℕ → Option (List ℕ)
reverse_runes runes = reverse_loop (suc (length runes)) 0 (length runes - 1) runes

-- `Reverse`. `to_runes` is the conversion to `[]rune`, `of_runes` the one back.
unfoldable pub reverse_message : (Bytes → List ℕ) → (List ℕ → Bytes) → Bytes → Option Reply
reverse_message to_runes of_runes message = do
  runes ← reverse_runes (to_runes message)
  some (response (of_runes runes))
