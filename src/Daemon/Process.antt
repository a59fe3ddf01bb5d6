-- ===== src/Daemon/Process.antt =====
-- cmd/grpc-tapd/main.go: a function that starts and stops things, defers others to its end, and may
-- return an error or panic.
use grpc_tap.Prelude.{◌++◌, Option, none, some, List, [], ◌∷◌, Bytes}

-- What `run` does, with the goroutines that it starts.
pub data Deed : Type 0 where
  signals_caught signals_released : Deed
  grpc_serves grpc_stops : Deed
  web_serves web_shuts_down : Deed
  pump_starts proxy_serves : Deed

-- A step goes on, or the function returns an error, or it panics.
pub data Outcome (A : Type 0) : Type 0 where
  next : A → Outcome A
  fails : Bytes → Outcome A
  panics : Outcome A

-- What was done, the latest last, and what was deferred, the latest first.
pub record Log : Type 0 where
  pub done : List Deed
  pub deferred : List Deed

abbrev pub Action : Type 0 → Type 0
Action A = Log → Outcome A × Log

infixl 5 ◌>>=◌ ◌>>◌
abbrev pub ◌>>=◌ : {A B : Type 0} → Action A → (A → Action B) → Action B
◌>>=◌ m f l =
    let (r, l') = m l in
    elim r [ next a ↦ f a l' | fails e ↦ (fails e, l') | panics ↦ (panics, l') ]

abbrev pub ◌>>◌ : {B : Type 0} → Action (Unit {0}) → Action B → Action B
m >> k = m >>= λ _. k

abbrev pub perform : Deed → Action (Unit {0})
perform d l = (next tt, record l { done = l.done ++ (d ∷ []) })

abbrev pub defer : Deed → Action (Unit {0})
defer d l = (next tt, record l { deferred = d ∷ l.deferred })

-- `if err != nil { return fmt.Errorf("…: %w", err) }`.
abbrev pub check : Bytes → Option Bytes → Action (Unit {0})
check context none l = (next tt, l)
check context (some e) l = (fails (context ++ e), l)

-- How the function ends: it returns an error or none, or it panics.
pub data Ending : Type 0 where
  returned : Option Bytes → Ending
  panicked : Ending

abbrev pub ending : Outcome (Unit {0}) → Ending
ending (next u) = returned none
ending (fails e) = returned (some e)
ending panics = panicked

-- The whole call: what is deferred is done at its end, also on an error and on a panic.
abbrev pub call : Action (Unit {0}) → Ending × List Deed
call m = let (r, l) = m (record { done = []; deferred = [] }) in (ending r, l.done ++ l.deferred)
