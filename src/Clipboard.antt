-- ===== src/Clipboard.antt =====
-- clipboard/clipboard.go: the command that takes a text to the clipboard. The name of the operating
-- system, `exec.LookPath` and the run of a command are parameters.
use grpc_tap.Prelude.{
  Option, none, some, List, [], ◌∷◌, ◌++◌, Bytes, codes, Bool, if◌then◌else◌, eq_bytes,
}

-- A program and its arguments.
abbrev pub Command : Type 0
Command = List Bytes

pub record System : Type 0 where
  pub goos : Bytes
  pub on_path : Bytes → Bool
  pub run : Command → Bytes → Option Bytes

-- The command, or the text of an error.
pub data Choice : Type 0 where
  runs : Command → Choice
  unsupported : Bytes → Choice

module _ (s : System) where
  unfoldable pub linux_command : Choice
  linux_command =
      if s.on_path (codes "xclip")
      then runs (codes "xclip" ∷ (codes "-selection" ∷ (codes "clipboard" ∷ [])))
      else if s.on_path (codes "xsel")
      then runs (codes "xsel" ∷ (codes "--clipboard" ∷ (codes "--input" ∷ [])))
      else unsupported (codes "xclip or xsel is required on Linux")

  unfoldable pub choose : Choice
  choose =
      if eq_bytes s.goos (codes "darwin")
      then runs (codes "pbcopy" ∷ [])
      else if eq_bytes s.goos (codes "linux")
      then linux_command
      else if eq_bytes s.goos (codes "windows")
      then runs (codes "clip.exe" ∷ [])
      else unsupported (codes "clipboard not supported on " ++ s.goos)

  unfoldable pub run_choice : Bytes → Choice → Option Bytes
  run_choice text (unsupported e) = some e
  run_choice text (runs command) = elim (s.run command text) [
    | none ↦ none
    | some e ↦ some (codes "clipboard copy: " ++ e)
  ]

  -- `Copy`: the error, if any.
  unfoldable pub copy : Bytes → Option Bytes
  copy text = run_choice text choose
