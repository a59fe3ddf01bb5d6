-- ===== src/Tui/Command.antt =====
-- main.go: the command of the TUI. The terminal and the program of bubbletea are a parameter.
use grpc_tap.Prelude.{Option, none, some, List, [], ◌∷◌, ◌++◌, Bytes, codes, Bool, true, false}
use grpc_tap.Tui.Model.{Model, new}

-- How the process ends: the version is printed; the usage is, at status 1; the program has ended; or
-- its error is printed, at status 1.
pub data Exit : Type 0 where
  version_printed usage_printed clean : Exit
  failed : Bytes → Exit

unfoldable pub exit_of : Option Bytes → Exit
exit_of none = clean
exit_of (some e) = failed (codes "Error: " ++ e)

-- `main`, once the flags are parsed: whether the version is asked for, and the arguments. `program`
-- runs the model, and has an error or none.
unfoldable pub main : (Model → Option Bytes) → Bool → List Bytes → Exit
main program true args = version_printed
main program false [] = usage_printed
main program false (addr ∷ args) = exit_of (program (new addr))
