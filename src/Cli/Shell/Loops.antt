-- ===== src/Cli/Shell/Loops.antt =====
-- cmd/dlvpp/loop.go: the loop over lines, and what the two loops share. The goroutines of the readers
-- only deliver the input in its order: what they deliver is given as a list.
pub mod Ending
use dlvpp.Base.{
  ℕ, Bytes, Bool, true, false, List, [], ◌∷◌, Option, none, ◌==◌, if◌then◌else◌, trim_space,
}
use dlvpp.Base.Fault.{Error, Result, ok, err, is_error, eof}
use dlvpp.Cli.Shell.{Runner, Env, Shell}
use dlvpp.Cli.Shell.Commands.{process_command}

-- What the line reader's `Next` delivers: a line, with `ctx.Err()` when it is handled, or an error.
-- At the end of the list it is io.EOF.
pub data LineInput : Type 0 where
  line : Bytes → Option Error → LineInput
  fault : Error → LineInput

abbrev onto_line : ℕ → List LineInput → List LineInput
onto_line c [] = []
onto_line c (line s ctx ∷ inputs) = line (c ∷ s) ctx ∷ inputs
onto_line c (fault e ∷ inputs) = fault e ∷ inputs

-- `ReadString('\n')` until it fails: the text behind the last newline comes with io.EOF, and `Next`
-- returns it together with that error.
unfoldable pub read_lines : Bytes → List LineInput
read_lines [] = []
read_lines (c ∷ s) =
    let rest = read_lines s in if c == 10 then line (10 ∷ []) none ∷ rest else onto_line c rest

-- `if done || err != nil { return err }`, and what goes on otherwise.
abbrev pub unless_done :
    {S : Type 0} → Result Bool × S → (S → Result (Unit {0}) × S) → Result (Unit {0}) × S
unless_done (ok true, s) k = (ok tt, s)
unless_done (ok false, s) k = k s
unless_done (err e, s) k = (err e, s)

module _ {R : Type 0} (env : Env) (runner : Runner R) where
  -- `runLineCommandLoop`.
  unfoldable pub run_line_command_loop : List LineInput → Shell R → Result (Unit {0}) × Shell R
  unfolding process_command
  run_line_command_loop [] s = (ok tt, s)
  run_line_command_loop (fault e ∷ inputs) s = if is_error e eof then (ok tt, s) else (err e, s)
  run_line_command_loop (line shown ctx ∷ inputs) s =
      unless_done (process_command env runner ctx (trim_space shown) s)
        (run_line_command_loop inputs)
