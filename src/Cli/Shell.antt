-- ===== src/Cli/Shell.antt =====
-- cmd/dlvpp/loop.go: what the commands of a session act on. The contexts are left out: a cancellation
-- or a timeout is an error that the runner's methods return.
pub mod Children
pub mod Screens
pub mod Commands
pub mod Loops
pub mod Terminal
pub mod Keyboard
use dlvpp.Base.{Bytes, Bool, List, [], ◌∷◌, ◌++◌, Option, none, some}
use dlvpp.Base.Int.{ℤ}
use dlvpp.Base.Fault.{Result, ok, err, wrap_error}
use dlvpp.Base.Proc.{Proc}
use dlvpp.Backend.{Backend, FrameRef, Variable, Value, OutputEntry, Breakpoint, BreakpointSpec}
use dlvpp.Sourceview.{Sources}
use dlvpp.Sourceview.Enclosing.{GoFile}
use dlvpp.Session.{Action, Snapshot, Controller, on_backend, do_action}
use dlvpp.Cli.View.{Host, ViewState}
use dlvpp.Cli.Locals.Lines.{Numbers}

-- `commandRunner`, over the runner's state.
pub record Runner (R : Type 0) : Type 0 where
  pub act : Action → Proc R (Option Snapshot)
  pub create_breakpoint : BreakpointSpec → Proc R (Option Breakpoint)
  pub breakpoints : Proc R (List Breakpoint)
  pub locals : FrameRef → Proc R (List Variable)
  pub children : ℤ → Proc R (List Variable)
  pub eval : FrameRef → Bytes → Proc R Value
  pub output : Proc R (List OutputEntry)

-- What the commands ask of other packages: the view's part, the readers of numbers, `parser.ParseFile`,
-- `token.IsIdentifier` and the verb `%q`.
pub record Env : Type 0 where
  pub host : Host
  pub numbers : Numbers
  pub parse_file : Bytes → Result GoFile
  pub is_identifier : Bytes → Bool
  pub quote : Bytes → Bytes

-- The runner, the view and what was written to the output; a failed write is not looked at.
pub record Shell (R : Type 0) : Type 0 where
  pub runner : R
  pub view : ViewState
  pub out : Bytes

abbrev present : {S : Type 0} → Result Snapshot × S → Result (Option Snapshot) × S
present (ok s, c) = (ok (some s), c)
present (err e, c) = (err e, c)

-- The session's controller as a runner: its methods but `Do` are the backend's.
unfoldable pub controller_runner :
    {B : Type 0} → Backend B → Sources → (Bytes → Bytes) → Runner (Controller B)
controller_runner d src quote = record {
  act = λ action c. present (do_action d src quote action c);
  create_breakpoint = λ spec. on_backend (d.create_breakpoint spec);
  breakpoints = on_backend d.breakpoints;
  locals = λ frame. on_backend (d.locals frame);
  children = λ reference. on_backend (d.children reference);
  eval = λ frame expr. on_backend (d.eval frame expr);
  output = on_backend d.output;
}

-- `fmt.Errorf("prefix%w", err)` for an error.
abbrev pub prefixed : {A S : Type 0} → Bytes → Result A × S → Result A × S
prefixed prefix (ok a, s) = (ok a, s)
prefixed prefix (err e, s) = (err (wrap_error prefix e), s)

module _ {R : Type 0} where
  -- A call of the runner.
  unfoldable pub call : {A : Type 0} → Proc R A → Proc (Shell R) A
  call m s = let r = m s.runner in (r.0, record s { runner = r.1 })

  -- `fmt.Fprint(output, shown)`.
  unfoldable pub write : Bytes → Shell R → Shell R
  write shown s = record s { out = s.out ++ shown }

  unfoldable pub with_view : (ViewState → ViewState) → Shell R → Shell R
  with_view f s = record s { view = f s.view }
