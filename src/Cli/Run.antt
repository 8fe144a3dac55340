-- ===== src/Cli/Run.antt =====
-- cmd/dlvpp/main.go, session_run.go and logger.go: a run of the program from its arguments to its exit
-- code. The signals' context is left out: a cancellation is an error of the backend or of the input.
pub mod Report
pub mod Closing
pub mod Main
use dlvpp.Base.{
  ℕ, Bytes, Bool, true, false, not, List, [], ◌∷◌, ◌++◌, Option, none, some, codes, ◌||◌, ◌&&◌,
  if◌then◌else◌, is_empty, length, itoa, utoa, contains, cut,
}
use dlvpp.Base.Int.{ℤ, pos}
use dlvpp.Base.Fault.{
  Error, exit_code, wrapped, joined, Result, ok, err, is_error, canceled, wrap_error,
}
use dlvpp.Base.Proc.{Proc, after}
use dlvpp.Backend.{Backend, LaunchRequest, BreakpointSpec}
use dlvpp.Sourceview.{concat}
use dlvpp.Session.{Controller, Snapshot, StartResult, start_attach_session}
use dlvpp.Cli.Index.Discover.{
  Files, discover_comment_breakpoints, discover_comment_breakpoints_in_module,
}
use dlvpp.Cli.Args.{Flags}
use dlvpp.Cli.Target.{Paths, new_launch_request, new_test_launch_request, top_level_test_name}
use dlvpp.Cli.Startup.{Started, start_launch_with_auto_breakpoints}
use dlvpp.Cli.Run.Report.{log_auto_breakpoints_summary}
use dlvpp.Cli.Marks.{BreakpointRecord}
use dlvpp.Cli.View.{ViewState, new_view_state, display_path}
use dlvpp.Cli.View.Snapshots.{format_snapshot_for_view}
use dlvpp.Cli.Shell.{Env, Shell, Runner, controller_runner}
use dlvpp.Cli.Shell.Loops.{LineInput, run_line_command_loop}
use dlvpp.Cli.Shell.Terminal.{KeyInput}
use dlvpp.Cli.Shell.Keyboard.{run_tty_command_loop}

-- os.Stdin: a terminal, with what `term.MakeRaw` answers, or something that is read by lines.
pub data Input : Type 0 where
  keys : Option Error → List KeyInput → Input
  lines : List LineInput → Input

-- What a run asks of other packages and of the system: the part of the discovery, the height of the terminal that os.Stdout is, the durations of the launch
-- and of the discovery, package flag, the usage text, and the run of `dlv version`.
pub record System (B : Type 0) : Type 0 where
  pub env : Env
  pub backend : Backend B
  pub paths : Paths
  pub quote_meta : Bytes → Bytes
  pub parse_flags : Bytes → List Bytes → Result Flags
  pub files : Files
  pub terminal : Option ℕ
  pub input : Input
  pub launch_time : Bytes
  pub scan_time : Bytes
  pub usage : Bytes
  pub dlv_version : Result (Unit {0})

-- The session's controller, and what was written to os.Stdout.
pub record Process (B : Type 0) : Type 0 where
  pub controller : Controller B
  pub out : Bytes

-- What `errors.Join` of two results gives.
abbrev pub join_results : Result (Unit {0}) → Result (Unit {0}) → Result (Unit {0})
join_results (ok u) r = r
join_results (err e) (ok u) = err e
join_results (err e) (err e') = err (joined e e')

-- The error of a start that was cancelled, or that failed.
abbrev pub starting : {A S : Type 0} → Bytes → Result A × S → Result A × S
starting prefix (ok a, s) = (ok a, s)
starting prefix (err e, s) =
    (err (if is_error e canceled then exit_code 130 else wrap_error prefix e), s)

abbrev pub interrupted : {A S : Type 0} → Result A × S → Result A × S
interrupted (ok a, s) = (ok a, s)
interrupted (err e, s) = (err (if is_error e canceled then exit_code 130 else e), s)

-- `defaultBreakpoint` and `sourceContextLines`.
abbrev main_breakpoint : BreakpointSpec
main_breakpoint = record { location = codes "main.main"; condition = [] }

abbrev breakpoint_at : Bytes → BreakpointSpec
breakpoint_at location = record { location = location; condition = [] }

module _ {B : Type 0} where
  abbrev pub on_controller : {A : Type 0} → Proc (Controller B) A → Proc (Process B) A
  on_controller m p = let r = m p.controller in (r.0, record p { controller = r.1 })

  -- The handler of `newCommandLogger`: a line where the command is verbose.
  unfoldable pub log_line : Bool → Bytes → Process B → Process B
  log_line verbose message p =
      if verbose then record p { out = p.out ++ (message ++ codes "\n") } else p

  unfoldable pub log_lines : Bool → List Bytes → Process B → Process B
  unfolding log_line
  log_lines verbose [] p = p
  log_lines verbose (message ∷ messages) p = log_lines verbose messages (log_line verbose message p)

module _ {B : Type 0} (sys : System B) where
  -- `printSnapshot`.
  unfoldable pub print_snapshot : Snapshot → Bool → List BreakpointRecord → Process B → Process B
  unfolding new_view_state format_snapshot_for_view
  print_snapshot snapshot sticky breakpoints p =
      let view = new_view_state sticky sys.terminal (some snapshot) breakpoints in
      record p { out = p.out ++ format_snapshot_for_view sys.env.host (some snapshot) view false }

  abbrev from_shell : Result (Unit {0}) × Shell (Controller B) → Result (Unit {0}) × Process B
  from_shell (r, s) = (r, record { controller = s.runner; out = s.out })

  -- `runCommandLoopWithBreakpoints`.
  unfoldable pub run_command_loop_with_breakpoints :
      Input → Shell (Controller B) → Result (Unit {0}) × Shell (Controller B)
  unfolding run_tty_command_loop run_line_command_loop controller_runner
  run_command_loop_with_breakpoints (keys raw inputs) s =
      run_tty_command_loop sys.env
        (controller_runner sys.backend sys.env.host.sources sys.env.quote) raw inputs s
  run_command_loop_with_breakpoints (lines inputs) s =
      run_line_command_loop sys.env
        (controller_runner sys.backend sys.env.host.sources sys.env.quote) inputs s

  -- `runInteractiveSession`.
  unfoldable pub run_interactive_session :
      Snapshot → Bool → List BreakpointRecord → Proc (Process B) Unit
  unfolding run_command_loop_with_breakpoints new_view_state
  run_interactive_session snapshot sticky breakpoints p = interrupted (
      from_shell (
        run_command_loop_with_breakpoints sys.input (record {
          runner = p.controller;
          view = new_view_state sticky sys.terminal (some snapshot) breakpoints;
          out = p.out;
        })))

  -- What `runLaunch` and `runTest` do with a start that succeeded.
  unfoldable pub enter_session : Bool → Bool → Bytes → Started → Proc (Process B) Unit
  unfolding print_snapshot run_interactive_session log_lines log_auto_breakpoints_summary
  enter_session sticky verbose scope s p = run_interactive_session s.snapshot sticky s.records (
      print_snapshot s.snapshot sticky s.records (
        log_lines verbose
          (log_auto_breakpoints_summary sys.env.host sys.launch_time sys.scan_time scope s) p))

  abbrev ignored : Bytes → Result (Unit {0}) → Result (Unit {0})
  ignored closed (ok u) = ok tt
  ignored closed (err e) =
      if contains (sys.env.host.error_text e) closed
      then ok tt
      else err (wrap_error (codes "close backend: ") e)

  -- `closeSession`.
  unfoldable pub close_session : Proc (Process B) Unit
  close_session p =
      let r =
        on_controller
          (λ c. let b = sys.backend.close c.backend in (b.0, record c { backend = b.1 })) p in
      (ignored (codes "use of closed network connection") r.0, r.1)

  -- `withController`. The controller that it creates, session.New(dapbackend.New()), is the one in
  -- the process that is given.
  unfoldable pub with_controller : Proc (Process B) Unit → Proc (Process B) Unit
  unfolding close_session
  with_controller fn p =
      let r = fn p in let closed = close_session r.1 in (join_results r.0 closed.0, closed.1)

  unfoldable pub start_and_enter :
      Bool
      → Bool
      → Bytes
      → Bytes
      → BreakpointSpec
      → LaunchRequest
      → Result (List BreakpointSpec)
      → Proc (Process B) Unit
  unfolding start_launch_with_auto_breakpoints enter_session
  start_and_enter sticky verbose scope prefix spec request discovered p =
      after
        (starting prefix (
          on_controller
            (start_launch_with_auto_breakpoints sys.backend sys.env.host.sources sys.env.parse_file
              request discovered (spec ∷ []))
            p))
        (enter_session sticky verbose scope)

  abbrev requested : Bytes → Result LaunchRequest → Proc (Process B) LaunchRequest
  requested prefix (ok request) p = (ok request, p)
  requested prefix (err e) p = (err (wrap_error prefix e), p)

  -- `runLaunch`.
  unfoldable pub run_launch : Bytes → List Bytes → Bool → Bool → Proc (Process B) Unit
  unfolding with_controller start_and_enter new_launch_request
      discover_comment_breakpoints_in_module
  run_launch target program_args sticky verbose = with_controller (λ p.
      after
        (requested (codes "resolve launch target: ")
          (new_launch_request sys.paths target program_args) p)
        (λ request.
          start_and_enter sticky verbose (codes "module") (codes "launch failed: ") main_breakpoint
            request (discover_comment_breakpoints_in_module sys.files target false)))

  -- `runTest`.
  unfoldable pub run_test : Bytes → Bytes → List Bytes → Bool → Bool → Proc (Process B) Unit
  unfolding with_controller start_and_enter discover_comment_breakpoints new_test_launch_request
      top_level_test_name
  run_test target selector program_args sticky verbose = with_controller (λ p.
      after
        (requested (codes "resolve test target: ")
          (new_test_launch_request sys.paths sys.quote_meta target selector program_args) p)
        (λ request.
          start_and_enter sticky verbose (codes "target package") (codes "test launch failed: ")
            (breakpoint_at (top_level_test_name selector)) request
            (discover_comment_breakpoints sys.files target true)))

  unfoldable attached : ℤ → Bool → Bool → StartResult → Proc (Process B) Unit
  unfolding log_line print_snapshot run_interactive_session
  attached pid sticky verbose s p = run_interactive_session s.snapshot sticky [] (
      print_snapshot s.snapshot sticky []
        (log_line verbose (codes "attach OK for pid " ++ itoa pid) p))

  -- `runAttach`.
  unfoldable pub run_attach : ℤ → Bool → Bool → Proc (Process B) Unit
  unfolding with_controller attached start_attach_session
  run_attach pid sticky verbose = with_controller (λ p.
      after
        (starting (codes "attach failed: ") (
          on_controller
            (start_attach_session sys.backend sys.env.host.sources (record { pid = pid })) p))
        (attached pid sticky verbose))
