-- ===== src/Cli/Run/Main.antt =====
-- cmd/dlvpp/main.go: the dispatch of the arguments and the exit code. What is written to os.Stderr, but
-- for the error of `main`, is the usage text.
use dlvpp.Base.{ℕ, Bytes, List, [], ◌∷◌, ◌++◌, Option, none, some, codes, eqb, ◌||◌, if◌then◌else◌}
use dlvpp.Base.Fault.{
  Error, sentinel, text, wrapped, joined, exit_code, exit_with, help, Result, ok, err, is_error,
}
use dlvpp.Base.Proc.{Proc}
use dlvpp.Cli.Args.{
  LaunchArgs, TestArgs, AttachArgs, parse_launch_args, parse_test_args, parse_attach_args,
}
use dlvpp.Cli.Run.{System, Process, run_launch, run_test, run_attach}

-- `errors.As(err, &exitErr)`: the code, and the error in it.
unfoldable pub find_exit : Error → Option (ℕ × Option Error)
find_exit (sentinel s) = none
find_exit (text m) = none
find_exit (wrapped p e s) = find_exit e
find_exit (joined a b) =
    let right = find_exit b in elim (find_exit a) [ none ↦ right | some x ↦ some x ]
find_exit (exit_code n) = some (n, none)
find_exit (exit_with n e) = some (n, some e)

-- The exit code and what is written to os.Stderr.
abbrev pub ExitStatus : Type 0
ExitStatus = ℕ × Bytes

module _ (error_text : Error → Bytes) where
  abbrev reported : Error → Option (ℕ × Option Error) → ExitStatus
  reported e none = (1, error_text e ++ codes "\n")
  reported e (some (n, none)) = (n, [])
  reported e (some (n, some e')) = (n, error_text e' ++ codes "\n")

  -- `main`, given the result of `run`.
  unfoldable pub exit_status : Result (Unit {0}) → ExitStatus
  unfolding find_exit
  exit_status (ok u) = (0, [])
  exit_status (err e) = reported e (find_exit e)

module _ {B : Type 0} (sys : System B) where
  abbrev show_usage : Proc (Process B) Unit
  show_usage p = (ok tt, record p { out = p.out ++ sys.usage })

  -- What a subcommand does with its arguments: help is no failure.
  unfoldable pub on_arguments :
      {A : Type 0} → (A → Proc (Process B) Unit) → Result A → Proc (Process B) Unit
  on_arguments act (ok args) p = act args p
  on_arguments act (err e) p = if is_error e help then show_usage p else (err (exit_with 2 e), p)

  unfoldable pub launch_with : LaunchArgs → Proc (Process B) Unit
  unfolding run_launch
  launch_with a = run_launch sys a.target a.program_args a.sticky a.verbose

  unfoldable pub test_with : TestArgs → Proc (Process B) Unit
  unfolding run_test
  test_with a = run_test sys a.target a.selector a.program_args a.sticky a.verbose

  unfoldable pub attach_with : AttachArgs → Proc (Process B) Unit
  unfolding run_attach
  attach_with a = run_attach sys a.pid a.sticky a.verbose

  -- `run`.
  unfoldable pub run : List Bytes → Proc (Process B) Unit
  unfolding on_arguments launch_with test_with attach_with parse_launch_args parse_test_args
      parse_attach_args eqb
  run [] p = (err (exit_code 2), p)
  run (command ∷ args) p =
      if eqb command (codes "version")
      then (sys.dlv_version, p)
      else if eqb command (codes "launch")
      then on_arguments launch_with (parse_launch_args sys.parse_flags args) p
      else if eqb command (codes "test")
      then on_arguments test_with (parse_test_args sys.parse_flags args) p
      else if eqb command (codes "attach")
      then on_arguments attach_with (parse_attach_args sys.parse_flags sys.env.quote args) p
      else if eqb command (codes "help")
          || (eqb command (codes "-h") || eqb command (codes "--help"))
      then show_usage p
      else (err (exit_with 2 (text (codes "unknown command: " ++ command))), p)
