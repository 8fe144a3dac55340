-- ===== src/Tests/Controller.antt =====
-- Examples of the controller, over the adapter's client.
use dlvpp.Base.{ℕ, Option, none, some, ◌≡◌, length, refl, Bytes, List, [], ◌∷◌, codes}
use dlvpp.Base.Int.{pos}
use dlvpp.Base.Fault.{Result, ok, err, text}
use dlvpp.Backend.{debug, LaunchRequest, BreakpointSpec, Backend}
use dlvpp.Dap.Client.{Client}
use dlvpp.Dap.Client.Session.Ends.{IsIdle}
use dlvpp.Dap.Interface.{dap_backend, start_launch_session_fails-IsIdle}
use dlvpp.Sourceview.{Sources}
use dlvpp.Sourceview.Enclosing.{GoFile}
use dlvpp.Session.{Controller, new, continue, do_action, start_launch_session}
use dlvpp.Session.Records.{IsRecorded, do_action-IsRecorded}
use dlvpp.Session.Bootstrap.{FailsWith}
use dlvpp.Cli.Startup.{Started, start_launch_with_auto_breakpoints}
use dlvpp.Cli.Startup.Skipping.{IsStarted, start_launch_with_auto_breakpoints-IsStarted}
use dlvpp.Tests.{sample_codec, idle, connected, world_with}

abbrev no_sources : Sources
no_sources = record { read_file = λ path. err (text (codes "no file")); highlight = λ s. s }

abbrev program : LaunchRequest
program = record {
  mode = debug;
  target = codes "./hello";
  args = [];
  build_flags = [];
  work_dir = [];
}

abbrev at_main : BreakpointSpec
at_main = record { location = codes "main.main"; condition = [] }

-- The adapter answers the handshake and stops at the entry.
abbrev adapter : List (Result Bytes) → Backend Client
adapter more =
    dap_backend sample_codec
      (world_with (ok (codes "1") ∷ ok (codes "2") ∷ ok (codes "3") ∷ ok (codes "sentry") ∷ more))
      ok

start_launch_session_fails-IsIdle_example :
    FailsWith IsIdle
      (start_launch_session (adapter []) no_sources program at_main (new idle (pos 5)))
unfolding new
start_launch_session_fails-IsIdle_example =
    start_launch_session_fails-IsIdle sample_codec
      (world_with (ok (codes "1") ∷ ok (codes "2") ∷ ok (codes "3") ∷ ok (codes "sentry") ∷ [])) ok
      no_sources program at_main (new idle (pos 5)) (refl, refl)

abbrev stepping : Controller Client
stepping = new (connected (ok (codes "1") ∷ ok (codes "sbreakpoint") ∷ ok (codes "2") ∷ [])) (pos 5)

do_action-IsRecorded_example :
    IsRecorded stepping (do_action (adapter []) no_sources (λ s. s) continue stepping)
do_action-IsRecorded_example =
    do_action-IsRecorded (adapter []) no_sources (λ s. s) continue stepping

-- After the handshake: the stack, a breakpoint, the continue with the stop that follows it, and the
-- stack again.
abbrev answers : List (Result Bytes)
answers =
    ok (codes "4")
    ∷ ok (codes "5/a.go")
    ∷ ok (codes "6")
    ∷ ok (codes "sbreakpoint")
    ∷ ok (codes "7")
    ∷ []

-- A spec without a location is refused.
abbrev nowhere : BreakpointSpec
nowhere = record { location = []; condition = [] }

abbrev at_file : BreakpointSpec
at_file = record { location = codes "/a.go:3"; condition = [] }

abbrev empty_file : Bytes → Result GoFile
empty_file path = ok (record { package_name = codes "main"; functions = [] })

abbrev launched : Result Started × Controller Client
launched =
    start_launch_with_auto_breakpoints (adapter answers) no_sources empty_file program
      (ok (nowhere ∷ at_file ∷ [])) [] (new idle (pos 5))

abbrev counts : Result Started → Option (ℕ × ℕ)
counts (ok s) = some (length s.loaded, length s.skipped)
counts (err e) = none

-- The launch succeeds, with one spec loaded and one skipped.
loaded_and_skipped : counts launched.0 ≡ some (1, 1)
unfolding start_launch_with_auto_breakpoints dlvpp.Session.launch dlvpp.Dap.Client.Session.launch
    new dlvpp.Dap.Client.Requests.request_locked dlvpp.Base.eqb dlvpp.Base.Int.◌+ℤ◌
    dlvpp.Dap.Client.Requests.wait_for_stop dlvpp.Dap.Client.Events.handle_event
    dlvpp.Dap.Client.Inspect.state dlvpp.Cli.Comments.dedupe_breakpoint_specs
    dlvpp.Dap.Client.Inspect.continue dlvpp.Dap.Client.Inspect.run_thread_action
    dlvpp.Dap.Client.Inspect.begin_thread_action dlvpp.Dap.Breakpoints.Changes.create_breakpoint
    dlvpp.Dap.Client.Inspect.stack dlvpp.Dap.Breakpoints.normalize_breakpoint_spec
    dlvpp.Dap.Location.parse_file_line_location dlvpp.Base.has_prefix
    dlvpp.Dap.Breakpoints.decode_breakpoints dlvpp.Dap.Breakpoints.group_of
    dlvpp.Dap.Breakpoints.tracked_breakpoint_from_spec dlvpp.Dap.Breakpoints.map_tracked_breakpoints
    dlvpp.Dap.Location.map_breakpoint dlvpp.Cli.Marks.breakpoint_record_from_backend
    dlvpp.Base.trim_space dlvpp.Base.atoi dlvpp.Dap.Breakpoints.Changes.add_file_breakpoint
    dlvpp.Dap.Breakpoints.Changes.set_breakpoints dlvpp.Dap.Location.format_location dlvpp.Base.itoa
loaded_and_skipped = refl

start_launch_with_auto_breakpoints-IsStarted_example :
    IsStarted
      (adapter answers)
      no_sources
      empty_file
      program
      (ok (nowhere ∷ at_file ∷ []))
      (new idle (pos 5))
      launched
start_launch_with_auto_breakpoints-IsStarted_example =
    start_launch_with_auto_breakpoints-IsStarted (adapter answers) no_sources empty_file program
      (ok (nowhere ∷ at_file ∷ [])) [] (new idle (pos 5))
