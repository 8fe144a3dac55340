-- ===== src/Cli/Shell/Commands.antt =====
-- cmd/dlvpp/loop.go: the commands of a session. Every caller trims the text, so it has a first word.
use dlvpp.Base.{
  Bytes, Bool, true, false, not, List, [], ◌∷◌, ◌++◌, Option, none, some, codes, eqb, ltb, ◌&&◌,
  if◌then◌else◌, is_empty, length, drop, trim_space, trim_prefix, has_prefix, fields,
}
use dlvpp.Base.Fault.{
  Error, sentinel, text, Result, ok, err, is_error, canceled, unsupported, quit_loop, wrap_error,
}
use dlvpp.Base.Proc.{Proc, after}
use dlvpp.Backend.{Breakpoint, OutputEntry}
use dlvpp.Session.{Action, continue, next, step_in, Snapshot}
use dlvpp.Cli.Marks.{
  resolve_breakpoint_location, breakpoint_records_from_backend, remember_breakpoint,
}
use dlvpp.Cli.View.{is_some, is_exited, session_exited, clear_inspection}
use dlvpp.Cli.View.Snapshots.{format_snapshot_for_view}
use dlvpp.Cli.Printing.{format_plain_exit_output, format_breakpoint}
use dlvpp.Cli.Shell.{Runner, Env, Shell, call, prefixed, write, with_view}
use dlvpp.Cli.Shell.Screens.{
  show_help, show_breakpoints, show_locals, expand_local, show_eval, show_output,
}

-- A command's text: whether it starts with a colon, the first word, and the rest.
pub record Parsed : Type 0 where
  pub colon : Bool
  pub command : Bytes
  pub arg_text : Bytes

-- `parts[0]`.
abbrev first_word : List Bytes → Bytes
first_word [] = []
first_word (w ∷ ws) = w

abbrev after_word : Bytes → Bytes → Bytes
after_word line command =
    if ltb (length command) (length line) then trim_space (drop (length command) line) else []

unfoldable parse_words : Bool → Bytes → Option Parsed
unfolding fields
parse_words colon line =
    let command = first_word (fields line) in
    if is_empty line
    then none
    else some (record { colon = colon; command = command; arg_text = after_word line command })

-- The start of `executeCommandText`; `none` where there is no command.
unfoldable pub parse_command : Bytes → Option Parsed
unfolding parse_words has_prefix trim_prefix
parse_command line =
    let colon = has_prefix line (codes ":") in
    parse_words colon (if colon then trim_space (trim_prefix line (codes ":")) else line)

module _ {R : Type 0} (env : Env) where
  -- `clearInspection` with the print of `formatSnapshotForView`.
  unfoldable pub show_snapshot : Shell R → Shell R
  unfolding write with_view clear_inspection
  show_snapshot s =
      let shown = with_view clear_inspection s in
      write (format_snapshot_for_view env.host shown.view.current_snapshot shown.view true) shown

  -- The end of the break command.
  unfoldable show_created : Option Breakpoint → Shell R → Shell R
  unfolding show_snapshot write
  show_created bp s =
      if s.view.sticky && is_some s.view.current_snapshot
      then show_snapshot s
      else write (format_breakpoint env.host bp s.view ++ codes "\n") s

module _ {R : Type 0} (env : Env) (runner : Runner R) where
  -- `refreshBreakpointState`.
  unfoldable pub refresh_breakpoint_state : Proc (Shell R) Unit
  unfolding call with_view
  refresh_breakpoint_state s = after (call runner.breakpoints s) (λ bps s'. (
    ok tt,
    with_view (λ v. record v { breakpoints = breakpoint_records_from_backend env.parse_file bps })
        s',
  ))

  -- What follows a refresh: a backend that cannot list its breakpoints has the new one remembered.
  unfoldable or_remember :
      Option Breakpoint → Result (Unit {0}) × Shell R → Result (Unit {0}) × Shell R
  unfolding with_view
  or_remember bp (ok u, s) = (ok tt, s)
  or_remember bp (err e, s) =
      if is_error e unsupported
      then (
        ok tt,
        with_view
            (λ v. record v { breakpoints = remember_breakpoint env.parse_file bp v.breakpoints }) s,
      )
      else (err (wrap_error (codes "break: ") e), s)

  unfoldable after_created : Option Breakpoint → Proc (Shell R) Unit
  unfolding or_remember refresh_breakpoint_state show_created
  after_created bp s =
      after (or_remember bp (refresh_breakpoint_state s)) (λ _ s'. (ok tt, show_created env bp s'))

  unfoldable create_at : Bytes → Proc (Shell R) Unit
  unfolding call after_created
  create_at location s =
      after
        (prefixed (codes "break: ")
          (call (runner.create_breakpoint (record { location = location; condition = [] })) s))
        after_created

  -- The command `:b`.
  unfoldable pub break_at : Bytes → Proc (Shell R) Unit
  unfolding create_at resolve_breakpoint_location
  break_at arg s =
      if is_empty arg
      then (err (text (codes "break requires a location")), s)
      else after
          (prefixed (codes "break: ") (
            resolve_breakpoint_location env.parse_file env.is_identifier arg
                s.view.current_snapshot,
            s,
          ))
          create_at

  -- The block of output that an exit prints.
  abbrev exit_block : Result (List OutputEntry) × Shell R → Shell R
  exit_block (ok entries, s) = write (format_plain_exit_output entries) s
  exit_block (err e, s) = s

  unfoldable show_action : Option Snapshot → Shell R → Shell R
  unfolding write with_view call clear_inspection
  show_action snapshot s =
      let moved = with_view (λ v. record (clear_inspection v) { current_snapshot = snapshot }) s in
      let shown = write (format_snapshot_for_view env.host snapshot moved.view true) moved in
      if is_exited snapshot && not shown.view.sticky
      then exit_block (call runner.output shown)
      else shown

  -- `runDebuggerAction`.
  unfoldable pub run_debugger_action : Action → Bytes → Proc (Shell R) Unit
  unfolding call show_action
  run_debugger_action action label s =
      after (prefixed (label ++ codes ": ") (call (runner.act action) s))
        (λ snapshot s'. (ok tt, show_action snapshot s'))

  abbrev unknown_command : Bytes → Error
  unknown_command command = text (codes "unknown command: " ++ command)

  -- The switch of `executeCommandText`.
  unfoldable pub run_command : Parsed → Proc (Shell R) Unit
  unfolding show_help show_breakpoints break_at run_debugger_action expand_local show_eval
      show_locals show_output eqb
  run_command p s =
      if eqb p.command (codes "q")
      then (err (sentinel quit_loop), s)
      else if eqb p.command (codes "h")
      then show_help env s
      else if eqb p.command (codes "b")
      then if p.colon then break_at p.arg_text s else show_breakpoints env s
      else if eqb p.command (codes "c")
      then run_debugger_action continue (codes "continue") s
      else if eqb p.command (codes "n")
      then run_debugger_action next (codes "next") s
      else if eqb p.command (codes "s")
      then run_debugger_action step_in (codes "step in") s
      else if eqb p.command (codes "e")
      then if not p.colon
        then (err (unknown_command p.command), s)
        else if is_empty p.arg_text
        then (err (text (codes "expand requires a local name")), s)
        else expand_local env runner p.arg_text s
      else if eqb p.command (codes "l")
      then if p.colon && not (is_empty p.arg_text)
        then show_eval env runner p.arg_text s
        else show_locals env runner s
      else if eqb p.command (codes "o")
      then show_output env runner s
      else (err (unknown_command p.command), s)

  -- The rest of `executeCommandText`, where there is a command.
  unfoldable pub run_parsed : Option Parsed → Proc (Shell R) Unit
  unfolding run_command show_output session_exited eqb
  run_parsed none s = (ok tt, s)
  run_parsed (some p) s =
      if session_exited s.view
      then if eqb p.command (codes "o")
        then show_output env runner s
        else (err (sentinel quit_loop), s)
      else run_command p s

  -- `executeCommandText`, with `ctx.Err()`.
  unfoldable pub execute_command_text : Option Error → Bytes → Proc (Shell R) Unit
  unfolding run_parsed parse_command
  execute_command_text (some e) line s = (err e, s)
  execute_command_text none line s = run_parsed (parse_command line) s

  -- What `processCommand` makes of the result.
  unfoldable pub handled : Result (Unit {0}) × Shell R → Result Bool × Shell R
  unfolding write
  handled (ok u, s) = (ok false, s)
  handled (err e, s) =
      if is_error e quit_loop
      then (ok true, s)
      else if is_error e canceled
      then (err e, s)
      else (ok false, write (env.host.error_text e ++ codes "\n") s)

  -- `processCommand`: whether the session is done.
  unfoldable pub process_command : Option Error → Bytes → Proc (Shell R) Bool
  unfolding handled execute_command_text
  process_command cancelled line s = handled (execute_command_text cancelled line s)
