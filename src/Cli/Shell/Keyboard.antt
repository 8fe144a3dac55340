-- ===== src/Cli/Shell/Keyboard.antt =====
-- cmd/dlvpp/loop.go: the loop over the keys of a terminal. An escape key takes the bytes of its sequence
-- from the input, so the loop runs on fuel, which the length of the input gives.
pub mod Fuel
pub mod Typing
pub mod Invariant
use dlvpp.Base.{
  ℕ, zero, suc, ◌-◌, Bytes, Bool, true, false, not, List, [], ◌∷◌, ◌++◌, Option, none, some, codes,
  ◌==◌, ◌||◌, ◌&&◌, if◌then◌else◌, is_empty, length, take, trim_space,
}
use dlvpp.Base.Int.{ℤ, negsuc}
use dlvpp.Base.Fault.{
  Error, sentinel, Result, ok, err, is_error, eof, canceled, deadline_exceeded, wrap_error,
}
use dlvpp.Base.Proc.{Proc}
use dlvpp.Cli.View.{ViewState, session_exited, has_inspection}
use dlvpp.Cli.History.{Editing, append_tty_command_history, previous_tty_history, next_tty_history}
use dlvpp.Cli.Printing.{is_printable_byte, with_carriage_returns}
use dlvpp.Cli.Shell.{Runner, Env, Shell, write}
use dlvpp.Cli.Shell.Commands.{process_command, show_snapshot}
use dlvpp.Cli.Shell.Loops.{unless_done}
use dlvpp.Cli.Shell.Terminal.{
  KeyInput, byte, quiet, fault, Keys, Terminal, typing, initial_keys, read_tty_escape_key,
  with_keys, echo, edit, type_key, arrow_up, arrow_down, erase, is_over,
}

abbrev is_shortcut : ℕ → Bool
is_shortcut b =
    (b == b'h')
    || ((b == b'b')
        || ((b == b'c') || ((b == b'n') || ((b == b's') || ((b == b'l') || (b == b'o'))))))

module _ {R : Type 0} where
  abbrev in_terminal : Keys → Result Bool × Shell R → Result Bool × Terminal R
  in_terminal k (r, s) = (r, record { keys = k; shell = s })

  abbrev emptied : Result Bool × Terminal R → Result Bool × Terminal R
  emptied (ok false, t) =
      (ok false, with_keys (λ k. record k { editing = record k.editing { buffer = [] } }) t)
  emptied (ok true, t) = (ok true, t)
  emptied (err e, t) = (err e, t)

module _ {R : Type 0} (env : Env) where
  -- The key Escape on its own.
  unfoldable pub lone_escape : Terminal R → Terminal R
  unfolding edit echo has_inspection show_snapshot
  lone_escape t =
      if t.keys.command_mode
      then echo (codes "\n") (edit false [] t)
      else if has_inspection t.shell.view
      then record t { shell = show_snapshot env t.shell }
      else t

  -- The switch over the key of a sequence: `A` and `B` are the arrows.
  unfoldable pub escape_key : Result ℕ → Proc (Terminal R) Bool
  unfolding arrow_up arrow_down lone_escape
  escape_key (err e) t = (err e, t)
  escape_key (ok key) t =
      if key == b'A'
      then (ok false, arrow_up t)
      else if key == b'B'
      then (ok false, arrow_down t)
      else if key == 0
      then (ok false, lone_escape t)
      else (ok false, t)

module _ {R : Type 0} (env : Env) (runner : Runner R) where
  -- `runTTYCommand`.
  unfoldable pub run_tty_command : Option Error → Bytes → Proc (Terminal R) Bool
  unfolding process_command append_tty_command_history
  run_tty_command ctx line t =
      let remembered = record t.keys {
        command_history = append_tty_command_history t.keys.command_history line;
      } in
      in_terminal remembered (process_command env runner ctx line t.shell)

  -- Enter.
  unfoldable pub enter : Option Error → Proc (Terminal R) Bool
  unfolding run_tty_command edit echo with_keys
  enter ctx t =
      if not t.keys.command_mode
      then (ok false, t)
      else emptied (
          run_tty_command ctx (trim_space t.keys.editing.buffer)
            (edit false t.keys.editing.buffer (echo (codes "\n") t)))

  -- The switch over a byte that is not Escape: 3 and 4 are Ctrl-C and Ctrl-D, 8 and 127 erase.
  unfoldable pub press : ℕ → Option Error → Proc (Terminal R) Bool
  unfolding run_tty_command enter erase type_key edit echo
  press b ctx t =
      if b == 3
      then (err (sentinel canceled), t)
      else if (b == 4) && (not t.keys.command_mode || is_empty t.keys.editing.buffer)
      then (ok true, t)
      else if (b == b'q') && not t.keys.command_mode
      then (ok true, t)
      else if is_shortcut b && not t.keys.command_mode
      then run_tty_command ctx (b ∷ []) t
      else if (b == b':') && not t.keys.command_mode
      then (ok false, echo (codes ":") (edit true (codes ":") t))
      else if (b == 13) || (b == 10)
      then enter ctx t
      else if (b == 127) || (b == 8)
      then (ok false, erase t)
      else (ok false, type_key b t)

  -- A key after the exit.
  unfoldable pub press_exited : ℕ → Option Error → Proc (Terminal R) Bool
  unfolding run_tty_command has_inspection
  press_exited b ctx t =
      if (b == b'o') && not (has_inspection t.shell.view)
      then run_tty_command ctx (codes "o") t
      else (ok true, t)

  -- A round of the loop, with what the round leaves of the input.
  unfoldable pub handle_byte :
      ℕ → Option Error → List KeyInput → Terminal R → (Result Bool × Terminal R) × List KeyInput
  unfolding press press_exited escape_key read_tty_escape_key is_over
  handle_byte b ctx inputs t =
      let (key, rest) = read_tty_escape_key inputs in
      if is_over t
      then (press_exited b ctx t, inputs)
      else if b == 27
      then (escape_key env key t, rest)
      else (press b ctx t, inputs)

  unfoldable pub key_loop : ℕ → List KeyInput → Terminal R → Result (Unit {0}) × Terminal R
  unfolding handle_byte
  key_loop zero inputs t = (ok tt, t)
  key_loop (suc n) [] t = (err (sentinel eof), t)
  key_loop (suc n) (quiet ∷ inputs) t = key_loop n inputs t
  key_loop (suc n) (fault e ∷ inputs) t = (err e, t)
  key_loop (suc n) (byte b ctx ∷ inputs) t =
      let r = handle_byte b ctx inputs t in unless_done r.0 (key_loop n r.1)

  -- The output of the loop goes through `newlineWriter`, as does the newline at its end.
  abbrev ended : Bytes → Result (Unit {0}) × Terminal R → Result (Unit {0}) × Shell R
  ended before (r, t) =
      (r, record t.shell { out = before ++ with_carriage_returns (t.shell.out ++ codes "\n") })

  -- `runTTYCommandLoop`, with the result of `term.MakeRaw`.
  unfoldable pub run_tty_command_loop :
      Option Error → List KeyInput → Shell R → Result (Unit {0}) × Shell R
  unfolding key_loop
  run_tty_command_loop (some e) inputs s = (err (wrap_error (codes "enable raw mode: ") e), s)
  run_tty_command_loop none inputs s = ended s.out (
      key_loop (suc (length inputs)) inputs
        (record { keys = initial_keys; shell = record s { out = [] } }))
