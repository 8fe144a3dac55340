-- ===== src/Tests/Shell.antt =====
-- Examples of the interactive session.
use dlvpp.Base.{
  length, ℕ, suc, ◌<◌, split, ◌≡◌, refl, Bytes, true, false, List, [], ◌∷◌, ◌++◌, none, some, codes,
  trim_space, arith,
}
use dlvpp.Base.Int.{pos}
use dlvpp.Base.Fault.{ok, err, text, is_error}
use dlvpp.Backend.{zero_stop_state, Value}
use dlvpp.Session.{Snapshot}
use dlvpp.Cli.History.{append_tty_command_history}
use dlvpp.Cli.View.{ViewState, Host, new_view_state, session_exited}
use dlvpp.Cli.Locals.Lines.{Numbers}
use dlvpp.Cli.Shell.{Runner, Env, Shell, write}
use dlvpp.Cli.Shell.Commands.{parse_command, process_command}
use dlvpp.Cli.Shell.Loops.{unless_done, line, run_line_command_loop}
use dlvpp.Cli.Shell.Loops.Ending.{no_line, goes_on, run_line_command_loop_quits}
use dlvpp.Cli.Shell.Terminal.{KeyInput, byte, quiet, Terminal, initial_keys}
use dlvpp.Cli.Shell.Keyboard.{key_loop}
use dlvpp.Cli.Shell.Keyboard.Typing.{typed, await_keys, await_keys-typed}
use dlvpp.Cli.Shell.Keyboard.Invariant.{IsSound, key_loop-IsSound}
use dlvpp.Backend.{Variable}
use dlvpp.Cli.Locals.Trees.{Expanded, write_expanded_local_lines}
use dlvpp.Cli.Locals.Depth.{write_expanded_local_lines_enough}
use dlvpp.Cli.Shell.Children.{remember_expanded_local_path}
use dlvpp.Cli.Shell.Children.Remembered.{
  IsWanted, prefix_path, remember_expanded_local_path-IsWanted,
}

abbrev pub host : Host
host = record {
  sources = record { read_file = λ path. err (text (codes "no file")); highlight = λ s. s };
  working_dir = ok (codes "/w");
  rel = λ dir path. ok path;
  clean = λ path. path;
  strip_ansi = λ s. s;
  error_text = λ e. codes "failed";
}

abbrev pub no_numbers : Numbers
no_numbers = record { is_int = λ s. false; is_uint = λ s. false; is_float = λ s. false }

abbrev pub surroundings : Env
surroundings = record {
  host = host;
  numbers = no_numbers;
  parse_file = λ path. err (text []);
  is_identifier = λ s. true;
  quote = λ s. s;
}

abbrev pub stopped : Snapshot
stopped = record {
  state = zero_stop_state;
  frame = none;
  stack_error = none;
  source = codes "code";
  source_error = none;
}

abbrev no_value : Value
no_value = record { type = []; value = []; has_children = false; reference = pos 0 }

-- A runner that counts its actions.
abbrev counter : Runner ℕ
counter = record {
  act = λ a n. (ok (some stopped), suc n);
  create_breakpoint = λ spec n. (ok none, n);
  breakpoints = λ n. (ok [], n);
  locals = λ frame n. (ok [], n);
  children = λ reference n. (ok [], n);
  eval = λ frame expr n. (ok no_value, n);
  output = λ n. (ok [], n);
}

abbrev opened : Shell ℕ
opened = record { runner = 0; view = new_view_state false none (some stopped) []; out = [] }

abbrev after_next : Shell ℕ
after_next = (process_command surroundings counter none (codes ":n") opened).1

abbrev after_unknown : Shell ℕ
after_unknown = (process_command surroundings counter none (codes ":zz") after_next).1

next_goes_on :
    process_command surroundings counter none (trim_space (codes ":n\n")) opened
    ≡ (ok false, after_next)
unfolding process_command trim_space new_view_state
next_goes_on = refl

unknown_goes_on :
    process_command surroundings counter none (trim_space (codes ":zz\n")) after_next
    ≡ (ok false, after_unknown)
unfolding process_command trim_space new_view_state is_error
unknown_goes_on = refl

run_line_command_loop_quits_example :
    run_line_command_loop surroundings counter
      (line (codes ":n\n") none
        ∷ line (codes ":zz\n") none
        ∷ line (codes ":q\n") none
        ∷ line (codes ":n\n") none
        ∷ [])
      opened
    ≡ (ok tt, after_unknown)
unfolding parse_command trim_space session_exited process_command new_view_state is_error
run_line_command_loop_quits_example =
    run_line_command_loop_quits surroundings counter
      (line (codes ":n\n") none ∷ line (codes ":zz\n") none ∷ []) (line (codes ":n\n") none ∷ [])
      (codes ":q\n") (record { colon = true; command = codes "q"; arg_text = [] }) opened
      after_unknown (goes_on next_goes_on (goes_on unknown_goes_on no_line)) refl refl

await_keys-typed_example :
    await_keys surroundings counter
      (byte 58 none ∷ (typed (codes "n") ++ byte 13 none ∷ []))
      []
      opened
    ≡ unless_done
        (process_command surroundings counter none
          (trim_space (58 ∷ codes "n"))
          (write (58 ∷ (codes "n" ++ codes "\n")) opened))
        (await_keys surroundings counter []
          (append_tty_command_history [] (trim_space (58 ∷ codes "n"))))
unfolding session_exited new_view_state
await_keys-typed_example =
    await_keys-typed surroundings counter (codes "n") none [] [] opened refl (refl, tt)

abbrev at_keys : Terminal ℕ
at_keys = record { keys = initial_keys; shell = opened }

-- A next step, the arrow up, and a quiet time.
abbrev some_keys : List KeyInput
some_keys = byte b'n' none ∷ byte 27 none ∷ byte 91 none ∷ byte b'A' none ∷ quiet ∷ []

key_loop-IsSound_example : IsSound (key_loop surroundings counter 6 some_keys at_keys).1.keys
key_loop-IsSound_example = key_loop-IsSound surroundings counter 6 some_keys at_keys (record {
  bounded = omega arith;
  shown = record { in_range = tt; shows = λ i e. cc };
  rests = λ e. refl;
})

-- A pointer p whose field q is shown, with the path r expanded before.
abbrev view_at : List Bytes → ViewState
view_at paths = record opened.view { expanded_locals = paths }

remember_expanded_local_path-IsWanted_example :
    IsWanted
      (remember_expanded_local_path (codes "p.q") (view_at (codes "r" ∷ []))).expanded_locals
      (codes "p.q")
    × ((i : ℕ)
        → i < length (split (codes "p.q") 46)
        → IsWanted
            (remember_expanded_local_path (codes "p.q") (view_at (codes "r" ∷ []))).expanded_locals
            (prefix_path (suc i) (split (codes "p.q") 46)))
    × ((q : Bytes)
        → IsWanted (view_at (codes "r" ∷ [])).expanded_locals q
        → IsWanted
            (remember_expanded_local_path (codes "p.q") (view_at (codes "r" ∷ []))).expanded_locals
            q)
remember_expanded_local_path-IsWanted_example =
    remember_expanded_local_path-IsWanted (codes "p.q") (view_at (codes "r" ∷ [])) (λ e. cc)

abbrev pointer : Variable
pointer = record {
  name = codes "p";
  type = [];
  value = codes "1";
  has_children = true;
  reference = pos 1;
}

abbrev expansion : Expanded
expansion = (codes "p", pointer ∷ []) ∷ []

-- The pointer holds a local of its own name, which is not expanded.
write_expanded_local_lines_enough_example :
    write_expanded_local_lines no_numbers 3 expansion false [] pointer (codes "p")
    ≡ write_expanded_local_lines no_numbers 9 expansion false [] pointer (codes "p")
unfolding dlvpp.Cli.Locals.Trees.longest
write_expanded_local_lines_enough_example =
    write_expanded_local_lines_enough no_numbers expansion false 2 8 [] pointer (codes "p")
      (record { named = λ e. cc; first = omega arith; second = omega arith })
