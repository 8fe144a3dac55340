-- ===== src/Tests/Screens.antt =====
-- Runs of the command loop at fixed inputs.
use dlvpp.Base.{
  ℕ, suc, ◌≡◌, refl, Bytes, Bool, true, false, List, [], ◌∷◌, ◌++◌, Option, none, some, codes,
  contains, ◌==◌, if◌then◌else◌,
}
use dlvpp.Base.Int.{ℤ, pos, eq_int}
use dlvpp.Base.Fault.{Result, ok, err}
use dlvpp.Backend.{Variable, stdout, stderr, zero_stop_state, zero_frame_ref}
use dlvpp.Session.{Snapshot}
use dlvpp.Cli.View.{new_view_state}
use dlvpp.Cli.Shell.{Runner, Shell}
use dlvpp.Cli.Shell.Loops.{read_lines, run_line_command_loop}
use dlvpp.Tests.Shell.{surroundings}

abbrev city : Variable
city = record {
  name = codes "City";
  type = codes "string";
  value = codes "\"Barcelona\"";
  has_children = false;
  reference = pos 0;
}

abbrev address : Variable
address = record {
  name = codes "Address";
  type = codes "main.address";
  value = codes "main.address {City: 1}";
  has_children = true;
  reference = pos 4;
}

abbrev account : Variable
account = record {
  name = codes "acct";
  type = codes "main.customer";
  value = codes "main.customer {Address: 1}";
  has_children = true;
  reference = pos 3;
}

abbrev children_of : ℤ → List Variable
children_of reference = if eq_int reference (pos 3) then address ∷ [] else city ∷ []

abbrev in_main : Snapshot
in_main = record {
  state = zero_stop_state;
  frame = some (record {
    ref = zero_frame_ref;
    location = record { file = codes "main.go"; line = pos 12; function = codes "main.main" };
  });
  stack_error = none;
  source = [];
  source_error = none;
}

-- A runner that counts its actions, with one local.
abbrev customer : Runner ℕ
customer = record {
  act = λ a n. (ok (some in_main), suc n);
  create_breakpoint = λ spec n. (ok none, n);
  breakpoints = λ n. (ok [], n);
  locals = λ frame n. (ok (account ∷ []), n);
  children = λ reference n. (ok (children_of reference), n);
  eval = λ frame expr n.
      (ok (record { type = []; value = []; has_children = false; reference = pos 0 }), n);
  output = λ n. (
    ok (
        record { category = stdout; text = codes "hello\n" }
        ∷ record { category = stderr; text = codes "boom\n" }
        ∷ []),
    n,
  );
}

abbrev in_session : Shell ℕ
in_session = record { runner = 0; view = new_view_state false none (some in_main) []; out = [] }

-- What a run over lines has printed, and how many actions it has run.
abbrev printed : Bytes → Bytes
printed input = (run_line_command_loop surroundings customer (read_lines input) in_session).1.out

abbrev actions : Bytes → ℕ
actions input = (run_line_command_loop surroundings customer (read_lines input) in_session).1.runner

expands_by_name :
    contains
      (printed (codes ":e acct\n:e Address\nq\n"))
      (codes "    City (string) = \"Barcelona\"")
    ≡ true
unfolding contains run_line_command_loop read_lines dlvpp.Base.trim_space new_view_state
    dlvpp.Cli.Locals.filter_displayed_locals dlvpp.Base.split dlvpp.Base.join
    dlvpp.Cli.Locals.join_local_path dlvpp.Base.Fault.is_error
    dlvpp.Cli.View.Inspections.format_inspection_for_view dlvpp.Cli.View.append_prompt
    dlvpp.Sourceview.concat dlvpp.Cli.View.fallback_text dlvpp.Cli.View.display_path dlvpp.Base.itoa
    dlvpp.Base.trim_right_byte dlvpp.Cli.Locals.Trees.format_locals_for_view
    dlvpp.Cli.Shell.Screens.inspection_colors_enabled
expands_by_name = refl

expands_by_path :
    contains (printed (codes ":e acct.Address\nq\n")) (codes "    City (string) = \"Barcelona\"")
    ≡ true
unfolding contains run_line_command_loop read_lines dlvpp.Base.trim_space new_view_state
    dlvpp.Cli.Locals.filter_displayed_locals dlvpp.Base.split dlvpp.Base.join
    dlvpp.Cli.Locals.join_local_path dlvpp.Base.Fault.is_error
    dlvpp.Cli.View.Inspections.format_inspection_for_view dlvpp.Cli.View.append_prompt
    dlvpp.Sourceview.concat dlvpp.Cli.View.fallback_text dlvpp.Cli.View.display_path dlvpp.Base.itoa
    dlvpp.Base.trim_right_byte dlvpp.Cli.Locals.Trees.format_locals_for_view
    dlvpp.Cli.Shell.Screens.inspection_colors_enabled
expands_by_path = refl

shows_output :
    contains
      (printed (codes "o\nq\n"))
      (codes "output main.main main.go:12\nstdout | hello\nstderr | boom\n")
    ≡ true
unfolding contains run_line_command_loop read_lines dlvpp.Base.trim_space new_view_state
    dlvpp.Base.Fault.is_error dlvpp.Cli.View.Inspections.format_inspection_for_view
    dlvpp.Cli.View.append_prompt dlvpp.Sourceview.concat dlvpp.Cli.View.fallback_text
    dlvpp.Cli.View.display_path dlvpp.Base.itoa dlvpp.Base.trim_right_byte
    dlvpp.Cli.Printing.format_output_for_view dlvpp.Cli.Shell.Screens.inspection_colors_enabled
    dlvpp.Base.split
shows_output = refl

rejects_long_forms : contains (printed (codes "next\nq\n")) (codes "failed\n") ≡ true
unfolding contains run_line_command_loop read_lines dlvpp.Base.trim_space new_view_state
    dlvpp.Base.Fault.is_error
rejects_long_forms = refl

-- The line behind the last newline is not run.
counts_actions : actions (codes "n\n s \nc") ≡ 2
unfolding run_line_command_loop read_lines dlvpp.Base.trim_space new_view_state
counts_actions = refl

stops_at_quit : actions (codes "n\nq\nn\n") ≡ 1
unfolding run_line_command_loop read_lines dlvpp.Base.trim_space new_view_state
    dlvpp.Base.Fault.is_error
stops_at_quit = refl
