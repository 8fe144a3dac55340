-- ===== src/Cli/Printing.antt =====
-- cmd/dlvpp/loop.go and screens.go: what the commands print, but for the locals.
use dlvpp.Base.{
  ℕ, Bytes, Bool, not, List, [], ◌∷◌, ◌++◌, Option, none, some, codes, eqb, leb, ◌==◌, ◌||◌, ◌&&◌,
  if◌then◌else◌, is_empty, trim_right_byte, split, itoa,
}
use dlvpp.Base.Int.{ℤ, is_positive}
use dlvpp.Backend.{
  OutputCategory, stdout, stderr, console, OutputEntry, Variable, Value, Breakpoint,
}
use dlvpp.Sourceview.{concat}
use dlvpp.Cli.Marks.{BreakpointRecord}
use dlvpp.Cli.View.{Host, ViewState, display_path}
use dlvpp.Cli.Locals.{filter_displayed_locals}
use dlvpp.Cli.Locals.Lines.{
  Numbers, reset, dim, cyan, red, write_local_line, local_lines,
  format_hidden_locals_summary_with_indent,
}

-- The line of an entry, plain and in colour.
abbrev plain_line : OutputCategory → Bytes → Bytes
plain_line stderr line = concat (codes "stderr | " ∷ line ∷ codes "\n" ∷ [])
plain_line stdout line = concat (codes "stdout | " ∷ line ∷ codes "\n" ∷ [])
plain_line console line = line ++ codes "\n"

abbrev tty_line : OutputCategory → Bytes → Bytes
tty_line stderr line = concat (red ∷ codes "stderr" ∷ reset ∷ codes " | " ∷ line ∷ codes "\n" ∷ [])
tty_line stdout line = concat (cyan ∷ codes "stdout" ∷ reset ∷ codes " | " ∷ line ∷ codes "\n" ∷ [])
tty_line console line = line ++ codes "\n"

abbrev pub each_line : (Bytes → Bytes) → List Bytes → Bytes
each_line f [] = []
each_line f (line ∷ lines) = f line ++ each_line f lines

unfoldable entry_lines : (OutputCategory → Bytes → Bytes) → OutputEntry → Bytes
entry_lines line_of entry =
    let text = trim_right_byte 10 entry.text in
    if is_empty text then [] else each_line (line_of entry.category) (split text 10)

-- The loop over the entries.
unfoldable output_lines : (OutputCategory → Bytes → Bytes) → List OutputEntry → Bytes
unfolding entry_lines
output_lines line_of [] = []
output_lines line_of (entry ∷ entries) = entry_lines line_of entry ++ output_lines line_of entries

-- `formatOutput`.
unfoldable pub format_output : List OutputEntry → Bytes
unfolding output_lines
format_output entries =
    let out = output_lines plain_line entries in if is_empty out then codes "(no output)\n" else out

-- `formatTTYOutput`.
unfoldable pub format_tty_output : List OutputEntry → Bytes
unfolding output_lines
format_tty_output entries =
    let out = output_lines tty_line entries in
    if is_empty out then concat (dim ∷ codes "(no output)" ∷ reset ∷ codes "\n" ∷ []) else out

-- `formatOutputForView`.
unfoldable pub format_output_for_view : List OutputEntry → Bool → Bytes
unfolding format_output format_tty_output
format_output_for_view entries color =
    if color then format_tty_output entries else format_output entries

-- `formatPlainExitOutput`.
unfoldable pub format_plain_exit_output : List OutputEntry → Bytes
unfolding format_output eqb
format_plain_exit_output entries =
    let body = trim_right_byte 10 (format_output entries) in
    if is_empty body || eqb body (codes "(no output)")
    then []
    else concat (codes "OUTPUT-BEGIN\n" ∷ body ∷ codes "\nOUTPUT-END\n" ∷ [])

-- `formatHelpBody`.
abbrev pub format_help_body : Bytes
format_help_body = concat (
    codes "Navigation\n  c   continue\n  n   next\n  s   step in\n  q   quit\n\n"
    ∷ codes
        "Inspection\n  l   locals\n  o   output\n  b   breakpoints\n  h   help\n  :l summary\n  :e result\n\n"
    ∷ codes "Breakpoints\n  b   list breakpoints\n  :b 14\n  :b add\n  :b file.go:23\n"
    ∷ [])

-- `isPrintableByte`.
abbrev pub is_printable_byte : ℕ → Bool
is_printable_byte b = leb 32 b && leb b 126

-- What `newlineWriter` writes.
unfoldable pub with_carriage_returns : Bytes → Bytes
with_carriage_returns [] = []
with_carriage_returns (c ∷ s) =
    let rest = with_carriage_returns s in if c == 10 then 13 ∷ (10 ∷ rest) else c ∷ rest

module _ (h : Host) where
  unfoldable placed : Bytes → ℤ → Bytes
  placed file line =
      if is_positive line
      then concat (display_path h file ∷ codes ":" ∷ itoa line ∷ [])
      else display_path h file

  unfoldable breakpoint_row : Bool → BreakpointRecord → Bytes
  unfolding placed
  breakpoint_row tty bp =
      let marker = if tty then concat (red ∷ (226 ∷ 151 ∷ 143 ∷ []) ∷ reset ∷ []) else codes "o" in
      let function = if is_empty bp.function then codes "-" else bp.function in
      let location = placed bp.file bp.line in
      if is_positive bp.id
      then concat (
          marker
          ∷ codes " #"
          ∷ itoa bp.id
          ∷ codes "  "
          ∷ location
          ∷ codes "  "
          ∷ function
          ∷ codes "\n"
          ∷ [])
      else concat (marker ∷ codes " " ∷ location ∷ codes "  " ∷ function ∷ codes "\n" ∷ [])

  unfoldable breakpoint_rows : Bool → List BreakpointRecord → Bytes
  unfolding breakpoint_row
  breakpoint_rows tty [] = []
  breakpoint_rows tty (bp ∷ bps) = breakpoint_row tty bp ++ breakpoint_rows tty bps

  -- `formatBreakpointsForView`.
  unfoldable pub format_breakpoints_for_view : ViewState → Bytes
  unfolding breakpoint_rows
  format_breakpoints_for_view v =
      if is_empty v.breakpoints
      then codes "(no breakpoints)\n"
      else breakpoint_rows v.output_tty v.breakpoints

  unfoldable plain_breakpoint : Option Breakpoint → Bytes
  plain_breakpoint none = codes "bp"
  plain_breakpoint (some bp) =
      if not (is_empty bp.location.file) && is_positive bp.location.line
      then concat (
          codes "bp "
          ∷ itoa bp.id
          ∷ codes " "
          ∷ display_path h bp.location.file
          ∷ codes ":"
          ∷ itoa bp.location.line
          ∷ [])
      else if not (is_empty bp.location.function)
      then concat (codes "bp " ∷ itoa bp.id ∷ codes " " ∷ bp.location.function ∷ [])
      else codes "bp " ++ itoa bp.id

  unfoldable sticky_breakpoint : Option Breakpoint → Bytes
  sticky_breakpoint none = codes "breakpoint set"
  sticky_breakpoint (some bp) =
      if not (is_empty bp.location.file) && is_positive bp.location.line
      then concat (
          codes "breakpoint "
          ∷ itoa bp.id
          ∷ codes " at "
          ∷ bp.location.file
          ∷ codes ":"
          ∷ itoa bp.location.line
          ∷ [])
      else if not (is_empty bp.location.function)
      then concat (codes "breakpoint " ∷ itoa bp.id ∷ codes " at " ∷ bp.location.function ∷ [])
      else concat (codes "breakpoint " ∷ itoa bp.id ∷ codes " set" ∷ [])

  -- `formatBreakpoint`.
  unfoldable pub format_breakpoint : Option Breakpoint → ViewState → Bytes
  unfolding plain_breakpoint sticky_breakpoint
  format_breakpoint bp v = if v.sticky then sticky_breakpoint bp else plain_breakpoint bp

module _ (n : Numbers) where
  abbrev child_lines : List Variable → Bool → Bytes
  child_lines children color =
      let (visible, hidden) = filter_displayed_locals children in
      local_lines n visible color (codes "  ")
      ++ format_hidden_locals_summary_with_indent hidden color (codes "  ")

  -- `formatEvalForView`.
  unfoldable pub format_eval_for_view : Bytes → Value → List Variable → Bool → Bytes
  format_eval_for_view expr value children color =
      let local : Variable = record {
        name = expr;
        type = value.type;
        value = value.value;
        has_children = value.has_children;
        reference = value.reference;
      } in
      let first = write_local_line n local color [] in
      if is_empty children then first else first ++ child_lines children color
