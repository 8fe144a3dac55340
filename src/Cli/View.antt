-- ===== src/Cli/View.antt =====
-- cmd/dlvpp/view.go: the state of the view, the prompt, the paths and the inspection that is shown.
-- The state is never nil: a session makes it by `newViewState`.
pub mod Snapshots
pub mod Inspections
use dlvpp.Base.{
  ℕ, suc, ◌+◌, ◌-◌, Bytes, Bool, true, false, not, List, [], ◌∷◌, ◌++◌, Option, none, some, codes,
  eqb, ◌||◌, ◌&&◌, if◌then◌else◌, is_empty, has_prefix, has_suffix, trim_suffix,
}
use dlvpp.Base.Int.{ℤ, is_positive}
use dlvpp.Base.Fault.{Error, Result, ok, err}
use dlvpp.Session.{Snapshot}
use dlvpp.Sourceview.{Sources}
use dlvpp.Cli.Marks.{BreakpointRecord}

-- What the view asks of other packages: os.ReadFile with the scanner's colours, os.Getwd,
-- filepath.Rel, filepath.Clean, the replacement of `ansiEscapePattern` by nothing, and `Error()`.
pub record Host : Type 0 where
  pub sources : Sources
  pub working_dir : Result Bytes
  pub rel : Bytes → Bytes → Result Bytes
  pub clean : Bytes → Bytes
  pub strip_ansi : Bytes → Bytes
  pub error_text : Error → Bytes

-- `expandedLocals` is the list of its paths, and nil is the empty one.
pub record ViewState : Type 0 where
  pub sticky : Bool
  pub output_tty : Bool
  pub output_height : ℕ
  pub current_snapshot : Option Snapshot
  pub breakpoints : List BreakpointRecord
  pub inspection_title : Bytes
  pub inspection_body : Bytes
  pub expanded_locals : List Bytes

-- The height of the output, if it is a terminal, with 0 where `term.GetSize` fails.
abbrev height_of : Option ℕ → ℕ
height_of none = 0
height_of (some height) = height

abbrev pub is_some : {A : Type 0} → Option A → Bool
is_some none = false
is_some (some a) = true

-- `newViewState`.
unfoldable pub new_view_state :
    Bool → Option ℕ → Option Snapshot → List BreakpointRecord → ViewState
new_view_state sticky terminal snapshot breakpoints = record {
  sticky = sticky;
  output_tty = is_some terminal;
  output_height = height_of terminal;
  current_snapshot = snapshot;
  breakpoints = breakpoints;
  inspection_title = [];
  inspection_body = [];
  expanded_locals = [];
}

abbrev pub is_exited : Option Snapshot → Bool
is_exited none = false
is_exited (some s) = s.state.exited

-- `sessionExited`.
unfoldable pub session_exited : ViewState → Bool
session_exited v = is_exited v.current_snapshot

abbrev pub end_line : Bytes → Bytes
end_line s = if has_suffix s (codes "\n") then s else s ++ codes "\n"

-- `appendPrompt`.
unfoldable pub append_prompt : Bytes → ViewState → Bytes
unfolding session_exited has_suffix
append_prompt shown v =
    if not v.output_tty || session_exited v
    then shown
    else end_line (trim_suffix shown (codes ">")) ++ codes ">"

-- `appendExitHint`.
unfoldable pub append_exit_hint : Bytes → Option Snapshot → Bytes
append_exit_hint shown snapshot =
    if is_exited snapshot
    then end_line shown
      ++ codes "program exited; press o to inspect captured output, any other key to quit\n"
    else shown

-- `clearScreenANSI`.
abbrev pub clear_screen : Bytes
clear_screen = 27 ∷ (codes "[2J" ++ 27 ∷ codes "[H")

-- `maybeClear`.
unfoldable pub maybe_clear : ViewState → Bool → Bytes
maybe_clear v clear = if clear && v.output_tty then clear_screen else []

-- `fallbackText`.
unfoldable pub fallback_text : Bytes → Bytes → Bytes
fallback_text value fallback = if is_empty value then fallback else value

-- `setInspection`.
unfoldable pub set_inspection : Bytes → Bytes → ViewState → ViewState
unfolding eqb
set_inspection title body v = record v {
  expanded_locals = if eqb title (codes "locals") then v.expanded_locals else [];
  inspection_title = title;
  inspection_body = body;
}

-- `clearInspection`.
unfoldable pub clear_inspection : ViewState → ViewState
clear_inspection v = record v { inspection_title = []; inspection_body = []; expanded_locals = [] }

-- `hasInspection`.
unfoldable pub has_inspection : ViewState → Bool
has_inspection v = not (is_empty v.inspection_body)

-- The loop of `breakpointLinesForPath`.
unfoldable pub lines_at : Bytes → List BreakpointRecord → List ℤ
lines_at path [] = []
lines_at path (bp ∷ bps) =
    let rest = lines_at path bps in
    if eqb bp.file path && is_positive bp.line then bp.line ∷ rest else rest

-- `breakpointLinesForPath`.
unfoldable pub breakpoint_lines_for_path : ViewState → Bytes → List ℤ
unfolding lines_at eqb
breakpoint_lines_for_path v path = if is_empty path then [] else lines_at path v.breakpoints

module _ (h : Host) where
  -- `stripANSIForNonTTY`.
  unfoldable pub strip_ansi_for_non_tty : Bytes → ViewState → Bytes
  strip_ansi_for_non_tty shown v = if v.output_tty then shown else h.strip_ansi shown

  unfoldable relative : Bytes → Result Bytes → Bytes
  relative path (err e) = h.clean path
  relative path (ok r) =
      if has_prefix r (codes "../") || eqb r (codes "..") then h.clean path else h.clean r

  unfoldable from_dir : Bytes → Result Bytes → Bytes
  unfolding relative
  from_dir path (err e) = h.clean path
  from_dir path (ok dir) = relative path (h.rel dir path)

  -- `displayPath`.
  unfoldable pub display_path : Bytes → Bytes
  unfolding from_dir
  display_path path = if is_empty path then codes "<unknown>" else from_dir path h.working_dir
