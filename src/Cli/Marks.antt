-- ===== src/Cli/Marks.antt =====
-- cmd/dlvpp/breakpoint_marks.go and breakpoint_resolver.go: the breakpoints that the view marks,
-- and the location that a command names. `state` is never nil in a session.
pub mod Remembered
use dlvpp.Base.{
  ◌≡◌, Bytes, Bool, true, false, not, List, [], ◌∷◌, ◌++◌, Option, none, some, codes, eqb, ◌||◌,
  ◌&&◌, if◌then◌else◌, is_empty, trim_space, contains, atoi, itoa,
}
use dlvpp.Base.Int.{ℤ, eq_int, is_positive}
use dlvpp.Base.Fault.{Error, text, Result, ok, err, wrap_error}
use dlvpp.Backend.{Breakpoint, Frame}
use dlvpp.Session.{Snapshot}
use dlvpp.Sourceview.Enclosing.{GoFile, enclosing_function_name}

pub record BreakpointRecord : Type 0 where
  pub id : ℤ
  pub file : Bytes
  pub line : ℤ
  pub function : Bytes

abbrev or_empty : Result Bytes → Bytes
or_empty (ok s) = s
or_empty (err e) = []

-- The record's place is another's.
unfoldable pub same_place : BreakpointRecord → BreakpointRecord → Bool
same_place a b = eqb a.file b.file && eq_int a.line b.line

-- The loop of `rememberBreakpoint`.
unfoldable pub put_record : BreakpointRecord → List BreakpointRecord → List BreakpointRecord
unfolding same_place
put_record r [] = r ∷ []
put_record r (existing ∷ records) =
    let rest = put_record r records in
    if same_place existing r then r ∷ records else existing ∷ rest

unfoldable pub put_optional :
    Option BreakpointRecord → List BreakpointRecord → List BreakpointRecord
unfolding put_record
put_optional none records = records
put_optional (some r) records = put_record r records

module _ (parse_file : Bytes → Result GoFile) where
  unfoldable record_of : Breakpoint → Option BreakpointRecord
  unfolding eqb
  record_of bp =
      if is_empty bp.location.file || not (is_positive bp.location.line)
      then none
      else some (record {
        id = bp.id;
        file = bp.location.file;
        line = bp.location.line;
        function =
            if is_empty bp.location.function
            then or_empty (enclosing_function_name parse_file bp.location.file bp.location.line)
            else bp.location.function;
      })

  -- `breakpointRecordFromBackend`.
  unfoldable pub breakpoint_record_from_backend : Option Breakpoint → Option BreakpointRecord
  unfolding record_of
  breakpoint_record_from_backend none = none
  breakpoint_record_from_backend (some bp) = record_of bp

  -- `rememberBreakpoint`, on the view's breakpoints.
  unfoldable pub remember_breakpoint :
      Option Breakpoint → List BreakpointRecord → List BreakpointRecord
  unfolding breakpoint_record_from_backend put_optional
  remember_breakpoint bp records = put_optional (breakpoint_record_from_backend bp) records

  -- `breakpointRecordsFromBackend`.
  unfoldable pub breakpoint_records_from_backend : List Breakpoint → List BreakpointRecord
  unfolding breakpoint_record_from_backend
  breakpoint_records_from_backend [] = []
  breakpoint_records_from_backend (bp ∷ bps) =
      let rest = breakpoint_records_from_backend bps in
      elim (breakpoint_record_from_backend (some bp)) [ none ↦ rest | some r ↦ r ∷ rest ]

  unfoldable pub package_of : Bytes → Result GoFile → Result Bytes
  package_of path (err e) = err (wrap_error (codes "infer package for breakpoint: ") e)
  package_of path (ok file) = ok file.package_name

  -- `currentBreakpointPackage`, with the current file.
  unfoldable pub current_breakpoint_package : Bytes → Result Bytes
  unfolding package_of
  current_breakpoint_package path =
      if is_empty path then ok [] else package_of path (parse_file path)

abbrev positive_only : Option ℤ → Option ℤ
positive_only none = none
positive_only (some line) = if is_positive line then some line else none

-- `parseBreakpointLine`.
unfoldable pub parse_breakpoint_line : Bytes → Option ℤ
parse_breakpoint_line raw = positive_only (atoi raw)

abbrev file_of_frame : Option Frame → Bytes
file_of_frame none = []
file_of_frame (some f) = f.location.file

-- `currentBreakpointFile`.
unfoldable pub current_breakpoint_file : Option Snapshot → Bytes
current_breakpoint_file none = []
current_breakpoint_file (some s) = file_of_frame s.frame

abbrev pub qualified : Bytes → Result Bytes → Result Bytes
qualified raw (err e) = err e
qualified raw (ok pkg) = ok (if is_empty pkg then raw else pkg ++ (codes "." ++ raw))

module _ (parse_file : Bytes → Result GoFile) (is_identifier : Bytes → Bool) where
  -- `isBareBreakpointSymbol`; `is_identifier` is token.IsIdentifier.
  unfoldable pub is_bare_breakpoint_symbol : Bytes → Bool
  is_bare_breakpoint_symbol raw =
      not (contains raw (codes ":")) && (not (contains raw (codes ".")) && is_identifier raw)

  unfoldable pub located : Bytes → Bytes → Option ℤ → Result Bytes
  unfolding is_bare_breakpoint_symbol current_breakpoint_package
  located raw file (some line) =
      if is_empty file
      then err (text (codes "line breakpoints require a current file"))
      else ok (file ++ (codes ":" ++ itoa line))
  located raw file none =
      if is_bare_breakpoint_symbol raw
      then qualified raw (current_breakpoint_package parse_file file)
      else ok raw

  -- `resolveBreakpointLocation`.
  unfoldable pub resolve_breakpoint_location : Bytes → Option Snapshot → Result Bytes
  unfolding located parse_breakpoint_line current_breakpoint_file
  resolve_breakpoint_location raw snapshot =
      if is_empty (trim_space raw)
      then err (text (codes "break requires a location"))
      else located (trim_space raw) (current_breakpoint_file snapshot)
          (parse_breakpoint_line (trim_space raw))
