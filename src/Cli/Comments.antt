-- ===== src/Cli/Comments.antt =====
-- cmd/dlvpp/source_index.go and comment_breakpoints.go: the breakpoints that comments ask for.
pub mod Targets
pub mod Dedupe
use dlvpp.Base.{
  ℕ, zero, suc, ◌+◌, ◌≤◌, ◌<◌, ◌≡◌, ◌≢◌, refl, sym, ap, ◌∙◌, Bytes, Bool, true, false, List, [],
  ◌∷◌, ◌++◌, Option, none, some, codes, eqb, eqb_iff, ltb, ◌||◌, ◌⊎◌, inl, inr, if◌then◌else◌,
  length, drop, get_elem?, trim_space, trim_prefix, has_prefix, contains, is_empty, split, utoa,
  Bool-cases, arith, All,
}
use dlvpp.Base.Fault.{Error, Result, ok, err, wrapped, ◌>>=◌}
use dlvpp.Backend.{BreakpointSpec}

abbrev strip_slashes : Bytes → Bytes
strip_slashes s = if has_prefix s (codes "//") then trim_space (trim_prefix s (codes "//")) else s

abbrev is_marker : Bytes → Bool
is_marker s = eqb s (codes "breakpoint") || eqb s (codes "dlvpp:breakpoint")

-- `isBreakpointComment`.
unfoldable pub is_breakpoint_comment : Bytes → Bool
unfolding eqb
is_breakpoint_comment comment = is_marker (strip_slashes (trim_space comment))

-- The lines that the search for the target passes over.
unfoldable pub is_skipped : Bytes → Bool
is_skipped line =
    is_empty (trim_space line)
    || (has_prefix (trim_space line) (codes "//")
        || (has_prefix (trim_space line) (codes "/*") || has_prefix (trim_space line) (codes "*")))

-- The loop of `resolveBreakpointTargetLine`, at the line of number `n + 1`.
unfoldable pub first_code_line : ℕ → List Bytes → ℕ
unfolding is_skipped
first_code_line n [] = 0
first_code_line n (line ∷ lines) = if is_skipped line then first_code_line (suc n) lines else suc n

-- `resolveBreakpointTargetLine`; the scanner's line numbers start at 1.
unfoldable pub resolve_breakpoint_target_line : List Bytes → ℕ → ℕ
unfolding first_code_line
resolve_breakpoint_target_line lines end_line = first_code_line end_line (drop end_line lines)

unfoldable pub is_seen : List Bytes → Bytes → Bool
is_seen [] location = false
is_seen (l ∷ seen) location = eqb l location || is_seen seen location

-- A location that the loop of `dedupeBreakpointSpecs` passes over, after those of `seen`.
abbrev pub is_passed : List Bytes → Bytes → Bool
is_passed seen location = is_empty location || is_seen seen location

unfoldable pub dedupe_from : List Bytes → List BreakpointSpec → List BreakpointSpec
unfolding is_seen
dedupe_from seen [] = []
dedupe_from seen (s ∷ specs) =
    let kept = dedupe_from (s.location ∷ seen) specs in
    let passed = dedupe_from seen specs in if is_passed seen s.location then passed else s ∷ kept

-- `dedupeBreakpointSpecs`.
unfoldable pub dedupe_breakpoint_specs : List BreakpointSpec → List BreakpointSpec
unfolding dedupe_from
dedupe_breakpoint_specs specs = dedupe_from [] specs

-- A comment that go/scanner finds, with the line that its end is on.
pub record Comment : Type 0 where
  pub literal : Bytes
  pub end_line : ℕ

unfoldable pub specs_of : Bytes → List Bytes → List Comment → List BreakpointSpec
unfolding is_breakpoint_comment resolve_breakpoint_target_line
specs_of path lines [] = []
specs_of path lines (c ∷ comments) =
    let rest = specs_of path lines comments in
    let target = resolve_breakpoint_target_line lines c.end_line in
    if is_breakpoint_comment c.literal
    then if ltb 0 target
      then record { location = path ++ (codes ":" ++ utoa target); condition = [] } ∷ rest
      else rest
    else rest

-- `scanCommentBreakpointsInFile`, over `os.ReadFile` and the scanner.
unfoldable pub scan_data :
    (Bytes → List Comment) → Bytes → Result Bytes → Result (List BreakpointSpec)
unfolding specs_of
scan_data scan path (err e) = err (wrapped (codes "read source file " ++ (path ++ codes ": ")) e [])
scan_data scan path (ok data_read) =
    if contains data_read (codes "breakpoint")
    then ok (specs_of path (split data_read 10) (scan data_read))
    else ok []

module _ (read_file : Bytes → Result Bytes) (scan : Bytes → List Comment) where
  unfoldable pub scan_comment_breakpoints_in_file : Bytes → Result (List BreakpointSpec)
  unfolding scan_data
  scan_comment_breakpoints_in_file path = scan_data scan path (read_file path)

  unfoldable pub scan_files : List Bytes → Result (List BreakpointSpec)
  unfolding scan_comment_breakpoints_in_file
  scan_files [] = ok []
  scan_files (path ∷ files) = do
    specs ← scan_comment_breakpoints_in_file path
    rest ← scan_files files
    ok (specs ++ rest)

  -- `discoverCommentBreakpointsInFiles`.
  unfoldable pub discover_comment_breakpoints_in_files : List Bytes → Result (List BreakpointSpec)
  unfolding scan_files dedupe_breakpoint_specs
  discover_comment_breakpoints_in_files files = do
    specs ← scan_files files
    ok (dedupe_breakpoint_specs specs)
