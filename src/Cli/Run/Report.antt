-- ===== src/Cli/Run/Report.antt =====
-- cmd/dlvpp/session_run.go: the report of the automatic breakpoints, as the lines of the log.
use dlvpp.Base.{
  Bytes, Bool, not, List, [], ◌∷◌, ◌++◌, codes, ◌&&◌, if◌then◌else◌, is_empty, length, itoa, utoa,
  cut,
}
use dlvpp.Base.Fault.{Error}
use dlvpp.Backend.{BreakpointSpec}
use dlvpp.Sourceview.{concat}
use dlvpp.Cli.Startup.{Started}
use dlvpp.Cli.Marks.{BreakpointRecord}
use dlvpp.Cli.View.{Host, display_path}

module _ (h : Host) (launch_time scan_time : Bytes) where
  abbrev at_line : Bytes × Bytes × Bool → Bytes → Bytes
  at_line (path, line, found) location =
      if found && not (is_empty line)
      then concat (display_path h path ∷ codes ":" ∷ line ∷ [])
      else location

  -- `displayPathFromLocation`.
  unfoldable pub display_path_from_location : Bytes → Bytes
  display_path_from_location location = at_line (cut location 58) location

  abbrev loaded_line : BreakpointRecord → Bytes
  loaded_line r =
      let place = concat (codes "- " ∷ display_path h r.file ∷ codes ":" ∷ itoa r.line ∷ []) in
      if is_empty r.function
      then place
      else concat (place ∷ codes " (" ∷ r.function ∷ codes ")" ∷ [])

  abbrev skipped_line : BreakpointSpec × Error → Bytes
  skipped_line (spec, e) = concat (
      codes "- "
      ∷ display_path_from_location spec.location
      ∷ codes " ("
      ∷ h.error_text e
      ∷ codes ")"
      ∷ [])

  abbrev each : {A : Type 0} → (A → Bytes) → List A → List Bytes
  each f [] = []
  each f (x ∷ xs) = f x ∷ each f xs

  -- `logAutoBreakpointsSummary`.
  unfoldable pub log_auto_breakpoints_summary : Bytes → Started → List Bytes
  unfolding display_path_from_location
  log_auto_breakpoints_summary scope s =
      let summary =
        if is_empty s.loaded
        then codes "none loaded"
        else utoa (length s.loaded) ++ codes " loaded" in
      let skipped =
        if is_empty s.skipped
        then []
        else (codes "auto breakpoints skipped: " ++ utoa (length s.skipped))
          ∷ each skipped_line s.skipped in
      concat (codes "startup: dap=" ∷ launch_time ∷ codes " source-scan=" ∷ scan_time ∷ [])
      ∷ concat (codes "auto breakpoints (" ∷ scope ∷ codes "): " ∷ summary ∷ [])
      ∷ (each loaded_line s.loaded ++ skipped)
