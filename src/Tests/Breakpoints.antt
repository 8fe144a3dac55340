-- ===== src/Tests/Breakpoints.antt =====
-- Examples of the breakpoints.
use dlvpp.Base.{
  ◌≡◌, refl, Bytes, Bool, true, false, List, [], ◌∷◌, ◌++◌, Option, none, some, codes, length, All,
  eqb, ◌⊎◌, ◌↔◌,
}
use dlvpp.Base.Int.{ℤ, pos}
use dlvpp.Base.Fault.{Error, Result, ok, err}
use dlvpp.Backend.{BreakpointSpec, Breakpoint}
use dlvpp.Dap.Wire.{DapBreakpoint}
use dlvpp.Dap.Client.{Client, TrackedBreakpoint, require_conn}
use dlvpp.Dap.Breakpoints.{
  in_file, FileGroups, check_breakpoints, flatten_tracked_breakpoints, all_groups, breakpoints_of,
  group_of, tracked_specs,
}
use dlvpp.Dap.Breakpoints.Changes.{create_breakpoint, create_in, clear_breakpoint}
use dlvpp.Dap.Breakpoints.Created.{create_breakpoint_idem, create_in_file}
use dlvpp.Dap.Breakpoints.Cleared.{IsClearedInFile, IsClearedFunction, clear_breakpoint-IsCleared}
use dlvpp.Dap.Breakpoints.Tracking.{create_breakpoint_fails}
use dlvpp.Dap.Breakpoints.Contents.{AllTracked}
use dlvpp.Dap.Breakpoints.Listing.{IsOrdered, flatten_tracked_breakpoints_lem}
use dlvpp.Dap.Breakpoints.Groups.{check_breakpoints-ok}
use dlvpp.Tests.{sample_codec, connected}

abbrev spec : BreakpointSpec
spec = record { location = codes "/a.go:3"; condition = [] }

abbrev made : Breakpoint
made = record {
  id = pos 7;
  location = record { file = codes "/a.go"; line = pos 3; function = [] };
  condition = [];
  enabled = true;
}

abbrev creating : Client
creating = connected (ok (codes "1/a.go") ∷ [])

create_breakpoint_idem_example :
    (create_breakpoint sample_codec ok spec (create_breakpoint sample_codec ok spec creating).1
      ≡ (ok (some made), (create_breakpoint sample_codec ok spec creating).1))
    × ((b : Breakpoint) × (some made ≡ some b))
unfolding create_breakpoint require_conn dlvpp.Dap.Breakpoints.normalize_breakpoint_spec
    dlvpp.Base.trim_space dlvpp.Dap.Location.parse_file_line_location dlvpp.Base.atoi
    dlvpp.Base.has_prefix dlvpp.Dap.Breakpoints.tracked_breakpoint_from_spec group_of
    dlvpp.Dap.Breakpoints.Changes.add_file_breakpoint dlvpp.Dap.Breakpoints.Changes.set_breakpoints
    dlvpp.Dap.Client.Requests.request_locked eqb dlvpp.Base.Int.◌+ℤ◌
    dlvpp.Dap.Breakpoints.decode_breakpoints dlvpp.Dap.Breakpoints.map_tracked_breakpoints
    dlvpp.Dap.Location.format_location dlvpp.Base.itoa dlvpp.Base.utoa
    dlvpp.Dap.Location.map_breakpoint dlvpp.Base.contains
create_breakpoint_idem_example =
    create_breakpoint_idem sample_codec ok spec creating
      (create_breakpoint sample_codec ok spec creating).1 (some made) _ refl refl

create_in_file_example :
    (tracked_specs (
        group_of
          (codes "/a.go")
          (create_in sample_codec (in_file spec (codes "/a.go")) creating).1.file_breakpoints)
      ≡ spec ∷ [])
    × ((other : Bytes)
        → eqb (codes "/a.go") other ≡ false
        → group_of other
            (create_in sample_codec (in_file spec (codes "/a.go")) creating).1.file_breakpoints
          ≡ group_of other [])
    × ((create_in sample_codec (in_file spec (codes "/a.go")) creating).1.function_breakpoints ≡ [])
unfolding create_in dlvpp.Dap.Breakpoints.Changes.unless_tracked
    dlvpp.Dap.Breakpoints.tracked_breakpoint_from_spec group_of
    dlvpp.Dap.Breakpoints.Changes.add_file_breakpoint dlvpp.Dap.Breakpoints.Changes.set_breakpoints
    dlvpp.Dap.Client.Requests.request_locked eqb dlvpp.Base.Int.◌+ℤ◌
    dlvpp.Dap.Breakpoints.decode_breakpoints dlvpp.Dap.Breakpoints.map_tracked_breakpoints
    dlvpp.Dap.Location.map_breakpoint dlvpp.Base.contains
create_in_file_example =
    create_in_file sample_codec spec (codes "/a.go") creating
      (create_in sample_codec (in_file spec (codes "/a.go")) creating).1 (some made) refl refl

abbrev refused : Client
refused = connected (ok (codes "xno") ∷ [])

abbrev error_of : {A : Type 0} → Result A → Error
error_of (ok a) = Error.text []
error_of (err e) = e

create_breakpoint_fails_example :
    ((create_breakpoint sample_codec ok spec refused).1.file_breakpoints ≡ [])
    × ((create_breakpoint sample_codec ok spec refused).1.function_breakpoints ≡ [])
unfolding create_breakpoint require_conn dlvpp.Dap.Breakpoints.normalize_breakpoint_spec
    dlvpp.Base.trim_space dlvpp.Dap.Location.parse_file_line_location dlvpp.Base.atoi
    dlvpp.Base.has_prefix dlvpp.Dap.Breakpoints.tracked_breakpoint_from_spec group_of
    dlvpp.Dap.Breakpoints.Changes.add_file_breakpoint dlvpp.Dap.Breakpoints.Changes.set_breakpoints
    dlvpp.Dap.Client.Requests.request_locked eqb dlvpp.Base.Int.◌+ℤ◌
create_breakpoint_fails_example =
    create_breakpoint_fails sample_codec ok spec refused
      (create_breakpoint sample_codec ok spec refused).1
      (error_of (create_breakpoint sample_codec ok spec refused).0) refl

abbrev tracked : TrackedBreakpoint
tracked = record { spec = spec; breakpoint = made }

abbrev by_file : FileGroups
by_file =
    (codes "/a.go", tracked ∷ record tracked { breakpoint = record made { id = pos 2 } } ∷ []) ∷ []

flatten_tracked_breakpoints_lem_example :
    ((P : Breakpoint → Type 0)
      → All P (flatten_tracked_breakpoints by_file (tracked ∷ []))
        ↔ AllTracked P by_file (tracked ∷ []))
    × (length (flatten_tracked_breakpoints by_file (tracked ∷ [])) ≡ 3)
    × IsOrdered (flatten_tracked_breakpoints by_file (tracked ∷ []))
flatten_tracked_breakpoints_lem_example = flatten_tracked_breakpoints_lem by_file (tracked ∷ [])

abbrev wires : List DapBreakpoint
wires = record { id = pos 7; verified = true; line = pos 3; source_path = []; message = [] } ∷ []

check_breakpoints-ok_example : (length wires ≡ 1) × All (λ w. w.verified ≡ true) wires
unfolding check_breakpoints
check_breakpoints-ok_example = check_breakpoints-ok (codes "setBreakpoints") 1 (ok wires) wires refl

abbrev clearing : Client
clearing = record (connected (ok (codes "1/a.go") ∷ [])) {
  file_breakpoints =
      (codes "/a.go", tracked ∷ record tracked { breakpoint = record made { id = pos 8 } } ∷ [])
      ∷ [];
}

clear_breakpoint-IsCleared_example :
    IsClearedInFile (pos 8) clearing (clear_breakpoint sample_codec (pos 8) clearing).1
    ⊎ IsClearedFunction (pos 8) clearing (clear_breakpoint sample_codec (pos 8) clearing).1
unfolding clear_breakpoint require_conn dlvpp.Dap.Breakpoints.Changes.find_in_files
    dlvpp.Dap.Breakpoints.Changes.tracked_breakpoint_index_by_id
    dlvpp.Dap.Breakpoints.Changes.replace_file_breakpoints
    dlvpp.Dap.Breakpoints.Changes.set_breakpoints dlvpp.Dap.Client.Requests.request_locked eqb
    dlvpp.Base.Int.◌+ℤ◌ dlvpp.Dap.Breakpoints.decode_breakpoints
clear_breakpoint-IsCleared_example =
    clear_breakpoint-IsCleared sample_codec (pos 8) clearing
      (clear_breakpoint sample_codec (pos 8) clearing).1 tt refl
