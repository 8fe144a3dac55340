-- ===== src/Dap/Breakpoints.antt =====
-- internal/backend/dap/breakpoints.go: the breakpoints that the client tracks, by file and by
-- function, and the requests that replace them.
pub mod Order
pub mod Changes
pub mod Tracking
pub mod Groups
pub mod Created
pub mod Found
pub mod Cleared
pub mod Contents
pub mod Listing
use dlvpp.Base.{
  ℕ, zero, suc, ◌+◌, Bytes, Bool, true, false, not, List, [], ◌∷◌, ◌++◌, Option, none, some, map,
  codes, eqb, ltb, ◌==◌, ◌&&◌, ◌||◌, if◌then◌else◌, length, take, drop, utoa, itoa, trim_space,
  is_empty, has_prefix, reverse, trim_left_byte,
}
use dlvpp.Base.Int.{ℤ, pos, eq_int}
use dlvpp.Base.Fault.{Error, text, wrapped, Result, ok, err, wrap_error}
use dlvpp.Base.Proc.{Proc, pure, fail, lift, after, ◌>>=◌, ◌>>◌}
use dlvpp.Backend.{BreakpointSpec, Breakpoint}
use dlvpp.Dap.Wire.{
  Json, string, number, array, object, nil, cons, Items, end, field, Fields, Codec, DapBreakpoint,
}
use dlvpp.Dap.Location.{parse_file_line_location, format_location, map_breakpoint}
use dlvpp.Dap.Client.{Client, TrackedBreakpoint, require_conn}
use dlvpp.Dap.Client.Requests.{request_locked}
use Order.{sort_breakpoints}

-- What `normalizeBreakpointSpec` returns: the spec, and its file if it is a file location.
pub data Normalized : Type 0 where
  in_file : BreakpointSpec → Bytes → Normalized
  by_name : BreakpointSpec → Normalized

located : (Bytes → Result Bytes) → BreakpointSpec → Bytes → ℤ → Result Normalized
located abs spec file line =
    if has_prefix file (codes "/")
    then ok (in_file (record spec { location = format_location file line }) file)
    else elim (abs file) [
      | err e ↦ err (wrapped (codes "resolve breakpoint path \"" ++ (file ++ codes "\": ")) e [])
      | ok whole ↦ ok (in_file (record spec { location = format_location whole line }) whole)
    ]

normalize_trimmed : (Bytes → Result Bytes) → BreakpointSpec → Result Normalized
unfolding located
normalize_trimmed abs spec =
    if is_empty spec.location
    then err (text (codes "breakpoint location is required"))
    else elim (parse_file_line_location spec.location) [
      | none ↦ ok (by_name spec)
      | some (file, line) ↦ located abs spec file line
    ]

-- `normalizeBreakpointSpec`; `abs` is `filepath.Abs`.
unfoldable pub normalize_breakpoint_spec :
    (Bytes → Result Bytes) → BreakpointSpec → Result Normalized
unfolding normalize_trimmed
normalize_breakpoint_spec abs spec =
    normalize_trimmed abs (record spec { location = trim_space spec.location })

-- `trackedSpecs`.
abbrev pub tracked_specs : List TrackedBreakpoint → List BreakpointSpec
tracked_specs = map (λ item. item.spec)

abbrev pub same_spec : BreakpointSpec → BreakpointSpec → Bool
same_spec a b = eqb a.location b.location && eqb a.condition b.condition

-- `trackedBreakpointFromSpec`.
unfoldable pub tracked_breakpoint_from_spec :
    List TrackedBreakpoint → BreakpointSpec → Option Breakpoint
tracked_breakpoint_from_spec [] spec = none
tracked_breakpoint_from_spec (item ∷ items) spec =
    if same_spec item.spec spec
    then some item.breakpoint
    else tracked_breakpoint_from_spec items spec

condition_field : Bytes → Fields
condition_field condition =
    if is_empty condition then end else field (codes "condition") (string condition) end

-- `buildSourceBreakpoints` skips what is no file location.
unfoldable pub build_source_breakpoints : List BreakpointSpec → Items
unfolding condition_field
build_source_breakpoints [] = nil
build_source_breakpoints (spec ∷ specs) =
    let rest = build_source_breakpoints specs in
    elim (parse_file_line_location spec.location) [
      | none ↦ rest
      | some (file, line) ↦
          cons (object (field (codes "line") (number line) (condition_field spec.condition))) rest
    ]

unfoldable pub build_function_breakpoints : List BreakpointSpec → Items
unfolding condition_field
build_function_breakpoints [] = nil
build_function_breakpoints (spec ∷ specs) =
    cons (object (field (codes "name") (string spec.location) (condition_field spec.condition)))
      (build_function_breakpoints specs)

unfoldable pub all_verified :
    List DapBreakpoint → Result (List DapBreakpoint) → Result (List DapBreakpoint)
all_verified [] done = done
all_verified (bp ∷ bps) done =
    if bp.verified
    then all_verified bps done
    else err (text (codes "breakpoint not verified: " ++ bp.message))

unfoldable pub check_breakpoints :
    Bytes → ℕ → Result (List DapBreakpoint) → Result (List DapBreakpoint)
unfolding all_verified
check_breakpoints command want (err e) =
    err (wrap_error (codes "decode " ++ (command ++ codes " response: ")) e)
check_breakpoints command want (ok wires) =
    if length wires == want
    then all_verified wires (ok wires)
    else err (
        text (
          codes "decode "
          ++ (command
              ++ (codes " response: expected "
                  ++ (utoa want ++ (codes " breakpoints, got " ++ utoa (length wires)))))))

-- `decodeBreakpoints`.
unfoldable pub decode_breakpoints : Codec → Bytes → Bytes → ℕ → Result (List DapBreakpoint)
unfolding check_breakpoints
decode_breakpoints j body command want = check_breakpoints command want (j.decode_breakpoints body)

-- `mapTrackedBreakpoints`; the lists have one length, so the second clause stands for no run.
unfoldable pub map_tracked_breakpoints :
    List BreakpointSpec → List DapBreakpoint → List TrackedBreakpoint
map_tracked_breakpoints [] wires = []
map_tracked_breakpoints (spec ∷ specs) [] = []
map_tracked_breakpoints (spec ∷ specs) (wire ∷ wires) =
    record { spec = spec; breakpoint = map_breakpoint spec wire }
    ∷ map_tracked_breakpoints specs wires

-- The map from files to groups: a read of a missing key is nil, `delete`, and a write.
abbrev pub FileGroups : Type 0
FileGroups = List (Bytes × List TrackedBreakpoint)

unfoldable pub group_of : Bytes → FileGroups → List TrackedBreakpoint
group_of file [] = []
group_of file ((f, group) ∷ m) = if eqb f file then group else group_of file m

unfoldable pub delete_group : Bytes → FileGroups → FileGroups
delete_group file [] = []
delete_group file ((f, group) ∷ m) =
    let rest = delete_group file m in if eqb f file then rest else (f, group) ∷ rest

unfoldable pub put_group : Bytes → List TrackedBreakpoint → FileGroups → FileGroups
put_group file next [] = (file, next) ∷ []
put_group file next ((f, group) ∷ m) =
    let rest = put_group file next m in if eqb f file then (file, next) ∷ m else (f, group) ∷ rest

abbrev pub breakpoints_of : List TrackedBreakpoint → List Breakpoint
breakpoints_of = map (λ item. item.breakpoint)

unfoldable pub all_groups : FileGroups → List Breakpoint
all_groups [] = []
all_groups ((f, group) ∷ m) = breakpoints_of group ++ all_groups m

-- `flattenTrackedBreakpoints`.
unfoldable pub flatten_tracked_breakpoints : FileGroups → List TrackedBreakpoint → List Breakpoint
unfolding all_groups
flatten_tracked_breakpoints files functions =
    sort_breakpoints (all_groups files ++ breakpoints_of functions)

-- `Breakpoints`.
unfoldable pub breakpoints : Proc Client (List Breakpoint)
breakpoints c = elim (require_conn c) [
  | err e ↦ (err e, c)
  | ok k ↦ (ok (flatten_tracked_breakpoints c.file_breakpoints c.function_breakpoints), c)
]
