-- ===== src/Dap/Breakpoints/Changes.antt =====
-- internal/backend/dap/breakpoints.go: creating and clearing breakpoints.
use dlvpp.Base.{
  ℕ, suc, Bytes, true, false, List, [], ◌∷◌, ◌++◌, Option, none, some, codes, eqb, if◌then◌else◌,
  length, take, drop, itoa, is_empty, reverse, trim_left_byte,
}
use dlvpp.Base.Int.{ℤ, eq_int}
use dlvpp.Base.Fault.{text, Result, ok, err}
use dlvpp.Base.Proc.{Proc, pure, lift, modify, ◌>>=◌, ◌>>◌}
use dlvpp.Backend.{BreakpointSpec, Breakpoint}
use dlvpp.Dap.Wire.{Json, string, array, object, end, field, Codec, DapBreakpoint}
use dlvpp.Dap.Client.{Client, Conn, TrackedBreakpoint, require_conn}
use dlvpp.Dap.Client.Requests.{request_locked}
use dlvpp.Dap.Breakpoints.{
  Normalized, in_file, by_name, normalize_breakpoint_spec, tracked_specs,
  tracked_breakpoint_from_spec, build_source_breakpoints, build_function_breakpoints,
  decode_breakpoints, map_tracked_breakpoints, FileGroups, group_of, put_group, delete_group,
}

-- The last element of a path given reversed, after its trailing slashes.
last_element : Bytes → Bytes → Bytes
last_element [] out = out
last_element (c ∷ s) out =
    let rest = last_element s (c ∷ out) in
    elim (eqb (c ∷ []) (codes "/")) [ true ↦ out | false ↦ rest ]

base_of : Bytes → Bytes
unfolding last_element
base_of [] = codes "/"
base_of (c ∷ s) = last_element (c ∷ s) []

-- `filepath.Base`.
filepath_base : Bytes → Bytes
unfolding base_of
filepath_base path =
    if is_empty path then codes "." else base_of (trim_left_byte b'/' (reverse path))

unfoldable pub source_arguments : Bytes → List BreakpointSpec → Json
unfolding filepath_base
source_arguments file specs = object (
    field (codes "source")
      (object (
        field (codes "name") (string (filepath_base file))
          (field (codes "path") (string file) end)))
      (field (codes "breakpoints") (array (build_source_breakpoints specs)) end))

unfoldable pub function_arguments : List BreakpointSpec → Json
function_arguments specs =
    object (field (codes "breakpoints") (array (build_function_breakpoints specs)) end)

abbrev pub set_file : Bytes → List TrackedBreakpoint → Client → Client
set_file file next c = record c { file_breakpoints = put_group file next c.file_breakpoints }

abbrev pub set_functions : List TrackedBreakpoint → Client → Client
set_functions next c = record c { function_breakpoints = next }

-- `trackedBreakpointIndexByID`, with `none` for -1.
unfoldable pub tracked_breakpoint_index_by_id : List TrackedBreakpoint → ℤ → Option ℕ
tracked_breakpoint_index_by_id [] id = none
tracked_breakpoint_index_by_id (item ∷ items) id =
    let rest = elim (tracked_breakpoint_index_by_id items id) as (λ x. Option ℕ) [
      | none ↦ none
      | some i ↦ some (suc i)
    ] in
    if eq_int item.breakpoint.id id then some 0 else rest

-- `append(group[:idx], group[idx+1:]...)` on a copy.
abbrev pub without_index : List TrackedBreakpoint → ℕ → List TrackedBreakpoint
without_index items i = take i items ++ drop (suc i) items

-- Where `ClearBreakpoint` finds an id: the first group that holds it, in the order of the map.
unfoldable pub find_in_files : ℤ → FileGroups → Option (Bytes × List TrackedBreakpoint)
find_in_files id [] = none
find_in_files id ((file, group) ∷ m) = elim (tracked_breakpoint_index_by_id group id) [
  | some i ↦ some (file, without_index group i)
  | none ↦ find_in_files id m
]

-- `if existing := …; existing != nil { return existing, nil }`.
unfoldable pub unless_tracked :
    Option Breakpoint → Proc Client (Option Breakpoint) → Proc Client (Option Breakpoint)
unless_tracked (some existing) rest c = (ok (some existing), c)
unless_tracked none rest c = rest c

module _ (j : Codec) where
  -- The request that replaces a file's breakpoints, decoded.
  unfoldable pub set_breakpoints : Bytes → List BreakpointSpec → Proc Client (List DapBreakpoint)
  unfolding source_arguments
  set_breakpoints file specs = do
    resp ← request_locked j (codes "setBreakpoints") (source_arguments file specs)
    lift (decode_breakpoints j resp.body (codes "setBreakpoints") (length specs))

  unfoldable pub set_function_breakpoints : List BreakpointSpec → Proc Client (List DapBreakpoint)
  unfolding function_arguments
  set_function_breakpoints specs = do
    resp ← request_locked j (codes "setFunctionBreakpoints") (function_arguments specs)
    lift (decode_breakpoints j resp.body (codes "setFunctionBreakpoints") (length specs))

  -- `replaceFileBreakpointsLocked`.
  unfoldable pub replace_file_breakpoints : Bytes → List TrackedBreakpoint → Proc Client Unit
  replace_file_breakpoints file next = do
    let specs = tracked_specs next
    wires ← set_breakpoints file specs
    modify (λ c.
        if is_empty specs
        then record c { file_breakpoints = delete_group file c.file_breakpoints }
        else set_file file (map_tracked_breakpoints specs wires) c)

  -- `replaceFunctionBreakpointsLocked`.
  unfoldable pub replace_function_breakpoints : List TrackedBreakpoint → Proc Client Unit
  replace_function_breakpoints next = do
    let specs = tracked_specs next
    wires ← set_function_breakpoints specs
    modify (set_functions (map_tracked_breakpoints specs wires))

  unfoldable pub add_file_breakpoint :
      Bytes → BreakpointSpec → List TrackedBreakpoint → Proc Client (Option Breakpoint)
  add_file_breakpoint file spec group = do
    let specs = tracked_specs group ++ spec ∷ []
    wires ← set_breakpoints file specs
    let next = map_tracked_breakpoints specs wires
    modify (set_file file next)
    pure (tracked_breakpoint_from_spec next spec)

  unfoldable pub add_function_breakpoint :
      BreakpointSpec → List TrackedBreakpoint → Proc Client (Option Breakpoint)
  add_function_breakpoint spec group = do
    let specs = tracked_specs group ++ spec ∷ []
    wires ← set_function_breakpoints specs
    let next = map_tracked_breakpoints specs wires
    modify (set_functions next)
    pure (tracked_breakpoint_from_spec next spec)

  unfoldable pub create_in : Normalized → Proc Client (Option Breakpoint)
  create_in (in_file spec file) c =
      let group = group_of file c.file_breakpoints in
      unless_tracked (tracked_breakpoint_from_spec group spec) (add_file_breakpoint file spec group)
        c
  create_in (by_name spec) c =
      unless_tracked (tracked_breakpoint_from_spec c.function_breakpoints spec)
        (add_function_breakpoint spec c.function_breakpoints) c

  unfoldable pub create_normalized : Result Normalized → Proc Client (Option Breakpoint)
  create_normalized (err e) c = (err e, c)
  create_normalized (ok n) c = create_in n c

  unfoldable pub create_on : Result Conn → Result Normalized → Proc Client (Option Breakpoint)
  create_on (err e) n c = (err e, c)
  create_on (ok k) n c = create_normalized n c

  -- `CreateBreakpoint`; `abs` is `filepath.Abs`.
  unfoldable pub create_breakpoint :
      (Bytes → Result Bytes) → BreakpointSpec → Proc Client (Option Breakpoint)
  unfolding create_on create_normalized create_in unless_tracked
  create_breakpoint abs spec c = create_on (require_conn c) (normalize_breakpoint_spec abs spec) c

  unfoldable pub clear_function : ℤ → Option ℕ → Proc Client Unit
  clear_function id (some i) c =
      replace_function_breakpoints (without_index c.function_breakpoints i) c
  clear_function id none c = (err (text (codes "breakpoint id not found: " ++ itoa id)), c)

  unfoldable pub clear_found : ℤ → Option (Bytes × List TrackedBreakpoint) → Proc Client Unit
  unfolding clear_function
  clear_found id (some (file, next)) c = replace_file_breakpoints file next c
  clear_found id none c =
      clear_function id (tracked_breakpoint_index_by_id c.function_breakpoints id) c

  unfoldable pub clear_on : ℤ → Result Conn → Proc Client Unit
  unfolding clear_found
  clear_on id (err e) c = (err e, c)
  clear_on id (ok k) c = clear_found id (find_in_files id c.file_breakpoints) c

  -- `ClearBreakpoint`.
  unfoldable pub clear_breakpoint : ℤ → Proc Client Unit
  unfolding clear_on
  clear_breakpoint id c = clear_on id (require_conn c) c
