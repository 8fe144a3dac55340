-- ===== src/Dap/Breakpoints/Groups.antt =====
-- internal/backend/dap/breakpoints.go: the laws of the map from files to groups, and of the lists of
-- tracked breakpoints.
use dlvpp.Base.{
  ℕ, ◌≡◌, refl, ap, Bytes, true, List, [], ◌∷◌, ◌++◌, some, arith, eqb, eqb_iff, eqb_refl, ◌==◌,
  if◌then◌else◌, length, All, Bool-cases, inl, inr,
}
use mathlib.Core.Path.{subst}
use dlvpp.Base.Fault.{Result, ok, err}
use dlvpp.Backend.{BreakpointSpec, Breakpoint}
use dlvpp.Dap.Wire.{DapBreakpoint}
use dlvpp.Dap.Location.{map_breakpoint}
use dlvpp.Dap.Client.{TrackedBreakpoint}
use dlvpp.Dap.Breakpoints.{
  tracked_specs, same_spec, tracked_breakpoint_from_spec, all_verified, check_breakpoints,
  map_tracked_breakpoints, FileGroups, group_of, put_group, delete_group,
}

-- A file's group after a write to one file.
pub group_of-put_group :
    (f g : Bytes) (next : List TrackedBreakpoint) (m : FileGroups)
    → group_of g (put_group f next m) ≡ (if eqb f g then next else group_of g m)
unfolding group_of put_group
group_of-put_group f g next [] = refl
group_of-put_group f g next ((h, group) ∷ m) =
    ground (arith, eqb_iff h f, eqb_iff h g, eqb_iff f g, group_of-put_group f g next m)

-- A file's group after a file was deleted.
pub group_of-delete_group :
    (f g : Bytes) (m : FileGroups)
    → group_of g (delete_group f m) ≡ (if eqb f g then [] else group_of g m)
unfolding group_of delete_group
group_of-delete_group f g [] = ground arith
group_of-delete_group f g ((h, group) ∷ m) =
    ground (arith, eqb_iff h f, eqb_iff h g, eqb_iff f g, group_of-delete_group f g m)

-- Tracking a list of specs keeps the specs, in order.
pub tracked_specs-map_tracked :
    (specs : List BreakpointSpec) (wires : List DapBreakpoint)
    → length wires ≡ length specs
    → tracked_specs (map_tracked_breakpoints specs wires) ≡ specs
unfolding map_tracked_breakpoints
tracked_specs-map_tracked [] wires h = refl
tracked_specs-map_tracked (spec ∷ specs) [] h = absurd (omega arith)
tracked_specs-map_tracked (spec ∷ specs) (wire ∷ wires) h =
    ap (λ (ss : List BreakpointSpec). spec ∷ ss)
      (tracked_specs-map_tracked specs wires (omega arith))

same_spec_refl : (spec : BreakpointSpec) → same_spec spec spec ≡ true
same_spec_refl spec = rw (eqb_refl spec.location, eqb_refl spec.condition)

-- A spec that was just sent is found among the tracked ones.
pub from_spec-map_tracked :
    (specs : List BreakpointSpec) (spec : BreakpointSpec) (wires : List DapBreakpoint)
    → length wires ≡ length (specs ++ spec ∷ [])
    → (bp : Breakpoint) × (tracked_breakpoint_from_spec
          (map_tracked_breakpoints (specs ++ spec ∷ []) wires)
          spec
        ≡ some bp)
unfolding tracked_breakpoint_from_spec map_tracked_breakpoints
from_spec-map_tracked [] spec [] h = absurd (omega arith)
from_spec-map_tracked [] spec (wire ∷ wires) h =
    (map_breakpoint spec wire, rw (same_spec_refl spec))
from_spec-map_tracked (s ∷ specs) spec [] h = absurd (omega arith)
from_spec-map_tracked (s ∷ specs) spec (wire ∷ wires) h = elim (Bool-cases (same_spec s spec)) [
  | inl e ↦ (map_breakpoint s wire, rw e)
  | inr e ↦
      let (bp, found) = from_spec-map_tracked specs spec wires (omega arith) in (bp, rw e found)
]

all_verified-ok :
    (wires : List DapBreakpoint) (done : Result (List DapBreakpoint)) {out : List DapBreakpoint}
    → all_verified wires done ≡ ok out
    → (done ≡ ok out) × All (λ w. w.verified ≡ true) wires
unfolding all_verified
all_verified-ok [] done h = (h, tt)
all_verified-ok (w ∷ wires) done h = elim (Bool-cases w.verified) [
  | inl e ↦ let (d, all) = all_verified-ok wires done (rw e at h) in (d, (e, all))
  | inr e ↦ cc (rw e at h)
]

-- A decoded answer has as many breakpoints as were asked for, and each is verified.
pub check_breakpoints-ok :
    (command : Bytes) (want : ℕ) (r : Result (List DapBreakpoint)) (wires : List DapBreakpoint)
    → check_breakpoints command want r ≡ ok wires
    → (length wires ≡ want) × All (λ w. w.verified ≡ true) wires
unfolding check_breakpoints
check_breakpoints-ok command want (err e) wires h = cc
check_breakpoints-ok command want (ok ws) wires h = elim (Bool-cases (length ws == want)) [
  | inl e ↦
      let (d, all) = all_verified-ok ws (ok ws) (rw e at h) in
      let same : ws ≡ wires = cc in
      (ground arith, subst (λ xs. All (λ w. w.verified ≡ true) xs) same all)
  | inr e ↦ cc (rw e at h)
]
