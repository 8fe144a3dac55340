-- ===== src/Dap/Breakpoints/Created.antt =====
-- internal/backend/dap/breakpoints.go: a breakpoint that was created.
use dlvpp.Base.{
  ◌≡◌, refl, ap, ◌∙◌, sym, Bytes, false, List, [], ◌∷◌, ◌++◌, Option, none, some, eqb, eqb_refl,
  ◌⊎◌, inl, inr,
}
use mathlib.Core.Path.{subst}
use dlvpp.Base.Fault.{Result, ok, err}
use dlvpp.Base.Proc.{Proc, after_ok}
use dlvpp.Backend.{BreakpointSpec, Breakpoint}
use dlvpp.Dap.Wire.{Codec}
use dlvpp.Dap.Client.{Client, Conn, TrackedBreakpoint, require_conn}
use dlvpp.Dap.Breakpoints.{
  Normalized, in_file, by_name, normalize_breakpoint_spec, tracked_specs,
  tracked_breakpoint_from_spec, map_tracked_breakpoints, group_of, put_group,
}
use dlvpp.Dap.Breakpoints.Changes.{
  set_breakpoints, set_function_breakpoints, set_file, set_functions, add_file_breakpoint,
  add_function_breakpoint, unless_tracked, create_in, create_normalized, create_on,
  create_breakpoint,
}
use dlvpp.Dap.Breakpoints.Groups.{
  group_of-put_group, tracked_specs-map_tracked, from_spec-map_tracked,
}
use dlvpp.Dap.Breakpoints.Tracking.{set_breakpoints-ok, set_function_breakpoints-ok}

-- A list of tracked breakpoints before and after a spec was added: the spec stands at the end, and
-- what is returned is what is tracked for it, not nil.
pub record Gained (spec : BreakpointSpec) (before after' : List TrackedBreakpoint)
    (bp : Option Breakpoint) : Type 0 where
  pub specs : tracked_specs after' ≡ tracked_specs before ++ spec ∷ []
  pub tracked : tracked_breakpoint_from_spec after' spec ≡ bp
  pub found : (b : Breakpoint) × (bp ≡ some b)

add_file-ok :
    (j : Codec) (file : Bytes) (spec : BreakpointSpec) (group : List TrackedBreakpoint)
    (c c' : Client) (bp : Option Breakpoint)
    → add_file_breakpoint j file spec group c ≡ (ok bp, c')
    → (next : List TrackedBreakpoint) × Gained spec group next bp
      × (c'.file_breakpoints ≡ put_group file next c.file_breakpoints)
      × (c'.function_breakpoints ≡ c.function_breakpoints)
unfolding add_file_breakpoint
add_file-ok j file spec group c c' bp h =
    let specs = tracked_specs group ++ spec ∷ [] in
    let (wires, c₁, e₁, h₁) = after_ok (set_breakpoints j file specs c) _ h in
    let (sized, (files, functions)) = set_breakpoints-ok j file specs c c₁ wires e₁ in
    let next = map_tracked_breakpoints specs wires in
    let (b, found) = from_spec-map_tracked (tracked_specs group) spec wires sized in
    let result : tracked_breakpoint_from_spec next spec ≡ bp =
      cc (ap (λ (r : Result (Option Breakpoint) × Client). r.0) h₁) in
    let final : set_file file next c₁ ≡ c' =
      ap (λ (r : Result (Option Breakpoint) × Client). r.1) h₁ in
    (
      next,
      record {
        specs = tracked_specs-map_tracked specs wires sized;
        tracked = result;
        found = (b, sym result ∙ found);
      },
      sym (ap (λ (d : Client). d.file_breakpoints) final) ∙ ap (put_group file next) files,
      sym (ap (λ (d : Client). d.function_breakpoints) final) ∙ functions,
    )

add_function-ok :
    (j : Codec) (spec : BreakpointSpec) (group : List TrackedBreakpoint) (c c' : Client)
    (bp : Option Breakpoint)
    → add_function_breakpoint j spec group c ≡ (ok bp, c')
    → Gained spec group c'.function_breakpoints bp × (c'.file_breakpoints ≡ c.file_breakpoints)
unfolding add_function_breakpoint
add_function-ok j spec group c c' bp h =
    let specs = tracked_specs group ++ spec ∷ [] in
    let (wires, c₁, e₁, h₁) = after_ok (set_function_breakpoints j specs c) _ h in
    let (sized, (files, functions)) = set_function_breakpoints-ok j specs c c₁ wires e₁ in
    let next = map_tracked_breakpoints specs wires in
    let (b, found) = from_spec-map_tracked (tracked_specs group) spec wires sized in
    let result : tracked_breakpoint_from_spec next spec ≡ bp =
      cc (ap (λ (r : Result (Option Breakpoint) × Client). r.0) h₁) in
    let final : set_functions next c₁ ≡ c' =
      ap (λ (r : Result (Option Breakpoint) × Client). r.1) h₁ in
    (
      subst (λ (fs : List TrackedBreakpoint). Gained spec group fs bp)
          (ap (λ (d : Client). d.function_breakpoints) final)
          (record {
            specs = tracked_specs-map_tracked specs wires sized;
            tracked = result;
            found = (b, sym result ∙ found);
          }),
      sym (ap (λ (d : Client). d.file_breakpoints) final) ∙ files,
    )

-- Where a normalized spec is tracked.
abbrev pub home : Normalized → Client → List TrackedBreakpoint
home (in_file spec file) c = group_of file c.file_breakpoints
home (by_name spec) c = c.function_breakpoints

abbrev pub spec_of : Normalized → BreakpointSpec
spec_of (in_file spec file) = spec
spec_of (by_name spec) = spec

unless_tracked-ok :
    (o : Option Breakpoint) (rest : Proc Client (Option Breakpoint)) (c c' : Client)
    (bp : Option Breakpoint)
    → unless_tracked o rest c ≡ (ok bp, c')
    → ((b : Breakpoint) × (o ≡ some b) × (bp ≡ some b) × (c ≡ c'))
      ⊎ ((o ≡ none) × (rest c ≡ (ok bp, c')))
unfolding unless_tracked
unless_tracked-ok (some b) rest c c' bp h = inl (b, refl, cc, cc)
unless_tracked-ok none rest c c' bp h = inr (refl, h)

create_in-tracked :
    (j : Codec) (n : Normalized) (c c' : Client) (bp : Option Breakpoint)
    → create_in j n c ≡ (ok bp, c')
    → (tracked_breakpoint_from_spec (home n c') (spec_of n) ≡ bp)
      × ((b : Breakpoint) × (bp ≡ some b))
unfolding create_in
create_in-tracked j (in_file spec file) c c' bp h =
    elim (unless_tracked-ok _ (add_file_breakpoint j file spec (group_of file c.file_breakpoints)) c
      c' bp h) [
        | inl (b, was, is, same) ↦ (
          subst
              (λ (d : Client).
                tracked_breakpoint_from_spec (group_of file d.file_breakpoints) spec ≡ bp)
              same (was ∙ sym is),
          (b, is),
        )
        | inr (absent, added) ↦
            let (next, gained, files, functions) =
              add_file-ok j file spec (group_of file c.file_breakpoints) c c' bp added in
            let here : group_of file c'.file_breakpoints ≡ next =
              ap (group_of file) files
              ∙ group_of-put_group file file next c.file_breakpoints
              ∙ rw (eqb_refl file) in
            (
              ap (λ (g : List TrackedBreakpoint). tracked_breakpoint_from_spec g spec) here
                  ∙ gained.tracked,
              gained.found,
            )
      ]
create_in-tracked j (by_name spec) c c' bp h =
    elim (unless_tracked-ok _ (add_function_breakpoint j spec c.function_breakpoints) c c' bp h) [
      | inl (b, was, is, same) ↦ (
        subst (λ (d : Client). tracked_breakpoint_from_spec d.function_breakpoints spec ≡ bp) same
            (was ∙ sym is),
        (b, is),
      )
      | inr (absent, added) ↦
          let (gained, files) = add_function-ok j spec c.function_breakpoints c c' bp added in
          (gained.tracked, gained.found)
    ]

tracked_again :
    (j : Codec) (n : Normalized) (c : Client) (bp : Option Breakpoint) (b : Breakpoint)
    → tracked_breakpoint_from_spec (home n c) (spec_of n) ≡ bp
    → bp ≡ some b
    → create_in j n c ≡ (ok bp, c)
unfolding create_in unless_tracked
tracked_again j (in_file spec file) c bp b h e = rw (h, e, unless_tracked)
tracked_again j (by_name spec) c bp b h e = rw (h, e, unless_tracked)

again_normalized :
    (j : Codec) (n : Result Normalized) (c c' : Client) (bp : Option Breakpoint)
    → create_normalized j n c ≡ (ok bp, c')
    → (create_normalized j n c' ≡ (ok bp, c')) × ((b : Breakpoint) × (bp ≡ some b))
unfolding create_normalized
again_normalized j (err e) c c' bp h = cc
again_normalized j (ok n) c c' bp h =
    let (tracked, (b, is)) = create_in-tracked j n c c' bp h in
    (tracked_again j n c' bp b tracked is, (b, is))

again_on :
    (j : Codec) (k k' : Result Conn) (n : Result Normalized) (c c' : Client)
    (bp : Option Breakpoint) (conn : Conn)
    → create_on j k n c ≡ (ok bp, c')
    → k' ≡ ok conn
    → (create_on j k' n c' ≡ (ok bp, c')) × ((b : Breakpoint) × (bp ≡ some b))
unfolding create_on
again_on j (err e) k' n c c' bp conn h t = cc
again_on j (ok k) k' n c c' bp conn h t = rw t (again_normalized j n c c' bp h)

-- A creation that succeeds returns a breakpoint, never nil; and while the client stays connected the
-- same spec, given again, returns that breakpoint and changes nothing: no request is sent.
pub create_breakpoint_idem :
    (j : Codec) (abs : Bytes → Result Bytes) (spec : BreakpointSpec) (c c' : Client)
    (bp : Option Breakpoint) (k : Conn)
    → create_breakpoint j abs spec c ≡ (ok bp, c')
    → require_conn c' ≡ ok k
    → (create_breakpoint j abs spec c' ≡ (ok bp, c')) × ((b : Breakpoint) × (bp ≡ some b))
unfolding create_breakpoint
create_breakpoint_idem j abs spec c c' bp k h t =
    again_on j (require_conn c) (require_conn c') (normalize_breakpoint_spec abs spec) c c' bp k h t

-- A spec that is not tracked for its file and is created there stands behind the file's specs
-- afterwards; the other files and the function breakpoints are as they were.
pub create_in_file :
    (j : Codec) (spec : BreakpointSpec) (file : Bytes) (c c' : Client) (bp : Option Breakpoint)
    → create_in j (in_file spec file) c ≡ (ok bp, c')
    → tracked_breakpoint_from_spec (group_of file c.file_breakpoints) spec ≡ none
    → (tracked_specs (group_of file c'.file_breakpoints)
        ≡ tracked_specs (group_of file c.file_breakpoints) ++ spec ∷ [])
      × ((other : Bytes)
          → eqb file other ≡ false
          → group_of other c'.file_breakpoints ≡ group_of other c.file_breakpoints)
      × (c'.function_breakpoints ≡ c.function_breakpoints)
unfolding create_in
create_in_file j spec file c c' bp h absent =
    elim (unless_tracked-ok _ (add_file_breakpoint j file spec (group_of file c.file_breakpoints)) c
      c' bp h) [
        | inl (b, was, is, same) ↦ cc
        | inr (_, added) ↦
            let (next, gained, files, functions) =
              add_file-ok j file spec (group_of file c.file_breakpoints) c c' bp added in
            let here : group_of file c'.file_breakpoints ≡ next =
              ap (group_of file) files
              ∙ group_of-put_group file file next c.file_breakpoints
              ∙ rw (eqb_refl file) in
            (
              ap tracked_specs here ∙ gained.specs,
              λ other apart.
                  ap (group_of other) files
                  ∙ group_of-put_group file other next c.file_breakpoints
                  ∙ rw apart,
              functions,
            )
      ]
