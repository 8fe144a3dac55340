-- ===== src/Dap/Breakpoints/Tracking.antt =====
-- internal/backend/dap/breakpoints.go: what creating and clearing do to the tracked breakpoints.
use dlvpp.Base.{
  ◌≡◌, refl, ap, ◌∙◌, Bytes, List, [], ◌∷◌, ◌++◌, Option, none, some, codes, length, inl, inr,
}
use mathlib.Core.Path.{subst}
use dlvpp.Base.Fault.{Error, Result, ok, err}
use dlvpp.Base.Proc.{Proc, after_ok, after_err, after_keeps}
use dlvpp.Backend.{BreakpointSpec, Breakpoint}
use dlvpp.Dap.Wire.{Response, DapBreakpoint, Codec}
use dlvpp.Dap.Client.{Client, Conn, TrackedBreakpoint, require_conn}
use dlvpp.Dap.Client.Requests.{request_locked}
use dlvpp.Dap.Client.Events.Keeps.{Tracks}
use dlvpp.Dap.Client.Requests.Keeps.{request_locked_keeps, IsKept-Tracks}
use dlvpp.Dap.Breakpoints.{
  Normalized, in_file, by_name, normalize_breakpoint_spec, tracked_specs, decode_breakpoints,
  check_breakpoints,
}
use dlvpp.Dap.Breakpoints.Changes.{
  set_breakpoints, set_function_breakpoints, source_arguments, function_arguments,
  add_file_breakpoint, add_function_breakpoint, unless_tracked, create_in, create_normalized,
  create_on, create_breakpoint,
}
use dlvpp.Dap.Breakpoints.Groups.{check_breakpoints-ok}

abbrev pub SameTracked : Client → Client → Type 0
SameTracked c = Tracks c.file_breakpoints c.function_breakpoints

-- A request that is answered with breakpoints has one for each spec, and changed nothing tracked.
pub set_breakpoints-ok :
    (j : Codec) (file : Bytes) (specs : List BreakpointSpec) (c c' : Client)
    (wires : List DapBreakpoint)
    → set_breakpoints j file specs c ≡ (ok wires, c')
    → (length wires ≡ length specs) × SameTracked c c'
unfolding set_breakpoints decode_breakpoints
set_breakpoints-ok j file specs c c' wires h =
    let (resp, c₁, e₁, h₁) =
      after_ok (request_locked j (codes "setBreakpoints") (source_arguments file specs) c) _ h in
    let checked : check_breakpoints (codes "setBreakpoints") (length specs)
          (j.decode_breakpoints resp.body)
        ≡ ok wires =
      ap (λ (r : Result (List DapBreakpoint) × Client). r.0) h₁ in
    let same : c₁ ≡ c' = ap (λ (r : Result (List DapBreakpoint) × Client). r.1) h₁ in
    let kept =
      request_locked_keeps j (IsKept-Tracks j c.file_breakpoints c.function_breakpoints)
        (codes "setBreakpoints") (source_arguments file specs) c (refl, refl) in
    (
      (check_breakpoints-ok (codes "setBreakpoints") (length specs) (j.decode_breakpoints resp.body)
          wires checked).0,
      subst (SameTracked c) (ap (λ (r : Result Response × Client). r.1) e₁ ∙ same) kept,
    )

pub set_function_breakpoints-ok :
    (j : Codec) (specs : List BreakpointSpec) (c c' : Client) (wires : List DapBreakpoint)
    → set_function_breakpoints j specs c ≡ (ok wires, c')
    → (length wires ≡ length specs) × SameTracked c c'
unfolding set_function_breakpoints decode_breakpoints
set_function_breakpoints-ok j specs c c' wires h =
    let (resp, c₁, e₁, h₁) =
      after_ok (request_locked j (codes "setFunctionBreakpoints") (function_arguments specs) c) _
        h in
    let checked : check_breakpoints (codes "setFunctionBreakpoints") (length specs)
          (j.decode_breakpoints resp.body)
        ≡ ok wires =
      ap (λ (r : Result (List DapBreakpoint) × Client). r.0) h₁ in
    let same : c₁ ≡ c' = ap (λ (r : Result (List DapBreakpoint) × Client). r.1) h₁ in
    let kept =
      request_locked_keeps j (IsKept-Tracks j c.file_breakpoints c.function_breakpoints)
        (codes "setFunctionBreakpoints") (function_arguments specs) c (refl, refl) in
    (
      (check_breakpoints-ok (codes "setFunctionBreakpoints") (length specs)
          (j.decode_breakpoints resp.body) wires checked).0,
      subst (SameTracked c) (ap (λ (r : Result Response × Client). r.1) e₁ ∙ same) kept,
    )

set_breakpoints_keeps :
    (j : Codec) (file : Bytes) (specs : List BreakpointSpec) (c : Client)
    → SameTracked c (set_breakpoints j file specs c).1
unfolding set_breakpoints
set_breakpoints_keeps j file specs c =
    after_keeps (SameTracked c)
      (request_locked j (codes "setBreakpoints") (source_arguments file specs) c) _
      (request_locked_keeps j (IsKept-Tracks j c.file_breakpoints c.function_breakpoints)
        (codes "setBreakpoints") (source_arguments file specs) c (refl, refl))
      (λ a c' h. h)

set_function_breakpoints_keeps :
    (j : Codec) (specs : List BreakpointSpec) (c : Client)
    → SameTracked c (set_function_breakpoints j specs c).1
unfolding set_function_breakpoints
set_function_breakpoints_keeps j specs c =
    after_keeps (SameTracked c)
      (request_locked j (codes "setFunctionBreakpoints") (function_arguments specs) c) _
      (request_locked_keeps j (IsKept-Tracks j c.file_breakpoints c.function_breakpoints)
        (codes "setFunctionBreakpoints") (function_arguments specs) c (refl, refl))
      (λ a c' h. h)

add_file-err :
    (j : Codec) (file : Bytes) (spec : BreakpointSpec) (group : List TrackedBreakpoint)
    (c c' : Client) (e : Error)
    → add_file_breakpoint j file spec group c ≡ (err e, c')
    → SameTracked c c'
unfolding add_file_breakpoint
add_file-err j file spec group c c' e h =
    elim (after_err (set_breakpoints j file (tracked_specs group ++ spec ∷ []) c) _ h) [
      | inl stops ↦
          subst (SameTracked c) (ap (λ (r : Result (List DapBreakpoint) × Client). r.1) stops)
            (set_breakpoints_keeps j file _ c)
      | inr later ↦ cc (later.3)
    ]

add_function-err :
    (j : Codec) (spec : BreakpointSpec) (group : List TrackedBreakpoint) (c c' : Client) (e : Error)
    → add_function_breakpoint j spec group c ≡ (err e, c')
    → SameTracked c c'
unfolding add_function_breakpoint
add_function-err j spec group c c' e h =
    elim (after_err (set_function_breakpoints j (tracked_specs group ++ spec ∷ []) c) _ h) [
      | inl stops ↦
          subst (SameTracked c) (ap (λ (r : Result (List DapBreakpoint) × Client). r.1) stops)
            (set_function_breakpoints_keeps j _ c)
      | inr later ↦ cc (later.3)
    ]

unless_tracked-err :
    (o : Option Breakpoint) (rest : Proc Client (Option Breakpoint)) (c c' : Client) (e : Error)
    → unless_tracked o rest c ≡ (err e, c')
    → rest c ≡ (err e, c')
unfolding unless_tracked
unless_tracked-err none rest c c' e h = h
unless_tracked-err (some bp) rest c c' e h = cc

create_in-err :
    (j : Codec) (n : Normalized) (c c' : Client) (e : Error)
    → create_in j n c ≡ (err e, c')
    → SameTracked c c'
unfolding create_in
create_in-err j (in_file spec file) c c' e h =
    add_file-err j file spec _ c c' e (unless_tracked-err _ _ c c' e h)
create_in-err j (by_name spec) c c' e h =
    add_function-err j spec _ c c' e (unless_tracked-err _ _ c c' e h)

create_normalized-err :
    (j : Codec) (n : Result Normalized) (c c' : Client) (e : Error)
    → create_normalized j n c ≡ (err e, c')
    → SameTracked c c'
unfolding create_normalized
create_normalized-err j (ok n) c c' e h = create_in-err j n c c' e h
create_normalized-err j (err e₁) c c' e h =
    subst (SameTracked c) (ap (λ (r : Result (Option Breakpoint) × Client). r.1) h) (refl, refl)

-- A breakpoint that cannot be created leaves the tracked breakpoints as they were, whichever step
-- failed.
pub create_breakpoint_fails :
    (j : Codec) (abs : Bytes → Result Bytes) (spec : BreakpointSpec) (c c' : Client) (e : Error)
    → create_breakpoint j abs spec c ≡ (err e, c')
    → (c'.file_breakpoints ≡ c.file_breakpoints)
      × (c'.function_breakpoints ≡ c.function_breakpoints)
unfolding create_breakpoint
create_breakpoint_fails j abs spec c c' e h = go (require_conn c) h
  where
    go :
        (k : Result Conn)
        → create_on j k (normalize_breakpoint_spec abs spec) c ≡ (err e, c')
        → SameTracked c c'
    go (err e₁) h₁ =
        subst (SameTracked c) (ap (λ (r : Result (Option Breakpoint) × Client). r.1) h₁)
          (refl, refl)
    go (ok k) h₁ = create_normalized-err j (normalize_breakpoint_spec abs spec) c c' e h₁
