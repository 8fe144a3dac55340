-- ===== src/Cli/Startup/Skipping.antt =====
-- cmd/dlvpp/session_run.go: what a launch that succeeds has done.
use dlvpp.Base.{◌≡◌, refl, ap, sym, Bytes, List, [], ◌∷◌, Option, none, some}
use mathlib.Core.Path.{subst}
use dlvpp.Base.Fault.{Error, Result, ok, err}
use dlvpp.Base.Proc.{Proc, after}
use dlvpp.Backend.{Backend, LaunchRequest, Breakpoint, BreakpointSpec}
use dlvpp.Sourceview.{Sources}
use dlvpp.Sourceview.Enclosing.{GoFile}
use dlvpp.Session.{Controller, Snapshot, on_backend, launch, then_refresh}
use dlvpp.Session.Records.{IsRecorded, IsConsistent, then_refresh-IsRecorded}
use dlvpp.Cli.Marks.{BreakpointRecord, breakpoint_record_from_backend}
use dlvpp.Cli.Comments.{dedupe_breakpoint_specs}
use dlvpp.Cli.Startup.{
  Discovered, Started, cons_optional, with_created, on_discovery, create_discovered,
  create_bootstrap, break_and_run, start_launch_with_auto_breakpoints,
}

-- What a backend makes of specs that are created one after the other: the breakpoints it answers
-- with, and the specs that it refuses, with the errors, each in the order of the specs. A refused
-- spec does not end it.
pub data Creates {B : Type 0} (d : Backend B)
    : List BreakpointSpec
      → B
      → List (Option Breakpoint)
      → List (BreakpointSpec × Error)
      → B
      → Type 0 where
  finished : {b : B} → Creates d [] b [] [] b
  created :
      {spec : BreakpointSpec} {specs : List BreakpointSpec} {b b' b'' : B} {bp : Option Breakpoint}
      {bps : List (Option Breakpoint)} {skipped : List (BreakpointSpec × Error)}
      → d.create_breakpoint spec b ≡ (ok bp, b')
      → Creates d specs b' bps skipped b''
      → Creates d (spec ∷ specs) b (bp ∷ bps) skipped b''
  refused :
      {spec : BreakpointSpec} {specs : List BreakpointSpec} {b b' b'' : B} {e : Error}
      {bps : List (Option Breakpoint)} {skipped : List (BreakpointSpec × Error)}
      → d.create_breakpoint spec b ≡ (err e, b')
      → Creates d specs b' bps skipped b''
      → Creates d (spec ∷ specs) b bps ((spec, e) ∷ skipped) b''

-- The records of the breakpoints that have one, in their order.
abbrev pub records_of : (Bytes → Result GoFile) → List (Option Breakpoint) → List BreakpointRecord
records_of parse_file [] = []
records_of parse_file (bp ∷ bps) = elim (breakpoint_record_from_backend parse_file bp) [
  | none ↦ records_of parse_file bps
  | some r ↦ r ∷ records_of parse_file bps
]

cons_optional_lem :
    (r : Option BreakpointRecord) (xs ys : List BreakpointRecord)
    → xs ≡ ys
    → cons_optional r xs ≡ elim r as (λ x. List BreakpointRecord) [ none ↦ ys | some x ↦ x ∷ ys ]
cons_optional_lem none xs ys e = e
cons_optional_lem (some r) xs ys e = ap (λ rs. r ∷ rs) e

module _ {B : Type 0} (d : Backend B) (src : Sources) (parse_file : Bytes → Result GoFile) where
  -- What the loop over the discovered specs did, from a controller.
  pub record IsLoaded (specs : List BreakpointSpec) (c : Controller B)
      (loaded : List BreakpointRecord) (skipped : List (BreakpointSpec × Error)) : Type 0 where
    pub breakpoints : List (Option Breakpoint)
    pub after_them : B
    pub creates : Creates d specs c.backend breakpoints skipped after_them
    pub loads : loaded ≡ records_of parse_file breakpoints

  -- What is asked of a launch that succeeds.
  abbrev pub IsStarted :
      LaunchRequest
      → Result (List BreakpointSpec)
      → Controller B
      → Result Started × Controller B
      → Type 0
  IsStarted req discovery c (err e, c') = Unit
  IsStarted req discovery c (ok s, c') =
      (c'.last_snapshot ≡ some s.snapshot)
      × IsConsistent s.snapshot
      × ((specs : List BreakpointSpec) × (discovery ≡ ok specs)
          × IsLoaded specs (launch d src req c).1 s.loaded s.skipped)

  IsLoaded-on :
      (spec : BreakpointSpec) (specs : List BreakpointSpec) (c : Controller B)
      (r : Result (Option Breakpoint) × B) (found : Discovered)
      → d.create_breakpoint spec c.backend ≡ r
      → IsLoaded specs (record c { backend = r.1 }) found.records found.skipped
      → IsLoaded
          (spec ∷ specs)
          c
          (with_created d src parse_file spec r.0 found).records
          (with_created d src parse_file spec r.0 found).skipped
  IsLoaded-on spec specs c (err e, b) found same l = record {
    breakpoints = l.breakpoints;
    after_them = l.after_them;
    creates = refused same l.creates;
    loads = l.loads;
  }
  IsLoaded-on spec specs c (ok bp, b) found same l = record {
    breakpoints = bp ∷ l.breakpoints;
    after_them = l.after_them;
    creates = created same l.creates;
    loads =
        cons_optional_lem (breakpoint_record_from_backend parse_file bp) found.records _ l.loads;
  }

  create_discovered-IsLoaded :
      (specs : List BreakpointSpec) (c : Controller B)
      → IsLoaded specs c
          (create_discovered d src parse_file specs c).0.records
          (create_discovered d src parse_file specs c).0.skipped
  unfolding create_discovered on_backend
  create_discovered-IsLoaded [] c = record {
    breakpoints = [];
    after_them = c.backend;
    creates = finished;
    loads = refl;
  }
  create_discovered-IsLoaded (spec ∷ specs) c =
      let r = d.create_breakpoint spec c.backend in
      let c' : Controller B = record c { backend = r.1 } in
      IsLoaded-on spec specs c r (create_discovered d src parse_file specs c').0 refl
        (create_discovered-IsLoaded specs c')

  module _ (req : LaunchRequest) (discovery : Result (List BreakpointSpec))
      (c₀ : Controller B) where
    after_started :
        {A : Type 0} (r : Result A × Controller B) (f : A → Proc (Controller B) Started)
        → ((a : A) (c : Controller B) → r ≡ (ok a, c) → IsStarted req discovery c₀ (f a c))
        → IsStarted req discovery c₀ (after r f)
    after_started (ok a, c) f h = h a c refl
    after_started (err e, c) f h = tt

    break_and_run-IsStarted :
        (specs bootstrap : List BreakpointSpec) (c : Controller B)
        → discovery ≡ ok specs
        → c ≡ (launch d src req c₀).1
        → IsStarted req discovery c₀ (break_and_run d src parse_file specs bootstrap c)
    unfolding break_and_run
    break_and_run-IsStarted specs bootstrap c same at =
        after_started
          (create_bootstrap d src parse_file specs (dedupe_breakpoint_specs bootstrap)
            (create_discovered d src parse_file specs c).1)
          _
          (λ records c₁ e₁. after_started (then_refresh d src d.continue c₁) _ (λ snapshot c₂ e₂.
            let (last, consistent) =
              subst (IsRecorded c₁) e₂ (then_refresh-IsRecorded d src d.continue c₁) in
            (
              last,
              consistent,
              (
                specs,
                same,
                subst
                    (λ x.
                      IsLoaded specs x (create_discovered d src parse_file specs c).0.records
                        (create_discovered d src parse_file specs c).0.skipped)
                    at (create_discovered-IsLoaded specs c),
              ),
            )))

    discovered-IsStarted :
        (found : Result (List BreakpointSpec)) (bootstrap : List BreakpointSpec) (c : Controller B)
        → discovery ≡ found
        → c ≡ (launch d src req c₀).1
        → IsStarted req discovery c₀ (
            on_discovery found
              (λ specs. break_and_run d src parse_file specs bootstrap c)
              (λ e. (err e, c)))
    discovered-IsStarted (ok specs) bootstrap c same at =
        break_and_run-IsStarted specs bootstrap c same at
    discovered-IsStarted (err e) bootstrap c same at = tt

  -- A launch that succeeds ends with a consistent snapshot that the controller has recorded, and
  -- the discovery had succeeded. The specs it found were created one after the other on the backend
  -- as the launch left it: those that the backend refused, and no others, are reported as skipped
  -- with their errors, in their order, and the records of the breakpoints that it answered with for
  -- the others are reported as loaded, in their order.
  pub start_launch_with_auto_breakpoints-IsStarted :
      (req : LaunchRequest) (discovery : Result (List BreakpointSpec))
      (bootstrap : List BreakpointSpec) (c : Controller B)
      → IsStarted req discovery c
          (start_launch_with_auto_breakpoints d src parse_file req discovery bootstrap c)
  unfolding start_launch_with_auto_breakpoints
  start_launch_with_auto_breakpoints-IsStarted req discovery bootstrap c =
      after_started req discovery c (launch d src req c) _ (λ s c' e.
        discovered-IsStarted req discovery c discovery bootstrap c' refl
          (sym (ap (λ (r : Result Snapshot × Controller B). r.1) e)))
