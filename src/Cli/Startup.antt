-- ===== src/Cli/Startup.antt =====
-- cmd/dlvpp/session_run.go: a launch with the breakpoints that comments ask for. The discovery
-- runs beside the launch and only reads the sources: its result is given.
pub mod Skipping
use dlvpp.Base.{
  Bytes, Bool, true, false, List, [], ◌∷◌, ◌++◌, Option, none, some, codes, eqb, is_empty,
  if◌then◌else◌,
}
use dlvpp.Base.Fault.{Error, Result, ok, err, wrap_error}
use dlvpp.Base.Proc.{Proc, after, lift, fail}
use dlvpp.Backend.{Backend, LaunchRequest, Breakpoint, BreakpointSpec}
use dlvpp.Sourceview.{Sources}
use dlvpp.Sourceview.Enclosing.{GoFile}
use dlvpp.Session.{Controller, Snapshot, on_backend, launch, then_refresh}
use dlvpp.Cli.Comments.{dedupe_breakpoint_specs}
use dlvpp.Cli.Marks.{BreakpointRecord, breakpoint_record_from_backend}

-- What the loop over the discovered specs adds to: their records, and the specs it skipped with
-- their errors, from which the report's lines are written.
pub record Discovered : Type 0 where
  pub records : List BreakpointRecord
  pub skipped : List (BreakpointSpec × Error)

pub record Started : Type 0 where
  pub snapshot : Snapshot
  pub records : List BreakpointRecord
  pub loaded : List BreakpointRecord
  pub skipped : List (BreakpointSpec × Error)

abbrev pub cons_optional : {A : Type 0} → Option A → List A → List A
cons_optional none xs = xs
cons_optional (some x) xs = x ∷ xs

-- `_, ok := discoveredLocations[spec.Location]`.
unfoldable pub has_location : List BreakpointSpec → Bytes → Bool
has_location [] location = false
has_location (s ∷ specs) location =
    if eqb s.location location then true else has_location specs location

abbrev on_discovery :
    {A : Type 0} → Result (List BreakpointSpec) → (List BreakpointSpec → A) → (Error → A) → A
on_discovery (ok specs) f g = f specs
on_discovery (err e) f g = g (wrap_error (codes "discover comment breakpoints: ") e)

module _ {B : Type 0} (d : Backend B) (src : Sources) (parse_file : Bytes → Result GoFile) where
  abbrev pub added : Option Breakpoint → List BreakpointRecord → List BreakpointRecord
  added bp records = cons_optional (breakpoint_record_from_backend parse_file bp) records

  abbrev pub with_created : BreakpointSpec → Result (Option Breakpoint) → Discovered → Discovered
  with_created spec (ok bp) found = record found { records = added bp found.records }
  with_created spec (err e) found = record found { skipped = (spec, e) ∷ found.skipped }

  -- The loop over `discovered.specs`: an error skips the spec.
  unfoldable pub create_discovered : List BreakpointSpec → Controller B → Discovered × Controller B
  unfolding on_backend
  create_discovered [] c = (record { records = []; skipped = [] }, c)
  create_discovered (spec ∷ specs) c =
      let r = on_backend (d.create_breakpoint spec) c in
      let rest = create_discovered specs r.1 in (with_created spec r.0 rest.0, rest.1)

  abbrev and_record :
      Option Breakpoint
      → Result (List BreakpointRecord) × Controller B
      → Result (List BreakpointRecord) × Controller B
  and_record bp (ok records, c) = (ok (added bp records), c)
  and_record bp (err e, c) = (err e, c)

  -- The loop over the bootstrap specs: an error ends it.
  unfoldable pub create_bootstrap :
      List BreakpointSpec → List BreakpointSpec → Proc (Controller B) (List BreakpointRecord)
  unfolding on_backend has_location
  create_bootstrap discovered [] c = (ok [], c)
  create_bootstrap discovered (spec ∷ specs) c =
      if has_location discovered spec.location
      then create_bootstrap discovered specs c
      else after (on_backend (d.create_breakpoint spec) c)
          (λ bp c'. and_record bp (create_bootstrap discovered specs c'))

  unfoldable pub break_and_run :
      List BreakpointSpec → List BreakpointSpec → Proc (Controller B) Started
  unfolding create_discovered create_bootstrap then_refresh
  break_and_run discovered bootstrap c =
      let found = create_discovered discovered c in
      after (create_bootstrap discovered (dedupe_breakpoint_specs bootstrap) found.1) (λ records c₁.
        after (then_refresh d src d.continue c₁) (λ snapshot c₂. (
          ok (record {
            snapshot = snapshot;
            records = found.0.records ++ records;
            loaded = found.0.records;
            skipped = found.0.skipped;
          }),
          c₂,
        )))

  -- `startLaunchWithAutoBreakpoints`, but for the durations and the log.
  unfoldable pub start_launch_with_auto_breakpoints :
      LaunchRequest
      → Result (List BreakpointSpec)
      → List BreakpointSpec
      → Proc (Controller B) Started
  unfolding break_and_run
  start_launch_with_auto_breakpoints req discovery bootstrap c = after (launch d src req c) (λ _ c'.
      on_discovery discovery (λ specs. break_and_run specs bootstrap c') (λ e. (err e, c')))
