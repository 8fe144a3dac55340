-- ===== src/Session.antt =====
-- internal/session/controller.go: the controller over a debugger backend and its snapshots. The
-- contexts are left out: a cancellation is an error that the backend returns.
pub mod Records
pub mod Bootstrap
pub mod Format
use dlvpp.Base.{
  Bytes, Bool, true, false, List, [], ◌∷◌, ◌++◌, Option, none, some, codes, ◌||◌, if◌then◌else◌,
}
use dlvpp.Base.Int.{ℤ, pos, is_positive}
use dlvpp.Base.Fault.{Error, sentinel, wrapped, joined, Result, ok, err, unknown_action, wrap_error}
use dlvpp.Base.Proc.{Proc, after, recover, fail, ◌>>=◌, ◌>>◌}
use dlvpp.Backend.{
  Backend, LaunchRequest, AttachRequest, StopState, Frame, SourceLocation, Breakpoint,
  BreakpointSpec,
}
use dlvpp.Sourceview.{Sources, render_window}

pub data Action : Type 0 where
  continue next step_in step_out pause : Action
  -- A string that is none of the constants.
  other : Bytes → Action

pub record Snapshot : Type 0 where
  pub state : StopState
  pub frame : Option Frame
  pub stack_error : Option Error
  pub source : Bytes
  pub source_error : Option Error

pub record StartResult : Type 0 where
  pub breakpoint : Option Breakpoint
  pub snapshot : Snapshot

-- `Controller`; the backend is its state.
pub record Controller (B : Type 0) : Type 0 where
  pub backend : B
  pub source_context_lines : ℤ
  pub last_snapshot : Option Snapshot

-- `New`, with `opts.SourceContextLines`.
unfoldable pub new : {B : Type 0} → B → ℤ → Controller B
new b lines = record {
  backend = b;
  source_context_lines = if is_positive lines then lines else pos 5;
  last_snapshot = none;
}

unfoldable pub bare : StopState → Snapshot
bare st = record { state = st; frame = none; stack_error = none; source = []; source_error = none }

-- The end of `refreshSnapshot`, given what `RenderWindow` returns.
unfoldable pub with_frame : StopState → Frame → Result Bytes → Snapshot
with_frame st f (ok rendered) = record {
  state = record st { current = f.location; current_frame = f.ref };
  frame = some f;
  stack_error = none;
  source = rendered;
  source_error = none;
}
with_frame st f (err e) = record {
  state = record st { current = f.location; current_frame = f.ref };
  frame = some f;
  stack_error = none;
  source = [];
  source_error = some e;
}

-- The same from the call of `Stack`.
unfoldable pub with_stack : Sources → ℤ → StopState → Result (List Frame) → Snapshot
unfolding bare with_frame
with_stack src context st (err e) = record (bare st) {
  stack_error = some (wrap_error (codes "stack: ") e);
}
with_stack src context st (ok []) = bare st
with_stack src context st (ok (f ∷ fs)) =
    with_frame st f (render_window src f.location.file f.location.line context [])

module _ {B : Type 0} where
  -- A call of the backend's method.
  unfoldable pub on_backend : {A : Type 0} → Proc B A → Proc (Controller B) A
  on_backend m c = let r = m c.backend in (r.0, record c { backend = r.1 })

  -- `c.lastSnapshot = snapshot; return snapshot, nil`.
  unfoldable pub keep : Snapshot → Proc (Controller B) Snapshot
  keep s c = (ok s, record c { last_snapshot = some s })

module _ {B : Type 0} (d : Backend B) (src : Sources) where
  unfoldable pub snapshot_of : StopState → Proc (Controller B) Snapshot
  unfolding keep with_stack bare
  snapshot_of st c =
      if st.running || st.exited
      then keep (bare st) c
      else let (frames, b) = d.stack st.thread_id (pos 1) c.backend in
        keep (with_stack src c.source_context_lines st frames) (record c { backend = b })

  -- `refreshSnapshot`, which `Snapshot` calls.
  unfoldable pub refresh_snapshot : Proc (Controller B) Snapshot
  unfolding on_backend snapshot_of
  refresh_snapshot c = after (on_backend d.state c) snapshot_of

  unfoldable pub join_closed : Error → Result (Unit {0}) → Error
  join_closed e (ok u) = e
  join_closed e (err e') = joined e e'

  -- `return nil, c.closeOnBootstrapError(err)`.
  unfoldable pub close_on_bootstrap_error : {A : Type 0} → Error → Proc (Controller B) A
  unfolding join_closed
  close_on_bootstrap_error e c =
      let r = d.close c.backend in (err (join_closed e r.0), record c { backend = r.1 })

  -- `refreshSnapshotOrClose`.
  unfoldable pub refresh_snapshot_or_close : Proc (Controller B) Snapshot
  unfolding refresh_snapshot close_on_bootstrap_error
  refresh_snapshot_or_close c = recover (refresh_snapshot c) close_on_bootstrap_error

  -- `Launch` and `Attach`.
  unfoldable pub launch : LaunchRequest → Proc (Controller B) Snapshot
  unfolding on_backend refresh_snapshot_or_close
  launch req c = after (on_backend (d.launch req) c) (λ _. refresh_snapshot_or_close)

  unfoldable pub attach : AttachRequest → Proc (Controller B) Snapshot
  unfolding on_backend refresh_snapshot_or_close
  attach req c = after (on_backend (d.attach req) c) (λ _. refresh_snapshot_or_close)

  unfoldable pub then_refresh : Proc B StopState → Proc (Controller B) Snapshot
  unfolding on_backend refresh_snapshot
  then_refresh m c = after (on_backend m c) (λ _. refresh_snapshot)

  -- `Do`, with `Continue`, `Next`, `StepIn`, `StepOut` and `Pause`; `quote` is the verb `%q`.
  unfoldable pub do_action : (Bytes → Bytes) → Action → Proc (Controller B) Snapshot
  unfolding then_refresh
  do_action quote continue = then_refresh d.continue
  do_action quote next = then_refresh d.next
  do_action quote step_in = then_refresh d.step_in
  do_action quote step_out = then_refresh d.step_out
  do_action quote pause = then_refresh d.pause
  do_action quote (other name) =
      fail (wrapped [] (sentinel unknown_action) (codes ": " ++ quote name))

  -- The steps of `StartLaunchSession` after `Launch`.
  unfoldable pub continued : Option Breakpoint → Proc (Controller B) StartResult
  unfolding then_refresh close_on_bootstrap_error
  continued bp c =
      after (recover (then_refresh d.continue c) close_on_bootstrap_error)
        (λ s c'. (ok (record { breakpoint = bp; snapshot = s }), c'))

  unfoldable pub break_and_continue : BreakpointSpec → Proc (Controller B) StartResult
  unfolding continued on_backend close_on_bootstrap_error
  break_and_continue spec c =
      after (recover (on_backend (d.create_breakpoint spec) c) close_on_bootstrap_error) continued

  -- `StartLaunchSession`.
  unfoldable pub start_launch_session :
      LaunchRequest → BreakpointSpec → Proc (Controller B) StartResult
  unfolding launch break_and_continue
  start_launch_session req spec c = after (launch req c) (λ _. break_and_continue spec)

  -- `StartAttachSession`.
  unfoldable pub start_attach_session : AttachRequest → Proc (Controller B) StartResult
  unfolding attach
  start_attach_session req c =
      after (attach req c) (λ s c'. (ok (record { breakpoint = none; snapshot = s }), c'))
