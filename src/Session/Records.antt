-- ===== src/Session/Records.antt =====
-- internal/session/controller.go: what the operations record as the last snapshot.
use dlvpp.Base.{
  ◌≡◌, refl, Bytes, false, List, [], ◌∷◌, none, some, ◌||◌, Bool-cases, inl, inr, arith,
}
use dlvpp.Base.Int.{ℤ, pos}
use dlvpp.Base.Fault.{Error, Result, ok, err}
use dlvpp.Base.Proc.{Proc, after, recover}
use dlvpp.Backend.{Backend, LaunchRequest, StopState, Frame}
use dlvpp.Sourceview.{Sources, render_window}
use dlvpp.Session.{
  Controller, Snapshot, Action, other, continue, next, step_in, step_out, pause, bare, with_frame,
  with_stack, on_backend, keep, snapshot_of, refresh_snapshot, refresh_snapshot_or_close,
  close_on_bootstrap_error, launch, then_refresh, do_action,
}

-- What a snapshot shows agrees with the state it was taken at: a frame is the current one of a
-- stopped target, and the source and the errors go with it.
pub record IsConsistent (s : Snapshot) : Type 0 where
  pub at_frame :
      (f : Frame)
      → s.frame ≡ some f
      → (s.state.running ≡ false)
        × (s.state.exited ≡ false)
        × (s.state.current ≡ f.location)
        × (s.state.current_frame ≡ f.ref)
  pub no_frame : s.frame ≡ none → (s.source ≡ []) × (s.source_error ≡ none)
  pub stack_fault : (e : Error) → s.stack_error ≡ some e → s.frame ≡ none
  pub source_fault : (e : Error) → s.source_error ≡ some e → s.source ≡ []

module _ {B : Type 0} where
  -- What is asked of an operation from the first controller to its result and the second one.
  abbrev pub IsRecorded : Controller B → Result Snapshot × Controller B → Type 0
  IsRecorded c (ok s, c') = (c'.last_snapshot ≡ some s) × IsConsistent s
  IsRecorded c (err e, c') = c'.last_snapshot ≡ c.last_snapshot

bare-IsConsistent : (st : StopState) → IsConsistent (bare st)
unfolding bare
bare-IsConsistent st = record {
  at_frame = λ f h. cc;
  no_frame = λ h. (refl, refl);
  stack_fault = λ e h. cc;
  source_fault = λ e h. cc;
}

with_frame-IsConsistent :
    (st : StopState) (f : Frame) (r : Result Bytes)
    → st.running ≡ false
    → st.exited ≡ false
    → IsConsistent (with_frame st f r)
unfolding with_frame
with_frame-IsConsistent st f (ok rendered) p q = record {
  at_frame = λ g h. (p, q, cc, cc);
  no_frame = λ h. cc;
  stack_fault = λ e h. cc;
  source_fault = λ e h. cc;
}
with_frame-IsConsistent st f (err e₁) p q = record {
  at_frame = λ g h. (p, q, cc, cc);
  no_frame = λ h. cc;
  stack_fault = λ e h. cc;
  source_fault = λ e h. refl;
}

with_stack-IsConsistent :
    (src : Sources) (context : ℤ) (st : StopState) (r : Result (List Frame))
    → st.running ≡ false
    → st.exited ≡ false
    → IsConsistent (with_stack src context st r)
unfolding with_stack bare
with_stack-IsConsistent src context st (err e₁) p q = record {
  at_frame = λ f h. cc;
  no_frame = λ h. (refl, refl);
  stack_fault = λ e h. refl;
  source_fault = λ e h. cc;
}
with_stack-IsConsistent src context st (ok []) p q = bare-IsConsistent st
with_stack-IsConsistent src context st (ok (f ∷ fs)) p q =
    with_frame-IsConsistent st f (render_window src f.location.file f.location.line context []) p q

module _ {B : Type 0} (d : Backend B) (src : Sources) where
  snapshot_of-IsRecorded :
      (st : StopState) (c : Controller B) → IsRecorded c (snapshot_of d src st c)
  unfolding snapshot_of keep
  snapshot_of-IsRecorded st c = elim (Bool-cases (st.running || st.exited)) [
    | inl e ↦ rw e (refl, bare-IsConsistent st)
    | inr e ↦ rw e (
      refl,
      with_stack-IsConsistent src c.source_context_lines st
          (d.stack st.thread_id (pos 1) c.backend).0 (ground arith) (ground arith),
    )
  ]

  after_call :
      {A : Type 0} (r : Result A × B) (c : Controller B) (f : A → Proc (Controller B) Snapshot)
      → ((a : A) (c' : Controller B) → IsRecorded c' (f a c'))
      → IsRecorded c (after (r.0, record c { backend = r.1 }) f)
  after_call (ok a, b) c f h = h a (record c { backend = b })
  after_call (err e, b) c f h = refl

  refresh_snapshot-IsRecorded : (c : Controller B) → IsRecorded c (refresh_snapshot d src c)
  unfolding refresh_snapshot on_backend
  refresh_snapshot-IsRecorded c =
      after_call (d.state c.backend) c (snapshot_of d src) snapshot_of-IsRecorded

  or_close-IsRecorded :
      (c : Controller B) (r : Result Snapshot × Controller B)
      → IsRecorded c r
      → IsRecorded c (recover r (close_on_bootstrap_error d src))
  unfolding close_on_bootstrap_error
  or_close-IsRecorded c (ok s, c') h = h
  or_close-IsRecorded c (err e, c') h = h

  refresh_snapshot_or_close-IsRecorded :
      (c : Controller B) → IsRecorded c (refresh_snapshot_or_close d src c)
  unfolding refresh_snapshot_or_close
  refresh_snapshot_or_close-IsRecorded c =
      or_close-IsRecorded c (refresh_snapshot d src c) (refresh_snapshot-IsRecorded c)

  -- Launching returns a consistent snapshot and records it as the last one, or returns an error
  -- and leaves the last one.
  pub launch-IsRecorded :
      (req : LaunchRequest) (c : Controller B) → IsRecorded c (launch d src req c)
  unfolding launch on_backend
  launch-IsRecorded req c =
      after_call (d.launch req c.backend) c (λ _. refresh_snapshot_or_close d src)
        (λ _. refresh_snapshot_or_close-IsRecorded)

  pub then_refresh-IsRecorded :
      (m : Proc B StopState) (c : Controller B) → IsRecorded c (then_refresh d src m c)
  unfolding then_refresh on_backend
  then_refresh-IsRecorded m c =
      after_call (m c.backend) c (λ _. refresh_snapshot d src) (λ _. refresh_snapshot-IsRecorded)

  -- Every action, also an unknown one, returns a consistent snapshot and records it as the last
  -- one, or returns an error and leaves the last one.
  pub do_action-IsRecorded :
      (quote : Bytes → Bytes) (action : Action) (c : Controller B)
      → IsRecorded c (do_action d src quote action c)
  unfolding do_action
  do_action-IsRecorded quote continue c = then_refresh-IsRecorded d.continue c
  do_action-IsRecorded quote next c = then_refresh-IsRecorded d.next c
  do_action-IsRecorded quote step_in c = then_refresh-IsRecorded d.step_in c
  do_action-IsRecorded quote step_out c = then_refresh-IsRecorded d.step_out c
  do_action-IsRecorded quote pause c = then_refresh-IsRecorded d.pause c
  do_action-IsRecorded quote (other name) c = refl
