-- ===== src/Session/Bootstrap.antt =====
-- internal/session/controller.go: what a session that does not start leaves of the backend.
use dlvpp.Base.{◌≡◌, refl, Option}
use dlvpp.Base.Fault.{Error, Result, ok, err}
use dlvpp.Base.Proc.{Proc, after, recover}
use dlvpp.Backend.{Backend, LaunchRequest, Breakpoint, BreakpointSpec}
use dlvpp.Sourceview.{Sources}
use dlvpp.Session.{
  Controller, Snapshot, on_backend, refresh_snapshot, refresh_snapshot_or_close,
  close_on_bootstrap_error, launch, then_refresh, break_and_continue, continued,
  start_launch_session,
}

-- `P` of the backend's state where the result is an error.
abbrev pub FailsWith : {A B : Type 0} → (B → Type 0) → Result A × Controller B → Type 0
FailsWith P (ok a, c) = Unit
FailsWith P (err e, c) = P c.backend

module _ {B : Type 0} (P : B → Type 0) where
  -- An error of the first part gives `P`, and so does one of the second part.
  after_fails :
      {A A' : Type 0} (r : Result A × Controller B) (f : A → Proc (Controller B) A')
      → FailsWith P r
      → ((a : A) (c : Controller B) → FailsWith P (f a c))
      → FailsWith P (after r f)
  after_fails (ok a, c) f h k = k a c
  after_fails (err e, c) f h k = h

  recover_fails :
      {A : Type 0} (r : Result A × Controller B) (f : Error → Proc (Controller B) A)
      → ((e : Error) (c : Controller B) → FailsWith P (f e c))
      → FailsWith P (recover r f)
  recover_fails (ok a, c) f h = tt
  recover_fails (err e, c) f h = h e c

  -- Recording the result of a call of the backend.
  call_fails :
      {A : Type 0} (m : Result A × B) (c : Controller B)
      → ((e : Error) → m.0 ≡ err e → P m.1)
      → FailsWith P (m.0, record c { backend = m.1 })
  call_fails (ok a, b) c h = tt
  call_fails (err e, b) c h = h e refl

  module _ (d : Backend B) (src : Sources) (closes : (b : B) → P (d.close b).1) where
    close_on_bootstrap_error_fails :
        (A : Type 0) (e : Error) (c : Controller B)
        → FailsWith {A = A} P (close_on_bootstrap_error d src e c)
    unfolding close_on_bootstrap_error
    close_on_bootstrap_error_fails A e c = closes c.backend

    launch_fails :
        (req : LaunchRequest) (c : Controller B)
        → ((e : Error) → (d.launch req c.backend).0 ≡ err e → P (d.launch req c.backend).1)
        → FailsWith P (launch d src req c)
    unfolding launch on_backend refresh_snapshot_or_close
    launch_fails req c h =
        after_fails (on_backend (d.launch req) c) (λ _. refresh_snapshot_or_close d src)
          (call_fails (d.launch req c.backend) c h)
          (λ _ c'.
            recover_fails (refresh_snapshot d src c') (close_on_bootstrap_error d src)
              (close_on_bootstrap_error_fails Snapshot))

    continued_fails :
        (bp : Option Breakpoint) (c : Controller B) → FailsWith P (continued d src bp c)
    unfolding continued
    continued_fails bp c =
        after_fails (recover (then_refresh d src d.continue c) (close_on_bootstrap_error d src)) _
          (recover_fails (then_refresh d src d.continue c) (close_on_bootstrap_error d src)
            (close_on_bootstrap_error_fails Snapshot))
          (λ s c'. tt)

    -- Where closing the backend always reaches `P`, and so does a launch that fails, a session
    -- that does not start reaches `P`, whichever of its steps fails.
    pub start_launch_session_fails :
        (req : LaunchRequest) (spec : BreakpointSpec) (c : Controller B)
        → ((e : Error) → (d.launch req c.backend).0 ≡ err e → P (d.launch req c.backend).1)
        → FailsWith P (start_launch_session d src req spec c)
    unfolding start_launch_session break_and_continue
    start_launch_session_fails req spec c h =
        after_fails (launch d src req c) (λ _. break_and_continue d src spec) (launch_fails req c h)
          (λ s c'.
            after_fails
              (recover (on_backend (d.create_breakpoint spec) c') (close_on_bootstrap_error d src))
              (continued d src)
              (recover_fails (on_backend (d.create_breakpoint spec) c')
                (close_on_bootstrap_error d src)
                (close_on_bootstrap_error_fails (Option Breakpoint)))
              continued_fails)
