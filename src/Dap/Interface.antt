-- ===== src/Dap/Interface.antt =====
-- internal/backend/dap/client.go, internal/session/controller.go: the client as the backend of a
-- controller.
use dlvpp.Base.{ap, Bytes}
use dlvpp.Base.Fault.{Result}
use dlvpp.Backend.{Backend, LaunchRequest, BreakpointSpec}
use dlvpp.Dap.Wire.{Codec}
use dlvpp.Dap.Client.{Client}
use dlvpp.Dap.Client.Inspect
use dlvpp.Dap.Client.Session.{World}
use dlvpp.Dap.Client.Session.Ends.{IsIdle, IsClosed, close-IsClosed, launch_fails-IsIdle}
use dlvpp.Dap.Breakpoints.{breakpoints}
use dlvpp.Dap.Breakpoints.Changes.{create_breakpoint, clear_breakpoint}
use dlvpp.Sourceview.{Sources}
use dlvpp.Session.{Controller, start_launch_session}
use dlvpp.Session.Bootstrap.{FailsWith, start_launch_session_fails}

module _ (j : Codec) (w : World) (absolute : Bytes → Result Bytes) where
  -- `*Client` as a `backend.Backend`; `absolute` is filepath.Abs.
  abbrev pub dap_backend : Backend Client
  dap_backend = record {
    launch = dlvpp.Dap.Client.Session.launch j w;
    attach = dlvpp.Dap.Client.Session.attach j w;
    close = dlvpp.Dap.Client.Session.close j;
    continue = dlvpp.Dap.Client.Inspect.continue j;
    next = dlvpp.Dap.Client.Inspect.next j;
    step_in = dlvpp.Dap.Client.Inspect.step_in j;
    step_out = dlvpp.Dap.Client.Inspect.step_out;
    pause = dlvpp.Dap.Client.Inspect.pause;
    state = dlvpp.Dap.Client.Inspect.state;
    stack = dlvpp.Dap.Client.Inspect.stack j;
    locals = dlvpp.Dap.Client.Inspect.locals j;
    children = dlvpp.Dap.Client.Inspect.children j;
    output = dlvpp.Dap.Client.Inspect.output;
    eval = dlvpp.Dap.Client.Inspect.eval j;
    create_breakpoint = create_breakpoint j absolute;
    breakpoints = breakpoints;
    clear_breakpoint = clear_breakpoint j;
  }

  -- A launch session over the adapter that does not start, at whichever step, holds neither the
  -- server process nor the connection afterwards.
  pub start_launch_session_fails-IsIdle :
      (src : Sources) (req : LaunchRequest) (spec : BreakpointSpec) (c : Controller Client)
      → IsIdle c.backend
      → FailsWith IsIdle (start_launch_session dap_backend src req spec c)
  start_launch_session_fails-IsIdle src req spec c idle =
      start_launch_session_fails IsIdle dap_backend src
        (λ b. (IsClosed.conn (close-IsClosed j b), IsClosed.cmd (close-IsClosed j b))) req spec c
        (λ e h.
          launch_fails-IsIdle j w req c.backend _ e idle
            (ap (λ (r : Result (Unit {0})). (r, (dap_backend.launch req c.backend).1)) h))
