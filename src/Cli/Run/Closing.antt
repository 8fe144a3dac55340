-- ===== src/Cli/Run/Closing.antt =====
-- cmd/dlvpp/main.go, session_run.go: what is left of a session when the program ends.
use dlvpp.Base.{◌≡◌, Bytes, List, [], ◌∷◌, codes, eqb, ◌||◌, if_has}
use dlvpp.Base.Fault.{Result, ok, err, is_error, help}
use dlvpp.Base.Proc.{Proc}
use dlvpp.Dap.Wire.{Codec}
use dlvpp.Dap.Client.{Client}
use dlvpp.Dap.Client.Session.{World}
use dlvpp.Dap.Client.Session.Ends.{IsIdle, IsClosed, close-IsClosed}
use dlvpp.Dap.Interface.{dap_backend}
use dlvpp.Cli.Args.{
  LaunchArgs, TestArgs, AttachArgs, parse_launch_args, parse_test_args, parse_attach_args,
}
use dlvpp.Cli.Run.{
  System, Process, close_session, with_controller, run_launch, run_test, run_attach,
}
use dlvpp.Cli.Run.Main.{on_arguments, launch_with, test_with, attach_with, run}

module _ (j : Codec) (w : World) (absolute : Bytes → Result Bytes) (sys : System Client)
    (h : sys.backend ≡ dap_backend j w absolute) where
  -- Neither the server process nor the connection is held.
  abbrev Ends : Result (Unit {0}) × Process Client → Type 0
  Ends r = IsIdle r.1.controller.backend

  closed-IsIdle : (b : Client) → IsIdle (sys.backend.close b).1
  closed-IsIdle b =
      let closed = close-IsClosed j b in rw h (IsClosed.conn closed, IsClosed.cmd closed)

  launch_with-Ends : (a : LaunchArgs) (p : Process Client) → Ends (launch_with sys a p)
  unfolding launch_with run_launch with_controller close_session
  launch_with-Ends a p = closed-IsIdle _

  test_with-Ends : (a : TestArgs) (p : Process Client) → Ends (test_with sys a p)
  unfolding test_with run_test with_controller close_session
  test_with-Ends a p = closed-IsIdle _

  attach_with-Ends : (a : AttachArgs) (p : Process Client) → Ends (attach_with sys a p)
  unfolding attach_with run_attach with_controller close_session
  attach_with-Ends a p = closed-IsIdle _

  on_arguments-Ends :
      {A : Type 0} (act : A → Proc (Process Client) Unit) (r : Result A) (p : Process Client)
      → ((a : A) → Ends (act a p))
      → IsIdle p.controller.backend
      → Ends (on_arguments sys act r p)
  unfolding on_arguments
  on_arguments-Ends act (ok a) p k idle = k a
  on_arguments-Ends act (err e) p k idle = if_has Ends (is_error e help) (λ _. idle) (λ _. idle)

  -- Over the DAP client, a run of the program that starts without a session ends without one, whatever
  -- the arguments, the adapter and the input are: no server process and no connection is held.
  pub run-IsIdle :
      (args : List Bytes) (p : Process Client)
      → IsIdle p.controller.backend
      → IsIdle (run sys args p).1.controller.backend
  unfolding run
  run-IsIdle [] p idle = idle
  run-IsIdle (command ∷ args) p idle =
      if_has Ends (eqb command (codes "version")) (λ _. idle)
        (λ _.
          if_has Ends (eqb command (codes "launch"))
            (λ _.
              on_arguments-Ends (launch_with sys) (parse_launch_args sys.parse_flags args) p
                (λ a. launch_with-Ends a p) idle)
            (λ _.
              if_has Ends (eqb command (codes "test"))
                (λ _.
                  on_arguments-Ends (test_with sys) (parse_test_args sys.parse_flags args) p
                    (λ a. test_with-Ends a p) idle)
                (λ _.
                  if_has Ends (eqb command (codes "attach"))
                    (λ _.
                      on_arguments-Ends (attach_with sys)
                        (parse_attach_args sys.parse_flags sys.env.quote args) p
                        (λ a. attach_with-Ends a p) idle)
                    (λ _.
                      if_has Ends
                        (eqb command (codes "help")
                          || (eqb command (codes "-h") || eqb command (codes "--help")))
                        (λ _. idle) (λ _. idle)))))
