-- ===== src/Dap/Client/Inspect/Keeps.antt =====
-- internal/backend/dap/client.go: what a whole thread action keeps of the client.
use dlvpp.Base.{refl}
use dlvpp.Base.Fault.{Result, ok, err}
use dlvpp.Base.Proc.{after_keeps}
use dlvpp.Dap.Wire.{Codec}
use dlvpp.Base.{Bytes}
use dlvpp.Dap.Client.{Client, Conn, require_conn}
use dlvpp.Dap.Client.Events.Keeps.{IsValid}
use dlvpp.Dap.Client.Requests.{request_locked, wait_for_stop}
use dlvpp.Dap.Client.Requests.Keeps.{request_locked_keeps, wait_for_stop_keeps, IsKept-IsValid}
use dlvpp.Dap.Client.Inspect.{begin_thread_action, begin_with, state, state_with, run_thread_action}

begin_with-IsValid : (k : Result Conn) (c : Client) → IsValid c → IsValid (begin_with k c).1
unfolding begin_with
begin_with-IsValid (err e) c v = v
begin_with-IsValid (ok k) c v = record {
  coherent = refl;
  bounded = v.bounded;
  printable = v.printable;
}

state_with-IsValid : (k : Result Conn) (c : Client) → IsValid c → IsValid (state_with k c).1
unfolding state_with
state_with-IsValid (err e) c v = v
state_with-IsValid (ok k) c v = v

-- A whole thread action, with every event that arrives while it waits, and whether or not it
-- succeeds, keeps the client's state coherent and its captured output bounded and printable.
pub run_thread_action-IsValid :
    (j : Codec) (command : Bytes) (c : Client)
    → IsValid c
    → IsValid (run_thread_action j command c).1
unfolding run_thread_action begin_thread_action state
run_thread_action-IsValid j command c v =
    after_keeps IsValid (begin_thread_action c) _ (begin_with-IsValid (require_conn c) c v)
      (λ thread c₁ v₁.
        after_keeps IsValid (request_locked j command _ c₁) _
          (request_locked_keeps j (IsKept-IsValid j) command _ c₁ v₁)
          (λ msg c₂ v₂.
            after_keeps IsValid (wait_for_stop j c₂) _
              (wait_for_stop_keeps j (IsKept-IsValid j) c₂ v₂)
              (λ u c₃ v₃. state_with-IsValid (require_conn c₃) c₃ v₃)))
