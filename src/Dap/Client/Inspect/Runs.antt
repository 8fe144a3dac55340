-- ===== src/Dap/Client/Inspect/Runs.antt =====
-- internal/backend/dap/client.go: what a thread action returns.
use dlvpp.Base.{List, ◌≡◌, ap, Bytes, true, false, Option, none, some, codes, arith}
use mathlib.Core.Path.{subst}
use dlvpp.Base.Int.{ℤ}
use dlvpp.Base.Fault.{Result, ok, err}
use dlvpp.Base.Proc.{after_ok}
use dlvpp.Backend.{StopState}
use dlvpp.Dap.Wire.{Json, number, object, end, field, Codec}
use dlvpp.Dap.Client.{Client, Conn, TrackedBreakpoint, require_conn}
use dlvpp.Dap.Client.Events.Keeps.{Tracks}
use dlvpp.Dap.Client.Requests.{request_locked, wait_for_stop, stopped}
use dlvpp.Dap.Client.Requests.Answers.{wait_for_stop-stopped}
use dlvpp.Dap.Client.Inspect.{
  begin_thread_action, begin_with, state, state_with, stored_state, run_thread_action,
}

abbrev thread_arguments : ℤ → Json
thread_arguments thread = object (field (codes "threadId") (number thread) end)

stopped_state : (o : Option StopState) (s : StopState) → stored_state o ≡ ok s → (o ≡ some s)
stopped_state none s h = cc
stopped_state (some t) s h = cc

state_with-ok :
    (k : Result Conn) (c c' : Client) (s : StopState)
    → state_with k c ≡ (ok s, c')
    → (c.stop_state ≡ some s) × (c ≡ c')
unfolding state_with
state_with-ok (err e) c c' s h = cc
state_with-ok (ok k) c c' s h = (
  stopped_state c.stop_state s (ap (λ (r : Result StopState × Client). r.0) h),
  ap (λ (r : Result StopState × Client). r.1) h,
)

-- A successful read of the state returns the state that the client holds, and changes nothing.
pub state-ok :
    (c c' : Client) (s : StopState) → state c ≡ (ok s, c') → (c.stop_state ≡ some s) × (c ≡ c')
unfolding state
state-ok c c' s h = state_with-ok (require_conn c) c c' s h

stopped-some :
    (c : Client) (s : StopState) → c.stop_state ≡ some s → stopped c ≡ true → s.running ≡ false
unfolding stopped
stopped-some c s e h = ground arith

-- A thread action that succeeds returns the state that the client holds, and the target is stopped
-- in it: it may have exited, but it is not running.
pub run_thread_action_stops :
    (j : Codec) (command : Bytes) (c c' : Client) (s : StopState)
    → run_thread_action j command c ≡ (ok s, c')
    → (s.running ≡ false) × (c'.stop_state ≡ some s)
unfolding run_thread_action
run_thread_action_stops j command c c' s h =
    let (thread, c₁, e₁, h₁) = after_ok (begin_thread_action c) _ h in
    let (msg, c₂, e₂, h₂) = after_ok (request_locked j command (thread_arguments thread) c₁) _ h₁ in
    let (u, c₃, e₃, h₃) = after_ok (wait_for_stop j c₂) _ h₂ in
    let (held, same) = state-ok c₃ c' s h₃ in
    (
      stopped-some c₃ s held (wait_for_stop-stopped j c₂ c₃ u e₃),
      subst (λ (d : Client). d.stop_state ≡ some s) same held,
    )

begin_with-Tracks :
    (files : List (Bytes × List TrackedBreakpoint)) (functions : List TrackedBreakpoint)
    (k : Result Conn) (c : Client)
    → Tracks files functions c
    → Tracks files functions (begin_with k c).1
unfolding begin_with
begin_with-Tracks files functions (err e) c h = h
begin_with-Tracks files functions (ok k) c h = h
