-- ===== src/Dap/Client/Session/Ends.antt =====
-- internal/backend/dap/client.go: what a session leaves behind when it ends or does not start.
use dlvpp.Base.{
  ◌≡◌, refl, ap, ◌∙◌, sym, Bytes, Bool, true, false, [], none, codes, arith, is_empty, Bool-cases,
  inl, inr,
}
use mathlib.Core.Path.{subst}
use dlvpp.Base.Int.{pos}
use dlvpp.Base.Fault.{Error, Result, ok, err}
use dlvpp.Base.Proc.{Proc, after, recover, after_ok}
use dlvpp.Backend.{LaunchRequest}
use dlvpp.Dap.Wire.{Json, null, Codec}
use dlvpp.Dap.Client.{Client, Conn, Process}
use dlvpp.Dap.Client.Requests.{request_locked, stopped}
use dlvpp.Dap.Client.Requests.Answers.{wait_for_stop-stopped}
use dlvpp.Dap.Client.Session.{
  World, is_started, connected_to, spawned, reserved, located, start, close, reset, close_and_fail,
  handshake, open_session, initialize_arguments, dial_first, reserve_tcp_addr, launch,
  launch_arguments,
}

-- The client has forgotten the connection, the process and the session. What the process wrote to
-- its outputs, and whether the debuggee is to be terminated, are not looked at.
pub record IsClosed (c : Client) : Type 0 where
  pub cmd : c.cmd ≡ none
  pub cancel : c.cancel ≡ false
  pub conn : c.conn ≡ none
  pub seq : c.seq ≡ pos 0
  pub server_addr : c.server_addr ≡ []
  pub stop_state : c.stop_state ≡ none
  pub debug_output : c.debug_output ≡ []
  pub target_output : c.target_output ≡ []
  pub file_breakpoints : c.file_breakpoints ≡ []
  pub function_breakpoints : c.function_breakpoints ≡ []

-- Closing forgets them, whatever the adapter, the connection and the process answer.
pub close-IsClosed : (j : Codec) (c : Client) → IsClosed (close j c).1
unfolding close reset
close-IsClosed j c = record {
  cmd = refl;
  cancel = refl;
  conn = refl;
  seq = refl;
  server_addr = refl;
  stop_state = refl;
  debug_output = refl;
  target_output = refl;
  file_breakpoints = refl;
  function_breakpoints = refl;
}

-- A failed `start` leaves the client as it was.
module _ (w : World) (work_dir : Bytes) (c c' : Client) (e : Error) where
  connected_to-err :
      (addr : Bytes) (p : Process) (k : Result Conn)
      → connected_to addr p k c ≡ (err e, c')
      → c' ≡ c
  unfolding connected_to
  connected_to-err addr p (err e₁) h = ground arith
  connected_to-err addr p (ok k) h = cc

  spawned-err : (addr : Bytes) (p : Result Process) → spawned w addr p c ≡ (err e, c') → c' ≡ c
  unfolding spawned
  spawned-err addr (err e₁) h = ground arith
  spawned-err addr (ok p) h = connected_to-err addr p (dial_first (w.dial addr)) h

  reserved-err :
      (path : Bytes) (r : Result Bytes) → reserved w work_dir path r c ≡ (err e, c') → c' ≡ c
  unfolding reserved
  reserved-err path (err e₁) h = ground arith
  reserved-err path (ok addr) h = spawned-err addr (w.spawn path addr work_dir) h

  located-err : (r : Result Bytes) → located w work_dir r c ≡ (err e, c') → c' ≡ c
  unfolding located
  located-err (err e₁) h = ground arith
  located-err (ok path) h = reserved-err path (reserve_tcp_addr w.listen) h

  pub start-err : start w work_dir c ≡ (err e, c') → c' ≡ c
  unfolding start
  start-err h = elim (Bool-cases (is_started c)) [
    | inl s ↦ ground arith
    | inr n ↦ located-err w.look_path (rw n at h)
  ]

-- Neither a process nor a connection is held.
abbrev pub IsIdle : Client → Type 0
IsIdle c = (c.conn ≡ none) × (c.cmd ≡ none)

recover_close :
    (j : Codec) (r : Result (Unit {0}) × Client) (c' : Client) (e : Error)
    → recover r (close_and_fail j) ≡ (err e, c')
    → IsIdle c'
unfolding close_and_fail
recover_close j (ok u, s) c' e h = cc
recover_close j (err e₁, s) c' e h =
    subst IsIdle (ap (λ (r : Result (Unit {0}) × Client). r.1) h)
      ((close-IsClosed j s).conn, (close-IsClosed j s).cmd)

after_start :
    (j : Codec) (r : Result (Unit {0}) × Client) (f : Unit {0} → Proc Client Unit) (c c' : Client)
    (e : Error)
    → ((e₁ : Error) (c₁ : Client) → r ≡ (err e₁, c₁) → c₁ ≡ c)
    → IsIdle c
    → ((c₁ : Client) → f tt c₁ ≡ (err e, c') → IsIdle c')
    → after r f ≡ (err e, c')
    → IsIdle c'
after_start j (ok u, s) f c c' e same idle fails h = fails s h
after_start j (err e₁, s) f c c' e same idle fails h =
    subst IsIdle (sym (same e₁ s refl) ∙ ap (λ (r : Result (Unit {0}) × Client). r.1) h) idle

-- A session that does not open holds neither a process nor a connection afterwards: what the
-- handshake had started is closed again.
pub open_session_fails-IsIdle :
    (j : Codec) (w : World) (work_dir : Bytes) (terminate : Bool) (command : Bytes)
    (arguments : Json) (c c' : Client) (e : Error)
    → IsIdle c
    → open_session j w work_dir terminate command arguments c ≡ (err e, c')
    → IsIdle c'
unfolding open_session
open_session_fails-IsIdle j w work_dir terminate command arguments c c' e idle h =
    after_start j (start w work_dir c) _ c c' e (λ e₁ c₁ h₁. start-err w work_dir c c₁ e₁ h₁) idle
      (λ c₁ h₁.
        recover_close j
          (handshake j command arguments (record c₁ { terminate_debuggee = terminate })) c' e h₁)
      h

-- A session that opens has its target stopped.
recover_ok :
    {A : Type 0} (r : Result A × Client) (f : Error → Proc Client A)
    (fails : (e : Error) (s : Client) → (f e s).0 ≡ err e) (a : A) (c' : Client)
    → recover r f ≡ (ok a, c')
    → r ≡ (ok a, c')
recover_ok (ok a', s) f fails a c' h = h
recover_ok (err e, s) f fails a c' h = cc (fails e s, ap (λ (r : Result _ × Client). r.0) h)

pub open_session_stops :
    (j : Codec) (w : World) (work_dir : Bytes) (terminate : Bool) (command : Bytes)
    (arguments : Json) (c c' : Client) (u : Unit {0})
    → open_session j w work_dir terminate command arguments c ≡ (ok u, c')
    → stopped c' ≡ true
unfolding open_session handshake
open_session_stops j w work_dir terminate command arguments c c' u h =
    let (u₀, c₀, e₀, h₀) = after_ok (start w work_dir c) _ h in
    let opened =
      recover_ok (handshake j command arguments (record c₀ { terminate_debuggee = terminate }))
        (close_and_fail j) (λ e s. unfold close_and_fail in refl) u c' h₀ in
    let (m₁, c₁, e₁, h₁) =
      after_ok
        (request_locked j (codes "initialize") initialize_arguments
          (record c₀ { terminate_debuggee = terminate }))
        _ opened in
    let (m₂, c₂, e₂, h₂) = after_ok (request_locked j command arguments c₁) _ h₁ in
    let (m₃, c₃, e₃, h₃) = after_ok (request_locked j (codes "configurationDone") null c₂) _ h₂ in
    wait_for_stop-stopped j c₃ c' u h₃

-- The same of a launch, whose request may be refused before anything starts.
pub launch_fails-IsIdle :
    (j : Codec) (w : World) (req : LaunchRequest) (c c' : Client) (e : Error)
    → IsIdle c
    → launch j w req c ≡ (err e, c')
    → IsIdle c'
unfolding launch
launch_fails-IsIdle j w req c c' e idle h = elim (Bool-cases (is_empty req.target)) [
  | inl t ↦ subst IsIdle (ap (λ (r : Result (Unit {0}) × Client). r.1) (rw t at h)) idle
  | inr t ↦
      open_session_fails-IsIdle j w req.work_dir true (codes "launch") (launch_arguments req) c c' e
        idle (rw t at h)
]
