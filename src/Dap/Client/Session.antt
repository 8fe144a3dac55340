-- ===== src/Dap/Client/Session.antt =====
-- internal/backend/dap/client.go: the start and the end of a session.
pub mod Ends
use dlvpp.Base.{
  Bytes, Bool, true, false, not, List, [], ◌∷◌, ◌++◌, Option, none, some, codes, ◌||◌,
  if◌then◌else◌, is_empty,
}
use dlvpp.Base.Int.{pos, is_positive}
use dlvpp.Base.Fault.{
  Error, text, wrapped, joined, Result, ok, err, is_error, net_closed, eof, wrap_error,
}
use dlvpp.Base.Proc.{Proc, pure, fail, after, recover, ◌>>=◌, ◌>>◌}
use dlvpp.Backend.{LaunchMode, LaunchRequest, AttachRequest}
use dlvpp.Dap.Wire.{
  Json, null, boolean, number, string, array, object, nil, cons, Items, end, field, Fields, Codec,
}
use dlvpp.Dap.Client.{Client, Conn, Process, new}
use dlvpp.Dap.Client.Requests.{request_locked, wait_for_stop}

-- What the system answers while a session starts: `exec.LookPath`, `net.Listen` with the listener's
-- `Close`, `cmd.Start` (path, address, directory), and each dial of `dialRetry` up to the context's end.
pub record Dials : Type 0 where
  pub first : Result Conn
  pub later : List (Result Conn)
  pub ended : Error

pub record World : Type 0 where
  pub look_path : Result Bytes
  pub listen : Result (Bytes × Option Error)
  pub spawn : Bytes → Bytes → Bytes → Result Process
  pub dial : Bytes → Dials

-- `isConnectionClose`.
unfoldable pub is_connection_close : Error → Bool
unfolding is_error
is_connection_close e = is_error e net_closed || is_error e eof

-- `errors.Join(errs...)`.
abbrev join_errors : List Error → Option Error
join_errors [] = none
join_errors (e ∷ []) = some e
join_errors (e ∷ e' ∷ es) = elim (join_errors (e' ∷ es)) [
  | none ↦ some e
  | some rest ↦ some (joined e rest)
]

-- An error that is reported unless it says that the connection is closed.
reported : Option Error → List Error
unfolding is_connection_close
reported none = []
reported (some e) = if is_connection_close e then [] else e ∷ []

abbrev error_of : {A : Type 0} → Result A → Option Error
error_of (ok a) = none
error_of (err e) = some e

abbrev wait_errors : Option Process → List Error
wait_errors none = []
wait_errors (some p) = elim p.wait_fault [ none ↦ [] | some e ↦ e ∷ [] ]

abbrev close_fault_of : Option Conn → Option Error
close_fault_of none = none
close_fault_of (some k) = k.close_fault

abbrev outcome : Option Error → Result (Unit {0})
outcome none = ok tt
outcome (some e) = err e

-- The fields that `Close` resets once the connection and the process are gone.
unfoldable pub reset : Client → Client
unfolding new
reset c = record new { terminate_debuggee = c.terminate_debuggee }

-- `reserveTCPAddr`.
unfoldable pub reserve_tcp_addr : Result (Bytes × Option Error) → Result Bytes
reserve_tcp_addr (err e) = err (wrap_error (codes "reserve tcp address: ") e)
reserve_tcp_addr (ok (addr, none)) = ok addr
reserve_tcp_addr (ok (addr, some e)) = err (wrap_error (codes "release reserved tcp address: ") e)

-- `dialRetry`: the last error, the dials to come, the context's error.
unfoldable pub dial_retry : Error → List (Result Conn) → Error → Result Conn
dial_retry last [] ended = err (wrap_error (codes "dial timeout: ") (joined last ended))
dial_retry last (ok k ∷ rest) ended = ok k
dial_retry last (err e ∷ rest) ended = dial_retry e rest ended

dial_first : Dials → Result Conn
unfolding dial_retry
dial_first d = elim d.first [ ok k ↦ ok k | err e ↦ dial_retry e d.later d.ended ]

dial_failure : Bytes → Bytes → Error → Error
dial_failure addr stderr e =
    wrapped (codes "connect to dlv dap at " ++ (addr ++ codes ": ")) e (codes "\n" ++ stderr)

abbrev pub is_started : Client → Bool
is_started c = elim c.conn [ some k ↦ true | none ↦ elim c.cmd [ some p ↦ true | none ↦ false ] ]

-- What `start` does with the result of the dialling. Where it failed, the server is killed and
-- waited for, which leaves the client as it was: the process is not part of it yet.
connected_to : Bytes → Process → Result Conn → Proc Client Unit
unfolding dial_failure
connected_to addr p (err e) c = (err (dial_failure addr c.stderr e), c)
connected_to addr p (ok k) c =
    (ok tt, record c { cmd = some p; cancel = true; conn = some k; server_addr = addr })

spawned : World → Bytes → Result Process → Proc Client Unit
unfolding connected_to dial_first
spawned w addr (err e) c = (err (wrap_error (codes "start dlv dap: ") e), c)
spawned w addr (ok p) c = connected_to addr p (dial_first (w.dial addr)) c

reserved : World → Bytes → Bytes → Result Bytes → Proc Client Unit
unfolding spawned
reserved w work_dir path (err e) c = (err e, c)
reserved w work_dir path (ok addr) c = spawned w addr (w.spawn path addr work_dir) c

located : World → Bytes → Result Bytes → Proc Client Unit
unfolding reserved reserve_tcp_addr
located w work_dir (err e) c = (err (wrap_error (codes "dlv not found in PATH: ") e), c)
located w work_dir (ok path) c = reserved w work_dir path (reserve_tcp_addr w.listen) c

-- `start`.
unfoldable pub start : World → Bytes → Proc Client Unit
unfolding located
start w work_dir c =
    if is_started c
    then (err (text (codes "dap client already started")), c)
    else located w work_dir w.look_path c

strings : List Bytes → Items
strings [] = nil
strings (s ∷ ss) = cons (string s) (strings ss)

abbrev field_unless : Bool → Bytes → Json → Fields → Fields
field_unless test name value rest = if test then rest else field name value rest

abbrev mode_name : LaunchMode → Bytes
mode_name LaunchMode.test = codes "test"
mode_name _ = codes "debug"

launch_arguments : LaunchRequest → Json
unfolding strings
launch_arguments req = object (
    field (codes "request") (string (codes "launch")) (
      field (codes "mode") (string (mode_name req.mode)) (
        field (codes "program") (string req.target) (
          field (codes "stopOnEntry") (boolean true) (
            field_unless (is_empty req.args) (codes "args") (array (strings req.args)) (
              field_unless (is_empty req.build_flags) (codes "buildFlags")
                (array (strings req.build_flags))
                (field_unless (is_empty req.work_dir) (codes "cwd") (string req.work_dir) (
                  field_unless (is_empty req.work_dir) (codes "dlvCwd") (string req.work_dir)
                    end))))))))

attach_arguments : AttachRequest → Json
attach_arguments req = object (
    field (codes "request") (string (codes "attach")) (
      field (codes "mode") (string (codes "local")) (
        field (codes "processId") (number req.pid)
          (field (codes "stopOnEntry") (boolean true) end))))

initialize_arguments : Json
initialize_arguments = object (
    field (codes "adapterID") (string (codes "go")) (
      field (codes "pathFormat") (string (codes "path")) (
        field (codes "linesStartAt1") (boolean true) (
          field (codes "columnsStartAt1") (boolean true) (
            field (codes "supportsVariableType") (boolean true) (
              field (codes "supportsVariablePaging") (boolean true) (
                field (codes "supportsRunInTerminalRequest") (boolean false) (
                  field (codes "supportsMemoryReferences") (boolean true)
                    (field (codes "locale") (string (codes "en-us")) end)))))))))

module _ (j : Codec) where
  disconnect : Option Conn → Client → List Error × Client
  unfolding reported
  disconnect none c = ([], c)
  disconnect (some k) c =
      let (answer, c') =
        request_locked j (codes "disconnect")
          (object (field (codes "terminateDebuggee") (boolean c.terminate_debuggee) end)) c in
      (reported (error_of answer) ++ reported (close_fault_of c'.conn), c')

  -- `Close`. Of the kill of the process, of the cancelling of its context and of the closing of the
  -- connection the errors are modelled, and that the client forgets the three.
  unfoldable pub close : Proc Client Unit
  unfolding disconnect reset
  close c =
      let (errs, c') = disconnect c.conn c in
      (outcome (join_errors (errs ++ wait_errors c'.cmd)), reset c')

  -- `_ = c.Close(); return err`.
  close_and_fail : {A : Type 0} → Error → Proc Client A
  unfolding close
  close_and_fail e c = (err e, (close c).1)

  -- The steps of `openSession` after `start`.
  handshake : Bytes → Json → Proc Client Unit
  unfolding initialize_arguments
  handshake command arguments = do
    request_locked j (codes "initialize") initialize_arguments
    request_locked j command arguments
    request_locked j (codes "configurationDone") null
    wait_for_stop j

  unfoldable pub open_session : World → Bytes → Bool → Bytes → Json → Proc Client Unit
  unfolding handshake close_and_fail start
  open_session w work_dir terminate command arguments c = after (start w work_dir c) (λ _ c'.
      recover (handshake command arguments (record c' { terminate_debuggee = terminate }))
        close_and_fail)

  -- `Launch`.
  unfoldable pub launch : World → LaunchRequest → Proc Client Unit
  unfolding open_session launch_arguments
  launch w req =
      if is_empty req.target
      then fail (text (codes "launch target is required"))
      else open_session w req.work_dir true (codes "launch") (launch_arguments req)

  -- `Attach`.
  unfoldable pub attach : World → AttachRequest → Proc Client Unit
  unfolding open_session attach_arguments
  attach w req =
      if is_positive req.pid
      then open_session w [] false (codes "attach") (attach_arguments req)
      else fail (text (codes "attach pid must be > 0"))
