-- ===== src/Dap/Client.antt =====
-- internal/backend/dap/client.go: the client's state and the captured output. The events, the
-- requests, the operations and the session's start and end are in the modules below.
pub mod Events
pub mod Requests
pub mod Inspect
pub mod Session
use dlvpp.Base.{
  ℕ, ◌+◌, ◌-◌, Bytes, Bool, true, false, not, List, [], ◌∷◌, ◌++◌, Option, none, some, codes, eqb,
  ltb, leb, ◌&&◌, ◌||◌, if◌then◌else◌, length, drop, join, utoa, trim_space, to_lower, is_empty,
}
use dlvpp.Base.Int.{ℤ, pos, ◌+ℤ◌, eq_int, is_positive}
use dlvpp.Base.Fault.{Error, sentinel, text, wrapped, Result, ok, err, eof, wrap_error}
use dlvpp.Base.Proc.{Proc, pure, fail, lift, gets, modify, after, ◌>>=◌, ◌>>◌}
use dlvpp.Backend.{
  StopState, StopReason, unknown, exit, zero_stop_state, OutputEntry, OutputCategory,
  BreakpointSpec, Breakpoint,
}
use dlvpp.Dap.Wire.{
  Json, null, number, object, end, field, Request, Response, Codec, map_stop_reason,
}

-- The connection with its reader: what the coming reads of a payload return (`Framing` reads it
-- from the bytes), what the coming writes return, what `Close` returns, and what was sent.
pub record Conn : Type 0 where
  pub inbox : List (Result Bytes)
  pub write_faults : List (Option Error)
  pub close_fault : Option Error
  pub sent : Bytes

-- The server process; an error of `Wait` that is not an `exec.ExitError`.
pub record Process : Type 0 where
  pub wait_fault : Option Error

pub record TrackedBreakpoint : Type 0 where
  pub spec : BreakpointSpec
  pub breakpoint : Breakpoint

-- `Client`, but for its mutex; `reader` is part of the connection, `cancel` says whether it is set.
pub record Client : Type 0 where
  pub cmd : Option Process
  pub cancel : Bool
  pub conn : Option Conn
  pub seq : ℤ
  pub server_addr : Bytes
  pub terminate_debuggee : Bool
  pub stop_state : Option StopState
  pub stderr : Bytes
  pub stdout : Bytes
  pub debug_output : Bytes
  pub target_output : List OutputEntry
  pub file_breakpoints : List (Bytes × List TrackedBreakpoint)
  pub function_breakpoints : List TrackedBreakpoint

unfoldable pub new : Client
new = record {
  cmd = none;
  cancel = false;
  conn = none;
  seq = pos 0;
  server_addr = [];
  terminate_debuggee = false;
  stop_state = none;
  stderr = [];
  stdout = [];
  debug_output = [];
  target_output = [];
  file_breakpoints = [];
  function_breakpoints = [];
}

abbrev pub not_connected : Error
not_connected = text (codes "dap client is not connected")

-- `if c.conn == nil { return …, errors.New(…) }`.
unfoldable pub require_conn : Client → Result Conn
require_conn c = elim c.conn [ none ↦ err not_connected | some k ↦ ok k ]

abbrev pub on_conn : (Conn → Conn) → Option Conn → Option Conn
on_conn f none = none
on_conn f (some k) = some (f k)

abbrev pub set_inbox : List (Result Bytes) → Client → Client
set_inbox rest c = record c { conn = on_conn (λ k. record k { inbox = rest }) c.conn }

abbrev pub max_target_output_entries : ℕ
max_target_output_entries = 256

-- The slice of the last entries, where there are too many.
unfoldable pub keep_last : List OutputEntry → List OutputEntry
keep_last entries =
    if ltb max_target_output_entries (length entries)
    then drop (length entries - max_target_output_entries) entries
    else entries

unfoldable pub append_target_output : OutputEntry → Client → Client
unfolding keep_last
append_target_output entry c =
    if is_empty (trim_space entry.text)
    then c
    else record c { target_output = keep_last (c.target_output ++ entry ∷ []) }

unfoldable pub map_output_category : Bytes → Option OutputCategory
unfolding eqb
map_output_category category =
    let name = to_lower (trim_space category) in
    if eqb name (codes "stdout")
    then some OutputCategory.stdout
    else if eqb name (codes "stderr")
    then some OutputCategory.stderr
    else none
