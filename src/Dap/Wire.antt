-- ===== src/Dap/Wire.antt =====
-- internal/backend/dap/types.go: the wire types. JSON itself (encoding/json) is the record `Codec`
-- of the decoders that the client calls, on the raw bytes of a message or of its body.
use dlvpp.Base.{Bytes, Bool, List, codes, eqb, if◌then◌else◌}
use dlvpp.Base.Int.{ℤ}
use dlvpp.Base.Fault.{Result}
use dlvpp.Backend.{StopReason, entry, breakpoint, step, pause, exit, unknown}

-- The arguments of a request, as the maps that the client builds.
mutual
  pub data Json : Type 0 where
    null : Json
    boolean : Bool → Json
    number : ℤ → Json
    string : Bytes → Json
    array : Items → Json
    object : Fields → Json

  pub data Items : Type 0 where
    nil : Items
    cons : Json → Items → Items

  pub data Fields : Type 0 where
    end : Fields
    field : Bytes → Json → Fields → Fields

pub record Request : Type 0 where
  pub seq : ℤ
  pub type : Bytes
  pub command : Bytes
  pub arguments : Json

pub record Response : Type 0 where
  pub seq : ℤ
  pub type : Bytes
  pub request_seq : ℤ
  pub success : Bool
  pub command : Bytes
  pub message : Bytes
  pub event : Bytes
  pub body : Bytes

pub record StoppedEventBody : Type 0 where
  pub reason : Bytes
  pub thread_id : ℤ

pub record OutputEventBody : Type 0 where
  pub category : Bytes
  pub output : Bytes

pub record DapBreakpoint : Type 0 where
  pub id : ℤ
  pub verified : Bool
  pub line : ℤ
  pub source_path : Bytes
  pub message : Bytes

pub record StackFrame : Type 0 where
  pub id : ℤ
  pub name : Bytes
  pub line : ℤ
  pub source_path : Bytes

pub record Scope : Type 0 where
  pub name : Bytes
  pub variables_reference : ℤ
  pub expensive : Bool

pub record DapVariable : Type 0 where
  pub name : Bytes
  pub value : Bytes
  pub type : Bytes
  pub variables_reference : ℤ

pub record EvaluateBody : Type 0 where
  pub result : Bytes
  pub type : Bytes
  pub variables_reference : ℤ

pub record Codec : Type 0 where
  pub encode_request : Request → Result Bytes
  pub decode_message : Bytes → Result Response
  pub decode_stopped : Bytes → Result StoppedEventBody
  pub decode_output : Bytes → Result OutputEventBody
  -- `body.Error.Format` of an errorResponseBody.
  pub decode_error_format : Bytes → Result Bytes
  pub decode_breakpoints : Bytes → Result (List DapBreakpoint)
  pub decode_stack_frames : Bytes → Result (List StackFrame)
  pub decode_scopes : Bytes → Result (List Scope)
  pub decode_variables : Bytes → Result (List DapVariable)
  pub decode_evaluate : Bytes → Result EvaluateBody

unfoldable pub map_stop_reason : Bytes → StopReason
unfolding eqb
map_stop_reason reason =
    if eqb reason (codes "entry")
    then entry
    else if eqb reason (codes "breakpoint")
    then breakpoint
    else if eqb reason (codes "step")
    then step
    else if eqb reason (codes "pause")
    then pause
    else if eqb reason (codes "exit")
    then exit
    else unknown
