-- ===== src/Backend.antt =====
-- internal/backend/backend.go: the transport-neutral debugger interface and its data.
use dlvpp.Base.{Bytes, Bool, false, List, [], Option}
use dlvpp.Base.Int.{ℤ, pos}
use dlvpp.Base.Proc.{Proc}

pub data LaunchMode : Type 0 where
  -- `""`, `"debug"` and `"test"`.
  unset debug test : LaunchMode

pub record LaunchRequest : Type 0 where
  pub mode : LaunchMode
  pub target : Bytes
  pub args : List Bytes
  pub build_flags : List Bytes
  pub work_dir : Bytes

pub record AttachRequest : Type 0 where
  pub pid : ℤ

pub data StopReason : Type 0 where
  -- `unset` is the empty string of a zero StopState.
  unset unknown entry breakpoint step pause exit : StopReason

pub record SourceLocation : Type 0 where
  pub file : Bytes
  pub line : ℤ
  pub function : Bytes

pub record FrameRef : Type 0 where
  pub goroutine_id : ℤ
  pub index : ℤ

pub record StopState : Type 0 where
  pub running : Bool
  pub exited : Bool
  pub exit_status : ℤ
  pub reason : StopReason
  pub current : SourceLocation
  pub current_frame : FrameRef
  pub goroutine_id : ℤ
  pub thread_id : ℤ
  pub breakpoint_ids : List ℤ

pub record Frame : Type 0 where
  pub ref : FrameRef
  pub location : SourceLocation

pub record Variable : Type 0 where
  pub name : Bytes
  pub type : Bytes
  pub value : Bytes
  pub has_children : Bool
  pub reference : ℤ

pub data OutputCategory : Type 0 where
  stdout stderr console : OutputCategory

pub record OutputEntry : Type 0 where
  pub category : OutputCategory
  pub text : Bytes

pub record Value : Type 0 where
  pub type : Bytes
  pub value : Bytes
  pub has_children : Bool
  pub reference : ℤ

pub record BreakpointSpec : Type 0 where
  pub location : Bytes
  pub condition : Bytes

pub record Breakpoint : Type 0 where
  pub id : ℤ
  pub location : SourceLocation
  pub condition : Bytes
  pub enabled : Bool

-- A pointer result that can be nil is an `Option`.
-- The interface, over the implementation's state. `Goroutines` is left out: no code calls it.
pub record Backend (B : Type 0) : Type 0 where
  pub launch : LaunchRequest → Proc B Unit
  pub attach : AttachRequest → Proc B Unit
  pub close : Proc B Unit
  pub continue : Proc B StopState
  pub next : Proc B StopState
  pub step_in : Proc B StopState
  pub step_out : Proc B StopState
  pub pause : Proc B StopState
  pub state : Proc B StopState
  pub stack : ℤ → ℤ → Proc B (List Frame)
  pub locals : FrameRef → Proc B (List Variable)
  pub children : ℤ → Proc B (List Variable)
  pub output : Proc B (List OutputEntry)
  pub eval : FrameRef → Bytes → Proc B Value
  pub create_breakpoint : BreakpointSpec → Proc B (Option Breakpoint)
  pub breakpoints : Proc B (List Breakpoint)
  pub clear_breakpoint : ℤ → Proc B Unit

abbrev pub zero_location : SourceLocation
zero_location = record { file = []; line = pos 0; function = [] }

abbrev pub zero_frame_ref : FrameRef
zero_frame_ref = record { goroutine_id = pos 0; index = pos 0 }

-- The zero value of StopState.
abbrev pub zero_stop_state : StopState
zero_stop_state = record {
  running = false;
  exited = false;
  exit_status = pos 0;
  reason = StopReason.unset;
  current = zero_location;
  current_frame = zero_frame_ref;
  goroutine_id = pos 0;
  thread_id = pos 0;
  breakpoint_ids = [];
}
