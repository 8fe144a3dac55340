-- ===== src/Tests.antt =====
-- Sample data for the tests in the modules below: a codec over one-letter messages, and clients.
mod Adapter
mod Breakpoints
mod Controller
mod Source
mod Command
mod Shell
mod Run
mod Screens
use dlvpp.Base.{
  ℕ, ◌==◌, if◌then◌else◌, Bytes, Bool, true, false, List, [], ◌∷◌, ◌-◌, Option, none, some, codes,
}
use dlvpp.Base.Int.{pos}
use dlvpp.Base.Fault.{Result, ok, err, text}
use dlvpp.Backend.{StopState, zero_stop_state}
use dlvpp.Dap.Wire.{Response, Codec}
use dlvpp.Dap.Client.{Client, Conn}
use dlvpp.Dap.Client.Session.{World}

abbrev blank : Response
blank = record {
  seq = pos 0;
  type = codes "response";
  request_seq = pos 0;
  success = true;
  command = [];
  message = [];
  event = [];
  body = [];
}

-- "s…" is a stopped event, "o…" an output event, "x…" a failed answer to request 1, and a digit an
-- answer to the request of that number.
abbrev message_of : ℕ → Bytes → Response
message_of c rest =
    if c == 115
    then record blank { type = codes "event"; event = codes "stopped"; body = rest }
    else if c == 111
    then record blank { type = codes "event"; event = codes "output"; body = rest }
    else if c == 120
    then record blank { request_seq = pos 1; success = false; body = rest }
    else record blank { request_seq = pos (c - 48); body = rest }

abbrev message : Bytes → Response
message [] = blank
message (c ∷ rest) = message_of c rest

abbrev sample_codec : Codec
sample_codec = record {
  encode_request = λ r. ok (codes "{}");
  decode_message = λ s. ok (message s);
  decode_stopped = λ s. ok (record { reason = s; thread_id = pos 1 });
  decode_output = λ s. ok (record { category = codes "stdout"; output = s });
  decode_error_format = λ s. ok s;
  decode_breakpoints = λ s.
      ok (record { id = pos 7; verified = true; line = pos 3; source_path = s; message = [] } ∷ []);
  decode_stack_frames = λ s. ok [];
  decode_scopes = λ s. ok [];
  decode_variables = λ s. ok [];
  decode_evaluate = λ s. ok (record { result = s; type = []; variables_reference = pos 0 });
}

abbrev connection : List (Result Bytes) → Conn
connection inbox = record { inbox = inbox; write_faults = []; close_fault = none; sent = [] }

abbrev idle : Client
idle = record {
  cmd = none;
  cancel = false;
  conn = none;
  seq = pos 0;
  server_addr = [];
  terminate_debuggee = false;
  stop_state = none;
  stderr = [];
  stdout = [];
  debug_output = [];
  target_output = [];
  file_breakpoints = [];
  function_breakpoints = [];
}

abbrev stopped_at_1 : StopState
stopped_at_1 = record zero_stop_state { thread_id = pos 1 }

-- A client that is connected to a stopped target.
abbrev connected : List (Result Bytes) → Client
connected inbox = record idle { conn = some (connection inbox); stop_state = some stopped_at_1 }

-- A system on which everything starts, and the adapter then sends the messages.
abbrev world_with : List (Result Bytes) → World
world_with inbox = record {
  look_path = ok (codes "/bin/dlv");
  listen = ok (codes "127.0.0.1:1", none);
  spawn = λ path addr dir. ok (record { wait_fault = none });
  dial = λ addr. record { first = ok (connection inbox); later = []; ended = text (codes "ended") };
}
