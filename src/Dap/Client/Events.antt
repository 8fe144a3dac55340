-- ===== src/Dap/Client/Events.antt =====
-- internal/backend/dap/client.go: the events of the adapter.
pub mod Keeps
use dlvpp.Base.{Bytes, true, ◌++◌, Option, none, some, codes, eqb, if◌then◌else◌}
use dlvpp.Base.Int.{ℤ, pos}
use dlvpp.Base.Fault.{Result, ok, err, wrap_error}
use dlvpp.Base.Proc.{Proc}
use dlvpp.Backend.{StopState, unknown, exit, zero_stop_state, OutputCategory}
use dlvpp.Dap.Wire.{Response, StoppedEventBody, OutputEventBody, Codec, map_stop_reason}
use dlvpp.Dap.Client.{Client, append_target_output, map_output_category}

abbrev known_thread : Option StopState → ℤ
known_thread none = pos 0
known_thread (some s) = s.thread_id

unfoldable pub stop_with : Result StoppedEventBody → Proc Client Unit
unfolding map_stop_reason
stop_with (err e) c = (err (wrap_error (codes "decode stopped event: ") e), c)
stop_with (ok body) c = (
  ok tt,
  record c {
    stop_state = some (record zero_stop_state {
      reason = map_stop_reason body.reason;
      thread_id = body.thread_id;
      goroutine_id = body.thread_id;
    });
  },
)

unfoldable pub on_continued : Proc Client Unit
on_continued c =
    let thread = known_thread c.stop_state in
    (
      ok tt,
      record c {
        stop_state = some (record zero_stop_state {
          running = true;
          reason = unknown;
          thread_id = thread;
          goroutine_id = thread;
        });
      },
    )

unfoldable pub on_terminated : Proc Client Unit
on_terminated c = (
  ok tt,
  record c { stop_state = some (record zero_stop_state { exited = true; reason = exit }) },
)

unfoldable pub note_output : Bytes → Option OutputCategory → Client → Client
unfolding append_target_output
note_output output none c = c
note_output output (some category) c =
    append_target_output (record { category = category; text = output }) c

unfoldable pub output_with : Result OutputEventBody → Proc Client Unit
unfolding note_output map_output_category
output_with (err e) c = (err (wrap_error (codes "decode output event: ") e), c)
output_with (ok body) c = (
  ok tt,
  note_output body.output (map_output_category body.category)
      (record c { debug_output = c.debug_output ++ body.output }),
)

-- The switch of `handleEventLocked`.
unfoldable pub handle_event : Codec → Response → Proc Client Unit
unfolding stop_with on_continued on_terminated output_with eqb
handle_event j msg c =
    if eqb msg.event (codes "stopped")
    then stop_with (j.decode_stopped msg.body) c
    else if eqb msg.event (codes "continued")
    then on_continued c
    else if eqb msg.event (codes "terminated")
    then on_terminated c
    else if eqb msg.event (codes "output")
    then output_with (j.decode_output msg.body) c
    else (ok tt, c)
