-- ===== src/Tests/Adapter.antt =====
-- Examples of the adapter's protocol.
use dlvpp.Base.{
  ℕ, ◌≡◌, ◌≢◌, refl, Bytes, Bool, true, false, List, [], ◌∷◌, ◌++◌, Option, none, some, codes,
  arith, length, map, All, atoi, inl, inr,
}
use dlvpp.Base.Int.{pos, is_positive, ◌+ℤ◌}
use dlvpp.Base.Fault.{ok}
use dlvpp.Backend.{StopState}
use dlvpp.Dap.Wire.{null}
use dlvpp.Dap.Framing.{byte, read_payload, write_frame, read_payload-write_frame}
use dlvpp.Dap.Location.{
  parse_file_line_location, format_location, parse-format_location, parse_file_line_location_sound,
}
use dlvpp.Dap.Client.{Client}
use dlvpp.Dap.Client.Events.{handle_event}
use dlvpp.Dap.Client.Events.Keeps.{IsValid}
use dlvpp.Dap.Client.Requests.{request_locked, stopped, wait_for_stop}
use dlvpp.Dap.Client.Requests.Answers.{IsAnswer, request_locked_answered}
use dlvpp.Dap.Client.Requests.Finding.{request_locked_finds}
use dlvpp.Dap.Client.Inspect.{run_thread_action}
use dlvpp.Dap.Client.Inspect.Keeps.{run_thread_action-IsValid}
use dlvpp.Dap.Client.Inspect.Runs.{run_thread_action_stops}
use dlvpp.Dap.Client.Session.{open_session}
use dlvpp.Dap.Client.Session.Ends.{open_session_stops}
use dlvpp.Tests.{sample_codec, message, connection, idle, connected, world_with}

read_payload-write_frame_example :
    read_payload (map byte (write_frame (codes "{}")) ++ byte 65 ∷ [])
    ≡ (ok (codes "{}"), byte 65 ∷ [])
read_payload-write_frame_example =
    read_payload-write_frame (codes "{}") (byte 65 ∷ []) (omega arith)

parse-format_location_example :
    parse_file_line_location (format_location (codes "a:b.go") (pos 14))
    ≡ some (codes "a:b.go", pos 14)
parse-format_location_example =
    parse-format_location (codes "a:b.go") 14 (λ e. cc) (omega arith) (omega arith)

parse_file_line_location_sound_example :
    (tail : Bytes) × (codes "a.go" ++ b':' ∷ tail ≡ codes "a.go:14")
    × (atoi tail ≡ some (pos 14))
    × (is_positive (pos 14) ≡ true)
    × (codes "a.go" ≢ [])
unfolding parse_file_line_location atoi
parse_file_line_location_sound_example =
    parse_file_line_location_sound (codes "a.go:14") (codes "a.go") (pos 14) refl

abbrev asked : Client
asked = connected (ok (codes "0") ∷ ok (codes "1body") ∷ [])

request_locked_answered_example : IsAnswer (pos 0 +ℤ pos 1) (message (codes "1body"))
unfolding request_locked dlvpp.Base.eqb ◌+ℤ◌
request_locked_answered_example =
    request_locked_answered sample_codec (codes "threads") null asked (message (codes "1body"))
      (request_locked sample_codec (codes "threads") null asked).1 refl

-- A stop event and a response to an earlier request stand before the answer.
abbrev interrupted : Client
interrupted = connected (ok (codes "sstep") ∷ ok (codes "0") ∷ ok (codes "1body") ∷ [])

request_locked_finds_example : request_locked sample_codec (codes "threads") null interrupted ≡ (
  ok (message (codes "1body")),
  record (handle_event sample_codec (message (codes "sstep")) interrupted).1 {
    seq = pos 0 +ℤ pos 1;
    conn = some (record (connection []) { sent = write_frame (codes "{}") });
  },
)
unfolding ◌+ℤ◌ dlvpp.Base.eqb handle_event
request_locked_finds_example =
    request_locked_finds sample_codec (codes "threads") null interrupted
      (handle_event sample_codec (message (codes "sstep")) interrupted).1
      (connection (ok (codes "sstep") ∷ ok (codes "0") ∷ ok (codes "1body") ∷ [])) (codes "{}")
      (codes "1body") (ok (codes "sstep") ∷ ok (codes "0") ∷ []) [] (message (codes "1body")) refl
      refl refl refl
      (
        message (codes "sstep"),
        refl,
        (
          _,
          inl (refl, refl),
          (
            message (codes "0"),
            refl,
            (_, inr (record { type = refl; unrelated = refl }, refl), refl),
          ),
        ),
      )
      refl (record { type = refl; request_seq = refl; success = refl })

abbrev stepping : Client
stepping = connected (ok (codes "1") ∷ ok (codes "sstep") ∷ [])

run_thread_action_stops_example :
    (result : StopState) × ((result.running ≡ false)
      × ((run_thread_action sample_codec (codes "next") stepping).1.stop_state ≡ some result))
unfolding run_thread_action dlvpp.Dap.Client.Inspect.begin_thread_action request_locked
    dlvpp.Base.eqb ◌+ℤ◌ wait_for_stop handle_event dlvpp.Dap.Client.Inspect.state
run_thread_action_stops_example = (
  _,
  run_thread_action_stops sample_codec (codes "next") stepping
      (run_thread_action sample_codec (codes "next") stepping).1 _ refl,
)

run_thread_action-IsValid_example :
    IsValid (run_thread_action sample_codec (codes "next") stepping).1
run_thread_action-IsValid_example =
    run_thread_action-IsValid sample_codec (codes "next") stepping
      (record { coherent = refl; bounded = omega arith; printable = tt })

open_session_stops_example :
    stopped
      (open_session sample_codec
        (world_with (ok (codes "1") ∷ ok (codes "2") ∷ ok (codes "3") ∷ ok (codes "sentry") ∷ []))
        []
        true
        (codes "launch")
        null
        idle).1
    ≡ true
unfolding open_session request_locked dlvpp.Base.eqb ◌+ℤ◌ wait_for_stop handle_event
open_session_stops_example =
    open_session_stops sample_codec
      (world_with (ok (codes "1") ∷ ok (codes "2") ∷ ok (codes "3") ∷ ok (codes "sentry") ∷ [])) []
      true (codes "launch") null idle
      (open_session sample_codec
        (world_with (ok (codes "1") ∷ ok (codes "2") ∷ ok (codes "3") ∷ ok (codes "sentry") ∷ []))
        [] true (codes "launch") null idle).1
      tt refl
