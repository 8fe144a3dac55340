-- ===== src/Dap/Client/Requests.antt =====
-- internal/backend/dap/client.go: requests and the loops that read the adapter's messages.
pub mod Loop
pub mod Keeps
pub mod Answers
pub mod Finding
use dlvpp.Base.{
  ℕ, ◌+◌, ◌-◌, Bytes, Bool, true, false, not, List, [], ◌∷◌, ◌++◌, Option, none, some, codes, eqb,
  ◌&&◌, ◌||◌, if◌then◌else◌, length, drop, join, utoa, trim_space, is_empty,
}
use dlvpp.Base.Int.{ℤ, pos, ◌+ℤ◌, eq_int}
use dlvpp.Base.Fault.{Error, sentinel, text, wrapped, Result, ok, err, eof, wrap_error}
use dlvpp.Base.Proc.{Proc, pure, fail, after, recover}
use dlvpp.Backend.{StopState}
use dlvpp.Dap.Wire.{Json, Request, Response, Codec}
use dlvpp.Dap.Framing.{frame_header}
use dlvpp.Dap.Client.{Client, Conn, require_conn, set_inbox}
use dlvpp.Dap.Client.Events.{handle_event}

-- `containsString`.
unfoldable pub contains_string : List Bytes → Bytes → Bool
contains_string [] want = false
contains_string (item ∷ items) want = eqb item want || contains_string items want

-- `debugOutputSince`; `start` was a length of the buffer, so it is not negative.
unfoldable pub debug_output_since : Bytes → ℕ → Bytes
debug_output_since buffer start = drop start buffer

abbrev add_detail : Bytes → List Bytes → List Bytes
add_detail detail details = if is_empty detail then details else details ++ detail ∷ []

add_format : Result Bytes → List Bytes → List Bytes
unfolding contains_string
add_format (err e) details = details
add_format (ok format) details =
    let formatted = trim_space format in
    if contains_string details formatted then details else add_detail formatted details

failure : Bytes → List Bytes → Error
failure command [] = text (codes "dap " ++ (command ++ codes " failed"))
failure command (d ∷ ds) =
    text (codes "dap " ++ (command ++ (codes " failed: " ++ join (d ∷ ds) (codes "\n"))))

abbrev send : Bytes → Conn → Conn
send bytes k = record k { sent = k.sent ++ bytes }

unfoldable pub write_with : List (Option Error) → Bytes → Conn → Result (Unit {0}) × Conn
write_with [] bytes k = (ok tt, send bytes k)
write_with (none ∷ faults) bytes k = (ok tt, record (send bytes k) { write_faults = faults })
write_with (some e ∷ faults) bytes k = (err e, record k { write_faults = faults })

-- One write to the connection.
unfoldable pub write_conn : Bytes → Proc Conn Unit
unfolding write_with
write_conn bytes k = write_with k.write_faults bytes k

-- The two writes of `writeRequestLocked`.
unfoldable pub write_frames : Bytes → Proc Conn Unit
unfolding write_conn
write_frames payload k =
    after
      (recover (write_conn (frame_header payload) k)
        (λ e. fail (wrap_error (codes "write dap header: ") e)))
      (λ _ k'.
        recover (write_conn payload k') (λ e. fail (wrap_error (codes "write dap payload: ") e)))

abbrev pub set_conn : Client → Result (Unit {0}) × Conn → Result (Unit {0}) × Client
set_conn c (r, k) = (r, record c { conn = some k })

-- `for { msg, err := c.readMessageLocked(ctx); … }`, over what the coming reads return. The body
-- returns `none` for `continue`.
abbrev pub next_round : {A : Type 0} → Option A → Proc Client A → Proc Client A
next_round none rest = rest
next_round (some a) rest = pure a

abbrev pub decoded_message : Result Response → Result Response
decoded_message (ok msg) = ok msg
decoded_message (err e) = err (wrap_error (codes "decode dap message: ") e)

unfoldable pub read_until :
    {A : Type 0} → Codec → (Response → Proc Client (Option A)) → List (Result Bytes) → Proc Client A
read_until j body [] c =
    (err (wrap_error (codes "read dap header: ") (sentinel eof)), set_inbox [] c)
read_until j body (err e ∷ rest) c = (err e, set_inbox rest c)
read_until j body (ok payload ∷ rest) c =
    after (decoded_message (j.decode_message payload), set_inbox rest c)
      (λ msg c'. after (body msg c') (λ r. next_round r (read_until j body rest)))

marshal_fault : Bytes → Error → Error
marshal_fault command e = wrapped (codes "marshal dap request \"" ++ (command ++ codes "\": ")) e []

abbrev pub inbox_of : Option Conn → List (Result Bytes)
inbox_of none = []
inbox_of (some k) = k.inbox

-- `c.stopState != nil && !c.stopState.Running`.
unfoldable pub stopped : Client → Bool
stopped c = elim c.stop_state [ none ↦ false | some s ↦ not s.running ]

unfoldable pub send_payload : Bytes → Result Bytes → Conn → Proc Client Unit
unfolding write_frames marshal_fault
send_payload command (err e) k c = (err (marshal_fault command e), c)
send_payload command (ok payload) k c = set_conn c (write_frames payload k)

module _ (j : Codec) where
  unfoldable pub request_error : Bytes → Response → ℕ → Client → Error
  unfolding add_format failure debug_output_since
  request_error command msg start c =
      let message = add_detail (trim_space msg.message) [] in
      let detailed =
        if is_empty msg.body
        then message
        else add_format (j.decode_error_format msg.body) message in
      failure command (add_detail (trim_space (debug_output_since c.debug_output start)) detailed)

  -- One round of the loop in `requestLocked`, on one payload: `none` is `continue`.
  unfoldable pub on_message : Bytes → ℤ → ℕ → Response → Proc Client (Option Response)
  on_message command seq start msg c =
      if eqb msg.type (codes "event")
      then after (handle_event j msg c) (λ _. pure none)
      else if not (eqb msg.type (codes "response")) || not (eq_int msg.request_seq seq)
      then (ok none, c)
      else if not msg.success
      then (err (request_error command msg start c), c)
      else (ok (some msg), c)

  -- `writeRequestLocked`.
  unfoldable pub write_request : ℤ → Bytes → Json → Conn → Proc Client Unit
  unfolding send_payload
  write_request seq command arguments k c =
      send_payload command
        (j.encode_request
          (record { seq = seq; type = codes "request"; command = command; arguments = arguments }))
        k c

  -- The loop of `requestLocked`.
  unfoldable pub receive_answer : Bytes → ℤ → ℕ → Proc Client Response
  unfolding read_until on_message
  receive_answer command seq start c =
      read_until j (on_message command seq start) (inbox_of c.conn) c

  unfoldable pub request_on : Bytes → Json → Result Conn → Proc Client Response
  unfolding write_request receive_answer
  request_on command arguments (err e) c = (err e, c)
  request_on command arguments (ok k) c =
      let seq = c.seq +ℤ pos 1 in
      after (write_request seq command arguments k (record c { seq = seq }))
        (λ _. receive_answer command seq (length c.debug_output))

  -- `requestLocked`.
  unfoldable pub request_locked : Bytes → Json → Proc Client Response
  unfolding request_on require_conn
  request_locked command arguments c = request_on command arguments (require_conn c) c

  -- One round of the loop in `waitForStop`.
  unfoldable pub on_wait : Response → Proc Client (Option Unit)
  unfolding stopped
  on_wait msg c =
      if eqb msg.type (codes "event")
      then after (handle_event j msg c) (λ _ c'. (ok (if stopped c' then some tt else none), c'))
      else (ok none, c)

  -- `waitForStop`. With no connection the program would dereference nil: it is called connected.
  unfoldable pub wait_for_stop : Proc Client Unit
  unfolding read_until on_wait
  wait_for_stop c = if stopped c then (ok tt, c) else read_until j on_wait (inbox_of c.conn) c
