-- ===== src/Dap/Client/Requests/Keeps.antt =====
-- internal/backend/dap/client.go: what requests and waits keep of the client.
use dlvpp.Base.{
  Bytes, List, Option, some, codes, eqb, ℕ, length, Bool-cases, inl, inr, not, ◌||◌, eqb,
}
use dlvpp.Base.Int.{ℤ, pos, ◌+ℤ◌, eq_int}
use dlvpp.Base.Fault.{Result, ok, err}
use dlvpp.Base.Proc.{after_keeps}
use dlvpp.Dap.Wire.{Json, Response, Codec}
use dlvpp.Dap.Client.{Client, Conn, TrackedBreakpoint, require_conn}
use dlvpp.Dap.Client.Events.{handle_event}
use dlvpp.Dap.Client.Events.Keeps.{IsValid, handle_event-IsValid, Tracks, handle_event-Tracks}
use dlvpp.Dap.Client.Requests.{
  on_message, on_wait, write_request, send_payload, receive_answer, request_on, request_locked,
  wait_for_stop, stopped, inbox_of,
}
use dlvpp.Dap.Client.Requests.Loop.{read_until_keeps}

-- A property of clients that says nothing of the connection and of the request counter, and that
-- every event keeps.
pub record IsKept (j : Codec) (P : Client → Type 0) : Type 0 where
  pub seq : (n : ℤ) (c : Client) → P c → P (record c { seq = n })
  pub conn : (k : Option Conn) (c : Client) → P c → P (record c { conn = k })
  pub event : (msg : Response) (c : Client) → P c → P (handle_event j msg c).1

module _ (j : Codec) {P : Client → Type 0} (kept : IsKept j P) where
  on_message_keeps :
      (command : Bytes) (seq : ℤ) (start : ℕ) (msg : Response) (c : Client)
      → P c
      → P (on_message j command seq start msg c).1
  unfolding on_message
  on_message_keeps command seq start msg c h = elim (Bool-cases (eqb msg.type (codes "event"))) [
    | inl e ↦ rw e (after_keeps P (handle_event j msg c) _ (kept.event msg c h) (λ a c' h'. h'))
    | inr e ↦
        rw e
          (elim (Bool-cases
            (not (eqb msg.type (codes "response")) || not (eq_int msg.request_seq seq))) [
              | inl e ↦ rw e h
              | inr e ↦ rw e (elim (Bool-cases msg.success) [ inl e ↦ rw e h | inr e ↦ rw e h ])
            ])
  ]

  on_wait_keeps : (msg : Response) (c : Client) → P c → P (on_wait j msg c).1
  unfolding on_wait
  on_wait_keeps msg c h = elim (Bool-cases (eqb msg.type (codes "event"))) [
    | inl e ↦ rw e (after_keeps P (handle_event j msg c) _ (kept.event msg c h) (λ a c' h'. h'))
    | inr e ↦ rw e h
  ]

  send_payload_keeps :
      (command : Bytes) (payload : Result Bytes) (k : Conn) (c : Client)
      → P c
      → P (send_payload command payload k c).1
  unfolding send_payload
  send_payload_keeps command (err e) k c h = h
  send_payload_keeps command (ok payload) k c h = kept.conn (some _) c h

  write_request_keeps :
      (seq : ℤ) (command : Bytes) (arguments : Json) (k : Conn) (c : Client)
      → P c
      → P (write_request j seq command arguments k c).1
  unfolding write_request
  write_request_keeps seq command arguments k c h = send_payload_keeps command _ k c h

  receive_answer_keeps :
      (command : Bytes) (seq : ℤ) (start : ℕ) (c : Client)
      → P c
      → P (receive_answer j command seq start c).1
  unfolding receive_answer
  receive_answer_keeps command seq start c h =
      read_until_keeps j (on_message j command seq start) P (λ rest c'' h''. kept.conn _ c'' h'')
        (on_message_keeps command seq start) (inbox_of c.conn) c h

  request_on_keeps :
      (command : Bytes) (arguments : Json) (k : Result Conn) (c : Client)
      → P c
      → P (request_on j command arguments k c).1
  unfolding request_on
  request_on_keeps command arguments (err e) c h = h
  request_on_keeps command arguments (ok k) c h =
      let seq = c.seq +ℤ pos 1 in
      after_keeps P (write_request j seq command arguments k (record c { seq = seq }))
        (λ _. receive_answer j command seq (length c.debug_output))
        (write_request_keeps seq command arguments k _ (kept.seq seq c h))
        (λ a c' h'. receive_answer_keeps command seq (length c.debug_output) c' h')

  -- A request keeps it, whether it is answered, refused, or breaks off.
  pub request_locked_keeps :
      (command : Bytes) (arguments : Json) (c : Client)
      → P c
      → P (request_locked j command arguments c).1
  unfolding request_locked
  request_locked_keeps command arguments c h =
      request_on_keeps command arguments (require_conn c) c h

  -- Waiting for a stop keeps it.
  pub wait_for_stop_keeps : (c : Client) → P c → P (wait_for_stop j c).1
  unfolding wait_for_stop
  wait_for_stop_keeps c h = elim (Bool-cases (stopped c)) [
    | inl e ↦ rw e h
    | inr e ↦ rw e (
        read_until_keeps j (on_wait j) P (λ rest c'' h''. kept.conn _ c'' h'') on_wait_keeps
          (inbox_of c.conn) c h)
  ]

pub IsKept-IsValid : (j : Codec) → IsKept j IsValid
IsKept-IsValid j = record {
  seq = λ n c v. record { coherent = v.coherent; bounded = v.bounded; printable = v.printable };
  conn = λ n c v. record { coherent = v.coherent; bounded = v.bounded; printable = v.printable };
  event = λ msg c v. handle_event-IsValid j msg c v;
}

-- No request changes the tracked breakpoints, whatever events it meets.
pub IsKept-Tracks :
    (j : Codec) (files : List (Bytes × List TrackedBreakpoint)) (functions : List TrackedBreakpoint)
    → IsKept j (Tracks files functions)
IsKept-Tracks j files functions = record {
  seq = λ n c h. h;
  conn = λ n c h. h;
  event = λ msg c h. handle_event-Tracks files functions j msg c h;
}
