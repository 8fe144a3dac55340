-- ===== src/Dap/Client/Requests/Answers.antt =====
-- internal/backend/dap/client.go: which message answers a request, and when a wait ends.
use dlvpp.Base.{
  ℕ, ◌≡◌, Bytes, true, Option, none, some, codes, eqb, eqb_iff, arith, length, Bool-cases, inl, inr,
  if◌then◌else◌,
}
use dlvpp.Base.Int.{ℤ, pos, ◌+ℤ◌, eq_int_eq}
use dlvpp.Base.Fault.{Result, ok, err}
use dlvpp.Base.Proc.{after, after_ok}
use dlvpp.Dap.Wire.{Json, Response, Codec}
use dlvpp.Dap.Client.{Client, Conn, require_conn}
use dlvpp.Dap.Client.Events.{handle_event}
use dlvpp.Dap.Client.Requests.{
  on_message, on_wait, write_request, receive_answer, request_on, request_locked, wait_for_stop,
  stopped, inbox_of,
}
use dlvpp.Dap.Client.Requests.Loop.{read_until_ok}

-- A successful response to the request of that number.
pub record IsAnswer (seq : ℤ) (msg : Response) : Type 0 where
  pub type : msg.type ≡ codes "response"
  pub request_seq : msg.request_seq ≡ seq
  pub success : msg.success ≡ true

event_continues :
    {A : Type 0} (r : Result (Unit {0}) × Client) {a : A} {c' : Client}
    → after {B = Option A} r (λ _ s. (ok none, s)) ≡ (ok (some a), c')
    → ⊥
event_continues (ok u, s) h = cc
event_continues (err e, s) h = cc

on_message_ok :
    (j : Codec) (command : Bytes) (seq : ℤ) (start : ℕ) (msg : Response) (c : Client) (a : Response)
    (c' : Client)
    → on_message j command seq start msg c ≡ (ok (some a), c')
    → IsAnswer seq a
unfolding on_message
on_message_ok j command seq start msg c a c' h = elim (Bool-cases (eqb msg.type (codes "event"))) [
  | inl e ↦ absurd (event_continues (handle_event j msg c) (rw e at h))
  | inr e ↦ ground (arith, eqb_iff msg.type (codes "response"), eq_int_eq msg.request_seq seq)
]

request_on_answered :
    (j : Codec) (command : Bytes) (arguments : Json) (k : Result Conn) (c : Client) (msg : Response)
    (c' : Client)
    → request_on j command arguments k c ≡ (ok msg, c')
    → IsAnswer (c.seq +ℤ pos 1) msg
unfolding request_on receive_answer
request_on_answered j command arguments (err e) c msg c' h = cc
request_on_answered j command arguments (ok k) c msg c' h =
    let seq = c.seq +ℤ pos 1 in
    let (u, c₁, e, h₁) =
      after_ok (write_request j seq command arguments k (record c { seq = seq }))
        (λ _. receive_answer j command seq (length c.debug_output)) h in
    read_until_ok j (on_message j command seq (length c.debug_output)) (λ a _. IsAnswer seq a)
      (on_message_ok j command seq (length c.debug_output)) (inbox_of c₁.conn) c₁ msg c' h₁

-- A request that succeeds returns a successful response that carries the request's own number.
pub request_locked_answered :
    (j : Codec) (command : Bytes) (arguments : Json) (c : Client) (msg : Response) (c' : Client)
    → request_locked j command arguments c ≡ (ok msg, c')
    → IsAnswer (c.seq +ℤ pos 1) msg
unfolding request_locked
request_locked_answered j command arguments c msg c' h =
    request_on_answered j command arguments (require_conn c) c msg c' h

abbrev stop_test : Client → Option (Unit {0})
stop_test c = if stopped c then some tt else none

stop_test-some : (c : Client) {a : Unit {0}} → stop_test c ≡ some a → stopped c ≡ true
stop_test-some c h = ground arith

event_stops :
    (r : Result (Unit {0}) × Client) {a : Unit {0}} {c' : Client}
    → after r (λ _ c₁. (ok (stop_test c₁), c₁)) ≡ (ok (some a), c')
    → stopped c' ≡ true
event_stops (ok u, s) {a} {c'} h = ground (arith, stop_test-some s)
event_stops (err e, s) h = cc

on_wait_ok :
    (j : Codec) (msg : Response) (c : Client) (a : Unit {0}) (c' : Client)
    → on_wait j msg c ≡ (ok (some a), c')
    → stopped c' ≡ true
unfolding on_wait
on_wait_ok j msg c a c' h = elim (Bool-cases (eqb msg.type (codes "event"))) [
  | inl e ↦ event_stops (handle_event j msg c) (rw e at h)
  | inr e ↦ cc (rw e at h)
]

-- A wait that succeeds leaves the target known to be stopped.
pub wait_for_stop-stopped :
    (j : Codec) (c c' : Client) (u : Unit {0}) → wait_for_stop j c ≡ (ok u, c') → stopped c' ≡ true
unfolding wait_for_stop
wait_for_stop-stopped j c c' u h = elim (Bool-cases (stopped c)) [
  | inl e ↦ ground arith
  | inr e ↦
      read_until_ok j (on_wait j) (λ _ s. stopped s ≡ true) (on_wait_ok j) (inbox_of c.conn) c u c'
        (rw e at h)
]
