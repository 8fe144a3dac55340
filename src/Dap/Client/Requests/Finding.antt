-- ===== src/Dap/Client/Requests/Finding.antt =====
-- internal/backend/dap/client.go: a request passes over the messages for others, and handles
-- the events among them.
use dlvpp.Base.{
  ℕ, ◌≡◌, refl, ap, Bytes, true, false, List, [], ◌∷◌, ◌++◌, Option, none, some, codes, eqb, not,
  ◌||◌, length, append_assoc, ◌⊎◌, inl, inr, Bool-cases, is_empty, trim_space,
}
use dlvpp.Base.Int.{ℤ, pos, ◌+ℤ◌, eq_int, eq_int_refl}
use dlvpp.Base.Fault.{Result, ok, err}
use dlvpp.Backend.{OutputEntry, OutputCategory}
use dlvpp.Dap.Wire.{Json, Response, Codec, StoppedEventBody, OutputEventBody}
use dlvpp.Dap.Framing.{write_frame, frame_header}
use dlvpp.Dap.Client.{Client, Conn, require_conn, append_target_output, map_output_category}
use dlvpp.Dap.Client.Events.{
  stop_with, on_continued, on_terminated, output_with, note_output, handle_event,
}
use dlvpp.Dap.Client.Requests.{
  read_until, on_message, write_conn, write_with, write_frames, send_payload, write_request,
  receive_answer, request_on, request_locked,
}
use dlvpp.Dap.Client.Requests.Answers.{IsAnswer}

-- A message that is no event and answers no request of that number: a response to another, or
-- neither a response nor an event.
pub record IsOther (seq : ℤ) (msg : Response) : Type 0 where
  pub type : eqb msg.type (codes "event") ≡ false
  pub unrelated : (not (eqb msg.type (codes "response")) || not (eq_int msg.request_seq seq)) ≡ true

-- What a message that is passed over makes of the client: an event is handled, another message
-- changes nothing.
abbrev pub PassesOver : Codec → ℤ → Response → Client → Client → Type 0
PassesOver j seq msg c c' =
    ((eqb msg.type (codes "event") ≡ true) × (handle_event j msg c ≡ (ok tt, c')))
    ⊎ (IsOther seq msg × (c ≡ c'))

-- What the messages of some payloads make of the client, in their order.
abbrev pub Passes : Codec → ℤ → List (Result Bytes) → Client → Client → Type 0
Passes j seq [] c c' = c ≡ c'
Passes j seq (err e ∷ rest) c c' = ⊥
Passes j seq (ok payload ∷ rest) c c' =
    (msg : Response) × (j.decode_message payload ≡ ok msg)
    × ((between : Client) × PassesOver j seq msg c between × Passes j seq rest between c')

-- The client with a connection and a number.
abbrev pub attach : ℤ → Conn → Client → Client
attach seq k c = record c { seq = seq; conn = some k }

module _ (seq : ℤ) (k : Conn) where
  abbrev attached : Result (Unit {0}) × Client → Result (Unit {0}) × Client
  attached (r, c) = (r, attach seq k c)

  stop_with-attach :
      (r : Result StoppedEventBody) (c : Client)
      → stop_with r (attach seq k c) ≡ attached (stop_with r c)
  unfolding stop_with
  stop_with-attach (err e) c = refl
  stop_with-attach (ok body) c = refl

  append_target_output-attach :
      (entry : OutputEntry) (c : Client)
      → append_target_output entry (attach seq k c) ≡ attach seq k (append_target_output entry c)
  unfolding append_target_output
  append_target_output-attach entry c = elim (Bool-cases (is_empty (trim_space entry.text))) [
    | inl e ↦ rw e refl
    | inr e ↦ rw e refl
  ]

  note_output-attach :
      (output : Bytes) (category : Option OutputCategory) (c : Client)
      → note_output output category (attach seq k c) ≡ attach seq k (note_output output category c)
  unfolding note_output
  note_output-attach output none c = refl
  note_output-attach output (some category) c =
      append_target_output-attach (record { category = category; text = output }) c

  output_with-attach :
      (r : Result OutputEventBody) (c : Client)
      → output_with r (attach seq k c) ≡ attached (output_with r c)
  unfolding output_with
  output_with-attach (err e) c = refl
  output_with-attach (ok body) c =
      ap (λ c'. (ok tt, c'))
        (note_output-attach body.output (map_output_category body.category)
          (record c { debug_output = c.debug_output ++ body.output }))

  -- An event leaves the connection and the number alone, and does not look at them.
  handle_event-attach :
      (j : Codec) (msg : Response) (c : Client)
      → handle_event j msg (attach seq k c) ≡ attached (handle_event j msg c)
  unfolding handle_event on_continued on_terminated
  handle_event-attach j msg c = elim (Bool-cases (eqb msg.event (codes "stopped"))) [
    | inl e ↦ rw e (stop_with-attach (j.decode_stopped msg.body) c)
    | inr e ↦ rw e (elim (Bool-cases (eqb msg.event (codes "continued"))) [
      | inl e' ↦ rw e' refl
      | inr e' ↦ rw e' (elim (Bool-cases (eqb msg.event (codes "terminated"))) [
        | inl f ↦ rw f refl
        | inr f ↦ rw f (elim (Bool-cases (eqb msg.event (codes "output"))) [
          | inl f' ↦ rw f' (output_with-attach (j.decode_output msg.body) c)
          | inr f' ↦ rw f' refl
        ])
      ])
    ])
  ]

module _ (j : Codec) (command : Bytes) (seq : ℤ) (start : ℕ) where
  on_message-passes :
      (msg : Response) (k : Conn) (c c' : Client)
      → PassesOver j seq msg c c'
      → on_message j command seq start msg (attach seq k c) ≡ (ok none, attach seq k c')
  unfolding on_message
  on_message-passes msg k c c' (inl (event, handled)) =
      rw event (rw (handle_event-attach seq k j msg c) (rw handled refl))
  on_message-passes msg k c c' (inr (other, same)) =
      rw (other.type, other.unrelated) (ap (λ x. (ok none, attach seq k x)) same)

  on_message_answer :
      (msg : Response) (c : Client)
      → IsAnswer seq msg
      → on_message j command seq start msg c ≡ (ok (some msg), c)
  unfolding on_message
  on_message_answer msg c a =
      rw (a.type, a.request_seq, a.success) (rw (eq_int_refl seq) (unfold eqb in refl))

  -- The answer is returned, and what follows it in the inbox is left for the next read.
  receive_answer_finds :
      (skipped rest : List (Result Bytes)) (payload : Bytes) (msg : Response) (k : Conn)
      (c c' : Client)
      → Passes j seq skipped c c'
      → j.decode_message payload ≡ ok msg
      → IsAnswer seq msg
      → read_until j
          (on_message j command seq start)
          (skipped ++ ok payload ∷ rest)
          (attach seq k c)
        ≡ (ok msg, attach seq (record k { inbox = rest }) c')
  unfolding read_until
  receive_answer_finds [] rest payload msg k c c' same d a = rw d (
      rw (on_message_answer msg (attach seq (record k { inbox = rest }) c) a)
        (ap (λ x. (ok msg, attach seq (record k { inbox = rest }) x)) same))
  receive_answer_finds (err e ∷ skipped) rest payload msg k c c' h d a = absurd h
  receive_answer_finds (ok p ∷ skipped) rest payload msg k c c' (m, e, (between, one, more)) d a =
      rw e (
        rw (on_message-passes m (record k { inbox = skipped ++ ok payload ∷ rest }) c between one) (
          receive_answer_finds skipped rest payload msg
            (record k { inbox = skipped ++ ok payload ∷ rest }) between c' more d a))

require_conn-some : (c : Client) (k : Conn) → c.conn ≡ some k → require_conn c ≡ ok k
unfolding require_conn
require_conn-some c k e = rw e

write_conn-clean :
    (bytes : Bytes) (k : Conn)
    → k.write_faults ≡ []
    → write_conn bytes k ≡ (ok tt, record k { sent = k.sent ++ bytes })
unfolding write_conn
write_conn-clean bytes k e = rw (e, write_with)

write_frames-clean :
    (payload : Bytes) (k : Conn)
    → k.write_faults ≡ []
    → write_frames payload k ≡ (ok tt, record k { sent = k.sent ++ write_frame payload })
unfolding write_frames write_frame
write_frames-clean payload k e = rw (write_conn-clean (frame_header payload) k e) (
    rw (write_conn-clean payload (record k { sent = k.sent ++ frame_header payload }) e)
      (rw (append_assoc k.sent (frame_header payload) payload)))

write_request-clean :
    (j : Codec) (seq : ℤ) (command out : Bytes) (arguments : Json) (k : Conn) (c : Client)
    → k.write_faults ≡ []
    → j.encode_request
        (record { seq = seq; type = codes "request"; command = command; arguments = arguments })
      ≡ ok out
    → write_request j seq command arguments k c
      ≡ (ok tt, record c { conn = some (record k { sent = k.sent ++ write_frame out }) })
unfolding write_request send_payload
write_request-clean j seq command out arguments k c e d = rw d (rw (write_frames-clean out k e))

-- A connected client whose writes succeed, and whose inbox holds the answer behind other messages,
-- gets the answer, where each of the others decodes and is an event that is handled without an
-- error, or no event and no response to this request. It has then sent one frame and used up one
-- number; the events before the answer have been handled in their order, nothing else of the client
-- has changed, and what follows the answer is still in the inbox.
pub request_locked_finds :
    (j : Codec) (command : Bytes) (arguments : Json) (c c' : Client) (k : Conn)
    (out payload : Bytes) (skipped rest : List (Result Bytes)) (msg : Response)
    → c.conn ≡ some k
    → k.write_faults ≡ []
    → k.inbox ≡ skipped ++ ok payload ∷ rest
    → j.encode_request (record {
      seq = c.seq +ℤ pos 1;
      type = codes "request";
      command = command;
      arguments = arguments;
    })
      ≡ ok out
    → Passes j (c.seq +ℤ pos 1) skipped c c'
    → j.decode_message payload ≡ ok msg
    → IsAnswer (c.seq +ℤ pos 1) msg
    → request_locked j command arguments c ≡ (
      ok msg,
      record c' {
        seq = c.seq +ℤ pos 1;
        conn = some (record k { inbox = rest; sent = k.sent ++ write_frame out });
      },
    )
unfolding request_locked request_on receive_answer
request_locked_finds j command arguments c c' k out payload skipped rest msg connected writes
      arrives encodes passes decodes answers =
    rw (require_conn-some c k connected, request_on)
      (rw
        (write_request-clean j (c.seq +ℤ pos 1) command out arguments k
          (record c { seq = c.seq +ℤ pos 1 }) writes encodes)
        (rw (arrives) (
          receive_answer_finds j command (c.seq +ℤ pos 1) (length c.debug_output) skipped rest
            payload msg
            (record k { inbox = skipped ++ ok payload ∷ rest; sent = k.sent ++ write_frame out }) c
            c' passes decodes answers)))
