-- ===== src/Dap/Client/Events/Keeps.antt =====
-- internal/backend/dap/client.go: what handling an event keeps of the client.
use dlvpp.Base.{
  ◌-◌, ◌≤◌, ◌≡◌, refl, Bytes, false, List, [], ◌∷◌, ◌++◌, Option, none, some, ◌&&◌, arith, length,
  length-drop, All, All-append, All-drop, is_empty, trim_space, ltb, Bool-cases, inl, inr, eqb,
  codes,
}
use dlvpp.Base.Fault.{Result, ok, err}
use dlvpp.Backend.{StopState, OutputEntry, OutputCategory}
use dlvpp.Dap.Wire.{Response, Codec, StoppedEventBody, OutputEventBody}
use dlvpp.Dap.Client.{
  Client, TrackedBreakpoint, append_target_output, map_output_category, keep_last,
  max_target_output_entries,
}
use dlvpp.Dap.Client.Events.{
  stop_with, on_continued, on_terminated, output_with, note_output, handle_event,
}

-- The target is not both running and exited.
abbrev pub IsCoherent : Option StopState → Type 0
IsCoherent none = Unit
IsCoherent (some s) = (s.running && s.exited) ≡ false

abbrev pub IsPrintable : OutputEntry → Type 0
IsPrintable e = is_empty (trim_space e.text) ≡ false

-- The state of a client between two operations.
pub record IsValid (c : Client) : Type 0 where
  pub coherent : IsCoherent c.stop_state
  pub bounded : length c.target_output ≤ max_target_output_entries
  pub printable : All IsPrintable c.target_output

length-keep_last : (es : List OutputEntry) → length (keep_last es) ≤ max_target_output_entries
unfolding keep_last
length-keep_last es = ground (arith, length-drop (length es - 256) es)

keep_last-All : (P : OutputEntry → Type 0) (es : List OutputEntry) → All P es → All P (keep_last es)
unfolding keep_last
keep_last-All P es h = elim (Bool-cases (ltb 256 (length es))) [
  | inl e ↦ rw e (All-drop P (length es - 256) es h)
  | inr e ↦ rw e h
]

append_target_output-IsValid :
    (e : OutputEntry) (c : Client) → IsValid c → IsValid (append_target_output e c)
unfolding append_target_output
append_target_output-IsValid e c v = elim (Bool-cases (is_empty (trim_space e.text))) [
  | inl blank ↦ rw blank v
  | inr printed ↦ rw printed (record {
    coherent = v.coherent;
    bounded = length-keep_last (c.target_output ++ e ∷ []);
    printable =
        keep_last-All IsPrintable (c.target_output ++ e ∷ [])
          (All-append IsPrintable c.target_output (e ∷ []) v.printable (printed, tt));
  })
]

note_output-IsValid :
    (output : Bytes) (category : Option OutputCategory) (c : Client)
    → IsValid c
    → IsValid (note_output output category c)
unfolding note_output
note_output-IsValid output none c v = v
note_output-IsValid output (some k) c v =
    append_target_output-IsValid (record { category = k; text = output }) c v

stop_with-IsValid :
    (r : Result StoppedEventBody) (c : Client) → IsValid c → IsValid (stop_with r c).1
unfolding stop_with
stop_with-IsValid (err e) c v = v
stop_with-IsValid (ok body) c v = record {
  coherent = refl;
  bounded = v.bounded;
  printable = v.printable;
}

output_with-IsValid :
    (r : Result OutputEventBody) (c : Client) → IsValid c → IsValid (output_with r c).1
unfolding output_with
output_with-IsValid (err e) c v = v
output_with-IsValid (ok body) c v =
    note_output-IsValid body.output (map_output_category body.category) _
      (record { coherent = v.coherent; bounded = v.bounded; printable = v.printable })

-- The five cases of an event, as one rule.
module _ (j : Codec) (msg : Response) (c : Client) (P : Result (Unit {0}) × Client → Type 0) where
  pub handle_event-cases :
      ((r : Result StoppedEventBody) → P (stop_with r c))
      → P (on_continued c)
      → P (on_terminated c)
      → ((r : Result OutputEventBody) → P (output_with r c))
      → P (ok tt, c)
      → P (handle_event j msg c)
  unfolding handle_event
  handle_event-cases s k t o u = elim (Bool-cases (eqb msg.event (codes "stopped"))) [
    | inl e ↦ rw e (s _)
    | inr e ↦ rw e (elim (Bool-cases (eqb msg.event (codes "continued"))) [
      | inl e ↦ rw e k
      | inr e ↦ rw e (elim (Bool-cases (eqb msg.event (codes "terminated"))) [
        | inl e ↦ rw e t
        | inr e ↦ rw e (elim (Bool-cases (eqb msg.event (codes "output"))) [
          | inl e ↦ rw e (o _)
          | inr e ↦ rw e u
        ])
      ])
    ])
  ]

-- Every event keeps the client's state coherent and its captured output bounded and printable.
pub handle_event-IsValid :
    (j : Codec) (msg : Response) (c : Client) → IsValid c → IsValid (handle_event j msg c).1
handle_event-IsValid j msg c v =
    handle_event-cases j msg c (λ r. IsValid r.1) (λ r. stop_with-IsValid r c v)
      (unfold on_continued in
        record { coherent = refl; bounded = v.bounded; printable = v.printable })
      (unfold on_terminated in
        record { coherent = refl; bounded = v.bounded; printable = v.printable })
      (λ r. output_with-IsValid r c v) v

-- The tracked breakpoints.
abbrev pub Tracks : List (Bytes × List TrackedBreakpoint) → List TrackedBreakpoint → Client → Type 0
Tracks files functions c = (c.file_breakpoints ≡ files) × (c.function_breakpoints ≡ functions)

module _ (files : List (Bytes × List TrackedBreakpoint)) (functions : List TrackedBreakpoint) where
  stop_with-Tracks :
      (r : Result StoppedEventBody) (c : Client)
      → Tracks files functions c
      → Tracks files functions (stop_with r c).1
  unfolding stop_with
  stop_with-Tracks (err e) c h = h
  stop_with-Tracks (ok body) c h = h

  append_target_output-Tracks :
      (e : OutputEntry) (c : Client)
      → Tracks files functions c
      → Tracks files functions (append_target_output e c)
  unfolding append_target_output
  append_target_output-Tracks e c h = ground arith

  note_output-Tracks :
      (output : Bytes) (k : Option OutputCategory) (c : Client)
      → Tracks files functions c
      → Tracks files functions (note_output output k c)
  unfolding note_output
  note_output-Tracks output none c h = h
  note_output-Tracks output (some k) c h =
      append_target_output-Tracks (record { category = k; text = output }) c h

  output_with-Tracks :
      (r : Result OutputEventBody) (c : Client)
      → Tracks files functions c
      → Tracks files functions (output_with r c).1
  unfolding output_with
  output_with-Tracks (err e) c h = h
  output_with-Tracks (ok body) c h =
      note_output-Tracks body.output (map_output_category body.category)
        (record c { debug_output = c.debug_output ++ body.output }) h

  -- No event changes the tracked breakpoints.
  pub handle_event-Tracks :
      (j : Codec) (msg : Response) (c : Client)
      → Tracks files functions c
      → Tracks files functions (handle_event j msg c).1
  handle_event-Tracks j msg c h =
      handle_event-cases j msg c (λ r. Tracks files functions r.1) (λ r. stop_with-Tracks r c h)
        (unfold on_continued in h) (unfold on_terminated in h) (λ r. output_with-Tracks r c h) h
