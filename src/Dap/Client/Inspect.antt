-- ===== src/Dap/Client/Inspect.antt =====
-- internal/backend/dap/client.go: running the target, and looking at its state.
pub mod Runs
pub mod Keeps
use dlvpp.Base.{
  ℕ, ◌+◌, Bytes, Bool, true, false, not, List, [], ◌∷◌, ◌++◌, Option, none, some, map, codes, eqb,
  ◌&&◌, ◌||◌, if◌then◌else◌, join, split, trim_space, trim_left_byte, to_lower, is_empty,
  has_prefix,
}
use dlvpp.Base.Int.{ℤ, pos, is_positive, le_int}
use dlvpp.Base.Fault.{Error, sentinel, text, Result, ok, err, unsupported, wrap_error}
use dlvpp.Base.Proc.{Proc, pure, fail, lift, after, ◌>>=◌, ◌>>◌}
use dlvpp.Backend.{
  StopState, zero_stop_state, Frame, FrameRef, Variable, OutputEntry, OutputCategory, Value,
}
use dlvpp.Dap.Wire.{
  Json, string, number, object, end, field, Response, Codec, StackFrame, Scope, DapVariable,
  EvaluateBody,
}
use dlvpp.Dap.Client.{Client, Conn, require_conn, not_connected}
use dlvpp.Dap.Client.Requests.{request_locked, wait_for_stop}

abbrev thread_of : Option StopState → ℤ
thread_of none = pos 1
thread_of (some s) = if is_positive s.thread_id then s.thread_id else pos 1

unfoldable pub begin_with : Result Conn → Proc Client ℤ
begin_with (err e) c = (err e, c)
begin_with (ok k) c =
    let thread = thread_of c.stop_state in
    (
      ok thread,
      record c {
        stop_state =
            some (record zero_stop_state {
              running = true;
              thread_id = thread;
              goroutine_id = thread;
            });
      },
    )

-- The critical section of `runThreadAction`: the state becomes "running".
unfoldable pub begin_thread_action : Proc Client ℤ
unfolding begin_with require_conn
begin_thread_action c = begin_with (require_conn c) c

-- The test of `State` on the stored state.
abbrev pub stored_state : Option StopState → Result StopState
stored_state none = err (text (codes "debuggee is not stopped"))
stored_state (some s) = ok s

unfoldable pub state_with : Result Conn → Proc Client StopState
state_with (err e) c = (err e, c)
state_with (ok k) c = (stored_state c.stop_state, c)

-- `State`.
unfoldable pub state : Proc Client StopState
unfolding state_with require_conn
state c = state_with (require_conn c) c

-- `StepOut` and `Pause`.
unfoldable pub step_out : Proc Client StopState
step_out = fail (sentinel unsupported)

unfoldable pub pause : Proc Client StopState
pause = fail (sentinel unsupported)

to_frame : ℤ → StackFrame → Frame
to_frame thread f = record {
  ref = record { goroutine_id = thread; index = f.id };
  location = record { file = f.source_path; line = f.line; function = f.name };
}

to_variable : DapVariable → Variable
to_variable v = record {
  name = v.name;
  type = v.type;
  value = v.value;
  has_children = is_positive v.variables_reference;
  reference = v.variables_reference;
}

to_value : EvaluateBody → Value
to_value b = record {
  type = b.type;
  value = b.result;
  has_children = is_positive b.variables_reference;
  reference = b.variables_reference;
}

named_local : Scope → Bool
unfolding eqb
named_local s =
    let name = to_lower s.name in eqb name (codes "arguments") || eqb name (codes "locals")

keep_scopes : (Scope → Bool) → List Scope → List Scope
keep_scopes keeps [] = []
keep_scopes keeps (s ∷ ss) = let rest = keep_scopes keeps ss in if keeps s then s ∷ rest else rest

-- `selectLocalScopes`.
unfoldable pub select_local_scopes : List Scope → List Scope
unfolding keep_scopes named_local
select_local_scopes scopes =
    let selected = keep_scopes named_local scopes in
    if is_empty selected then keep_scopes (λ s. not s.expensive) scopes else selected

abbrev stack_thread : ℤ → Option StopState → ℤ
stack_thread goroutine none = goroutine
stack_thread goroutine (some s) = if is_positive goroutine then goroutine else s.thread_id

abbrev stack_arguments : ℤ → ℤ → Json
stack_arguments thread depth = object (
    field (codes "threadId") (number thread)
      (if is_positive depth then field (codes "levels") (number depth) end else end))

abbrev decoded : {A : Type 0} → Bytes → Result A → Proc Client A
decoded what (ok a) c = (ok a, c)
decoded what (err e) c = (err (wrap_error (codes "decode " ++ (what ++ codes " response: ")) e), c)

abbrev require : {A : Type 0} → Bool → Bytes → Proc Client A → Proc Client A
require test message rest = if test then rest else fail (text message)

-- Runs the rest of a method that first wants a connection.
abbrev connected : {A : Type 0} → Proc Client A → Proc Client A
connected rest c = elim (require_conn c) [ err e ↦ (err e, c) | ok k ↦ rest c ]

-- `strings.Split(text, "\n")` without the lines of the server's banner.
keep_lines : List Bytes → List Bytes
unfolding has_prefix
keep_lines [] = []
keep_lines (line ∷ lines) =
    let rest = keep_lines lines in
    if has_prefix (trim_space line) (codes "DAP server listening at:") then rest else line ∷ rest

-- `sanitizeProcessStdout`.
unfoldable pub sanitize_process_stdout : Bytes → Bytes
unfolding keep_lines
sanitize_process_stdout raw =
    if is_empty raw then [] else trim_left_byte 10 (join (keep_lines (split raw 10)) (codes "\n"))

abbrev stdout_entries : Bytes → List OutputEntry
stdout_entries [] = []
stdout_entries (c ∷ s) = record { category = OutputCategory.stdout; text = c ∷ s } ∷ []

abbrev stderr_entries : Bytes → List OutputEntry
stderr_entries raw =
    if is_empty (trim_space raw)
    then []
    else record { category = OutputCategory.stderr; text = raw } ∷ []

-- `Output`.
unfoldable pub output : Proc Client (List OutputEntry)
unfolding sanitize_process_stdout
output c = (
  ok (
      c.target_output
      ++ (stdout_entries (sanitize_process_stdout c.stdout) ++ stderr_entries c.stderr)),
  c,
)

module _ (j : Codec) where
  -- `runThreadAction`; `Continue`, `Next` and `StepIn` call it with their command.
  unfoldable pub run_thread_action : Bytes → Proc Client StopState
  run_thread_action command = do
    thread ← begin_thread_action
    request_locked j command (object (field (codes "threadId") (number thread) end))
    wait_for_stop j
    state

  unfoldable pub continue : Proc Client StopState
  continue = run_thread_action (codes "continue")

  unfoldable pub next : Proc Client StopState
  next = run_thread_action (codes "next")

  unfoldable pub step_in : Proc Client StopState
  step_in = run_thread_action (codes "stepIn")

  -- `Stack`.
  unfoldable pub stack : ℤ → ℤ → Proc Client (List Frame)
  unfolding to_frame require_conn
  stack goroutine depth = connected (λ c.
      let thread = stack_thread goroutine c.stop_state in
      require (is_positive thread) (codes "no current thread id available")
        (do
          resp ← request_locked j (codes "stackTrace") (stack_arguments thread depth)
          frames ← decoded (codes "stackTrace") (j.decode_stack_frames resp.body)
          pure (map (to_frame thread) frames))
        c)

  -- `variablesFromReferenceLocked`.
  unfoldable pub variables_from_reference : ℤ → Proc Client (List Variable)
  unfolding to_variable
  variables_from_reference reference = do
    resp ←
        request_locked j (codes "variables")
          (object (field (codes "variablesReference") (number reference) end))
    variables ← decoded (codes "variables") (j.decode_variables resp.body)
    pure (map to_variable variables)

  -- The loop of `Locals` over the selected scopes.
  unfoldable pub scope_variables : List Scope → Proc Client (List Variable)
  scope_variables [] = pure []
  scope_variables (s ∷ ss) = do
    variables ← variables_from_reference s.variables_reference
    rest ← scope_variables ss
    pure (variables ++ rest)

  -- `Locals`.
  unfoldable pub locals : FrameRef → Proc Client (List Variable)
  unfolding require_conn
  locals frame = connected (
      require (is_positive frame.index) (codes "frame id is required") (do
        resp ←
            request_locked j (codes "scopes")
              (object (field (codes "frameId") (number frame.index) end))
        scopes ← decoded (codes "scopes") (j.decode_scopes resp.body)
        scope_variables (select_local_scopes scopes)))

  -- `Children`.
  unfoldable pub children : ℤ → Proc Client (List Variable)
  unfolding require_conn
  children reference = connected (
      require (is_positive reference) (codes "variables reference is required")
        (variables_from_reference reference))

  -- `Eval`.
  unfoldable pub eval : FrameRef → Bytes → Proc Client Value
  unfolding to_value require_conn
  eval frame expr = connected (
      require (is_positive frame.index) (codes "frame id is required") (
        let trimmed = trim_space expr in
        require (not (is_empty trimmed)) (codes "expression is required") (do
          resp ← request_locked j (codes "evaluate") (
              object (
                field (codes "expression") (string trimmed) (
                  field (codes "frameId") (number frame.index)
                    (field (codes "context") (string (codes "watch")) end))))
          body ← decoded (codes "evaluate") (j.decode_evaluate resp.body)
          pure (to_value body))))
