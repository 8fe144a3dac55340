-- ===== src/Cli/Shell/Terminal.antt =====
-- cmd/dlvpp/loop.go: the command line of a terminal and its keys.

use dlvpp.Base.{
  ℕ, ◌-◌, Bytes, Bool, true, false, not, List, [], ◌∷◌, ◌++◌, Option, codes, ◌==◌, ◌||◌, ◌&&◌,
  if◌then◌else◌, is_empty, length, take,
}
use dlvpp.Base.Int.{negsuc}
use dlvpp.Base.Fault.{Error, sentinel, Result, ok, err, is_error, eof, deadline_exceeded}
use dlvpp.Cli.View.{session_exited}
use dlvpp.Cli.History.{Editing, previous_tty_history, next_tty_history}
use dlvpp.Cli.Printing.{is_printable_byte}
use dlvpp.Cli.Shell.{Shell, write}

-- What the byte reader's `Next` meets: a byte, with `ctx.Err()` when it is handled; that no byte came in
-- the time a sequence may take, which only `readTTYEscapeKey` waits for; or an error. At the end of the
-- list it is io.EOF.
pub data KeyInput : Type 0 where
  byte : ℕ → Option Error → KeyInput
  quiet : KeyInput
  fault : Error → KeyInput

-- The variables of `runTTYCommandLoop`.
pub record Keys : Type 0 where
  pub editing : Editing
  pub command_mode : Bool
  pub command_history : List Bytes

pub record Terminal (R : Type 0) : Type 0 where
  pub keys : Keys
  pub shell : Shell R

-- A buffer that shows no entry of the history, and has no draft.
abbrev pub typing : Bytes → Editing
typing buffer = record { buffer = buffer; index = negsuc 0; draft = [] }

abbrev pub initial_keys : Keys
initial_keys = record { editing = typing []; command_mode = false; command_history = [] }

-- `readTTYEscapeKey` after the prefix, and the rest of the input.
unfoldable pub key_of_sequence : List KeyInput → Result ℕ × List KeyInput
key_of_sequence [] = (err (sentinel eof), [])
key_of_sequence (quiet ∷ inputs) = (ok 0, inputs)
key_of_sequence (fault e ∷ inputs) = (if is_error e deadline_exceeded then ok 0 else err e, inputs)
key_of_sequence (byte b ctx ∷ inputs) = (ok b, inputs)

-- `readTTYEscapeKey`; `[` is 91.
unfoldable pub read_tty_escape_key : List KeyInput → Result ℕ × List KeyInput
unfolding key_of_sequence
read_tty_escape_key [] = (err (sentinel eof), [])
read_tty_escape_key (quiet ∷ inputs) = (ok 0, inputs)
read_tty_escape_key (fault e ∷ inputs) =
    (if is_error e deadline_exceeded then ok 0 else err e, inputs)
read_tty_escape_key (byte b ctx ∷ inputs) =
    if b == 91 then key_of_sequence inputs else (ok 0, inputs)

-- `commandBuf[:len(commandBuf)-1]`.
abbrev without_last : Bytes → Bytes
without_last buffer = take (length buffer - 1) buffer

module _ {R : Type 0} where
  unfoldable pub with_keys : (Keys → Keys) → Terminal R → Terminal R
  with_keys f t = record t { keys = f t.keys }

  unfoldable pub echo : Bytes → Terminal R → Terminal R
  unfolding write
  echo shown t = record t { shell = write shown t.shell }

  -- Leaves the command line: the index and the draft are reset.
  unfoldable pub edit : Bool → Bytes → Terminal R → Terminal R
  unfolding with_keys
  edit mode buffer = with_keys (λ k. record k { command_mode = mode; editing = typing buffer })

  -- `renderTTYCommandLine`.
  unfoldable pub render_tty_command_line : Terminal R → Terminal R
  unfolding echo
  render_tty_command_line t =
      let prefix = if t.shell.view.output_tty then codes ">" else [] in
      echo (13 ∷ (27 ∷ (codes "[2K" ++ (prefix ++ t.keys.editing.buffer)))) t

  -- The keys that the switch leaves to the command line.
  unfoldable pub type_key : ℕ → Terminal R → Terminal R
  unfolding edit echo
  type_key b t =
      if not t.keys.command_mode || not (is_printable_byte b)
      then t
      else echo (b ∷ []) (edit true (t.keys.editing.buffer ++ b ∷ []) t)

  unfoldable pub recall : (List Bytes → Editing → Editing) → Terminal R → Terminal R
  unfolding with_keys render_tty_command_line
  recall move t =
      render_tty_command_line
        (with_keys (λ k. record k { editing = move k.command_history k.editing }) t)

  -- The arrow up: outside of the command line it opens the line, if there is a history.
  unfoldable pub arrow_up : Terminal R → Terminal R
  unfolding recall edit previous_tty_history
  arrow_up t =
      if t.keys.command_mode
      then recall previous_tty_history t
      else if is_empty t.keys.command_history
      then t
      else recall previous_tty_history (edit true [] t)

  unfoldable pub arrow_down : Terminal R → Terminal R
  unfolding recall next_tty_history
  arrow_down t = if t.keys.command_mode then recall next_tty_history t else t

  unfoldable pub erase : Terminal R → Terminal R
  unfolding edit render_tty_command_line
  erase t =
      if not t.keys.command_mode || is_empty t.keys.editing.buffer
      then t
      else render_tty_command_line (edit true (without_last t.keys.editing.buffer) t)

  -- Whether only the key `o` does not end the loop.
  unfoldable pub is_over : Terminal R → Bool
  unfolding session_exited
  is_over t = session_exited t.shell.view && not t.keys.command_mode
