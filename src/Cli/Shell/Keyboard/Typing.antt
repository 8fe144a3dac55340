-- ===== src/Cli/Shell/Keyboard/Typing.antt =====
-- cmd/dlvpp/loop.go: what a line that is typed into the terminal does.
use dlvpp.Base.{
  ℕ, suc, ◌+◌, ◌≡◌, refl, ap, ◌∙◌, Bytes, Bool, true, false, List, [], ◌∷◌, ◌++◌, map, Option, none,
  codes, length, All, trim_space, length-append, length-map, append_assoc, append-nil, arith,
}
use dlvpp.Base.Fault.{Error, Result, ok, err}
use dlvpp.Cli.History.{append_tty_command_history}
use dlvpp.Cli.View.{session_exited}
use dlvpp.Cli.Printing.{is_printable_byte}
use dlvpp.Cli.Shell.{Runner, Env, Shell, write}
use dlvpp.Cli.Shell.Commands.{process_command}
use dlvpp.Cli.Shell.Loops.{unless_done}
use dlvpp.Cli.Shell.Terminal.{
  KeyInput, byte, Keys, Terminal, typing, is_over, type_key, echo, edit, with_keys,
}
use dlvpp.Cli.Shell.Keyboard.{
  emptied, in_terminal, enter, run_tty_command, press, handle_byte, key_loop,
}
use dlvpp.Cli.Shell.Keyboard.Fuel.{key_loop_enough}

-- The keys of a text.
abbrev pub typed : Bytes → List KeyInput
typed = map (λ c. byte c none)

abbrev pub keys_of : Bool → Bytes → List Bytes → Keys
keys_of mode buffer history = record {
  editing = typing buffer;
  command_mode = mode;
  command_history = history;
}

module _ {R : Type 0} (env : Env) (runner : Runner R) where
  abbrev pub shell_of : Result (Unit {0}) × Terminal R → Result (Unit {0}) × Shell R
  shell_of (r, t) = (r, t.shell)

  -- The loop outside of the command line, on all of an input.
  abbrev pub await_keys : List KeyInput → List Bytes → Shell R → Result (Unit {0}) × Shell R
  await_keys inputs history s = shell_of (
      key_loop env runner (suc (length inputs)) inputs
        (record { keys = keys_of false [] history; shell = s }))

  abbrev on_line : Bytes → List Bytes → Shell R → Terminal R
  on_line buffer history s = record { keys = keys_of true buffer history; shell = s }

  on_line-not-is_over :
      (buffer : Bytes) (history : List Bytes) (s : Shell R)
      → is_over (on_line buffer history s) ≡ false
  unfolding is_over
  on_line-not-is_over buffer history s = ground arith

  -- A printable byte on the command line.
  press-printable :
      (c : ℕ) (buffer : Bytes) (history : List Bytes) (s : Shell R)
      → is_printable_byte c ≡ true
      → press env runner c none (on_line buffer history s)
        ≡ (ok false, on_line (buffer ++ c ∷ []) history (write (c ∷ []) s))
  unfolding press type_key echo edit
  press-printable c buffer history s p = ground arith

  handle_byte-printable :
      (c : ℕ) (inputs : List KeyInput) (buffer : Bytes) (history : List Bytes) (s : Shell R)
      → is_printable_byte c ≡ true
      → handle_byte env runner c none inputs (on_line buffer history s)
        ≡ ((ok false, on_line (buffer ++ c ∷ []) history (write (c ∷ []) s)), inputs)
  unfolding handle_byte
  handle_byte-printable c inputs buffer history s p =
      rw (on_line-not-is_over buffer history s, press-printable c buffer history s p) (ground arith)

  key_loop-printable :
      (n c : ℕ) (inputs : List KeyInput) (buffer : Bytes) (history : List Bytes) (s : Shell R)
      → is_printable_byte c ≡ true
      → key_loop env runner (suc n) (byte c none ∷ inputs) (on_line buffer history s)
        ≡ key_loop env runner n inputs (on_line (buffer ++ c ∷ []) history (write (c ∷ []) s))
  unfolding key_loop
  key_loop-printable n c inputs buffer history s p =
      ap (λ r. unless_done r.0 (key_loop env runner n r.1))
        (handle_byte-printable c inputs buffer history s p)

  write-nil : (s : Shell R) → write [] s ≡ s
  unfolding write
  write-nil s = ap (λ o. record s { out = o }) (append-nil s.out)

  write-write : (a b : Bytes) (s : Shell R) → write b (write a s) ≡ write (a ++ b) s
  unfolding write
  write-write a b s = ap (λ o. record s { out = o }) (append_assoc s.out a b)

  -- A text on the command line is echoed and put behind what stands there.
  key_loop-typed :
      (text : Bytes) (n : ℕ) (inputs : List KeyInput) (buffer : Bytes) (history : List Bytes)
      (s : Shell R)
      → All (λ c. is_printable_byte c ≡ true) text
      → key_loop env runner (length text + n) (typed text ++ inputs) (on_line buffer history s)
        ≡ key_loop env runner n inputs (on_line (buffer ++ text) history (write text s))
  unfolding key_loop
  key_loop-typed [] n inputs buffer history s h =
      rw (append-nil buffer, write-nil s)
        (let e : 0 + n ≡ n = omega arith in
          ap (λ k. key_loop env runner k inputs (on_line buffer history s)) e)
  key_loop-typed (c ∷ text) n inputs buffer history s (p, h) =
      let e : suc (length text) + n ≡ suc (length text + n) = omega arith in
      ap (λ k. key_loop env runner k (typed (c ∷ text) ++ inputs) (on_line buffer history s)) e
      ∙ key_loop-printable (length text + n) c (typed text ++ inputs) buffer history s p
      ∙ key_loop-typed text n inputs (buffer ++ c ∷ []) history (write (c ∷ []) s) h
      ∙ (rw (append_assoc buffer (c ∷ []) text, write-write (c ∷ []) text s))

  unless_done-emptied :
      (n : ℕ) (inputs : List KeyInput) (buffer : Bytes) (history : List Bytes)
      (r : Result Bool × Shell R)
      → shell_of (
          unless_done
            (emptied (in_terminal (keys_of false buffer history) r))
            (key_loop env runner n inputs))
        ≡ unless_done r (λ s.
          shell_of
            (key_loop env runner n inputs (record { keys = keys_of false [] history; shell = s })))
  unfolding with_keys
  unless_done-emptied n inputs buffer history (ok false, s) = refl
  unless_done-emptied n inputs buffer history (ok true, s) = refl
  unless_done-emptied n inputs buffer history (err e, s) = refl

  key_loop-enter :
      (n : ℕ) (ctx : Option Error) (inputs : List KeyInput) (buffer : Bytes) (history : List Bytes)
      (s : Shell R)
      → shell_of (key_loop env runner (suc n) (byte 13 ctx ∷ inputs) (on_line buffer history s))
        ≡ unless_done
            (process_command env runner ctx (trim_space buffer) (write (codes "\n") s))
            (λ s'. shell_of (
              key_loop env runner n inputs (record {
                keys = keys_of false [] (append_tty_command_history history (trim_space buffer));
                shell = s';
              })))
  unfolding key_loop handle_byte press enter run_tty_command edit echo with_keys
  key_loop-enter n ctx inputs buffer history s = rw (on_line-not-is_over buffer history s) (
      unless_done-emptied n inputs buffer (append_tty_command_history history (trim_space buffer))
        (process_command env runner ctx (trim_space buffer) (write (codes "\n") s)))

  abbrev idle : List Bytes → Shell R → Terminal R
  idle history s = record { keys = keys_of false [] history; shell = s }

  idle-not-is_over :
      (history : List Bytes) (s : Shell R)
      → session_exited s.view ≡ false
      → is_over (idle history s) ≡ false
  unfolding is_over
  idle-not-is_over history s h = rw h

  key_loop-colon :
      (n : ℕ) (inputs : List KeyInput) (history : List Bytes) (s : Shell R)
      → session_exited s.view ≡ false
      → key_loop env runner (suc n) (byte 58 none ∷ inputs) (idle history s)
        ≡ key_loop env runner n inputs (on_line (codes ":") history (write (codes ":") s))
  unfolding key_loop handle_byte press edit echo with_keys
  key_loop-colon n inputs history s h = rw (idle-not-is_over history s h)

  typed-length :
      (text : Bytes) (inputs : List KeyInput)
      → length (typed text ++ inputs) ≡ length text + length inputs
  typed-length text inputs =
      length-append (typed text) inputs
      ∙ ap (λ k. k + length inputs) (length-map (λ c. byte c none) text)

  -- A colon, a printable text and Enter, typed outside of the command line while the program has
  -- not exited, do what a line that the line loop reads does: the trimmed text, with its colon, is
  -- processed as a command, after its echo, and the loop goes on behind it with the command in the
  -- history, or ends with it.
  pub await_keys-typed :
      (text : Bytes) (ctx : Option Error) (inputs : List KeyInput) (history : List Bytes)
      (s : Shell R)
      → session_exited s.view ≡ false
      → All (λ c. is_printable_byte c ≡ true) text
      → await_keys (byte 58 none ∷ (typed text ++ byte 13 ctx ∷ inputs)) history s
        ≡ unless_done
            (process_command env runner ctx
              (trim_space (58 ∷ text))
              (write (58 ∷ (text ++ codes "\n")) s))
            (await_keys inputs (append_tty_command_history history (trim_space (58 ∷ text))))
  await_keys-typed text ctx inputs history s h p =
      let rest = byte 13 ctx ∷ inputs in
      let all = typed text ++ rest in
      let size : length all ≡ length text + suc (length inputs) = typed-length text rest in
      let line = on_line (codes ":") history (write (codes ":") s) in
      ap shell_of (
        key_loop-colon (suc (length all)) all history s h
        ∙ key_loop_enough env runner (suc (length all)) (length text + suc (suc (length inputs)))
            all line (omega arith) (omega arith)
        ∙ key_loop-typed text (suc (suc (length inputs))) rest (codes ":") history
            (write (codes ":") s) p)
      ∙ key_loop-enter (suc (length inputs)) ctx inputs (58 ∷ text) history
          (write text (write (codes ":") s))
      ∙ (rw (write-write (codes ":") text s, write-write (58 ∷ text) (codes "\n") s))
