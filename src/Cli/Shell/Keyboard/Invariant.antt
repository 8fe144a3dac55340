-- ===== src/Cli/Shell/Keyboard/Invariant.antt =====
-- cmd/dlvpp/loop.go: what holds of the command line and its history between two keys.
use dlvpp.Base.{
  ℕ, zero, suc, ◌≤◌, ◌<◌, ◌^◌, ◌≡◌, refl, Bytes, Bool, true, false, not, List, [], ◌∷◌, Option,
  ◌&&◌, ◌||◌, ◌==◌, if_has, is_empty, length, trim_space, codes, arith,
}
use dlvpp.Base.Int.{negsuc}
use dlvpp.Base.Fault.{Error, Result, ok, err}
use dlvpp.Cli.History.{Editing, tty_history_limit, previous_tty_history, next_tty_history}
use dlvpp.Cli.History.Recall.{
  IsShown, append_tty_command_history-bound, previous_tty_history-IsShown, next_tty_history-IsShown,
}
use dlvpp.Cli.Printing.{is_printable_byte}
use dlvpp.Cli.Shell.{Runner, Env}
use dlvpp.Cli.Shell.Loops.{unless_done}
use dlvpp.Cli.Shell.Terminal.{
  KeyInput, byte, quiet, fault, Keys, Terminal, read_tty_escape_key, with_keys, echo, edit,
  render_tty_command_line, type_key, recall, arrow_up, arrow_down, erase, is_over,
}
use dlvpp.Cli.Shell.Keyboard.{
  emptied, lone_escape, escape_key, run_tty_command, enter, press, press_exited, handle_byte,
  key_loop, is_shortcut,
}
use dlvpp.Cli.View.{session_exited, has_inspection}

-- The history is within its limit, the buffer is the entry that the index names, and outside of the
-- command line there is no such entry.
pub record IsSound (k : Keys) : Type 0 where
  pub bounded : length k.command_history ≤ tty_history_limit
  pub shown : IsShown k.command_history k.editing
  pub rests : k.command_mode ≡ false → k.editing.index ≡ negsuc 0

IsShown-own : (history : List Bytes) (e : Editing) → e.index ≡ negsuc 0 → IsShown history e
IsShown-own history e h = record { in_range = rw h tt; shows = λ i same. cc }

own-IsSound :
    (k : Keys)
    → length k.command_history ≤ tty_history_limit
    → k.editing.index ≡ negsuc 0
    → IsSound k
own-IsSound k h e = record {
  bounded = h;
  shown = IsShown-own k.command_history k.editing e;
  rests = λ _. e;
}

unless_done_has :
    {S : Type 0} (P : S → Type 0) (r : Result Bool × S) (f : S → Result (Unit {0}) × S)
    → P r.1
    → ((s : S) → P s → P (f s).1)
    → P (unless_done r f).1
unless_done_has P (ok true, s) f h k = h
unless_done_has P (ok false, s) f h k = k s h
unless_done_has P (err e, s) f h k = h

module _ {R : Type 0} where
  abbrev Sound : Terminal R → Type 0
  Sound t = IsSound t.keys

  edit-Sound :
      (mode : Bool) (buffer : Bytes) (t : Terminal R) → Sound t → Sound (edit mode buffer t)
  unfolding edit with_keys
  edit-Sound mode buffer t h = own-IsSound _ h.bounded refl

  recall-Sound :
      (move : List Bytes → Editing → Editing) (t : Terminal R)
      → ((history : List Bytes) (e : Editing)
          → length history < 2 ^ 63
          → IsShown history e
          → IsShown history (move history e))
      → t.keys.command_mode ≡ true
      → Sound t
      → Sound (recall move t)
  unfolding recall render_tty_command_line echo with_keys
  recall-Sound move t f m h =
      let bounded = h.bounded in
      let fits : length t.keys.command_history < 2 ^ 63 = omega arith in
      record {
        bounded = h.bounded;
        shown = f t.keys.command_history t.keys.editing fits h.shown;
        rests = λ e. absurd cc;
      }

  arrow_up-Sound : (t : Terminal R) → Sound t → Sound (arrow_up t)
  unfolding arrow_up
  arrow_up-Sound t h =
      if_has Sound t.keys.command_mode
        (λ m. recall-Sound previous_tty_history t previous_tty_history-IsShown m h)
        (λ _.
          if_has Sound (is_empty t.keys.command_history) (λ _. h)
            (λ _.
              recall-Sound previous_tty_history (edit true [] t) previous_tty_history-IsShown
                (unfold edit in unfold with_keys in refl) (edit-Sound true [] t h)))

  arrow_down-Sound : (t : Terminal R) → Sound t → Sound (arrow_down t)
  unfolding arrow_down
  arrow_down-Sound t h =
      if_has Sound t.keys.command_mode
        (λ m. recall-Sound next_tty_history t next_tty_history-IsShown m h) (λ _. h)

  type_key-Sound : (b : ℕ) (t : Terminal R) → Sound t → Sound (type_key b t)
  unfolding type_key echo
  type_key-Sound b t h =
      if_has Sound (not t.keys.command_mode || not (is_printable_byte b)) (λ _. h)
        (λ _. edit-Sound true _ t h)

  erase-Sound : (t : Terminal R) → Sound t → Sound (erase t)
  unfolding erase render_tty_command_line echo
  erase-Sound t h =
      if_has Sound (not t.keys.command_mode || is_empty t.keys.editing.buffer) (λ _. h)
        (λ _. edit-Sound true _ t h)

  emptied-Sound :
      (r : Result Bool × Terminal R)
      → r.1.keys.editing.index ≡ negsuc 0
      → Sound r.1
      → Sound (emptied r).1
  unfolding with_keys
  emptied-Sound (ok true, t) e h = h
  emptied-Sound (ok false, t) e h = own-IsSound _ h.bounded e
  emptied-Sound (err x, t) e h = h

module _ {R : Type 0} (env : Env) (runner : Runner R) where
  unfoldable Holds : Result Bool × Terminal R → Type 0
  Holds r = IsSound r.1.keys

  put : (r : Result Bool) (t : Terminal R) → Sound t → Holds (r, t)
  unfolding Holds
  put r t h = h

  lone_escape-Sound : (t : Terminal R) → Sound t → Sound (lone_escape env t)
  unfolding lone_escape echo
  lone_escape-Sound t h =
      if_has Sound t.keys.command_mode (λ _. edit-Sound false [] t h)
        (λ _. if_has Sound _ (λ _. h) (λ _. h))

  escape_key-Sound : (key : Result ℕ) (t : Terminal R) → Sound t → Holds (escape_key env key t)
  unfolding escape_key
  escape_key-Sound (err e) t h = put _ t h
  escape_key-Sound (ok key) t h =
      if_has Holds (key == b'A') (λ _. put _ _ (arrow_up-Sound t h))
        (λ _.
          if_has Holds (key == b'B') (λ _. put _ _ (arrow_down-Sound t h))
            (λ _. if_has Holds (key == 0) (λ _. put _ _ (lone_escape-Sound t h)) (λ _. put _ t h)))

  run_tty_command-Sound :
      (ctx : Option Error) (line : Bytes) (t : Terminal R)
      → t.keys.editing.index ≡ negsuc 0
      → Sound t
      → Holds (run_tty_command env runner ctx line t)
  unfolding run_tty_command Holds
  run_tty_command-Sound ctx line t e h =
      own-IsSound _ (append_tty_command_history-bound t.keys.command_history line h.bounded) e

  enter-Sound : (ctx : Option Error) (t : Terminal R) → Sound t → Holds (enter env runner ctx t)
  unfolding enter echo edit with_keys
  enter-Sound ctx t h =
      if_has Holds (not t.keys.command_mode) (λ _. put _ t h)
        (λ _.
          unfold Holds in
          let left = edit false t.keys.editing.buffer (echo (codes "\n") t) in
          let line = trim_space t.keys.editing.buffer in
          emptied-Sound (run_tty_command env runner ctx line left) (unfold run_tty_command in refl)
            (run_tty_command-Sound ctx line left refl (own-IsSound left.keys h.bounded refl)))

  not-command_mode : (b c : Bool) → (b && not c) ≡ true → c ≡ false
  not-command_mode b c h = ground arith

  press-Sound :
      (b : ℕ) (ctx : Option Error) (t : Terminal R) → Sound t → Holds (press env runner b ctx t)
  unfolding press
  press-Sound b ctx t h =
      let k = t.keys in
      if_has Holds (b == 3) (λ _. put _ t h)
        (λ _.
          if_has Holds ((b == 4) && (not k.command_mode || is_empty k.editing.buffer))
            (λ _. put _ t h)
            (λ _.
              if_has Holds ((b == b'q') && not k.command_mode) (λ _. put _ t h)
                (λ _.
                  if_has Holds (is_shortcut b && not k.command_mode)
                    (λ m.
                      run_tty_command-Sound ctx (b ∷ []) t
                        (h.rests (not-command_mode (is_shortcut b) k.command_mode m)) h)
                    (λ _.
                      if_has Holds ((b == b':') && not k.command_mode)
                        (λ _. put _ _ (unfold echo in edit-Sound true (codes ":") t h))
                        (λ _.
                          if_has Holds ((b == 13) || (b == 10)) (λ _. enter-Sound ctx t h)
                            (λ _.
                              if_has Holds ((b == 127) || (b == 8)) (λ _. put _ _ (erase-Sound t h))
                                (λ _. put _ _ (type_key-Sound b t h))))))))

  press_exited-Sound :
      (b : ℕ) (ctx : Option Error) (t : Terminal R)
      → t.keys.command_mode ≡ false
      → Sound t
      → Holds (press_exited env runner b ctx t)
  unfolding press_exited
  press_exited-Sound b ctx t m h =
      if_has Holds ((b == b'o') && not (has_inspection t.shell.view))
        (λ _. run_tty_command-Sound ctx (codes "o") t (h.rests m) h) (λ _. put _ t h)

  handle_byte-Sound :
      (b : ℕ) (ctx : Option Error) (inputs : List KeyInput) (t : Terminal R)
      → Sound t
      → Holds (handle_byte env runner b ctx inputs t).0
  unfolding handle_byte is_over
  handle_byte-Sound b ctx inputs t h =
      let P : (Result Bool × Terminal R) × List KeyInput → Type 0 = λ r. Holds r.0 in
      if_has P (is_over t)
        (λ o.
          press_exited-Sound b ctx t
            (not-command_mode (session_exited t.shell.view) t.keys.command_mode o) h)
        (λ _.
          if_has P (b == 27) (λ _. escape_key-Sound (read_tty_escape_key inputs).0 t h)
            (λ _. press-Sound b ctx t h))

  -- Whatever the input, the loop keeps the history within its limit, the buffer the entry that the
  -- index names, and the index of no entry outside of the command line.
  pub key_loop-IsSound :
      (n : ℕ) (inputs : List KeyInput) (t : Terminal R)
      → IsSound t.keys
      → IsSound (key_loop env runner n inputs t).1.keys
  unfolding key_loop
  key_loop-IsSound zero inputs t h = h
  key_loop-IsSound (suc n) [] t h = h
  key_loop-IsSound (suc n) (quiet ∷ inputs) t h = key_loop-IsSound n inputs t h
  key_loop-IsSound (suc n) (fault e ∷ inputs) t h = h
  key_loop-IsSound (suc n) (byte b ctx ∷ inputs) t h =
      unless_done_has Sound (handle_byte env runner b ctx inputs t).0 _
        (unfold Holds in handle_byte-Sound b ctx inputs t h) (λ t'. key_loop-IsSound n _ t')
