-- ===== src/Cli/History.antt =====
-- cmd/dlvpp/loop.go: the history of the terminal's command line.
pub mod Recall
use dlvpp.Base.{
  ℕ, ◌-◌, Bytes, Bool, List, [], ◌∷◌, ◌++◌, Option, none, some, ltb, if◌then◌else◌, length, drop,
  get_elem?, trim_space, is_empty, ◌||◌,
}
use dlvpp.Base.Int.{ℤ, pos, negsuc, ◌+ℤ◌, ◌-ℤ◌, lt_int}

abbrev pub tty_history_limit : ℕ
tty_history_limit = 100

unfoldable pub keep_recent : List Bytes → List Bytes
keep_recent history =
    if ltb tty_history_limit (length history)
    then drop (length history - tty_history_limit) history
    else history

-- `appendTTYCommandHistory`.
unfoldable pub append_tty_command_history : List Bytes → Bytes → List Bytes
unfolding keep_recent
append_tty_command_history history line =
    let command = trim_space line in
    if is_empty command then history else keep_recent (history ++ command ∷ [])

-- The buffer, the index into the history (below 0 while the buffer is the user's own) and the
-- user's own text, kept while the history is shown.
pub record Editing : Type 0 where
  pub buffer : Bytes
  pub index : ℤ
  pub draft : Bytes

abbrev entry_at : Option Bytes → Bytes
entry_at none = []
entry_at (some line) = line

-- `history[i]`; the index is in range wherever the code takes it.
unfoldable pub entry : List Bytes → ℤ → Bytes
entry history (pos i) = entry_at (get_elem? history i)
entry history (negsuc i) = []

abbrev show : List Bytes → ℤ → Bytes → Editing
show history i draft = record { buffer = entry history i; index = i; draft = draft }

-- `previousTTYHistory`.
unfoldable pub previous_tty_history : List Bytes → Editing → Editing
unfolding entry
previous_tty_history history e =
    if is_empty history
    then e
    else if lt_int e.index (pos 0)
    then show history (pos (length history) -ℤ pos 1) e.buffer
    else show history (if lt_int (pos 0) e.index then e.index -ℤ pos 1 else e.index) e.draft

-- `nextTTYHistory`.
unfoldable pub next_tty_history : List Bytes → Editing → Editing
unfolding entry
next_tty_history history e =
    if is_empty history || lt_int e.index (pos 0)
    then e
    else if lt_int e.index (pos (length history) -ℤ pos 1)
    then show history (e.index +ℤ pos 1) e.draft
    else record { buffer = e.draft; index = negsuc 0; draft = [] }
