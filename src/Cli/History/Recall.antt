-- ===== src/Cli/History/Recall.antt =====
-- cmd/dlvpp/loop.go: what the arrow keys show.
use dlvpp.Base.{
  ℕ, zero, suc, ◌-◌, ◌<◌, ◌≤◌, ◌^◌, ◌≡◌, refl, sym, Bytes, true, false, List, [], ◌∷◌, ◌++◌, some,
  length, length-drop, get_elem?, trim_space, Bool-cases, inl, inr, arith, ltb,
}
use dlvpp.Base.Int.{ℤ, pos, negsuc, ◌+ℤ◌, ◌-ℤ◌}
use dlvpp.Cli.History.{
  tty_history_limit, keep_recent, append_tty_command_history, Editing, entry, previous_tty_history,
  next_tty_history,
}

-- The index is one of the history's, or says that the buffer is the user's own.
abbrev pub IsIndex : List Bytes → ℤ → Type 0
IsIndex history (pos i) = i < length history
IsIndex history (negsuc i) = Unit

-- The history never grows beyond its limit.
pub append_tty_command_history-bound :
    (history : List Bytes) (line : Bytes)
    → length history ≤ tty_history_limit
    → length (append_tty_command_history history line) ≤ tty_history_limit
unfolding append_tty_command_history keep_recent
append_tty_command_history-bound history line h = ground (
  arith,
  length-drop (length (history ++ trim_space line ∷ []) - tty_history_limit)
      (history ++ trim_space line ∷ []),
)

less_one : (n : ℕ) → suc n < 2 ^ 63 → pos (suc n) -ℤ pos 1 ≡ pos n
unfolding ◌-ℤ◌
less_one n h = ground arith

more_one : (n : ℕ) → suc n < 2 ^ 63 → pos n +ℤ pos 1 ≡ pos (suc n)
unfolding ◌+ℤ◌
more_one n h = ground arith

-- What the terminal shows: the entry of the index, where there is one.
pub record IsShown (history : List Bytes) (e : Editing) : Type 0 where
  pub in_range : IsIndex history e.index
  pub shows : (i : ℕ) → e.index ≡ pos i → get_elem? history i ≡ some e.buffer

get_elem?-some : (xs : List Bytes) (i : ℕ) → i < length xs → (x : Bytes) × (get_elem? xs i ≡ some x)
get_elem?-some [] i h = absurd (omega arith)
get_elem?-some (x ∷ xs) zero h = (x, refl)
get_elem?-some (x ∷ xs) (suc i) h = get_elem?-some xs i (omega arith)

shown :
    (history : List Bytes) (i : ℕ) (draft : Bytes)
    → i < length history
    → IsShown history (record { buffer = entry history (pos i); index = pos i; draft = draft })
unfolding entry
shown history i draft h =
    let (x, found) = get_elem?-some history i h in
    record {
      in_range = h;
      shows = λ k same. let at : i ≡ k = ground arith in rw (sym at, found) refl;
    }

previous_from :
    (history : List Bytes) (b d : Bytes) (i : ℤ)
    → length history < 2 ^ 63
    → IsShown history (record { buffer = b; index = i; draft = d })
    → IsShown history (previous_tty_history history (record { buffer = b; index = i; draft = d }))
unfolding previous_tty_history
previous_from [] b d i fits h = h
previous_from (x ∷ xs) b d (negsuc n) fits h =
    rw (less_one (length xs) fits) (shown (x ∷ xs) (length xs) b (omega arith))
previous_from (x ∷ xs) b d (pos zero) fits h = shown (x ∷ xs) zero d h.in_range
previous_from (x ∷ xs) b d (pos (suc i)) fits h =
    let inside : suc i < length (x ∷ xs) = h.in_range in
    let below : ltb (suc i) 0 ≡ false = ground arith in
    let above : ltb 0 (suc i) ≡ true = ground arith in
    rw (below, above, less_one i (omega arith)) (shown (x ∷ xs) i d (omega arith))

-- The arrow up leaves an index that the history has, if it is not empty, and shows its entry.
pub previous_tty_history-IsShown :
    (history : List Bytes) (e : Editing)
    → length history < 2 ^ 63
    → IsShown history e
    → IsShown history (previous_tty_history history e)
previous_tty_history-IsShown history e fits h =
    previous_from history e.buffer e.draft e.index fits h

next_from :
    (history : List Bytes) (b d : Bytes) (i : ℤ)
    → length history < 2 ^ 63
    → IsShown history (record { buffer = b; index = i; draft = d })
    → IsShown history (next_tty_history history (record { buffer = b; index = i; draft = d }))
unfolding next_tty_history
next_from [] b d i fits h = h
next_from (x ∷ xs) b d (negsuc n) fits h = h
next_from (x ∷ xs) b d (pos i) fits h =
    let inside : i < length (x ∷ xs) = h.in_range in
    let below : ltb i 0 ≡ false = ground arith in
    elim (Bool-cases (ltb i (length xs))) [
      | inl more ↦
          rw (below, less_one (length xs) fits, more, more_one i (omega arith))
            (shown (x ∷ xs) (suc i) d (ground arith))
      | inr last ↦
          rw (below, less_one (length xs) fits, last)
            (record { in_range = tt; shows = λ k same. cc })
    ]

-- The arrow down leaves an index that the history has and shows its entry, or leaves the history.
pub next_tty_history-IsShown :
    (history : List Bytes) (e : Editing)
    → length history < 2 ^ 63
    → IsShown history e
    → IsShown history (next_tty_history history e)
next_tty_history-IsShown history e fits h = next_from history e.buffer e.draft e.index fits h

-- From the user's own text, the arrow up and then the arrow down give the text back.
pub next-previous_tty_history :
    (history : List Bytes) (buffer draft : Bytes) (n : ℕ)
    → 0 < length history
    → length history < 2 ^ 63
    → next_tty_history history
        (previous_tty_history history (record { buffer = buffer; index = negsuc n; draft = draft }))
      ≡ record { buffer = buffer; index = negsuc 0; draft = [] }
unfolding next_tty_history previous_tty_history
next-previous_tty_history [] buffer draft n h fits = absurd (omega arith)
next-previous_tty_history (x ∷ xs) buffer draft n h fits =
    rw (less_one (length xs) fits) (ground arith)
