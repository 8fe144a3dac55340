-- ===== src/Sourceview/Window.antt =====
-- internal/sourceview/render.go: which lines a window shows, and when it fails.
use native.Mathlib.Nat.{add-zero}
use dlvpp.Base.{
  ℕ, zero, suc, ◌+◌, ◌-◌, ◌^◌, ◌≤◌, ◌<◌, min, ◌≡◌, refl, ap, ◌∙◌, Bytes, List, ◌++◌, some, codes,
  length, get_elem?, arith,
}
use dlvpp.Base.Int.{ℤ, pos, ◌+ℤ◌, ◌-ℤ◌, max_int_of, min_int_of}
use dlvpp.Base.Fault.{ok}
use dlvpp.Sourceview.{row, rows, concat, format_range, Sources, rendered_lines, render_window}

-- The rows of a range are those of its lines, in order, each once.
pub rows_lem :
    (lines : List Bytes) (current : ℤ) (breakpoints : List ℤ) (i count k : ℕ)
    → k < count
    → get_elem? (rows lines current breakpoints i count) k
      ≡ some (row lines current breakpoints (i + k))
unfolding rows
rows_lem lines current breakpoints i zero k h = absurd (omega arith)
rows_lem lines current breakpoints i (suc count) zero h = rw (add-zero i)
rows_lem lines current breakpoints i (suc count) (suc k) h =
    rows_lem lines current breakpoints (suc i) count k (omega arith)
    ∙ ap (λ n. some (row lines current breakpoints n)) (omega arith)

pub length-rows :
    (lines : List Bytes) (current : ℤ) (breakpoints : List ℤ) (i count : ℕ)
    → length (rows lines current breakpoints i count) ≡ count
unfolding rows
length-rows lines current breakpoints i zero = refl
length-rows lines current breakpoints i (suc count) =
    ap suc (length-rows lines current breakpoints (suc i) count)

-- The text of a window: the rows of `count` lines from index `first`.
abbrev pub window_text : List Bytes → ℤ → List ℤ → ℕ → ℕ → Bytes
window_text lines current breakpoints first count =
    codes "\n" ++ (concat (rows lines current breakpoints first count) ++ codes "\n")

window_start :
    (line context : ℕ)
    → 0 < line
    → line < 2 ^ 63
    → context < 2 ^ 63
    → max_int_of (pos 1) (pos line -ℤ pos context) ≡ pos (suc (line - 1 - context))
unfolding ◌-ℤ◌
window_start line context p b d = ground arith

window_end :
    (n line context : ℕ)
    → line + context < 2 ^ 63
    → min_int_of (pos n) (pos line +ℤ pos context) ≡ pos (min n (line + context))
unfolding ◌+ℤ◌
window_end n line context b = ground arith

format_range-ok :
    (lines : List Bytes) (current first end : ℕ) (breakpoints : List ℤ)
    → 0 < current
    → current ≤ length lines
    → suc first ≤ end
    → end ≤ length lines
    → format_range lines (pos current) (pos (suc first)) (pos end) breakpoints
      ≡ ok (window_text lines (pos current) breakpoints first (end - first))
unfolding format_range
format_range-ok lines current first end breakpoints p q r s = ground arith

module _ (s : Sources) (path : Bytes) (lines : List Bytes)
    (read : rendered_lines s path ≡ ok lines) where
  -- Around a line of the file, with a context that is not negative and no sum that overflows, a
  -- window renders, and it is the rows from `context` lines above (or the first line) to `context`
  -- lines below (or the last line).
  pub render_window-ok :
      (line context : ℕ) (breakpoints : List ℤ)
      → 0 < line
      → line ≤ length lines
      → length lines + context < 2 ^ 63
      → render_window s path (pos line) (pos context) breakpoints
        ≡ ok (
            window_text lines
              (pos line)
              breakpoints
              (line - 1 - context)
              (min (length lines) (line + context) - (line - 1 - context)))
  unfolding render_window
  render_window-ok line context breakpoints p q r =
      rw
        (
          read,
          window_start line context p (omega arith) (omega arith),
          window_end (length lines) line context (omega arith),
        )
        (format_range-ok lines line (line - 1 - context) (min (length lines) (line + context))
          breakpoints p q (omega arith) (omega arith))
