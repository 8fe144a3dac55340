-- ===== src/Sourceview.antt =====
-- internal/sourceview/render.go: windows of source lines with the current line and the breakpoints
-- marked. The files and the Go scanner are given; the highlighter, the search for the enclosing
-- function and the proofs are below.
pub mod Highlight
pub mod Painted
pub mod Enclosing
pub mod Window
pub mod Function
use dlvpp.Base.{
  ℕ, zero, suc, ◌+◌, ◌-◌, Bytes, Bool, true, false, List, [], ◌∷◌, ◌++◌, Option, none, some, codes,
  ltb, ◌||◌, if◌then◌else◌, length, get_elem?, itoa, split, has_suffix, reverse, has_prefix,
}
use dlvpp.Base.Int.{
  ℤ, pos, negsuc, ◌+ℤ◌, ◌-ℤ◌, lt_int, le_int, eq_int, is_positive, max_int_of, min_int_of,
}
use dlvpp.Base.Fault.{Error, text, Result, ok, err, wrap_error, ◌>>=◌}

abbrev pub ansi_reset : Bytes
ansi_reset = 27 ∷ codes "[0m"

abbrev pub ansi_dim : Bytes
ansi_dim = 27 ∷ codes "[2m"

abbrev pub ansi_yellow : Bytes
ansi_yellow = 27 ∷ codes "[33m"

abbrev pub ansi_red : Bytes
ansi_red = 27 ∷ codes "[31m"

-- "●" in UTF-8.
abbrev pub bullet : Bytes
bullet = 0xE2 ∷ 0x97 ∷ 0x8F ∷ []

-- `_, ok := breakpoints[line]`; the set is the list of its lines.
unfoldable pub has_line : List ℤ → ℤ → Bool
has_line [] line = false
has_line (l ∷ ls) line = eq_int l line || has_line ls line

-- `formatBreakpointMarker`.
unfoldable pub format_breakpoint_marker : ℤ → List ℤ → Bytes
unfolding has_line
format_breakpoint_marker line breakpoints =
    if has_line breakpoints line then ansi_red ++ (bullet ++ ansi_reset) else codes " "

-- `%4d`.
unfoldable pub pad4 : Bytes → Bytes
pad4 (a ∷ []) = codes "   " ++ a ∷ []
pad4 (a ∷ b ∷ []) = codes "  " ++ a ∷ b ∷ []
pad4 (a ∷ b ∷ c ∷ []) = codes " " ++ a ∷ b ∷ c ∷ []
pad4 s = s

abbrev line_text : Option Bytes → Bytes
line_text none = []
line_text (some s) = s

-- One round of the loop of `formatRange`, for the line of number `i + 1`.
unfoldable pub row : List Bytes → ℤ → List ℤ → ℕ → Bytes
unfolding format_breakpoint_marker pad4
row lines current breakpoints i =
    let number = pos (suc i) in
    let tail =
      format_breakpoint_marker number breakpoints
      ++ (codes " " ++ (line_text (get_elem? lines i) ++ codes "\n")) in
    if eq_int number current
    then ansi_yellow
      ++ (ansi_dim ++ (codes ">" ++ (pad4 (itoa number) ++ (ansi_reset ++ (codes " " ++ tail)))))
    else ansi_dim ++ (codes " " ++ (pad4 (itoa number) ++ (ansi_reset ++ (codes " " ++ tail))))

-- The loop: the rows of `count` lines from index `i`.
unfoldable pub rows : List Bytes → ℤ → List ℤ → ℕ → ℕ → List Bytes
unfolding row
rows lines current breakpoints i zero = []
rows lines current breakpoints i (suc count) =
    row lines current breakpoints i ∷ rows lines current breakpoints (suc i) count

unfoldable pub concat : List Bytes → Bytes
concat [] = []
concat (s ∷ ss) = s ++ concat ss

abbrev out_of_range : Bytes → ℤ → Result Bytes
out_of_range what n =
    err (text (codes "source " ++ (what ++ (codes "line out of range: " ++ itoa n))))

abbrev invalid_range : Bytes → ℤ → ℤ → Result Bytes
invalid_range what start end = err (
    text
      (codes "source range " ++ (what ++ (codes ": " ++ (itoa start ++ (codes "-" ++ itoa end))))))

abbrev pub nat_of : ℤ → ℕ
nat_of (pos n) = n
nat_of (negsuc n) = 0

abbrev outside : ℤ → List Bytes → Bool
outside n lines = le_int n (pos 0) || lt_int (pos (length lines)) n

-- `formatRange`.
unfoldable pub format_range : List Bytes → ℤ → ℤ → ℤ → List ℤ → Result Bytes
unfolding rows concat
format_range lines current start end breakpoints =
    if outside current lines
    then out_of_range [] current
    else if outside start lines
    then out_of_range (codes "start ") start
    else if outside end lines
    then out_of_range (codes "end ") end
    else if lt_int end start
    then invalid_range (codes "invalid") start end
    else ok (
        codes "\n"
        ++ (concat
              (rows lines current breakpoints (nat_of start - 1) (nat_of end + 1 - nat_of start))
            ++ codes "\n"))

-- What the package is given: `os.ReadFile`, and `highlightGoSource` over the scanner's tokens.
pub record Sources : Type 0 where
  pub read_file : Bytes → Result Bytes
  pub highlight : Bytes → Bytes

unfoldable pub rendered : Sources → Bytes → Result Bytes → Result (List Bytes)
rendered s path (err e) = err (wrap_error (codes "read source: ") e)
rendered s path (ok content) =
    ok (split (if has_suffix path (codes ".go") then s.highlight content else content) 10)

module _ (s : Sources) where
  -- `renderedLines`.
  unfoldable pub rendered_lines : Bytes → Result (List Bytes)
  unfolding rendered
  rendered_lines path = rendered s path (s.read_file path)

  -- `RenderWindowWithBreakpoints`; `RenderWindow` passes no breakpoints.
  unfoldable pub render_window : Bytes → ℤ → ℤ → List ℤ → Result Bytes
  render_window path line context breakpoints = do
    lines ← rendered_lines path
    format_range lines line (max_int_of (pos 1) (line -ℤ context))
        (min_int_of (pos (length lines)) (line +ℤ context)) breakpoints

  -- `RenderRangeWithBreakpoints`.
  unfoldable pub render_range : Bytes → ℤ → ℤ → ℤ → List ℤ → Result Bytes
  render_range path line start end breakpoints = do
    lines ← rendered_lines path
    if le_int start (pos 0) || le_int end (pos 0)
        then invalid_range (codes "out of range") start end
        else if lt_int end start
        then invalid_range (codes "invalid") start end
        else format_range lines line (max_int_of (pos 1) start)
            (min_int_of (pos (length lines)) end) breakpoints
