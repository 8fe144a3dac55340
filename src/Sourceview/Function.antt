-- ===== src/Sourceview/Function.antt =====
-- internal/sourceview/render.go: the view of the function around a line.
use dlvpp.Base.{
  ℕ, ◌≤◌, ◌<◌, ◌≡◌, Bytes, true, List, [], Option, none, some, codes, ◌==◌, if◌then◌else◌,
  has_suffix, Bool-cases, inl, inr, arith, reverse,
}
use mathlib.Core.Path.{subst}
use dlvpp.Base.Int.{ℤ, pos}
use dlvpp.Base.Fault.{Result, ok, err, ◌>>=◌}
use dlvpp.Sourceview.{Sources, render_window, render_range}
use dlvpp.Sourceview.Enclosing.{
  GoFile, FuncNode, innermost, innermost_least, is_around, IsChosen, range_of, parsed,
  enclosing_function_range,
}

-- `RenderFunction`.
unfoldable pub render_function : Sources → (Bytes → Result GoFile) → Bytes → ℤ → Result Bytes
render_function s parse_file path line =
    if has_suffix path (codes ".go")
    then (enclosing_function_range parse_file path line >>= λ r.
        render_range s path line (pos r.0) (pos r.1) [])
    else render_window s path line (pos 5) []

around :
    (line : ℕ) (f : FuncNode)
    → is_around line f ≡ true
    → (0 < f.start) × (f.start ≤ line) × (line ≤ f.end)
around line f h = (ground arith, ground arith, ground arith)

range_of_around :
    (line : ℕ) (best : Option FuncNode) (seen : List FuncNode) (r : ℕ × ℕ)
    → IsChosen line best seen
    → range_of (pos line) best ≡ ok r
    → (0 < r.0) × (r.0 ≤ line) × (line ≤ r.1)
range_of_around line none seen r c h = cc
range_of_around line (some f) seen r (a, rest) h =
    let same : (f.start, f.end) ≡ r = cc in
    subst (λ (q : ℕ × ℕ). (0 < q.0) × (q.0 ≤ line) × (line ≤ q.1)) same (around line f a)

parsed_around :
    (line : ℕ) (file : Result GoFile) (r : ℕ × ℕ)
    → parsed file (λ g. range_of (pos line) (innermost line none g.functions)) ≡ ok r
    → (0 < r.0) × (r.0 ≤ line) × (line ≤ r.1)
unfolding parsed
parsed_around line (err e) r h = cc
parsed_around line (ok g) r h =
    range_of_around line (innermost line none g.functions) (reverse g.functions) r
      (innermost_least line g.functions) h

-- The range of the function around a line, where there is one, holds the line.
pub enclosing_function_range_around :
    (parse_file : Bytes → Result GoFile) (path : Bytes) (line : ℕ) (r : ℕ × ℕ)
    → enclosing_function_range parse_file path (pos line) ≡ ok r
    → (0 < r.0) × (r.0 ≤ line) × (line ≤ r.1)
unfolding enclosing_function_range
enclosing_function_range_around parse_file path line r h = elim (Bool-cases (line == 0)) [
  | inl e ↦ cc (rw e at h)
  | inr e ↦ parsed_around line (parse_file path) r (rw e at h)
]
