-- ===== src/Tests/Source.antt =====
-- Examples of the views of source code and of the comments in it.
use dlvpp.Base.{
  ◌≤◌, ◌<◌, ℕ, ◌-◌, ◌+◌, ◌≡◌, refl, Bytes, Bool, true, false, List, [], ◌∷◌, ◌++◌, Option, none,
  some, codes, length, drop, ◌⊎◌, All, is_empty, min, arith, reverse, suc,
}
use dlvpp.Base.Int.{pos}
use dlvpp.Base.Fault.{ok}
use dlvpp.Backend.{BreakpointSpec}
use dlvpp.Sourceview.{Sources, render_window, rendered_lines}
use dlvpp.Sourceview.Window.{window_text, render_window-ok}
use dlvpp.Sourceview.Enclosing.{FuncNode, IsChosen, innermost, innermost_least}
use dlvpp.Sourceview.Function.{enclosing_function_range_around}
use dlvpp.Sourceview.Highlight.{keyword, Token}
use dlvpp.Cli.Comments.{resolve_breakpoint_target_line, dedupe_breakpoint_specs}
use dlvpp.Cli.Comments.Targets.{IsPassedOver, IsFirstCode, resolve_breakpoint_target_line_lem}
use dlvpp.Cli.Comments.Dedupe.{IsFresh, is_at, dedupe_breakpoint_specs_lem}

abbrev three_lines : Sources
three_lines = record { read_file = λ path. ok (codes "a\nb\nc"); highlight = λ s. s }

render_window-ok_example :
    render_window three_lines (codes "x.txt") (pos 2) (pos 1) []
    ≡ ok (window_text (codes "a" ∷ codes "b" ∷ codes "c" ∷ []) (pos 2) [] 0 3)
unfolding rendered_lines dlvpp.Base.split dlvpp.Base.has_suffix
render_window-ok_example =
    render_window-ok three_lines (codes "x.txt") (codes "a" ∷ codes "b" ∷ codes "c" ∷ []) refl 2 1
      [] (omega arith) (omega arith) (omega arith)

abbrev node : ℕ → ℕ → FuncNode
node start end = record {
  is_declaration = true;
  name = codes "f";
  receiver = none;
  start = start;
  end = end;
}

innermost_least_example :
    IsChosen 5 (innermost 5 none (node 1 9 ∷ node 4 6 ∷ [])) (node 4 6 ∷ node 1 9 ∷ [])
innermost_least_example = innermost_least 5 (node 1 9 ∷ node 4 6 ∷ [])

enclosing_function_range_around_example : (0 < 4) × (4 ≤ 5) × (5 ≤ 6)
unfolding dlvpp.Sourceview.Enclosing.enclosing_function_range
enclosing_function_range_around_example =
    enclosing_function_range_around
      (λ path. ok (record { package_name = codes "main"; functions = node 1 9 ∷ node 4 6 ∷ [] }))
      (codes "a.go") 5 (4, 6) refl

abbrev word : Token
word = record { offset = 1; kind = keyword; spelling = codes "go"; literal = [] }

abbrev source : List Bytes
source = codes "// breakpoint" ∷ [] ∷ codes "// why" ∷ codes "x := 1" ∷ []

resolve_breakpoint_target_line_lem_example :
    ((resolve_breakpoint_target_line source 1 ≡ 0) × All IsPassedOver (drop 1 source))
    ⊎ ((k : ℕ) × (resolve_breakpoint_target_line source 1 ≡ suc (1 + k))
        × IsFirstCode (drop 1 source) k)
resolve_breakpoint_target_line_lem_example = resolve_breakpoint_target_line_lem source 1

abbrev at : Bytes → BreakpointSpec
at location = record { location = location; condition = [] }

abbrev repeated : List BreakpointSpec
repeated = at (codes "f") ∷ at [] ∷ at (codes "f") ∷ []

dedupe_breakpoint_specs_lem_example :
    IsFresh [] (dedupe_breakpoint_specs repeated)
    × ((location : Bytes)
        → is_empty location ≡ false
        → is_at (dedupe_breakpoint_specs repeated) location ≡ is_at repeated location)
    × (dedupe_breakpoint_specs (dedupe_breakpoint_specs repeated)
        ≡ dedupe_breakpoint_specs repeated)
dedupe_breakpoint_specs_lem_example = dedupe_breakpoint_specs_lem repeated
