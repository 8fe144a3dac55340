-- ===== src/Cli/Locals/Trees.antt =====
-- cmd/dlvpp/loop.go and screens.go: locals with their expanded children. The recursion goes on only
-- where the path of a local is expanded, and every path is longer than its parent's: the fuel is the
-- length of the longest expanded path.
use dlvpp.Base.{
  ℕ, zero, suc, max, Bytes, Bool, List, [], ◌∷◌, ◌++◌, Option, none, some, codes, eqb,
  if◌then◌else◌, is_empty, length,
}
use dlvpp.Backend.{Variable}
use dlvpp.Cli.Locals.{filter_displayed_locals, join_local_path}
use dlvpp.Cli.Locals.Lines.{
  Numbers, write_local_line, format_hidden_locals_summary, format_hidden_locals_summary_with_indent,
  no_visible, format_locals, format_tty_locals,
}

-- `map[string][]backend.Variable`; a later entry of a path stands before an earlier one.
abbrev pub Expanded : Type 0
Expanded = List (Bytes × List Variable)

unfoldable pub children_at : Bytes → Expanded → Option (List Variable)
unfolding eqb
children_at path [] = none
children_at path ((p, children) ∷ m) = if eqb p path then some children else children_at path m

unfoldable pub longest : Expanded → ℕ
longest [] = 0
longest ((p, children) ∷ m) = max (length p) (longest m)

-- The locals with their paths, each with the function applied.
abbrev pub each : {A : Type 0} → (Variable → List A) → List Variable → List A
each f [] = []
each f (local ∷ locals) = f local ++ each f locals

pub record Match : Type 0 where
  pub path : Bytes
  pub variable : Variable

-- The visible children of a path that is expanded.
abbrev pub visible_of : Option (List Variable) → List Variable
visible_of none = []
visible_of (some children) = (filter_displayed_locals children).0

-- `collectVisibleLocalMatches`.
unfoldable pub collect_visible_local_matches : ℕ → Expanded → Bytes → Variable → Bytes → List Match
unfolding eqb children_at
collect_visible_local_matches zero expanded name local path = []
collect_visible_local_matches (suc n) expanded name local path =
    (if eqb local.name name then record { path = path; variable = local } ∷ [] else [])
    ++ each
        (λ child.
          collect_visible_local_matches n expanded name child (join_local_path path child.name))
        (visible_of (children_at path expanded))

-- `findVisibleLocalMatches`.
unfoldable pub find_visible_local_matches : List Variable → Expanded → Bytes → List Match
unfolding collect_visible_local_matches longest
find_visible_local_matches locals expanded name =
    each
      (λ local.
        collect_visible_local_matches (suc (longest expanded)) expanded name local local.name)
      (filter_displayed_locals locals).0

module _ (n : Numbers) where
  -- What stands below a local: its children's lines, and the summary of the hidden ones.
  unfoldable pub below : (Variable → Bytes) → Bool → Bytes → Option (List Variable) → Bytes
  below line color indent none = []
  below line color indent (some children) =
      let (visible, hidden) = filter_displayed_locals children in
      each line visible ++ format_hidden_locals_summary_with_indent hidden color indent

  -- `writeExpandedLocalLines`.
  unfoldable pub write_expanded_local_lines : ℕ → Expanded → Bool → Bytes → Variable → Bytes → Bytes
  unfolding below children_at write_local_line
  write_expanded_local_lines zero expanded color indent local path = []
  write_expanded_local_lines (suc fuel) expanded color indent local path =
      write_local_line n local color indent
      ++ below
          (λ child.
            write_expanded_local_lines fuel expanded color (indent ++ codes "  ") child
              (join_local_path path child.name))
          color (indent ++ codes "  ") (children_at path expanded)

  -- `formatExpandedLocals`.
  unfoldable pub format_expanded_locals : List Variable → Expanded → Bool → Bytes
  unfolding write_expanded_local_lines longest no_visible format_hidden_locals_summary
  format_expanded_locals locals expanded color =
      let (visible, hidden) = filter_displayed_locals locals in
      if is_empty visible
      then no_visible hidden color
      else each
          (λ local.
            write_expanded_local_lines (suc (longest expanded)) expanded color [] local local.name)
          visible
        ++ format_hidden_locals_summary hidden color

  -- `formatLocalsForView`.
  unfoldable pub format_locals_for_view : List Variable → Expanded → Bool → Bytes
  unfolding format_expanded_locals format_locals format_tty_locals
  format_locals_for_view locals expanded color =
      if is_empty expanded
      then if color then format_tty_locals n locals else format_locals n locals
      else format_expanded_locals locals expanded color
