-- ===== src/Cli/Locals/Lines.antt =====
-- cmd/dlvpp/loop.go: the lines that show locals, plain and in colour.
use dlvpp.Base.{
  ℕ, Bytes, Bool, true, false, not, List, [], ◌∷◌, ◌++◌, codes, eqb, ltb, ◌==◌, ◌||◌, ◌&&◌,
  if◌then◌else◌, is_empty, length, trim_space, has_prefix, has_suffix, utoa,
}
use dlvpp.Backend.{Variable}
use dlvpp.Sourceview.{concat}
use dlvpp.Cli.Locals.{filter_displayed_locals, format_local_display_value}

abbrev pub reset : Bytes
reset = 27 ∷ codes "[0m"

abbrev pub dim : Bytes
dim = 27 ∷ codes "[2m"

abbrev pub cyan : Bytes
cyan = 27 ∷ codes "[36m"

abbrev pub red : Bytes
red = 27 ∷ codes "[31m"

-- Whether `strconv.ParseInt(s, 0, 64)`, `ParseUint(s, 0, 64)` and `ParseFloat(s, 64)` succeed.
pub record Numbers : Type 0 where
  pub is_int : Bytes → Bool
  pub is_uint : Bytes → Bool
  pub is_float : Bytes → Bool

-- `strings.ReplaceAll(s, "_", "")`.
unfoldable pub without_underscores : Bytes → Bytes
without_underscores [] = []
without_underscores (c ∷ s) = let rest = without_underscores s in if c == 95 then rest else c ∷ rest

-- `isQuotedValue`.
unfoldable pub is_quoted_value : Bytes → Bool
unfolding has_prefix has_suffix
is_quoted_value value =
    if ltb (length value) 2
    then false
    else (has_prefix value (34 ∷ []) && has_suffix value (34 ∷ []))
      || (has_prefix value (96 ∷ []) && has_suffix value (96 ∷ []))

abbrev noun_for : ℕ → Bytes
noun_for count = if count == 1 then codes "local" else codes "locals"

-- `formatHiddenLocalsSummaryWithIndent`.
unfoldable pub format_hidden_locals_summary_with_indent : ℕ → Bool → Bytes → Bytes
format_hidden_locals_summary_with_indent hidden color indent =
    let shown =
      concat
        (codes "(" ∷ utoa hidden ∷ codes " synthetic " ∷ noun_for hidden ∷ codes " hidden)" ∷ []) in
    if hidden == 0
    then []
    else if color
    then concat (indent ∷ dim ∷ shown ∷ reset ∷ codes "\n" ∷ [])
    else concat (indent ∷ shown ∷ codes "\n" ∷ [])

-- `formatHiddenLocalsSummary`.
unfoldable pub format_hidden_locals_summary : ℕ → Bool → Bytes
unfolding format_hidden_locals_summary_with_indent
format_hidden_locals_summary hidden color = format_hidden_locals_summary_with_indent hidden color []

-- What is shown where no local is visible.
unfoldable pub no_visible : ℕ → Bool → Bytes
unfolding format_hidden_locals_summary
no_visible hidden color =
    if hidden == 0
    then if color
      then concat (dim ∷ codes "(no locals)" ∷ reset ∷ codes "\n" ∷ [])
      else codes "(no locals)\n"
    else if color
    then concat (
        dim
        ∷ codes "(no user locals)"
        ∷ reset
        ∷ codes "\n"
        ∷ format_hidden_locals_summary hidden true
        ∷ [])
    else codes "(no user locals)\n" ++ format_hidden_locals_summary hidden false

module _ (n : Numbers) where
  -- `isNumericValue`.
  unfoldable pub is_numeric_value : Bytes → Bool
  unfolding without_underscores
  is_numeric_value value =
      let trimmed = trim_space value in
      if is_empty trimmed
      then false
      else n.is_int trimmed || (n.is_uint trimmed || n.is_float (without_underscores trimmed))

  -- `colorizeLocalValue`.
  unfoldable pub colorize_local_value : Bytes → Bytes
  unfolding is_quoted_value is_numeric_value eqb
  colorize_local_value value =
      let trimmed = trim_space value in
      if eqb trimmed (codes "nil") || eqb trimmed (codes "<nil>")
      then red ++ (value ++ reset)
      else if eqb trimmed (codes "true") || eqb trimmed (codes "false")
      then 27 ∷ codes "[33m" ++ (value ++ reset)
      else if is_quoted_value trimmed
      then 27 ∷ codes "[32m" ++ (value ++ reset)
      else if is_numeric_value trimmed
      then 27 ∷ codes "[35m" ++ (value ++ reset)
      else value

  -- `writeLocalLine`.
  unfoldable pub write_local_line : Variable → Bool → Bytes → Bytes
  unfolding colorize_local_value format_local_display_value
  write_local_line local color indent =
      let value = format_local_display_value local in
      let colored_name = concat (indent ∷ cyan ∷ local.name ∷ reset ∷ []) in
      if not color
      then if not (is_empty local.type)
        then concat
            (indent ∷ local.name ∷ codes " (" ∷ local.type ∷ codes ") = " ∷ value ∷ codes "\n" ∷ [])
        else concat (indent ∷ local.name ∷ codes " = " ∷ value ∷ codes "\n" ∷ [])
      else if not (is_empty local.type)
      then concat (
          colored_name
          ∷ codes " "
          ∷ dim
          ∷ codes "("
          ∷ local.type
          ∷ codes ")"
          ∷ reset
          ∷ codes " = "
          ∷ colorize_local_value value
          ∷ codes "\n"
          ∷ [])
      else concat (colored_name ∷ codes " = " ∷ colorize_local_value value ∷ codes "\n" ∷ [])

  -- A loop of `writeLocalLine`.
  unfoldable pub local_lines : List Variable → Bool → Bytes → Bytes
  unfolding write_local_line
  local_lines [] color indent = []
  local_lines (local ∷ locals) color indent =
      write_local_line local color indent ++ local_lines locals color indent

  unfoldable shown_locals : List Variable → ℕ → Bool → Bytes
  unfolding local_lines no_visible
  shown_locals visible hidden color =
      if is_empty visible
      then no_visible hidden color
      else local_lines visible color [] ++ format_hidden_locals_summary hidden color

  -- `formatLocals`, whose lines are those of `writeLocalLine` without an indent.
  unfoldable pub format_locals : List Variable → Bytes
  unfolding shown_locals
  format_locals locals =
      let (visible, hidden) = filter_displayed_locals locals in shown_locals visible hidden false

  -- `formatTTYLocals`, likewise in colour.
  unfoldable pub format_tty_locals : List Variable → Bytes
  unfolding shown_locals
  format_tty_locals locals =
      let (visible, hidden) = filter_displayed_locals locals in shown_locals visible hidden true
