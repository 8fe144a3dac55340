-- ===== src/Cli/Shell/Screens.antt =====
-- cmd/dlvpp/screens.go: the commands that show something.
use dlvpp.Base.{
  Bytes, Bool, true, not, List, [], ◌++◌, Option, none, some, codes, ◌||◌, ◌&&◌, if◌then◌else◌,
  is_empty, trim_space,
}
use dlvpp.Base.Int.{is_positive}
use dlvpp.Base.Fault.{text, ok, err}
use dlvpp.Base.Proc.{Proc, after}
use dlvpp.Backend.{Frame, Variable, Value}
use dlvpp.Session.{Snapshot}
use dlvpp.Cli.View.{ViewState, set_inspection, clear_inspection, has_inspection}
use dlvpp.Cli.View.Inspections.{frame_of, format_inspection_for_view, format_inline_body_for_view}
use dlvpp.Cli.Locals.Trees.{Match, format_locals_for_view}
use dlvpp.Cli.Printing.{
  format_output_for_view, format_help_body, format_breakpoints_for_view, format_eval_for_view,
}
use dlvpp.Cli.Shell.{Runner, Env, Shell, call, prefixed, write, with_view}
use dlvpp.Cli.Shell.Children.{
  fetch_locals, expanded_locals, resolve_local_path, remember_expanded_local_path,
}

-- `inspectionColorsEnabled`.
unfoldable pub inspection_colors_enabled : ViewState → Bool
inspection_colors_enabled v = v.sticky && v.output_tty

module _ {R : Type 0} (env : Env) where
  -- `setInspection` with the print of `formatInspectionForView`.
  unfoldable pub show_inspection : Bytes → Bytes → Shell R → Shell R
  unfolding write with_view set_inspection
  show_inspection title body s =
      let shown = with_view (set_inspection title body) s in
      write
        (format_inspection_for_view env.host shown.view.current_snapshot shown.view title body true)
        shown

  -- `clearInspection` with the print of `formatInlineBodyForView`.
  unfoldable pub show_inline : Bytes → Shell R → Shell R
  unfolding write with_view clear_inspection
  show_inline body s =
      let shown = with_view clear_inspection s in
      write (format_inline_body_for_view env.host shown.view.current_snapshot shown.view body true)
        shown

  -- `showHelp`.
  unfoldable pub show_help : Proc (Shell R) Unit
  unfolding show_inspection
  show_help s = (ok tt, show_inspection (codes "help") format_help_body s)

  -- `showBreakpoints`.
  unfoldable pub show_breakpoints : Proc (Shell R) Unit
  unfolding show_inspection
  show_breakpoints s =
      (ok tt, show_inspection (codes "breakpoints") (format_breakpoints_for_view env.host s.view) s)

module _ {R : Type 0} (env : Env) (runner : Runner R) where
  -- `renderLocals`.
  unfoldable pub render_locals : List Variable → Proc (Shell R) Unit
  unfolding expanded_locals show_inspection
  render_locals locals s = after (expanded_locals env runner locals s) (λ expanded s'. (
    ok tt,
    show_inspection env (codes "locals")
        (format_locals_for_view env.numbers locals expanded (inspection_colors_enabled s'.view)) s',
  ))

  -- `showLocals`.
  unfoldable pub show_locals : Proc (Shell R) Unit
  unfolding fetch_locals render_locals
  show_locals s = after (fetch_locals env runner s) render_locals

  -- What `expandLocal` does with the local that was resolved.
  unfoldable pub expand_match : List Variable → Bytes → Match → Proc (Shell R) Unit
  unfolding render_locals remember_expanded_local_path with_view
  expand_match locals name m s =
      if not m.variable.has_children || not (is_positive m.variable.reference)
      then (err (text (codes "expand: " ++ (name ++ codes " has no children"))), s)
      else render_locals locals (with_view (remember_expanded_local_path m.path) s)

  unfoldable pub expand_named : List Variable → Bytes → Proc (Shell R) Unit
  unfolding expand_match resolve_local_path
  expand_named locals name s =
      if is_empty name
      then (err (text (codes "expand requires a local name")), s)
      else after (resolve_local_path env runner locals name s) (expand_match locals name)

  -- `expandLocal`.
  unfoldable pub expand_local : Bytes → Proc (Shell R) Unit
  unfolding fetch_locals expand_named
  expand_local name s =
      after (fetch_locals env runner s) (λ locals. expand_named locals (trim_space name))

  -- `evalChildren`.
  unfoldable pub eval_children : Value → Proc (Shell R) (List Variable)
  unfolding call
  eval_children value s =
      if not value.has_children || not (is_positive value.reference)
      then (ok [], s)
      else prefixed (codes "eval: ") (call (runner.children value.reference) s)

  -- How `showEval` shows its body.
  unfoldable show_value : Bytes → Shell R → Shell R
  unfolding show_inspection show_inline has_inspection
  show_value body s =
      if s.view.sticky && not (has_inspection s.view)
      then show_inline env body s
      else show_inspection env (codes "locals") body s

  unfoldable pub eval_at : Bytes → Option Frame → Proc (Shell R) Unit
  unfolding call eval_children show_value format_eval_for_view
  eval_at expr none s = (err (text (codes "locals: no current frame")), s)
  eval_at expr (some f) s =
      after (prefixed (codes "eval: ") (call (runner.eval f.ref expr) s)) (λ value s₁.
        after (eval_children value s₁) (λ children s₂. (
          ok tt,
          show_value
              (format_eval_for_view env.numbers expr value children
                (inspection_colors_enabled s₂.view))
              s₂,
        )))

  -- `showEval`.
  unfoldable pub show_eval : Bytes → Proc (Shell R) Unit
  unfolding eval_at
  show_eval expr s = eval_at expr (frame_of s.view.current_snapshot) s

  unfoldable pub output_at : Option Snapshot → Proc (Shell R) Unit
  unfolding call show_inspection
  output_at none s = (err (text (codes "output: no current session")), s)
  output_at (some snapshot) s =
      after (prefixed (codes "output: ") (call runner.output s)) (λ entries s'. (
        ok tt,
        show_inspection env (codes "output")
            (format_output_for_view entries (inspection_colors_enabled s'.view)) s',
      ))

  -- `showOutput`.
  unfoldable pub show_output : Proc (Shell R) Unit
  unfolding output_at
  show_output s = output_at s.view.current_snapshot s
