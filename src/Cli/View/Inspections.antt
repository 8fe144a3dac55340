-- ===== src/Cli/View/Inspections.antt =====
-- cmd/dlvpp/view.go: the views of what is inspected.
use dlvpp.Base.{
  Bytes, Bool, not, [], ◌∷◌, ◌++◌, Option, none, some, codes, ◌&&◌, if◌then◌else◌, is_empty, itoa,
  trim_suffix, trim_right_byte,
}
use dlvpp.Backend.{Frame}
use dlvpp.Session.{Snapshot}
use dlvpp.Sourceview.{concat}
use dlvpp.Cli.View.{
  Host, ViewState, session_exited, append_prompt, maybe_clear, fallback_text, display_path,
}
use dlvpp.Cli.View.Snapshots.{format_snapshot_for_view}

abbrev pub frame_of : Option Snapshot → Option Frame
frame_of none = none
frame_of (some s) = s.frame

module _ (h : Host) where
  unfoldable plain_inspection : Option Frame → Bytes → Bytes → Bytes
  plain_inspection (some f) title body = concat (
      title
      ∷ codes " "
      ∷ fallback_text f.location.function (codes "<unknown>")
      ∷ codes " "
      ∷ display_path h f.location.file
      ∷ codes ":"
      ∷ itoa f.location.line
      ∷ codes "\n"
      ∷ body
      ∷ codes "\n"
      ∷ [])
  plain_inspection none title body =
      if is_empty body
      then title ++ codes "\n"
      else concat (title ∷ codes "\n" ∷ body ∷ codes "\n" ∷ [])

  -- `formatPlainInspection`.
  unfoldable pub format_plain_inspection : Option Snapshot → Bytes → Bytes → Bytes
  unfolding plain_inspection
  format_plain_inspection snapshot title body =
      plain_inspection (frame_of snapshot) title (trim_right_byte 10 body)

  unfoldable tty_inspection : Option Frame → Bytes → Bytes → ViewState → Bool → Bytes
  tty_inspection (some f) title body v clear =
      append_prompt
        (concat (
          maybe_clear v clear
          ∷ title
          ∷ codes " at "
          ∷ (27 ∷ codes "[36m")
          ∷ f.location.file
          ∷ codes ":"
          ∷ itoa f.location.line
          ∷ (27 ∷ codes "[0m")
          ∷ codes " ("
          ∷ f.location.function
          ∷ codes ")\n\n"
          ∷ body
          ∷ codes "\n[Esc to return]\n"
          ∷ []))
        v
  tty_inspection none title body v clear =
      append_prompt (concat (maybe_clear v clear ∷ title ∷ codes "\n\n" ∷ body ∷ [])) v

  -- `formatInspectionForView`.
  unfoldable pub format_inspection_for_view :
      Option Snapshot → ViewState → Bytes → Bytes → Bool → Bytes
  unfolding format_plain_inspection tty_inspection
  format_inspection_for_view snapshot v title body clear =
      if not v.sticky
      then append_prompt (format_plain_inspection snapshot title body) v
      else if not v.output_tty
      then append_prompt (title ++ (codes ":\n" ++ body)) v
      else tty_inspection (frame_of snapshot) title body v clear

  -- `formatInlineBodyForView`.
  unfoldable pub format_inline_body_for_view : Option Snapshot → ViewState → Bytes → Bool → Bytes
  format_inline_body_for_view snapshot v body clear =
      let base = format_snapshot_for_view h snapshot v clear in
      let trimmed =
        if v.output_tty && not (session_exited v) then trim_suffix base (codes ">") else base in
      append_prompt
        (concat
          (trim_right_byte 10 trimmed ∷ codes "\n\n" ∷ trim_right_byte 10 body ∷ codes "\n" ∷ []))
        v
