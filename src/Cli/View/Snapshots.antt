-- ===== src/Cli/View/Snapshots.antt =====
-- cmd/dlvpp/view.go: the sticky and the plain view of a snapshot.
use dlvpp.Base.{
  ℕ, zero, suc, ◌+◌, ◌-◌, ◌/◌, max, Bytes, Bool, not, List, [], ◌∷◌, ◌++◌, Option, none, some,
  codes, ltb, ◌||◌, ◌&&◌, if◌then◌else◌, is_empty, length, get_elem?, itoa, utoa, split,
}
use dlvpp.Base.Int.{ℤ, pos, ◌+ℤ◌, ◌-ℤ◌, lt_int, le_int, eq_int, max_int_of, min_int_of}
use dlvpp.Base.Fault.{Error, text, Result, ok, err, wrap_error}
use dlvpp.Backend.{Frame, SourceLocation}
use dlvpp.Session.{Snapshot}
use dlvpp.Session.Format.{format_snapshot}
use dlvpp.Sourceview.{concat, has_line, nat_of, render_window, render_range}
use dlvpp.Cli.View.{
  Host, ViewState, append_prompt, append_exit_hint, maybe_clear, fallback_text,
  breakpoint_lines_for_path, strip_ansi_for_non_tty, display_path,
}

-- `sourceContextLines`, `plainContextLines` and `stickyReservedRowsTTY`.
abbrev source_context_lines : ℤ
source_context_lines = pos 5

abbrev plain_context_lines : ℤ
plain_context_lines = pos 1

abbrev sticky_reserved_rows_tty : ℕ
sticky_reserved_rows_tty = 5

unfoldable pub spaces : ℕ → Bytes
spaces zero = []
spaces (suc n) = 32 ∷ spaces n

-- `%*d`, on the digits.
unfoldable pub pad_to : ℕ → Bytes → Bytes
unfolding spaces
pad_to width digits = spaces (width - length digits) ++ digits

abbrev line_text : Option Bytes → Bytes
line_text none = []
line_text (some s) = s

-- One round of the loop of `renderPlainWindow`, for the line of number `i + 1`.
unfoldable pub plain_row : List Bytes → ℕ → ℤ → List ℤ → ℕ → Bytes
unfolding pad_to has_line
plain_row lines width line breakpoints i = concat (
    (if eq_int (pos (suc i)) line then codes ">" else codes " ")
    ∷ codes " "
    ∷ pad_to width (utoa (suc i))
    ∷ codes " "
    ∷ (if has_line breakpoints (pos (suc i)) then codes "o" else codes " ")
    ∷ codes " | "
    ∷ line_text (get_elem? lines i)
    ∷ codes "\n"
    ∷ [])

-- The loop, over `count` lines from index `i`.
unfoldable pub plain_rows : List Bytes → ℕ → ℤ → List ℤ → ℕ → ℕ → Bytes
unfolding plain_row concat
plain_rows lines width line breakpoints i zero = []
plain_rows lines width line breakpoints i (suc count) =
    plain_row lines width line breakpoints i
    ++ plain_rows lines width line breakpoints (suc i) count

unfoldable plain_between : List Bytes → ℤ → List ℤ → ℤ → ℤ → Bytes
unfolding plain_rows
plain_between lines line breakpoints start end =
    plain_rows lines (length (itoa end)) line breakpoints (nat_of start - 1)
      (nat_of end + 1 - nat_of start)

unfoldable pub plain_window : ℤ → ℤ → List ℤ → Result Bytes → Result Bytes
unfolding plain_between
plain_window line context breakpoints (err e) = err (wrap_error (codes "read source: ") e)
plain_window line context breakpoints (ok content) =
    let lines = split content 10 in
    if le_int line (pos 0) || lt_int (pos (length lines)) line
    then err (text (codes "source line out of range: " ++ itoa line))
    else ok (
        plain_between lines line breakpoints (max_int_of (pos 1) (line -ℤ context))
          (min_int_of (pos (length lines)) (line +ℤ context)))

-- The rows around the line that fill a terminal: the ends that `renderStickySource` computes.
abbrev rows_before : ℕ → ℕ
rows_before height = (max 1 (height - sticky_reserved_rows_tty) - 1) / 2

abbrev rows_after : ℕ → ℕ
rows_after height = max 1 (height - sticky_reserved_rows_tty) - rows_before height - 1

module _ (h : Host) where
  -- `renderPlainWindow`.
  unfoldable pub render_plain_window : Bytes → ℤ → ℤ → List ℤ → Result Bytes
  unfolding plain_window
  render_plain_window path line context breakpoints =
      plain_window line context breakpoints (h.sources.read_file path)

  -- `renderStickySource`, for a snapshot with its frame.
  unfoldable pub render_sticky_source : Snapshot → SourceLocation → ViewState → Result Bytes
  render_sticky_source s at v =
      let breakpoints = breakpoint_lines_for_path v at.file in
      if v.output_tty && ltb sticky_reserved_rows_tty v.output_height
      then render_range h.sources at.file at.line
          (max_int_of (pos 1) (at.line -ℤ pos (rows_before v.output_height)))
          (at.line +ℤ pos (rows_after v.output_height)) breakpoints
      else if not (is_empty s.source) && is_empty breakpoints
      then ok s.source
      else render_window h.sources at.file at.line source_context_lines breakpoints

  abbrev error_line : Bytes → Option Error → Bytes
  error_line prefix none = []
  error_line prefix (some e) = prefix ++ (h.error_text e ++ codes "\n")

  -- The default case of `formatPlainSnapshot` after the first line.
  plain_source : Snapshot → Result Bytes → Bytes
  plain_source s (err e) = error_line (codes "err source: ") (some e)
  plain_source s (ok source) = source ++ error_line (codes "err source: ") s.source_error

  abbrev or_stopped : Option Error → Bytes
  or_stopped none = codes "stop no-frame\n"
  or_stopped (some e) = error_line (codes "err stack: ") (some e)

  unfoldable plain_stop : Snapshot → Option Frame → ViewState → Bytes
  unfolding plain_source render_plain_window
  plain_stop s none v = or_stopped s.stack_error
  plain_stop s (some f) v = concat (
      codes "stop "
      ∷ fallback_text f.location.function (codes "<unknown>")
      ∷ codes " "
      ∷ display_path h f.location.file
      ∷ codes ":"
      ∷ itoa f.location.line
      ∷ codes "\n"
      ∷ plain_source s (
          render_plain_window f.location.file f.location.line plain_context_lines
            (breakpoint_lines_for_path v f.location.file))
      ∷ [])

  -- `formatPlainSnapshot`.
  unfoldable pub format_plain_snapshot : Option Snapshot → ViewState → Bytes
  unfolding plain_stop
  format_plain_snapshot none v = []
  format_plain_snapshot (some s) v =
      if s.state.exited
      then codes "exit " ++ (itoa s.state.exit_status ++ codes "\n")
      else if s.state.running
      then codes "running\n"
      else plain_stop s s.frame v

  abbrev colored_path : ViewState → Bytes → Bytes
  colored_path v path =
      if v.output_tty then 27 ∷ (codes "[36m" ++ (path ++ 27 ∷ codes "[0m")) else path

  -- The text of a stop with its frame, given the source.
  unfoldable sticky_stop :
      Snapshot → SourceLocation → Bytes → ViewState → Bool → Result Bytes → Bytes
  sticky_stop s at base v clear (err e) =
      append_prompt (maybe_clear v clear ++ (base ++ error_line (codes "sticky render: ") (some e)))
        v
  sticky_stop s at base v clear (ok source) =
      append_prompt
        (concat (
          maybe_clear v clear
          ∷ codes "stopped: "
          ∷ at.function
          ∷ codes " at "
          ∷ colored_path v at.file
          ∷ codes ":"
          ∷ itoa at.line
          ∷ codes "\n"
          ∷ strip_ansi_for_non_tty h source v
          ∷ error_line [] s.source_error
          ∷ []))
        v

  unfoldable sticky_frame : Snapshot → Option Frame → Bytes → ViewState → Bool → Bytes
  unfolding sticky_stop render_sticky_source
  sticky_frame s none base v clear = append_prompt (maybe_clear v clear ++ base) v
  sticky_frame s (some f) base v clear =
      sticky_stop s f.location base v clear (render_sticky_source s f.location v)

  -- `formatStickySnapshotForView`; the view is sticky where it is called.
  unfoldable pub format_sticky_snapshot_for_view : Option Snapshot → ViewState → Bool → Bytes
  unfolding sticky_frame
  format_sticky_snapshot_for_view none v clear =
      append_prompt (strip_ansi_for_non_tty h (format_snapshot h.error_text none) v) v
  format_sticky_snapshot_for_view (some s) v clear =
      let base =
        strip_ansi_for_non_tty h (append_exit_hint (format_snapshot h.error_text (some s)) (some s))
          v in
      if s.state.exited || s.state.running
      then append_prompt (maybe_clear v clear ++ base) v
      else sticky_frame s s.frame base v clear

  -- `formatSnapshotForView`.
  unfoldable pub format_snapshot_for_view : Option Snapshot → ViewState → Bool → Bytes
  unfolding format_sticky_snapshot_for_view format_plain_snapshot
  format_snapshot_for_view snapshot v clear =
      if v.sticky
      then format_sticky_snapshot_for_view snapshot v clear
      else append_prompt (append_exit_hint (format_plain_snapshot snapshot v) snapshot) v
