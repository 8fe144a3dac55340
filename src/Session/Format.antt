-- ===== src/Session/Format.antt =====
-- internal/session/controller.go: the text of a snapshot.
use dlvpp.Base.{Bytes, [], ◌∷◌, ◌++◌, Option, none, some, codes, itoa, if◌then◌else◌}
use dlvpp.Base.Fault.{Error}
use dlvpp.Backend.{Frame}
use dlvpp.Session.{Snapshot}

abbrev optional_error : (Error → Bytes) → Option Error → Bytes → Bytes
optional_error error_text none other = other
optional_error error_text (some e) other = error_text e ++ codes "\n"

unfoldable format_stop : (Error → Bytes) → Snapshot → Option Frame → Bytes
format_stop error_text s none =
    optional_error error_text s.stack_error (codes "stopped, but no stack frames available\n")
format_stop error_text s (some f) =
    codes "stopped: "
    ++ (f.location.function
        ++ (codes " at "
            ++ (27 ∷ codes "[36m"
                ++ (f.location.file
                    ++ (codes ":"
                        ++ (itoa f.location.line
                            ++ (27 ∷ codes "[0m"
                                ++ (codes "\n"
                                    ++ (s.source
                                        ++ optional_error error_text s.source_error [])))))))))

-- `FormatSnapshot`; `error_text` is `Error()`.
unfoldable pub format_snapshot : (Error → Bytes) → Option Snapshot → Bytes
unfolding format_stop
format_snapshot error_text none = []
format_snapshot error_text (some s) =
    if s.state.exited
    then codes "exited with status " ++ (itoa s.state.exit_status ++ codes "\n")
    else if s.state.running
    then codes "running\n"
    else format_stop error_text s s.frame
