-- ===== src/Lib.antt =====
-- dlvpp, an interactive front end to the Go debugger Delve: the program starts `dlv dap`, speaks the
-- Debug Adapter Protocol with it, shows the source around each stop and runs the user's commands.
--
-- The parts, and the files that model them:
--
-- + Base: the Go library that the code uses, over lists of bytes: strings, strconv, 64-bit integers
--   with their wrap-around (Base/Int), errors as `errors.Is` sees them (Base/Fault), and methods of a
--   shared object that may fail (Base/Proc: the state is passed on, and what was written before a
--   failure stays written).
-- + Backend: internal/backend/backend.go, the data and the interface `Backend`, a record of
--   operations over the implementation's state.
-- + Dap: internal/backend/dap. Dap/Wire and Dap/Location are types.go; Dap/Framing is the reading and
--   writing of frames in client.go; Dap/Client is its state and, below it, the events (Events), the
--   requests (Requests), the thread actions and the inspection (Inspect), and the start and the end
--   of a session (Session). Dap/Breakpoints is breakpoints.go, with the changes in Changes and the
--   order of the list in Order, where an insertion sort stands for sort.Slice. Dap/Interface makes the client a `Backend` of the controller.
-- + Sourceview: internal/sourceview/render.go: windows and ranges, the enclosing function
--   (Enclosing) and its view (Function), the colours (Highlight).
-- + Session: internal/session/controller.go, the controller over any `Backend`.
-- + Cli: cmd/dlvpp. Args is args.go, Target is launch_target.go, Comments is comment_breakpoints.go
--   with the helpers in source_index.go, ModuleRoot is findModuleRoot and Index the rest of
--   source_index.go, with the discovery of a launch (Index/Discover), Marks is breakpoint_marks.go
--   and breakpoint_resolver.go. View is view.go, with the snapshots and the inspections below it. Of
--   loop.go, History is the terminal's history, Locals and Printing are what is printed, and Shell is
--   the commands and the loops: Shell/Commands, Shell/Loops (lines), Shell/Terminal (the command
--   line) and Shell/Keyboard (the loop over keys). Shell/Children and Shell/Screens are screens.go.
--   Startup is the launch in session_run.go, Run the rest of it, and Run/Main is main.go.
-- + Tests: sample data and the examples of the theorems.
--
-- A method `func (c *Client) createBreakpoint` is a function `create_breakpoint` on the client's
-- state that returns a result and the next state. A pointer or a map entry that may be missing is an
-- Option. Names are the source's, in snake case.
--
-- How the parts interact: `Run` starts a session on a `Controller` (Startup, over any `Backend`),
-- makes the controller a `Runner` of the commands (`controller_runner` in Shell), and hands it to
-- one of the two loops. A command changes a `Shell`: the runner's state, the view's, and what was
-- written. The loop over keys changes a `Terminal`: the command line and the shell. `Run` closes
-- the backend when the loop ends.
--
-- Bounds: most loops are structural recursions, over the arrivals of the stream, the inbox of
-- coming payloads, the user's input, or a list; an inbox or an input that is used up ends with EOF.
-- Five loops have fuel. The search for a module's root has one more than the path has bytes: every
-- step but the last shortens the path. The loop over keys has one more than the input has arrivals:
-- each round takes one or more. The three loops over expanded locals have one more than the longest
-- expanded path has bytes: they go on only below an expanded path, and a local with a name makes
-- the path longer.
--
-- Not modelled: what the kill of the server and the closing of the socket do outside of the client,
-- of which there are only the errors and the fields that it forgets; the mutex of the client, which makes its operations sequential, and that of the
-- index; the goroutines of the readers of the input; contexts and timeouts, which are errors that a
-- read, a write or the backend returns, or that the input holds; encoding/json, which is the record
-- `Codec`; processes, sockets and files, which are the records `World`, `Sources`, `Disk` and
-- `Tools`; go/parser and go/scanner, whose results are given; package flag, regexp.QuoteMeta, the
-- verb %q, term.GetSize and filepath.WalkDir, which are given. Goroutines is left out: no code
-- calls it. Of the logger only the lines of an information are modelled. The discovery of comments,
-- which a launch runs beside the start, is one step before it, as it only reads files. The usage
-- text and the run of `dlv version` are not modelled; the programs under examples are no part of
-- dlvpp.
pub mod Base
pub mod Backend
pub mod Dap
pub mod Sourceview
pub mod Session
pub mod Cli
pub mod Tests
