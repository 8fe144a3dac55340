-- ===== src/Tests/Command.antt =====
-- Examples of the command line and of the terminal.
use dlvpp.Cli.ModuleRoot.{Directories, find_module_root, IsRoot, IsRootless}
use dlvpp.Cli.ModuleRoot.Search.{IsRooted, find_module_root_lem}
use dlvpp.Base.{
  is_empty, ℕ, ◌<◌, inl, inr, ◌≤◌, ◌≡◌, refl, sym, Bytes, true, false, List, [], ◌∷◌, ◌++◌, none,
  some, codes, length, ◌⊎◌, All, arith, utoa, eqb, itoa, Bool, ◌==◌, ◌||◌, if◌then◌else◌,
  Bool-cases,
}
use dlvpp.Base.Int.{pos, negsuc}
use dlvpp.Base.Fault.{Result, ok, err, text}
use dlvpp.Backend.{Breakpoint, zero_stop_state, zero_frame_ref}
use dlvpp.Session.{Snapshot}
use dlvpp.Sourceview.Enclosing.{GoFile}
use dlvpp.Cli.Args.{
  separator, Flags, LaunchArgs, split_passthrough_args, parse_launch_args, parse_attach_args,
}
use dlvpp.Cli.Args.Splitting.{
  rejoin, IsPositional, split_passthrough_args_lem, parse_launch_args_ok, parse_attach_args-utoa,
}
use dlvpp.Cli.History.{
  Editing, tty_history_limit, append_tty_command_history, previous_tty_history, next_tty_history,
}
use dlvpp.Cli.History.Recall.{IsShown, append_tty_command_history-bound, next-previous_tty_history}
use dlvpp.Cli.Marks.{
  BreakpointRecord, remember_breakpoint, resolve_breakpoint_location, current_breakpoint_file,
}
use dlvpp.Cli.Marks.Remembered.{
  IsDistinct, remember_breakpoint-IsDistinct, resolve_breakpoint_location-utoa,
}

abbrev plain : Bytes → List Bytes → Result Flags
plain name args = ok (record { args = args; plain = true; verbose = false })

abbrev launching : List Bytes
launching = codes "./hello" ∷ separator ∷ codes "-x" ∷ []

split_passthrough_args_lem_example :
    (rejoin (split_passthrough_args launching) ≡ launching)
    × All IsPositional (split_passthrough_args launching).positionals
    × ((split_passthrough_args launching).has_separator ≡ false
        → (split_passthrough_args launching).program_args ≡ [])
split_passthrough_args_lem_example = split_passthrough_args_lem launching

abbrev hello : LaunchArgs
hello = record {
  target = codes "./hello";
  program_args = codes "-x" ∷ [];
  sticky = false;
  verbose = false;
}

parse_launch_args_ok_example :
    (launching ≡ codes "./hello" ∷ []) ⊎ (launching ≡ codes "./hello" ∷ separator ∷ codes "-x" ∷ [])
unfolding parse_launch_args eqb
parse_launch_args_ok_example =
    parse_launch_args_ok plain launching
      (record { args = launching; plain = true; verbose = false }) refl hello refl

parse_attach_args-utoa_example :
    parse_attach_args plain (λ s. s) (utoa 42 ∷ [])
    ≡ ok (record { pid = pos 42; sticky = false; verbose = false })
parse_attach_args-utoa_example =
    parse_attach_args-utoa plain (λ s. s) (utoa 42 ∷ [])
      (record { args = utoa 42 ∷ []; plain = true; verbose = false }) refl 42 (omega arith)
      (omega arith) refl

abbrev two : List Bytes
two = codes "n" ∷ codes ":b 3" ∷ []

append_tty_command_history-bound_example :
    length (append_tty_command_history two (codes " c ")) ≤ tty_history_limit
append_tty_command_history-bound_example =
    append_tty_command_history-bound two (codes " c ") (omega arith)

abbrev first_shown : Editing
first_shown = record { buffer = codes "n"; index = pos 0; draft = codes ":" }

first_shown-IsShown : IsShown two first_shown
first_shown-IsShown = record {
  in_range = omega arith;
  shows = λ i e. let at : 0 ≡ i = ground arith in rw (sym at) refl;
}

next-previous_tty_history_example :
    next_tty_history two
      (previous_tty_history two (record { buffer = codes ":l x"; index = negsuc 0; draft = [] }))
    ≡ record { buffer = codes ":l x"; index = negsuc 0; draft = [] }
next-previous_tty_history_example =
    next-previous_tty_history two (codes ":l x") [] 0 (omega arith) (omega arith)

abbrev no_parse : Bytes → Result GoFile
no_parse path = err (text [])

abbrev marked : BreakpointRecord
marked = record { id = pos 1; file = codes "/a.go"; line = pos 3; function = codes "main.main" }

abbrev again : Breakpoint
again = record {
  id = pos 2;
  location = record { file = codes "/a.go"; line = pos 3; function = codes "main.main" };
  condition = [];
  enabled = true;
}

remember_breakpoint-IsDistinct_example :
    IsDistinct (remember_breakpoint no_parse (some again) (marked ∷ []))
remember_breakpoint-IsDistinct_example =
    remember_breakpoint-IsDistinct no_parse (some again) (marked ∷ []) (tt, tt)

abbrev here : Snapshot
here = record {
  state = zero_stop_state;
  frame = some (record { ref = zero_frame_ref; location = again.location });
  stack_error = none;
  source = [];
  source_error = none;
}

resolve_breakpoint_location-utoa_example :
    resolve_breakpoint_location no_parse (λ s. true) (utoa 14) (some here)
    ≡ ok (codes "/a.go" ++ (codes ":" ++ itoa (pos 14)))
unfolding current_breakpoint_file
resolve_breakpoint_location-utoa_example =
    resolve_breakpoint_location-utoa no_parse (λ s. true) 14 (some here) (omega arith) (omega arith)
      refl

-- What is before the last slash of a path, and nothing where it has none.
has_slash : Bytes → Bool
has_slash [] = false
has_slash (c ∷ s) = (c == b'/') || has_slash s

before_last_slash : Bytes → Bytes
unfolding has_slash
before_last_slash [] = []
before_last_slash (c ∷ s) = let rest = before_last_slash s in if has_slash s then c ∷ rest else []

-- `filepath.Dir` on a clean path that starts with a slash.
parent_of : Bytes → Bytes
unfolding before_last_slash
parent_of [] = []
parent_of (c ∷ []) = c ∷ []
parent_of (c ∷ d ∷ s) = c ∷ before_last_slash (d ∷ s)

-- The directories of a file system whose one go.mod is in /a.
abbrev tree : Directories
tree = record { clean = λ s. s; parent = parent_of; has_go_mod = λ s. eqb s (codes "/a") }

before_last_slash-shorter :
    (c : ℕ) (s : Bytes) → length (before_last_slash (c ∷ s)) < length (c ∷ s)
unfolding before_last_slash
before_last_slash-shorter c [] = unfold has_slash in omega arith
before_last_slash-shorter c (d ∷ s) = elim (Bool-cases (has_slash (d ∷ s))) [
  | inl e ↦ rw e (let h = before_last_slash-shorter d s in omega arith)
  | inr e ↦ rw e (omega arith)
]

parent_of-IsRooted : (dir : Bytes) → IsRooted dir → IsRooted (parent_of dir)
unfolding parent_of dlvpp.Base.has_prefix
parent_of-IsRooted [] h = h
parent_of-IsRooted (c ∷ []) h = h
parent_of-IsRooted (c ∷ d ∷ s) h = h

parent_of-shorter :
    (dir : Bytes) → IsRooted dir → (parent_of dir ≡ dir) ⊎ (length (parent_of dir) < length dir)
unfolding parent_of
parent_of-shorter [] h = inl refl
parent_of-shorter (c ∷ []) h = inl refl
parent_of-shorter (c ∷ d ∷ s) h = let k = before_last_slash-shorter d s in inr (omega arith)

find_module_root_lem_example :
    ((k : ℕ) × IsRoot tree (codes "/a/b") (find_module_root tree (codes "/a/b")) k)
    ⊎ ((k : ℕ) × IsRootless tree
          (codes "/a/b")
          (codes "/a/b")
          (find_module_root tree (codes "/a/b"))
          k)
unfolding dlvpp.Base.has_prefix
find_module_root_lem_example =
    find_module_root_lem tree (λ dir h. h) parent_of-IsRooted parent_of-shorter (codes "/a/b") refl
