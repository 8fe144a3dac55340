-- ===== src/Cli/Shell/Loops/Ending.antt =====
-- cmd/dlvpp/loop.go: the commands that end the session, in the loop over lines.
use dlvpp.Base.{
  ◌≡◌, ◌∙◌, refl, Bytes, Bool, true, false, not, List, [], ◌∷◌, ◌++◌, Option, none, some,
  if◌then◌else◌, codes, eqb, inl, inr, Bool-cases, arith, trim_space,
}
use dlvpp.Base.Fault.{Error, ok, err, sentinel, is_error, quit_loop}
use dlvpp.Cli.View.{session_exited}
use dlvpp.Cli.Shell.{Runner, Env, Shell}
use dlvpp.Cli.Shell.Commands.{
  Parsed, parse_command, run_command, run_parsed, execute_command_text, handled, process_command,
}
use dlvpp.Cli.Shell.Loops.{LineInput, line, run_line_command_loop}

-- Whether a command ends the session, from whether the program exited.
abbrev pub ends : Bool → Bytes → Bool
ends exited command = if exited then not (eqb command (codes "o")) else eqb command (codes "q")

-- The commands of some lines, run one after the other, each go on, and leave the second shell of
-- the first one.
pub data GoesOn {R : Type 0} (env : Env) (runner : Runner R)
    : List LineInput → Shell R → Shell R → Type 0 where
  no_line : {s : Shell R} → GoesOn env runner [] s s
  goes_on :
      {shown : Bytes} {ctx : Option Error} {lines : List LineInput} {s s' s'' : Shell R}
      → process_command env runner ctx (trim_space shown) s ≡ (ok false, s')
      → GoesOn env runner lines s' s''
      → GoesOn env runner (line shown ctx ∷ lines) s s''

module _ {R : Type 0} (env : Env) (runner : Runner R) where
  run_parsed-quits :
      (p : Parsed) (s : Shell R)
      → ends (session_exited s.view) p.command ≡ true
      → run_parsed env runner (some p) s ≡ (err (sentinel quit_loop), s)
  unfolding run_parsed run_command
  run_parsed-quits p s k = elim (Bool-cases (session_exited s.view)) [
    | inl e ↦ rw e (let o : eqb p.command (codes "o") ≡ false = ground arith in rw o)
    | inr e ↦ rw e (let q : eqb p.command (codes "q") ≡ true = ground arith in rw q)
  ]

  process_command-quits :
      (text : Bytes) (p : Parsed) (s : Shell R)
      → parse_command text ≡ some p
      → ends (session_exited s.view) p.command ≡ true
      → process_command env runner none text s ≡ (ok true, s)
  unfolding process_command execute_command_text
  process_command-quits text p s e k =
      rw e (rw (run_parsed-quits p s k) (unfold handled is_error in refl))

  after_lines :
      (before rest : List LineInput) (s s' : Shell R)
      → GoesOn env runner before s s'
      → run_line_command_loop env runner (before ++ rest) s
        ≡ run_line_command_loop env runner rest s'
  unfolding run_line_command_loop
  after_lines _ rest s _ no_line = refl
  after_lines _ rest s s'' (goes_on {shown} {ctx} {lines} {s' = s'} one more) =
      rw one (after_lines lines rest s' s'' more)

  -- Where the commands before it go on, the command q ends the loop while the program has not
  -- exited, and any command but o ends it once the program has: the loop returns no error, the
  -- shell is as those before left it, and none of the lines behind is run.
  pub run_line_command_loop_quits :
      (before behind : List LineInput) (shown : Bytes) (p : Parsed) (s s' : Shell R)
      → GoesOn env runner before s s'
      → parse_command (trim_space shown) ≡ some p
      → ends (session_exited s'.view) p.command ≡ true
      → run_line_command_loop env runner (before ++ line shown none ∷ behind) s ≡ (ok tt, s')
  unfolding run_line_command_loop
  run_line_command_loop_quits before behind shown p s s' go e k =
      after_lines before (line shown none ∷ behind) s s' go
      ∙ rw (process_command-quits (trim_space shown) p s' e k)
