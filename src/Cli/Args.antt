-- ===== src/Cli/Args.antt =====
-- cmd/dlvpp/args.go: the arguments of the commands. The flags are read by package flag, which is
-- given: it returns what is left of the arguments and the two flags.
pub mod Splitting
use dlvpp.Base.{
  ◌≡◌, refl, ap, ◌∙◌, Bytes, Bool, true, false, not, List, [], ◌∷◌, ◌++◌, Option, none, some, codes,
  eqb, eqb_iff, atoi, if◌then◌else◌, Bool-cases, inl, inr, All,
}
use dlvpp.Base.Int.{ℤ, is_positive}
use dlvpp.Base.Fault.{Error, text, Result, ok, err, ◌>>=◌}

abbrev pub separator : Bytes
separator = codes "--"

-- The two parts of the arguments, and whether the separator is there.
pub record Passthrough : Type 0 where
  pub positionals : List Bytes
  pub program_args : List Bytes
  pub has_separator : Bool

unfoldable pub put_positional : Bytes → Passthrough → Passthrough
put_positional arg p = record p { positionals = arg ∷ p.positionals }

-- `splitPassthroughArgs`.
unfoldable pub split_passthrough_args : List Bytes → Passthrough
unfolding put_positional
split_passthrough_args [] = record { positionals = []; program_args = []; has_separator = false }
split_passthrough_args (arg ∷ args) =
    let rest = split_passthrough_args args in
    if eqb arg separator
    then record { positionals = []; program_args = args; has_separator = true }
    else put_positional arg rest

-- What `fs.Parse` leaves.
pub record Flags : Type 0 where
  pub args : List Bytes
  pub plain : Bool
  pub verbose : Bool

pub record LaunchArgs : Type 0 where
  pub target : Bytes
  pub program_args : List Bytes
  pub sticky : Bool
  pub verbose : Bool

pub record TestArgs : Type 0 where
  pub target : Bytes
  pub selector : Bytes
  pub program_args : List Bytes
  pub sticky : Bool
  pub verbose : Bool

pub record AttachArgs : Type 0 where
  pub pid : ℤ
  pub sticky : Bool
  pub verbose : Bool

unfoldable launch_args : Flags → List Bytes → Passthrough → Result LaunchArgs
launch_args flags [] p = err (text (codes "launch requires a package or path"))
launch_args flags (target ∷ []) p = ok (record {
  target = target;
  program_args = p.program_args;
  sticky = not flags.plain;
  verbose = flags.verbose;
})
launch_args flags (_ ∷ _ ∷ _) p =
    if p.has_separator
    then err (text (codes "launch accepts exactly one package or path before --"))
    else err
        (text (codes "launch accepts exactly one package or path; use -- to pass program args"))

unfoldable test_args : Flags → List Bytes → Passthrough → Result TestArgs
test_args flags [] p = err (text (codes "test requires a package or path"))
test_args flags (_ ∷ []) p = err (text (codes "test requires a test or subtest name"))
test_args flags (target ∷ selector ∷ []) p = ok (record {
  target = target;
  selector = selector;
  program_args = p.program_args;
  sticky = not flags.plain;
  verbose = flags.verbose;
})
test_args flags (_ ∷ _ ∷ _ ∷ _) p =
    if p.has_separator
    then err (
        text
          (codes "test accepts exactly one package or path and one test or subtest name before --"))
    else err (
        text (
          codes
            "test accepts exactly one package or path and one test or subtest name; use -- to pass test binary args"))

-- `quote` is the verb `%q`.
unfoldable attach_pid : (Bytes → Bytes) → Flags → Bytes → Option ℤ → Result AttachArgs
attach_pid quote flags arg none = err (text (codes "invalid pid: " ++ quote arg))
attach_pid quote flags arg (some pid) =
    if is_positive pid
    then ok (record { pid = pid; sticky = not flags.plain; verbose = flags.verbose })
    else err (text (codes "invalid pid: " ++ quote arg))

unfoldable attach_args : (Bytes → Bytes) → Flags → List Bytes → Result AttachArgs
unfolding attach_pid
attach_args quote flags [] = err (text (codes "attach requires a pid"))
attach_args quote flags (arg ∷ []) = attach_pid quote flags arg (atoi arg)
attach_args quote flags (_ ∷ _ ∷ _) = err (text (codes "attach accepts exactly one pid"))

module _ (parse : Bytes → List Bytes → Result Flags) where
  -- `parseLaunchArgs`.
  unfoldable pub parse_launch_args : List Bytes → Result LaunchArgs
  unfolding launch_args split_passthrough_args
  parse_launch_args args = do
    flags ← parse (codes "launch") args
    let p = split_passthrough_args flags.args
    launch_args flags p.positionals p

  -- `parseTestArgs`.
  unfoldable pub parse_test_args : List Bytes → Result TestArgs
  unfolding test_args split_passthrough_args
  parse_test_args args = do
    flags ← parse (codes "test") args
    let p = split_passthrough_args flags.args
    test_args flags p.positionals p

  -- `parseAttachArgs`.
  unfoldable pub parse_attach_args : (Bytes → Bytes) → List Bytes → Result AttachArgs
  unfolding attach_args
  parse_attach_args quote args = do
    flags ← parse (codes "attach") args
    attach_args quote flags flags.args
