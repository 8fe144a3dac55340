-- ===== src/Cli/Args/Splitting.antt =====
-- cmd/dlvpp/args.go: which arguments the commands accept.
use dlvpp.Base.{
  ℕ, ◌<◌, ◌≡◌, refl, ap, sym, Bytes, false, not, List, [], ◌∷◌, ◌++◌, codes, eqb, eqb_iff,
  if◌then◌else◌, Bool-cases, ◌⊎◌, inl, inr, All, arith, utoa, atoi-utoa, max_int, ◌≤◌,
}
use dlvpp.Base.Int.{pos}
use dlvpp.Base.Fault.{Result, ok}
use dlvpp.Cli.Args.{
  separator, Passthrough, put_positional, split_passthrough_args, Flags, LaunchArgs, launch_args,
  parse_launch_args, attach_args, attach_pid, parse_attach_args,
}

-- The arguments that a split is of.
abbrev pub rejoin : Passthrough → List Bytes
rejoin p = p.positionals ++ (if p.has_separator then separator ∷ p.program_args else p.program_args)

abbrev pub IsPositional : Bytes → Type 0
IsPositional arg = eqb arg separator ≡ false

-- Splitting loses nothing: the parts, joined by the separator where there was one, are the
-- arguments; no separator is among the positionals, and without a separator nothing is passed on.
pub split_passthrough_args_lem :
    (args : List Bytes)
    → (rejoin (split_passthrough_args args) ≡ args)
      × All IsPositional (split_passthrough_args args).positionals
      × ((split_passthrough_args args).has_separator ≡ false
          → (split_passthrough_args args).program_args ≡ [])
unfolding split_passthrough_args put_positional
split_passthrough_args_lem [] = (refl, tt, λ h. refl)
split_passthrough_args_lem (arg ∷ args) = elim (Bool-cases (eqb arg separator)) [
  | inl e ↦ rw e (ap (λ x. x ∷ args) (sym ((eqb_iff arg separator).0 e)), tt, λ h. cc)
  | inr e ↦
      let (joined, positional, none_passed) = split_passthrough_args_lem args in
      rw e (ap (λ x. arg ∷ x) joined, (e, positional), none_passed)
]

launch_args_ok :
    (flags : Flags) (positionals : List Bytes) (p : Passthrough) (r : LaunchArgs)
    → launch_args flags positionals p ≡ ok r
    → (positionals ≡ r.target ∷ []) × (r.program_args ≡ p.program_args)
unfolding launch_args
launch_args_ok flags [] p r h = cc
launch_args_ok flags (target ∷ []) p r h = ground arith
launch_args_ok flags (_ ∷ _ ∷ _) p r h = ground arith

module _ (parse : Bytes → List Bytes → Result Flags) (args : List Bytes) (flags : Flags)
    (parsed : parse (codes "launch") args ≡ ok flags) where
  -- Launching is accepted with one target only, alone or with the separator and the program's
  -- arguments after it.
  pub parse_launch_args_ok :
      (r : LaunchArgs)
      → parse_launch_args parse args ≡ ok r
      → (flags.args ≡ r.target ∷ []) ⊎ (flags.args ≡ r.target ∷ separator ∷ r.program_args)
  unfolding parse_launch_args
  parse_launch_args_ok r h =
      let p = split_passthrough_args flags.args in
      let (one, passed) = launch_args_ok flags p.positionals p r (rw parsed at h) in
      let (joined, positional, none_passed) = split_passthrough_args_lem flags.args in
      elim (Bool-cases p.has_separator) [
        | inl e ↦ inr (sym (rw (e, one, sym passed) at joined))
        | inr e ↦ inl (sym (rw (e, one, none_passed e) at joined))
      ]

module _ (parse : Bytes → List Bytes → Result Flags) (quote : Bytes → Bytes) (args : List Bytes)
    (flags : Flags) (parsed : parse (codes "attach") args ≡ ok flags) where
  -- The decimal digits of a positive pid that fits an `int` are accepted, and are read as it.
  pub parse_attach_args-utoa :
      (pid : ℕ)
      → 0 < pid
      → pid ≤ max_int
      → flags.args ≡ utoa pid ∷ []
      → parse_attach_args parse quote args
        ≡ ok (record { pid = pos pid; sticky = not flags.plain; verbose = flags.verbose })
  unfolding parse_attach_args attach_args attach_pid
  parse_attach_args-utoa pid p q h = rw (parsed, h, atoi-utoa pid q) (ground arith)
