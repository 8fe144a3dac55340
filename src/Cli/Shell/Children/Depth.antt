-- ===== src/Cli/Shell/Children/Depth.antt =====
-- cmd/dlvpp/screens.go: the fuel of `collectExpandedLocals` is enough.
use dlvpp.Base.{
  ℕ, zero, suc, ◌≤◌, ◌≡◌, refl, ap, ◌∙◌, Bytes, true, not, List, [], ◌∷◌, eqb, eq_of_eqb,
  Bool-cases, inl, inr, length, if◌then◌else◌, arith,
}
use dlvpp.Base.Int.{is_positive}
use dlvpp.Base.Fault.{Result, ok, err}
use dlvpp.Base.Proc.{Proc, after}
use dlvpp.Backend.{Variable}
use dlvpp.Cli.Locals.{filter_displayed_locals, join_local_path}
use dlvpp.Cli.Locals.Trees.{Expanded}
use dlvpp.Cli.Locals.Depth.{Reaches, enough_below, no_zero_left, no_zero_right}
use dlvpp.Cli.Shell.{Runner, Env, Shell}
use dlvpp.Cli.Shell.Children.{
  is_wanted, longest_path, collect_all, children_of, collect_expanded_locals,
}

is_wanted-longest_path :
    (wanted : List Bytes) (path : Bytes)
    → is_wanted wanted path ≡ true
    → length path ≤ longest_path wanted
unfolding is_wanted longest_path
is_wanted-longest_path [] path h = cc
is_wanted-longest_path (p ∷ wanted) path h = elim (Bool-cases (eqb p path)) [
  | inl e ↦ let same = ap length (eq_of_eqb p path e) in omega arith
  | inr e ↦ let rest = is_wanted-longest_path wanted path (ground arith) in omega arith
]

after_cong :
    {S A B : Type 0} (r : Result A × S) (f g : A → Proc S B)
    → ((a : A) (s : S) → f a s ≡ g a s)
    → after r f ≡ after r g
after_cong (ok a, s) f g h = h a s
after_cong (err e, s) f g h = refl

collect_all_cong :
    {S : Type 0} (f g : Variable → Expanded → Proc S Expanded) (locals : List Variable)
    (m : Expanded) (s : S)
    → ((v : Variable) (m : Expanded) (s : S) → f v m s ≡ g v m s)
    → collect_all f locals m s ≡ collect_all g locals m s
unfolding collect_all
collect_all_cong f g [] m s h = refl
collect_all_cong f g (v ∷ locals) m s h =
    ap (λ r. after r (collect_all f locals)) (h v m s)
    ∙ after_cong (g v m s) (collect_all f locals) (collect_all g locals)
        (λ m' s'. collect_all_cong f g locals m' s' h)

module _ {R : Type 0} (env : Env) (runner : Runner R) (wanted : List Bytes) where
  abbrev child_step : ℕ → Bytes → Variable → Expanded → Proc (Shell R) Expanded
  child_step a path child =
      collect_expanded_locals env runner a wanted (join_local_path path child.name) child

  -- What a round does, given what it does for the children.
  abbrev round :
      (Variable → Expanded → Proc (Shell R) Expanded)
      → Bytes
      → Variable
      → Expanded
      → Proc (Shell R) Expanded
  round f path local expanded s =
      if not (is_wanted wanted path)
      then (ok expanded, s)
      else if not (is_positive local.reference)
      then (ok expanded, s)
      else after (children_of env runner local path s) (λ children.
        collect_all f (filter_displayed_locals children).0 ((path, children) ∷ expanded))

  round_cong :
      (f g : Variable → Expanded → Proc (Shell R) Expanded) (path : Bytes) (local : Variable)
      (expanded : Expanded) (s : Shell R)
      → (length path ≤ longest_path wanted
          → (v : Variable) (m : Expanded) (s : Shell R) → f v m s ≡ g v m s)
      → round f path local expanded s ≡ round g path local expanded s
  round_cong f g path local expanded s h = elim (Bool-cases (is_wanted wanted path)) [
    | inr e ↦ rw e
    | inl e ↦ rw e (
        ap (λ r. if not (is_positive local.reference) then (ok expanded, s) else r)
          (after_cong (children_of env runner local path s) _ _ (λ children s'.
            collect_all_cong f g (filter_displayed_locals children).0 ((path, children) ∷ expanded)
              s' (h (is_wanted-longest_path wanted path e)))))
  ]

  -- What is collected for a local with a name is the same for all fuels that with the length of its
  -- path reach beyond the longest wanted path.
  pub collect_expanded_locals_enough :
      (a b : ℕ) (path : Bytes) (local : Variable) (expanded : Expanded) (s : Shell R)
      → Reaches (longest_path wanted) path a b
      → collect_expanded_locals env runner (suc a) wanted path local expanded s
        ≡ collect_expanded_locals env runner (suc b) wanted path local expanded s
  unfolding collect_expanded_locals
  collect_expanded_locals_enough zero b path local expanded s h =
      round_cong (child_step zero path) (child_step b path) path local expanded s
        (λ inside v m s'. absurd (no_zero_left (longest_path wanted) path inside b h))
  collect_expanded_locals_enough (suc a) zero path local expanded s h =
      round_cong (child_step (suc a) path) (child_step zero path) path local expanded s
        (λ inside v m s'. absurd (no_zero_right (longest_path wanted) path inside (suc a) h))
  collect_expanded_locals_enough (suc a) (suc b) path local expanded s h =
      round_cong (child_step (suc a) path) (child_step (suc b) path) path local expanded s
        (λ inside v m s'.
          collect_expanded_locals_enough a b (join_local_path path v.name) v m s'
            (enough_below (longest_path wanted) path inside a b v.name h))
