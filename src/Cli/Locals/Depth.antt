-- ===== src/Cli/Locals/Depth.antt =====
-- cmd/dlvpp/loop.go and screens.go: the fuel of the recursion over expanded locals is enough.
use dlvpp.Base.{
  ℕ, zero, suc, ◌+◌, ◌≤◌, ◌<◌, ◌≡◌, ◌≢◌, refl, ap, Bytes, Bool, List, [], ◌∷◌, ◌++◌, Option, none,
  some, codes, eqb, eq_of_eqb, Bool-cases, inl, inr, length, length-append, if◌then◌else◌, arith,
}
use dlvpp.Backend.{Variable}
use dlvpp.Cli.Locals.{filter_displayed_locals, join_local_path}
use dlvpp.Cli.Locals.Lines.{Numbers, write_local_line}
use dlvpp.Cli.Locals.Trees.{
  Expanded, Match, children_at, longest, each, visible_of, collect_visible_local_matches, below,
  write_expanded_local_lines,
}

-- Below a path that is not empty, a path is longer.
pub join_local_path-length :
    (path name : Bytes)
    → path ≢ []
    → (length path < length (join_local_path path name)) × (join_local_path path name ≢ [])
unfolding join_local_path
join_local_path-length [] name h = absurd (h refl)
join_local_path-length (c ∷ path) name h =
    let size = length-append path (codes "." ++ name) in (omega arith, λ e. cc)

-- A path that is expanded is no longer than the longest.
children_at-longest :
    (path : Bytes) (m : Expanded) (children : List Variable)
    → children_at path m ≡ some children
    → length path ≤ longest m
unfolding children_at longest
children_at-longest path [] children h = cc
children_at-longest path ((p, cs) ∷ m) children h = elim (Bool-cases (eqb p path)) [
  | inl e ↦ let same = ap length (eq_of_eqb p path e) in omega arith
  | inr e ↦ let rest = children_at-longest path m children (ground arith) in omega arith
]

each_cong :
    {A : Type 0} (f g : Variable → List A) (locals : List Variable)
    → ((v : Variable) → f v ≡ g v)
    → each f locals ≡ each g locals
each_cong f g [] h = refl
each_cong f g (v ∷ locals) h = rw (h v, each_cong f g locals h)

-- Two fuels, one more than the given ones, are enough at a path, where the paths that the recursion
-- goes on below are no longer than a bound.
pub record Reaches (bound : ℕ) (path : Bytes) (a b : ℕ) : Type 0 where
  pub named : path ≢ []
  pub first : bound < a + length path
  pub second : bound < b + length path

module _ (bound : ℕ) (path : Bytes) (inside : length path ≤ bound) where
  pub enough_below :
      (a b : ℕ) (name : Bytes)
      → Reaches bound path (suc a) (suc b)
      → Reaches bound (join_local_path path name) a b
  enough_below a b name h =
      let first = h.first in
      let second = h.second in
      let (longer, named) = join_local_path-length path name h.named in
      record { named = named; first = omega arith; second = omega arith }

  pub no_zero_left : (b : ℕ) → Reaches bound path zero b → ⊥
  no_zero_left b h = let first = h.first in omega arith

  pub no_zero_right : (a : ℕ) → Reaches bound path a zero → ⊥
  no_zero_right a h = let second = h.second in omega arith

module _ (n : Numbers) (m : Expanded) (color : Bool) where
  below_cong :
      (f g : Variable → Bytes) (indent : Bytes) (o : Option (List Variable))
      → ((children : List Variable) → o ≡ some children → (v : Variable) → f v ≡ g v)
      → below n f color indent o ≡ below n g color indent o
  unfolding below
  below_cong f g indent none h = refl
  below_cong f g indent (some children) h =
      rw (each_cong f g (filter_displayed_locals children).0 (h children refl))

  abbrev child_line : ℕ → Bytes → Bytes → Variable → Bytes
  child_line a indent path v =
      write_expanded_local_lines n a m color (indent ++ codes "  ") v (join_local_path path v.name)

  -- The lines of a local with a path that is not empty, and of what is expanded below it, are the
  -- same for all fuels that with the length of its path reach beyond the longest expanded path.
  pub write_expanded_local_lines_enough :
      (a b : ℕ) (indent : Bytes) (local : Variable) (path : Bytes)
      → Reaches (longest m) path a b
      → write_expanded_local_lines n (suc a) m color indent local path
        ≡ write_expanded_local_lines n (suc b) m color indent local path
  unfolding write_expanded_local_lines
  write_expanded_local_lines_enough zero b indent local path h =
      ap (λ s. write_local_line n local color indent ++ s)
        (below_cong (child_line zero indent path) (child_line b indent path) (indent ++ codes "  ")
          (children_at path m)
          (λ children found v.
            absurd (no_zero_left (longest m) path (children_at-longest path m children found) b h)))
  write_expanded_local_lines_enough (suc a) zero indent local path h =
      ap (λ s. write_local_line n local color indent ++ s)
        (below_cong (child_line (suc a) indent path) (child_line zero indent path)
          (indent ++ codes "  ") (children_at path m)
          (λ children found v.
            absurd (
              no_zero_right (longest m) path (children_at-longest path m children found) (suc a)
                h)))
  write_expanded_local_lines_enough (suc a) (suc b) indent local path h =
      ap (λ s. write_local_line n local color indent ++ s)
        (below_cong (child_line (suc a) indent path) (child_line (suc b) indent path)
          (indent ++ codes "  ") (children_at path m)
          (λ children found v.
            write_expanded_local_lines_enough a b (indent ++ codes "  ") v
              (join_local_path path v.name)
              (enough_below (longest m) path (children_at-longest path m children found) a b v.name
                h)))

module _ (m : Expanded) (name : Bytes) where
  each_visible_cong :
      (f g : Variable → List Match) (o : Option (List Variable))
      → ((children : List Variable) → o ≡ some children → (v : Variable) → f v ≡ g v)
      → each f (visible_of o) ≡ each g (visible_of o)
  each_visible_cong f g none h = refl
  each_visible_cong f g (some children) h =
      each_cong f g (filter_displayed_locals children).0 (h children refl)

  abbrev here : Variable → Bytes → List Match
  here local path =
      if eqb local.name name then record { path = path; variable = local } ∷ [] else []

  abbrev child_matches : ℕ → Bytes → Variable → List Match
  child_matches a path v = collect_visible_local_matches a m name v (join_local_path path v.name)

  -- The same for the locals that have a name.
  pub collect_visible_local_matches_enough :
      (a b : ℕ) (local : Variable) (path : Bytes)
      → Reaches (longest m) path a b
      → collect_visible_local_matches (suc a) m name local path
        ≡ collect_visible_local_matches (suc b) m name local path
  unfolding collect_visible_local_matches
  collect_visible_local_matches_enough zero b local path h =
      ap (λ s. here local path ++ s)
        (each_visible_cong (child_matches zero path) (child_matches b path) (children_at path m)
          (λ children found v.
            absurd (no_zero_left (longest m) path (children_at-longest path m children found) b h)))
  collect_visible_local_matches_enough (suc a) zero local path h =
      ap (λ s. here local path ++ s)
        (each_visible_cong (child_matches (suc a) path) (child_matches zero path)
          (children_at path m)
          (λ children found v.
            absurd (
              no_zero_right (longest m) path (children_at-longest path m children found) (suc a)
                h)))
  collect_visible_local_matches_enough (suc a) (suc b) local path h =
      ap (λ s. here local path ++ s)
        (each_visible_cong (child_matches (suc a) path) (child_matches (suc b) path)
          (children_at path m)
          (λ children found v.
            collect_visible_local_matches_enough a b v (join_local_path path v.name) (
              enough_below (longest m) path (children_at-longest path m children found) a b v.name
                h)))
