-- ===== src/Cli/ModuleRoot/Search.antt =====
-- cmd/dlvpp/source_index.go: the search for the root of a module ends, with the nearest one.
use dlvpp.Base.{
  ℕ, zero, suc, ◌<◌, ◌≡◌, Bytes, false, eqb, eqb_iff, length, Bool-cases, ◌⊎◌, inl, inr, arith,
  has_prefix, codes, true,
}
use dlvpp.Cli.ModuleRoot.{Directories, root_from, find_module_root, up, IsRoot, IsRootless}

-- A path that starts with a slash, as the paths of directories that `go list` prints do.
abbrev pub IsRooted : Bytes → Type 0
IsRooted dir = has_prefix dir (codes "/") ≡ true

module _ (d : Directories) (clean-IsRooted : (dir : Bytes) → IsRooted dir → IsRooted (d.clean dir))
    (parent-IsRooted : (dir : Bytes) → IsRooted dir → IsRooted (d.parent dir))
    (shorter : (dir : Bytes)
      → IsRooted dir
      → (d.parent dir ≡ dir) ⊎ (length (d.parent dir) < length dir)) where
  below :
      (dir : Bytes)
      → IsRooted dir
      → eqb (d.parent dir) dir ≡ false
      → length (d.parent dir) < length dir
  below dir rooted e = elim (shorter dir rooted) [
    | inl same ↦ cc (e, (eqb_iff (d.parent dir) dir).1 same)
    | inr less ↦ less
  ]

  -- One level further down.
  all_lack :
      (dir : Bytes) (k : ℕ)
      → d.has_go_mod dir ≡ false
      → ((i : ℕ) → i < k → d.has_go_mod (up d i (d.parent dir)) ≡ false)
      → (i : ℕ) → i < suc k
      → d.has_go_mod (up d i dir) ≡ false
  all_lack dir k e h zero b = e
  all_lack dir k e h (suc i) b = h i (omega arith)

  root_from_lem :
      (n : ℕ) (start dir : Bytes)
      → IsRooted dir
      → length dir < n
      → ((k : ℕ) × IsRoot d dir (root_from d n start dir) k)
        ⊎ ((k : ℕ) × IsRootless d start dir (root_from d n start dir) k)
  unfolding root_from
  root_from_lem zero start dir rooted h = absurd (omega arith)
  root_from_lem (suc n) start dir rooted h = elim (Bool-cases (d.has_go_mod dir)) [
    | inl e ↦ inl (0, record { is_found = rw e; has = e; nearest = λ i b. absurd (omega arith) })
    | inr e ↦ elim (Bool-cases (eqb (d.parent dir) dir)) [
      | inl top ↦ inr (
        0,
        record {
          fails = rw (e, top);
          last = (eqb_iff (d.parent dir) dir).0 top;
          lacks = λ i b. all_lack dir 0 e (λ i' b'. absurd (omega arith)) i (omega arith);
        },
      )
      | inr more ↦
          let less = below dir rooted more in
          elim (root_from_lem n start (d.parent dir) (parent-IsRooted dir rooted) (omega arith)) [
            | inl (k, r) ↦ inl (
              suc k,
              record {
                is_found = rw (e, more) r.is_found;
                has = r.has;
                nearest = all_lack dir k e r.nearest;
              },
            )
            | inr (k, r) ↦ inr (
              suc k,
              record {
                fails = rw (e, more) r.fails;
                last = r.last;
                lacks = λ i b.
                    all_lack dir (suc k) e (λ i' b'. r.lacks i' (omega arith)) i (omega arith);
              },
            )
          ]
    ]
  ]

  -- Where the paths that start with a slash are cleaned to such paths, and the parent of one is such
  -- a path too, and is shorter or the path itself, the search from such a path ends: with the
  -- nearest ancestor that has a go.mod, or with the error where no ancestor up to the last, which
  -- is its own parent, has one.
  pub find_module_root_lem :
      (start : Bytes)
      → IsRooted start
      → ((k : ℕ) × IsRoot d (d.clean start) (find_module_root d start) k)
        ⊎ ((k : ℕ) × IsRootless d start (d.clean start) (find_module_root d start) k)
  unfolding find_module_root
  find_module_root_lem start rooted =
      root_from_lem (suc (length (d.clean start))) start (d.clean start)
        (clean-IsRooted start rooted) (omega arith)
