-- ===== src/Cli/ModuleRoot.antt =====
-- cmd/dlvpp/source_index.go: the search for the root of a module. The directories are asked of
-- packages filepath and os, which are given.
pub mod Search
use dlvpp.Base.{
  ℕ, zero, suc, ◌<◌, ◌≤◌, ◌≡◌, refl, Bytes, Bool, true, false, ◌++◌, Option, none, some, codes, eqb,
  eqb_iff, length, if◌then◌else◌, Bool-cases, ◌⊎◌, inl, inr, arith,
}
use dlvpp.Base.Fault.{Error, text, Result, ok, err}

-- `filepath.Clean`, `filepath.Dir`, and whether `os.Stat` finds a go.mod in a directory.
pub record Directories : Type 0 where
  pub clean : Bytes → Bytes
  pub parent : Bytes → Bytes
  pub has_go_mod : Bytes → Bool

abbrev pub not_found : Bytes → Error
not_found start = text (codes "find module root for " ++ (start ++ codes ": go.mod not found"))

module _ (d : Directories) where
  -- The loop of `findModuleRoot`, on fuel; `none` is that there was not enough.
  unfoldable pub root_from : ℕ → Bytes → Bytes → Option (Result Bytes)
  root_from zero start dir = none
  root_from (suc n) start dir =
      let further = root_from n start (d.parent dir) in
      if d.has_go_mod dir
      then some (ok dir)
      else if eqb (d.parent dir) dir
      then some (err (not_found start))
      else further

  -- `findModuleRoot`: a path of so many bytes has no more ancestors than that.
  unfoldable pub find_module_root : Bytes → Option (Result Bytes)
  unfolding root_from
  find_module_root start = root_from (suc (length (d.clean start))) start (d.clean start)

  -- The directory so many levels up.
  abbrev pub up : ℕ → Bytes → Bytes
  up zero dir = dir
  up (suc k) dir = up k (d.parent dir)

  -- The result is the nearest ancestor with a go.mod, `k` levels up.
  pub record IsRoot (dir : Bytes) (result : Option (Result Bytes)) (k : ℕ) : Type 0 where
    pub is_found : result ≡ some (ok (up k dir))
    pub has : d.has_go_mod (up k dir) ≡ true
    pub nearest : (i : ℕ) → i < k → d.has_go_mod (up i dir) ≡ false

  -- The result is the error, and none of the ancestors up to the last, `k` levels up, has a go.mod.
  pub record IsRootless (start dir : Bytes) (result : Option (Result Bytes)) (k : ℕ) : Type 0 where
    pub fails : result ≡ some (err (not_found start))
    pub last : d.parent (up k dir) ≡ up k dir
    pub lacks : (i : ℕ) → i ≤ k → d.has_go_mod (up i dir) ≡ false
