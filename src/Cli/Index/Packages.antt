-- ===== src/Cli/Index/Packages.antt =====
-- cmd/dlvpp/source_index.go: the files of a package and of a module, and their caches.
use dlvpp.Base.{
  Bytes, Bool, true, false, not, List, [], ◌∷◌, ◌++◌, Option, none, some, map, codes, eqb, ◌||◌,
  ◌&&◌, if◌then◌else◌, has_prefix, has_suffix,
}
use dlvpp.Base.Fault.{Error, Result, ok, err, wrapped}
use dlvpp.Base.Proc.{Proc, after}
use dlvpp.Cli.ModuleRoot.{Directories, find_module_root, not_found}
use dlvpp.Cli.Index.Parse.{Disk, SourceFileInfo}
use dlvpp.Cli.Index.{SourceIndex, PackageKey, PackageEntry, look_up, file_infos}

abbrev same_bool : Bool → Bool → Bool
same_bool true b = b
same_bool false b = not b

abbrev same_key : PackageKey → PackageKey → Bool
same_key a b = eqb a.target b.target && same_bool a.include_tests b.include_tests

-- The output of `go list -json`, decoded.
pub record GoListPackage : Type 0 where
  pub dir : Bytes
  pub go_files : List Bytes
  pub test_go_files : List Bytes
  pub x_test_go_files : List Bytes

-- What the index asks of other packages: the run of `go list`, the decoder, `filepath.Join`, the directories
-- and `filepath.Ext`.
pub record Tools : Type 0 where
  pub go_list : Bytes → Result Bytes
  pub decode : Bytes → Result GoListPackage
  pub join_path : Bytes → Bytes → Bytes
  pub directories : Directories
  pub ext : Bytes → Bytes

-- What `filepath.WalkDir` hands to its function, and what the function answers.
pub record DirEntry : Type 0 where
  pub name : Bytes
  pub is_dir : Bool

pub data Visit : Type 0 where
  go_on skip_dir : Visit
  stop : Error → Visit

-- `filepath.WalkDir` from a root, with a function that visits, on what the visits keep.
abbrev pub WalkDir : Type 0
WalkDir =
    Bytes
    → (Bytes → DirEntry → Option Error → List Bytes → Visit × List Bytes)
    → List Bytes
    → Result (List Bytes)

-- The search's fuel is enough where every parent is shorter.
abbrev pub root_of : Bytes → Option (Result Bytes) → Result Bytes
root_of start none = err (not_found start)
root_of start (some r) = r

module _ (tools : Tools) where
  abbrev listed : Bool → GoListPackage → PackageEntry
  listed include_tests pkg =
      let tests = if include_tests then pkg.test_go_files ++ pkg.x_test_go_files else [] in
      record { dir = pkg.dir; files = map (tools.join_path pkg.dir) (pkg.go_files ++ tests) }

  abbrev decoded : Bytes → Bool → Result GoListPackage → Result PackageEntry
  decoded target include_tests (err e) =
      err (wrapped (codes "decode go list for " ++ (target ++ codes ": ")) e [])
  decoded target include_tests (ok pkg) = ok (listed include_tests pkg)

  abbrev after_list : Bytes → Bool → Result Bytes → Result PackageEntry
  after_list target include_tests (err e) =
      err (wrapped (codes "go list " ++ (target ++ codes ": ")) e [])
  after_list target include_tests (ok output) = decoded target include_tests (tools.decode output)

  -- `loadPackageEntry`.
  unfoldable pub load_package_entry : Bytes → Bool → Result PackageEntry
  load_package_entry target include_tests = after_list target include_tests (tools.go_list target)

  abbrev kept_package : PackageKey → Result PackageEntry → Proc SourceIndex (List Bytes)
  kept_package key (err e) idx = (err e, idx)
  kept_package key (ok entry) idx =
      (ok entry.files, record idx { packages = (key, entry) ∷ idx.packages })

  unfoldable or_load : PackageKey → Option PackageEntry → Proc SourceIndex (List Bytes)
  unfolding load_package_entry
  or_load key (some entry) idx = (ok entry.files, idx)
  or_load key none idx = kept_package key (load_package_entry key.target key.include_tests) idx

  -- `PackageFiles`.
  unfoldable pub package_files : Bytes → Bool → Proc SourceIndex (List Bytes)
  unfolding or_load look_up
  package_files target include_tests idx =
      let key : PackageKey = record { target = target; include_tests = include_tests } in
      or_load key (look_up same_key key idx.packages) idx

  -- `PackageInfo`.
  unfoldable pub package_info : Disk → Bytes → Bool → Proc SourceIndex (List SourceFileInfo)
  unfolding package_files file_infos
  package_info disk target include_tests idx =
      after (package_files target include_tests idx) (file_infos disk)

  -- The directories that the walk of `walkModuleGoFiles` does not enter.
  abbrev is_left_out : Bytes → Bool
  is_left_out name =
      eqb name (codes "vendor") || (eqb name (codes ".git") || has_prefix name (codes "."))

  -- The function that `walkModuleGoFiles` hands to `filepath.WalkDir`.
  unfoldable pub visit :
      Bytes → Bool → Bytes → DirEntry → Option Error → List Bytes → Visit × List Bytes
  unfolding has_prefix has_suffix eqb
  visit root include_tests path entry (some e) files = (stop e, files)
  visit root include_tests path entry none files =
      if entry.is_dir
      then if is_left_out entry.name
        then (if eqb path root then go_on else skip_dir, files)
        else if not (eqb path root) && tools.directories.has_go_mod path
        then (skip_dir, files)
        else (go_on, files)
      else if not (eqb (tools.ext path) (codes ".go"))
      then (go_on, files)
      else if not include_tests && has_suffix path (codes "_test.go")
      then (go_on, files)
      else (go_on, files ++ path ∷ [])

  abbrev walked : Bytes → Result (List Bytes) → Result (List Bytes)
  walked root (err e) =
      err (wrapped (codes "walk module go files in " ++ (root ++ codes ": ")) e [])
  walked root (ok files) = ok files

  module _ (walk_dir : WalkDir) where
    -- `walkModuleGoFiles`.
    unfoldable pub walk_module_go_files : Bytes → Bool → Result (List Bytes)
    unfolding visit
    walk_module_go_files root include_tests =
        walked root (walk_dir root (visit root include_tests) [])

    -- `moduleCacheKey`.
    abbrev module_cache_key : Bytes → Bool → Bytes
    module_cache_key root include_tests =
        root ++ (if include_tests then codes "|tests" else codes "|notests")

    abbrev kept_module : Bytes → Result (List Bytes) → Proc SourceIndex (List Bytes)
    kept_module key (err e) idx = (err e, idx)
    kept_module key (ok files) idx = (ok files, record idx { modules = (key, files) ∷ idx.modules })

    unfoldable or_walk : Bytes → Bool → Option (List Bytes) → Proc SourceIndex (List Bytes)
    unfolding walk_module_go_files
    or_walk root include_tests (some files) idx = (ok files, idx)
    or_walk root include_tests none idx =
        kept_module (module_cache_key root include_tests) (walk_module_go_files root include_tests)
          idx

    -- `ModuleFiles`.
    unfoldable pub module_files : Bytes → Bool → Proc SourceIndex (List Bytes)
    unfolding load_package_entry find_module_root or_walk look_up
    module_files target include_tests idx =
        after (load_package_entry target include_tests, idx)
          (λ entry idx.
            after (root_of entry.dir (find_module_root tools.directories entry.dir), idx)
              (λ root idx.
                or_walk root include_tests
                  (look_up eqb (module_cache_key root include_tests) idx.modules) idx))
