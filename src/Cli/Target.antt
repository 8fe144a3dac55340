-- ===== src/Cli/Target.antt =====
-- cmd/dlvpp/launch_target.go: the requests of the launch and test commands.
use dlvpp.Base.{
  Bytes, Bool, List, [], ◌∷◌, ◌++◌, codes, if◌then◌else◌, is_empty, trim_space, has_suffix, split,
  join, cut,
}
use dlvpp.Base.Fault.{text, Result, ok, err, ◌>>=◌}
use dlvpp.Backend.{LaunchMode, debug, test, LaunchRequest}

-- What the file system and package filepath are asked: whether `os.Stat` finds something that is
-- not a directory, and `filepath.Dir`.
pub record Paths : Type 0 where
  pub is_file : Bytes → Bool
  pub dir : Bytes → Bytes

abbrev not_a_package : Paths → Bytes → Bytes → Result Bytes
not_a_package paths command target = err (
    text (
      command
      ++ (codes " expects a package path or directory, not a .go file: "
          ++ (target ++ (codes "\ntry: " ++ (command ++ (codes " " ++ paths.dir target)))))))

unfoldable validated : Paths → Bytes → Bytes → Result Bytes
validated paths command target =
    if is_empty target
    then err (text (command ++ codes " target is required"))
    else if has_suffix target (codes ".go")
    then if paths.is_file target then not_a_package paths command target else ok target
    else ok target

-- `validatePackageTarget`.
unfoldable pub validate_package_target : Paths → Bytes → Bytes → Result Bytes
unfolding validated
validate_package_target paths command target = validated paths command (trim_space target)

-- The loop of `testRunArgs`; `quote_meta` is regexp.QuoteMeta.
unfoldable pub patterns : (Bytes → Bytes) → List Bytes → List Bytes
patterns quote_meta [] = []
patterns quote_meta (part ∷ parts) =
    let rest = patterns quote_meta parts in
    if is_empty part then rest else (codes "^" ++ (quote_meta part ++ codes "$")) ∷ rest

abbrev run_args : List Bytes → List Bytes
run_args [] = []
run_args (p ∷ ps) = codes "-test.run" ∷ join (p ∷ ps) (codes "/") ∷ []

-- `testRunArgs`.
unfoldable pub test_run_args : (Bytes → Bytes) → Bytes → List Bytes
unfolding patterns
test_run_args quote_meta selector = run_args (patterns quote_meta (split selector 47))

-- `topLevelTestName`.
unfoldable pub top_level_test_name : Bytes → Bytes
top_level_test_name selector =
    if is_empty (trim_space selector) then [] else trim_space (cut (trim_space selector) 47).0

abbrev request : LaunchMode → Bytes → List Bytes → LaunchRequest
request mode target args = record {
  mode = mode;
  target = target;
  args = args;
  build_flags = [];
  work_dir = [];
}

-- `newLaunchRequest`.
unfoldable pub new_launch_request : Paths → Bytes → List Bytes → Result LaunchRequest
new_launch_request paths target program_args = do
  valid ← validate_package_target paths (codes "launch") target
  ok (request debug valid program_args)

-- `newTestLaunchRequest`.
unfoldable pub new_test_launch_request :
    Paths → (Bytes → Bytes) → Bytes → Bytes → List Bytes → Result LaunchRequest
new_test_launch_request paths quote_meta target selector program_args = do
  valid ← validate_package_target paths (codes "test") target
  ok (request test valid (test_run_args quote_meta selector ++ program_args))
