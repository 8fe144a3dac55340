-- ===== src/Cli/Index/Discover.antt =====
-- cmd/dlvpp/comment_breakpoints.go and source_index.go: the discovery that a launch runs.
use dlvpp.Base.{Bytes, Bool, List}
use dlvpp.Base.Fault.{Result, ◌>>=◌}
use dlvpp.Backend.{BreakpointSpec}
use dlvpp.Cli.Comments.{Comment, discover_comment_breakpoints_in_files}
use dlvpp.Cli.ModuleRoot.{find_module_root}
use dlvpp.Cli.Index.Packages.{Tools, WalkDir, root_of, load_package_entry, walk_module_go_files}

-- The system's part of the discovery: the tools, the walk, `os.ReadFile` and the scanner's comments.
pub record Files : Type 0 where
  pub tools : Tools
  pub walk_dir : WalkDir
  pub read_file : Bytes → Result Bytes
  pub scan : Bytes → List Comment

module _ (f : Files) where
  -- `discoverCommentBreakpointsInPackage`.
  unfoldable pub discover_comment_breakpoints_in_package :
      Bytes → Bool → Result (List BreakpointSpec)
  unfolding load_package_entry discover_comment_breakpoints_in_files
  discover_comment_breakpoints_in_package target include_tests = do
    entry ← load_package_entry f.tools target include_tests
    discover_comment_breakpoints_in_files f.read_file f.scan entry.files

  -- `discoverCommentBreakpointsAcrossModule`.
  unfoldable pub discover_comment_breakpoints_across_module :
      Bytes → Bool → Result (List BreakpointSpec)
  unfolding load_package_entry find_module_root walk_module_go_files
      discover_comment_breakpoints_in_files
  discover_comment_breakpoints_across_module target include_tests = do
    entry ← load_package_entry f.tools target include_tests
    root ← root_of entry.dir (find_module_root f.tools.directories entry.dir)
    files ← walk_module_go_files f.tools f.walk_dir root include_tests
    discover_comment_breakpoints_in_files f.read_file f.scan files

  -- `discoverCommentBreakpoints`, which does not read the index.
  unfoldable pub discover_comment_breakpoints : Bytes → Bool → Result (List BreakpointSpec)
  unfolding discover_comment_breakpoints_in_package
  discover_comment_breakpoints target include_tests =
      discover_comment_breakpoints_in_package target include_tests

  -- `discoverCommentBreakpointsInModule`, likewise.
  unfoldable pub discover_comment_breakpoints_in_module :
      Bytes → Bool → Result (List BreakpointSpec)
  unfolding discover_comment_breakpoints_across_module
  discover_comment_breakpoints_in_module target include_tests =
      discover_comment_breakpoints_across_module target include_tests
