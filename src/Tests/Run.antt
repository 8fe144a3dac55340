-- ===== src/Tests/Run.antt =====
-- Examples of the index of the sources and of whole runs.
use dlvpp.Base.{ℕ, ◌≡◌, refl, ap, Bytes, true, false, List, [], ◌∷◌, ◌++◌, none, some, codes}
use dlvpp.Base.Int.{pos}
use dlvpp.Base.Fault.{Result, ok, err}
use dlvpp.Cli.Index.Parse.{Disk, Stamp, SyntaxTree, SourceFileInfo, parse_source_file}
use dlvpp.Cli.Index.Fresh.{read_cached, read_each, read_cached-read_each, IsTelling}
use dlvpp.Cli.Index.{new_source_index}
use dlvpp.Session.{new}
use dlvpp.Dap.Client.{Client}
use dlvpp.Dap.Client.Session.Ends.{IsIdle}
use dlvpp.Dap.Interface.{dap_backend}
use dlvpp.Cli.Index.Discover.{Files}
use dlvpp.Cli.Run.{System, Process, Input}
use dlvpp.Cli.Run.Main.{run}
use dlvpp.Cli.Run.Closing.{run-IsIdle}
use dlvpp.Tests.{sample_codec, idle, world_with}
use dlvpp.Tests.Shell.{surroundings}

-- A disk on which every file has the same size, and holds the package that its time tells.
abbrev tree_of : ℕ → SyntaxTree
tree_of time = record { name = some (time ∷ []); functions = []; comments = [] }

abbrev disk_at : ℕ → Disk
disk_at time = record {
  clean = λ path. path;
  stat = λ path. ok (record { mod_time = time; size = 1 });
  parse = λ path. ok (tree_of time);
  read = λ path. ok [];
}

abbrev content : Bytes → Stamp → Result SourceFileInfo
content path stamp = parse_source_file (disk_at stamp.mod_time) path

abbrev time_of : Result Stamp → ℕ
time_of (ok stamp) = stamp.mod_time
time_of (err e) = 0

disk_at-IsTelling : (time : ℕ) → IsTelling content (disk_at time)
disk_at-IsTelling time path stamp e =
    let same : time ≡ stamp.mod_time = ap time_of e in
    ap (λ m. parse_source_file (disk_at m) path) same

-- The same file twice, and once more when it has changed.
abbrev calls : List (Disk × Bytes)
calls = (disk_at 1, codes "a.go") ∷ (disk_at 1, codes "a.go") ∷ (disk_at 2, codes "a.go") ∷ []

read_cached-read_each_example : read_cached calls new_source_index ≡ read_each calls
read_cached-read_each_example =
    read_cached-read_each content calls
      (disk_at-IsTelling 1, (disk_at-IsTelling 1, (disk_at-IsTelling 2, tt)))

-- A package without files, in a directory that holds the go.mod.
abbrev files : Files
files = record {
  tools = record {
    go_list = λ target. ok [];
    decode = λ s.
        ok (record { dir = codes "/w"; go_files = []; test_go_files = []; x_test_go_files = [] });
    join_path = λ dir name. dir ++ name;
    directories = record { clean = λ path. path; parent = λ path. path; has_go_mod = λ path. true };
    ext = λ path. [];
  };
  walk_dir = λ root visit found. ok found;
  read_file = λ path. ok [];
  scan = λ s. [];
}

abbrev system : System Client
system = record {
  env = surroundings;
  backend = dap_backend sample_codec (world_with []) (λ path. ok path);
  paths = record { is_file = λ path. false; dir = λ path. path };
  quote_meta = λ s. s;
  parse_flags = λ name args. ok (record { args = args; plain = true; verbose = true });
  files = files;
  terminal = none;
  input = Input.lines [];
  launch_time = codes "1ms";
  scan_time = codes "1ms";
  usage = codes "usage";
  dlv_version = ok tt;
}

abbrev process : Process Client
process = record { controller = new idle (pos 5); out = [] }

run-IsIdle_example :
    IsIdle (run system (codes "launch" ∷ codes "./hello" ∷ []) process).1.controller.backend
unfolding new
run-IsIdle_example =
    run-IsIdle sample_codec (world_with []) (λ path. ok path) system refl
      (codes "launch" ∷ codes "./hello" ∷ []) process (refl, refl)
