-- ===== src/Cli/Index.antt =====
-- cmd/dlvpp/source_index.go: the index of the sources and the cache of its files. The lock is not modelled: a call
-- is one step, and the goroutines of `fileInfos` are its calls of `FileInfo` in the order of the files.
pub mod Parse
pub mod Fresh
pub mod Packages
pub mod Discover
use dlvpp.Base.{
  ℕ, Bytes, Bool, true, false, not, List, [], ◌∷◌, ◌++◌, Option, none, some, map, codes, eqb, ◌==◌,
  ◌||◌, ◌&&◌, if◌then◌else◌, has_prefix, has_suffix,
}
use dlvpp.Base.Fault.{Error, Result, ok, err, wrapped}
use dlvpp.Base.Proc.{Proc, after}
use dlvpp.Cli.ModuleRoot.{Directories, find_module_root, not_found}
use dlvpp.Cli.Index.Parse.{Disk, Stamp, SourceFileInfo, parse_source_file}

pub record PackageKey : Type 0 where
  pub target : Bytes
  pub include_tests : Bool

pub record PackageEntry : Type 0 where
  pub dir : Bytes
  pub files : List Bytes

pub record FileEntry : Type 0 where
  pub stamp : Stamp
  pub info : SourceFileInfo

-- `sourceIndex`; a later entry of a key stands before an earlier one.
pub record SourceIndex : Type 0 where
  pub packages : List (PackageKey × PackageEntry)
  pub modules : List (Bytes × List Bytes)
  pub files : List (Bytes × FileEntry)

-- `newSourceIndex`.
abbrev pub new_source_index : SourceIndex
new_source_index = record { packages = []; modules = []; files = [] }

-- `m[key]`, for keys that a test compares.
unfoldable pub look_up : {K V : Type 0} → (K → K → Bool) → K → List (K × V) → Option V
look_up same key [] = none
look_up same key ((k, v) ∷ m) = if same k key then some v else look_up same key m

-- `entry.ModTime.Equal(stat.ModTime()) && entry.Size == stat.Size()`.
abbrev pub same_stamp : Stamp → Stamp → Bool
same_stamp a b = (a.mod_time == b.mod_time) && (a.size == b.size)

-- The cached information of a path, unless the file changed.
abbrev pub current : Stamp → Option FileEntry → Option SourceFileInfo
current stamp none = none
current stamp (some entry) = if same_stamp entry.stamp stamp then some entry.info else none

module _ (disk : Disk) where
  -- `idx.files[path] = …` after a file was parsed.
  abbrev remembered : Bytes → Stamp → Result SourceFileInfo → Proc SourceIndex SourceFileInfo
  remembered path stamp (err e) idx = (err e, idx)
  remembered path stamp (ok info) idx =
      (ok info, record idx { files = (path, record { stamp = stamp; info = info }) ∷ idx.files })

  unfoldable pub cached_or_parsed :
      Bytes → Stamp → Option SourceFileInfo → Proc SourceIndex SourceFileInfo
  unfolding parse_source_file
  cached_or_parsed path stamp (some info) idx = (ok info, idx)
  cached_or_parsed path stamp none idx = remembered path stamp (parse_source_file disk path) idx

  unfoldable pub stated : Bytes → Result Stamp → Proc SourceIndex SourceFileInfo
  unfolding cached_or_parsed look_up
  stated path (err e) idx =
      (err (wrapped (codes "stat source file " ++ (path ++ codes ": ")) e []), idx)
  stated path (ok stamp) idx =
      cached_or_parsed path stamp (current stamp (look_up eqb path idx.files)) idx

  -- `FileInfo`.
  unfoldable pub file_info : Bytes → Proc SourceIndex SourceFileInfo
  unfolding stated
  file_info path idx = let cleaned = disk.clean path in stated cleaned (disk.stat cleaned) idx

  abbrev and_rest :
      Result SourceFileInfo → Result (List SourceFileInfo) → Result (List SourceFileInfo)
  and_rest (err e) rest = err e
  and_rest (ok info) (err e) = err e
  and_rest (ok info) (ok infos) = ok (info ∷ infos)

  -- `fileInfos`: every file is read, whether or not one before it fails.
  unfoldable pub file_infos : List Bytes → Proc SourceIndex (List SourceFileInfo)
  unfolding file_info
  file_infos [] idx = (ok [], idx)
  file_infos (path ∷ files) idx =
      let first = file_info path idx in
      let rest = file_infos files first.1 in (and_rest first.0 rest.0, rest.1)
