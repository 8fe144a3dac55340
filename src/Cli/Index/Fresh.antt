-- ===== src/Cli/Index/Fresh.antt =====
-- cmd/dlvpp/source_index.go: the cache of `FileInfo` against reading the file each time.
use dlvpp.Base.{
  ◌≡◌, refl, sym, ap, ◌∙◌, Bytes, Bool, true, false, List, [], ◌∷◌, ◌++◌, Option, none, some, codes,
  eqb, eq_of_eqb, Bool-cases, inl, inr, if◌then◌else◌, All, arith,
}
use dlvpp.Base.Fault.{Result, ok, err, wrapped}
use dlvpp.Cli.Index.Parse.{Disk, Stamp, SourceFileInfo, parse_source_file}
use dlvpp.Cli.Index.{
  SourceIndex, new_source_index, FileEntry, look_up, same_stamp, current, cached_or_parsed, stated,
  file_info, remembered,
}

-- What `FileInfo` promises: the information of the file as it is now.
abbrev stat_then_parse : Disk → Bytes → Result Stamp → Result SourceFileInfo
stat_then_parse disk path (err e) =
    err (wrapped (codes "stat source file " ++ (path ++ codes ": ")) e [])
stat_then_parse disk path (ok stamp) = parse_source_file disk path

unfoldable pub read_afresh : Disk → Bytes → Result SourceFileInfo
unfolding parse_source_file
read_afresh disk path =
    let cleaned = disk.clean path in stat_then_parse disk cleaned (disk.stat cleaned)

-- `FileInfo` for one path after another, each with the files as they then are.
unfoldable pub read_cached : List (Disk × Bytes) → SourceIndex → List (Result SourceFileInfo)
unfolding file_info
read_cached [] idx = []
read_cached ((disk, path) ∷ calls) idx =
    let r = file_info disk path idx in r.0 ∷ read_cached calls r.1

unfoldable pub read_each : List (Disk × Bytes) → List (Result SourceFileInfo)
unfolding read_afresh
read_each [] = []
read_each ((disk, path) ∷ calls) = read_afresh disk path ∷ read_each calls

same_stamp-eq : (a b : Stamp) → same_stamp a b ≡ true → a ≡ b
same_stamp-eq a b h =
    let times : a.mod_time ≡ b.mod_time = ground arith in
    let sizes : a.size ≡ b.size = ground arith in λ i. record { mod_time = times i; size = sizes i }

if_some :
    {A : Type 0} (c : Bool) (x y : A) → (if c then some x else none) ≡ some y → (c ≡ true) × (x ≡ y)
if_some true x y h = (refl, cc)
if_some false x y h = absurd cc

module _ (content : Bytes → Stamp → Result SourceFileInfo) where
  -- The modification time and the size of a file tell what it holds.
  abbrev pub IsTelling : Disk → Type 0
  IsTelling disk =
      (path : Bytes) (stamp : Stamp)
      → disk.stat path ≡ ok stamp
      → parse_source_file disk path ≡ content path stamp

  abbrev IsValid : Bytes × FileEntry → Type 0
  IsValid (path, entry) = content path entry.stamp ≡ ok entry.info

  abbrev IsFresh : SourceIndex → Type 0
  IsFresh idx = All IsValid idx.files

  abbrev IsValidAt : Bytes → Option FileEntry → Type 0
  IsValidAt path none = Unit
  IsValidAt path (some entry) = content path entry.stamp ≡ ok entry.info

  look_up-IsValidAt :
      (path : Bytes) (files : List (Bytes × FileEntry))
      → All IsValid files
      → IsValidAt path (look_up eqb path files)
  unfolding look_up
  look_up-IsValidAt path [] h = tt
  look_up-IsValidAt path ((p, entry) ∷ files) (v, h) = elim (Bool-cases (eqb p path)) [
    | inl e ↦ rw e (rw (sym (eq_of_eqb p path e)) v)
    | inr e ↦ rw e (look_up-IsValidAt path files h)
  ]

  -- An entry that is still current is what a fresh read gives.
  current_lem :
      (path : Bytes) (stamp : Stamp) (o : Option FileEntry) (info : SourceFileInfo)
      → IsValidAt path o
      → current stamp o ≡ some info
      → content path stamp ≡ ok info
  current_lem path stamp none info v e = cc
  current_lem path stamp (some entry) info v e =
      let (same, is) = if_some (same_stamp entry.stamp stamp) entry.info info e in
      ap (content path) (sym (same_stamp-eq entry.stamp stamp same)) ∙ v ∙ ap ok is

  -- A result that is the one expected, with a cache that stays valid.
  abbrev pub Serves : Result SourceFileInfo → Result SourceFileInfo × SourceIndex → Type 0
  Serves expected r = (r.0 ≡ expected) × IsFresh r.1

  remembered-Serves :
      (disk : Disk) (path : Bytes) (stamp : Stamp) (parsed : Result SourceFileInfo)
      (idx : SourceIndex)
      → parsed ≡ content path stamp
      → IsFresh idx
      → Serves parsed (remembered disk path stamp parsed idx)
  remembered-Serves disk path stamp (err e) idx t h = (refl, h)
  remembered-Serves disk path stamp (ok info) idx t h = (refl, (sym t, h))

  cached_or_parsed-Serves :
      (disk : Disk) (path : Bytes) (stamp : Stamp) (o : Option SourceFileInfo) (idx : SourceIndex)
      → ((info : SourceFileInfo) → o ≡ some info → content path stamp ≡ ok info)
      → parse_source_file disk path ≡ content path stamp
      → IsFresh idx
      → Serves (parse_source_file disk path) (cached_or_parsed disk path stamp o idx)
  unfolding cached_or_parsed
  cached_or_parsed-Serves disk path stamp (some info) idx v t h = (sym (t ∙ v info refl), h)
  cached_or_parsed-Serves disk path stamp none idx v t h =
      remembered-Serves disk path stamp (parse_source_file disk path) idx t h

  stated-Serves :
      (disk : Disk) (path : Bytes) (r : Result Stamp) (idx : SourceIndex)
      → IsTelling disk
      → disk.stat path ≡ r
      → IsFresh idx
      → Serves (stat_then_parse disk path r) (stated disk path r idx)
  unfolding stated
  stated-Serves disk path (err e) idx t s h = (refl, h)
  stated-Serves disk path (ok stamp) idx t s h =
      cached_or_parsed-Serves disk path stamp (current stamp (look_up eqb path idx.files)) idx
        (λ info.
          current_lem path stamp (look_up eqb path idx.files) info
            (look_up-IsValidAt path idx.files h))
        (t path stamp s) h

  read_cached-from :
      (calls : List (Disk × Bytes)) (idx : SourceIndex)
      → All (λ c. IsTelling c.0) calls
      → IsFresh idx
      → read_cached calls idx ≡ read_each calls
  unfolding read_cached read_each file_info read_afresh
  read_cached-from [] idx t h = refl
  read_cached-from ((disk, path) ∷ calls) idx (t, ts) h =
      let cleaned = disk.clean path in
      let (same, fresh) = stated-Serves disk cleaned (disk.stat cleaned) idx t refl h in
      let rest = read_cached-from calls (stated disk cleaned (disk.stat cleaned) idx).1 ts fresh in
      ap (λ r. r ∷ read_cached calls (stated disk cleaned (disk.stat cleaned) idx).1) same
      ∙ ap (λ rs. stat_then_parse disk cleaned (disk.stat cleaned) ∷ rs) rest

  -- Through any sequence of calls from the empty index, each with the files as they then are, the
  -- cache gives what reading each file afresh gives, where the path, the modification time and the
  -- size of a file tell what it holds.
  pub read_cached-read_each :
      (calls : List (Disk × Bytes))
      → All (λ c. IsTelling c.0) calls
      → read_cached calls new_source_index ≡ read_each calls
  read_cached-read_each calls t = read_cached-from calls new_source_index t tt
