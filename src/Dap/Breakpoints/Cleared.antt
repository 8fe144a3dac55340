-- ===== src/Dap/Breakpoints/Cleared.antt =====
-- internal/backend/dap/breakpoints.go: what clearing a breakpoint leaves.
use dlvpp.Base.{
  ℕ, ◌≡◌, refl, sym, ap, ◌∙◌, Bytes, false, List, [], ◌∷◌, ◌++◌, Option, none, some, eqb, eqb_refl,
  is_empty, if◌then◌else◌, length, All, ◌⊎◌, inl, inr,
}
use mathlib.Core.Path.{subst}
use dlvpp.Base.Int.{ℤ}
use dlvpp.Base.Fault.{Result, ok, err}
use dlvpp.Base.Proc.{after_ok}
use dlvpp.Backend.{BreakpointSpec}
use dlvpp.Dap.Wire.{DapBreakpoint, Codec}
use dlvpp.Dap.Client.{Client, Conn, TrackedBreakpoint, require_conn}
use dlvpp.Dap.Breakpoints.{
  FileGroups, group_of, put_group, delete_group, tracked_specs, map_tracked_breakpoints,
}
use dlvpp.Dap.Breakpoints.Changes.{
  set_breakpoints, set_function_breakpoints, set_functions, replace_file_breakpoints,
  replace_function_breakpoints, tracked_breakpoint_index_by_id, without_index, find_in_files,
  clear_function, clear_found, clear_on, clear_breakpoint,
}
use dlvpp.Dap.Breakpoints.Groups.{
  group_of-put_group, group_of-delete_group, tracked_specs-map_tracked,
}
use dlvpp.Dap.Breakpoints.Found.{
  IsWithout, Lacks, IndexFinds, index_finds, GroupsFind, find_in_files_lem,
}
use dlvpp.Dap.Breakpoints.Tracking.{set_breakpoints-ok, set_function_breakpoints-ok}

-- The specs of the file are those of `next`, and nothing else changed.
abbrev pub HasFile : Bytes → List TrackedBreakpoint → Client → Client → Type 0
HasFile file next c c' =
    (tracked_specs (group_of file c'.file_breakpoints) ≡ tracked_specs next)
    × ((other : Bytes)
        → eqb file other ≡ false
        → group_of other c'.file_breakpoints ≡ group_of other c.file_breakpoints)
    × (c'.function_breakpoints ≡ c.function_breakpoints)

-- The id was cleared from a group of the files: `earlier` are the groups before it, which lack it.
pub record IsClearedInFile (id : ℤ) (c c' : Client) : Type 0 where
  pub file : Bytes
  pub group : List TrackedBreakpoint
  pub next : List TrackedBreakpoint
  pub earlier : FileGroups
  pub later : FileGroups
  pub stored : c.file_breakpoints ≡ earlier ++ (file, group) ∷ later
  pub lacking : All (λ g. Lacks id g.1) earlier
  pub without : IsWithout id group next
  pub has : HasFile file next c c'

-- The id was cleared from the functions: no group of the files has it.
pub record IsClearedFunction (id : ℤ) (c c' : Client) : Type 0 where
  pub next : List TrackedBreakpoint
  pub lacking : All (λ g. Lacks id g.1) c.file_breakpoints
  pub without : IsWithout id c.function_breakpoints next
  pub functions : tracked_specs c'.function_breakpoints ≡ tracked_specs next
  pub files : c'.file_breakpoints ≡ c.file_breakpoints

abbrev after_replace : Bytes → List BreakpointSpec → List DapBreakpoint → Client → Client
after_replace file specs wires c =
    if is_empty specs
    then record c { file_breakpoints = delete_group file c.file_breakpoints }
    else record c {
      file_breakpoints = put_group file (map_tracked_breakpoints specs wires) c.file_breakpoints;
    }

after_replace-HasFile :
    (file : Bytes) (next : List TrackedBreakpoint) (specs : List BreakpointSpec)
    (wires : List DapBreakpoint) (c : Client)
    → tracked_specs next ≡ specs
    → length wires ≡ length specs
    → HasFile file next c (after_replace file specs wires c)
after_replace-HasFile file next [] wires c same sized =
    let here : group_of file (delete_group file c.file_breakpoints) ≡ [] =
      group_of-delete_group file file c.file_breakpoints ∙ rw (eqb_refl file) in
    (
      ap tracked_specs here ∙ sym same,
      λ other apart. group_of-delete_group file other c.file_breakpoints ∙ rw apart,
      refl,
    )
after_replace-HasFile file next (s ∷ specs) wires c same sized =
    let tracked = map_tracked_breakpoints (s ∷ specs) wires in
    let here : group_of file (put_group file tracked c.file_breakpoints) ≡ tracked =
      group_of-put_group file file tracked c.file_breakpoints ∙ rw (eqb_refl file) in
    (
      ap tracked_specs here ∙ tracked_specs-map_tracked (s ∷ specs) wires sized ∙ sym same,
      λ other apart.
          group_of-put_group file other (map_tracked_breakpoints (s ∷ specs) wires)
            c.file_breakpoints
          ∙ rw apart,
      refl,
    )

replace_file_breakpoints-ok :
    (j : Codec) (file : Bytes) (next : List TrackedBreakpoint) (c c' : Client) (u : Unit {0})
    → replace_file_breakpoints j file next c ≡ (ok u, c')
    → HasFile file next c c'
unfolding replace_file_breakpoints
replace_file_breakpoints-ok j file next c c' u h =
    let (wires, c₁, e₁, h₁) = after_ok (set_breakpoints j file (tracked_specs next) c) _ h in
    let (sized, (files, functions)) =
      set_breakpoints-ok j file (tracked_specs next) c c₁ wires e₁ in
    let final : after_replace file (tracked_specs next) wires c₁ ≡ c' =
      ap (λ (r : Result (Unit {0}) × Client). r.1) h₁ in
    let (here, others, kept) =
      subst (HasFile file next c₁) final
        (after_replace-HasFile file next (tracked_specs next) wires c₁ refl sized) in
    (here, λ other apart. others other apart ∙ ap (group_of other) files, kept ∙ functions)

replace_function_breakpoints-ok :
    (j : Codec) (next : List TrackedBreakpoint) (c c' : Client) (u : Unit {0})
    → replace_function_breakpoints j next c ≡ (ok u, c')
    → (tracked_specs c'.function_breakpoints ≡ tracked_specs next)
      × (c'.file_breakpoints ≡ c.file_breakpoints)
unfolding replace_function_breakpoints
replace_function_breakpoints-ok j next c c' u h =
    let (wires, c₁, e₁, h₁) = after_ok (set_function_breakpoints j (tracked_specs next) c) _ h in
    let (sized, (files, functions)) =
      set_function_breakpoints-ok j (tracked_specs next) c c₁ wires e₁ in
    let final : set_functions (map_tracked_breakpoints (tracked_specs next) wires) c₁ ≡ c' =
      ap (λ (r : Result (Unit {0}) × Client). r.1) h₁ in
    (
      ap (λ (d : Client). tracked_specs d.function_breakpoints) (sym final)
          ∙ tracked_specs-map_tracked (tracked_specs next) wires sized,
      ap (λ (d : Client). d.file_breakpoints) (sym final) ∙ files,
    )

module _ (j : Codec) (id : ℤ) (c c' : Client) (u : Unit {0}) where
  clear_function-ok :
      (i : Option ℕ)
      → All (λ g. Lacks id g.1) c.file_breakpoints
      → IndexFinds id c.function_breakpoints i
      → clear_function j id i c ≡ (ok u, c')
      → IsClearedInFile id c c' ⊎ IsClearedFunction id c c'
  unfolding clear_function
  clear_function-ok (some i) lacks without h =
      let next = without_index c.function_breakpoints i in
      let (functions, files) = replace_function_breakpoints-ok j next c c' u h in
      inr (record {
        next = next;
        lacking = lacks;
        without = without;
        functions = functions;
        files = files;
      })
  clear_function-ok none lacks without h = cc

  clear_found-ok :
      (found : Option (Bytes × List TrackedBreakpoint))
      → GroupsFind id c.file_breakpoints found
      → clear_found j id found c ≡ (ok u, c')
      → IsClearedInFile id c c' ⊎ IsClearedFunction id c c'
  unfolding clear_found
  clear_found-ok (some (file, next)) (earlier, group, (later, stored, (lacks, without))) h =
      inl (record {
        file = file;
        group = group;
        next = next;
        earlier = earlier;
        later = later;
        stored = stored;
        lacking = lacks;
        without = without;
        has = replace_file_breakpoints-ok j file next c c' u h;
      })
  clear_found-ok none lacks h =
      clear_function-ok (tracked_breakpoint_index_by_id c.function_breakpoints id) lacks
        (index_finds id c.function_breakpoints) h

  clear_on-ok :
      (k : Result Conn)
      → clear_on j id k c ≡ (ok u, c')
      → IsClearedInFile id c c' ⊎ IsClearedFunction id c c'
  unfolding clear_on
  clear_on-ok (err e) h = cc
  clear_on-ok (ok k) h =
      clear_found-ok (find_in_files id c.file_breakpoints) (find_in_files_lem id c.file_breakpoints)
        h

-- Clearing an id that succeeds takes the first breakpoint of that id out of the first group of a
-- file that has one: the specs of the file are then those of the group without it, in their order,
-- and the other files and the functions are as they were. Where no group has the id, it takes the
-- first one of that id out of the functions in this way, and the files are as they were. So an id
-- that is tracked nowhere does not succeed.
pub clear_breakpoint-IsCleared :
    (j : Codec) (id : ℤ) (c c' : Client) (u : Unit {0})
    → clear_breakpoint j id c ≡ (ok u, c')
    → IsClearedInFile id c c' ⊎ IsClearedFunction id c c'
unfolding clear_breakpoint
clear_breakpoint-IsCleared j id c c' u h = clear_on-ok j id c c' u (require_conn c) h
