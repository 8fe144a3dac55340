-- ===== src/Dap/Breakpoints/Found.antt =====
-- internal/backend/dap/breakpoints.go: the search for an id among the tracked breakpoints.
use dlvpp.Base.{
  ℕ, suc, ◌≡◌, ◌≢◌, refl, ap, Bytes, List, [], ◌∷◌, ◌++◌, Option, none, some, All, inl, inr,
  Bool-cases,
}
use dlvpp.Base.Int.{ℤ, eq_int, eq_int_eq, eq_int_refl}
use dlvpp.Dap.Client.{TrackedBreakpoint}
use dlvpp.Dap.Breakpoints.{FileGroups}
use dlvpp.Dap.Breakpoints.Changes.{tracked_breakpoint_index_by_id, without_index, find_in_files}

-- The items of `next` are those of `items`, in their order, but for the first one of that id.
pub record IsWithout (id : ℤ) (items next : List TrackedBreakpoint) : Type 0 where
  pub before : List TrackedBreakpoint
  pub item : TrackedBreakpoint
  pub behind : List TrackedBreakpoint
  pub held : items ≡ before ++ item ∷ behind
  pub is_it : item.breakpoint.id ≡ id
  pub first : All (λ other. other.breakpoint.id ≢ id) before
  pub left : next ≡ before ++ behind

-- No breakpoint of the list has that id.
abbrev pub Lacks : ℤ → List TrackedBreakpoint → Type 0
Lacks id items = All (λ item. item.breakpoint.id ≢ id) items

-- Where the index of an id is found, taking it out leaves the items without the first of that id;
-- where none is found, no item has the id.
abbrev pub IndexFinds : ℤ → List TrackedBreakpoint → Option ℕ → Type 0
IndexFinds id items none = Lacks id items
IndexFinds id items (some i) = IsWithout id items (without_index items i)

index-under :
    (id : ℤ) (item : TrackedBreakpoint) (items : List TrackedBreakpoint) (i : Option ℕ)
    → item.breakpoint.id ≢ id
    → IndexFinds id items i
    → IndexFinds id
        (item ∷ items)
        (elim i as (λ x. Option ℕ) [ none ↦ none | some k ↦ some (suc k) ])
index-under id item items none apart lacks = (apart, lacks)
index-under id item items (some k) apart w = record {
  before = item ∷ w.before;
  item = w.item;
  behind = w.behind;
  held = ap (λ xs. item ∷ xs) w.held;
  is_it = w.is_it;
  first = (apart, w.first);
  left = ap (λ xs. item ∷ xs) w.left;
}

pub index_finds :
    (id : ℤ) (items : List TrackedBreakpoint)
    → IndexFinds id items (tracked_breakpoint_index_by_id items id)
unfolding tracked_breakpoint_index_by_id
index_finds id [] = tt
index_finds id (item ∷ items) = elim (Bool-cases (eq_int item.breakpoint.id id)) [
  | inl e ↦ rw e (record {
    before = [];
    item = item;
    behind = items;
    held = refl;
    is_it = eq_int_eq item.breakpoint.id id e;
    first = tt;
    left = refl;
  })
  | inr e ↦ rw e (
      index-under id item items (tracked_breakpoint_index_by_id items id)
        (λ same. cc (e, ap (λ x. eq_int x id) same, eq_int_refl id)) (index_finds id items))
]

-- The groups of which none has the id, or those around the first that has it.
abbrev pub GroupsFind : ℤ → FileGroups → Option (Bytes × List TrackedBreakpoint) → Type 0
GroupsFind id m none = All (λ g. Lacks id g.1) m
GroupsFind id m (some (file, next)) =
    (earlier : FileGroups) × (group : List TrackedBreakpoint) × ((later : FileGroups) × (m
        ≡ earlier ++ (file, group) ∷ later)
      × (All (λ g. Lacks id g.1) earlier × IsWithout id group next))

groups-behind :
    (id : ℤ) (g : Bytes × List TrackedBreakpoint) (m : FileGroups)
    (found : Option (Bytes × List TrackedBreakpoint))
    → Lacks id g.1
    → GroupsFind id m found
    → GroupsFind id (g ∷ m) found
groups-behind id g m none lacks all = (lacks, all)
groups-behind id g m (some (file, next)) lacks (earlier, group, (later, held, (all, without))) =
    (g ∷ earlier, group, (later, ap (λ xs. g ∷ xs) held, ((lacks, all), without)))

group_first :
    (id : ℤ) (file : Bytes) (group : List TrackedBreakpoint) (m : FileGroups)
    (found : Option (Bytes × List TrackedBreakpoint)) (i : Option ℕ)
    → GroupsFind id m found
    → IndexFinds id group i
    → GroupsFind id ((file, group) ∷ m) (elim i as (λ x. Option (Bytes × List TrackedBreakpoint)) [
      | some k ↦ some (file, without_index group k)
      | none ↦ found
    ])
group_first id file group m found none all lacks = groups-behind id (file, group) m found lacks all
group_first id file group m found (some k) all without = ([], group, (m, refl, (tt, without)))

pub find_in_files_lem : (id : ℤ) (m : FileGroups) → GroupsFind id m (find_in_files id m)
unfolding find_in_files
find_in_files_lem id [] = tt
find_in_files_lem id ((file, group) ∷ m) =
    group_first id file group m (find_in_files id m) (tracked_breakpoint_index_by_id group id)
      (find_in_files_lem id m) (index_finds id group)
