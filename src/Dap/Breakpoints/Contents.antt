-- ===== src/Dap/Breakpoints/Contents.antt =====
-- internal/backend/dap/breakpoints.go: what the list of breakpoints holds.
use dlvpp.Base.{
  ℕ, suc, ◌+◌, ◌≡◌, ◌↔◌, refl, ap, ◌∙◌, Bytes, List, [], ◌∷◌, ◌++◌, arith, Bool-cases, inl, inr,
  All, length, length-append, length-map, append_assoc,
}
use dlvpp.Backend.{Breakpoint}
use dlvpp.Dap.Client.{TrackedBreakpoint}
use dlvpp.Dap.Breakpoints.{FileGroups, all_groups, breakpoints_of}
use dlvpp.Dap.Breakpoints.Order.{less, insert, sort_breakpoints}

-- What holds of every breakpoint that is tracked, for a file or for a function.
abbrev pub AllTracked :
    (Breakpoint → Type 0) → List (Bytes × List TrackedBreakpoint) → List TrackedBreakpoint → Type 0
AllTracked P files functions =
    All (λ g. All (λ item. P item.breakpoint) g.1) files × All (λ item. P item.breakpoint) functions

abbrev pub tracked_count : List (Bytes × List TrackedBreakpoint) → List TrackedBreakpoint → ℕ
tracked_count [] functions = length functions
tracked_count (g ∷ files) functions = length g.1 + tracked_count files functions

module _ (P : Breakpoint → Type 0) where
  insert-All : (b : Breakpoint) (xs : List Breakpoint) → All P (insert b xs) ↔ (P b × All P xs)
  unfolding insert
  insert-All b [] = (λ h. h, λ h. h)
  insert-All b (x ∷ xs) = elim (Bool-cases (less x b)) [
    | inl e ↦
        let (to, from) = insert-All b xs in
        rw e
          (λ (px, h). let (pb, hs) = to h in (pb, (px, hs)), λ (pb, (px, hs)). (px, from (pb, hs)))
    | inr e ↦ rw e (λ h. h, λ h. h)
  ]

  pub sort-All : (bs : List Breakpoint) → All P (sort_breakpoints bs) ↔ All P bs
  unfolding sort_breakpoints
  sort-All [] = (λ h. h, λ h. h)
  sort-All (b ∷ bs) =
      let (to, from) = insert-All b (sort_breakpoints bs) in
      let (to', from') = sort-All bs in
      (λ h. let (pb, hs) = to h in (pb, to' hs), λ (pb, hs). from (pb, from' hs))

  pub append-All : (xs ys : List Breakpoint) → All P (xs ++ ys) ↔ (All P xs × All P ys)
  append-All [] ys = (λ h. (tt, h), λ (u, h). h)
  append-All (x ∷ xs) ys =
      let (to, from) = append-All xs ys in
      (λ (px, h). let (hx, hy) = to h in ((px, hx), hy), λ ((px, hx), hy). (px, from (hx, hy)))

  pub breakpoints_of-All :
      (items : List TrackedBreakpoint)
      → All P (breakpoints_of items) ↔ All (λ item. P item.breakpoint) items
  breakpoints_of-All [] = (λ h. h, λ h. h)
  breakpoints_of-All (item ∷ items) =
      let (to, from) = breakpoints_of-All items in (λ (p, h). (p, to h), λ (p, h). (p, from h))

  pub all_groups-All :
      (m : FileGroups) → All P (all_groups m) ↔ All (λ g. All (λ item. P item.breakpoint) g.1) m
  unfolding all_groups
  all_groups-All [] = (λ h. h, λ h. h)
  all_groups-All ((file, group) ∷ m) =
      let (to, from) = append-All (breakpoints_of group) (all_groups m) in
      let (to', from') = breakpoints_of-All group in
      let (to'', from'') = all_groups-All m in
      (λ h. let (hg, hm) = to h in (to' hg, to'' hm), λ (hg, hm). from (from' hg, from'' hm))

length-insert : (b : Breakpoint) (xs : List Breakpoint) → length (insert b xs) ≡ suc (length xs)
unfolding insert
length-insert b [] = refl
length-insert b (x ∷ xs) = elim (Bool-cases (less x b)) [
  | inl e ↦ rw e (ap suc (length-insert b xs))
  | inr e ↦ rw e refl
]

pub length-sort : (bs : List Breakpoint) → length (sort_breakpoints bs) ≡ length bs
unfolding sort_breakpoints
length-sort [] = refl
length-sort (b ∷ bs) = length-insert b (sort_breakpoints bs) ∙ ap suc (length-sort bs)

pub length-groups :
    (m : FileGroups) (functions : List TrackedBreakpoint)
    → length (all_groups m ++ breakpoints_of functions) ≡ tracked_count m functions
unfolding all_groups
length-groups [] functions = length-map (λ (item : TrackedBreakpoint). item.breakpoint) functions
length-groups ((file, group) ∷ m) functions =
    let rest = length-groups m functions in
    let here = length-map (λ (item : TrackedBreakpoint). item.breakpoint) group in
    rw (append_assoc (breakpoints_of group) (all_groups m) (breakpoints_of functions)) (
      length-append (breakpoints_of group) (all_groups m ++ breakpoints_of functions) ∙ omega arith)
