-- ===== src/Dap/Breakpoints/Listing.antt =====
-- internal/backend/dap/breakpoints.go: the list of breakpoints is sorted and complete.
use dlvpp.Base.{
  ℕ, ◌<◌, ◌≡◌, ◌↔◌, ◌⊎◌, refl, ap, ◌∙◌, Bytes, true, false, List, [], ◌∷◌, ◌++◌, arith, eqb,
  eqb_iff, Bool-cases, inl, inr, All, length,
}
use dlvpp.Base.Int.{ℤ, pos, negsuc, lt_int, eq_int, eq_int_eq, eq_int_refl}
use dlvpp.Backend.{Breakpoint}
use dlvpp.Dap.Client.{TrackedBreakpoint}
use dlvpp.Dap.Breakpoints.{FileGroups, all_groups, breakpoints_of, flatten_tracked_breakpoints}
use dlvpp.Dap.Breakpoints.Contents.{
  AllTracked, tracked_count, sort-All, append-All, breakpoints_of-All, all_groups-All, length-sort,
  length-groups,
}
use dlvpp.Dap.Breakpoints.Order.{lt_bytes, less, insert, sort_breakpoints}

lt_bytes_asymm : (s t : Bytes) → lt_bytes s t ≡ true → lt_bytes t s ≡ false
unfolding lt_bytes
lt_bytes_asymm [] [] h = cc
lt_bytes_asymm [] (d ∷ t) h = refl
lt_bytes_asymm (c ∷ s) [] h = cc
lt_bytes_asymm (c ∷ s) (d ∷ t) h = ground (arith, lt_bytes_asymm s t)

eqb_comm : (s t : Bytes) → eqb s t ≡ eqb t s
unfolding eqb
eqb_comm [] [] = refl
eqb_comm [] (d ∷ t) = refl
eqb_comm (c ∷ s) [] = refl
eqb_comm (c ∷ s) (d ∷ t) = ground (arith, eqb_comm s t)

lt_int_asymm : (a b : ℤ) → lt_int a b ≡ true → lt_int b a ≡ false
lt_int_asymm (pos a) (pos b) h = ground arith
lt_int_asymm (pos a) (negsuc b) h = cc
lt_int_asymm (negsuc a) (pos b) h = refl
lt_int_asymm (negsuc a) (negsuc b) h = ground arith

eq_int_comm : (a b : ℤ) → eq_int a b ≡ eq_int b a
eq_int_comm (pos a) (pos b) = ground arith
eq_int_comm (pos a) (negsuc b) = refl
eq_int_comm (negsuc a) (pos b) = refl
eq_int_comm (negsuc a) (negsuc b) = ground arith

less_asymm : (a b : Breakpoint) → less a b ≡ true → less b a ≡ false
unfolding less
less_asymm a b h =
    rw
      (
        eqb_comm b.location.file a.location.file,
        eq_int_comm b.location.line a.location.line,
        eqb_comm b.location.function a.location.function,
      )
      (ground (
        arith,
        lt_bytes_asymm a.location.file b.location.file,
        lt_int_asymm a.location.line b.location.line,
        lt_bytes_asymm a.location.function b.location.function,
        lt_int_asymm a.id b.id,
      ))

-- The head of a list is not less than a breakpoint.
abbrev Follows : Breakpoint → List Breakpoint → Type 0
Follows b [] = Unit
Follows b (x ∷ xs) = less x b ≡ false

-- No breakpoint is less than the one before it.
abbrev pub IsSorted : List Breakpoint → Type 0
IsSorted [] = Unit
IsSorted (b ∷ bs) = Follows b bs × IsSorted bs

Follows-insert :
    (x b : Breakpoint) (xs : List Breakpoint)
    → less x b ≡ true
    → Follows x xs
    → Follows x (insert b xs)
unfolding insert
Follows-insert x b [] h f = less_asymm x b h
Follows-insert x b (y ∷ ys) h f = elim (Bool-cases (less y b)) [
  | inl e ↦ rw e f
  | inr e ↦ rw e (less_asymm x b h)
]

insert-IsSorted : (b : Breakpoint) (xs : List Breakpoint) → IsSorted xs → IsSorted (insert b xs)
unfolding insert
insert-IsSorted b [] h = (tt, tt)
insert-IsSorted b (x ∷ xs) (f, h) = elim (Bool-cases (less x b)) [
  | inl e ↦ rw e (Follows-insert x b xs e f, insert-IsSorted b xs h)
  | inr e ↦ rw e (e, (f, h))
]

sort-IsSorted : (bs : List Breakpoint) → IsSorted (sort_breakpoints bs)
unfolding sort_breakpoints
sort-IsSorted [] = tt
sort-IsSorted (b ∷ bs) = insert-IsSorted b (sort_breakpoints bs) (sort-IsSorted bs)

-- The order of strings: `s` ends where `t` goes on, or they part at a byte that is less in `s`.
pub data IsLess : Bytes → Bytes → Type 0 where
  shorter : (common : Bytes) (d : ℕ) (rest : Bytes) → IsLess common (common ++ d ∷ rest)
  parted :
      (common : Bytes) (c d : ℕ) (s t : Bytes) → c < d → IsLess (common ++ c ∷ s) (common ++ d ∷ t)

-- One breakpoint stands before another by file, or else line, or else function, or else id.
abbrev pub Precedes : Breakpoint → Breakpoint → Type 0
Precedes a b =
    IsLess a.location.file b.location.file
    ⊎ ((a.location.file ≡ b.location.file)
        × ((lt_int a.location.line b.location.line ≡ true)
            ⊎ ((a.location.line ≡ b.location.line)
                × (IsLess a.location.function b.location.function
                    ⊎ ((a.location.function ≡ b.location.function) × (lt_int a.id b.id ≡ true))))))

-- No breakpoint of the list precedes the one that stands right before it.
abbrev pub IsOrdered : List Breakpoint → Type 0
IsOrdered [] = Unit
IsOrdered (a ∷ []) = Unit
IsOrdered (a ∷ b ∷ bs) = (¬ Precedes b a) × IsOrdered (b ∷ bs)

lt_bytes-shorter : (s : Bytes) (d : ℕ) (t : Bytes) → lt_bytes s (s ++ d ∷ t) ≡ true
unfolding lt_bytes
lt_bytes-shorter [] d t = refl
lt_bytes-shorter (c ∷ s) d t = ground (arith, lt_bytes-shorter s d t)

lt_bytes-parted :
    (s : Bytes) (c d : ℕ) (t u : Bytes) → c < d → lt_bytes (s ++ c ∷ t) (s ++ d ∷ u) ≡ true
unfolding lt_bytes
lt_bytes-parted [] c d t u h = ground arith
lt_bytes-parted (x ∷ s) c d t u h = ground (arith, lt_bytes-parted s c d t u h)

IsLess-lt_bytes : (s t : Bytes) → IsLess s t → lt_bytes s t ≡ true
IsLess-lt_bytes _ _ (shorter common d rest) = lt_bytes-shorter common d rest
IsLess-lt_bytes _ _ (parted common c d s t h) = lt_bytes-parted common c d s t h

lt_bytes_irrefl : (s : Bytes) → lt_bytes s s ≡ false
unfolding lt_bytes
lt_bytes_irrefl [] = refl
lt_bytes_irrefl (c ∷ s) = ground (arith, lt_bytes_irrefl s)

lt_int_irrefl : (a : ℤ) → lt_int a a ≡ false
lt_int_irrefl (pos a) = ground arith
lt_int_irrefl (negsuc a) = ground arith

lt_bytes_apart : (s t : Bytes) → lt_bytes s t ≡ true → eqb s t ≡ false
lt_bytes_apart s t h = elim (Bool-cases (eqb s t)) [
  | inl e ↦ absurd (cc (ap (λ x. lt_bytes s x) ((eqb_iff s t).0 e), lt_bytes_irrefl s, h))
  | inr e ↦ e
]

lt_int_apart : (a b : ℤ) → lt_int a b ≡ true → eq_int a b ≡ false
lt_int_apart a b h = elim (Bool-cases (eq_int a b)) [
  | inl e ↦ absurd (cc (ap (λ x. lt_int a x) (eq_int_eq a b e), lt_int_irrefl a, h))
  | inr e ↦ e
]

eqb_same : (s t : Bytes) → s ≡ t → eqb s t ≡ true
eqb_same s t e = (eqb_iff s t).1 e

eq_int_same : (a b : ℤ) → a ≡ b → eq_int a b ≡ true
eq_int_same a b e = rw e (eq_int_refl b)

-- The comparison that the sort is given tells every pair in that order.
Precedes-less : (a b : Breakpoint) → Precedes a b → less a b ≡ true
unfolding less
Precedes-less a b (inl h) =
    let k = IsLess-lt_bytes a.location.file b.location.file h in
    rw (lt_bytes_apart a.location.file b.location.file k) k
Precedes-less a b (inr (f, inl h)) =
    rw (eqb_same a.location.file b.location.file f)
      (rw (lt_int_apart a.location.line b.location.line h) h)
Precedes-less a b (inr (f, inr (l, inl h))) =
    let k = IsLess-lt_bytes a.location.function b.location.function h in
    rw
      (
        eqb_same a.location.file b.location.file f,
        eq_int_same a.location.line b.location.line l,
        lt_bytes_apart a.location.function b.location.function k,
      )
      k
Precedes-less a b (inr (f, inr (l, inr (n, h)))) =
    rw
      (
        eqb_same a.location.file b.location.file f,
        eq_int_same a.location.line b.location.line l,
        eqb_same a.location.function b.location.function n,
      )
      h

IsSorted-IsOrdered : (bs : List Breakpoint) → IsSorted bs → IsOrdered bs
IsSorted-IsOrdered [] h = tt
IsSorted-IsOrdered (a ∷ []) h = tt
IsSorted-IsOrdered (a ∷ b ∷ bs) (f, h) =
    (λ p. cc (Precedes-less b a p, f), IsSorted-IsOrdered (b ∷ bs) h)

-- The list of breakpoints holds what is tracked and nothing else: whatever holds of all of the one
-- holds of all of the other, and they are as many. No breakpoint in it comes, by file, or else line,
-- or else function, or else id, before the one that it follows.
pub flatten_tracked_breakpoints_lem :
    (files : FileGroups) (functions : List TrackedBreakpoint)
    → ((P : Breakpoint → Type 0)
        → All P (flatten_tracked_breakpoints files functions) ↔ AllTracked P files functions)
      × (length (flatten_tracked_breakpoints files functions) ≡ tracked_count files functions)
      × IsOrdered (flatten_tracked_breakpoints files functions)
unfolding flatten_tracked_breakpoints
flatten_tracked_breakpoints_lem files functions =
    let bs = all_groups files ++ breakpoints_of functions in
    (
      λ P.
          let (to, from) = sort-All P bs in
          let (to', from') = append-All P (all_groups files) (breakpoints_of functions) in
          let (fto, ffrom) = all_groups-All P files in
          let (gto, gfrom) = breakpoints_of-All P functions in
          (
            λ h. let (hf, hg) = to' (to h) in (fto hf, gto hg),
            λ (hf, hg). from (from' (ffrom hf, gfrom hg)),
          ),
      length-sort bs ∙ length-groups files functions,
      IsSorted-IsOrdered _ (sort-IsSorted bs),
    )
