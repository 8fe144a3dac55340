-- ===== src/Dap/Breakpoints/Order.antt =====
-- internal/backend/dap/breakpoints.go: the order in which breakpoints are listed.
use dlvpp.Base.{Bytes, Bool, true, false, not, List, [], ◌∷◌, eqb, ltb, ◌==◌, if◌then◌else◌}
use dlvpp.Base.Int.{lt_int, eq_int}
use dlvpp.Backend.{Breakpoint}

-- `<` on strings.
unfoldable pub lt_bytes : Bytes → Bytes → Bool
lt_bytes [] [] = false
lt_bytes [] (d ∷ t) = true
lt_bytes (c ∷ s) [] = false
lt_bytes (c ∷ s) (d ∷ t) =
    let rest = lt_bytes s t in if ltb c d then true else if c == d then rest else false

-- The function that `sort.Slice` is given.
unfoldable pub less : Breakpoint → Breakpoint → Bool
unfolding lt_bytes
less left right =
    if not (eqb left.location.file right.location.file)
    then lt_bytes left.location.file right.location.file
    else if not (eq_int left.location.line right.location.line)
    then lt_int left.location.line right.location.line
    else if not (eqb left.location.function right.location.function)
    then lt_bytes left.location.function right.location.function
    else lt_int left.id right.id

unfoldable pub insert : Breakpoint → List Breakpoint → List Breakpoint
insert b [] = b ∷ []
insert b (x ∷ xs) = let rest = insert b xs in if less x b then x ∷ rest else b ∷ x ∷ xs

-- `sort.Slice`, by an insertion sort of this model. The library promises a permutation in the order
-- of `less`, which leaves open only how breakpoints of one file, line, function and id stand to each
-- other: here in the order of the list.
unfoldable pub sort_breakpoints : List Breakpoint → List Breakpoint
sort_breakpoints [] = []
sort_breakpoints (b ∷ bs) = insert b (sort_breakpoints bs)
