-- ===== src/Cli/Comments/Dedupe.antt =====
-- cmd/dlvpp/source_index.go: the specs that are left without repetition.
use dlvpp.Base.{
  ◌≡◌, refl, ap, Bytes, Bool, false, List, [], ◌∷◌, ◌||◌, inl, inr, Bool-cases, is_empty, eqb,
  eqb_iff,
}
use dlvpp.Backend.{BreakpointSpec}
use dlvpp.Cli.Comments.{is_seen, is_passed, dedupe_from, dedupe_breakpoint_specs}

-- Of no location twice, none empty and none of `seen`.
abbrev pub IsFresh : List Bytes → List BreakpointSpec → Type 0
IsFresh seen [] = Unit
IsFresh seen (s ∷ specs) = (is_passed seen s.location ≡ false) × IsFresh (s.location ∷ seen) specs

-- Some spec is at the location.
unfoldable pub is_at : List BreakpointSpec → Bytes → Bool
is_at [] location = false
is_at (s ∷ specs) location = eqb s.location location || is_at specs location

dedupe_from-IsFresh :
    (seen : List Bytes) (specs : List BreakpointSpec) → IsFresh seen (dedupe_from seen specs)
unfolding dedupe_from
dedupe_from-IsFresh seen [] = tt
dedupe_from-IsFresh seen (s ∷ specs) = elim (Bool-cases (is_passed seen s.location)) [
  | inl e ↦ rw e (dedupe_from-IsFresh seen specs)
  | inr e ↦ rw e (e, dedupe_from-IsFresh (s.location ∷ seen) specs)
]

fresh_same :
    (seen : List Bytes) (specs : List BreakpointSpec)
    → IsFresh seen specs
    → dedupe_from seen specs ≡ specs
unfolding dedupe_from
fresh_same seen [] h = refl
fresh_same seen (s ∷ specs) (e, h) = rw e (ap (λ x. s ∷ x) (fresh_same (s.location ∷ seen) specs h))

dedupe_from-is_at :
    (seen : List Bytes) (specs : List BreakpointSpec) (location : Bytes)
    → is_passed seen location ≡ false
    → is_at (dedupe_from seen specs) location ≡ is_at specs location
unfolding dedupe_from is_at is_seen
dedupe_from-is_at seen [] location h = refl
dedupe_from-is_at seen (s ∷ specs) location h = elim (Bool-cases (eqb s.location location)) [
  | inl e ↦
      let p : is_passed seen s.location ≡ false = rw ((eqb_iff s.location location).0 e) h in
      rw (p, e) refl
  | inr e ↦ elim (Bool-cases (is_passed seen s.location)) [
    | inl p ↦ rw (p, e) (dedupe_from-is_at seen specs location h)
    | inr p ↦ rw (p, e) (dedupe_from-is_at (s.location ∷ seen) specs location (rw e h))
  ]
]

-- The specs that are left have locations that are all different and not empty, one of them is at
-- every other location that a spec is at, and a second pass leaves them as they are.
pub dedupe_breakpoint_specs_lem :
    (specs : List BreakpointSpec)
    → IsFresh [] (dedupe_breakpoint_specs specs)
      × ((location : Bytes)
          → is_empty location ≡ false
          → is_at (dedupe_breakpoint_specs specs) location ≡ is_at specs location)
      × (dedupe_breakpoint_specs (dedupe_breakpoint_specs specs) ≡ dedupe_breakpoint_specs specs)
unfolding dedupe_breakpoint_specs
dedupe_breakpoint_specs_lem specs =
    let fresh = dedupe_from-IsFresh [] specs in
    (
      fresh,
      λ location h. dedupe_from-is_at [] specs location (rw h refl),
      fresh_same [] (dedupe_from [] specs) fresh,
    )
