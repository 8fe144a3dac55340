-- ===== src/Cli/Marks/Remembered.antt =====
-- cmd/dlvpp/breakpoint_marks.go and breakpoint_resolver.go: one mark to a place, and a line of the
-- current file.
use dlvpp.Base.{
  ℕ, ◌≡◌, refl, ◌∙◌, ◌<◌, ◌≤◌, Bytes, Bool, true, false, List, [], ◌∷◌, Option, none, some, eqb,
  eqb_iff, Bool-cases, inl, inr, All, arith, utoa, itoa, atoi-utoa, trim_space-numeral, is_empty,
  max_int, ltb, codes, ◌++◌, utoa-ne-nil, ◌≢◌,
}
use dlvpp.Base.Int.{pos, eq_int, eq_int_eq}
use dlvpp.Base.Fault.{Result, ok}
use dlvpp.Backend.{Breakpoint}
use dlvpp.Session.{Snapshot}
use dlvpp.Sourceview.Enclosing.{GoFile}
use dlvpp.Cli.Marks.{
  BreakpointRecord, same_place, put_record, put_optional, breakpoint_record_from_backend,
  remember_breakpoint, current_breakpoint_file, located, parse_breakpoint_line,
  resolve_breakpoint_location,
}

-- No two records at the same place.
abbrev pub IsDistinct : List BreakpointRecord → Type 0
IsDistinct [] = Unit
IsDistinct (r ∷ records) = All (λ s. same_place r s ≡ false) records × IsDistinct records

same_place_eq :
    (a b : BreakpointRecord) → same_place a b ≡ true → (a.file ≡ b.file) × (a.line ≡ b.line)
unfolding same_place
same_place_eq a b h =
    let f : eqb a.file b.file ≡ true = ground arith in
    let l : eq_int a.line b.line ≡ true = ground arith in
    ((eqb_iff a.file b.file).0 f, eq_int_eq a.line b.line l)

-- Records at the same place are at the same places as any third one.
same_place_swap :
    (a b c : BreakpointRecord) → same_place a b ≡ true → same_place b c ≡ same_place a c
unfolding same_place
same_place_swap a b c h = let (f, l) = same_place_eq a b h in rw (f, l) refl

All-put_record :
    (a r : BreakpointRecord) (records : List BreakpointRecord)
    → same_place a r ≡ false
    → All (λ s. same_place a s ≡ false) records
    → All (λ s. same_place a s ≡ false) (put_record r records)
unfolding put_record
All-put_record a r [] h k = (h, tt)
All-put_record a r (existing ∷ records) h (k, ks) = elim (Bool-cases (same_place existing r)) [
  | inl e ↦ rw e (h, ks)
  | inr e ↦ rw e (k, All-put_record a r records h ks)
]

moved :
    (a b : BreakpointRecord) (records : List BreakpointRecord)
    → same_place a b ≡ true
    → All (λ s. same_place a s ≡ false) records
    → All (λ s. same_place b s ≡ false) records
moved a b [] e h = tt
moved a b (s ∷ records) e (h, hs) = (same_place_swap a b s e ∙ h, moved a b records e hs)

pub put_record-IsDistinct :
    (r : BreakpointRecord) (records : List BreakpointRecord)
    → IsDistinct records
    → IsDistinct (put_record r records)
unfolding put_record
put_record-IsDistinct r [] h = (tt, tt)
put_record-IsDistinct r (existing ∷ records) (h, hs) = elim (Bool-cases (same_place existing r)) [
  | inl e ↦ rw e (moved existing r records e h, hs)
  | inr e ↦ rw e (All-put_record existing r records e h, put_record-IsDistinct r records hs)
]

put_optional-IsDistinct :
    (r : Option BreakpointRecord) (records : List BreakpointRecord)
    → IsDistinct records
    → IsDistinct (put_optional r records)
unfolding put_optional
put_optional-IsDistinct none records h = h
put_optional-IsDistinct (some r) records h = put_record-IsDistinct r records h

-- Remembering a breakpoint never marks a place twice.
pub remember_breakpoint-IsDistinct :
    (parse_file : Bytes → Result GoFile) (bp : Option Breakpoint) (records : List BreakpointRecord)
    → IsDistinct records
    → IsDistinct (remember_breakpoint parse_file bp records)
unfolding remember_breakpoint
remember_breakpoint-IsDistinct parse_file bp records h =
    put_optional-IsDistinct (breakpoint_record_from_backend parse_file bp) records h

not_empty : (s : Bytes) → s ≢ [] → is_empty s ≡ false
not_empty [] h = absurd (h refl)
not_empty (c ∷ s) h = refl

parse_breakpoint_line-utoa :
    (line : ℕ) → 0 < line → line ≤ max_int → parse_breakpoint_line (utoa line) ≡ some (pos line)
unfolding parse_breakpoint_line
parse_breakpoint_line-utoa line p q =
    let positive : ltb 0 line ≡ true = ground arith in rw (atoi-utoa line q, positive) refl

-- A command that is only a line number is a place in the current file, in the spelling that names
-- that line.
pub resolve_breakpoint_location-utoa :
    (parse_file : Bytes → Result GoFile) (is_identifier : Bytes → Bool) (line : ℕ)
    (snapshot : Option Snapshot)
    → 0 < line
    → line ≤ max_int
    → is_empty (current_breakpoint_file snapshot) ≡ false
    → resolve_breakpoint_location parse_file is_identifier (utoa line) snapshot
      ≡ ok (current_breakpoint_file snapshot ++ (codes ":" ++ itoa (pos line)))
unfolding resolve_breakpoint_location located
resolve_breakpoint_location-utoa parse_file is_identifier line snapshot p q h =
    rw
      (
        trim_space-numeral line,
        not_empty (utoa line) (utoa-ne-nil line),
        parse_breakpoint_line-utoa line p q,
        h,
      )
      refl
