-- ===== src/Cli/Comments/Targets.antt =====
-- cmd/dlvpp/source_index.go: the line that a comment's breakpoint is set on.
use native.Mathlib.Nat.{add-zero}
use dlvpp.Base.{
  ℕ, suc, ◌+◌, ◌≡◌, refl, ap, ◌∙◌, sym, Bytes, true, List, [], ◌∷◌, some, ◌⊎◌, inl, inr, drop, take,
  get_elem?, Bool-cases, All, arith, ◌++◌, codes, has_prefix, trim_space, is_empty,
}
use dlvpp.Cli.Comments.{is_skipped, first_code_line, resolve_breakpoint_target_line}

abbrev pub StartsWith : Bytes → Bytes → Type 0
StartsWith prefix s = (rest : Bytes) × (s ≡ prefix ++ rest)

-- Without the space around it, the line is empty or starts with one of //, /* and *.
abbrev pub IsPassedOver : Bytes → Type 0
IsPassedOver line =
    (trim_space line ≡ [])
    ⊎ (StartsWith (codes "//") (trim_space line)
        ⊎ (StartsWith (codes "/*") (trim_space line) ⊎ StartsWith (codes "*") (trim_space line)))

-- `k` is the first of the lines that is not passed over.
pub record IsFirstCode (lines : List Bytes) (k : ℕ) : Type 0 where
  pub line : Bytes
  pub found : get_elem? lines k ≡ some line
  pub is_code : ¬ IsPassedOver line
  pub before : All IsPassedOver (take k lines)

has_prefix-StartsWith : (s prefix : Bytes) → has_prefix s prefix ≡ true → StartsWith prefix s
unfolding has_prefix
has_prefix-StartsWith s [] h = (s, refl)
has_prefix-StartsWith [] (p ∷ ps) h = cc
has_prefix-StartsWith (c ∷ s) (p ∷ ps) h =
    let (rest, e) = has_prefix-StartsWith s ps (ground arith) in
    let same : c ≡ p = ground arith in (rest, rw (same, e))

has_prefix-append : (prefix rest : Bytes) → has_prefix (prefix ++ rest) prefix ≡ true
unfolding has_prefix
has_prefix-append [] rest = refl
has_prefix-append (p ∷ ps) rest = rw (has_prefix-append ps rest) (ground arith)

StartsWith-has_prefix : (prefix s : Bytes) → StartsWith prefix s → has_prefix s prefix ≡ true
StartsWith-has_prefix prefix s (rest, e) = rw (e, has_prefix-append)

is_empty_eq : (s : Bytes) → is_empty s ≡ true → s ≡ []
is_empty_eq [] h = refl
is_empty_eq (c ∷ s) h = cc

is_skipped-IsPassedOver : (line : Bytes) → is_skipped line ≡ true → IsPassedOver line
unfolding is_skipped
is_skipped-IsPassedOver line h =
    let t = trim_space line in
    elim (Bool-cases (is_empty t)) [
      | inl e ↦ inl (is_empty_eq t e)
      | inr e ↦ elim (Bool-cases (has_prefix t (codes "//"))) [
        | inl f ↦ inr (inl (has_prefix-StartsWith t (codes "//") f))
        | inr f ↦ elim (Bool-cases (has_prefix t (codes "/*"))) [
          | inl g ↦ inr (inr (inl (has_prefix-StartsWith t (codes "/*") g)))
          | inr g ↦ inr (inr (inr (has_prefix-StartsWith t (codes "*") (rw (e, f, g) at h))))
        ]
      ]
    ]

IsPassedOver-is_skipped : (line : Bytes) → IsPassedOver line → is_skipped line ≡ true
unfolding is_skipped
IsPassedOver-is_skipped line (inl e) = rw e refl
IsPassedOver-is_skipped line (inr (inl h)) =
    let e = StartsWith-has_prefix (codes "//") (trim_space line) h in ground arith
IsPassedOver-is_skipped line (inr (inr (inl h))) =
    let e = StartsWith-has_prefix (codes "/*") (trim_space line) h in ground arith
IsPassedOver-is_skipped line (inr (inr (inr h))) =
    let e = StartsWith-has_prefix (codes "*") (trim_space line) h in ground arith

first_code_line_lem :
    (n : ℕ) (lines : List Bytes)
    → ((first_code_line n lines ≡ 0) × All IsPassedOver lines)
      ⊎ ((k : ℕ) × (first_code_line n lines ≡ suc (n + k)) × IsFirstCode lines k)
unfolding first_code_line
first_code_line_lem n [] = inl (refl, tt)
first_code_line_lem n (line ∷ lines) = elim (Bool-cases (is_skipped line)) [
  | inl e ↦ elim (first_code_line_lem (suc n) lines) [
    | inl (z, skipped) ↦ inl (rw e z, (is_skipped-IsPassedOver line e, skipped))
    | inr (k, found, first) ↦ inr (
      suc k,
      rw e (found ∙ omega arith),
      record {
        line = first.line;
        found = first.found;
        is_code = first.is_code;
        before = (is_skipped-IsPassedOver line e, first.before);
      },
    )
  ]
  | inr e ↦ inr (
    0,
    rw e (ap suc (sym (add-zero n))),
    record {
      line = line;
      found = refl;
      is_code = λ h. cc (IsPassedOver-is_skipped line h, e);
      before = tt;
    },
  )
]

-- A line is passed over where, without the space around it, it is empty or starts with //, /* or *.
-- The target of a comment that ends on line `n` is the first line after `n` that is not passed
-- over, or 0 where every line after `n` is.
pub resolve_breakpoint_target_line_lem :
    (lines : List Bytes) (n : ℕ)
    → ((resolve_breakpoint_target_line lines n ≡ 0) × All IsPassedOver (drop n lines))
      ⊎ ((k : ℕ) × (resolve_breakpoint_target_line lines n ≡ suc (n + k))
          × IsFirstCode (drop n lines) k)
unfolding resolve_breakpoint_target_line
resolve_breakpoint_target_line_lem lines n = first_code_line_lem n (drop n lines)
