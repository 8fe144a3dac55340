-- ===== src/Sourceview/Enclosing.antt =====
-- internal/sourceview/render.go: the innermost function around a line, over the functions that
-- go/parser finds.
use dlvpp.Base.{
  ℕ, ◌-◌, ◌≤◌, ◌≡◌, Bytes, Bool, true, false, List, [], ◌∷◌, ◌++◌, Option, none, some, codes, ltb,
  ◌==◌, ◌||◌, not, if◌then◌else◌, is_empty, has_suffix, arith, itoa, All, inl, inr, Bool-cases,
  reverse, append_assoc, append-nil,
}
use native.Mathlib.Nat.{le_trans, le_refl}
use mathlib.Core.List.{reverse-append}
use dlvpp.Base.Int.{ℤ, pos, negsuc}
use dlvpp.Base.Fault.{text, Result, ok, err, wrap_error}

-- A `*ast.FuncDecl` (with its name and the receiver's type) or a `*ast.FuncLit`, with its first and
-- last line, in the order of `ast.Inspect`. A line is 0 where no position is known.
pub record FuncNode : Type 0 where
  pub is_declaration : Bool
  pub name : Bytes
  pub receiver : Option Bytes
  pub start : ℕ
  pub end : ℕ

pub record GoFile : Type 0 where
  pub package_name : Bytes
  pub functions : List FuncNode

-- `qualifiedFunctionName`.
unfoldable pub qualified_function_name : GoFile → FuncNode → Bytes
qualified_function_name file f = elim f.receiver [
  | some receiver ↦ receiver ++ (codes "." ++ f.name)
  | none ↦ if is_empty file.package_name then f.name else file.package_name ++ (codes "." ++ f.name)
]

-- The test that a node is passed over: no position, or the line is not within it.
abbrev pub is_around : ℕ → FuncNode → Bool
is_around line f = not ((f.start == 0) || ((f.end == 0) || (ltb line f.start || ltb f.end line)))

abbrev pub size : FuncNode → ℕ
size f = f.end - f.start

-- The best node so far against the next.
better : ℕ → Option FuncNode → FuncNode → Option FuncNode
better line best f =
    if is_around line f
    then elim best [ none ↦ some f | some b ↦ if ltb (size f) (size b) then some f else some b ]
    else best

unfoldable pub innermost : ℕ → Option FuncNode → List FuncNode → Option FuncNode
unfolding better
innermost line best [] = best
innermost line best (f ∷ fs) = innermost line (better line best f) fs

unfoldable pub declarations : List FuncNode → List FuncNode
declarations [] = []
declarations (f ∷ fs) = let rest = declarations fs in if f.is_declaration then f ∷ rest else rest

abbrev no_function : {A : Type 0} → ℤ → Result A
no_function line = err (text (codes "no enclosing function for line " ++ itoa line))

abbrev pub range_of : ℤ → Option FuncNode → Result (ℕ × ℕ)
range_of line none = no_function line
range_of line (some f) = ok (f.start, f.end)

name_of : ℤ → GoFile → Option FuncNode → Result Bytes
unfolding qualified_function_name
name_of line file none = no_function line
name_of line file (some f) = ok (qualified_function_name file f)

unfoldable pub parsed : {A : Type 0} → Result GoFile → (GoFile → Result A) → Result A
parsed (err e) f = err (wrap_error (codes "parse go source: ") e)
parsed (ok file) f = f file

abbrev on_line : {A : Type 0} → ℤ → (ℕ → Result A) → Result A
on_line (pos line) f =
    if line == 0 then err (text (codes "source line out of range: " ++ itoa (pos line))) else f line
on_line (negsuc n) f = err (text (codes "source line out of range: " ++ itoa (negsuc n)))

module _ (parse_file : Bytes → Result GoFile) where
  -- `enclosingFunctionRange`.
  unfoldable pub enclosing_function_range : Bytes → ℤ → Result (ℕ × ℕ)
  unfolding innermost parsed
  enclosing_function_range path line =
      on_line line
        (λ n. parsed (parse_file path) (λ file. range_of line (innermost n none file.functions)))

  -- `EnclosingFunctionName`.
  unfoldable pub enclosing_function_name : Bytes → ℤ → Result Bytes
  unfolding innermost declarations parsed name_of
  enclosing_function_name path line = on_line line (λ n.
      if has_suffix path (codes ".go")
      then parsed (parse_file path)
          (λ file. name_of line file (innermost n none (declarations file.functions)))
      else err (text (codes "enclosing function only supported for Go source: " ++ path)))

-- What the search knows of the nodes it has seen: its choice is around the line and no larger than
-- any of them that is; and it has a choice as soon as one of them is.
abbrev pub IsChosen : ℕ → Option FuncNode → List FuncNode → Type 0
IsChosen line none seen = All (λ g. is_around line g ≡ false) seen
IsChosen line (some f) seen =
    (is_around line f ≡ true) × All (λ g. is_around line g ≡ true → size f ≤ size g) seen

weaken :
    (line : ℕ) (f b : FuncNode) (seen : List FuncNode)
    → size f ≤ size b
    → All (λ g. is_around line g ≡ true → size b ≤ size g) seen
    → All (λ g. is_around line g ≡ true → size f ≤ size g) seen
weaken line f b [] le h = tt
weaken line f b (g ∷ gs) le (h, hs) = (λ e. le_trans le (h e), weaken line f b gs le hs)

vacuous :
    (line : ℕ) (f : FuncNode) (seen : List FuncNode)
    → All (λ g. is_around line g ≡ false) seen
    → All (λ g. is_around line g ≡ true → size f ≤ size g) seen
vacuous line f [] h = tt
vacuous line f (g ∷ gs) (h, hs) = (λ e. cc, vacuous line f gs hs)

IsChosen-better :
    (line : ℕ) (best : Option FuncNode) (f : FuncNode) (seen : List FuncNode)
    → IsChosen line best seen
    → IsChosen line (better line best f) (f ∷ seen)
unfolding better
IsChosen-better line none f seen h = elim (Bool-cases (is_around line f)) [
  | inl e ↦ rw e (e, ((λ _. le_refl _), vacuous line f seen h))
  | inr e ↦ rw e (e, h)
]
IsChosen-better line (some b) f seen (a, h) = elim (Bool-cases (is_around line f)) [
  | inl e ↦ elim (Bool-cases (ltb (size f) (size b))) [
    | inl l ↦ rw (e, l) (e, ((λ _. le_refl _), weaken line f b seen (ground arith) h))
    | inr g ↦ rw (e, g) (a, ((λ _. ground arith), h))
  ]
  | inr e ↦ rw e (a, ((λ t. cc), h))
]

IsChosen-innermost :
    (line : ℕ) (best : Option FuncNode) (fs seen : List FuncNode)
    → IsChosen line best seen
    → IsChosen line (innermost line best fs) (reverse fs ++ seen)
unfolding innermost
IsChosen-innermost line best [] seen h = h
IsChosen-innermost line best (f ∷ fs) seen h =
    rw (reverse-append (f ∷ []) fs, append_assoc (reverse fs) (f ∷ []) seen)
      (IsChosen-innermost line (better line best f) fs (f ∷ seen)
        (IsChosen-better line best f seen h))

-- The function that is chosen for a line is around it, and no function around the line spans fewer
-- lines; where none is chosen, no function is around the line.
pub innermost_least :
    (line : ℕ) (fs : List FuncNode) → IsChosen line (innermost line none fs) (reverse fs)
innermost_least line fs = rw (← append-nil (reverse fs)) (IsChosen-innermost line none fs [] tt)
