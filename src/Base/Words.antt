-- ===== src/Base/Words.antt =====
-- Splitting, joining and cutting texts, as Go's `strings` does.
use Prim.Native.Nat.{ℕ, zero, suc}
use mathlib.Core.Path.{◌≡◌, refl}
use mathlib.Core.Logic.{◌≢◌}
use mathlib.Core.Bool.{Bool, true, false}
use mathlib.Core.List.{List, [], ◌∷◌, ◌++◌}
use native.Mathlib.Omega.{arith}
use dlvpp.Base.Tests.{Bytes, ◌==◌, if◌then◌else◌}
use dlvpp.Base.Lists.{All}
use dlvpp.Base.Text.{space_width}

-- Puts a byte in front of the first part.
abbrev onto_first : ℕ → List Bytes → List Bytes
onto_first c [] = (c ∷ []) ∷ []
onto_first c (p ∷ ps) = (c ∷ p) ∷ ps

-- `strings.Split(s, sep)` for a separator of one byte.
unfoldable pub split : Bytes → ℕ → List Bytes
split [] sep = [] ∷ []
split (c ∷ s) sep = let rest = split s sep in if c == sep then [] ∷ rest else onto_first c rest

-- `strings.Join`.
unfoldable pub join : List Bytes → Bytes → Bytes
join [] sep = []
join (p ∷ []) sep = p
join (p ∷ q ∷ ps) sep = p ++ (sep ++ join (q ∷ ps) sep)

-- `strings.Cut(s, sep)` for one byte: before, after, found.
unfoldable pub cut : Bytes → ℕ → Bytes × Bytes × Bool
cut [] sep = ([], [], false)
cut (c ∷ s) sep =
    let (before, after, found) = cut s sep in
    if c == sep then ([], s, true) else (c ∷ before, after, found)

abbrev close_field : Bytes → List Bytes → List Bytes
close_field [] ws = ws
close_field (c ∷ w) ws = (c ∷ w) ∷ ws

-- `strings.Fields`: the word under way, the bytes left of a white-space rune, the text.
pub fields_go : ℕ → Bytes → Bytes → List Bytes
fields_go skip word [] = close_field word []
fields_go (suc k) word (c ∷ s) = fields_go k word s
fields_go zero word (c ∷ s) = elim (space_width (c ∷ s)) [
  | zero ↦ fields_go zero (word ++ c ∷ []) s
  | suc k ↦ close_field word (fields_go k [] s)
]

unfoldable pub fields : Bytes → List Bytes
unfolding fields_go space_width
fields s = fields_go zero [] s

-- No byte of a text is `b`.
abbrev pub Lacks : ℕ → Bytes → Type 0
Lacks b = All (λ c. c ≢ b)

pub split-ne-nil : (s : Bytes) (sep : ℕ) → split s sep ≢ []
unfolding split
split-ne-nil [] sep h = cc
split-ne-nil (c ∷ s) sep h = ground arith

join-onto_first :
    (c : ℕ) (ps : List Bytes) (sep : Bytes) → ps ≢ [] → join (onto_first c ps) sep ≡ c ∷ join ps sep
unfolding join
join-onto_first c [] sep h = absurd (h refl)
join-onto_first c (p ∷ []) sep h = refl
join-onto_first c (p ∷ q ∷ ps) sep h = refl

join-nil_cons :
    (ps : List Bytes) (sep : ℕ) → ps ≢ [] → join ([] ∷ ps) (sep ∷ []) ≡ sep ∷ join ps (sep ∷ [])
unfolding join
join-nil_cons [] sep h = absurd (h refl)
join-nil_cons (p ∷ ps) sep h = refl

-- Splitting loses nothing.
pub join-split : (s : Bytes) (sep : ℕ) → join (split s sep) (sep ∷ []) ≡ s
unfolding split
join-split [] sep = unfold join in refl
join-split (c ∷ s) sep = ground (
  arith,
  join-split s sep,
  join-onto_first c (split s sep) (sep ∷ []),
  join-nil_cons (split s sep) sep,
  split-ne-nil s sep,
)

pub cut_found : (a b : Bytes) (sep : ℕ) → Lacks sep a → cut (a ++ sep ∷ b) sep ≡ (a, b, true)
unfolding cut
cut_found [] b sep h = ground arith
cut_found (c ∷ a) b sep (n, h) = ground (arith, cut_found a b sep h)

pub cut_absent : (a : Bytes) (sep : ℕ) → Lacks sep a → cut a sep ≡ (a, [], false)
unfolding cut
cut_absent [] sep h = refl
cut_absent (c ∷ a) sep (n, h) = ground (arith, cut_absent a sep h)
