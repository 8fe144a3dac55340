-- ===== src/Cli/Shell/Children/Remembered.antt =====
-- cmd/dlvpp/screens.go: which paths are expanded after one is.
use dlvpp.Base.{
  ℕ, zero, suc, ◌<◌, ◌≡◌, ◌≢◌, refl, sym, ap, ◌∙◌, Bytes, true, List, [], ◌∷◌, codes, eqb_refl,
  Bool-cases, inl, inr, length, take, split, join, join-split, split-ne-nil, ◌==◌, arith,
}
use dlvpp.Cli.View.{ViewState}
use dlvpp.Cli.Shell.Children.{is_wanted, want, remember_parts, remember_expanded_local_path}

abbrev pub IsWanted : List Bytes → Bytes → Type 0
IsWanted paths path = is_wanted paths path ≡ true

want-IsWanted : (path : Bytes) (paths : List Bytes) → IsWanted (want path paths) path
unfolding want is_wanted
want-IsWanted path paths = elim (Bool-cases (is_wanted paths path)) [
  | inl e ↦ rw e e
  | inr e ↦ rw (e, eqb_refl path)
]

want-keeps : (path q : Bytes) (paths : List Bytes) → IsWanted paths q → IsWanted (want path paths) q
unfolding want is_wanted
want-keeps path q paths h = ground (arith, h)

-- A prefix of a list of parts, as a path.
abbrev pub prefix_path : ℕ → List Bytes → Bytes
prefix_path i parts = join (take i parts) (codes ".")

remember_parts-IsWanted :
    (n i : ℕ) (parts paths : List Bytes)
    → i < n
    → IsWanted (remember_parts n parts paths) (prefix_path (suc i) parts)
unfolding remember_parts
remember_parts-IsWanted zero i parts paths h = absurd (omega arith)
remember_parts-IsWanted (suc n) i parts paths h = elim (Bool-cases (i == n)) [
  | inl e ↦
      let same : i ≡ n = ground arith in
      rw same (want-IsWanted (prefix_path (suc n) parts) (remember_parts n parts paths))
  | inr e ↦
      want-keeps (prefix_path (suc n) parts) (prefix_path (suc i) parts)
        (remember_parts n parts paths) (remember_parts-IsWanted n i parts paths (ground arith))
]

remember_parts-keeps :
    (n : ℕ) (q : Bytes) (parts paths : List Bytes)
    → IsWanted paths q
    → IsWanted (remember_parts n parts paths) q
unfolding remember_parts
remember_parts-keeps zero q parts paths h = h
remember_parts-keeps (suc n) q parts paths h =
    want-keeps (prefix_path (suc n) parts) q (remember_parts n parts paths)
      (remember_parts-keeps n q parts paths h)

take-all : {A : Type 0} (xs : List A) → take (length xs) xs ≡ xs
take-all [] = refl
take-all (x ∷ xs) = ap (λ ys. x ∷ ys) (take-all xs)

last-prefix :
    (parts : List Bytes)
    → parts ≢ []
    → (n : ℕ) × (n < length parts) × (prefix_path (suc n) parts ≡ join parts (codes "."))
last-prefix [] h = absurd (h refl)
last-prefix (p ∷ parts) h =
    (length parts, omega arith, ap (λ ps. join ps (codes ".")) (take-all (p ∷ parts)))

-- Once a path that is not empty is remembered, it is expanded, as are the paths of all that it is
-- inside of, and what was expanded before.
pub remember_expanded_local_path-IsWanted :
    (path : Bytes) (v : ViewState)
    → path ≢ []
    → IsWanted (remember_expanded_local_path path v).expanded_locals path
      × ((i : ℕ)
          → i < length (split path 46)
          → IsWanted
              (remember_expanded_local_path path v).expanded_locals
              (prefix_path (suc i) (split path 46)))
      × ((q : Bytes)
          → IsWanted v.expanded_locals q
          → IsWanted (remember_expanded_local_path path v).expanded_locals q)
unfolding remember_expanded_local_path
remember_expanded_local_path-IsWanted [] v h = absurd (h refl)
remember_expanded_local_path-IsWanted (c ∷ path) v h =
    let parts = split (c ∷ path) 46 in
    let (n, inside, is) = last-prefix parts (split-ne-nil (c ∷ path) 46) in
    let all = remember_parts-IsWanted (length parts) n parts v.expanded_locals inside in
    (
      sym (
            ap (is_wanted (remember_parts (length parts) parts v.expanded_locals))
              (is ∙ join-split (c ∷ path) 46))
          ∙ all,
      λ i k. remember_parts-IsWanted (length parts) i parts v.expanded_locals k,
      λ q k. remember_parts-keeps (length parts) q parts v.expanded_locals k,
    )
