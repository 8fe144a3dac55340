-- ===== src/Base/Trimming.antt =====
-- What trimming leaves alone.
use Prim.Native.Nat.{ℕ}
use mathlib.Core.Path.{◌≡◌, refl}
use mathlib.Core.Bool.{Bool, true, false}
use mathlib.Core.List.{List, [], ◌∷◌, ◌++◌, reverse, reverse-append, reverse-reverse}
use native.Mathlib.Omega.{arith}
use dlvpp.Base.Tests.{Bytes}
use dlvpp.Base.Lists.{All, All-append}
use dlvpp.Base.Text.{
  trim_by, trim_by_self, trim_space, space_width, space_width_end, trim_right_while,
  trim_left_while,
}
use dlvpp.Base.Numeral.{is_digit, utoa, utoa-All}

abbrev IsNumeral : Bytes → Type 0
IsNumeral = All (λ c. is_digit c ≡ true)

IsNumeral-reverse : (s : Bytes) → IsNumeral s → IsNumeral (reverse s)
IsNumeral-reverse [] h = h
IsNumeral-reverse (c ∷ s) (d, h) =
    rw (reverse-append (c ∷ []) s)
      (All-append (λ c. is_digit c ≡ true) (reverse s) (c ∷ []) (IsNumeral-reverse s h) (d, tt))

space_width-IsNumeral : (s : Bytes) → IsNumeral s → space_width s ≡ 0
unfolding space_width
space_width-IsNumeral [] h = refl
space_width-IsNumeral (a ∷ []) h = ground arith
space_width-IsNumeral (a ∷ b ∷ []) h = ground arith
space_width-IsNumeral (a ∷ b ∷ c ∷ s) h = ground arith

space_width_end-IsNumeral : (s : Bytes) → IsNumeral s → space_width_end s ≡ 0
unfolding space_width_end
space_width_end-IsNumeral [] h = refl
space_width_end-IsNumeral (a ∷ []) h = ground arith
space_width_end-IsNumeral (a ∷ b ∷ []) h = ground arith
space_width_end-IsNumeral (a ∷ b ∷ c ∷ s) h = ground arith

trim_left-numeral : (s : Bytes) → IsNumeral s → trim_by space_width 0 (32 ∷ s) ≡ s
unfolding trim_by
trim_left-numeral [] h = unfold space_width in refl
trim_left-numeral (a ∷ []) h =
    unfold space_width in trim_by_self space_width (a ∷ []) (space_width-IsNumeral (a ∷ []) h)
trim_left-numeral (a ∷ b ∷ s) h =
    unfold space_width in trim_by_self space_width (a ∷ b ∷ s) (space_width-IsNumeral (a ∷ b ∷ s) h)

-- A numeral behind a space is left whole.
pub trim_space-utoa : (n : ℕ) → trim_space (32 ∷ utoa n) ≡ utoa n
unfolding trim_space
trim_space-utoa n = rw (trim_left-numeral (utoa n) (utoa-All n)) (
    rw
      (trim_by_self space_width_end (reverse (utoa n))
        (space_width_end-IsNumeral _ (IsNumeral-reverse (utoa n) (utoa-All n))))
      (reverse-reverse (utoa n)))

-- A numeral is left whole.
pub trim_space-numeral : (n : ℕ) → trim_space (utoa n) ≡ utoa n
unfolding trim_space
trim_space-numeral n =
    rw (trim_by_self space_width (utoa n) (space_width-IsNumeral (utoa n) (utoa-All n))) (
      rw
        (trim_by_self space_width_end (reverse (utoa n))
          (space_width_end-IsNumeral _ (IsNumeral-reverse (utoa n) (utoa-All n))))
        (reverse-reverse (utoa n)))

All-reverse : {A : Type 0} (P : A → Type 0) (s : List A) → All P s → All P (reverse s)
All-reverse P [] h = h
All-reverse P (c ∷ s) (d, h) =
    rw (reverse-append (c ∷ []) s) (All-append P (reverse s) (c ∷ []) (All-reverse P s h) (d, tt))

module _ (drops : ℕ → Bool) where
  trim_left_while-keeps : (s : Bytes) → All (λ d. drops d ≡ false) s → trim_left_while drops s ≡ s
  unfolding trim_left_while
  trim_left_while-keeps [] h = refl
  trim_left_while-keeps (c ∷ s) (k, h) = rw k

  trim_left_while-drops :
      (t s : Bytes)
      → All (λ d. drops d ≡ true) t
      → trim_left_while drops (t ++ s) ≡ trim_left_while drops s
  unfolding trim_left_while
  trim_left_while-drops [] s h = refl
  trim_left_while-drops (c ∷ t) s (k, h) = rw k (trim_left_while-drops t s h)

  -- Only the bytes at the end that the test accepts are dropped.
  pub trim_right_while-append :
      (s t : Bytes)
      → All (λ d. drops d ≡ false) s
      → All (λ d. drops d ≡ true) t
      → trim_right_while drops (s ++ t) ≡ s
  unfolding trim_right_while
  trim_right_while-append s t h k =
      rw
        (
          reverse-append s t,
          trim_left_while-drops (reverse t) (reverse s) (All-reverse (λ d. drops d ≡ true) t k),
          trim_left_while-keeps (reverse s) (All-reverse (λ d. drops d ≡ false) s h),
        )
        (reverse-reverse s)
