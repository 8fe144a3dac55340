-- ===== src/Base/Numeral.antt =====
-- Decimal numerals: `strconv.Itoa` and `strconv.Atoi` for the int of a 64-bit machine.
use Prim.Native.Nat.{ℕ, zero, suc, ◌+◌, ◌-◌, ◌*◌, ◌/◌, ◌%◌, ◌^◌, ◌≤◌, ◌<◌}
use mathlib.Core.Path.{◌≡◌, refl, ap, ◌∙◌}
use mathlib.Core.Bool.{Bool, true, ◌&&◌}
use mathlib.Core.List.{[], ◌∷◌}
use mathlib.Core.Option.{Option, none, some}
use native.Mathlib.Omega.{arith}
use mathlib.Core.Logic.{◌≢◌, inl, inr}
use dlvpp.Base.Tests.{Bytes, Bool-cases, leb, ◌==◌, if◌then◌else◌}
use dlvpp.Base.Lists.{All}
use dlvpp.Base.Int.{ℤ, pos, negsuc}

abbrev pub is_digit : ℕ → Bool
is_digit c = leb b'0' c && leb c b'9'

-- Digits of `n` in front of `out`; `n + 1` rounds are enough.
pub digits : ℕ → ℕ → Bytes → Bytes
digits zero n out = out
digits (suc f) n out =
    let rest = digits f (n / 10) ((48 + n % 10) ∷ out) in if n == 0 then out else rest

unfoldable pub utoa : ℕ → Bytes
unfolding digits
utoa zero = 48 ∷ []
utoa (suc n) = digits (suc (suc n)) (suc n) []

unfoldable pub itoa : ℤ → Bytes
unfolding utoa
itoa (pos n) = utoa n
itoa (negsuc n) = 45 ∷ utoa (suc n)

pub scan_digits : Bytes → ℕ → Option ℕ
scan_digits [] n = some n
scan_digits (c ∷ s) n =
    let rest = scan_digits s (n * 10 + (c - 48)) in if is_digit c then rest else none

abbrev pub max_int : ℕ
max_int = 2 ^ 63 - 1

magnitude : Bytes → Option ℕ
unfolding scan_digits
magnitude [] = none
magnitude (c ∷ s) = scan_digits (c ∷ s) 0

abbrev signed_pos : Option ℕ → Option ℤ
signed_pos none = none
signed_pos (some n) = if leb n max_int then some (pos n) else none

abbrev negate : ℕ → ℤ
negate zero = pos 0
negate (suc n) = negsuc n

abbrev signed_neg : Option ℕ → Option ℤ
signed_neg none = none
signed_neg (some n) = if leb n (2 ^ 63) then some (negate n) else none

-- `strconv.Atoi`; `none` stands for a syntax or a range error.
unfoldable pub atoi : Bytes → Option ℤ
unfolding magnitude
atoi [] = none
atoi (c ∷ s) =
    if c == b'-'
    then signed_neg (magnitude s)
    else if c == b'+'
    then signed_pos (magnitude s)
    else signed_pos (magnitude (c ∷ s))

scan_digits-step :
    (n : ℕ) (out : Bytes) → scan_digits ((48 + n % 10) ∷ out) (n / 10) ≡ scan_digits out n
unfolding scan_digits
scan_digits-step n out =
    let e : n / 10 * 10 + (48 + n % 10 - 48) ≡ n = omega arith in
    ground (arith, ap (scan_digits out) e)

scan_digits-digits :
    (f n : ℕ) (out : Bytes) → n < f → scan_digits (digits f n out) 0 ≡ scan_digits out n
unfolding digits
scan_digits-digits zero n out h = absurd (omega arith)
scan_digits-digits (suc f) n out h =
    ground (arith, scan_digits-step n out, scan_digits-digits f (n / 10) ((48 + n % 10) ∷ out))

digits-All :
    (f n : ℕ) (out : Bytes)
    → All (λ c. is_digit c ≡ true) out
    → All (λ c. is_digit c ≡ true) (digits f n out)
unfolding digits
digits-All zero n out h = h
digits-All (suc f) n out h = elim (Bool-cases (n == 0)) [
  | inl e ↦ rw e h
  | inr e ↦ rw e (digits-All f (n / 10) ((48 + n % 10) ∷ out) (ground arith, h))
]

pub utoa-All : (n : ℕ) → All (λ c. is_digit c ≡ true) (utoa n)
unfolding utoa
utoa-All zero = (refl, tt)
utoa-All (suc n) = digits-All (suc (suc n)) (suc n) [] tt

pub scan_digits-utoa : (n : ℕ) → scan_digits (utoa n) 0 ≡ some n
unfolding utoa
scan_digits-utoa zero = unfold scan_digits in refl
scan_digits-utoa (suc n) =
    scan_digits-digits (suc (suc n)) (suc n) [] (omega arith) ∙ (unfold scan_digits in refl)

signed_pos_fits : (n : ℕ) → n ≤ max_int → signed_pos (some n) ≡ some (pos n)
signed_pos_fits n h = ground arith

atoi_digits :
    (s : Bytes) (n : ℕ)
    → All (λ c. is_digit c ≡ true) s
    → scan_digits s 0 ≡ some n
    → s ≢ []
    → atoi s ≡ signed_pos (some n)
unfolding atoi
atoi_digits [] n a e h = absurd (h refl)
atoi_digits (c ∷ s) n (d, a) e h = ground arith

digits-ne-nil : (f n c : ℕ) (out : Bytes) → digits f n (c ∷ out) ≢ []
unfolding digits
digits-ne-nil zero n c out e = cc
digits-ne-nil (suc f) n c out e = ground (arith, digits-ne-nil f (n / 10) (48 + n % 10) (c ∷ out))

pub utoa-ne-nil : (n : ℕ) → utoa n ≢ []
unfolding utoa
utoa-ne-nil zero e = cc
utoa-ne-nil (suc n) e = ground (arith, digits-ne-nil (suc n) (suc n / 10) (48 + suc n % 10) [])

-- A printed int is read back.
pub atoi-utoa : (n : ℕ) → n ≤ max_int → atoi (utoa n) ≡ some (pos n)
atoi-utoa n h =
    atoi_digits (utoa n) n (utoa-All n) (scan_digits-utoa n) (utoa-ne-nil n) ∙ signed_pos_fits n h
