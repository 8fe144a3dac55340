-- ===== src/Base/Text.antt =====
-- The functions of Go's `strings` that the program calls, on byte strings.
use Prim.Native.Nat.{ℕ, zero, suc, ◌+◌}
use mathlib.Core.Path.{◌≡◌, refl}
use mathlib.Core.Bool.{Bool, true, false, ◌&&◌, ◌||◌}
use mathlib.Core.List.{[], ◌∷◌, map, reverse}
use mathlib.Core.Option.{Option, none, some}
use native.Mathlib.Omega.{arith}
use dlvpp.Base.Tests.{Bytes, leb, ◌==◌, if◌then◌else◌}

-- `unicode.IsSpace` below 128.
abbrev pub is_ascii_space : ℕ → Bool
is_ascii_space c = (c == 32) || (leb 9 c && leb c 13)

abbrev wide_two : ℕ → ℕ → Bool
wide_two a b = (a == 0xC2) && ((b == 0x85) || (b == 0xA0))

abbrev wide_three : ℕ → ℕ → ℕ → Bool
wide_three a b c =
    ((a == 0xE1) && ((b == 0x9A) && (c == 0x80)))
    || (((a == 0xE2)
          && ((b == 0x80)
              && ((leb 0x80 c && leb c 0x8A) || ((c == 0xA8) || ((c == 0xA9) || (c == 0xAF))))))
        || (((a == 0xE2) && ((b == 0x81) && (c == 0x9F)))
            || ((a == 0xE3) && ((b == 0x80) && (c == 0x80)))))

-- The bytes of the white-space rune that a text starts with; 0 if it starts with none.
unfoldable pub space_width : Bytes → ℕ
space_width [] = 0
space_width (a ∷ []) = if is_ascii_space a then 1 else 0
space_width (a ∷ b ∷ []) = if is_ascii_space a then 1 else if wide_two a b then 2 else 0
space_width (a ∷ b ∷ c ∷ s) =
    if is_ascii_space a then 1 else if wide_two a b then 2 else if wide_three a b c then 3 else 0

-- The same at the end of a text, given reversed.
unfoldable pub space_width_end : Bytes → ℕ
space_width_end [] = 0
space_width_end (a ∷ []) = if is_ascii_space a then 1 else 0
space_width_end (b ∷ a ∷ []) = if is_ascii_space b then 1 else if wide_two a b then 2 else 0
space_width_end (c ∷ b ∷ a ∷ s) =
    if is_ascii_space c then 1 else if wide_two b c then 2 else if wide_three a b c then 3 else 0

-- Drops runes while `width` is not 0; the first argument counts bytes of the rune under way.
unfoldable pub trim_by : (Bytes → ℕ) → ℕ → Bytes → Bytes
trim_by width skip [] = []
trim_by width (suc k) (c ∷ s) = trim_by width k s
trim_by width zero (c ∷ s) = elim (width (c ∷ s)) [ zero ↦ c ∷ s | suc k ↦ trim_by width k s ]

-- `strings.TrimSpace`.
unfoldable pub trim_space : Bytes → Bytes
unfolding trim_by space_width space_width_end
trim_space s = reverse (trim_by space_width_end 0 (reverse (trim_by space_width 0 s)))

pub trim_by_self : (width : Bytes → ℕ) (s : Bytes) → width s ≡ 0 → trim_by width 0 s ≡ s
unfolding trim_by
trim_by_self width [] h = refl
trim_by_self width (c ∷ s) h = ground arith

-- `strings.TrimLeft(s, "…")` for one byte.
unfoldable pub trim_left_byte : ℕ → Bytes → Bytes
trim_left_byte b [] = []
trim_left_byte b (c ∷ s) = if c == b then trim_left_byte b s else c ∷ s

-- `strings.TrimRight(s, "\n")`.
unfoldable pub trim_right_byte : ℕ → Bytes → Bytes
unfolding trim_left_byte
trim_right_byte b s = reverse (trim_left_byte b (reverse s))

-- `strings.HasPrefix(s, prefix)`.
unfoldable pub has_prefix : Bytes → Bytes → Bool
has_prefix s [] = true
has_prefix [] (p ∷ ps) = false
has_prefix (c ∷ s) (p ∷ ps) = (c == p) && has_prefix s ps

-- `strings.HasSuffix(s, suffix)`.
unfoldable pub has_suffix : Bytes → Bytes → Bool
unfolding has_prefix
has_suffix s t = has_prefix (reverse s) (reverse t)

pub strip : Bytes → Bytes → Bytes → Bytes
strip whole s [] = s
strip whole [] (p ∷ ps) = whole
strip whole (c ∷ s) (p ∷ ps) = let rest = strip whole s ps in if c == p then rest else whole

-- `strings.TrimPrefix`, `strings.TrimSuffix`.
unfoldable pub trim_prefix : Bytes → Bytes → Bytes
unfolding strip
trim_prefix s p = strip s s p

unfoldable pub trim_suffix : Bytes → Bytes → Bytes
unfolding trim_prefix
trim_suffix s p = reverse (trim_prefix (reverse s) (reverse p))

abbrev later : Option ℕ → Option ℕ
later none = none
later (some i) = some (suc i)

-- `strings.Index`, with `none` for -1.
unfoldable pub index_of : Bytes → Bytes → Option ℕ
unfolding has_prefix
index_of [] p = if has_prefix [] p then some 0 else none
index_of (c ∷ s) p =
    let rest = later (index_of s p) in if has_prefix (c ∷ s) p then some 0 else rest

-- `strings.Contains`.
unfoldable pub contains : Bytes → Bytes → Bool
unfolding index_of
contains s p = elim (index_of s p) [ none ↦ false | some i ↦ true ]

-- `strings.ToLower`, on the ASCII letters.
abbrev pub to_lower_byte : ℕ → ℕ
to_lower_byte c = if leb b'A' c && leb c b'Z' then c + 32 else c

unfoldable pub to_lower : Bytes → Bytes
to_lower = map to_lower_byte

-- `strings.TrimRight(s, cutset)`, for the bytes that `drops` accepts.
unfoldable pub trim_left_while : (ℕ → Bool) → Bytes → Bytes
trim_left_while drops [] = []
trim_left_while drops (c ∷ s) = if drops c then trim_left_while drops s else c ∷ s

unfoldable pub trim_right_while : (ℕ → Bool) → Bytes → Bytes
unfolding trim_left_while
trim_right_while drops s = reverse (trim_left_while drops (reverse s))
