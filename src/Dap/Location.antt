-- ===== src/Dap/Location.antt =====
-- internal/backend/dap/types.go: `file:line` locations, and breakpoints from the wire.
use dlvpp.Base.{
  ℕ, ◌≤◌, ◌<◌, ◌≡◌, ◌≢◌, refl, Bytes, true, [], ◌∷◌, ◌++◌, Option, none, some, arith, codes, ◌==◌,
  if◌then◌else◌, All, contains, is_empty, atoi, utoa, itoa, is_digit, max_int, atoi-utoa, utoa-All,
  utoa-ne-nil, Lacks,
}
use dlvpp.Base.Int.{ℤ, pos, is_positive}
use dlvpp.Backend.{BreakpointSpec, Breakpoint}
use dlvpp.Dap.Wire.{DapBreakpoint}

split_here : ℕ → ℕ → Bytes → Option (Bytes × Bytes) → Option (Bytes × Bytes)
split_here b c s (some (l, r)) = some (c ∷ l, r)
split_here b c s none = if c == b then some ([], s) else none

-- The text on both sides of the last `b`: `strings.LastIndex` and the two slices.
unfoldable pub split_last : ℕ → Bytes → Option (Bytes × Bytes)
unfolding split_here
split_last b [] = none
split_last b (c ∷ s) = split_here b c s (split_last b s)

accept_line : Bytes → Option ℤ → Option (Bytes × ℤ)
accept_line file none = none
accept_line file (some line) = if is_positive line then some (file, line) else none

-- The tests on the two slices: `i <= 0` and `i == len(location)-1`.
accept_parts : Option (Bytes × Bytes) → Option (Bytes × ℤ)
unfolding accept_line
accept_parts none = none
accept_parts (some (file, digits)) =
    if is_empty file then none else if is_empty digits then none else accept_line file (atoi digits)

unfoldable pub parse_file_line_location : Bytes → Option (Bytes × ℤ)
unfolding accept_parts split_last
parse_file_line_location location = accept_parts (split_last b':' location)

-- `fmt.Sprintf("%s:%d", file, line)`.
unfoldable pub format_location : Bytes → ℤ → Bytes
format_location file line = file ++ b':' ∷ itoa line

unfoldable pub map_breakpoint : BreakpointSpec → DapBreakpoint → Breakpoint
map_breakpoint spec wire = record {
  id = wire.id;
  location = record {
    file = wire.source_path;
    line = wire.line;
    function = if contains spec.location (codes ":") then [] else spec.location;
  };
  condition = spec.condition;
  enabled = wire.verified;
}

digits-Lacks_colon : (s : Bytes) → All (λ c. is_digit c ≡ true) s → Lacks b':' s
digits-Lacks_colon [] h = tt
digits-Lacks_colon (c ∷ s) (d, h) = (λ e. ground arith, digits-Lacks_colon s h)

split_last-Lacks : (b : ℕ) (s : Bytes) → Lacks b s → split_last b s ≡ none
unfolding split_last
split_last-Lacks b [] h = refl
split_last-Lacks b (c ∷ s) (n, h) = ground (arith, split_last-Lacks b s h)

split_last-append : (b : ℕ) (l r : Bytes) → Lacks b r → split_last b (l ++ b ∷ r) ≡ some (l, r)
unfolding split_last
split_last-append b [] r h = ground (arith, split_last-Lacks b r h)
split_last-append b (c ∷ l) r h = ground (arith, split_last-append b l r h)

-- A location printed from a file and a positive line is parsed back to them, even where the file's
-- name holds colons.
pub parse-format_location :
    (file : Bytes) (line : ℕ)
    → file ≢ []
    → 0 < line
    → line ≤ max_int
    → parse_file_line_location (format_location file (pos line)) ≡ some (file, pos line)
unfolding parse_file_line_location format_location itoa
parse-format_location file line f p m =
    rw (split_last-append b':' file (utoa line) (digits-Lacks_colon (utoa line) (utoa-All line)))
      (ground (arith, atoi-utoa line m, utoa-ne-nil line))

split_here_inv :
    (b c : ℕ) (s : Bytes) (o : Option (Bytes × Bytes)) {l r : Bytes}
    → ((l' r' : Bytes) → o ≡ some (l', r') → l' ++ b ∷ r' ≡ s)
    → split_here b c s o ≡ some (l, r)
    → l ++ b ∷ r ≡ c ∷ s
unfolding split_here
split_here_inv b c s none ih h = ground arith
split_here_inv b c s (some (l', r')) ih h = ground (arith, ih l' r' refl)

-- What stands on both sides of the last separator spells the text.
pub split_last_inv :
    (b : ℕ) (s : Bytes) (l r : Bytes) → split_last b s ≡ some (l, r) → l ++ b ∷ r ≡ s
unfolding split_last
split_last_inv b [] l r h = cc
split_last_inv b (c ∷ s) l r h =
    split_here_inv b c s (split_last b s) (λ l' r' e. split_last_inv b s l' r' e) h

accept_parts_inv :
    (o : Option (Bytes × Bytes)) {file : Bytes} {line : ℤ}
    → accept_parts o ≡ some (file, line)
    → (digits : Bytes) × (o ≡ some (file, digits))
      × (atoi digits ≡ some line)
      × (is_positive line ≡ true)
      × (file ≢ [])
unfolding accept_parts
accept_parts_inv none h = cc
accept_parts_inv (some (f, d)) h = (d, ground arith, ground arith, ground arith, ground arith)

-- A location that parses to a file and a line is that file, a colon and a text that strconv.Atoi
-- reads as the line; the line is positive and the file is not empty.
pub parse_file_line_location_sound :
    (location file : Bytes) (line : ℤ)
    → parse_file_line_location location ≡ some (file, line)
    → (tail : Bytes) × (file ++ b':' ∷ tail ≡ location)
      × (atoi tail ≡ some line)
      × (is_positive line ≡ true)
      × (file ≢ [])
unfolding parse_file_line_location
parse_file_line_location_sound location file line h =
    let (digits, e, a, p, n) = accept_parts_inv (split_last b':' location) h in
    (digits, split_last_inv b':' location file digits e, a, p, n)
