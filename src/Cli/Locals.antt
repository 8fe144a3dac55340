-- ===== src/Cli/Locals.antt =====
-- cmd/dlvpp/loop.go: the locals that are shown, and the short form of their values.
pub mod Lines
pub mod Trees
pub mod Depth
use dlvpp.Base.{
  ℕ, suc, ◌+◌, ◌-◌, Bytes, Bool, true, false, not, List, [], ◌∷◌, ◌++◌, Option, none, some, codes,
  eqb, ltb, leb, ◌==◌, ◌||◌, ◌&&◌, if◌then◌else◌, is_empty, length, take, drop, trim_space,
  has_prefix, has_suffix, index_of, contains, join, trim_left_byte,
}
use dlvpp.Backend.{Variable}

-- "…" in UTF-8.
abbrev pub ellipsis : Bytes
ellipsis = 0xE2 ∷ 0x80 ∷ 0xA6 ∷ []

-- `isSyntheticLocal`.
unfoldable pub is_synthetic_local : Bytes → Bool
unfolding has_prefix has_suffix
is_synthetic_local name =
    let trimmed = trim_space name in
    if is_empty trimmed
    then false
    else has_prefix trimmed (codes "~")
      || (has_prefix trimmed (codes "(") && has_suffix trimmed (codes ")"))

-- `filterDisplayedLocals`: the visible ones, and how many are hidden.
unfoldable pub filter_displayed_locals : List Variable → List Variable × ℕ
unfolding is_synthetic_local
filter_displayed_locals [] = ([], 0)
filter_displayed_locals (local ∷ locals) =
    let (visible, hidden) = filter_displayed_locals locals in
    if is_synthetic_local local.name then (visible, suc hidden) else (local ∷ visible, hidden)

-- `truncateText`; the limits are constants.
unfoldable pub truncate_text : Bytes → ℕ → Bytes
truncate_text s limit =
    if (limit == 0) || leb (length s) limit
    then s
    else if leb limit 1
    then take limit s
    else take (limit - 1) s ++ ellipsis

-- `topLevelLenIndex`, with `none` for -1.
unfoldable pub top_level_len_index : Bytes → Option ℕ
unfolding has_prefix index_of
top_level_len_index value =
    if has_prefix value (codes "len:") then some 0 else index_of value (codes " len:")

abbrev split_at : Bytes → Option ℕ → Bytes × Bytes
split_at value none = (value, [])
split_at value (some comma) = (take comma value, drop (suc comma) value)

-- `splitSummaryField`.
unfoldable pub split_summary_field : Bytes → Bytes × Bytes
unfolding index_of
split_summary_field value = split_at value (index_of value (codes ","))

-- The second part of the summary, from what stands behind the first.
unfoldable cap_parts : Bytes → List Bytes
cap_parts remaining =
    if has_prefix remaining (codes "cap:")
    then trim_space (split_summary_field remaining).0 ∷ []
    else []

-- `extractLenCapSummary`.
unfoldable pub extract_len_cap_summary : Bytes → Option ℕ → Bytes
unfolding cap_parts split_summary_field has_prefix join
extract_len_cap_summary value none = []
extract_len_cap_summary value (some index) =
    let (first, remaining) = split_summary_field (trim_space (drop index value)) in
    if leb (length value) index || not (has_prefix (trim_space first) (codes "len:"))
    then []
    else join (trim_space first ∷ cap_parts (trim_space remaining)) (codes ", ")

-- `firstBrace >= 0 && (firstLen < 0 || firstBrace < firstLen)`.
abbrev is_before : Option ℕ → Option ℕ → Bool
is_before none first_len = false
is_before (some brace) none = true
is_before (some brace) (some first_len) = ltb brace first_len

-- The last switch of `summarizeCompositeLocalValue`.
unfoldable shape_summary : Bytes → Bytes → Bytes
unfolding has_prefix contains truncate_text trim_left_byte
shape_summary type_name value =
    let base_type = trim_left_byte 42 (trim_space type_name) in
    if has_prefix base_type (codes "map[")
      || (has_prefix value (codes "map[") || contains value (codes " map["))
    then codes "map[" ++ (ellipsis ++ codes "]")
    else if has_prefix base_type (codes "[]")
        || (has_prefix base_type (codes "[") || has_prefix value (codes "["))
    then codes "[" ++ (ellipsis ++ codes "]")
    else truncate_text value 48

-- `summarizeCompositeLocalValue`.
unfoldable pub summarize_composite_local_value : Bytes → Bytes → Bytes
unfolding top_level_len_index extract_len_cap_summary shape_summary eqb index_of
summarize_composite_local_value type_name value =
    let first_len = top_level_len_index value in
    let summary = extract_len_cap_summary value first_len in
    if eqb value (codes "nil") || eqb value (codes "<nil>")
    then value
    else if is_before (index_of value (codes "{")) first_len
    then codes "{" ++ (ellipsis ++ codes "}")
    else if not (is_empty summary)
    then summary
    else shape_summary type_name value

-- `formatLocalDisplayValue`.
unfoldable pub format_local_display_value : Variable → Bytes
unfolding summarize_composite_local_value truncate_text
format_local_display_value local =
    let value =
      if is_empty (trim_space local.value) then codes "<no value>" else trim_space local.value in
    if local.has_children
    then summarize_composite_local_value local.type value
    else truncate_text value 96

-- `joinLocalPath`.
unfoldable pub join_local_path : Bytes → Bytes → Bytes
join_local_path parent child = if is_empty parent then child else parent ++ (codes "." ++ child)
