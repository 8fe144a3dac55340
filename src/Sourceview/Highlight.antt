-- ===== src/Sourceview/Highlight.antt =====
-- internal/sourceview/render.go: colours for Go source, over the tokens of go/scanner.
use dlvpp.Base.{
  ℕ, ◌+◌, ◌-◌, Bytes, List, [], ◌∷◌, ◌++◌, codes, if◌then◌else◌, length, take, drop, is_empty,
}

-- The tokens that are coloured, and the rest.
pub data TokenKind : Type 0 where
  keyword string char comment int float imag other : TokenKind

-- One result of `Scan`: the offset of its position, its token with `tok.String()`, and `lit`.
pub record Token : Type 0 where
  pub offset : ℕ
  pub kind : TokenKind
  pub spelling : Bytes
  pub literal : Bytes

-- `colorForToken`.
unfoldable pub color_for_token : TokenKind → Bytes
color_for_token keyword = 27 ∷ codes "[34m"
color_for_token string = 27 ∷ codes "[32m"
color_for_token char = 27 ∷ codes "[32m"
color_for_token comment = 27 ∷ codes "[90m"
color_for_token int = 27 ∷ codes "[35m"
color_for_token float = 27 ∷ codes "[35m"
color_for_token imag = 27 ∷ codes "[35m"
color_for_token other = []

abbrev pub token_text : Token → Bytes
token_text t = if is_empty t.literal then t.spelling else t.literal

-- `src[from:to]`.
abbrev pub slice : Bytes → ℕ → ℕ → Bytes
slice src from to = take (to - from) (drop from src)

unfoldable pub paint : (TokenKind → Bytes) → Token → Bytes
paint color t =
    if is_empty (color t.kind)
    then token_text t
    else color t.kind ++ (token_text t ++ (27 ∷ codes "[0m"))

-- The loop of `highlightGoSource` from offset `prev`; the list ends before the EOF token, after
-- which the rest of the source is written.
unfoldable pub highlight : (TokenKind → Bytes) → Bytes → ℕ → List Token → Bytes
unfolding paint
highlight color src prev [] = drop prev src
highlight color src prev (t ∷ ts) =
    slice src prev t.offset
    ++ (paint color t ++ highlight color src (t.offset + length (token_text t)) ts)

-- `highlightGoSource`; `scan` is go/scanner's.
unfoldable pub highlight_go_source : (Bytes → List Token) → Bytes → Bytes
unfolding highlight color_for_token
highlight_go_source scan src = highlight color_for_token src 0 (scan src)
