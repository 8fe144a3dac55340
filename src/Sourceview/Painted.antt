-- ===== src/Sourceview/Painted.antt =====
-- internal/sourceview/render.go: the colours add to the source and change nothing of it.
use dlvpp.Base.{
  ℕ, ◌+◌, ◌≤◌, ◌≡◌, Bytes, List, [], ◌∷◌, ◌++◌, codes, if◌then◌else◌, length, drop, All, ◌⊎◌, false,
  true, Bool,
}
use Prim.Native.Nat.add
use dlvpp.Sourceview.Highlight.{TokenKind, other, Token, color_for_token, token_text, paint}

-- Tokens in order, each spelled as the source is at its offset. The semicolon that the scanner
-- inserts for a newline is spelled "\n", and is such a token where the source has the newline at
-- its offset; the one that it inserts at the end of a source without a last newline is not.
abbrev pub IsSpelled : Bytes → ℕ → List Token → Type 0
IsSpelled src prev [] = Unit
IsSpelled src prev (t ∷ ts) =
    (prev ≤ t.offset)
    × ((rest : Bytes) × (drop t.offset src ≡ token_text t ++ rest))
    × IsSpelled src (t.offset + length (token_text t)) ts

-- A stretch of the output: text as it is, or text between a colour and the reset.
pub data Piece : Type 0 where
  plain : Bytes → Piece
  colored : Bytes → Bytes → Piece

abbrev pub piece_written : Piece → Bytes
piece_written (plain s) = s
piece_written (colored color s) = color ++ (s ++ (27 ∷ codes "[0m"))

abbrev pub piece_text : Piece → Bytes
piece_text (plain s) = s
piece_text (colored color s) = s

abbrev pub written : List Piece → Bytes
written [] = []
written (p ∷ ps) = piece_written p ++ written ps

abbrev pub text_of : List Piece → Bytes
text_of [] = []
text_of (p ∷ ps) = piece_text p ++ text_of ps

-- Blue, green, gray and magenta.
abbrev pub IsColor : Bytes → Type 0
IsColor color =
    (color ≡ 27 ∷ codes "[34m")
    ⊎ ((color ≡ 27 ∷ codes "[32m") ⊎ ((color ≡ 27 ∷ codes "[90m") ⊎ (color ≡ 27 ∷ codes "[35m")))

abbrev pub HasColor : Piece → Type 0
HasColor (plain s) = Unit
HasColor (colored color s) = IsColor color

-- Keywords, literals and comments.
abbrev pub is_marked : TokenKind → Bool
is_marked other = false
is_marked k = true

abbrev pub marked : List Token → List Bytes
marked [] = []
marked (t ∷ ts) = if is_marked t.kind then token_text t ∷ marked ts else marked ts

abbrev pub colored_texts : List Piece → List Bytes
colored_texts [] = []
colored_texts (plain s ∷ ps) = colored_texts ps
colored_texts (colored color s ∷ ps) = s ∷ colored_texts ps

-- The output is pieces, of which the colours are those four, the text is the source's, and those
-- with a colour are the keywords, literals and comments among the tokens.
pub record IsHighlighted (tokens : List Token) (src out : Bytes) : Type 0 where
  pub pieces : List Piece
  pub writes : out ≡ written pieces
  pub keeps : text_of pieces ≡ src
  pub colors : All HasColor pieces
  pub marks : colored_texts pieces ≡ marked tokens

-- What a token is painted as: a piece with its text, in a colour just where it is marked.
record IsPainted (t : Token) (p : Piece) : Type 0 where
  writes : paint color_for_token t ≡ piece_written p
  keeps : piece_text p ≡ token_text t
  color : HasColor p
  marks :
      (ps : List Piece) (ts : List Token)
      → colored_texts ps ≡ marked ts
      → colored_texts (p ∷ ps) ≡ marked (t ∷ ts)
