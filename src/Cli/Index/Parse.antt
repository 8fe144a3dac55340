-- ===== src/Cli/Index/Parse.antt =====
-- cmd/dlvpp/source_index.go: what is read of a source file, over what go/parser finds.
use dlvpp.Base.{
  ℕ, Bytes, Bool, List, [], ◌∷◌, ◌++◌, Option, none, some, codes, if◌then◌else◌, has_prefix, split,
}
use dlvpp.Base.Fault.{Result, ok, err, wrapped}
use dlvpp.Cli.Comments.{is_breakpoint_comment, resolve_breakpoint_target_line}

-- The modification time and the size that `os.Stat` reports.
pub record Stamp : Type 0 where
  pub mod_time : ℕ
  pub size : ℕ

-- A `*ast.FuncDecl`: its name, `types.ExprString` of the receiver's type, and its line.
pub record FuncDecl : Type 0 where
  pub name : Option Bytes
  pub receiver : Option Bytes
  pub line : ℕ

-- A comment with the lines of its start and its end.
pub record SourceComment : Type 0 where
  pub literal : Bytes
  pub line : ℕ
  pub end_line : ℕ

-- The declarations that are functions, in order, and the comments of all groups.
pub record SyntaxTree : Type 0 where
  pub name : Option Bytes
  pub functions : List FuncDecl
  pub comments : List SourceComment

-- The files as they are at one time: `filepath.Clean`, `os.Stat`, `parser.ParseFile` and `os.ReadFile`.
pub record Disk : Type 0 where
  pub clean : Bytes → Bytes
  pub stat : Bytes → Result Stamp
  pub parse : Bytes → Result SyntaxTree
  pub read : Bytes → Result Bytes

pub data SymbolKind : Type 0 where
  function method : SymbolKind

pub record SymbolInfo : Type 0 where
  pub name : Bytes
  pub qualified : Bytes
  pub kind : SymbolKind
  pub receiver : Bytes
  pub line : ℕ
  pub is_test : Bool

pub record BreakpointMarker : Type 0 where
  pub line : ℕ
  pub target_line : ℕ
  pub raw : Bytes

pub record SourceFileInfo : Type 0 where
  pub path : Bytes
  pub package_name : Bytes
  pub symbols : List SymbolInfo
  pub markers : List BreakpointMarker

abbrev symbol_of : Bytes → Bytes → Option Bytes → ℕ → SymbolInfo
symbol_of pkg name none line = record {
  name = name;
  qualified = pkg ++ (codes "." ++ name);
  kind = function;
  receiver = [];
  line = line;
  is_test = has_prefix name (codes "Test");
}
symbol_of pkg name (some receiver) line = record {
  name = name;
  qualified = receiver ++ (codes "." ++ name);
  kind = method;
  receiver = receiver;
  line = line;
  is_test = has_prefix name (codes "Test");
}

abbrev onto_symbols : Bytes → FuncDecl → Option Bytes → List SymbolInfo → List SymbolInfo
onto_symbols pkg f none symbols = symbols
onto_symbols pkg f (some name) symbols = symbol_of pkg name f.receiver f.line ∷ symbols

-- `collectSymbols`.
unfoldable pub collect_symbols : Bytes → List FuncDecl → List SymbolInfo
unfolding has_prefix
collect_symbols pkg [] = []
collect_symbols pkg (f ∷ fs) = onto_symbols pkg f f.name (collect_symbols pkg fs)

-- `collectBreakpointMarkers`.
unfoldable pub collect_breakpoint_markers : List Bytes → List SourceComment → List BreakpointMarker
unfolding is_breakpoint_comment resolve_breakpoint_target_line
collect_breakpoint_markers lines [] = []
collect_breakpoint_markers lines (c ∷ cs) =
    let rest = collect_breakpoint_markers lines cs in
    let target = resolve_breakpoint_target_line lines c.end_line in
    if is_breakpoint_comment c.literal
    then record { line = c.line; target_line = target; raw = c.literal } ∷ rest
    else rest

-- `readSourceLines`.
unfoldable pub read_source_lines : Bytes → Result Bytes → Result (List Bytes)
read_source_lines path (err e) =
    err (wrapped (codes "read source file " ++ (path ++ codes ": ")) e [])
read_source_lines path (ok content) = ok (split content 10)

abbrev package_of : Option Bytes → Bytes
package_of none = []
package_of (some name) = name

abbrev info_of : Bytes → SyntaxTree → Result (List Bytes) → Result SourceFileInfo
info_of path file (err e) = err e
info_of path file (ok lines) = ok (record {
  path = path;
  package_name = package_of file.name;
  symbols = collect_symbols (package_of file.name) file.functions;
  markers = collect_breakpoint_markers lines file.comments;
})

abbrev from_tree : Disk → Bytes → Result SyntaxTree → Result SourceFileInfo
from_tree disk path (err e) =
    err (wrapped (codes "parse source file " ++ (path ++ codes ": ")) e [])
from_tree disk path (ok file) = info_of path file (read_source_lines path (disk.read path))

-- `parseSourceFile`.
unfoldable pub parse_source_file : Disk → Bytes → Result SourceFileInfo
unfolding collect_symbols collect_breakpoint_markers read_source_lines
parse_source_file disk path = from_tree disk path (disk.parse path)
