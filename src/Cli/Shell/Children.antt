-- ===== src/Cli/Shell/Children.antt =====
-- cmd/dlvpp/screens.go: the locals of the current frame, their expanded children, and the path of a
-- local that is named. The recursion goes on only below a path that is wanted, and a path is longer
-- than its parent's: the fuel is the length of the longest wanted path.
pub mod Depth
pub mod Remembered
use dlvpp.Base.{
  ℕ, zero, suc, max, Bytes, Bool, false, not, List, [], ◌∷◌, ◌++◌, Option, none, some, map, codes,
  eqb, ◌||◌, if◌then◌else◌, is_empty, length, take, contains, split, join,
}
use dlvpp.Base.Int.{is_positive}
use dlvpp.Base.Fault.{Error, text, Result, ok, err}
use dlvpp.Base.Proc.{Proc, after}
use dlvpp.Backend.{Frame, Variable}
use dlvpp.Sourceview.{concat}
use dlvpp.Cli.View.{ViewState}
use dlvpp.Cli.View.Inspections.{frame_of}
use dlvpp.Cli.Locals.{filter_displayed_locals, join_local_path}
use dlvpp.Cli.Locals.Trees.{Expanded, Match, find_visible_local_matches}
use dlvpp.Cli.Shell.{Runner, Env, Shell, call, prefixed}

-- `_, ok := wanted[path]`.
unfoldable pub is_wanted : List Bytes → Bytes → Bool
is_wanted [] path = false
is_wanted (p ∷ paths) path = eqb p path || is_wanted paths path

unfoldable pub longest_path : List Bytes → ℕ
longest_path [] = 0
longest_path (p ∷ paths) = max (length p) (longest_path paths)

-- `wanted[path] = struct{}{}`.
unfoldable pub want : Bytes → List Bytes → List Bytes
unfolding is_wanted
want path paths = if is_wanted paths path then paths else path ∷ paths

-- The loop of `rememberExpandedLocalPath`, up to a number of parts.
unfoldable pub remember_parts : ℕ → List Bytes → List Bytes → List Bytes
unfolding want
remember_parts zero parts paths = paths
remember_parts (suc i) parts paths =
    want (join (take (suc i) parts) (codes ".")) (remember_parts i parts paths)

-- `rememberExpandedLocalPath`.
unfoldable pub remember_expanded_local_path : Bytes → ViewState → ViewState
unfolding remember_parts
remember_expanded_local_path path v =
    let parts = split path 46 in
    if is_empty path
    then v
    else record v { expanded_locals = remember_parts (length parts) parts v.expanded_locals }

-- `findLocalByName`.
unfoldable pub find_local_by_name : List Variable → Bytes → Option Variable
unfolding eqb
find_local_by_name [] name = none
find_local_by_name (local ∷ locals) name =
    if eqb local.name name then some local else find_local_by_name locals name

-- A loop over locals that adds to the map and ends at the first error.
unfoldable pub collect_all :
    {S : Type 0}
    → (Variable → Expanded → Proc S Expanded)
    → List Variable
    → Expanded
    → Proc S Expanded
collect_all f [] expanded s = (ok expanded, s)
collect_all f (local ∷ locals) expanded s = after (f local expanded s) (collect_all f locals)

module _ {R : Type 0} (env : Env) (runner : Runner R) where
  unfoldable pub locals_at : Option Frame → Proc (Shell R) (List Variable)
  unfolding call
  locals_at none s = (err (text (codes "locals: no current frame")), s)
  locals_at (some f) s = prefixed (codes "locals: ") (call (runner.locals f.ref) s)

  -- `fetchLocals`.
  unfoldable pub fetch_locals : Proc (Shell R) (List Variable)
  unfolding locals_at
  fetch_locals s = locals_at (frame_of s.view.current_snapshot) s

  unfoldable pub children_of : Variable → Bytes → Proc (Shell R) (List Variable)
  unfolding call
  children_of local path s =
      prefixed (concat (codes "locals: expand " ∷ path ∷ codes ": " ∷ []))
        (call (runner.children local.reference) s)

  -- `collectExpandedLocals`.
  unfoldable pub collect_expanded_locals :
      ℕ → List Bytes → Bytes → Variable → Expanded → Proc (Shell R) Expanded
  unfolding is_wanted children_of collect_all
  collect_expanded_locals zero wanted path local expanded s = (ok expanded, s)
  collect_expanded_locals (suc n) wanted path local expanded s =
      if not (is_wanted wanted path)
      then (ok expanded, s)
      else if not (is_positive local.reference)
      then (ok expanded, s)
      else after (children_of local path s) (λ children.
        collect_all
          (λ child. collect_expanded_locals n wanted (join_local_path path child.name) child)
          (filter_displayed_locals children).0 ((path, children) ∷ expanded))

  -- `expandedLocals`; nil is the empty map.
  unfoldable pub expanded_locals : List Variable → Proc (Shell R) Expanded
  unfolding collect_expanded_locals longest_path
  expanded_locals locals s =
      let wanted = s.view.expanded_locals in
      if is_empty wanted
      then (ok [], s)
      else collect_all
          (λ local. collect_expanded_locals (suc (longest_path wanted)) wanted local.name local)
          (filter_displayed_locals locals).0 [] s

  abbrev pub unknown_local : Bytes → Error
  unknown_local name = text (codes "expand: unknown local " ++ env.quote name)

  abbrev pub ambiguous_local : Bytes → List Match → Error
  ambiguous_local name matches = text (
      concat (
        codes "expand: ambiguous local "
        ∷ env.quote name
        ∷ codes " ("
        ∷ join (map (λ m. m.path) matches) (codes ", ")
        ∷ codes ")"
        ∷ []))

  unfoldable pub only_match : Bytes → List Match → Result Match
  only_match name [] = err (unknown_local name)
  only_match name (m ∷ []) = ok m
  only_match name (m ∷ m' ∷ ms) = err (ambiguous_local name (m ∷ m' ∷ ms))

  -- What `findLocalByName` found under a path, as the local to go on with.
  abbrev pub found_under : Bytes → Bytes → Option Variable → Result Match
  found_under name path none = err (unknown_local name)
  found_under name path (some local) =
      ok (record { path = join_local_path path local.name; variable = local })

  -- The loop of `resolveLocalPathBySegments`.
  unfoldable pub follow_segments : Bytes → List Bytes → Match → Proc (Shell R) Match
  unfolding find_local_by_name children_of
  follow_segments name [] m s = (ok m, s)
  follow_segments name (part ∷ parts) m s =
      if not m.variable.has_children || not (is_positive m.variable.reference)
      then (err (unknown_local name), s)
      else after (children_of m.variable m.path s) (λ children s'.
        after
          (
            found_under name m.path (find_local_by_name (filter_displayed_locals children).0 part),
            s',
          )
          (follow_segments name parts))

  unfoldable pub from_first : Bytes → List Variable → List Bytes → Proc (Shell R) Match
  unfolding follow_segments find_local_by_name
  from_first name locals [] s = (err (unknown_local name), s)
  from_first name locals (part ∷ parts) s =
      after (found_under name [] (find_local_by_name (filter_displayed_locals locals).0 part), s)
        (follow_segments name parts)

  -- `resolveLocalPathBySegments`.
  unfoldable pub resolve_local_path_by_segments : List Variable → Bytes → Proc (Shell R) Match
  unfolding from_first
  resolve_local_path_by_segments locals name = from_first name locals (split name 46)

  -- `resolveLocalPath`.
  unfoldable pub resolve_local_path : List Variable → Bytes → Proc (Shell R) Match
  unfolding resolve_local_path_by_segments expanded_locals find_visible_local_matches only_match
  resolve_local_path locals name s =
      if contains name (codes ".")
      then resolve_local_path_by_segments locals name s
      else after (expanded_locals locals s)
          (λ expanded s'. (only_match name (find_visible_local_matches locals expanded name), s'))
