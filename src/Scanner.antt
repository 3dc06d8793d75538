-- ===== src/Scanner.antt =====
-- The search for banned calls of internal/engine/scanner.go: walkTree and checkCallExpression over
-- the syntax trees of Fingerprint. The place of a node in the source is a parameter. That
-- a node is inside a macro, which insideMacro of ai_style.go finds by its parents, is handed down. That a line of the source is missing where a call begins gives the
-- empty snippet; where the type begins it does not arise, since the parser read these lines.
pub mod Laws
use Prim.Native.String.{String}
use text.Mathlib.Text.{◌==◌ as str_eq}
use aut_oscan_engine.Prelude.{
  ℕ, zero, suc, ◌+◌, Bool, true, false, not, ◌&&◌, ◌||◌, List, [], ◌∷◌, ◌++◌, Option, none, some,
  ltb, if◌then◌else◌, length, get_or, take,
}
use aut_oscan_engine.Prelude.Text.{Bytes, codes, bytes_eq, has_prefix, trim_space}
use aut_oscan_engine.Fingerprint.{
  Node, node, Nodes, none_left, child, kind, kind_in, children, content_of,
}
use aut_oscan_engine.Policy.{BannedConstructs, ban_pthread_attributes, mem_seen}
use aut_oscan_engine.Report.{BannedHit}

-- A scan engine with the file that it scans: its name, its content and its lines.
pub record Scan : Type 0 where
  pub banned_set : List Bytes
  pub constructs : BannedConstructs
  pub point : Node → ℕ × ℕ
  pub content : Bytes
  pub lines : List Bytes
  pub file_name : Bytes

abbrev pub nth_child : Nodes → ℕ → Option Node
nth_child none_left i = none
nth_child (child n ns) zero = some n
nth_child (child n ns) (suc i) = nth_child ns i

-- The name of a field expression's field: its third child, if that is an identifier of a field.
abbrev pub field_name : Bytes → Option Node → Bytes
field_name content none = []
field_name content (some f) =
    if str_eq (kind f) "field_identifier" then content_of content f else []

-- The name that a call calls, or the empty text.
unfoldable pub called_name : Bytes → Node → Bytes
called_name content f =
    if str_eq (kind f) "identifier"
    then content_of content f
    else if str_eq (kind f) "field_expression"
    then field_name content (nth_child (children f) 2)
    else []

unfoldable pub call_snippet : List Bytes → ℕ → Bytes
unfolding trim_space
call_snippet lines row =
    let s = trim_space (get_or lines row []) in
    if ltb row (length lines)
    then (if ltb 80 (length s) then take 77 s ++ codes "..." else s)
    else []

-- Whether the name of a call is banned.
unfoldable pub is_banned_call : Scan → Bool → Bytes → Bool
unfolding mem_seen ban_pthread_attributes has_prefix
is_banned_call e macro name =
    mem_seen e.banned_set name
    || (ban_pthread_attributes e.constructs && has_prefix name (codes "pthread_attr_") && not macro)

unfoldable pub check_called : Scan → Bool → Option Node → List BannedHit
unfolding called_name is_banned_call call_snippet bytes_eq
check_called e macro none = []
check_called e macro (some f) =
    let name = called_name e.content f in
    if bytes_eq name []
    then []
    else if is_banned_call e macro name
    then record {
      function = name;
      file = e.file_name;
      line = (e.point f).0 + 1;
      column = (e.point f).1 + 1;
      snippet = call_snippet e.lines (e.point f).0;
    }
      ∷ []
    else []

unfoldable pub check_call_expression : Scan → Bool → Node → List BannedHit
unfolding check_called
check_call_expression e macro call = check_called e macro (nth_child (children call) 0)

abbrev pub pthread_attr_t : Bytes
pthread_attr_t = codes "pthread_attr_t"

unfoldable pub check_type : Scan → Bool → Node → List BannedHit
unfolding ban_pthread_attributes bytes_eq trim_space
check_type e macro n =
    if ban_pthread_attributes e.constructs
      && str_eq (kind n) "type_identifier"
      && bytes_eq (content_of e.content n) pthread_attr_t
      && not macro
    then record {
      function = pthread_attr_t;
      file = e.file_name;
      line = (e.point n).0 + 1;
      column = (e.point n).1 + 1;
      snippet = trim_space (get_or e.lines (e.point n).0 []);
    }
      ∷ []
    else []

abbrev pub is_macro : String → Bool
is_macro k = kind_in k ("preproc_function_def" ∷ "preproc_def" ∷ [])

-- The hits of one node, without those of its children.
unfoldable pub node_hits : Scan → Bool → Node → List BannedHit
unfolding check_call_expression check_type
node_hits e macro n =
    (if str_eq (kind n) "call_expression" then check_call_expression e macro n else [])
    ++ check_type e macro n

unfoldable mutual
  unfolding node_hits

  pub walk_tree : Scan → Bool → Node → List BannedHit
  walk_tree e macro (node k named start end cs) =
      node_hits e macro (node k named start end cs) ++ walk_children e (macro || is_macro k) cs

  pub walk_children : Scan → Bool → Nodes → List BannedHit
  walk_children e macro none_left = []
  walk_children e macro (child n ns) = walk_tree e macro n ++ walk_children e macro ns
