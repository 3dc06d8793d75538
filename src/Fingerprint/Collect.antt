-- ===== src/Fingerprint/Collect.antt =====
-- The walks over the tree, and `fingerprintContent` of internal/engine/fingerprint.go.
use Prim.Native.String.{String}
use text.Mathlib.Text.{◌==◌ as str_eq}
use aut_oscan_engine.Prelude.{
  ℕ, ◌+◌, Bool, false, ◌&&◌, ◌||◌, List, [], ◌∷◌, ◌++◌, Option, none, some, ltb, if◌then◌else◌,
  length,
}
use aut_oscan_engine.Prelude.Text.{Bytes, codes, bytes_eq}
use aut_oscan_engine.Fingerprint.{
  Node, node, Nodes, none_left, child, Token, Span, FileFingerprint, kind_in, content_of,
  has_children, push_text, structure_marker, normalize_token, hash_token,
}

unfoldable mutual
  -- `collectFunctionDefs`: the outermost function definitions.
  pub function_defs : Node → List Node
  function_defs (node k named start end cs) =
      if str_eq k "function_definition" then node k named start end cs ∷ [] else function_defs_in cs

  pub function_defs_in : Nodes → List Node
  function_defs_in none_left = []
  function_defs_in (child n ns) = function_defs n ++ function_defs_in ns

unfoldable pub declaring_parent : String → Bool
declaring_parent k = kind_in k (
    "init_declarator" ∷ "function_declarator" ∷ "pointer_declarator" ∷ "array_declarator"
    ∷ "parenthesized_declarator" ∷ "parameter_declaration" ∷ "declaration" ∷ "field_declaration"
    ∷ "type_definition" ∷ "enumerator" ∷ "struct_specifier" ∷ "union_specifier" ∷ "enum_specifier"
    ∷ [])

unfoldable pub is_declaring : Option String → Bool
unfolding declaring_parent
is_declaring none = false
is_declaring (some parent) = declaring_parent parent

-- What one node adds to the declared names; `name` is its child by the field "name".
unfoldable pub declared_here : Bytes → Option String → Option Node → Node → List Bytes
unfolding is_declaring
declared_here content parent name (node k named start end cs) =
    if kind_in k ("preproc_def" ∷ "preproc_function_def" ∷ [])
    then elim name [ none ↦ [] | some n ↦ content_of content n ∷ [] ]
    else if kind_in k ("identifier" ∷ "field_identifier" ∷ "type_identifier" ∷ [])
        && is_declaring parent
    then content_of content (node k named start end cs) ∷ []
    else []

-- `collectDeclaredNames`, as the list of names put into the map.
unfoldable mutual
  unfolding declared_here

  pub declared_names : (Node → Option Node) → Bytes → Option String → Node → List Bytes
  declared_names name_field content parent (node k named start end cs) =
      let n = node k named start end cs in
      declared_here content parent (name_field n) n ++ declared_names_in name_field content k cs

  pub declared_names_in : (Node → Option Node) → Bytes → String → Nodes → List Bytes
  declared_names_in name_field content parent none_left = []
  declared_names_in name_field content parent (child n ns) =
      declared_names name_field content (some parent) n
      ++ declared_names_in name_field content parent ns

unfoldable pub mem_bytes : List Bytes → Bytes → Bool
unfolding bytes_eq
mem_bytes [] b = false
mem_bytes (x ∷ xs) b = bytes_eq b x || mem_bytes xs b

-- `normalizeTokens`, as the list of tokens appended.
unfoldable mutual
  unfolding structure_marker normalize_token has_children

  pub normalize_tokens : Bytes → (Bytes → Bool) → Option String → Node → List Token
  normalize_tokens content declared parent (node k named start end cs) =
      if str_eq k "comment"
      then []
      else if kind_in k ("string_literal" ∷ "concatenated_string" ∷ [])
      then push_text (codes "@STR") start end
      else if str_eq k "char_literal"
      then push_text (codes "@CHAR") start end
      else if has_children cs
      then push_text (structure_marker parent k) start (start + 1)
        ++ normalize_children content declared k cs
      else push_text (normalize_token content declared (node k named start end cs)) start end

  pub normalize_children : Bytes → (Bytes → Bool) → String → Nodes → List Token
  normalize_children content declared parent none_left = []
  normalize_children content declared parent (child n ns) =
      normalize_tokens content declared (some parent) n
      ++ normalize_children content declared parent ns

unfoldable pub hashes : List Token → List ℕ
unfolding hash_token
hashes [] = []
hashes (t ∷ ts) = hash_token t.text ∷ hashes ts

unfoldable pub token_spans : List Token → List Span
token_spans [] = []
token_spans (t ∷ ts) = record { start = t.start; end = t.end } ∷ token_spans ts

abbrev pub separator : List ℕ → List ℕ
separator [] = []
separator (t ∷ ts) = 0 ∷ []

abbrev pub separator_span : List ℕ → List Span
separator_span [] = []
separator_span (t ∷ ts) = record { start = 0; end = 0 } ∷ []

-- The body of the loop over functions.
unfoldable pub add_function : ℕ → List Token → FileFingerprint → FileFingerprint
unfolding hashes token_spans
add_function min_func_tokens tokens fp =
    if ltb (length tokens) min_func_tokens then fp else record {
      tokens = fp.tokens ++ (separator fp.tokens ++ hashes tokens);
      spans = fp.spans ++ (separator_span fp.tokens ++ token_spans tokens);
      token_count = fp.token_count + length tokens;
      function_count = fp.function_count + 1;
    }

-- A function's parent is not read for its own marker: no marker goes with its kind.
unfoldable pub add_functions :
    Bytes → (Bytes → Bool) → ℕ → List Node → FileFingerprint → FileFingerprint
unfolding add_function normalize_tokens normalize_children
add_functions content declared min_func_tokens [] fp = fp
add_functions content declared min_func_tokens (n ∷ ns) fp =
    add_functions content declared min_func_tokens ns
      (add_function min_func_tokens (normalize_tokens content declared none n) fp)

abbrev pub empty_fingerprint : FileFingerprint
empty_fingerprint = record { tokens = []; spans = []; token_count = 0; function_count = 0 }

-- `parse` and `name_field` are tree-sitter's.
unfoldable pub fingerprint_content :
    (Bytes → Option Node) → (Node → Option Node) → Bytes → ℕ → Option FileFingerprint
unfolding add_functions function_defs function_defs_in declared_names declared_names_in mem_bytes
fingerprint_content parse name_field content min_func_tokens = elim (parse content) [
  | none ↦ none
  | some root ↦ some (
      add_functions content (mem_bytes (declared_names name_field content none root))
        min_func_tokens (function_defs root) empty_fingerprint)
]
