-- ===== src/Fingerprint.antt =====
-- Fingerprints of C sources: internal/engine/fingerprint.go above the tiling, and
-- `FileFingerprint` of pkg/domain/plagiarism.go. The parser is tree-sitter; a node is what the
-- code reads of it, and its content is the bytes between its offsets.
pub mod Collect
pub mod Aligned
pub mod Offsets
use Prim.Native.Nat.{bit_xor}
use Prim.Native.String.{String}
use text.Mathlib.Text.{◌==◌ as str_eq}
use aut_oscan_engine.Prelude.{
  ℕ, zero, suc, ◌+◌, ◌-◌, ◌*◌, ◌/◌, ◌%◌, ◌^◌, ◌≡◌, refl, Bool, true, false, not, ◌&&◌, ◌||◌, List,
  [], ◌∷◌, ◌++◌, Option, none, some, map, ltb, ◌==◌, if◌then◌else◌, length, take, drop,
}
use aut_oscan_engine.Prelude.Text.{Bytes, codes, bytes_eq, one_of, trim_space}

mutual
  pub data Node : Type 0 where
    node : String → Bool → ℕ → ℕ → Nodes → Node

  pub data Nodes : Type 0 where
    none_left : Nodes
    child : Node → Nodes → Nodes

abbrev pub kind : Node → String
kind (node k named start end cs) = k

abbrev pub is_named : Node → Bool
is_named (node k named start end cs) = named

abbrev pub start_byte : Node → ℕ
start_byte (node k named start end cs) = start

abbrev pub end_byte : Node → ℕ
end_byte (node k named start end cs) = end

abbrev pub children : Node → Nodes
children (node k named start end cs) = cs

abbrev pub content_of : Bytes → Node → Bytes
content_of content n = take (end_byte n - start_byte n) (drop (start_byte n) content)

abbrev pub kind_in : String → List String → Bool
kind_in k [] = false
kind_in k (s ∷ ss) = str_eq k s || kind_in k ss

pub record Token : Type 0 where
  pub text : Bytes
  pub start : ℕ
  pub end : ℕ

pub record Span : Type 0 where
  pub start : ℕ
  pub end : ℕ

-- `Content` and `LineOffsets` are kept beside it: they are the source and `build_line_offsets`.
pub record FileFingerprint : Type 0 where
  pub tokens : List ℕ
  pub spans : List Span
  pub token_count : ℕ
  pub function_count : ℕ

unfoldable pub is_punctuation : Bytes → Bool
unfolding one_of
is_punctuation raw = one_of raw ("(" ∷ ")" ∷ "{" ∷ "}" ∷ "[" ∷ "]" ∷ ";" ∷ "," ∷ "." ∷ "->" ∷ [])

unfoldable pub normalize_operator : Bytes → Option Bytes
unfolding one_of
normalize_operator raw =
    if one_of raw ("=" ∷ "+=" ∷ "-=" ∷ "*=" ∷ "/=" ∷ "%=" ∷ "<<=" ∷ ">>=" ∷ "&=" ∷ "|=" ∷ "^=" ∷ [])
    then some (codes "@ASSIGN")
    else if one_of raw ("++" ∷ "--" ∷ [])
    then some (codes "@INCDEC")
    else if one_of raw ("+" ∷ "-" ∷ "*" ∷ "/" ∷ "%" ∷ [])
    then some (codes "@ARITH")
    else if one_of raw ("==" ∷ "!=" ∷ "<" ∷ "<=" ∷ ">" ∷ ">=" ∷ [])
    then some (codes "@CMP")
    else if one_of raw ("&&" ∷ "||" ∷ "!" ∷ [])
    then some (codes "@LOGIC")
    else if one_of raw ("&" ∷ "|" ∷ "^" ∷ "~" ∷ "<<" ∷ ">>" ∷ [])
    then some (codes "@BIT")
    else if one_of raw ("?" ∷ ":" ∷ [])
    then some (codes "@TERNARY")
    else if one_of raw ("for" ∷ "while" ∷ "do" ∷ [])
    then some (codes "@LOOP")
    else none

-- The set `declared` is a test on names.
unfoldable pub normalize_token : Bytes → (Bytes → Bool) → Node → Bytes
unfolding is_punctuation normalize_operator trim_space
normalize_token content declared n =
    let raw = trim_space (content_of content n) in
    if bytes_eq raw []
    then []
    else if not (is_named n) && is_punctuation raw
    then []
    else if kind_in (kind n) ("identifier" ∷ "field_identifier" ∷ "type_identifier" ∷ [])
    then (if declared raw then codes "@ID" else raw)
    else if str_eq (kind n) "number_literal"
    then codes "@NUM"
    else elim (normalize_operator raw) [ some token ↦ token | none ↦ raw ]

-- The parent's kind, where the node has a parent.
unfoldable pub structure_marker : Option String → String → Bytes
structure_marker none k = []
structure_marker (some parent) k =
    if str_eq k "parameter_list" && str_eq parent "function_declarator"
    then codes "@PARAMS"
    else if str_eq k "compound_statement" && str_eq parent "function_definition"
    then codes "@BODY"
    else []

-- The token appended at the end, `if text != ""`.
abbrev pub push_text : Bytes → ℕ → ℕ → List Token
push_text [] start end = []
push_text (c ∷ text) start end = record { text = c ∷ text; start = start; end = end } ∷ []

-- A node with no children is a leaf.
unfoldable pub has_children : Nodes → Bool
has_children none_left = false
has_children (child n ns) = true

-- FNV-1a, 64 bits, with the lowest bit set.
unfoldable pub fnv_from : ℕ → Bytes → ℕ
fnv_from h [] = h
fnv_from h (b ∷ bs) = fnv_from (bit_xor h b * 1099511628211 % 2 ^ 64) bs

unfoldable pub hash_token : Bytes → ℕ
unfolding fnv_from
hash_token text = fnv_from 14695981039346656037 text / 2 * 2 + 1
