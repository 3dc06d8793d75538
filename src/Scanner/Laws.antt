-- ===== src/Scanner/Laws.antt =====
-- What the scan for banned calls reports.
use mathlib.Core.List.{Mem, mem-append_left, mem-append_right, mem-cons_self}
use text.Mathlib.Text.{◌==◌ as str_eq}
use aut_oscan_engine.Prelude.{
  ℕ, zero, suc, ◌+◌, ◌≡◌, ◌≢◌, ◌≤◌, ◌⊎◌, inl, inr, sym, Bool, true, false, ◌||◌, List, [], ◌∷◌,
  Option, none, some, Bool-cases, Option-cases, not-none-eq-some, some_eq, subst, arith, All,
  All-append,
}
use aut_oscan_engine.Prelude.Text.{codes, bytes_eq, bytes_eq_iff, has_prefix}
use aut_oscan_engine.Fingerprint.{Node, node, Nodes, none_left, child, kind, children}
use aut_oscan_engine.Policy.{mem_seen, ban_pthread_attributes}
use aut_oscan_engine.Report.{BannedHit}
use aut_oscan_engine.Scanner.{
  Scan, called_name, call_snippet, is_banned_call, check_called, check_call_expression, check_type,
  node_hits, walk_tree, walk_children, nth_child, is_macro,
}

-- A hit that the policy justifies: its function is banned by name, or is one of the pthread
-- attributes while these are banned.
abbrev pub IsJustified : Scan → BannedHit → Type 0
IsJustified e h =
    (h.file ≡ e.file_name)
    × (1 ≤ h.line)
    × (h.function ≢ [])
    × ((mem_seen e.banned_set h.function ≡ true)
        ⊎ ((ban_pthread_attributes e.constructs ≡ true)
            × (has_prefix h.function (codes "pthread_attr_") ≡ true)))

check_called-IsJustified :
    (e : Scan) (macro : Bool) (f : Option Node) → All (IsJustified e) (check_called e macro f)
unfolding check_called is_banned_call
check_called-IsJustified e macro none = tt
check_called-IsJustified e macro (some f) =
    ground (arith, bytes_eq_iff (called_name e.content f) [])

check_type-IsJustified :
    (e : Scan) (macro : Bool) (n : Node) → All (IsJustified e) (check_type e macro n)
unfolding check_type has_prefix
check_type-IsJustified e macro n = ground arith

node_hits-IsJustified :
    (e : Scan) (macro : Bool) (n : Node) → All (IsJustified e) (node_hits e macro n)
unfolding node_hits check_call_expression
node_hits-IsJustified e macro n = elim (Bool-cases (str_eq (kind n) "call_expression")) [
  | inl c ↦ rw c (
      All-append (IsJustified e) (check_called e macro (nth_child (children n) 0))
        (check_type e macro n) (check_called-IsJustified e macro (nth_child (children n) 0))
        (check_type-IsJustified e macro n))
  | inr c ↦ rw c (check_type-IsJustified e macro n)
]

mutual
  unfolding walk_tree walk_children

  tree-IsJustified :
      (e : Scan) (macro : Bool) (n : Node) → All (IsJustified e) (walk_tree e macro n)
  tree-IsJustified e macro (node k named start end cs) =
      All-append (IsJustified e) (node_hits e macro (node k named start end cs))
        (walk_children e (macro || is_macro k) cs)
        (node_hits-IsJustified e macro (node k named start end cs))
        (children-IsJustified e (macro || is_macro k) cs)

  children-IsJustified :
      (e : Scan) (macro : Bool) (ns : Nodes) → All (IsJustified e) (walk_children e macro ns)
  children-IsJustified e macro none_left = tt
  children-IsJustified e macro (child n ns) =
      All-append (IsJustified e) (walk_tree e macro n) (walk_children e macro ns)
        (tree-IsJustified e macro n) (children-IsJustified e macro ns)

-- The node that a path of child numbers leads to, and whether it is inside a macro.
pub descend : Bool → Node → List ℕ → Option (Bool × Node)
descend macro n [] = some (macro, n)
descend macro n (i ∷ path) = elim (nth_child (children n) i) [
  | none ↦ none
  | some c ↦ descend (macro || is_macro (kind n)) c path
]

mem-walk_children :
    (e : Scan) (macro : Bool) (ns : Nodes) (i : ℕ) (c : Node) (h : BannedHit)
    → nth_child ns i ≡ some c
    → Mem h (walk_tree e macro c)
    → Mem h (walk_children e macro ns)
unfolding walk_children
mem-walk_children e macro none_left i c h found m = absurd (not-none-eq-some found)
mem-walk_children e macro (child n ns) zero c h found m =
    mem-append_left _ (subst (λ x. Mem h (walk_tree e macro x)) (sym (some_eq found)) m)
mem-walk_children e macro (child n ns) (suc i) c h found m =
    mem-append_right (walk_tree e macro n) (mem-walk_children e macro ns i c h found m)

mem-walk_tree :
    (e : Scan) (macro : Bool) (n : Node) (path : List ℕ) (inside : Bool) (t : Node) (h : BannedHit)
    → descend macro n path ≡ some (inside, t)
    → Mem h (node_hits e inside t)
    → Mem h (walk_tree e macro n)
unfolding walk_tree descend
mem-walk_tree e macro (node k named start end cs) [] inside t h found m =
    mem-append_left _ (subst (λ x. Mem h (node_hits e x.0 x.1)) (sym (some_eq found)) m)
mem-walk_tree e macro (node k named start end cs) (i ∷ path) inside t h found m =
    elim (Option-cases (nth_child cs i)) [
      | inl none_there ↦ absurd (not-none-eq-some (rw (descend, none_there) at found))
      | inr (c, there) ↦ mem-append_right (node_hits e macro (node k named start end cs)) (
          mem-walk_children e (macro || is_macro k) cs i c h there (
            mem-walk_tree e (macro || is_macro k) c path inside t h (rw (descend, there) at found)
              m))
    ]

-- A hit on a call, by its function's node.
abbrev pub call_hit : Scan → Node → BannedHit
call_hit e f = record {
  function = called_name e.content f;
  file = e.file_name;
  line = (e.point f).0 + 1;
  column = (e.point f).1 + 1;
  snippet = call_snippet e.lines (e.point f).0;
}

call_hit-node_hits :
    (e : Scan) (inside : Bool) (t f : Node)
    → str_eq (kind t) "call_expression" ≡ true
    → nth_child (children t) 0 ≡ some f
    → called_name e.content f ≢ []
    → is_banned_call e inside (called_name e.content f) ≡ true
    → Mem (call_hit e f) (node_hits e inside t)
unfolding node_hits check_call_expression check_called
call_hit-node_hits e inside t f call first named banned =
    let unnamed : bytes_eq (called_name e.content f) [] ≡ false =
      ground (arith, bytes_eq_iff (called_name e.content f) [], named) in
    rw (call, first, unnamed, banned)
      (mem-append_left (check_type e inside t) (mem-cons_self {l = []}))

-- A scan of a tree reports only what the policy justifies: every hit has the file's name, a line
-- from 1 on, and a function that is banned by its name, or that is one of the pthread attributes
-- where the policy bans these. And it misses no call: wherever in the tree a path of children
-- leads to a call whose function has a name that is banned there, the hit on this call, at the
-- place of its function, is among the hits.
pub walk_tree-IsJustified :
    (e : Scan) (root : Node)
    → All (IsJustified e) (walk_tree e false root)
      × ((path : List ℕ) (inside : Bool) (t f : Node)
          → descend false root path ≡ some (inside, t)
          → str_eq (kind t) "call_expression" ≡ true
          → nth_child (children t) 0 ≡ some f
          → called_name e.content f ≢ []
          → is_banned_call e inside (called_name e.content f) ≡ true
          → Mem (call_hit e f) (walk_tree e false root))
walk_tree-IsJustified e root = (
  tree-IsJustified e false root,
  λ path inside t f found call first named banned.
      mem-walk_tree e false root path inside t (call_hit e f) found
        (call_hit-node_hits e inside t f call first named banned),
)
