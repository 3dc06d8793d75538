-- ===== src/Tests/Scans.antt =====
-- The scan for banned calls at a small tree.
use mathlib.Core.List.{Mem}
use text.Mathlib.Text.{◌==◌ as str_eq}
use aut_oscan_engine.Prelude.{ℕ, ◌≡◌, ◌≢◌, refl, List, [], ◌∷◌, Bool, true, false, none, some, All}
use aut_oscan_engine.Prelude.Text.{codes}
use aut_oscan_engine.Fingerprint.{Node, node, none_left, child, kind, children}
use aut_oscan_engine.Scanner.{Scan, called_name, is_banned_call, nth_child, walk_tree}
use aut_oscan_engine.Scanner.Laws.{IsJustified, call_hit, descend, walk_tree-IsJustified}

-- "gets(x)" in the file a.c, with gets banned.
abbrev call_tree : Node
call_tree = node "translation_unit" true 0 7 (
    child (node "call_expression" true 0 7 (child (node "identifier" true 0 4 none_left) none_left))
      none_left)

abbrev gets_scan : Scan
gets_scan = record {
  banned_set = codes "gets" ∷ [];
  constructs = record {
    variable_length_arrays = none;
    initialized_arrays = none;
    pthread_attributes = none;
  };
  point = λ n. (0, 0);
  content = codes "gets(x)";
  lines = codes "gets(x)" ∷ [];
  file_name = codes "a.c";
}

gets_hit :
    walk_tree gets_scan false call_tree
    ≡ record {
      function = codes "gets";
      file = codes "a.c";
      line = 1;
      column = 1;
      snippet = codes "gets(x)";
    }
      ∷ []
unfolding walk_tree
gets_hit = refl

walk_tree-IsJustified_example :
    All (IsJustified gets_scan) (walk_tree gets_scan false call_tree)
    × ((path : List ℕ) (inside : Bool) (t f : Node)
        → descend false call_tree path ≡ some (inside, t)
        → str_eq (kind t) "call_expression" ≡ true
        → nth_child (children t) 0 ≡ some f
        → called_name gets_scan.content f ≢ []
        → is_banned_call gets_scan inside (called_name gets_scan.content f) ≡ true
        → Mem (call_hit gets_scan f) (walk_tree gets_scan false call_tree))
walk_tree-IsJustified_example = walk_tree-IsJustified gets_scan call_tree
