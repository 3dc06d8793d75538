-- ===== src/Tests/Matching.antt =====
-- The tiling, fingerprints and similarity at small inputs.
use mathlib.Core.List.{Mem}
use mathlib.Core.List.Perm
use aut_oscan_engine.Prelude.{
  ℕ, zero, suc, ◌+◌, ◌*◌, ◌≡◌, ◌≤◌, ◌<◌, ◌≢◌, refl, List, [], ◌∷◌, ◌++◌, true, false, Option, none,
  some, arith, length, All,
}
use aut_oscan_engine.Prelude.Text.{Bytes, codes}
use aut_oscan_engine.Detection.{
  DictionaryFingerprint, AiDictionaryMatch, compare_submission_to_dictionary,
}
use aut_oscan_engine.Detection.Laws.{total_found, compare_submission_to_dictionary_lem}
use aut_oscan_engine.Tiling.{Marks, token_at, tile_rounds, greedy_string_tiling, tiled_tokens}
use aut_oscan_engine.Tiling.Marking.{count_tokens}
use aut_oscan_engine.Tiling.Rounds.{IsCommon, PairwiseApart, covered_a, covered_b}
use aut_oscan_engine.Tiling.Sorted.{Ordered}
use aut_oscan_engine.Tiling.Laws.{
  greedy_string_tiling-IsCommon, greedy_string_tiling-Ordered, greedy_string_tiling_maximal,
  tile_rounds_total,
}
use aut_oscan_engine.Fingerprint.{Node, node, none_left, child, FileFingerprint, Span}
use aut_oscan_engine.Fingerprint.Collect.{fingerprint_content}
use aut_oscan_engine.Fingerprint.Aligned.{IsAligned, fingerprint_content-IsAligned}
use aut_oscan_engine.Fingerprint.Offsets.{build_line_offsets, byte_to_line_col}
use aut_oscan_engine.Fingerprint.Offsets.Walk.{walk, byte_to_line_col_lem}
use aut_oscan_engine.Similarity.{Source, CompareConfig, without_solution_code}
use aut_oscan_engine.Similarity.Solution.{without_solution_code_keeps}
use aut_oscan_engine.Similarity.Pairs.{
  Item, Library, compare_items, compute_similarity, valid_items,
}
use aut_oscan_engine.Similarity.Pairs.Laws.{stripped_items, compute_similarity_complete}

abbrev first_tokens : List ℕ
first_tokens = 3 ∷ 5 ∷ 7 ∷ 0 ∷ 9 ∷ 11 ∷ []

abbrev second_tokens : List ℕ
second_tokens = 9 ∷ 11 ∷ 0 ∷ 1 ∷ 5 ∷ 7 ∷ 3 ∷ []

greedy_string_tiling-IsCommon_example :
    All (IsCommon first_tokens second_tokens 2) (greedy_string_tiling first_tokens second_tokens 2)
greedy_string_tiling-IsCommon_example = greedy_string_tiling-IsCommon first_tokens second_tokens 2

greedy_string_tiling-Ordered_example :
    Ordered (greedy_string_tiling first_tokens second_tokens 2)
    × PairwiseApart (greedy_string_tiling first_tokens second_tokens 2)
greedy_string_tiling-Ordered_example = greedy_string_tiling-Ordered first_tokens second_tokens 2

common_run :
    (q : ℕ)
    → q < 2
    → (1 + q < 6)
      × (4 + q < 7)
      × (token_at first_tokens (1 + q) ≢ 0)
      × (token_at first_tokens (1 + q) ≡ token_at second_tokens (4 + q))
common_run zero h = (omega arith, omega arith, omega arith, refl)
common_run (suc zero) h = (omega arith, omega arith, omega arith, refl)
common_run (suc (suc q)) h = ground (arith, h)

greedy_string_tiling_maximal_example : ¬ (
    (q : ℕ)
    → q < 2
    → (covered_a (greedy_string_tiling first_tokens second_tokens 2) (1 + q) ≡ false)
      × (covered_b (greedy_string_tiling first_tokens second_tokens 2) (4 + q) ≡ false))
greedy_string_tiling_maximal_example =
    greedy_string_tiling_maximal first_tokens second_tokens 2 1 4 common_run

tile_rounds_total_example : (s : Marks) × (tile_rounds first_tokens second_tokens 2 ≡ some s)
tile_rounds_total_example = tile_rounds_total first_tokens second_tokens 2

-- "int f(){x}" as a tree of one function with a name and a body.
abbrev small_tree : Node
small_tree = node "translation_unit" true 0 10 (
    child
      (node "function_definition" true 0 10 (
        child (node "identifier" true 4 5 none_left)
          (child (node "identifier" true 8 9 none_left) none_left)))
      none_left)

abbrev parse_small : Bytes → Option Node
parse_small b = some small_tree

abbrev no_name : Node → Option Node
no_name n = none

abbrev small_text : Bytes
small_text = codes "int f(){x}"

abbrev small_print : FileFingerprint
small_print = record {
  tokens = 12638186101044013785 ∷ 12638214688346347271 ∷ [];
  spans = record { start = 4; end = 5 } ∷ record { start = 8; end = 9 } ∷ [];
  token_count = 2;
  function_count = 1;
}

small_run : fingerprint_content parse_small no_name small_text 1 ≡ some small_print
unfolding fingerprint_content
small_run = refl

fingerprint_content-IsAligned_example : IsAligned small_print
fingerprint_content-IsAligned_example =
    fingerprint_content-IsAligned parse_small no_name small_text 1 small_print small_run

byte_to_line_col_lem_example :
    byte_to_line_col (build_line_offsets (codes "a\nbc\nd")) 3 ≡ walk 1 1 3 (codes "a\nbc\nd")
byte_to_line_col_lem_example = byte_to_line_col_lem (codes "a\nbc\nd") 3 (omega arith)

abbrev spans_for : ℕ → List Span
spans_for n = record { start = n; end = n + 1 } ∷ record { start = n; end = n + 2 } ∷ []

abbrev two_tokens : FileFingerprint
two_tokens = record {
  tokens = 3 ∷ 5 ∷ [];
  spans = spans_for 0;
  token_count = 2;
  function_count = 1;
}

two_tokens-IsAligned : IsAligned two_tokens
unfolding count_tokens
two_tokens-IsAligned = record { aligned = refl; counted = refl }

abbrev config : CompareConfig
config = record {
  min_match_tokens = 2;
  min_func_tokens = 1;
  score_threshold = record { num = 1; den = 2 };
}

abbrev source : Source
source = record { content = codes "a b"; fp = two_tokens }

-- Its last two tokens are those of the solution.
abbrev three_tokens : FileFingerprint
three_tokens = record {
  tokens = 7 ∷ 3 ∷ 5 ∷ [];
  spans = record { start = 9; end = 10 } ∷ spans_for 0;
  token_count = 3;
  function_count = 1;
}

three_tokens-IsAligned : IsAligned three_tokens
unfolding count_tokens
three_tokens-IsAligned = record { aligned = refl; counted = refl }

without_solution_code_keeps_example :
    let out = without_solution_code three_tokens two_tokens 2 in
    let tiles = greedy_string_tiling (7 ∷ 3 ∷ 5 ∷ []) (3 ∷ 5 ∷ []) 2 in
    ((p : ℕ) → covered_a tiles p ≡ true → token_at out.tokens p ≡ 0)
    × ((p : ℕ) → covered_a tiles p ≡ false → token_at out.tokens p ≡ token_at (7 ∷ 3 ∷ 5 ∷ []) p)
    × IsAligned out
    × (out.spans ≡ three_tokens.spans)
    × (out.token_count + tiled_tokens tiles ≡ 3)
    × (3 ≤ out.token_count + count_tokens (3 ∷ 5 ∷ []))
without_solution_code_keeps_example =
    without_solution_code_keeps three_tokens two_tokens 2 three_tokens-IsAligned

abbrev library : Library
library = record { base = λ s. s; sort_pairs = λ ps. ps; sort_solution = λ ps. ps }

abbrev ids : List Bytes
ids = codes "one" ∷ codes "two" ∷ codes "three" ∷ []

abbrev prints : List (Option Source)
prints = some source ∷ none ∷ some source ∷ []

prints_valid : 2 ≤ length (valid_items 0 prints)
unfolding valid_items
prints_valid = omega arith

compute_similarity_complete_example :
    (2 * length (compute_similarity library ids prints (codes "f.c") config none).report.pairs
        + length (valid_items 0 prints)
      ≡ length (valid_items 0 prints) * length (valid_items 0 prints))
    × ((front mid rest : List Item) (x y : Item)
        → stripped_items library ids prints (codes "f.c") config none
          ≡ front ++ (x ∷ (mid ++ y ∷ rest))
        → Mem
            (compare_items library ids config (x, y))
            (compute_similarity library ids prints (codes "f.c") config none).report.pairs)
compute_similarity_complete_example =
    compute_similarity_complete library ids prints (codes "f.c") config none (λ ps. Perm.refl ps)
      prints_valid

-- A pattern that is the whole submission, and one that is not in it.
abbrev patterns : List DictionaryFingerprint
patterns =
    record {
      entry = record { id = codes "p1"; title = codes "One"; code = codes "a b" };
      fp = two_tokens;
    }
    ∷ record {
      entry = record { id = codes "p2"; title = codes "Two"; code = codes "c d" };
      fp = small_print;
    }
    ∷ []

compare_submission_to_dictionary_lem_example :
    let (matches, covered) = compare_submission_to_dictionary source patterns config in
    (covered ≤ 2)
    × (covered ≤ total_found matches)
    × All (λ (m : AiDictionaryMatch). m.found ≤ covered) matches
compare_submission_to_dictionary_lem_example =
    compare_submission_to_dictionary_lem source patterns config two_tokens-IsAligned
