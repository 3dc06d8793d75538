-- ===== src/Similarity/Pairs.antt =====
-- `ComputeSimilarityFromFingerprints` of internal/engine/plagiarism.go.
pub mod Laws
use mathlib.Core.List.{List, [], ◌∷◌, ◌++◌, map}
use aut_oscan_engine.Prelude.{
  ℕ, suc, ◌+◌, Bool, true, false, ◌&&◌, Option, none, some, ltb, ◌==◌, if◌then◌else◌, length,
  get_or,
}
use aut_oscan_engine.Prelude.Text.{Bytes, codes}
use aut_oscan_engine.Similarity.{
  Source, CompareConfig, PlagiarismResult, compare_files, without_solution_code,
}

-- A valid print with the index of its submission.
pub record Item : Type 0 where
  pub idx : ℕ
  pub source : Source

pub record SolutionPair : Type 0 where
  pub id : Bytes
  pub result : PlagiarismResult

pub record SimilarityPair : Type 0 where
  pub a : Bytes
  pub b : Bytes
  pub result : PlagiarismResult

pub record SolutionReport : Type 0 where
  pub source : Bytes
  pub pairs : List SolutionPair

pub record SimilarityReport : Type 0 where
  pub source_file : Bytes
  pub pairs : List SimilarityPair
  pub solution : Option SolutionReport

-- The report stands beside the error, whose text names the number of failures.
pub record Outcome : Type 0 where
  pub report : SimilarityReport
  pub failed : Option ℕ

-- The loop over `prints` from index `i`: `none` is a print with an error.
unfoldable pub valid_items : ℕ → List (Option Source) → List Item
valid_items i [] = []
valid_items i (none ∷ ps) = valid_items (i + 1) ps
valid_items i (some s ∷ ps) = record { idx = i; source = s } ∷ valid_items (i + 1) ps

unfoldable pub count_failures : List (Option Source) → ℕ
count_failures [] = 0
count_failures (none ∷ ps) = suc (count_failures ps)
count_failures (some s ∷ ps) = count_failures ps

-- The jobs: each item with each later one.
module _ {ℓ} {A : Type ℓ} where
  unfoldable pub pairs_of : List A → List (A × A)
  pairs_of [] = []
  pairs_of (x ∷ xs) = map (λ y. (x, y)) xs ++ pairs_of xs

-- `base` is filepath.Base; the two sorts are sort.Slice by falling percentage, which leaves the
-- order of equal percentages open.
pub record Library : Type 0 where
  pub base : Bytes → Bytes
  pub sort_pairs : List SimilarityPair → List SimilarityPair
  pub sort_solution : List SolutionPair → List SolutionPair

abbrev pub id_at : List Bytes → ℕ → Bytes
id_at ids i = get_or ids i []

unfoldable pub compare_items : Library → List Bytes → CompareConfig → Item × Item → SimilarityPair
unfolding compare_files
compare_items lib ids cfg (x, y) = record {
  a = id_at ids x.idx;
  b = id_at ids y.idx;
  result =
      compare_files (lib.base (id_at ids x.idx)) (lib.base (id_at ids y.idx)) x.source y.source cfg;
}

unfoldable pub compare_solution :
    Library → List Bytes → CompareConfig → Source → Item → SolutionPair
unfolding compare_files
compare_solution lib ids cfg solution x = record {
  id = id_at ids x.idx;
  result = compare_files (lib.base (id_at ids x.idx)) (codes "solution") x.source solution cfg;
}

-- `solution != nil && solution.TokenCount > 0`.
unfoldable pub usable_solution : Option Source → Option Source
usable_solution none = none
usable_solution (some s) = if ltb 0 s.fp.token_count then some s else none

unfoldable pub strip_solution : CompareConfig → Option Source → Item → Item
unfolding without_solution_code
strip_solution cfg none x = x
strip_solution cfg (some s) x = record x {
  source = record {
    content = x.source.content;
    fp = without_solution_code x.source.fp s.fp cfg.min_match_tokens;
  };
}

unfoldable pub compute_similarity :
    Library → List Bytes → List (Option Source) → Bytes → CompareConfig → Option Source → Outcome
unfolding valid_items count_failures pairs_of compare_items compare_solution usable_solution
    strip_solution
compute_similarity lib ids prints src_file cfg solution =
    let items = valid_items 0 prints in
    let failures = count_failures prints in
    let used = usable_solution solution in
    let solution_report : Option SolutionReport = elim used [
      | none ↦ none
      | some s ↦ some (record {
        source = s.content;
        pairs = lib.sort_solution (map (compare_solution lib ids cfg s) items);
      })
    ] in
    let stripped = map (strip_solution cfg used) items in
    let report : List SimilarityPair → SimilarityReport =
      λ ps. record { source_file = src_file; pairs = ps; solution = solution_report } in
    if ltb (length items) 2
    then record {
      report = report [];
      failed = if ltb 0 failures && length items == 0 then some failures else none;
    }
    else record {
      report = report (lib.sort_pairs (map (compare_items lib ids cfg) (pairs_of stripped)));
      failed = none;
    }
