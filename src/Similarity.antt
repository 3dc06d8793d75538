-- ===== src/Similarity.antt =====
-- internal/engine/plagiarism.go, with tileSpan, extractSnippet and convertSpans of
-- internal/engine/fingerprint.go and the result types of pkg/domain/plagiarism.go. A float64 score
-- is the exact fraction that the code divides out. The calls that run in parallel write one place
-- of a slice each, so they are a map over it.
pub mod Snippet
pub mod Scores
pub mod Pairs
pub mod Clearing
pub mod Solution
use mathlib.Core.Bool.{cond}
use mathlib.Core.List.{List, [], ◌∷◌, ◌++◌, map}
use aut_oscan_engine.Prelude.{
  ℕ, zero, suc, ◌+◌, ◌-◌, ◌*◌, Bool, true, false, ◌&&◌, Option, none, some, ltb, leb, ◌==◌,
  if◌then◌else◌, length, get_or, set, take, drop,
}
use aut_oscan_engine.Prelude.Text.{Bytes, codes, trim_space}
use aut_oscan_engine.Tiling.{Tile, greedy_string_tiling, tiled_tokens}
use aut_oscan_engine.Fingerprint.{Span, FileFingerprint}
use aut_oscan_engine.Fingerprint.Offsets.{build_line_offsets, byte_to_line_col}

pub record Ratio : Type 0 where
  pub num : ℕ
  pub den : ℕ

pub record CompareConfig : Type 0 where
  pub min_match_tokens : ℕ
  pub min_func_tokens : ℕ
  pub score_threshold : Ratio

pub record MatchSpan : Type 0 where
  pub start_line : ℕ
  pub start_col : ℕ
  pub end_line : ℕ
  pub end_col : ℕ
  pub snippet : Bytes

-- The two numbers of the `Hash` text "t%d-%d".
pub record TileMatch : Type 0 where
  pub hash_a : ℕ
  pub hash_b : ℕ
  pub spans_a : List MatchSpan
  pub spans_b : List MatchSpan

pub record PlagiarismResult : Type 0 where
  pub file_a : Bytes
  pub file_b : Bytes
  pub similarity_percent : Ratio
  pub flagged : Bool
  pub matches : List TileMatch

-- A source beside its fingerprint: the `Content` field.
pub record Source : Type 0 where
  pub content : Bytes
  pub fp : FileFingerprint

-- `strings.ReplaceAll(s, "\n", " ")`.
unfoldable pub newlines_to_spaces : Bytes → Bytes
newlines_to_spaces = map (λ b. if b == b'\n' then b' ' else b)

unfoldable pub shorten : Bytes → ℕ → Bytes
shorten raw max = if leb (length raw) max then raw else take (max - 3) raw ++ codes "..."

-- Offsets are unsigned, so `start < 0` does not arise.
unfoldable pub extract_snippet : Bytes → ℕ → ℕ → ℕ → Bytes
unfolding trim_space newlines_to_spaces shorten
extract_snippet content start end max =
    let end' = if ltb (length content) end then length content else end in
    if leb end' start
    then []
    else shorten (trim_space (newlines_to_spaces (take (end' - start) (drop start content)))) max

unfoldable pub convert_span : Bytes → Span → MatchSpan
unfolding byte_to_line_col build_line_offsets extract_snippet
convert_span content sp =
    let offsets = build_line_offsets content in
    let start = byte_to_line_col offsets sp.start in
    let end = byte_to_line_col offsets sp.end in
    record {
      start_line = start.0;
      start_col = start.1;
      end_line = end.0;
      end_col = end.1;
      snippet = extract_snippet content sp.start sp.end 80;
    }

abbrev pub convert_spans : Bytes → List Span → List MatchSpan
convert_spans content = map (convert_span content)

abbrev pub span_at : List Span → ℕ → Span
span_at spans i = get_or spans i (record { start = 0; end = 0 })

unfoldable pub tile_span : FileFingerprint → ℕ → ℕ → Span
tile_span fp start n = record {
  start = (span_at fp.spans start).start;
  end = (span_at fp.spans (start + n - 1)).end;
}

unfoldable pub tile_matches : Source → Source → List Tile → List TileMatch
unfolding tile_span convert_span
tile_matches a b = map λ t. record {
  hash_a = t.a;
  hash_b = t.b;
  spans_a = convert_spans a.content (tile_span a.fp t.a t.length ∷ []);
  spans_b = convert_spans b.content (tile_span b.fp t.b t.length ∷ []);
}

-- 2 * matched / total, and 0 for no tokens at all.
unfoldable pub similarity_score : FileFingerprint → FileFingerprint → ℕ → Ratio
unfolding greedy_string_tiling tiled_tokens
similarity_score a b min_match =
    let matched = tiled_tokens (greedy_string_tiling a.tokens b.tokens min_match) in
    let total = a.token_count + b.token_count in
    if ltb 0 total then record { num = 2 * matched; den = total } else record { num = 0; den = 1 }

-- `score >= threshold`, multiplied out.
unfoldable pub reaches : Ratio → Ratio → Bool
reaches score threshold = leb (threshold.num * score.den) (score.num * threshold.den)

unfoldable pub compare_files : Bytes → Bytes → Source → Source → CompareConfig → PlagiarismResult
unfolding similarity_score reaches tile_matches
compare_files file_a file_b a b cfg =
    let score = similarity_score a.fp b.fp cfg.min_match_tokens in
    let tiles = greedy_string_tiling a.fp.tokens b.fp.tokens cfg.min_match_tokens in
    record {
      file_a = file_a;
      file_b = file_b;
      similarity_percent = record { num = 100 * score.num; den = score.den };
      flagged = reaches score cfg.score_threshold;
      matches = tile_matches a b tiles;
    }

-- `for k := t.a; k < t.a+t.length; k++ { tokens[k] = 0 }`.
unfoldable pub clear_range : List ℕ → ℕ → ℕ → List ℕ
clear_range tokens start zero = tokens
clear_range tokens start (suc n) = clear_range (set tokens start 0) (start + 1) n

unfoldable pub clear_tiles : List Tile → FileFingerprint → FileFingerprint
unfolding clear_range
clear_tiles [] fp = fp
clear_tiles (t ∷ ts) fp = clear_tiles ts (record fp {
  tokens = clear_range fp.tokens t.a t.length;
  token_count = fp.token_count - t.length;
})

unfoldable pub without_solution_code : FileFingerprint → FileFingerprint → ℕ → FileFingerprint
unfolding clear_tiles greedy_string_tiling
without_solution_code fp solution min_match =
    clear_tiles (greedy_string_tiling fp.tokens solution.tokens min_match) fp
