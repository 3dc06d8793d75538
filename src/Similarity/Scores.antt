-- ===== src/Similarity/Scores.antt =====
-- Bounds on similarity scores.
use aut_oscan_engine.Prelude.{ℕ, ◌*◌, ◌≤◌, ◌<◌, arith}
use aut_oscan_engine.Prelude.Text.{Bytes}
use aut_oscan_engine.Tiling.Laws.{tiled_tokens_bound}
use aut_oscan_engine.Fingerprint.{FileFingerprint}
use aut_oscan_engine.Fingerprint.Aligned.{IsAligned}
use aut_oscan_engine.Similarity.{Source, CompareConfig, similarity_score, compare_files}

score_bound :
    (a b : FileFingerprint) (m : ℕ)
    → IsAligned a
    → IsAligned b
    → let s = similarity_score a b m in (s.num ≤ s.den) × (0 < s.den)
unfolding similarity_score
score_bound a b m va vb =
    ground (arith, tiled_tokens_bound a.tokens b.tokens m, va.counted, vb.counted)

-- Between fingerprints whose TokenCount is the number of their nonzero tokens, the similarity is a
-- fraction with a positive denominator and lies between 0 and 100 percent.
pub compare_files_bound :
    (file_a file_b : Bytes) (a b : Source) (cfg : CompareConfig)
    → IsAligned a.fp
    → IsAligned b.fp
    → let p = (compare_files file_a file_b a b cfg).similarity_percent in
      (p.num ≤ 100 * p.den) × (0 < p.den)
unfolding compare_files
compare_files_bound file_a file_b a b cfg va vb =
    omega (arith, score_bound a.fp b.fp cfg.min_match_tokens va vb)
