-- ===== src/Similarity/Solution.antt =====
-- What `withoutSolutionCode` keeps of a fingerprint.
use aut_oscan_engine.Prelude.{
  ℕ, suc, ◌+◌, ◌≡◌, ◌≤◌, ◌∙◌, refl, Bool, true, false, sym, ap, List, [], ◌∷◌, arith, length,
}
use aut_oscan_engine.Tiling.{token_at, marked, greedy_string_tiling, tiled_tokens}
use aut_oscan_engine.Tiling.Marking.{count_tokens, count_marked}
use aut_oscan_engine.Tiling.Rounds.{covered_a}
use aut_oscan_engine.Tiling.Laws.{
  tiled_tokens_bound, greedy_string_tiling-IsCommon, greedy_string_tiling-Ordered,
}
use aut_oscan_engine.Fingerprint.{FileFingerprint}
use aut_oscan_engine.Fingerprint.Aligned.{IsAligned}
use aut_oscan_engine.Similarity.{clear_tiles, without_solution_code}
use aut_oscan_engine.Similarity.Clearing.{
  IsLive-of_common, Cleared, clear_tiles_lem, token_at-clear_tiles,
}

module _ (fp solution : FileFingerprint) (m : ℕ) (v : IsAligned fp) where
  without :
      Cleared
        (greedy_string_tiling fp.tokens solution.tokens m)
        fp
        (without_solution_code fp solution m)
  unfolding without_solution_code
  without =
      clear_tiles_lem (greedy_string_tiling fp.tokens solution.tokens m) fp
        (greedy_string_tiling-Ordered fp.tokens solution.tokens m).0
        (IsLive-of_common fp.tokens solution.tokens _ _
          (greedy_string_tiling-IsCommon fp.tokens solution.tokens m))
        v.counted

  -- Setting the solution's code aside turns the tokens that are tiled against the solution into
  -- zeros, and no other: each keeps its place and, outside the tiles, its value. The spans stay and the
  -- fingerprint stays aligned, with TokenCount again the number of its nonzero tokens, less by exactly
  -- the tiled ones. Those are at most as many as the solution has, however often its code occurs in the
  -- submission, so further copies of it still count. The fingerprint is aligned before.
  pub without_solution_code_keeps :
      let out = without_solution_code fp solution m in
      let tiles = greedy_string_tiling fp.tokens solution.tokens m in
      ((p : ℕ) → covered_a tiles p ≡ true → token_at out.tokens p ≡ 0)
      × ((p : ℕ) → covered_a tiles p ≡ false → token_at out.tokens p ≡ token_at fp.tokens p)
      × IsAligned out
      × (out.spans ≡ fp.spans)
      × (out.token_count + tiled_tokens tiles ≡ fp.token_count)
      × (fp.token_count ≤ out.token_count + count_tokens solution.tokens)
  unfolding without_solution_code
  without_solution_code_keeps =
      let tiles = greedy_string_tiling fp.tokens solution.tokens m in
      (
        (λ p h. ground (arith, token_at-clear_tiles tiles fp p, h)),
        (λ p h. ground (arith, token_at-clear_tiles tiles fp p, h)),
        record {
          aligned = without.same_length ∙ v.aligned ∙ sym (ap length without.same_spans);
          counted = without.counted;
        },
        without.same_spans,
        without.fewer,
        omega (arith, without.fewer, tiled_tokens_bound fp.tokens solution.tokens m),
      )

count_tokens-le :
    (marks : List Bool) (xs zs : List ℕ)
    → length marks ≡ length xs
    → length xs ≡ length zs
    → ((p : ℕ) → marked marks p ≡ false → token_at zs p ≡ token_at xs p)
    → count_tokens xs ≤ count_tokens zs + count_marked marks
unfolding count_tokens count_marked
count_tokens-le marks [] zs e f h = omega arith
count_tokens-le [] (x ∷ xs) zs e f h = absurd (omega (arith, e))
count_tokens-le (b ∷ marks) (x ∷ xs) [] e f h = absurd (omega (arith, f))
count_tokens-le (b ∷ marks) (x ∷ xs) (z ∷ zs) e f h =
    ground (
      arith,
      count_tokens-le marks xs zs (omega (arith, e)) (omega (arith, f)) (λ p. h (suc p)),
      h 0,
    )

-- Marks that stand at every tiled position are at least as many as the tiled tokens.
pub tiled_tokens-le-count_marked :
    (xs ys : List ℕ) (m : ℕ) (marks : List Bool)
    → length marks ≡ length xs
    → ((p : ℕ) → covered_a (greedy_string_tiling xs ys m) p ≡ true → marked marks p ≡ true)
    → tiled_tokens (greedy_string_tiling xs ys m) ≤ count_marked marks
tiled_tokens-le-count_marked xs ys m marks size h =
    let tiles = greedy_string_tiling xs ys m in
    let fp : FileFingerprint = record {
      tokens = xs;
      spans = [];
      token_count = count_tokens xs;
      function_count = 0;
    } in
    let out =
      clear_tiles_lem tiles fp (greedy_string_tiling-Ordered xs ys m).0
        (IsLive-of_common xs ys _ _ (greedy_string_tiling-IsCommon xs ys m)) refl in
    let missed =
      count_tokens-le marks xs (clear_tiles tiles fp).tokens size (sym out.same_length)
        (λ p n. ground (arith, token_at-clear_tiles tiles fp p, h p)) in
    omega (arith, missed, out.fewer, out.counted)
