-- ===== src/Tiling/Laws.antt =====
-- What `greedyStringTiling` returns.
use aut_oscan_engine.Prelude.{
  ℕ, ◌+◌, ◌-◌, ◌∙◌, ◌≡◌, ◌≤◌, ◌<◌, ◌≢◌, sym, ap, subst, Bool-cases, inl, inr, true, false, List, [],
  ◌∷◌, some, arith, length, All,
}
use aut_oscan_engine.Tiling.{
  Tile, Marks, token_at, marked, at_least_one, tile_rounds, greedy_string_tiling, sort_tiles,
  tiled_tokens, unmarked,
}
use aut_oscan_engine.Tiling.Marking.{count_tokens, count_marked-le-count_tokens, in_range}
use aut_oscan_engine.Tiling.Runs.{agrees_of_parts, le-run_length}
use aut_oscan_engine.Tiling.Search.{find_longest_complete}
use aut_oscan_engine.Tiling.Rounds.{
  IsCommon, Inv, PairwiseApart, covered_a, covered_b, rounds_end, unmarked-Inv,
}
use aut_oscan_engine.Tiling.Sorted.{
  Ordered, Ordered-sort_tiles, All-sort_tiles, PairwiseApart-sort_tiles, tiled_tokens-sort_tiles,
  covered_a-sort_tiles, covered_b-sort_tiles,
}

module _ (xs ys : List ℕ) (m : ℕ) where
  in_tile_nonzero :
      (t : Tile) (p q : ℕ)
      → IsCommon xs ys m t
      → q < t.length
      → (t.a + q ≡ p → token_at xs p ≢ 0) × (t.b + q ≡ p → token_at ys p ≢ 0)
  in_tile_nonzero t p q c lt =
      let here = c.equal q lt in
      (
        λ e. subst (λ x. token_at xs x ≢ 0) e here.1,
        λ e. subst (λ x. token_at ys x ≢ 0) e (λ z. here.1 (here.0 ∙ z)),
      )

  covered_nonzero_a :
      (ts : List Tile) (p : ℕ)
      → All (IsCommon xs ys m) ts
      → covered_a ts p ≡ true
      → token_at xs p ≢ 0
  unfolding covered_a
  covered_nonzero_a [] p c h = cc
  covered_nonzero_a (t ∷ ts) p c h = elim (Bool-cases (in_range t.a t.length p)) [
    | inl e ↦ (in_tile_nonzero t p (p - t.a) c.0 (ground arith)).0 (ground arith)
    | inr e ↦ covered_nonzero_a ts p c.1 (ground arith)
  ]

  covered_nonzero_b :
      (ts : List Tile) (p : ℕ)
      → All (IsCommon xs ys m) ts
      → covered_b ts p ≡ true
      → token_at ys p ≢ 0
  unfolding covered_b
  covered_nonzero_b [] p c h = cc
  covered_nonzero_b (t ∷ ts) p c h = elim (Bool-cases (in_range t.b t.length p)) [
    | inl e ↦ (in_tile_nonzero t p (p - t.b) c.0 (ground arith)).1 (ground arith)
    | inr e ↦ covered_nonzero_b ts p c.1 (ground arith)
  ]

module _ (xs ys : List ℕ) (m : ℕ) where
  abbrev limit : ℕ
  limit = at_least_one m

  limit_pos : 1 ≤ limit
  limit_pos = ground arith

  record Finished : Type 0 where
    last : Marks
    ends : tile_rounds xs ys m ≡ some last
    result : greedy_string_tiling xs ys m ≡ sort_tiles last.tiles
    inv : Inv xs ys limit last
    exhausted :
        (i j : ℕ)
        → (agreeing : (q : ℕ)
            → q < limit
            → (i + q < length xs)
              × (j + q < length ys)
              × (token_at xs (i + q) ≢ 0)
              × (token_at xs (i + q) ≡ token_at ys (j + q))
              × (marked last.marked_a (i + q) ≡ false)
              × (marked last.marked_b (j + q) ≡ false))
        → ⊥

  finished : Finished
  unfolding greedy_string_tiling tile_rounds
  finished =
      let (r, done, inv, none_left) =
        rounds_end xs ys limit limit_pos (length xs + 1) (unmarked xs ys) (omega arith)
          (unmarked-Inv xs ys limit limit_pos) in
      record {
        last = r;
        ends = done;
        result = rw (done, greedy_string_tiling);
        inv = inv;
        exhausted = λ i j h.
            let short =
              find_longest_complete xs ys r.marked_a r.marked_b limit i j limit_pos none_left in
            let long = le-run_length xs ys r.marked_a r.marked_b i j limit (λ q lt.
              let p = h q lt in
              agrees_of_parts xs ys r.marked_a r.marked_b (i + q) (j + q) p.0 p.1 p.2 p.3 p.4
                p.5) in
            omega (arith, short, long);
      }

  -- The loop of greedyStringTiling ends for all token lists and every minimum length: the fuel of
  -- the model, one round more than there are tokens in `a`, never runs out.
  pub tile_rounds_total : (s : Marks) × (tile_rounds xs ys m ≡ some s)
  tile_rounds_total = (finished.last, finished.ends)

  -- Every tile is a common run: at least max(minMatch, 1) tokens long, inside both lists, and equal and
  -- nonzero at each of its positions, so that no tile runs over a function boundary.
  pub greedy_string_tiling-IsCommon :
      All (IsCommon xs ys (at_least_one m)) (greedy_string_tiling xs ys m)
  greedy_string_tiling-IsCommon =
      rw finished.result
        (All-sort_tiles (IsCommon xs ys limit) finished.last.tiles finished.inv.common)

  -- No token is matched twice: the tiles' ranges are pairwise disjoint in `a` and in `b`, and the
  -- tiles come in order of their place in `a`, each ending before the next begins.
  pub greedy_string_tiling-Ordered :
      Ordered (greedy_string_tiling xs ys m) × PairwiseApart (greedy_string_tiling xs ys m)
  greedy_string_tiling-Ordered = rw finished.result (
    Ordered-sort_tiles xs ys limit limit_pos finished.last.tiles finished.inv.common
        finished.inv.apart,
    PairwiseApart-sort_tiles finished.last.tiles finished.inv.apart,
  )

  -- The tiling is maximal: wherever max(minMatch, 1) equal nonzero tokens in a row lie in range in
  -- both lists, some position of the run is covered by a tile in `a` or in `b`.
  pub greedy_string_tiling_maximal :
      (i j : ℕ)
      → ((q : ℕ)
          → q < at_least_one m
          → (i + q < length xs)
            × (j + q < length ys)
            × (token_at xs (i + q) ≢ 0)
            × (token_at xs (i + q) ≡ token_at ys (j + q)))
      → ¬ (
          (q : ℕ)
          → q < at_least_one m
          → (covered_a (greedy_string_tiling xs ys m) (i + q) ≡ false)
            × (covered_b (greedy_string_tiling xs ys m) (j + q) ≡ false))
  greedy_string_tiling_maximal i j h free = finished.exhausted i j (λ q lt.
      let p = h q lt in
      let f = rw finished.result at (free q lt) in
      (
        p.0,
        p.1,
        p.2,
        p.3,
        finished.inv.covers_a (i + q)
            ∙ sym (covered_a-sort_tiles finished.last.tiles (i + q))
            ∙ f.0,
        finished.inv.covers_b (j + q)
            ∙ sym (covered_b-sort_tiles finished.last.tiles (j + q))
            ∙ f.1,
      ))

  -- The matched tokens are at most the nonzero tokens of either list, so a similarity of
  -- 2 * matched / (tokens of a + tokens of b) is at most 1.
  pub tiled_tokens_bound :
      (tiled_tokens (greedy_string_tiling xs ys m) ≤ count_tokens xs)
      × (tiled_tokens (greedy_string_tiling xs ys m) ≤ count_tokens ys)
  tiled_tokens_bound =
      let r = finished.last in
      let v = finished.inv in
      let sorted = ap tiled_tokens finished.result ∙ tiled_tokens-sort_tiles r.tiles in
      (
        omega (
          arith,
          sorted,
          v.total_a,
          count_marked-le-count_tokens r.marked_a xs v.size_a
              (λ p h. covered_nonzero_a xs ys limit r.tiles p v.common (sym (v.covers_a p) ∙ h)),
        ),
        omega (
          arith,
          sorted,
          v.total_b,
          count_marked-le-count_tokens r.marked_b ys v.size_b
              (λ p h. covered_nonzero_b xs ys limit r.tiles p v.common (sym (v.covers_b p) ∙ h)),
        ),
      )
