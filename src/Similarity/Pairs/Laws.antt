-- ===== src/Similarity/Pairs/Laws.antt =====
-- Which pairs of submissions a similarity report compares, and when it fails.
use mathlib.Core.List
use mathlib.Core.List.{
  List, [], ◌∷◌, ◌++◌, map, Mem, Perm, mem-append_left, mem-append_right, mem-map_of_mem,
  mem-cons_self,
}
use mathlib.Core.List.Perm
use native.Mathlib.Bridge.{from_ℕ}
use aut_oscan_engine.Prelude.{
  ℕ, suc, ◌+◌, ◌*◌, ◌≡◌, ◌≤◌, ◌<◌, ◌∙◌, ◌↔◌, refl, sym, ap, Option, none, some, arith, length,
  length-append, length-map,
}
use aut_oscan_engine.Prelude.Text.{Bytes}
use aut_oscan_engine.Similarity.{Source, CompareConfig}
use aut_oscan_engine.Similarity.Pairs.{
  Item, SimilarityPair, Library, Outcome, valid_items, count_failures, pairs_of, compare_items,
  usable_solution, strip_solution, compute_similarity,
}

module _ {ℓ} {A : Type ℓ} where
  length-native : (xs : List A) → length xs ≡ from_ℕ (List.length xs)
  length-native [] = refl
  length-native (x ∷ xs) = ap suc (length-native xs)

  length-perm : (xs ys : List A) → Perm xs ys → length xs ≡ length ys
  length-perm xs ys p = length-native xs ∙ ap from_ℕ (Perm.length-eq p) ∙ sym (length-native ys)

  length-pairs_of : (xs : List A) → 2 * length (pairs_of xs) + length xs ≡ length xs * length xs
  unfolding pairs_of
  length-pairs_of [] = refl
  length-pairs_of (x ∷ xs) = omega (
    arith,
    length-append (map (λ y. (x, y)) xs) (pairs_of xs),
    length-map {B = A × A} (λ y. (x, y)) xs,
    length-pairs_of xs,
  )

  mem-pairs_of_head : (x y : A) (mid rest : List A) → Mem (x, y) (pairs_of (x ∷ (mid ++ y ∷ rest)))
  unfolding pairs_of
  mem-pairs_of_head x y mid rest =
      mem-append_left _ (mem-map_of_mem (λ z. (x, z)) (mem-append_right mid mem-cons_self))

  mem-pairs_of :
      (front mid rest : List A) (x y : A) → Mem (x, y) (pairs_of (front ++ (x ∷ (mid ++ y ∷ rest))))
  unfolding pairs_of
  mem-pairs_of [] mid rest x y = mem-pairs_of_head x y mid rest
  mem-pairs_of (z ∷ front) mid rest x y = mem-append_right _ (mem-pairs_of front mid rest x y)

length-valid_items :
    (i : ℕ) (ps : List (Option Source)) → length (valid_items i ps) + count_failures ps ≡ length ps
unfolding valid_items count_failures
length-valid_items i [] = omega arith
length-valid_items i (none ∷ ps) = omega (arith, length-valid_items (i + 1) ps)
length-valid_items i (some s ∷ ps) = omega (arith, length-valid_items (i + 1) ps)

module _ (lib : Library) (ids : List Bytes) (prints : List (Option Source)) (src_file : Bytes)
    (cfg : CompareConfig) (solution : Option Source) where
  abbrev outcome : Outcome
  outcome = compute_similarity lib ids prints src_file cfg solution

  abbrev pub stripped_items : List Item
  stripped_items = map (strip_solution cfg (usable_solution solution)) (valid_items 0 prints)

  -- The report is an error exactly if every print failed and there is one, and the error then counts
  -- the failures: all of them.
  pub compute_similarity_failed :
      (k : ℕ)
      → (outcome.failed ≡ some k) ↔ ((k ≡ length prints) × (count_failures prints ≡ k) × (0 < k))
  unfolding compute_similarity
  compute_similarity_failed k =
      (ground (arith, length-valid_items 0 prints), ground (arith, length-valid_items 0 prints))

  compute_similarity_pairs :
      2 ≤ length (valid_items 0 prints)
      → outcome.report.pairs
        ≡ lib.sort_pairs (map (compare_items lib ids cfg) (pairs_of stripped_items))
  unfolding compute_similarity
  compute_similarity_pairs h = ground arith

  -- With at least two valid prints, and a sort that permutes, the report compares every valid
  -- submission with every later one, and nothing else: n valid prints give n * (n - 1) / 2 pairs, and
  -- the comparison of each two of them, the solution's code set aside, is among the report's.
  pub compute_similarity_complete :
      ((ps : List SimilarityPair) → Perm (lib.sort_pairs ps) ps)
      → 2 ≤ length (valid_items 0 prints)
      → (2 * length outcome.report.pairs + length (valid_items 0 prints)
          ≡ length (valid_items 0 prints) * length (valid_items 0 prints))
        × ((front mid rest : List Item) (x y : Item)
            → stripped_items ≡ front ++ (x ∷ (mid ++ y ∷ rest))
            → Mem (compare_items lib ids cfg (x, y)) outcome.report.pairs)
  compute_similarity_complete permutes h =
      let jobs = pairs_of stripped_items in
      let same_count =
        length-map (strip_solution cfg (usable_solution solution)) (valid_items 0 prints) in
      let sorted = permutes (map (compare_items lib ids cfg) jobs) in
      (
        omega (
          arith,
          ap length (compute_similarity_pairs h),
          length-perm _ _ sorted,
          length-map (compare_items lib ids cfg) jobs,
          length-pairs_of stripped_items,
          same_count,
          ap (λ (t : ℕ). t * t) same_count,
        ),
        λ front mid rest x y e. rw (compute_similarity_pairs h) (
            (Perm.mem_iff sorted).1 (
              mem-map_of_mem (compare_items lib ids cfg) (rw e (mem-pairs_of front mid rest x y)))),
      )
