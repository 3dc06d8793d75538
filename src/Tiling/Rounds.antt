-- ===== src/Tiling/Rounds.antt =====
-- The rounds of the outer loop: what the marks and tiles satisfy between rounds, and that each
-- round marks a new token, so the loop ends.
use aut_oscan_engine.Prelude.{
  ℕ, zero, suc, ◌+◌, ◌-◌, ◌∙◌, ◌≡◌, ◌≤◌, ◌<◌, ◌≢◌, sym, subst, List-cases, Bool, false, ◌||◌, List,
  [], ◌∷◌, ◌++◌, some, arith, length, length-replicate, get_or-replicate, Bool-cases, ◌⊎◌, inl, inr,
  All, All-append,
}
use aut_oscan_engine.Tiling.{
  Tile, Marks, token_at, marked, is_marked, mark_tile, place, place_all, rounds, unmarked,
  tiled_tokens, find_longest,
}
use aut_oscan_engine.Tiling.Marking.{
  in_range, marked-mark_range, length-mark_range, is_marked_free, is_marked_of_free, count_marked,
  count_marked-mark_range, count_marked-replicate, count_marked-le,
}
use aut_oscan_engine.Tiling.Runs.{agrees_parts}
use aut_oscan_engine.Tiling.Search.{IsFree, find_longest-IsFree}

unfoldable pub covered_a : List Tile → ℕ → Bool
covered_a [] p = false
covered_a (t ∷ ts) p = in_range t.a t.length p || covered_a ts p

unfoldable pub covered_b : List Tile → ℕ → Bool
covered_b [] p = false
covered_b (t ∷ ts) p = in_range t.b t.length p || covered_b ts p

-- The ranges of two tiles do not meet, on either side.
pub record Apart (t u : Tile) : Type 0 where
  pub apart_a : (t.a + t.length ≤ u.a) ⊎ (u.a + u.length ≤ t.a)
  pub apart_b : (t.b + t.length ≤ u.b) ⊎ (u.b + u.length ≤ t.b)

abbrev pub PairwiseApart : List Tile → Type 0
PairwiseApart [] = Unit {0}
PairwiseApart (t ∷ ts) = All (Apart t) ts × PairwiseApart ts

-- A common run of nonzero tokens, of at least `m`, in range on both sides.
pub record IsCommon (xs ys : List ℕ) (m : ℕ) (t : Tile) : Type 0 where
  pub long : m ≤ t.length
  pub in_a : t.a + t.length ≤ length xs
  pub in_b : t.b + t.length ≤ length ys
  pub equal :
      (q : ℕ)
      → q < t.length
      → (token_at xs (t.a + q) ≡ token_at ys (t.b + q)) × (token_at xs (t.a + q) ≢ 0)

pub record Inv (xs ys : List ℕ) (m : ℕ) (s : Marks) : Type 0 where
  pub size_a : length s.marked_a ≡ length xs
  pub size_b : length s.marked_b ≡ length ys
  pub covers_a : (p : ℕ) → marked s.marked_a p ≡ covered_a s.tiles p
  pub covers_b : (p : ℕ) → marked s.marked_b p ≡ covered_b s.tiles p
  pub common : All (IsCommon xs ys m) s.tiles
  pub apart : PairwiseApart s.tiles
  pub total_a : count_marked s.marked_a ≡ tiled_tokens s.tiles
  pub total_b : count_marked s.marked_b ≡ tiled_tokens s.tiles

covered_a-concat :
    (ts : List Tile) (f : Tile) (p : ℕ)
    → covered_a (ts ++ (f ∷ [])) p ≡ (in_range f.a f.length p || covered_a ts p)
unfolding covered_a
covered_a-concat [] f p = ground arith
covered_a-concat (t ∷ ts) f p = ground (arith, covered_a-concat ts f p)

covered_b-concat :
    (ts : List Tile) (f : Tile) (p : ℕ)
    → covered_b (ts ++ (f ∷ [])) p ≡ (in_range f.b f.length p || covered_b ts p)
unfolding covered_b
covered_b-concat [] f p = ground arith
covered_b-concat (t ∷ ts) f p = ground (arith, covered_b-concat ts f p)

tiled_tokens-concat :
    (ts : List Tile) (f : Tile) → tiled_tokens (ts ++ (f ∷ [])) ≡ f.length + tiled_tokens ts
unfolding tiled_tokens
tiled_tokens-concat [] f = omega arith
tiled_tokens-concat (t ∷ ts) f = omega (arith, tiled_tokens-concat ts f)

-- Two ranges that share no position lie one after the other.
ranges_apart :
    (s n t k : ℕ)
    → 1 ≤ n
    → 1 ≤ k
    → ((p : ℕ) → t ≤ p → p < t + k → in_range s n p ≡ false)
    → (s + n ≤ t) ⊎ (t + k ≤ s)
ranges_apart s n t k hn hk h = ground (arith, h s, h t)

PairwiseApart-concat :
    (ts : List Tile) (f : Tile)
    → PairwiseApart ts
    → All (λ t. Apart t f) ts
    → PairwiseApart (ts ++ (f ∷ []))
PairwiseApart-concat [] f p h = (tt, tt)
PairwiseApart-concat (t ∷ ts) f p h =
    (All-append (Apart t) ts (f ∷ []) p.0 (h.0, tt), PairwiseApart-concat ts f p.1 h.1)

module _ (xs ys : List ℕ) (m : ℕ) (pos : 1 ≤ m) where
  Apart-of_uncovered :
      (f : Tile) (ts : List Tile)
      → 1 ≤ f.length
      → All (IsCommon xs ys m) ts
      → ((p : ℕ) → f.a ≤ p → p < f.a + f.length → covered_a ts p ≡ false)
      → ((p : ℕ) → f.b ≤ p → p < f.b + f.length → covered_b ts p ≡ false)
      → All (λ t. Apart t f) ts
  unfolding covered_a covered_b
  Apart-of_uncovered f [] n c ha hb = tt
  Apart-of_uncovered f (t ∷ ts) n c ha hb =
      let long = c.0.long in
      (
        record {
          apart_a =
              ranges_apart t.a t.length f.a f.length (omega arith) n
                (λ p lo hi. ground (arith, ha p));
          apart_b =
              ranges_apart t.b t.length f.b f.length (omega arith) n
                (λ p lo hi. ground (arith, hb p));
        },
        Apart-of_uncovered f ts n c.1 (λ p lo hi. ground (arith, ha p))
            (λ p lo hi. ground (arith, hb p)),
      )

  IsCommon-of_free : (mx my : List Bool) (f : Tile) → IsFree xs ys mx my m f → IsCommon xs ys m f
  IsCommon-of_free mx my f h =
      let last = f.length - 1 in
      let end =
        agrees_parts xs ys mx my (f.a + last) (f.b + last)
          (h.agreeing last (omega (arith, h.long, pos))) in
      record {
        long = h.long;
        in_a = omega (arith, end.0, h.long, pos);
        in_b = omega (arith, end.1, h.long, pos);
        equal = λ q lt.
            let at = agrees_parts xs ys mx my (f.a + q) (f.b + q) (h.agreeing q lt) in (at.3, at.2);
      }

  mark_tile-Inv :
      (f : Tile) (s : Marks)
      → is_marked s.marked_a f.a f.length ≡ false
      → is_marked s.marked_b f.b f.length ≡ false
      → IsCommon xs ys m f
      → Inv xs ys m s
      → Inv xs ys m (mark_tile f s)
  mark_tile-Inv f s free_a free_b c v = record {
    size_a = length-mark_range s.marked_a f.a f.length ∙ v.size_a;
    size_b = length-mark_range s.marked_b f.b f.length ∙ v.size_b;
    covers_a = λ p. ground (
      arith,
      marked-mark_range s.marked_a f.a f.length p,
      covered_a-concat s.tiles f p,
      v.covers_a p,
    );
    covers_b = λ p. ground (
      arith,
      marked-mark_range s.marked_b f.b f.length p,
      covered_b-concat s.tiles f p,
      v.covers_b p,
    );
    common = All-append (IsCommon xs ys m) s.tiles (f ∷ []) v.common (c, tt);
    apart = PairwiseApart-concat s.tiles f v.apart (
        Apart-of_uncovered f s.tiles (omega (arith, c.long)) v.common
          (λ p lo hi. sym (v.covers_a p) ∙ is_marked_free s.marked_a f.a f.length p free_a lo hi)
          (λ p lo hi. sym (v.covers_b p) ∙ is_marked_free s.marked_b f.b f.length p free_b lo hi));
    total_a = omega (
      arith,
      count_marked-mark_range s.marked_a f.a f.length (omega (arith, v.size_a, c.in_a)) free_a,
      tiled_tokens-concat s.tiles f,
      v.total_a,
    );
    total_b = omega (
      arith,
      count_marked-mark_range s.marked_b f.b f.length (omega (arith, v.size_b, c.in_b)) free_b,
      tiled_tokens-concat s.tiles f,
      v.total_b,
    );
  }

  place-Inv : (f : Tile) (s : Marks) → IsCommon xs ys m f → Inv xs ys m s → Inv xs ys m (place f s)
  unfolding place
  place-Inv f s c v = elim (Bool-cases (is_marked s.marked_a f.a f.length)) [
    | inl e ↦ rw e v
    | inr e ↦ elim (Bool-cases (is_marked s.marked_b f.b f.length)) [
      | inl e' ↦ rw (e, e') v
      | inr e' ↦ rw (e, e') (mark_tile-Inv f s e e' c v)
    ]
  ]

  place_all-Inv :
      (fs : List Tile) (s : Marks)
      → All (IsCommon xs ys m) fs
      → Inv xs ys m s
      → Inv xs ys m (place_all fs s)
  unfolding place_all
  place_all-Inv [] s c v = v
  place_all-Inv (f ∷ fs) s c v = place_all-Inv fs (place f s) c.1 (place-Inv f s c.0 v)

  count-place : (f : Tile) (s : Marks) → tiled_tokens s.tiles ≤ tiled_tokens (place f s).tiles
  unfolding place
  count-place f s = ground (arith, tiled_tokens-concat s.tiles f)

  count-place_all :
      (fs : List Tile) (s : Marks) → tiled_tokens s.tiles ≤ tiled_tokens (place_all fs s).tiles
  unfolding place_all
  count-place_all [] s = omega arith
  count-place_all (f ∷ fs) s = omega (arith, count-place f s, count-place_all fs (place f s))

  unmarked_of_free :
      (mx my : List Bool) (f : Tile) (p q : ℕ)
      → IsFree xs ys mx my m f
      → q < f.length
      → (f.a + q ≡ p → marked mx p ≡ false) × (f.b + q ≡ p → marked my p ≡ false)
  unmarked_of_free mx my f p q h lt =
      let at = agrees_parts xs ys mx my (f.a + q) (f.b + q) (h.agreeing q lt) in
      (λ e. subst (λ x. marked mx x ≡ false) e at.4, λ e. subst (λ x. marked my x ≡ false) e at.5)

  -- The first candidate of a round is always placed.
  place_free :
      (f : Tile) (s : Marks)
      → IsFree xs ys s.marked_a s.marked_b m f
      → tiled_tokens s.tiles < tiled_tokens (place f s).tiles
  unfolding place
  place_free f s h =
      let at = unmarked_of_free s.marked_a s.marked_b f in
      ground (
        arith,
        h.long,
        tiled_tokens-concat s.tiles f,
        is_marked_of_free s.marked_a f.a f.length
            (λ p lo hi. (at p (p - f.a) h (omega arith)).0 (omega arith)),
        is_marked_of_free s.marked_b f.b f.length
            (λ p lo hi. (at p (p - f.b) h (omega arith)).1 (omega arith)),
      )

  round_progress :
      (f : Tile) (fs : List Tile) (s : Marks)
      → IsFree xs ys s.marked_a s.marked_b m f
      → tiled_tokens s.tiles < tiled_tokens (place_all (f ∷ fs) s).tiles
  unfolding place_all
  round_progress f fs s h = omega (arith, place_free f s h, count-place_all fs (place f s))

  All-IsCommon :
      (mx my : List Bool) (fs : List Tile)
      → All (IsFree xs ys mx my m) fs
      → All (IsCommon xs ys m) fs
  All-IsCommon mx my [] h = tt
  All-IsCommon mx my (f ∷ fs) h = (IsCommon-of_free mx my f h.0, All-IsCommon mx my fs h.1)

  tiled_tokens-le : (s : Marks) → Inv xs ys m s → tiled_tokens s.tiles ≤ length xs
  tiled_tokens-le s v = omega (arith, v.total_a, v.size_a, count_marked-le s.marked_a)

  -- With one unit of fuel for each token that may still be marked, and one more, the loop ends,
  -- the invariant holds, and the last round found nothing.
  pub rounds_end :
      (fuel : ℕ) (s : Marks)
      → length xs < fuel + tiled_tokens s.tiles
      → Inv xs ys m s
      → (r : Marks) × (rounds fuel xs ys m s ≡ some r)
        × Inv xs ys m r
        × (find_longest xs ys r.marked_a r.marked_b m ≡ [])
  unfolding rounds
  rounds_end zero s h v = absurd (omega (arith, tiled_tokens-le s v))
  rounds_end (suc fuel) s h v = elim (List-cases (find_longest xs ys s.marked_a s.marked_b m)) [
    | inl e ↦ (s, rw (e, rounds), v, e)
    | inr (f, fs, e) ↦
        let found = find_longest xs ys s.marked_a s.marked_b m in
        let free = find_longest-IsFree xs ys s.marked_a s.marked_b m in
        let more : tiled_tokens s.tiles < tiled_tokens (place_all found s).tiles =
          rw e (round_progress f fs s (rw e at free).0) in
        let (r, done, inv, none_left) =
          rounds_end fuel (place_all found s) (omega (arith, h, more))
            (place_all-Inv found s (All-IsCommon s.marked_a s.marked_b found free) v) in
        (r, rw (e, rounds) done, inv, none_left)
  ]

  pub unmarked-Inv : Inv xs ys m (unmarked xs ys)
  unfolding covered_a covered_b tiled_tokens
  unmarked-Inv = record {
    size_a = length-replicate (length xs) false;
    size_b = length-replicate (length ys) false;
    covers_a = λ p. get_or-replicate (length xs) p false;
    covers_b = λ p. get_or-replicate (length ys) p false;
    common = tt;
    apart = tt;
    total_a = count_marked-replicate (length xs);
    total_b = count_marked-replicate (length ys);
  }
