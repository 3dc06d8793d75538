-- ===== src/Tiling/Sorted.antt =====
-- The final sort keeps what the rounds establish, and puts the tiles in order of `a`.
use aut_oscan_engine.Prelude.{
  ℕ, ◌+◌, ◌≡◌, ◌≤◌, refl, ◌||◌, List, [], ◌∷◌, arith, ltb, inl, inr, All, Bool-cases,
}
use aut_oscan_engine.Tiling.{Tile, insert_tile, sort_tiles, tiled_tokens}
use aut_oscan_engine.Tiling.Marking.{in_range}
use aut_oscan_engine.Tiling.Rounds.{Apart, PairwiseApart, IsCommon, covered_a, covered_b}

-- Each tile ends, in `a`, before every later one begins.
abbrev pub Ordered : List Tile → Type 0
Ordered [] = Unit {0}
Ordered (t ∷ ts) = All (λ (u : Tile). t.a + t.length ≤ u.a) ts × Ordered ts

All-insert_tile :
    (P : Tile → Type 0) (t : Tile) (ts : List Tile) → P t → All P ts → All P (insert_tile t ts)
unfolding insert_tile
All-insert_tile P t [] h hs = (h, tt)
All-insert_tile P t (u ∷ us) h hs = elim (Bool-cases (ltb u.a t.a)) [
  | inl e ↦ rw e (hs.0, All-insert_tile P t us h hs.1)
  | inr e ↦ rw e (h, hs)
]

pub All-sort_tiles : (P : Tile → Type 0) (ts : List Tile) → All P ts → All P (sort_tiles ts)
unfolding sort_tiles
All-sort_tiles P [] h = tt
All-sort_tiles P (t ∷ ts) h = All-insert_tile P t (sort_tiles ts) h.0 (All-sort_tiles P ts h.1)

Apart-sym : (t u : Tile) → Apart t u → Apart u t
Apart-sym t u h = ground arith

All-Apart_sym : (t : Tile) (us : List Tile) → All (λ u. Apart u t) us → All (Apart t) us
All-Apart_sym t [] h = tt
All-Apart_sym t (u ∷ us) h = (Apart-sym u t h.0, All-Apart_sym t us h.1)

PairwiseApart-insert_tile :
    (t : Tile) (ts : List Tile)
    → All (Apart t) ts
    → PairwiseApart ts
    → PairwiseApart (insert_tile t ts)
unfolding insert_tile
PairwiseApart-insert_tile t [] h p = (tt, tt)
PairwiseApart-insert_tile t (u ∷ us) h p = elim (Bool-cases (ltb u.a t.a)) [
  | inl e ↦ rw e (
    All-insert_tile (Apart u) t us (Apart-sym t u h.0) p.0,
    PairwiseApart-insert_tile t us h.1 p.1,
  )
  | inr e ↦ rw e (h, p)
]

pub PairwiseApart-sort_tiles : (ts : List Tile) → PairwiseApart ts → PairwiseApart (sort_tiles ts)
unfolding sort_tiles
PairwiseApart-sort_tiles [] h = tt
PairwiseApart-sort_tiles (t ∷ ts) h =
    PairwiseApart-insert_tile t (sort_tiles ts) (All-sort_tiles (Apart t) ts h.0)
      (PairwiseApart-sort_tiles ts h.1)

tiled_tokens-insert_tile :
    (t : Tile) (ts : List Tile) → tiled_tokens (insert_tile t ts) ≡ t.length + tiled_tokens ts
unfolding insert_tile tiled_tokens
tiled_tokens-insert_tile t [] = refl
tiled_tokens-insert_tile t (u ∷ us) = ground (arith, tiled_tokens-insert_tile t us)

pub tiled_tokens-sort_tiles : (ts : List Tile) → tiled_tokens (sort_tiles ts) ≡ tiled_tokens ts
unfolding sort_tiles tiled_tokens
tiled_tokens-sort_tiles [] = refl
tiled_tokens-sort_tiles (t ∷ ts) =
    omega (arith, tiled_tokens-insert_tile t (sort_tiles ts), tiled_tokens-sort_tiles ts)

covered_a-insert_tile :
    (t : Tile) (ts : List Tile) (p : ℕ)
    → covered_a (insert_tile t ts) p ≡ (in_range t.a t.length p || covered_a ts p)
unfolding insert_tile covered_a
covered_a-insert_tile t [] p = refl
covered_a-insert_tile t (u ∷ us) p = ground (arith, covered_a-insert_tile t us p)

pub covered_a-sort_tiles : (ts : List Tile) (p : ℕ) → covered_a (sort_tiles ts) p ≡ covered_a ts p
unfolding sort_tiles covered_a
covered_a-sort_tiles [] p = refl
covered_a-sort_tiles (t ∷ ts) p =
    ground (arith, covered_a-insert_tile t (sort_tiles ts) p, covered_a-sort_tiles ts p)

covered_b-insert_tile :
    (t : Tile) (ts : List Tile) (p : ℕ)
    → covered_b (insert_tile t ts) p ≡ (in_range t.b t.length p || covered_b ts p)
unfolding insert_tile covered_b
covered_b-insert_tile t [] p = refl
covered_b-insert_tile t (u ∷ us) p = ground (arith, covered_b-insert_tile t us p)

pub covered_b-sort_tiles : (ts : List Tile) (p : ℕ) → covered_b (sort_tiles ts) p ≡ covered_b ts p
unfolding sort_tiles covered_b
covered_b-sort_tiles [] p = refl
covered_b-sort_tiles (t ∷ ts) p =
    ground (arith, covered_b-insert_tile t (sort_tiles ts) p, covered_b-sort_tiles ts p)

-- Sorted by `a`, before disjointness is used.
abbrev Ascending : List Tile → Type 0
Ascending [] = Unit {0}
Ascending (t ∷ ts) = All (λ (u : Tile). t.a ≤ u.a) ts × Ascending ts

All-weaken :
    (t u : Tile) (ts : List Tile)
    → t.a ≤ u.a
    → All (λ (w : Tile). u.a ≤ w.a) ts
    → All (λ (w : Tile). t.a ≤ w.a) ts
All-weaken t u [] h hs = tt
All-weaken t u (w ∷ ws) h hs = (omega arith, All-weaken t u ws h hs.1)

Ascending-insert_tile : (t : Tile) (ts : List Tile) → Ascending ts → Ascending (insert_tile t ts)
unfolding insert_tile
Ascending-insert_tile t [] h = (tt, tt)
Ascending-insert_tile t (u ∷ us) h = elim (Bool-cases (ltb u.a t.a)) [
  | inl e ↦ rw e (
    All-insert_tile (λ (w : Tile). u.a ≤ w.a) t us (ground arith) h.0,
    Ascending-insert_tile t us h.1,
  )
  | inr e ↦ rw e ((ground arith, All-weaken t u us (ground arith) h.0), h)
]

Ascending-sort_tiles : (ts : List Tile) → Ascending (sort_tiles ts)
unfolding sort_tiles
Ascending-sort_tiles [] = tt
Ascending-sort_tiles (t ∷ ts) = Ascending-insert_tile t (sort_tiles ts) (Ascending-sort_tiles ts)

module _ (xs ys : List ℕ) (m : ℕ) (pos : 1 ≤ m) where
  before :
      (t : Tile) (ts : List Tile)
      → All (IsCommon xs ys m) ts
      → All (λ (u : Tile). t.a ≤ u.a) ts
      → All (Apart t) ts
      → All (λ (u : Tile). t.a + t.length ≤ u.a) ts
  before t [] c h a = tt
  before t (u ∷ us) c h a =
      let long = c.0.long in let sides = a.0.apart_a in (ground arith, before t us c.1 h.1 a.1)

  Ordered-of_Ascending :
      (ts : List Tile) → All (IsCommon xs ys m) ts → Ascending ts → PairwiseApart ts → Ordered ts
  Ordered-of_Ascending [] c h a = tt
  Ordered-of_Ascending (t ∷ ts) c h a =
      (before t ts c.1 h.0 a.0, Ordered-of_Ascending ts c.1 h.1 a.1)

  pub Ordered-sort_tiles :
      (ts : List Tile) → All (IsCommon xs ys m) ts → PairwiseApart ts → Ordered (sort_tiles ts)
  Ordered-sort_tiles ts c a =
      Ordered-of_Ascending (sort_tiles ts) (All-sort_tiles (IsCommon xs ys m) ts c)
        (Ascending-sort_tiles ts) (PairwiseApart-sort_tiles ts a)
