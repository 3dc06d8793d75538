-- ===== src/Similarity/Clearing.antt =====
-- Clearing the tokens that tiles cover.
use aut_oscan_engine.Prelude.{
  ℕ, zero, suc, ◌+◌, ◌-◌, ◌≡◌, ◌≤◌, ◌<◌, ◌≢◌, ◌∙◌, ◌⊎◌, inl, inr, refl, Bool-cases, ◌==◌, ==_iff,
  if◌then◌else◌, sym, ap, subst, List, [], ◌∷◌, arith, length, length-set, set, All,
}
use aut_oscan_engine.Tiling.{Tile, token_at, tiled_tokens}
use aut_oscan_engine.Tiling.Marking.{count_tokens}
use aut_oscan_engine.Tiling.Rounds.{IsCommon, covered_a}
use aut_oscan_engine.Tiling.Sorted.{Ordered}
use aut_oscan_engine.Fingerprint.{FileFingerprint}
use aut_oscan_engine.Similarity.{clear_range, clear_tiles}

token_at-set_same : (xs : List ℕ) (i : ℕ) → token_at (set xs i 0) i ≡ 0
token_at-set_same [] i = refl
token_at-set_same (x ∷ xs) zero = refl
token_at-set_same (x ∷ xs) (suc i) = token_at-set_same xs i

token_at-set_ne : (xs : List ℕ) (i p v : ℕ) → p ≢ i → token_at (set xs i v) p ≡ token_at xs p
token_at-set_ne [] i p v h = refl
token_at-set_ne (x ∷ xs) zero zero v h = absurd (h refl)
token_at-set_ne (x ∷ xs) zero (suc p) v h = refl
token_at-set_ne (x ∷ xs) (suc i) zero v h = refl
token_at-set_ne (x ∷ xs) (suc i) (suc p) v h = token_at-set_ne xs i p v (λ e. h (ap suc e))

count_tokens-set :
    (xs : List ℕ) (i : ℕ)
    → i < length xs
    → token_at xs i ≢ 0
    → suc (count_tokens (set xs i 0)) ≡ count_tokens xs
unfolding count_tokens
count_tokens-set [] i h n = elim h [ ]
count_tokens-set (x ∷ xs) zero h n = ground arith
count_tokens-set (x ∷ xs) (suc i) h n = ground (arith, count_tokens-set xs i)

pub length-clear_range : (xs : List ℕ) (start n : ℕ) → length (clear_range xs start n) ≡ length xs
unfolding clear_range
length-clear_range xs start zero = refl
length-clear_range xs start (suc n) =
    omega (arith, length-clear_range (set xs start 0) (start + 1) n, length-set xs start 0)

token_at-clear_range :
    (xs : List ℕ) (start n p : ℕ)
    → (p < start) ⊎ (start + n ≤ p)
    → token_at (clear_range xs start n) p ≡ token_at xs p
unfolding clear_range
token_at-clear_range xs start zero p h = refl
token_at-clear_range xs start (suc n) p h =
    token_at-clear_range (set xs start 0) (start + 1) n p (ground arith)
    ∙ token_at-set_ne xs start p 0 (ground arith)

token_at-clear_range_in :
    (xs : List ℕ) (start n p : ℕ)
    → start ≤ p
    → p < start + n
    → token_at (clear_range xs start n) p ≡ 0
unfolding clear_range
token_at-clear_range_in xs start zero p lo hi = absurd (omega (arith, lo, hi))
token_at-clear_range_in xs start (suc n) p lo hi = elim (Bool-cases (p == start)) [
  | inl e ↦
      let same : p ≡ start = (==_iff p start).0 e in
      token_at-clear_range (set xs start 0) (start + 1) n p (inl (omega (arith, same)))
      ∙ (ap (token_at (set xs start 0)) same ∙ token_at-set_same xs start)
  | inr e ↦
      token_at-clear_range_in (set xs start 0) (start + 1) n p (ground (arith, e, lo))
        (omega (arith, hi))
]

pub token_at-clear_tiles :
    (ts : List Tile) (fp : FileFingerprint) (p : ℕ)
    → token_at (clear_tiles ts fp).tokens p ≡ (if covered_a ts p then 0 else token_at fp.tokens p)
unfolding clear_tiles covered_a
token_at-clear_tiles [] fp p = refl
token_at-clear_tiles (t ∷ ts) fp p =
    token_at-clear_tiles ts _ p
    ∙ ground (
      arith,
      token_at-clear_range_in fp.tokens t.a t.length p,
      token_at-clear_range fp.tokens t.a t.length p,
    )

count_tokens-clear_range :
    (xs : List ℕ) (start n : ℕ)
    → start + n ≤ length xs
    → ((p : ℕ) → start ≤ p → p < start + n → token_at xs p ≢ 0)
    → n + count_tokens (clear_range xs start n) ≡ count_tokens xs
unfolding clear_range
count_tokens-clear_range xs start zero h nz = omega arith
count_tokens-clear_range xs start (suc n) h nz = omega (
  arith,
  count_tokens-set xs start (omega arith) (nz start (omega arith) (omega arith)),
  count_tokens-clear_range (set xs start 0) (start + 1) n (omega (arith, length-set xs start 0))
      (λ p lo hi e.
        nz p (omega arith) (omega arith) (sym (token_at-set_ne xs start p 0 (omega arith)) ∙ e)),
)

-- A tile inside the tokens, over nonzero ones.
pub record IsLive (tokens : List ℕ) (t : Tile) : Type 0 where
  pub inside : t.a + t.length ≤ length tokens
  pub nonzero : (p : ℕ) → t.a ≤ p → p < t.a + t.length → token_at tokens p ≢ 0

IsLive-clear_range :
    (tokens : List ℕ) (t : Tile) (us : List Tile)
    → All (λ (u : Tile). t.a + t.length ≤ u.a) us
    → All (IsLive tokens) us
    → All (IsLive (clear_range tokens t.a t.length)) us
IsLive-clear_range tokens t [] h l = tt
IsLive-clear_range tokens t (u ∷ us) h l = (
  record {
    inside = omega (arith, length-clear_range tokens t.a t.length, l.0.inside);
    nonzero = λ p lo hi e.
        l.0.nonzero p lo hi
          (sym (token_at-clear_range tokens t.a t.length p (inr (omega (arith, h.0)))) ∙ e);
  },
  IsLive-clear_range tokens t us h.1 l.1,
)

-- The parts of a fingerprint that clearing keeps, and the tokens that it takes away.
pub record Cleared (ts : List Tile) (fp out : FileFingerprint) : Type 0 where
  pub same_length : length out.tokens ≡ length fp.tokens
  pub same_spans : out.spans ≡ fp.spans
  pub fewer : out.token_count + tiled_tokens ts ≡ fp.token_count
  pub counted : count_tokens out.tokens ≡ out.token_count

pub clear_tiles_lem :
    (ts : List Tile) (fp : FileFingerprint)
    → Ordered ts
    → All (IsLive fp.tokens) ts
    → count_tokens fp.tokens ≡ fp.token_count
    → Cleared ts fp (clear_tiles ts fp)
unfolding clear_tiles tiled_tokens
clear_tiles_lem [] fp o l c = record {
  same_length = refl;
  same_spans = refl;
  fewer = omega arith;
  counted = c;
}
clear_tiles_lem (t ∷ ts) fp o l c =
    let cleared = count_tokens-clear_range fp.tokens t.a t.length l.0.inside l.0.nonzero in
    let rest =
      clear_tiles_lem ts
        (record fp {
          tokens = clear_range fp.tokens t.a t.length;
          token_count = fp.token_count - t.length;
        })
        o.1 (IsLive-clear_range fp.tokens t ts o.0 l.1) (omega (arith, cleared, c)) in
    record {
      same_length = rest.same_length ∙ length-clear_range fp.tokens t.a t.length;
      same_spans = rest.same_spans;
      fewer = omega (arith, rest.fewer, cleared, c);
      counted = rest.counted;
    }

pub IsLive-of_common :
    (xs ys : List ℕ) (m : ℕ) (ts : List Tile) → All (IsCommon xs ys m) ts → All (IsLive xs) ts
IsLive-of_common xs ys m [] h = tt
IsLive-of_common xs ys m (t ∷ ts) h = (
  record {
    inside = h.0.in_a;
    nonzero = λ p lo hi.
        let e : t.a + (p - t.a) ≡ p = omega arith in
        subst (λ x. token_at xs x ≢ 0) e (h.0.equal (p - t.a) (omega arith)).1;
  },
  IsLive-of_common xs ys m ts h.1,
)
