-- ===== src/Fingerprint/Offsets/Walk.antt =====
-- Lines and columns by a walk over the bytes, and the theorem that the offsets give the same.
use aut_oscan_engine.Prelude.{
  ℕ, zero, suc, ◌+◌, ◌-◌, ◌≡◌, ◌≤◌, ◌<◌, refl, List, [], ◌∷◌, arith, ltb, leb, ◌==◌, if◌then◌else◌,
  length, get_or,
}
use aut_oscan_engine.Prelude.Text.{Bytes}
use aut_oscan_engine.Fingerprint.Offsets.{
  offsets_from, build_line_offsets, search, byte_to_line_col,
}
use aut_oscan_engine.Fingerprint.Offsets.Search.{search_lem}

-- The place reached from line `line`, column `col` after `pos` bytes: a newline ends a line.
pub walk : ℕ → ℕ → ℕ → Bytes → ℕ × ℕ
walk line col zero bs = (line, col)
walk line col (suc pos) [] = (line, col)
walk line col (suc pos) (b ∷ bs) =
    let next = walk (line + 1) 1 pos bs in if b == b'\n' then next else walk line (col + 1) pos bs

-- How many offsets are at most `pos`, and the last of them.
rank : List ℕ → ℕ → ℕ
rank [] pos = 0
rank (o ∷ os) pos = if leb o pos then suc (rank os pos) else 0

last_start : ℕ → List ℕ → ℕ → ℕ
last_start s [] pos = s
last_start s (o ∷ os) pos = if leb o pos then last_start o os pos else s

before_offsets :
    (bs : Bytes) (i pos s : ℕ)
    → pos ≤ i
    → (rank (offsets_from i bs) pos ≡ 0) × (last_start s (offsets_from i bs) pos ≡ s)
unfolding rank last_start offsets_from
before_offsets [] i pos s h = (refl, refl)
before_offsets (b ∷ bs) i pos s h = ground (arith, before_offsets bs (i + 1) pos s)

walk_lem :
    (bs : Bytes) (i k line s : ℕ)
    → s ≤ i
    → k ≤ length bs
    → walk line (i - s + 1) k bs ≡ (
      line + rank (offsets_from i bs) (i + k),
      i + k - last_start s (offsets_from i bs) (i + k) + 1,
    )
unfolding walk rank last_start offsets_from
walk_lem bs i zero line s h lt = ground (arith, before_offsets bs i (i + 0) s)
walk_lem [] i (suc k) line s h lt = absurd (omega arith)
walk_lem (b ∷ bs) i (suc k) line s h lt =
    ground (arith, walk_lem bs (i + 1) k (line + 1) (i + 1), walk_lem bs (i + 1) k line s)

rank-le : (os : List ℕ) (pos : ℕ) → rank os pos ≤ length os
unfolding rank
rank-le [] pos = omega arith
rank-le (o ∷ os) pos = ground (arith, rank-le os pos)

rank_low : (os : List ℕ) (pos h : ℕ) → h < rank os pos → get_or os h 0 ≤ pos
unfolding rank
rank_low [] pos h lt = absurd (omega arith)
rank_low (o ∷ os) pos zero lt = ground arith
rank_low (o ∷ os) pos (suc h) lt = ground (arith, rank_low os pos h)

offsets_above :
    (bs : Bytes) (i h : ℕ) → h < length (offsets_from i bs) → i < get_or (offsets_from i bs) h 0
unfolding offsets_from
offsets_above [] i h lt = elim lt [ ]
offsets_above (b ∷ bs) i zero lt = ground (arith, offsets_above bs (i + 1) 0)
offsets_above (b ∷ bs) i (suc h) lt =
    ground (arith, offsets_above bs (i + 1) (suc h), offsets_above bs (i + 1) h)

rank_high :
    (bs : Bytes) (i pos h : ℕ)
    → rank (offsets_from i bs) pos ≤ h
    → h < length (offsets_from i bs)
    → pos < get_or (offsets_from i bs) h 0
unfolding offsets_from rank
rank_high [] i pos h le lt = elim lt [ ]
rank_high (b ∷ bs) i pos zero le lt = ground (arith, rank_high bs (i + 1) pos 0)
rank_high (b ∷ bs) i pos (suc h) le lt = ground (
  arith,
  rank_high bs (i + 1) pos (suc h),
  rank_high bs (i + 1) pos h,
  offsets_above bs (i + 1) h,
)

get_or-rank : (os : List ℕ) (s pos : ℕ) → get_or (s ∷ os) (rank os pos) 0 ≡ last_start s os pos
unfolding rank last_start
get_or-rank [] s pos = refl
get_or-rank (o ∷ os) s pos = ground (arith, get_or-rank os o pos)

search_offsets :
    (content : Bytes) (pos : ℕ)
    → let os = build_line_offsets content in
      search (length os) (λ i. ltb pos (get_or os i 0)) ≡ suc (rank (offsets_from 0 content) pos)
unfolding build_line_offsets
search_offsets content pos =
    let os = offsets_from 0 content in
    search_lem _ (suc (rank os pos)) (suc (length os)) (omega (arith, rank-le os pos))
      (elim [ zero ↦ λ lt. ground arith | suc h ↦ λ lt. ground (arith, rank_low os pos h) ])
      (elim [
        | zero ↦ λ le lt. absurd (omega arith)
        | suc h ↦ λ le lt. ground (arith, rank_high content 0 pos h)
      ])

-- For a position up to the end of the source, the line and column found by binary search in the
-- line offsets are those of a walk that counts newlines from line 1, column 1.
pub byte_to_line_col_lem :
    (content : Bytes) (pos : ℕ)
    → pos ≤ length content
    → byte_to_line_col (build_line_offsets content) pos ≡ walk 1 1 pos content
unfolding byte_to_line_col build_line_offsets
byte_to_line_col_lem content pos h = ground (
  arith,
  search_offsets content pos,
  walk_lem content 0 pos 1 0,
  get_or-rank (offsets_from 0 content) 0 pos,
)
