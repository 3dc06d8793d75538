-- ===== src/Tiling.antt =====
-- Greedy String Tiling: `greedyStringTiling`, `isMarked` and `tiledTokens` of
-- internal/engine/fingerprint.go. A token is its hash; 0 separates functions. Slices are lists,
-- read with a default out of range, where the source only reads in range.
pub mod Marking
pub mod Runs
pub mod Search
pub mod Rounds
pub mod Sorted
pub mod Laws
use aut_oscan_engine.Prelude.{
  ℕ, zero, suc, ◌+◌, ◌≡◌, Bool, true, false, not, ◌&&◌, ◌||◌, List, [], ◌∷◌, ◌++◌, Option, none,
  some, ltb, leb, ◌==◌, if◌then◌else◌, length, get_or, set, replicate,
}

pub record Tile : Type 0 where
  pub a : ℕ
  pub b : ℕ
  pub length : ℕ

abbrev pub token_at : List ℕ → ℕ → ℕ
token_at xs i = get_or xs i 0

abbrev pub marked : List Bool → ℕ → Bool
marked m i = get_or m i false

-- The test of the innermost loop at one pair of positions.
pub agrees : List ℕ → List ℕ → List Bool → List Bool → ℕ → ℕ → Bool
agrees xs ys mx my i j =
    ltb i (length xs)
    && ltb j (length ys)
    && not (token_at xs i == 0)
    && token_at xs i == token_at ys j
    && not (marked mx i)
    && not (marked my j)

-- `for <test> { k++ }`, from `k` on.
pub run_from : ℕ → List ℕ → List ℕ → List Bool → List Bool → ℕ → ℕ → ℕ → ℕ
run_from zero xs ys mx my i j k = k
run_from (suc fuel) xs ys mx my i j k =
    let rest = run_from fuel xs ys mx my i j (k + 1) in
    if agrees xs ys mx my (i + k) (j + k) then rest else k

pub run_length : List ℕ → List ℕ → List Bool → List Bool → ℕ → ℕ → ℕ
run_length xs ys mx my i j = run_from (length xs) xs ys mx my i j 0

-- `positions`: the indices of each nonzero token of `b`, ascending.
pub index_tokens : ℕ → List ℕ → (ℕ → List ℕ) → ℕ → List ℕ
index_tokens j [] positions = positions
index_tokens j (t ∷ ts) positions =
    index_tokens (j + 1) ts
      (λ u. if not (t == 0) && u == t then positions u ++ (j ∷ []) else positions u)

abbrev pub positions : List ℕ → ℕ → List ℕ
positions ys = index_tokens 0 ys (λ _. [])

-- `maxLen` and `found` of one round.
pub record Best : Type 0 where
  pub max_len : ℕ
  pub found : List Tile

-- A run of length `k` at `i`, `j`: a longer one clears what was found, an equal one is added.
pub keep_run : ℕ → ℕ → ℕ → Best → Best
keep_run i j k s =
    let cleared : Best = if ltb s.max_len k then record { max_len = k; found = [] } else s in
    if k == cleared.max_len
    then record cleared { found = cleared.found ++ (record { a = i; b = j; length = k } ∷ []) }
    else cleared

pub visit : List ℕ → List ℕ → List Bool → List Bool → ℕ → ℕ → Best → Best
visit xs ys mx my i j s = if marked my j then s else keep_run i j (run_length xs ys mx my i j) s

pub visit_all : List ℕ → List ℕ → List Bool → List Bool → ℕ → List ℕ → Best → Best
visit_all xs ys mx my i [] s = s
visit_all xs ys mx my i (j ∷ js) s = visit_all xs ys mx my i js (visit xs ys mx my i j s)

-- The body of the loop over `i`.
pub visit_row : List ℕ → List ℕ → List Bool → List Bool → ℕ → Best → Best
visit_row xs ys mx my i s =
    if marked mx i || token_at xs i == 0
    then s
    else visit_all xs ys mx my i (positions ys (token_at xs i)) s

-- `for i := 0; i+maxLen <= len(a); i++`, where `maxLen` grows on the way.
pub scan : ℕ → List ℕ → List ℕ → List Bool → List Bool → ℕ → Best → Best
scan zero xs ys mx my i s = s
scan (suc fuel) xs ys mx my i s =
    let rest = scan fuel xs ys mx my (i + 1) (visit_row xs ys mx my i s) in
    if leb (i + s.max_len) (length xs) then rest else s

pub find_longest : List ℕ → List ℕ → List Bool → List Bool → ℕ → List Tile
find_longest xs ys mx my min_match =
    (scan (length xs + 1) xs ys mx my 0 (record { max_len = min_match; found = [] })).found

pub is_marked : List Bool → ℕ → ℕ → Bool
is_marked m start zero = false
is_marked m start (suc n) = marked m start || is_marked m (start + 1) n

unfoldable pub mark_range : List Bool → ℕ → ℕ → List Bool
mark_range m start zero = m
mark_range m start (suc n) = mark_range (set m start true) (start + 1) n

pub record Marks : Type 0 where
  pub marked_a : List Bool
  pub marked_b : List Bool
  pub tiles : List Tile

abbrev pub mark_tile : Tile → Marks → Marks
mark_tile f s = record {
  marked_a = mark_range s.marked_a f.a f.length;
  marked_b = mark_range s.marked_b f.b f.length;
  tiles = s.tiles ++ (f ∷ []);
}

pub place : Tile → Marks → Marks
place f s =
    if is_marked s.marked_a f.a f.length || is_marked s.marked_b f.b f.length
    then s
    else mark_tile f s

pub place_all : List Tile → Marks → Marks
place_all [] s = s
place_all (f ∷ fs) s = place_all fs (place f s)

-- The outer loop. `none` means that the fuel ran out.
pub rounds : ℕ → List ℕ → List ℕ → ℕ → Marks → Option Marks
rounds zero xs ys min_match s = none
rounds (suc fuel) xs ys min_match s =
    let found = find_longest xs ys s.marked_a s.marked_b min_match in
    let rest = rounds fuel xs ys min_match (place_all found s) in
    elim found [ [] ↦ some s | _ ∷ _ ↦ rest ]

-- `sort.Slice(tiles, a <)`; no two tiles have the same `a`, so the order is determined.
pub insert_tile : Tile → List Tile → List Tile
insert_tile t [] = t ∷ []
insert_tile t (u ∷ us) = if ltb u.a t.a then u ∷ insert_tile t us else t ∷ u ∷ us

unfoldable pub sort_tiles : List Tile → List Tile
sort_tiles [] = []
sort_tiles (t ∷ ts) = insert_tile t (sort_tiles ts)

abbrev pub at_least_one : ℕ → ℕ
at_least_one m = if ltb m 1 then 1 else m

abbrev pub unmarked : List ℕ → List ℕ → Marks
unmarked xs ys = record {
  marked_a = replicate (length xs) false;
  marked_b = replicate (length ys) false;
  tiles = [];
}

unfoldable pub tile_rounds : List ℕ → List ℕ → ℕ → Option Marks
tile_rounds xs ys min_match = rounds (length xs + 1) xs ys (at_least_one min_match) (unmarked xs ys)

unfoldable pub greedy_string_tiling : List ℕ → List ℕ → ℕ → List Tile
greedy_string_tiling xs ys min_match = elim (tile_rounds xs ys min_match) [
  | none ↦ []
  | some s ↦ sort_tiles s.tiles
]

unfoldable pub tiled_tokens : List Tile → ℕ
tiled_tokens [] = 0
tiled_tokens (t ∷ ts) = t.length + tiled_tokens ts
