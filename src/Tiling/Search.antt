-- ===== src/Tiling/Search.antt =====
-- One round's search: what it finds is free and long enough, and when it finds nothing there is
-- nothing left to find.
use mathlib.Core.List.{concat-ne-nil}
use aut_oscan_engine.Prelude.{
  ℕ, zero, suc, ◌+◌, ◌-◌, ◌∙◌, ◌≡◌, ◌≤◌, ◌<◌, ◌≢◌, refl, sym, subst, ==_iff, Bool, true, false,
  ◌||◌, List, [], ◌∷◌, ◌++◌, arith, leb, ◌==◌, length, Bool-cases, inl, inr, All, All-append,
}
use aut_oscan_engine.Tiling.{
  Tile, Best, token_at, marked, agrees, run_length, index_tokens, positions, keep_run, visit,
  visit_all, visit_row, scan, find_longest,
}
use aut_oscan_engine.Tiling.Runs.{agrees_parts, run_length-agrees}

pub has : ℕ → List ℕ → Bool
has j [] = false
has j (x ∷ xs) = j == x || has j xs

has-concat : (j x : ℕ) (xs : List ℕ) → has j (xs ++ (x ∷ [])) ≡ (has j xs || j == x)
unfolding has
has-concat j x [] = ground arith
has-concat j x (y ∷ xs) = ground (arith, has-concat j x xs)

index_tokens_keeps :
    (ts : List ℕ) (start : ℕ) (pos : ℕ → List ℕ) (u j : ℕ)
    → has j (pos u) ≡ true
    → has j (index_tokens start ts pos u) ≡ true
unfolding index_tokens
index_tokens_keeps [] start pos u j h = h
index_tokens_keeps (t ∷ ts) start pos u j h =
    index_tokens_keeps ts (start + 1) _ u j (ground (arith, has-concat j start (pos u)))

index_tokens-has :
    (ts : List ℕ) (start : ℕ) (pos : ℕ → List ℕ) (k j : ℕ)
    → j ≡ start + k
    → k < length ts
    → token_at ts k ≢ 0
    → has j (index_tokens start ts pos (token_at ts k)) ≡ true
unfolding index_tokens
index_tokens-has [] start pos k j e h ne = elim h [ ]
index_tokens-has (t ∷ ts) start pos zero j e h ne =
    index_tokens_keeps ts (start + 1) _ t j (ground (arith, has-concat j start (pos t)))
index_tokens-has (t ∷ ts) start pos (suc k) j e h ne =
    index_tokens-has ts (start + 1) _ k j (omega arith) (omega arith) ne

-- `positions` lists every place of a token.
pub has-positions :
    (ys : List ℕ) (j : ℕ)
    → j < length ys
    → token_at ys j ≢ 0
    → has j (positions ys (token_at ys j)) ≡ true
has-positions ys j h ne = index_tokens-has ys 0 _ j j (omega arith) h ne

-- A candidate: unmarked, equal and nonzero on its whole length, which is at least `m`.
pub record IsFree (xs ys : List ℕ) (mx my : List Bool) (m : ℕ) (t : Tile) : Type 0 where
  pub long : m ≤ t.length
  pub agreeing : (q : ℕ) → q < t.length → agrees xs ys mx my (t.a + q) (t.b + q) ≡ true

module _ (xs ys : List ℕ) (mx my : List Bool) (m : ℕ) where
  record IsSound (s : Best) : Type 0 where
    above : m ≤ s.max_len
    free : All (IsFree xs ys mx my m) s.found

  keep_run-IsSound :
      (i j k : ℕ) (s : Best)
      → ((q : ℕ) → q < k → agrees xs ys mx my (i + q) (j + q) ≡ true)
      → IsSound s
      → IsSound (keep_run i j k s)
  unfolding keep_run
  keep_run-IsSound i j k s h v = elim (Bool-cases (leb m k)) [
    | inl big ↦
        let new : IsFree xs ys mx my m (record { a = i; b = j; length = k }) = record {
          long = ground arith;
          agreeing = h;
        } in
        ground (
          arith,
          All-append (IsFree xs ys mx my m) s.found (record { a = i; b = j; length = k } ∷ [])
              v.free (new, tt),
        )
    | inr small ↦ ground arith
  ]

  visit-IsSound : (i j : ℕ) (s : Best) → IsSound s → IsSound (visit xs ys mx my i j s)
  unfolding visit
  visit-IsSound i j s v = ground (
    arith,
    keep_run-IsSound i j (run_length xs ys mx my i j) s (run_length-agrees xs ys mx my i j) v,
  )

  visit_all-IsSound :
      (i : ℕ) (js : List ℕ) (s : Best) → IsSound s → IsSound (visit_all xs ys mx my i js s)
  unfolding visit_all
  visit_all-IsSound i [] s v = v
  visit_all-IsSound i (j ∷ js) s v =
      visit_all-IsSound i js (visit xs ys mx my i j s) (visit-IsSound i j s v)

  visit_row-IsSound : (i : ℕ) (s : Best) → IsSound s → IsSound (visit_row xs ys mx my i s)
  unfolding visit_row
  visit_row-IsSound i s v = ground (arith, visit_all-IsSound i (positions ys (token_at xs i)) s v)

  scan-IsSound : (fuel i : ℕ) (s : Best) → IsSound s → IsSound (scan fuel xs ys mx my i s)
  unfolding scan
  scan-IsSound zero i s v = v
  scan-IsSound (suc fuel) i s v =
      ground
        (arith, scan-IsSound fuel (i + 1) (visit_row xs ys mx my i s) (visit_row-IsSound i s v))

  -- What a round finds is free.
  pub find_longest-IsFree : All (IsFree xs ys mx my m) (find_longest xs ys mx my m)
  unfolding find_longest
  find_longest-IsFree =
      (scan-IsSound (length xs + 1) 0 (record { max_len = m; found = [] })
        (record { above = omega arith; free = tt })).free

  -- While nothing is found, `maxLen` is still the minimum.
  abbrev AtStart : Best → Type 0
  AtStart s = s.found ≡ [] → s.max_len ≡ m

  keep_run_found : (i j k : ℕ) (s : Best) → (keep_run i j k s).found ≡ [] → s.found ≡ []
  unfolding keep_run
  keep_run_found i j k s e =
      ground (arith, concat-ne-nil (record { a = i; b = j; length = k }) s.found)

  keep_run_short :
      (i j k : ℕ) (s : Best)
      → (keep_run i j k s).found ≡ []
      → (k < s.max_len) × ((keep_run i j k s).max_len ≡ s.max_len)
  unfolding keep_run
  keep_run_short i j k s e =
      ground (arith, concat-ne-nil (record { a = i; b = j; length = k }) s.found)

  visit_found : (i j : ℕ) (s : Best) → (visit xs ys mx my i j s).found ≡ [] → s.found ≡ []
  unfolding visit
  visit_found i j s e = ground (arith, keep_run_found i j (run_length xs ys mx my i j) s)

  visit_short :
      (i j : ℕ) (s : Best)
      → (visit xs ys mx my i j s).found ≡ []
      → ((visit xs ys mx my i j s).max_len ≡ s.max_len)
        × (marked my j ≡ false → run_length xs ys mx my i j < s.max_len)
  unfolding visit
  visit_short i j s e = ground (arith, keep_run_short i j (run_length xs ys mx my i j) s)

  visit_all_short :
      (i : ℕ) (js : List ℕ) (s : Best)
      → (visit_all xs ys mx my i js s).found ≡ []
      → (s.found ≡ [])
        × ((visit_all xs ys mx my i js s).max_len ≡ s.max_len)
        × ((j : ℕ) → has j js ≡ true → marked my j ≡ false → run_length xs ys mx my i j < s.max_len)
  unfolding visit_all has
  visit_all_short i [] s e = (e, refl, λ j h f. cc)
  visit_all_short i (x ∷ js) s e =
      let rest = visit_all_short i js (visit xs ys mx my i x s) e in
      let here = visit_short i x s rest.0 in
      (
        visit_found i x s rest.0,
        omega (arith, here.0, rest.1),
        λ j h f. elim (Bool-cases (j == x)) [
          | inl same ↦ ground (arith, here)
          | inr other ↦ ground (arith, here, rest.2 j)
        ],
      )

  -- A row is barren if no pair of it starts a run of the least length.
  abbrev Barren : ℕ → Type 0
  Barren i = (j : ℕ) → m ≤ run_length xs ys mx my i j → ⊥

  run_length_first : (i j : ℕ) → 1 ≤ run_length xs ys mx my i j → agrees xs ys mx my i j ≡ true
  run_length_first i j h = ground (arith, run_length-agrees xs ys mx my i j 0)

  Barren-past_end : (i : ℕ) → 1 ≤ m → length xs < i + m → Barren i
  Barren-past_end i pos past j h =
      let last = run_length-agrees xs ys mx my i j (m - 1) (omega arith) in
      omega (arith, (agrees_parts xs ys mx my (i + (m - 1)) (j + (m - 1)) last).0)

  Barren-skipped : (i : ℕ) → 1 ≤ m → (marked mx i || token_at xs i == 0) ≡ true → Barren i
  Barren-skipped i pos skip j h =
      ground (arith, agrees_parts xs ys mx my i j (run_length_first i j (omega arith)))

  Barren-searched :
      (i : ℕ)
      → 1 ≤ m
      → ((j : ℕ)
          → has j (positions ys (token_at xs i)) ≡ true
          → marked my j ≡ false
          → run_length xs ys mx my i j < m)
      → Barren i
  Barren-searched i pos short j h =
      let (_, inside, nonzero, same, _, free) =
        agrees_parts xs ys mx my i j (run_length_first i j (omega arith)) in
      let listed = has-positions ys j inside (λ e. nonzero (same ∙ e)) in
      omega (arith, short j (rw same listed) free)

  visit_row_short :
      (i : ℕ) (s : Best)
      → 1 ≤ m
      → s.max_len ≡ m
      → (visit_row xs ys mx my i s).found ≡ []
      → (s.found ≡ []) × ((visit_row xs ys mx my i s).max_len ≡ m) × Barren i
  unfolding visit_row
  visit_row_short i s pos top e = elim (Bool-cases (marked mx i || token_at xs i == 0)) [
    | inl skip ↦ (rw (skip, visit_row) at e, rw (skip, visit_row) top, Barren-skipped i pos skip)
    | inr search ↦
        let r = visit_all_short i (positions ys (token_at xs i)) s (rw (search, visit_row) at e) in
        (
          r.0,
          rw (search, visit_row) (r.1 ∙ top),
          Barren-searched i pos (λ j h f. rw top at (r.2 j h f)),
        )
  ]

  visit_row_found : (i : ℕ) (s : Best) → (visit_row xs ys mx my i s).found ≡ [] → s.found ≡ []
  unfolding visit_row
  visit_row_found i s e = ground (arith, visit_all_short i (positions ys (token_at xs i)) s)

  scan_found : (fuel i : ℕ) (s : Best) → (scan fuel xs ys mx my i s).found ≡ [] → s.found ≡ []
  unfolding scan
  scan_found zero i s e = e
  scan_found (suc fuel) i s e =
      ground (arith, scan_found fuel (i + 1) (visit_row xs ys mx my i s), visit_row_found i s)

  scan_short :
      (fuel i : ℕ) (s : Best)
      → 1 ≤ m
      → length xs < i + fuel
      → s.max_len ≡ m
      → (scan fuel xs ys mx my i s).found ≡ []
      → (s.found ≡ []) × ((p : ℕ) → i ≤ p → Barren p)
  unfolding scan
  scan_short zero i s pos enough top e = (e, λ p h. Barren-past_end p pos (omega arith))
  scan_short (suc fuel) i s pos enough top e = elim (Bool-cases (leb (i + s.max_len) (length xs))) [
    | inl go ↦
        let rest = visit_row xs ys mx my i s in
        let e' : (scan fuel xs ys mx my (i + 1) rest).found ≡ [] = rw (go, scan) at e in
        let row = visit_row_short i s pos top (scan_found fuel (i + 1) rest e') in
        let ih = scan_short fuel (i + 1) rest pos (omega arith) row.1 e' in
        (
          row.0,
          λ p h. elim (Bool-cases (p == i)) [
            | inl same ↦ subst Barren (sym ((==_iff p i).0 same)) row.2
            | inr other ↦ ih.1 p (ground arith)
          ],
        )
    | inr stop ↦ (ground arith, λ p h. Barren-past_end p pos (ground arith))
  ]

  -- When a round finds nothing, no free run of the least length is left.
  pub find_longest_complete :
      (i j : ℕ) → 1 ≤ m → find_longest xs ys mx my m ≡ [] → run_length xs ys mx my i j < m
  unfolding find_longest
  find_longest_complete i j pos e =
      let barren =
        (scan_short (length xs + 1) 0 (record { max_len = m; found = [] }) pos (omega arith) refl
          e).1 in
      ground (arith, barren i (omega arith) j)
