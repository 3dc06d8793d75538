-- ===== src/Detection/Laws.antt =====
-- How much of a submission the dictionary's patterns cover.
use aut_oscan_engine.Prelude.{
  ℕ, zero, suc, ◌+◌, ◌*◌, ◌≤◌, ◌≡◌, ◌≢◌, ◌∙◌, ◌⊎◌, ◌||◌, refl, sym, subst, Bool, true, false, List,
  [], ◌∷◌, ltb, arith, Bool-cases, inl, inr, length, replicate, length-replicate, All, set,
}
use aut_oscan_engine.Tiling.{Tile, token_at, marked, mark_range, greedy_string_tiling, tiled_tokens}
use aut_oscan_engine.Tiling.Marking.{
  length-mark_range, marked-mark_range, count_marked, count_marked-replicate,
  count_marked-le-count_tokens,
}
use aut_oscan_engine.Tiling.Rounds.{covered_a}
use aut_oscan_engine.Tiling.Laws.{greedy_string_tiling-IsCommon}
use aut_oscan_engine.Fingerprint.Aligned.{IsAligned}
use aut_oscan_engine.Similarity.{Source, CompareConfig}
use aut_oscan_engine.Similarity.Clearing.{IsLive, IsLive-of_common}
use aut_oscan_engine.Similarity.Solution.{tiled_tokens-le-count_marked}
use aut_oscan_engine.Detection.{
  DictionaryFingerprint, AiDictionaryMatch, cover, match_patterns, match_before, insert_match,
  sort_matches, count_covered, compare_submission_to_dictionary,
}

length-cover : (ts : List Tile) (covered : List Bool) → length (cover ts covered) ≡ length covered
unfolding cover
length-cover [] covered = refl
length-cover (t ∷ ts) covered =
    length-cover ts (mark_range covered t.a t.length) ∙ length-mark_range covered t.a t.length

count_covered_lem : (cs : List Bool) → count_covered cs ≡ count_marked cs
unfolding count_covered count_marked
count_covered_lem [] = refl
count_covered_lem (c ∷ cs) = ground (arith, count_covered_lem cs)

-- The tokens of the matches, those that more than one of them has counted for each.
unfoldable pub total_found : List AiDictionaryMatch → ℕ
total_found [] = 0
total_found (m ∷ ms) = m.found + total_found ms

false-not-true : ¬ (false ≡ true)
false-not-true e = cc

marked-replicate : (n p : ℕ) → marked (replicate n false) p ≡ false
marked-replicate zero p = refl
marked-replicate (suc n) zero = refl
marked-replicate (suc n) (suc p) = marked-replicate n p

All-insert_match :
    (P : AiDictionaryMatch → Type 0) (m : AiDictionaryMatch) (ms : List AiDictionaryMatch)
    → P m
    → All P ms
    → All P (insert_match m ms)
unfolding insert_match
All-insert_match P m [] h k = (h, tt)
All-insert_match P m (n ∷ ns) h k = elim (Bool-cases (match_before m n)) [
  | inl y ↦ rw y (h, k)
  | inr l ↦ rw l (k.0, All-insert_match P m ns h k.1)
]

All-sort_matches :
    (P : AiDictionaryMatch → Type 0) (ms : List AiDictionaryMatch)
    → All P ms
    → All P (sort_matches ms)
unfolding sort_matches
All-sort_matches P [] h = tt
All-sort_matches P (m ∷ ms) h =
    All-insert_match P m (sort_matches ms) h.0 (All-sort_matches P ms h.1)

total_found-insert_match :
    (m : AiDictionaryMatch) (ms : List AiDictionaryMatch)
    → total_found (insert_match m ms) ≡ m.found + total_found ms
unfolding insert_match total_found
total_found-insert_match m [] = refl
total_found-insert_match m (n ∷ ns) = ground (arith, total_found-insert_match m ns)

total_found-sort_matches :
    (ms : List AiDictionaryMatch) → total_found (sort_matches ms) ≡ total_found ms
unfolding sort_matches total_found
total_found-sort_matches [] = refl
total_found-sort_matches (m ∷ ms) =
    omega (arith, total_found-insert_match m (sort_matches ms), total_found-sort_matches ms)

-- A position is marked where a tile covers it, or where it was marked before.
marked-cover :
    (xs : List ℕ) (ts : List Tile) (covered : List Bool) (p : ℕ)
    → All (IsLive xs) ts
    → length covered ≡ length xs
    → marked (cover ts covered) p ≡ (covered_a ts p || marked covered p)
unfolding cover covered_a
marked-cover xs [] covered p l size = refl
marked-cover xs (t ∷ ts) covered p l size =
    let next = mark_range covered t.a t.length in
    ground (
      arith,
      marked-cover xs ts next p l.1 (length-mark_range covered t.a t.length ∙ size),
      marked-mark_range covered t.a t.length p (omega (arith, l.0.inside, size)),
    )

covered_a-nonzero :
    (xs : List ℕ) (ts : List Tile) (p : ℕ)
    → All (IsLive xs) ts
    → covered_a ts p ≡ true
    → token_at xs p ≢ 0
unfolding covered_a
covered_a-nonzero xs [] p l h = absurd (false-not-true h)
covered_a-nonzero xs (t ∷ ts) p l h = elim (Bool-cases (covered_a ts p)) [
  | inl y ↦ covered_a-nonzero xs ts p l.1 y
  | inr n ↦ l.0.nonzero p (ground (arith, h, n)) (ground (arith, h, n))
]

count_marked-set-le :
    (cs : List Bool) (i : ℕ) → count_marked (set cs i true) ≤ suc (count_marked cs)
unfolding count_marked
count_marked-set-le [] i = omega arith
count_marked-set-le (c ∷ cs) zero = ground arith
count_marked-set-le (c ∷ cs) (suc i) = ground (arith, count_marked-set-le cs i)

count_marked-mark_range-le :
    (cs : List Bool) (start n : ℕ) → count_marked (mark_range cs start n) ≤ n + count_marked cs
unfolding mark_range
count_marked-mark_range-le cs start zero = omega arith
count_marked-mark_range-le cs start (suc n) = omega (
  arith,
  count_marked-mark_range-le (set cs start true) (start + 1) n,
  count_marked-set-le cs start,
)

count_marked-cover-le :
    (ts : List Tile) (cs : List Bool)
    → count_marked (cover ts cs) ≤ tiled_tokens ts + count_marked cs
unfolding cover tiled_tokens
count_marked-cover-le [] cs = omega arith
count_marked-cover-le (t ∷ ts) cs = omega (
  arith,
  count_marked-cover-le ts (mark_range cs t.a t.length),
  count_marked-mark_range-le cs t.a t.length,
)

-- From the marks before the loop over the patterns to those after it.
record Covering (xs : List ℕ) (before : List Bool) (matches : List AiDictionaryMatch)
    (after : List Bool) : Type 0 where
  size : length after ≡ length before
  kept : (p : ℕ) → marked before p ≡ true → marked after p ≡ true
  nonzero : (p : ℕ) → marked after p ≡ true → (marked before p ≡ true) ⊎ (token_at xs p ≢ 0)
  within : count_marked after ≤ total_found matches + count_marked before
  each : All (λ (m : AiDictionaryMatch). m.found ≤ count_marked after) matches

match_patterns-Covering :
    (sub : Source) (cfg : CompareConfig) (ds : List DictionaryFingerprint) (before : List Bool)
    → length before ≡ length sub.fp.tokens
    → let (matches, after) = match_patterns sub cfg ds before in
      Covering sub.fp.tokens before matches after
unfolding match_patterns total_found
match_patterns-Covering sub cfg [] before e = record {
  size = refl;
  kept = λ p h. h;
  nonzero = λ p h. inl h;
  within = omega arith;
  each = tt;
}
match_patterns-Covering sub cfg (d ∷ ds) before e =
    let xs = sub.fp.tokens in
    let m = cfg.min_match_tokens in
    let tiles = greedy_string_tiling xs d.fp.tokens m in
    let live =
      IsLive-of_common xs d.fp.tokens _ _ (greedy_string_tiling-IsCommon xs d.fp.tokens m) in
    let next = cover tiles before in
    let rest = match_patterns-Covering sub cfg ds next (length-cover tiles before ∙ e) in
    elim (Bool-cases (ltb (2 * tiled_tokens tiles) d.fp.token_count)) [
      | inl y ↦ rw y (match_patterns-Covering sub cfg ds before e)
      | inr n ↦ rw n (record {
        size = rest.size ∙ length-cover tiles before;
        kept = λ p h. rest.kept p (ground (arith, marked-cover xs tiles before p live e, h));
        nonzero = λ p h. elim (rest.nonzero p h) [
          | inr k ↦ inr k
          | inl k ↦ elim (Bool-cases (covered_a tiles p)) [
            | inl c ↦ inr (covered_a-nonzero xs tiles p live c)
            | inr c ↦ inl (ground (arith, marked-cover xs tiles before p live e, k, c))
          ]
        ];
        within = omega (arith, rest.within, count_marked-cover-le tiles before);
        each = (
          tiled_tokens-le-count_marked xs d.fp.tokens m _
              (rest.size ∙ (length-cover tiles before ∙ e))
              (λ p c. rest.kept p (ground (arith, marked-cover xs tiles before p live e, c))),
          rest.each,
        );
      })
    ]

-- The tokens of a submission that its patterns cover are no more than TokenCount, so that the share
-- that it is scored with is at most 1; no more than the patterns' tokens together, so none where no
-- pattern was found; and no fewer than each pattern's tokens. The fingerprint is aligned.
pub compare_submission_to_dictionary_lem :
    (sub : Source) (ds : List DictionaryFingerprint) (cfg : CompareConfig)
    → IsAligned sub.fp
    → let (matches, covered) = compare_submission_to_dictionary sub ds cfg in
      (covered ≤ sub.fp.token_count)
      × (covered ≤ total_found matches)
      × All (λ (m : AiDictionaryMatch). m.found ≤ covered) matches
unfolding compare_submission_to_dictionary
compare_submission_to_dictionary_lem sub ds cfg v =
    let xs = sub.fp.tokens in
    let none_marked = replicate (length xs) false in
    let size = length-replicate (length xs) false in
    let (matches, after) = match_patterns sub cfg ds none_marked in
    let h = match_patterns-Covering sub cfg ds none_marked size in
    let count = count_covered_lem after in
    let Small : ℕ → AiDictionaryMatch → Type 0 = λ n m. m.found ≤ n in
    let tokens = count_marked-le-count_tokens after xs (h.size ∙ size) (λ p k.
      elim (h.nonzero p k) [
        | inl b ↦ absurd (false-not-true (sym (marked-replicate (length xs) p) ∙ b))
        | inr b ↦ b
      ]) in
    (
      omega (arith, tokens, count, v.counted),
      omega (
        arith,
        h.within,
        count,
        count_marked-replicate (length xs),
        total_found-sort_matches matches,
      ),
      All-sort_matches (Small (count_covered after)) matches
          (subst (λ n. All (Small n) matches) (sym count) h.each),
    )
