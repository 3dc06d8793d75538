-- ===== src/Policy/Valid.antt =====
-- Which dictionaries are valid.
use aut_oscan_engine.Prelude.{
  ℕ, ◌+◌, ◌≡◌, ◌≢◌, ◌≤◌, ◌↔◌, refl, List, [], ◌∷◌, ◌++◌, map, some, Bool-cases, inl, inr, arith,
  if◌then◌else◌, All,
}
use aut_oscan_engine.Prelude.Text.{Bytes, bytes_eq, bytes_eq_iff, trim_space}
use aut_oscan_engine.Prelude.Maps.{lookup, insert, IsDistinct}
use aut_oscan_engine.Policy.Dictionary.{
  Entry, Problem, times_seen, entry_problems, all_problems, count_seen, duplicates,
  validate_dictionary,
}

-- Every count is at most 1.
abbrev AllOnce : List (Bytes × ℕ) → Type 0
AllOnce seen = All (λ e. e.1 ≤ 1) seen

duplicates_lem : (seen : List (Bytes × ℕ)) → (duplicates seen ≡ []) ↔ AllOnce seen
unfolding duplicates
duplicates_lem [] = (λ h. tt, λ h. refl)
duplicates_lem (s ∷ seen) =
    (ground (arith, duplicates_lem seen), ground (arith, duplicates_lem seen))

AllOnce-insert :
    (seen : List (Bytes × ℕ)) (id : Bytes)
    → AllOnce (insert seen id (times_seen seen id + 1)) ↔ (AllOnce seen × (times_seen seen id ≡ 0))
unfolding insert lookup
AllOnce-insert [] id = (ground arith, ground arith)
AllOnce-insert (s ∷ seen) id =
    (ground (arith, AllOnce-insert seen id), ground (arith, AllOnce-insert seen id))

times_seen-insert :
    (seen : List (Bytes × ℕ)) (id j : Bytes) (n : ℕ)
    → times_seen (insert seen id n) j ≡ (if bytes_eq id j then n else times_seen seen j)
unfolding insert lookup
times_seen-insert [] id j n = ground arith
times_seen-insert (s ∷ seen) id j n = ground (
  arith,
  times_seen-insert seen id j n,
  bytes_eq_iff s.0 id,
  bytes_eq_iff s.0 j,
  bytes_eq_iff id j,
)

-- None of the ids was seen.
abbrev AllUnseen : List (Bytes × ℕ) → List Bytes → Type 0
AllUnseen seen ids = All (λ id. times_seen seen id ≡ 0) ids

AllUnseen-insert :
    (seen : List (Bytes × ℕ)) (id : Bytes) (n : ℕ) (ids : List Bytes)
    → AllUnseen (insert seen id (n + 1)) ids ↔ (All (λ y. id ≢ y) ids × AllUnseen seen ids)
AllUnseen-insert seen id n [] = (λ h. (tt, tt), λ h. tt)
AllUnseen-insert seen id n (j ∷ ids) =
    let rest = AllUnseen-insert seen id n ids in
    let here = times_seen-insert seen id j (n + 1) in
    (ground (arith, rest, here, bytes_eq_iff id j), ground (arith, rest, here, bytes_eq_iff id j))

abbrev pub trimmed_id : Entry → Bytes
trimmed_id e = trim_space e.id

count_seen_lem :
    (seen : List (Bytes × ℕ)) (es : List Entry)
    → All (λ e. trimmed_id e ≢ []) es
    → AllOnce (count_seen seen es)
      ↔ (AllOnce seen × AllUnseen seen (map trimmed_id es) × IsDistinct (map trimmed_id es))
unfolding count_seen
count_seen_lem seen [] h = (λ x. (x, tt, tt), λ x. x.0)
count_seen_lem seen (e ∷ es) h =
    let id = trimmed_id e in
    let ids = map trimmed_id es in
    let seen' = insert seen id (times_seen seen id + 1) in
    let rest = count_seen_lem seen' es h.1 in
    let once = AllOnce-insert seen id in
    let new = AllUnseen-insert seen id (times_seen seen id) ids in
    elim (Bool-cases (bytes_eq id [])) [
      | inl b ↦ absurd (h.0 ((bytes_eq_iff id []).0 b))
      | inr b ↦ rw b (
        (λ x.
            let (o, u, d) = rest.0 x in
            let (o', z) = once.0 o in let (f, u') = new.0 u in (o', (z, u'), (f, d))),
        (λ x. let (o, (z, u), (f, d)) = x in rest.1 (once.1 (o, z), new.1 (f, u), d)),
      )
    ]

-- An entry with an id, a title and code that are not blank.
abbrev pub IsFilled : Entry → Type 0
IsFilled e = (trimmed_id e ≢ []) × (trim_space e.title ≢ []) × (trim_space e.code ≢ [])

entry_problems_lem : (row : ℕ) (e : Entry) → (entry_problems row e ≡ []) ↔ IsFilled e
unfolding entry_problems
entry_problems_lem row e =
    let a = bytes_eq_iff (trim_space e.id) [] in
    let b = bytes_eq_iff (trim_space e.title) [] in
    let c = bytes_eq_iff (trim_space e.code) [] in
    (ground (arith, a, b, c), ground (arith, a, b, c))

append_empty : (xs ys : List Problem) → (xs ++ ys ≡ []) ↔ ((xs ≡ []) × (ys ≡ []))
append_empty [] ys = (λ h. (refl, h), λ h. h.1)
append_empty (x ∷ xs) ys = (ground arith, ground arith)

all_problems_lem : (row : ℕ) (es : List Entry) → (all_problems row es ≡ []) ↔ All IsFilled es
unfolding all_problems
all_problems_lem row [] = (λ h. tt, λ h. refl)
all_problems_lem row (e ∷ es) =
    let both = append_empty (entry_problems row e) (all_problems (row + 1) es) in
    let first = entry_problems_lem row e in
    let rest = all_problems_lem (row + 1) es in
    ((λ h. (first.0 (both.0 h).0, rest.0 (both.0 h).1)), (λ h. both.1 (first.1 h.0, rest.1 h.1)))

none_unseen : (ids : List Bytes) → AllUnseen [] ids
unfolding lookup
none_unseen [] = tt
none_unseen (id ∷ ids) = (refl, none_unseen ids)

filled_ids : (es : List Entry) → All IsFilled es → All (λ e. trimmed_id e ≢ []) es
filled_ids [] h = tt
filled_ids (e ∷ es) h = (h.0.0, filled_ids es h.1)

-- A dictionary has no problem exactly if it has an entry, every entry has an id, a title and code
-- that are not blank, and no two of the trimmed ids are the same.
pub validate_dictionary_lem :
    (es : List Entry)
    → (validate_dictionary (some es) ≡ [])
      ↔ ((es ≢ []) × All IsFilled es × IsDistinct (map trimmed_id es))
unfolding validate_dictionary
validate_dictionary_lem [] = (ground arith, ground arith)
validate_dictionary_lem (e ∷ es) =
    let entries = e ∷ es in
    let both = append_empty (all_problems 1 entries) (duplicates (count_seen [] entries)) in
    let filled = all_problems_lem 1 entries in
    let once = duplicates_lem (count_seen [] entries) in
    (
      (λ h.
          let (a, d) = both.0 h in
          let f = filled.0 a in
          (
            (λ x. ground (arith, x)),
            f,
            ((count_seen_lem [] entries (filled_ids entries f)).0 (once.0 d)).2,
          )),
      (λ h.
          let (_, f, d) = h in
          both.1 (
            filled.1 f,
            once.1 (
                (count_seen_lem [] entries (filled_ids entries f)).1
                  (tt, none_unseen (map trimmed_id entries), d)),
          )),
    )
