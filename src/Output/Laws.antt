-- ===== src/Output/Laws.antt =====
-- What the diff of two outputs says.
use aut_oscan_engine.Prelude.{
  ℕ, zero, suc, ◌+◌, ◌*◌, ◌≡◌, ◌≤◌, ◌≢◌, refl, ap, ◌∙◌, Bool-cases, inl, inr, List, [], ◌∷◌, ◌++◌,
  arith, length, length-append, replicate, All,
}
use aut_oscan_engine.Prelude.Text.{Bytes, bytes_eq, bytes_eq_iff, bytes_eq_refl}
use aut_oscan_engine.Output.{
  same, added, removed, DiffLine, fail, normalize, split_lines, diff_at, diff_from,
  compute_output_diff,
}

length-diff_at : (i : ℕ) (es as' : List Bytes) → length (diff_at i es as') ≤ 2
unfolding diff_at
length-diff_at i [] [] = omega arith
length-diff_at i (e ∷ es) (a ∷ as') = ground arith
length-diff_at i (e ∷ es) [] = ground arith
length-diff_at i [] (a ∷ as') = ground arith

length-diff_from :
    (i count : ℕ) (es as' : List Bytes)
    → count ≤ 501
    → count + length (diff_from i count es as') ≤ 502
unfolding diff_from
length-diff_from i count [] [] h = omega arith
length-diff_from i count (e ∷ es) (a ∷ as') h =
    let here = diff_at i (e ∷ es) (a ∷ as') in
    ground (
      arith,
      length-diff_at i (e ∷ es) (a ∷ as'),
      length-append here (diff_from (i + 1) (count + length here) es as'),
      length-diff_from (i + 1) (count + length here) es as',
    )
length-diff_from i count (e ∷ es) [] h =
    let here = diff_at i (e ∷ es) [] in
    ground (
      arith,
      length-diff_at i (e ∷ es) [],
      length-append here (diff_from (i + 1) (count + length here) es []),
      length-diff_from (i + 1) (count + length here) es [],
    )
length-diff_from i count [] (a ∷ as') h =
    let here = diff_at i [] (a ∷ as') in
    ground (
      arith,
      length-diff_at i [] (a ∷ as'),
      length-append here (diff_from (i + 1) (count + length here) [] as'),
      length-diff_from (i + 1) (count + length here) [] as',
    )

-- A diff has at most 502 lines, however long the outputs are: the loop stops at 500 lines, the round
-- before may add two, and the truncation notice is one.
pub length-compute_output_diff :
    (expected actual : Bytes) → length (compute_output_diff expected actual).1 ≤ 502
unfolding compute_output_diff
length-compute_output_diff expected actual = ground (
  arith,
  length-diff_from 0 0 (split_lines (normalize expected)) (split_lines (normalize actual)),
)

-- The lines of one side of a diff.
pub old_side : List DiffLine → List Bytes
old_side [] = []
old_side (d ∷ ds) =
    let rest = old_side ds in elim d.line_type [ added ↦ rest | _ ↦ d.content ∷ rest ]

pub new_side : List DiffLine → List Bytes
new_side [] = []
new_side (d ∷ ds) =
    let rest = new_side ds in elim d.line_type [ removed ↦ rest | _ ↦ d.content ∷ rest ]

diff_from_sides :
    (es as' : List Bytes) (i count : ℕ)
    → length es ≡ length as'
    → count + 2 * length es ≤ 500
    → (old_side (diff_from i count es as') ≡ es) × (new_side (diff_from i count es as') ≡ as')
unfolding diff_from diff_at old_side new_side
diff_from_sides [] [] i count e h = (refl, refl)
diff_from_sides [] (a ∷ as') i count e h = absurd (omega arith)
diff_from_sides (x ∷ es) [] i count e h = absurd (omega arith)
diff_from_sides (x ∷ es) (a ∷ as') i count e h = elim (Bool-cases (bytes_eq x a)) [
  | inl eq ↦ ground (arith, bytes_eq_iff x a, diff_from_sides es as' (i + 1) (count + 1))
  | inr ne ↦ ground (arith, diff_from_sides es as' (i + 1) (count + 2))
]

-- Two different outputs with equally many lines, at most 250, get a diff from which both can be
-- read back: its same and removed lines are the expected output's lines, and its same and added
-- lines the actual output's, in order.
pub compute_output_diff_sides :
    (expected actual : Bytes)
    → normalize expected ≢ normalize actual
    → length (split_lines (normalize expected)) ≡ length (split_lines (normalize actual))
    → length (split_lines (normalize expected)) ≤ 250
    → let diff = (compute_output_diff expected actual).1 in
      (old_side diff ≡ split_lines (normalize expected))
      × (new_side diff ≡ split_lines (normalize actual))
unfolding compute_output_diff
compute_output_diff_sides expected actual ne e h = ground (
  arith,
  bytes_eq_iff (normalize expected) (normalize actual),
  diff_from_sides (split_lines (normalize expected)) (split_lines (normalize actual)) 0 0,
)

abbrev pub IsSame : DiffLine → Type 0
IsSame d = d.line_type ≡ same

diff_from_blank : (i count n : ℕ) → All IsSame (diff_from i count [] (replicate n []))
unfolding diff_from diff_at bytes_eq
diff_from_blank i count zero = tt
diff_from_blank i count (suc n) = ground (arith, diff_from_blank (i + 1) (count + 1) n)

diff_from_surplus :
    (es : List Bytes) (i count n : ℕ) → All IsSame (diff_from i count es (es ++ replicate n []))
unfolding diff_from diff_at
diff_from_surplus [] i count n = diff_from_blank i count n
diff_from_surplus (e ∷ es) i count n =
    ground (arith, bytes_eq_refl e, diff_from_surplus es (i + 1) (count + 1) n)

surplus_ne : (es : List Bytes) (n : ℕ) → es ≢ es ++ replicate (suc n) []
surplus_ne es n e = omega (arith, ap length e, length-append es (replicate (suc n) []))

-- Where the actual output is the expected one with more blank lines after it, the comparison fails
-- and every line of its diff is marked the same: the diff shows no difference.
pub compute_output_diff_blank_lines :
    (expected actual : Bytes) (n : ℕ)
    → split_lines (normalize actual) ≡ split_lines (normalize expected) ++ replicate (suc n) []
    → ((compute_output_diff expected actual).0 ≡ fail)
      × All IsSame (compute_output_diff expected actual).1
unfolding compute_output_diff
compute_output_diff_blank_lines expected actual n e =
    elim (Bool-cases (bytes_eq (normalize expected) (normalize actual))) [
      | inl eq ↦ absurd (
          surplus_ne (split_lines (normalize expected)) n
            (ap split_lines ((bytes_eq_iff (normalize expected) (normalize actual)).0 eq) ∙ e))
      | inr ne ↦
          rw ne (refl, rw e (diff_from_surplus (split_lines (normalize expected)) 0 0 (suc n)))
    ]
