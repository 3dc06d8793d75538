-- ===== src/Report/Laws.antt =====
-- What the summary of a run counts.
use aut_oscan_engine.Prelude.{
  ℕ, suc, ◌+◌, ◌≡◌, ◌∙◌, refl, ap, List, [], ◌∷◌, ◌++◌, arith, if◌then◌else◌, length, length-append,
  All,
}
use aut_oscan_engine.Prelude.Text.{Bytes, bytes_eq, bytes_eq_iff}
use aut_oscan_engine.Prelude.Maps.{lookup, insert}
use aut_oscan_engine.Report.{
  CompileResult, BannedHit, ScanResult, SubmissionResult, SubmissionStatus, clean, banned,
  SummaryStats, hits_at, group_from, new_scan_result, new_submission_result, number_at,
  add_functions, count_compile, count_banned, count_clean, summarize, compute_summary, total_hits,
}

-- The number of hits that a function has in a list, and over the entries of a grouping.
pub count_hits : Bytes → List BannedHit → ℕ
count_hits fn [] = 0
count_hits fn (h ∷ hs) = (if bytes_eq h.function fn then 1 else 0) + count_hits fn hs

entries_at : Bytes → List (Bytes × List BannedHit) → ℕ
entries_at fn [] = 0
entries_at fn (e ∷ m) = (if bytes_eq e.0 fn then length e.1 else 0) + entries_at fn m

entries_at-insert :
    (fn : Bytes) (m : List (Bytes × List BannedHit)) (h : BannedHit)
    → entries_at fn (insert m h.function (hits_at m h.function ++ (h ∷ [])))
      ≡ entries_at fn m + (if bytes_eq h.function fn then 1 else 0)
unfolding entries_at insert hits_at lookup
entries_at-insert fn [] h = ground arith
entries_at-insert fn (e ∷ m) h = ground (
  arith,
  entries_at-insert fn m h,
  length-append e.1 (h ∷ []),
  bytes_eq_iff e.0 h.function,
  bytes_eq_iff e.0 fn,
  bytes_eq_iff h.function fn,
)

entries_at-group_from :
    (fn : Bytes) (m : List (Bytes × List BannedHit)) (hs : List BannedHit)
    → entries_at fn (group_from m hs) ≡ entries_at fn m + count_hits fn hs
unfolding group_from count_hits
entries_at-group_from fn m [] = omega arith
entries_at-group_from fn m (h ∷ hs) = omega (
  arith,
  entries_at-group_from fn (insert m h.function (hits_at m h.function ++ (h ∷ []))) hs,
  entries_at-insert fn m h,
)

number_at-insert :
    (m : List (Bytes × ℕ)) (k fn : Bytes) (n : ℕ)
    → number_at (insert m k (number_at m k + n)) fn
      ≡ number_at m fn + (if bytes_eq k fn then n else 0)
unfolding lookup insert
number_at-insert [] k fn n = ground arith
number_at-insert (e ∷ m) k fn n =
    ground
      (arith, number_at-insert m k fn n, bytes_eq_iff e.0 k, bytes_eq_iff e.0 fn, bytes_eq_iff k fn)

number_at-add_functions :
    (entries : List (Bytes × List BannedHit)) (m : List (Bytes × ℕ)) (fn : Bytes)
    → number_at (add_functions entries m) fn ≡ number_at m fn + entries_at fn entries
unfolding add_functions entries_at
number_at-add_functions [] m fn = omega arith
number_at-add_functions (e ∷ entries) m fn = omega (
  arith,
  number_at-add_functions entries (insert m e.0 (number_at m e.0 + length e.1)) fn,
  number_at-insert m e.0 fn (length e.1),
)

count_hits-empty : (fn : Bytes) (hs : List BannedHit) → length hs ≡ 0 → count_hits fn hs ≡ 0
unfolding count_hits
count_hits-empty fn [] h = refl
count_hits-empty fn (x ∷ hs) h = ground (arith, h)

-- The counts that a summary should have, by their meaning.
pub sum_hits : List SubmissionResult → ℕ
sum_hits [] = 0
sum_hits (r ∷ rs) = total_hits r.scan + sum_hits rs

pub function_hits : Bytes → List SubmissionResult → ℕ
function_hits fn [] = 0
function_hits fn (r ∷ rs) = count_hits fn r.scan.hits + function_hits fn rs

pub count_clean_status : List SubmissionResult → ℕ
count_clean_status [] = 0
count_clean_status (r ∷ rs) =
    let rest = count_clean_status rs in elim r.status [ clean ↦ suc rest | _ ↦ rest ]

pub count_banned_status : List SubmissionResult → ℕ
count_banned_status [] = 0
count_banned_status (r ∷ rs) =
    let rest = count_banned_status rs in elim r.status [ banned ↦ suc rest | _ ↦ rest ]

-- A result made by the constructors of the package.
abbrev pub IsMade : SubmissionResult → Type 0
IsMade r =
    (r ≡ new_submission_result r.submission r.compile r.scan)
    × (r.scan ≡ new_scan_result r.scan.hits r.scan.parse_errors)

abbrev add_result : SubmissionResult → SummaryStats → SummaryStats
add_result r s = count_clean r.status (count_banned r.scan (count_compile r.compile s))

number_at-count_banned :
    (scan : ScanResult) (s : SummaryStats) (fn : Bytes)
    → scan ≡ new_scan_result scan.hits scan.parse_errors
    → number_at (count_banned scan s).top_banned_functions fn
      ≡ number_at s.top_banned_functions fn + count_hits fn scan.hits
unfolding count_banned new_scan_result entries_at
number_at-count_banned scan s fn made =
    let groups = ap (λ x. x.hits_by_function) made in
    ground (
      arith,
      number_at-add_functions scan.hits_by_function s.top_banned_functions fn,
      entries_at-group_from fn [] scan.hits,
      ap (entries_at fn) groups,
      count_hits-empty fn scan.hits,
    )

top-count_compile :
    (c : CompileResult) (s : SummaryStats)
    → (count_compile c s).top_banned_functions ≡ s.top_banned_functions
unfolding count_compile
top-count_compile c s = ground arith

top-count_clean :
    (status : SubmissionStatus) (s : SummaryStats)
    → (count_clean status s).top_banned_functions ≡ s.top_banned_functions
unfolding count_clean
top-count_clean clean s = refl
top-count_clean _ s = refl

-- What one result adds to the counts.
add_result_lem :
    (r : SubmissionResult) (s : SummaryStats)
    → IsMade r
    → let t = add_result r s in
      (t.total_submissions ≡ s.total_submissions)
      × (t.compile_pass + t.compile_fail + t.compile_timeout
          ≡ s.compile_pass + s.compile_fail + s.compile_timeout + 1)
      × (t.banned_hits_total ≡ s.banned_hits_total + total_hits r.scan)
      × (t.clean_submissions ≡ s.clean_submissions + count_clean_status (r ∷ []))
      × (t.compile_pass
          ≡ s.compile_pass + count_clean_status (r ∷ []) + count_banned_status (r ∷ []))
unfolding count_clean count_banned count_compile new_submission_result count_clean_status
    count_banned_status
add_result_lem r s made = ground (arith, ap (λ x. x.status) made.0)

-- What a whole list adds to them.
record Adds (s t : SummaryStats) (rs : List SubmissionResult) : Type 0 where
  same_total : t.total_submissions ≡ s.total_submissions
  compiled :
      t.compile_pass + t.compile_fail + t.compile_timeout
      ≡ s.compile_pass + s.compile_fail + s.compile_timeout + length rs
  hits : t.banned_hits_total ≡ s.banned_hits_total + sum_hits rs
  cleaned : t.clean_submissions ≡ s.clean_submissions + count_clean_status rs
  passed : t.compile_pass ≡ s.compile_pass + count_clean_status rs + count_banned_status rs
  functions :
      (fn : Bytes)
      → number_at t.top_banned_functions fn
        ≡ number_at s.top_banned_functions fn + function_hits fn rs

statuses_split :
    (r : SubmissionResult) (rs : List SubmissionResult)
    → (count_clean_status (r ∷ rs) ≡ count_clean_status (r ∷ []) + count_clean_status rs)
      × (count_banned_status (r ∷ rs) ≡ count_banned_status (r ∷ []) + count_banned_status rs)
unfolding count_clean_status count_banned_status
statuses_split r rs = ground arith

number_at-add_result :
    (r : SubmissionResult) (s : SummaryStats) (fn : Bytes)
    → IsMade r
    → number_at (add_result r s).top_banned_functions fn
      ≡ number_at s.top_banned_functions fn + count_hits fn r.scan.hits
number_at-add_result r s fn made =
    ap (λ m. number_at m fn)
      (top-count_clean r.status (count_banned r.scan (count_compile r.compile s)))
    ∙ number_at-count_banned r.scan (count_compile r.compile s) fn made.1
    ∙ ap (λ m. number_at m fn + count_hits fn r.scan.hits) (top-count_compile r.compile s)

summarize_lem :
    (rs : List SubmissionResult) (s : SummaryStats) → All IsMade rs → Adds s (summarize rs s) rs
unfolding summarize sum_hits function_hits count_clean_status count_banned_status
summarize_lem [] s made = record {
  same_total = refl;
  compiled = omega arith;
  hits = omega arith;
  cleaned = omega arith;
  passed = omega arith;
  functions = λ fn. omega arith;
}
summarize_lem (r ∷ rs) s made =
    let (total, compiled, hits, cleaned, passed) = add_result_lem r s made.0 in
    let rest = summarize_lem rs (add_result r s) made.1 in
    let (c, b) = statuses_split r rs in
    record {
      same_total = rest.same_total ∙ total;
      compiled = omega (arith, compiled, rest.compiled);
      hits = omega (arith, hits, rest.hits);
      cleaned = omega (arith, cleaned, rest.cleaned, c);
      passed = omega (arith, passed, rest.passed, c, b);
      functions = λ fn. omega (arith, rest.functions fn, number_at-add_result r s fn made.0);
    }

-- For results made by the package's constructors, a summary's total is their number; the passed,
-- failed and timed-out compilations add up to it; the passed ones are the clean and the banned
-- submissions together; the banned hits are all the hits of the scans; and the count of each
-- function, 0 where the map has no entry, is the number of hits that name it.
pub compute_summary_counts :
    (rs : List SubmissionResult) (duration_ms : ℕ)
    → All IsMade rs
    → let s = compute_summary rs duration_ms in
      (s.total_submissions ≡ length rs)
      × (s.compile_pass + s.compile_fail + s.compile_timeout ≡ length rs)
      × (s.clean_submissions ≡ count_clean_status rs)
      × (s.compile_pass ≡ count_clean_status rs + count_banned_status rs)
      × (s.banned_hits_total ≡ sum_hits rs)
      × ((fn : Bytes) → number_at s.top_banned_functions fn ≡ function_hits fn rs)
unfolding compute_summary lookup
compute_summary_counts rs duration_ms made =
    let v = summarize_lem rs _ made in
    (
      v.same_total,
      omega (arith, v.compiled),
      omega (arith, v.cleaned),
      omega (arith, v.passed),
      omega (arith, v.hits),
      λ fn. omega (arith, v.functions fn),
    )
