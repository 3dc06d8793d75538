-- ===== src/Cases/Summary.antt =====
-- What the summary of a submission's test cases counts.
use aut_oscan_engine.Prelude.{
  ℕ, suc, ◌+◌, ◌≡◌, inl, inr, refl, ap, Bool, not, ◌||◌, Bool-cases, List, [], ◌∷◌, ◌++◌,
  append-nil, append_assoc, ◌∙◌, sym, Option, arith, length,
}
use aut_oscan_engine.Prelude.Text.{Bytes}
use aut_oscan_engine.Output.{OutputMatch}
use aut_oscan_engine.Cases.{
  ExecuteResult, pass, TestCaseResult, TestSummary, add_case, add_cases, new_test_summary,
}
use aut_oscan_engine.Cases.Execute.{TestCase, failed_payloads, payloads, run_test_cases}

counts : TestSummary → ℕ
counts s = s.passed + s.failed + s.compile_failed

counts-add_case : (s : TestSummary) (r : TestCaseResult) → counts (add_case s r) ≡ counts s + 1
unfolding counts add_case
counts-add_case s r = ground arith

cases-add_case : (s : TestSummary) (r : TestCaseResult) → (add_case s r).cases ≡ s.cases ++ (r ∷ [])
unfolding add_case
cases-add_case s r = ground arith

total-add_case : (s : TestSummary) (r : TestCaseResult) → (add_case s r).total ≡ s.total
unfolding add_case
total-add_case s r = ground arith

-- The number of results with a given status or with a missing file.
pub count_passing : List TestCaseResult → ℕ
count_passing [] = 0
count_passing (r ∷ rs) = let rest = count_passing rs in elim r.status [ pass ↦ suc rest | _ ↦ rest ]

pub count_missing : List TestCaseResult → ℕ
count_missing [] = 0
count_missing (r ∷ rs) =
    let rest = count_missing rs in elim r.output_match [ OutputMatch.missing ↦ suc rest | _ ↦ rest ]

record Summed (s out : TestSummary) (rs : List TestCaseResult) : Type 0 where
  all_counted : counts out ≡ counts s + length rs
  same_total : out.total ≡ s.total
  appended : out.cases ≡ s.cases ++ rs
  passing : out.passed ≡ s.passed + count_passing rs
  missing_files : out.missing_expected_output ≡ s.missing_expected_output + count_missing rs

passing-add_case :
    (s : TestSummary) (r : TestCaseResult) (rs : List TestCaseResult)
    → (add_case s r).passed + count_passing rs ≡ s.passed + count_passing (r ∷ rs)
unfolding add_case count_passing
passing-add_case s r rs = ground arith

missing-add_case :
    (s : TestSummary) (r : TestCaseResult) (rs : List TestCaseResult)
    → (add_case s r).missing_expected_output + count_missing rs
      ≡ s.missing_expected_output + count_missing (r ∷ rs)
unfolding add_case count_missing
missing-add_case s r rs = ground arith

add_cases_lem : (s : TestSummary) (rs : List TestCaseResult) → Summed s (add_cases s rs) rs
unfolding add_cases count_passing count_missing
add_cases_lem s [] = record {
  all_counted = omega arith;
  same_total = refl;
  appended = sym (append-nil s.cases);
  passing = omega arith;
  missing_files = omega arith;
}
add_cases_lem s (r ∷ rs) =
    let rest = add_cases_lem (add_case s r) rs in
    record {
      all_counted = omega (arith, rest.all_counted, counts-add_case s r);
      same_total = rest.same_total ∙ total-add_case s r;
      appended =
          rest.appended ∙ ap (λ l. l ++ rs) (cases-add_case s r) ∙ append_assoc s.cases (r ∷ []) rs;
      passing = rest.passing ∙ passing-add_case s r rs;
      missing_files = rest.missing_files ∙ missing-add_case s r rs;
    }

length-failed_payloads : (i : ℕ) (tcs : List TestCase) → length (failed_payloads i tcs) ≡ length tcs
unfolding failed_payloads
length-failed_payloads i [] = refl
length-failed_payloads i (tc ∷ tcs) = ap suc (length-failed_payloads (i + 1) tcs)

length-payloads :
    (execute : TestCase → ExecuteResult × Option Bytes) (i : ℕ) (tcs : List TestCase)
    → length (payloads execute i tcs) ≡ length tcs
unfolding payloads
length-payloads execute i [] = refl
length-payloads execute i (tc ∷ tcs) = ap suc (length-payloads execute (i + 1) tcs)

-- A summary of `n` cases is counted as their list is.
abbrev pub IsSummary : ℕ → TestSummary → Type 0
IsSummary n s =
    (s.total ≡ n)
    × (length s.cases ≡ n)
    × (s.passed + s.failed + s.compile_failed ≡ n)
    × (s.passed ≡ count_passing s.cases)
    × (s.missing_expected_output ≡ count_missing s.cases)

add_cases-IsSummary :
    (n : ℕ) (rs : List TestCaseResult)
    → length rs ≡ n
    → IsSummary n (add_cases (new_test_summary n) rs)
unfolding new_test_summary counts
add_cases-IsSummary n rs e =
    let v = add_cases_lem (new_test_summary n) rs in
    (
      v.same_total,
      ap length v.appended ∙ e,
      omega (arith, v.all_counted),
      omega (arith, v.passing, ap count_passing v.appended),
      omega (arith, v.missing_files, ap count_missing v.appended),
    )

-- However a submission compiled and ran, its summary has one case for each test case of the policy,
-- its passed, failed and compile-failed cases add up to the total, and its passed and missing counts
-- are those of its cases with that status and with a missing file.
pub run_test_cases-IsSummary :
    (execute : TestCase → ExecuteResult × Option Bytes) (compile_ok compile_timed_out : Bool)
    (tcs : List TestCase)
    → IsSummary (length tcs) (run_test_cases execute compile_ok compile_timed_out tcs)
unfolding run_test_cases
run_test_cases-IsSummary execute compile_ok compile_timed_out tcs =
    elim (Bool-cases (compile_timed_out || not compile_ok)) [
      | inl e ↦
          rw e (
            add_cases-IsSummary (length tcs) (failed_payloads 0 tcs) (length-failed_payloads 0 tcs))
      | inr e ↦ rw e (
          add_cases-IsSummary (length tcs) (payloads execute 0 tcs) (length-payloads execute 0 tcs))
    ]
