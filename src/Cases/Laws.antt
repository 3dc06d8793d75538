-- ===== src/Cases/Laws.antt =====
-- When a test case passes.
use aut_oscan_engine.Prelude.{
  ℕ, ◌≡◌, ◌≢◌, ◌↔◌, refl, Bool, true, false, not, ◌&&◌, [], ◌∙◌, sym, Option, none, some, arith,
}
use aut_oscan_engine.Prelude.Text.{Bytes, bytes_eq, bytes_eq_iff, trim_space}
use aut_oscan_engine.Output.{OutputMatch}
use aut_oscan_engine.Valgrind.{
  ValgrindResult, ValgrindStatus, Patterns, result_fails, parse_valgrind_log,
}
use aut_oscan_engine.Valgrind.Laws.{parse_valgrind_log_blank}
use aut_oscan_engine.Cases.{
  ExecuteResult, pass, case_status, test_case_result, new_execute_result, with_valgrind, with_crash,
}
use aut_oscan_engine.Cases.Execute.{
  RunError, no_error, TestCase, run_ok, crash_reason_from_exit, execute_outcome, compare_case,
}

-- A test case passes exactly if it did not time out, has no crash reason, was marked passed, its
-- output does not differ from the expected one, and its Valgrind result does not fail. An expected
-- or produced file that is missing does not stop it.
pub test_case_result_pass :
    (r : ExecuteResult) (index : ℕ) (expected : Option Bytes)
    → ((test_case_result r index expected).status ≡ pass) ↔ (
        (r.timed_out ≡ false)
        × (r.crash_reason ≡ [])
        × (r.passed ≡ true)
        × (r.output_match ≢ OutputMatch.fail)
        × (result_fails r.valgrind ≡ false))
unfolding test_case_result case_status
test_case_result_pass r index expected =
    (ground (arith, bytes_eq_iff r.crash_reason []), ground (arith, bytes_eq_iff r.crash_reason []))

compare_case_keeps :
    (tc : TestCase) (expected produced : Option Bytes) (e : ExecuteResult)
    → let r = compare_case tc expected produced e in
      (r.timed_out ≡ e.timed_out)
      × (r.crash_reason ≡ e.crash_reason)
      × (r.passed ≡ e.passed)
      × (r.valgrind ≡ e.valgrind)
unfolding compare_case
compare_case_keeps tc none produced e = ground arith
compare_case_keeps tc (some x) none e = ground arith
compare_case_keeps tc (some x) (some p) e = ground arith

execute_outcome_parts :
    (error : RunError) (out err : Bytes) (duration : ℕ) (timed_out : Bool)
    (valgrind : Option ValgrindResult)
    → let r = execute_outcome error out err duration timed_out valgrind in
      (r.timed_out ≡ timed_out)
      × (r.crash_reason ≡ crash_reason_from_exit error timed_out)
      × (r.valgrind ≡ valgrind)
      × (r.passed ≡ (
          ((run_ok error && not timed_out) && not (result_fails valgrind))
          && bytes_eq (crash_reason_from_exit error timed_out) []))
unfolding execute_outcome new_execute_result with_valgrind with_crash
execute_outcome_parts error out err duration timed_out valgrind = (refl, refl, refl, refl)

-- The case of a whole run, from the way the process ended to the comparison, passes exactly if the
-- process was started, did not time out and gave no crash reason, its Valgrind result does not fail,
-- and the comparison did not find a difference.
pub execute_case_pass :
    (error : RunError) (out err : Bytes) (duration : ℕ) (timed_out : Bool)
    (valgrind : Option ValgrindResult) (tc : TestCase) (expected produced shown : Option Bytes)
    (index : ℕ)
    → let r =
        compare_case tc expected produced
          (execute_outcome error out err duration timed_out valgrind) in
      ((test_case_result r index shown).status ≡ pass) ↔ (
        (run_ok error ≡ true)
        × (timed_out ≡ false)
        × (crash_reason_from_exit error timed_out ≡ [])
        × (result_fails valgrind ≡ false)
        × (r.output_match ≢ OutputMatch.fail))
execute_case_pass error out err duration timed_out valgrind tc expected produced shown index =
    let e = execute_outcome error out err duration timed_out valgrind in
    let kept = compare_case_keeps tc expected produced e in
    let parts = execute_outcome_parts error out err duration timed_out valgrind in
    let verdict = test_case_result_pass (compare_case tc expected produced e) index shown in
    let crash = bytes_eq_iff (crash_reason_from_exit error timed_out) [] in
    (ground (arith, kept, parts, verdict, crash), ground (arith, kept, parts, verdict, crash))

missing-ne-fail : OutputMatch.missing ≢ OutputMatch.fail
missing-ne-fail e = cc

missing_file_match :
    (tc : TestCase) (expected : Bytes) (r : ExecuteResult)
    → tc.expected_output_file ≢ []
    → tc.produced_file ≢ []
    → (compare_case tc (some expected) none r).output_match ≡ OutputMatch.missing
unfolding compare_case
missing_file_match tc expected r h p =
    ground (arith, bytes_eq_iff tc.expected_output_file [], bytes_eq_iff tc.produced_file [])

-- A program that was to produce a file, exits cleanly, and produces none, passes the test case: the
-- comparison only marks the file as missing.
pub execute_case_missing_file :
    (out err : Bytes) (duration : ℕ) (valgrind : Option ValgrindResult) (tc : TestCase)
    (expected : Bytes) (shown : Option Bytes) (index : ℕ)
    → tc.expected_output_file ≢ []
    → tc.produced_file ≢ []
    → result_fails valgrind ≡ false
    → let r =
        compare_case tc
          (some expected)
          none
          (execute_outcome no_error out err duration false valgrind) in
      ((test_case_result r index shown).status ≡ pass) × (r.output_match ≡ OutputMatch.missing)
unfolding crash_reason_from_exit
execute_case_missing_file out err duration valgrind tc expected shown index h p f =
    let e = execute_outcome no_error out err duration false valgrind in
    let missing = missing_file_match tc expected e h p in
    (
      (execute_case_pass no_error out err duration false valgrind tc (some expected) none shown
            index).1
          (refl, refl, refl, f, λ x. missing-ne-fail (sym missing ∙ x)),
      missing,
    )

-- A program that exits cleanly and whose Valgrind log is blank passes every test case whose output
-- is not found to differ, although its Valgrind result has the status fail.
pub execute_case_blank_log :
    (patterns : Patterns) (log log_path out err : Bytes) (duration : ℕ) (tc : TestCase)
    (expected produced shown : Option Bytes) (index : ℕ)
    → trim_space log ≡ []
    → let v = parse_valgrind_log patterns log log_path in
      let r =
        compare_case tc expected produced
          (execute_outcome no_error out err duration false (some v)) in
      r.output_match ≢ OutputMatch.fail
      → ((test_case_result r index shown).status ≡ pass) × (v.status ≡ ValgrindStatus.fail)
unfolding crash_reason_from_exit result_fails
execute_case_blank_log patterns log log_path out err duration tc expected produced shown index blank
      differs =
    let v = parse_valgrind_log patterns log log_path in
    let (failed, silent) = parse_valgrind_log_blank patterns log log_path blank in
    (
      (execute_case_pass no_error out err duration false (some v) tc expected produced shown
            index).1
          (refl, refl, refl, silent, differs),
      failed,
    )
