-- ===== src/Cases/Execute.antt =====
-- The verdict of one test case: `Execute` from the end of the run on, crashReasonFromExit and
-- `ExecuteTestCase` of internal/engine/executor.go, and runTestCases of
-- cmd/autoscan-server/grade.go. What the run and the files yield is an argument.
use aut_oscan_engine.Prelude.{
  ℕ, ◌+◌, ◌-◌, Bool, true, false, not, ◌||◌, ◌&&◌, List, [], ◌∷◌, Option, none, some, ltb, ◌==◌,
  if◌then◌else◌, length,
}
use aut_oscan_engine.Prelude.Text.{Bytes, codes, bytes_eq}
use aut_oscan_engine.Prelude.Maps.{lookup, delete}
use aut_oscan_engine.Output.{OutputMatch, compute_output_diff}
use aut_oscan_engine.Valgrind.{ValgrindResult}
use aut_oscan_engine.Cases.{
  ExecuteResult, OutputSource, TestCaseResult, TestSummary, new_execute_result, with_test_case,
  with_valgrind, with_crash, test_case_result, new_compile_failed_result, new_test_summary,
  add_cases,
}

-- How `cmd.Run` ended: an exit with its code and, if killed by one, its signal; or no exit at all.
pub data RunError : Type 0 where
  no_error : RunError
  exit_error : ℕ → Option ℕ → RunError
  other_error : Bytes → RunError

-- The signal numbers are Linux's.
unfoldable pub signal_reason : ℕ → Bool → Bytes
signal_reason sig timed_out =
    if sig == 11
    then codes "segmentation fault"
    else if sig == 6
    then codes "aborted"
    else if sig == 8
    then codes "arithmetic exception"
    else if sig == 7
    then codes "bus error"
    else if sig == 4
    then codes "illegal instruction"
    else if sig == 9
    then (if timed_out then [] else codes "out of memory")
    else []

unfoldable pub crash_reason_from_exit : RunError → Bool → Bytes
unfolding signal_reason
crash_reason_from_exit no_error timed_out = []
crash_reason_from_exit (other_error e) timed_out = []
crash_reason_from_exit (exit_error code signal) timed_out =
    let signalled : ℕ = elim signal [ none ↦ 0 | some s ↦ s ] in
    signal_reason (if ltb 128 code then code - 128 else signalled) timed_out

abbrev pub run_ok : RunError → Bool
run_ok no_error = true
run_ok (exit_error code signal) = true
run_ok (other_error e) = false

-- An error that is no exit is shown where the program wrote nothing to stderr.
abbrev pub shown_stderr : RunError → Bytes → Bytes
shown_stderr (other_error e) [] = e
shown_stderr _ err = err

unfoldable pub execute_outcome :
    RunError → Bytes → Bytes → ℕ → Bool → Option ValgrindResult → ExecuteResult
unfolding new_execute_result with_valgrind with_crash crash_reason_from_exit
execute_outcome error out err duration timed_out valgrind =
    with_crash (crash_reason_from_exit error timed_out) (
      with_valgrind valgrind
        (new_execute_result (run_ok error) out (shown_stderr error err) duration timed_out))

pub record TestCase : Type 0 where
  pub name : Bytes
  pub args : List Bytes
  pub input : Bytes
  pub produced_file : Bytes
  pub expected_output_file : Bytes

abbrev compared : ExecuteResult → OutputSource → Bytes → Bytes → Bytes → ExecuteResult
compared r source file expected actual =
    let (status, diff) = compute_output_diff expected actual in
    record r {
      output_match = status;
      output_diff = diff;
      output_source = source;
      produced_file = file;
    }

abbrev not_found : ExecuteResult → OutputSource → Bytes → ExecuteResult
not_found r source file = record r {
  output_match = OutputMatch.missing;
  output_source = source;
  produced_file = file;
}

-- What the executed result becomes once the program has run, given the contents of the expected and of the produced file.
unfoldable pub compare_case : TestCase → Option Bytes → Option Bytes → ExecuteResult → ExecuteResult
unfolding bytes_eq compute_output_diff
compare_case tc expected produced executed =
    let r = with_test_case tc.name executed in
    let to_file = not (bytes_eq tc.produced_file []) in
    if bytes_eq tc.expected_output_file []
    then record r { output_match = OutputMatch.none }
    else elim expected [
      | none ↦
          if to_file
          then not_found r OutputSource.file tc.produced_file
          else not_found r OutputSource.stdout r.produced_file
      | some e ↦
          if to_file
          then elim produced [
            | none ↦ not_found r OutputSource.file tc.produced_file
            | some p ↦ compared r OutputSource.file tc.produced_file e p
          ]
          else compared r OutputSource.stdout r.produced_file e r.stdout
    ]

-- The folder that the program runs in, by the names of its files; and what the code asks for: a run
-- with arguments and input, which may change the folder, whether a file can be removed from it, and
-- the expected outputs.
pub record Runner : Type 0 where
  pub execute : List Bytes → Bytes → List (Bytes × Bytes) → ExecuteResult × List (Bytes × Bytes)
  pub remove_ok : List (Bytes × Bytes) → Bytes → Bool
  pub expected_output : Bytes → Option Bytes

-- A file left behind by an earlier test case is removed; an error of `os.Remove` is dropped.
unfoldable pub remove_stale : Runner → TestCase → List (Bytes × Bytes) → List (Bytes × Bytes)
unfolding bytes_eq delete
remove_stale runner tc files =
    if not (bytes_eq tc.produced_file []) && runner.remove_ok files tc.produced_file
    then delete files tc.produced_file
    else files

-- The result, and the folder after the run.
unfoldable pub execute_test_case :
    Runner → TestCase → List (Bytes × Bytes) → ExecuteResult × List (Bytes × Bytes)
unfolding lookup remove_stale compare_case
execute_test_case runner tc files =
    let (executed, after) = runner.execute tc.args tc.input (remove_stale runner tc files) in
    (
      compare_case tc (runner.expected_output tc.expected_output_file)
          (lookup after tc.produced_file) executed,
      after,
    )

-- The loops of runTestCases over the cases from index `i` on. `execute` gives each case's result
-- and the expected text that is shown with it.
unfoldable pub failed_payloads : ℕ → List TestCase → List TestCaseResult
unfolding new_compile_failed_result
failed_payloads i [] = []
failed_payloads i (tc ∷ tcs) = new_compile_failed_result i tc.name ∷ failed_payloads (i + 1) tcs

unfoldable pub payloads :
    (TestCase → ExecuteResult × Option Bytes) → ℕ → List TestCase → List TestCaseResult
unfolding test_case_result
payloads execute i [] = []
payloads execute i (tc ∷ tcs) =
    let (r, expected) = execute tc in test_case_result r i expected ∷ payloads execute (i + 1) tcs

unfoldable pub run_test_cases :
    (TestCase → ExecuteResult × Option Bytes) → Bool → Bool → List TestCase → TestSummary
unfolding new_test_summary add_cases failed_payloads payloads
run_test_cases execute compile_ok compile_timed_out cases =
    add_cases (new_test_summary (length cases)) (
      if compile_timed_out || not compile_ok
      then failed_payloads 0 cases
      else payloads execute 0 cases)
