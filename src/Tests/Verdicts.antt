-- ===== src/Tests/Verdicts.antt =====
-- Output comparison, Valgrind logs, test cases, scenarios and reports at small inputs.
use aut_oscan_engine.Prelude.{
  ◌+◌, ◌≡◌, ◌≤◌, ◌≢◌, ◌↔◌, refl, List, [], ◌∷◌, ◌++◌, true, false, Option, none, some, arith,
  length, All, replicate,
}
use aut_oscan_engine.Prelude.Text.{Bytes, codes, trim_space}
use aut_oscan_engine.Output.{OutputMatch, compute_output_diff, normalize, split_lines}
use aut_oscan_engine.Output.Laws.{
  old_side, new_side, compute_output_diff_sides, IsSame, compute_output_diff_blank_lines,
}
use aut_oscan_engine.Output.Reading.{IsAlike, compute_output_diff_status}
use aut_oscan_engine.Valgrind.{ValgrindStatus, Patterns, result_fails, parse_valgrind_log}
use aut_oscan_engine.Valgrind.Laws.{IsJudged, parse_valgrind_log-IsJudged}
use aut_oscan_engine.Cases.{ExecuteResult, CaseStatus, test_case_result}
use aut_oscan_engine.Cases.Execute.{
  no_error, TestCase, Runner, execute_test_case, run_ok, crash_reason_from_exit, execute_outcome,
  compare_case, run_test_cases,
}
use aut_oscan_engine.Cases.Summary.{IsSummary, run_test_cases-IsSummary}
use aut_oscan_engine.Cases.Laws.{
  execute_case_pass, execute_case_missing_file, execute_case_blank_log,
}
use aut_oscan_engine.Cases.Processes.{
  ProcessResult, ScenarioOutcome, new_multi_process_result, apply_outcome,
}
use aut_oscan_engine.Cases.Processes.Laws.{apply_outcome_passed, IsOrdered}
use aut_oscan_engine.Report.{
  Submission, CompileResult, BannedHit, SubmissionResult, new_scan_result, new_submission_result,
  number_at, compute_summary, read_source_file,
}
use aut_oscan_engine.Report.Laws.{
  IsMade, count_clean_status, count_banned_status, sum_hits, function_hits, compute_summary_counts,
}

compute_output_diff_status_example :
    (((compute_output_diff (codes "a\n") (codes "b")).0 ≡ OutputMatch.pass)
      ↔ IsAlike (codes "a\n") (codes "b"))
    × (((compute_output_diff (codes "a\n") (codes "b")).0 ≡ OutputMatch.fail)
        ↔ (¬ IsAlike (codes "a\n") (codes "b")))
    × ((compute_output_diff (codes "a\n") (codes "b")).0 ≡ OutputMatch.pass
        → (compute_output_diff (codes "a\n") (codes "b")).1 ≡ [])
compute_output_diff_status_example = compute_output_diff_status (codes "a\n") (codes "b")

outputs_differ : normalize (codes "a\nb\n") ≢ normalize (codes "a\nc")
unfolding normalize
outputs_differ h = ground (arith, h)

same_line_count :
    length (split_lines (normalize (codes "a\nb\n")))
    ≡ length (split_lines (normalize (codes "a\nc")))
unfolding normalize split_lines
same_line_count = refl

few_lines : length (split_lines (normalize (codes "a\nb\n"))) ≤ 250
unfolding normalize split_lines
few_lines = omega arith

compute_output_diff_sides_example :
    let diff = (compute_output_diff (codes "a\nb\n") (codes "a\nc")).1 in
    (old_side diff ≡ split_lines (normalize (codes "a\nb\n")))
    × (new_side diff ≡ split_lines (normalize (codes "a\nc")))
compute_output_diff_sides_example =
    compute_output_diff_sides (codes "a\nb\n") (codes "a\nc") outputs_differ same_line_count
      few_lines

one_blank_line :
    split_lines (normalize (codes "a\n\n"))
    ≡ split_lines (normalize (codes "a\n")) ++ replicate 1 []
unfolding normalize split_lines
one_blank_line = refl

compute_output_diff_blank_lines_example :
    ((compute_output_diff (codes "a\n") (codes "a\n\n")).0 ≡ OutputMatch.fail)
    × All IsSame (compute_output_diff (codes "a\n") (codes "a\n\n")).1
compute_output_diff_blank_lines_example =
    compute_output_diff_blank_lines (codes "a\n") (codes "a\n\n") 0 one_blank_line

-- Patterns that find one error and nothing else.
abbrev one_error : Patterns
one_error = record {
  error_summary = λ log. some (codes "1");
  leaks = λ log. [];
  descriptors = λ log. none;
  descriptor_entries = λ log. [];
}

parse_valgrind_log-IsJudged_example :
    IsJudged (parse_valgrind_log one_error (codes "ERROR SUMMARY: 1 errors") [])
parse_valgrind_log-IsJudged_example =
    parse_valgrind_log-IsJudged one_error (codes "ERROR SUMMARY: 1 errors") []

abbrev plain_case : TestCase
plain_case = record {
  name = codes "t1";
  args = [];
  input = [];
  produced_file = [];
  expected_output_file = codes "t1.txt";
}

abbrev file_case : TestCase
file_case = record {
  name = codes "t2";
  args = codes "-o" ∷ [];
  input = [];
  produced_file = codes "out.txt";
  expected_output_file = codes "t2.txt";
}

execute_case_pass_example :
    let r =
      compare_case plain_case
        (some (codes "ok"))
        none
        (execute_outcome no_error (codes "ok") [] 5 false none) in
    ((test_case_result r 0 none).status ≡ CaseStatus.pass) ↔ (
      (run_ok no_error ≡ true)
      × (false ≡ false)
      × (crash_reason_from_exit no_error false ≡ [])
      × (result_fails none ≡ false)
      × (r.output_match ≢ OutputMatch.fail))
execute_case_pass_example =
    execute_case_pass no_error (codes "ok") [] 5 false none plain_case (some (codes "ok")) none none
      0

-- A program that writes nothing.
abbrev idle_runner : Runner
idle_runner = record {
  execute = λ args input files. (execute_outcome no_error [] [] 1 false none, files);
  remove_ok = λ files name. true;
  expected_output = λ name. some (codes "42");
}

stale_file_is_missing :
    (execute_test_case idle_runner file_case ((codes "out.txt", codes "42") ∷ [])).0.output_match
    ≡ OutputMatch.missing
unfolding execute_test_case execute_outcome
stale_file_is_missing = refl

abbrev always_ok : TestCase → ExecuteResult × Option Bytes
always_ok tc = (execute_outcome no_error [] [] 1 false none, none)

run_test_cases-IsSummary_example :
    IsSummary 2 (run_test_cases always_ok true false (plain_case ∷ file_case ∷ []))
run_test_cases-IsSummary_example =
    run_test_cases-IsSummary always_ok true false (plain_case ∷ file_case ∷ [])

no_valgrind : result_fails none ≡ false
unfolding result_fails
no_valgrind = refl

expects_a_file : file_case.expected_output_file ≢ []
expects_a_file h = ground (arith, h)

produces_a_file : file_case.produced_file ≢ []
produces_a_file h = ground (arith, h)

execute_case_missing_file_example :
    let r =
      compare_case file_case
        (some (codes "42"))
        none
        (execute_outcome no_error [] [] 5 false none) in
    ((test_case_result r 0 none).status ≡ CaseStatus.pass) × (r.output_match ≡ OutputMatch.missing)
execute_case_missing_file_example =
    execute_case_missing_file [] [] 5 none file_case (codes "42") none 0 expects_a_file
      produces_a_file no_valgrind

abbrev no_file_case : TestCase
no_file_case = record {
  name = codes "t3";
  args = [];
  input = [];
  produced_file = [];
  expected_output_file = [];
}

blank_log : trim_space (codes " \n") ≡ []
unfolding trim_space
blank_log = refl

abbrev blank_run : ExecuteResult
blank_run =
    execute_outcome no_error [] [] 1 false (some (parse_valgrind_log one_error (codes " \n") []))

not_compared : (compare_case no_file_case none none blank_run).output_match ≢ OutputMatch.fail
unfolding compare_case
not_compared h = ground (arith, h)

execute_case_blank_log_example :
    ((test_case_result (compare_case no_file_case none none blank_run) 0 none).status
      ≡ CaseStatus.pass)
    × ((parse_valgrind_log one_error (codes " \n") []).status ≡ ValgrindStatus.fail)
execute_case_blank_log_example =
    execute_case_blank_log one_error (codes " \n") [] [] [] 1 no_file_case none none none 0
      blank_log not_compared

abbrev new_process : ProcessResult
new_process = record {
  name = codes "server";
  source_file = codes "server.c";
  stdout = [];
  stderr = [];
  duration = 0;
  timed_out = false;
  killed = false;
  crash_reason = [];
  started_at = none;
  finished_at = none;
  passed = false;
  output_match = OutputMatch.unset;
  output_diff = [];
  valgrind = none;
}

abbrev clean_exit : ScenarioOutcome
clean_exit = record {
  index = 0;
  stdout = codes "hi";
  stderr = [];
  started_at = some 3;
  finished_at = some 8;
  timed_out = false;
  killed = false;
  start_failed = false;
  crash_reason = [];
}

apply_outcome_passed_example :
    let p = apply_outcome (codes "e.txt") (some (codes "hi")) none clean_exit new_process in
    (p.passed ≡ true) ↔ (
      (clean_exit.start_failed ≡ false)
      × (clean_exit.killed ≡ false)
      × (clean_exit.crash_reason ≡ [])
      × (p.output_match ≢ OutputMatch.fail)
      × (p.output_match ≢ OutputMatch.missing)
      × (clean_exit.started_at ≢ none → result_fails none ≡ false))
apply_outcome_passed_example =
    apply_outcome_passed (codes "e.txt") (some (codes "hi")) none clean_exit new_process

none-IsOrdered : IsOrdered new_multi_process_result
unfolding new_multi_process_result
none-IsOrdered = (refl, tt)

abbrev compiled : CompileResult
compiled = record {
  ok = true;
  command = codes "gcc" ∷ [];
  stdout = [];
  stderr = [];
  duration_ms = 7;
  timed_out = false;
}

abbrev hit : BannedHit
hit = record { function = codes "gets"; file = codes "a.c"; line = 1; column = 2; snippet = [] }

abbrev submission : Submission
submission = record { id = codes "s"; path = codes "/s"; c_files = codes "a.c" ∷ [] }

abbrev results : List SubmissionResult
results =
    new_submission_result submission compiled (new_scan_result (hit ∷ hit ∷ []) [])
    ∷ new_submission_result submission compiled (new_scan_result [] [])
    ∷ []

results-IsMade : All IsMade results
unfolding new_submission_result new_scan_result
results-IsMade = ((refl, refl), ((refl, refl), tt))

compute_summary_counts_example :
    let s = compute_summary results 9 in
    (s.total_submissions ≡ 2)
    × (s.compile_pass + s.compile_fail + s.compile_timeout ≡ 2)
    × (s.clean_submissions ≡ count_clean_status results)
    × (s.compile_pass ≡ count_clean_status results + count_banned_status results)
    × (s.banned_hits_total ≡ sum_hits results)
    × ((fn : Bytes) → number_at s.top_banned_functions fn ≡ function_hits fn results)
compute_summary_counts_example = compute_summary_counts results 9 results-IsMade

abbrev dos_text : Bytes
dos_text = 97 ∷ 13 ∷ 10 ∷ 98 ∷ 13 ∷ []

dos_read : read_source_file (some dos_text) ≡ some (97 ∷ 10 ∷ 98 ∷ 10 ∷ [])
unfolding read_source_file
dos_read = refl
