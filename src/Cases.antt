-- ===== src/Cases.antt =====
-- Execution results, test cases and their summary, and multi-process results: the rest of
-- pkg/domain/execute.go, with applyOutcome's verdict and computeMultiProcessStatus of
-- internal/engine/executor.go. Times are numbers of milliseconds.
pub mod Laws
pub mod Summary
pub mod Execute
pub mod Processes
use aut_oscan_engine.Prelude.{
  ℕ, zero, suc, ◌+◌, Bool, true, false, not, ◌&&◌, ◌||◌, List, [], ◌∷◌, ◌++◌, Option, none, some,
  if◌then◌else◌,
}
use aut_oscan_engine.Prelude.Text.{Bytes, codes, bytes_eq}
use aut_oscan_engine.Output.{OutputMatch, unset, DiffLine}
use aut_oscan_engine.Valgrind.{ValgrindResult, ValgrindStatus, result_fails}

pub data OutputSource : Type 0 where
  no_source stdout file : OutputSource

pub record ExecuteResult : Type 0 where
  pub ok : Bool
  pub stdout : Bytes
  pub stderr : Bytes
  pub duration : ℕ
  pub timed_out : Bool
  pub crash_reason : Bytes
  pub test_case_name : Bytes
  pub passed : Bool
  pub output_match : OutputMatch
  pub output_diff : List DiffLine
  pub output_source : OutputSource
  pub produced_file : Bytes
  pub valgrind : Option ValgrindResult

pub data CaseStatus : Type 0 where
  pass timeout crashed fail compile_failed : CaseStatus

pub record TestCaseResult : Type 0 where
  pub index : ℕ
  pub name : Bytes
  pub status : CaseStatus
  pub duration_ms : ℕ
  pub message : Bytes
  pub output_match : OutputMatch
  pub output_source : OutputSource
  pub produced_file : Bytes
  pub stdout : Bytes
  pub stderr : Bytes
  pub expected_output : Option Bytes
  pub actual_output : Option Bytes
  pub diff_lines : List DiffLine
  pub valgrind : Option ValgrindResult

pub record TestSummary : Type 0 where
  pub total : ℕ
  pub passed : ℕ
  pub failed : ℕ
  pub compile_failed : ℕ
  pub missing_expected_output : ℕ
  pub cases : List TestCaseResult

unfoldable pub new_execute_result : Bool → Bytes → Bytes → ℕ → Bool → ExecuteResult
new_execute_result ok out err duration timed_out = record {
  ok = ok;
  stdout = out;
  stderr = err;
  duration = duration;
  timed_out = timed_out;
  crash_reason = [];
  test_case_name = [];
  passed = ok && not timed_out;
  output_match = unset;
  output_diff = [];
  output_source = no_source;
  produced_file = [];
  valgrind = none;
}

abbrev pub with_test_case : Bytes → ExecuteResult → ExecuteResult
with_test_case name r = record r { test_case_name = name }

unfoldable pub with_valgrind : Option ValgrindResult → ExecuteResult → ExecuteResult
unfolding result_fails
with_valgrind valgrind r = record r {
  valgrind = valgrind;
  passed = r.passed && not (result_fails valgrind);
}

unfoldable pub with_crash : Bytes → ExecuteResult → ExecuteResult
unfolding bytes_eq
with_crash reason r = record r { crash_reason = reason; passed = r.passed && bytes_eq reason [] }

abbrev pub is_fail : OutputMatch → Bool
is_fail OutputMatch.fail = true
is_fail _ = false

abbrev pub is_missing : OutputMatch → Bool
is_missing OutputMatch.missing = true
is_missing _ = false

-- The ladder of conditions of `TestCaseResult`.
unfoldable pub case_status : ExecuteResult → CaseStatus
unfolding bytes_eq result_fails
case_status r =
    if r.timed_out
    then timeout
    else if not (bytes_eq r.crash_reason [])
    then crashed
    else if not r.passed
    then fail
    else if is_fail r.output_match
    then fail
    else if result_fails r.valgrind
    then fail
    else pass

-- The message of a result whose tool is missing is the tool's.
abbrev missing_message : Option ValgrindResult → Option Bytes
missing_message none = none
missing_message (some v) = elim v.status [ ValgrindStatus.missing ↦ some v.message | _ ↦ none ]

unfoldable pub case_message : ExecuteResult → Bytes
unfolding bytes_eq result_fails
case_message r =
    let valgrind_message : Bytes = elim (missing_message r.valgrind) [
      | some m ↦ m
      | none ↦
          if result_fails r.valgrind
          then codes "Valgrind reported memory or file descriptor issues."
          else []
    ] in
    if not (bytes_eq r.crash_reason [])
    then codes "Program crashed: " ++ r.crash_reason
    else if is_missing r.output_match
    then codes "Expected output file was not found."
    else valgrind_message

unfoldable pub test_case_result : ExecuteResult → ℕ → Option Bytes → TestCaseResult
unfolding case_status case_message
test_case_result r index expected_output = record {
  index = index;
  name = r.test_case_name;
  status = case_status r;
  duration_ms = r.duration;
  message = case_message r;
  output_match = r.output_match;
  output_source = r.output_source;
  produced_file = r.produced_file;
  stdout = r.stdout;
  stderr = r.stderr;
  expected_output = expected_output;
  actual_output = some r.stdout;
  diff_lines = r.output_diff;
  valgrind = r.valgrind;
}

unfoldable pub new_compile_failed_result : ℕ → Bytes → TestCaseResult
new_compile_failed_result index name = record {
  index = index;
  name = name;
  status = compile_failed;
  duration_ms = 0;
  message = codes "Compilation failed; test was not executed.";
  output_match = unset;
  output_source = no_source;
  produced_file = [];
  stdout = [];
  stderr = [];
  expected_output = none;
  actual_output = none;
  diff_lines = [];
  valgrind = none;
}

unfoldable pub new_test_summary : ℕ → TestSummary
new_test_summary total = record {
  total = total;
  passed = 0;
  failed = 0;
  compile_failed = 0;
  missing_expected_output = 0;
  cases = [];
}

abbrev count_status : CaseStatus → TestSummary → TestSummary
count_status pass s = record s { passed = s.passed + 1 }
count_status compile_failed s = record s { compile_failed = s.compile_failed + 1 }
count_status _ s = record s { failed = s.failed + 1 }

unfoldable pub add_case : TestSummary → TestCaseResult → TestSummary
add_case s result =
    let counted = count_status result.status (record s { cases = s.cases ++ (result ∷ []) }) in
    if is_missing result.output_match
    then record counted { missing_expected_output = counted.missing_expected_output + 1 }
    else counted

unfoldable pub add_cases : TestSummary → List TestCaseResult → TestSummary
unfolding add_case
add_cases s [] = s
add_cases s (r ∷ rs) = add_cases (add_case s r) rs
