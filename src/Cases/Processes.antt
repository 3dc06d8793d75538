-- ===== src/Cases/Processes.antt =====
-- Results of several processes: `AddProcess` of pkg/domain/execute.go, `applyOutcome` and
-- computeMultiProcessStatus of internal/engine/executor.go. A zero time is `none`.
pub mod Laws
use aut_oscan_engine.Prelude.{
  ℕ, zero, suc, ◌+◌, ◌-◌, Bool, true, false, not, ◌&&◌, ◌||◌, List, [], ◌∷◌, ◌++◌, Option, none,
  some, if◌then◌else◌,
}
use aut_oscan_engine.Prelude.Text.{Bytes, bytes_eq}
use aut_oscan_engine.Prelude.Maps.{lookup, insert}
use aut_oscan_engine.Output.{OutputMatch, DiffLine, compute_output_diff}
use aut_oscan_engine.Valgrind.{ValgrindResult, result_fails}
use aut_oscan_engine.Cases.{is_fail, is_missing}

pub record ProcessResult : Type 0 where
  pub name : Bytes
  pub source_file : Bytes
  pub stdout : Bytes
  pub stderr : Bytes
  pub duration : ℕ
  pub timed_out : Bool
  pub killed : Bool
  pub crash_reason : Bytes
  pub started_at : Option ℕ
  pub finished_at : Option ℕ
  pub passed : Bool
  pub output_match : OutputMatch
  pub output_diff : List DiffLine
  pub valgrind : Option ValgrindResult

pub record MultiProcessResult : Type 0 where
  pub processes : List (Bytes × ProcessResult)
  pub order : List Bytes
  pub total_duration : ℕ
  pub all_passed : Bool
  pub scenario_name : Bytes

unfoldable pub new_multi_process_result : MultiProcessResult
new_multi_process_result = record {
  processes = [];
  order = [];
  total_duration = 0;
  all_passed = false;
  scenario_name = [];
}

unfoldable pub add_process : Bytes → ProcessResult → MultiProcessResult → MultiProcessResult
unfolding lookup insert
add_process name result m =
    let order : List Bytes = elim (lookup m.processes name) [
      | none ↦ m.order ++ (name ∷ [])
      | some _ ↦ m.order
    ] in
    record m { order = order; processes = insert m.processes name result }

-- What came of running one process of a scenario.
pub record ScenarioOutcome : Type 0 where
  pub index : ℕ
  pub stdout : Bytes
  pub stderr : Bytes
  pub started_at : Option ℕ
  pub finished_at : Option ℕ
  pub timed_out : Bool
  pub killed : Bool
  pub start_failed : Bool
  pub crash_reason : Bytes

-- A process does not finish before it starts, so the difference does not fall below 0.
abbrev elapsed : Option ℕ → Option ℕ → ℕ → ℕ
elapsed (some start) (some finish) before = finish - start
elapsed _ _ before = before

-- The comparison with the expected output: the scenario names a file for the process or none (an
-- empty name), and its contents are there or not.
unfoldable pub compare_process :
    Bytes → Option Bytes → Bytes → OutputMatch × List DiffLine → OutputMatch × List DiffLine
unfolding bytes_eq compute_output_diff
compare_process file expected out before =
    if bytes_eq file [] then (OutputMatch.none, before.1) else elim expected [
      | none ↦ (OutputMatch.missing, before.1)
      | some e ↦ compute_output_diff e out
    ]

-- The Valgrind result is read only for a process that was started.
abbrev with_log : Option ℕ → Option ValgrindResult → ProcessResult → ProcessResult
with_log none v r = r
with_log (some start) v r = record r {
  valgrind = v;
  passed = if result_fails v then false else r.passed;
}

unfoldable pub apply_outcome :
    Bytes → Option Bytes → Option ValgrindResult → ScenarioOutcome → ProcessResult → ProcessResult
unfolding compare_process bytes_eq
apply_outcome file expected valgrind o r =
    let (status, diff) = compare_process file expected o.stdout (r.output_match, r.output_diff) in
    let passed = (not o.start_failed && not o.killed) && bytes_eq o.crash_reason [] in
    with_log o.started_at valgrind (record r {
      started_at = o.started_at;
      finished_at = o.finished_at;
      duration = elapsed o.started_at o.finished_at r.duration;
      stdout = o.stdout;
      stderr = o.stderr;
      timed_out = o.timed_out;
      killed = o.killed;
      crash_reason = o.crash_reason;
      output_match = status;
      output_diff = diff;
      passed = if is_fail status || is_missing status then false else passed;
    })

unfoldable pub all_pass : List (Bytes × ProcessResult) → Bool
all_pass [] = true
all_pass (e ∷ processes) =
    let rest = all_pass processes in if e.1.killed || not e.1.passed then false else rest

unfoldable pub compute_multi_process_status : MultiProcessResult → MultiProcessResult
unfolding all_pass
compute_multi_process_status m = record m { all_passed = all_pass m.processes }
