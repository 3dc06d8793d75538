-- ===== src/Report.antt =====
-- Submissions, their compilation and scan, and the report of a run: pkg/domain/report.go, scan.go,
-- compile.go and submission.go. Times are numbers of milliseconds.
pub mod Laws
pub mod Lines
use aut_oscan_engine.Prelude.{
  ℕ, zero, suc, ◌+◌, ◌-◌, Bool, true, false, not, List, [], ◌∷◌, ◌++◌, Option, none, some, ltb,
  ◌==◌, if◌then◌else◌, length,
}
use aut_oscan_engine.Prelude.Text.{Bytes, bytes_eq}
use aut_oscan_engine.Prelude.Maps.{lookup, insert}
use aut_oscan_engine.Output.{replace_crlf}

pub record Submission : Type 0 where
  pub id : Bytes
  pub path : Bytes
  pub c_files : List Bytes

-- bytes.ReplaceAll of "\r" by "\n".
unfoldable pub replace_cr : Bytes → Bytes
replace_cr [] = []
replace_cr (c ∷ s) = (if c == 13 then 10 else c) ∷ replace_cr s

-- What `ReadSourceFile` returns for a file's bytes, if they could be read.
unfoldable pub read_source_file : Option Bytes → Option Bytes
unfolding replace_crlf replace_cr
read_source_file none = none
read_source_file (some content) = some (replace_cr (replace_crlf content))

pub record CompileResult : Type 0 where
  pub ok : Bool
  pub command : List Bytes
  pub stdout : Bytes
  pub stderr : Bytes
  pub duration_ms : ℕ
  pub timed_out : Bool

pub record BannedHit : Type 0 where
  pub function : Bytes
  pub file : Bytes
  pub line : ℕ
  pub column : ℕ
  pub snippet : Bytes

pub record ScanResult : Type 0 where
  pub hits : List BannedHit
  pub hits_by_function : List (Bytes × List BannedHit)
  pub parse_errors : List Bytes

unfoldable pub hits_at : List (Bytes × List BannedHit) → Bytes → List BannedHit
unfolding lookup
hits_at m fn = elim (lookup m fn) [ none ↦ [] | some hits ↦ hits ]

unfoldable pub group_from :
    List (Bytes × List BannedHit) → List BannedHit → List (Bytes × List BannedHit)
unfolding hits_at insert
group_from m [] = m
group_from m (h ∷ hs) = group_from (insert m h.function (hits_at m h.function ++ (h ∷ []))) hs

unfoldable pub new_scan_result : List BannedHit → List Bytes → ScanResult
unfolding group_from
new_scan_result hits parse_errors = record {
  hits = hits;
  hits_by_function = group_from [] hits;
  parse_errors = parse_errors;
}

abbrev pub total_hits : ScanResult → ℕ
total_hits s = length s.hits

pub data SubmissionStatus : Type 0 where
  pending running clean banned failed timed_out error : SubmissionStatus

pub record SubmissionResult : Type 0 where
  pub submission : Submission
  pub compile : CompileResult
  pub scan : ScanResult
  pub status : SubmissionStatus

unfoldable pub new_submission_result : Submission → CompileResult → ScanResult → SubmissionResult
new_submission_result sub compile scan = record {
  submission = sub;
  compile = compile;
  scan = scan;
  status =
      if compile.timed_out
      then timed_out
      else if not compile.ok
      then failed
      else if ltb 0 (total_hits scan)
      then banned
      else clean;
}

pub record SummaryStats : Type 0 where
  pub total_submissions : ℕ
  pub compile_pass : ℕ
  pub compile_fail : ℕ
  pub compile_timeout : ℕ
  pub banned_hits_total : ℕ
  pub submissions_with_banned : ℕ
  pub clean_submissions : ℕ
  pub top_banned_functions : List (Bytes × ℕ)
  pub duration_ms : ℕ

abbrev pub number_at : List (Bytes × ℕ) → Bytes → ℕ
number_at m fn = elim (lookup m fn) [ none ↦ 0 | some n ↦ n ]

-- The inner loop: `stats.TopBannedFunctions[fn] += len(hits)`.
unfoldable pub add_functions : List (Bytes × List BannedHit) → List (Bytes × ℕ) → List (Bytes × ℕ)
unfolding lookup insert
add_functions [] m = m
add_functions (e ∷ entries) m = add_functions entries (insert m e.0 (number_at m e.0 + length e.1))

unfoldable pub count_compile : CompileResult → SummaryStats → SummaryStats
count_compile c s =
    if c.timed_out
    then record s { compile_timeout = s.compile_timeout + 1 }
    else if not c.ok
    then record s { compile_fail = s.compile_fail + 1 }
    else record s { compile_pass = s.compile_pass + 1 }

unfoldable pub count_banned : ScanResult → SummaryStats → SummaryStats
unfolding add_functions
count_banned scan s =
    if ltb 0 (total_hits scan)
    then record s {
      submissions_with_banned = s.submissions_with_banned + 1;
      banned_hits_total = s.banned_hits_total + total_hits scan;
      top_banned_functions = add_functions scan.hits_by_function s.top_banned_functions;
    }
    else s

unfoldable pub count_clean : SubmissionStatus → SummaryStats → SummaryStats
count_clean clean s = record s { clean_submissions = s.clean_submissions + 1 }
count_clean _ s = s

unfoldable pub summarize : List SubmissionResult → SummaryStats → SummaryStats
unfolding count_compile count_banned count_clean
summarize [] s = s
summarize (r ∷ rs) s =
    summarize rs (count_clean r.status (count_banned r.scan (count_compile r.compile s)))

unfoldable pub compute_summary : List SubmissionResult → ℕ → SummaryStats
unfolding summarize
compute_summary results duration_ms = summarize results (record {
  total_submissions = length results;
  compile_pass = 0;
  compile_fail = 0;
  compile_timeout = 0;
  banned_hits_total = 0;
  submissions_with_banned = 0;
  clean_submissions = 0;
  top_banned_functions = [];
  duration_ms = duration_ms;
})

pub record RunReport : Type 0 where
  pub policy_name : Bytes
  pub root : Bytes
  pub started_at : ℕ
  pub finished_at : ℕ
  pub results : List SubmissionResult
  pub summary : SummaryStats

-- `elapsed` is `finishedAt.Sub(startedAt)` in milliseconds.
unfoldable pub new_run_report : Bytes → Bytes → ℕ → ℕ → ℕ → List SubmissionResult → RunReport
unfolding compute_summary
new_run_report policy_name root started_at finished_at elapsed results = record {
  policy_name = policy_name;
  root = root;
  started_at = started_at;
  finished_at = finished_at;
  results = results;
  summary = compute_summary results elapsed;
}
