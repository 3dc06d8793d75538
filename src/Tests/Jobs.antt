-- ===== src/Tests/Jobs.antt =====
-- A server with two grading jobs, of which the first works.
use aut_oscan_engine.Prelude.{ℕ, ◌≡◌, ◌≢◌, refl, false, List, [], ◌∷◌, none, some, arith}
use aut_oscan_engine.Prelude.Text.{Bytes, codes}
use aut_oscan_engine.Prelude.Maps.{lookup}
use aut_oscan_engine.Server.Progress.{ProgressEntry, get_progress, valid_progress_token}
use aut_oscan_engine.Server.Progress.Spec.{Operation, setting, finishing, token_steps}
use aut_oscan_engine.Server.Progress.Refine.{perform_all, perform_all_refines}
use aut_oscan_engine.Server.Activity.{exits}
use aut_oscan_engine.Uploads.Disk.{system_error}
use aut_oscan_engine.Server.Jobs.{
  GradeForm, canceled, job_at, set_job, grade_async, take_slot, cancel_grade, Jobs, release_slot,
  settle, settled, live, cancel_context,
}
use aut_oscan_engine.Server.Jobs.Steps.{
  Server, with_jobs, progressing, starting, taking, stay, go, new_server,
}
use aut_oscan_engine.Server.Jobs.Safety.{
  IsReachable, reachable-slot, reachable-exits, reachable-cancel_grade,
}
use aut_oscan_engine.Server.Jobs.Settling.{ShowsResult, settle_lem}
use aut_oscan_engine.Server.Jobs.Liveness.{Advances, IsQuiet, reachable-IsQuiet}

abbrev form : GradeForm
form = record {
  assignment = codes "lab1";
  r2_key = codes "up.zip";
  result_key_prefix = codes "results";
  callback_url = [];
}

abbrev one_job : Server
one_job =
    with_jobs (new_server 0)
      (grade_async (λ url. false) form 5 (some (codes "r1")) (new_server 0).jobs).0

abbrev two_jobs : Server
two_jobs = with_jobs one_job (grade_async (λ url. false) form 6 (some (codes "r2")) one_job.jobs).0

abbrev at_work : Server
at_work = with_jobs two_jobs (take_slot 0 two_jobs.jobs)

at_work_reached : IsReachable at_work
unfolding grade_async lookup
at_work_reached = (
  0,
  go (starting (λ url. false) form 5 (codes "r1") refl) (
      go (starting (λ url. false) form 6 (codes "r2") refl)
        (go (progressing (taking 0 refl)) stay)),
)

reachable-slot_example : (◌≡◌ {A = ℕ} 0 0) × (at_work.holders ≡ 0)
unfolding grade_async take_slot
reachable-slot_example = reachable-slot at_work 0 0 at_work_reached refl refl

reachable-exits_example : exits 1800 9000 at_work.jobs.activity ≡ false
unfolding grade_async take_slot
reachable-exits_example =
    reachable-exits at_work 1 1800 9000 at_work_reached (omega arith) (λ e. cc)

reachable-cancel_grade_example :
    cancel_grade (codes "r2") at_work.jobs
    ≡ (set_job at_work.jobs 1 (record (job_at at_work.jobs 1) { context = canceled }), none)
unfolding grade_async take_slot valid_progress_token cancel_context
reachable-cancel_grade_example = reachable-cancel_grade at_work 1 at_work_reached refl refl

reachable-IsQuiet_example : (t : Server) × Advances at_work t × IsQuiet t
reachable-IsQuiet_example = reachable-IsQuiet at_work at_work_reached

-- The first job has returned with an error.
abbrev come_back : Jobs
come_back = release_slot 0 (some system_error) at_work.jobs

settle_lem_example :
    ((job_at (settle 9 0 (some system_error) come_back) 0).phase ≡ settled)
    × ((e : ProgressEntry) × (get_progress
            (codes "r1")
            (settle 9 0 (some system_error) come_back).tracker
          ≡ some e)
        × ShowsResult live (some system_error) 10000 e
        × (e.stage ≡ codes "Queued"))
    × ((token : Bytes)
        → token ≢ codes "r1"
        → get_progress token (settle 9 0 (some system_error) come_back).tracker
          ≡ get_progress token come_back.tracker)
unfolding grade_async take_slot release_slot get_progress
settle_lem_example = settle_lem 9 0 (some system_error) come_back refl (λ e. cc)

-- A run that is cancelled, and one that is not told of for too long.
abbrev operations : List Operation
operations =
    setting 0 (codes "r1") 20000 (codes "Queued")
    ∷ setting 5 (codes "r2") 20000 (codes "Queued")
    ∷ finishing 9 (codes "r2") false (codes "grading cancelled")
    ∷ setting 907 (codes "r3") 10000 (codes "Queued")
    ∷ []

perform_all_refines_example :
    get_progress (codes "r2") (perform_all operations []) ≡ token_steps (codes "r2") operations none
perform_all_refines_example = perform_all_refines operations (codes "r2")
