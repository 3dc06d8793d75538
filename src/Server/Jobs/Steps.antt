-- ===== src/Server/Jobs/Steps.antt =====
-- The steps of a server with grading jobs: each is one operation of Server/Jobs.antt or of a request.
use aut_oscan_engine.Prelude.{ℕ, ◌+◌, ◌-◌, ◌≤◌, ◌≡◌, ◌≢◌, Bool, true, false, [], Option, none, some}
use aut_oscan_engine.Prelude.Text.{Bytes}
use aut_oscan_engine.Prelude.Maps.{lookup}
use aut_oscan_engine.Server.Progress.{report_progress}
use aut_oscan_engine.Server.Activity.{new_activity, begin, end}
use aut_oscan_engine.Uploads.Disk.{UploadError}
use aut_oscan_engine.Server.Jobs.{
  Jobs, GradeForm, live, waiting, working, returned, settled, deregistered, job_at, grade_async,
  take_slot, give_up, release_slot, settle, deregister, leave, time_out, cancel_grade, acquire_now,
  release_other,
}

-- With the number of handlers that hold the slot and are no jobs, and that of requests, which count
-- as activity.
pub record Server : Type 0 where
  pub jobs : Jobs
  pub holders : ℕ
  pub requests : ℕ

abbrev pub with_jobs : Server → Jobs → Server
with_jobs s w = record s { jobs = w }

-- A handler that got the slot is one more; one that did not waits, and tries again in a later step.
abbrev pub holders_after : Bool → ℕ → ℕ
holders_after true n = n + 1
holders_after false n = n

-- What the jobs and the handlers that hold the slot do on their own.
pub data Advance : Server → Server → Type 0 where
  taking :
      {s : Server} (p : ℕ)
      → (job_at s.jobs p).phase ≡ waiting
      → Advance s (with_jobs s (take_slot p s.jobs))
  giving_up :
      {s : Server} (p : ℕ)
      → (job_at s.jobs p).phase ≡ waiting
      → (job_at s.jobs p).context ≢ live
      → Advance s (with_jobs s (give_up p s.jobs))
  releasing :
      {s : Server} (p : ℕ) (result : Option UploadError)
      → (job_at s.jobs p).phase ≡ working
      → Advance s (with_jobs s (release_slot p result s.jobs))
  settling :
      {s : Server} (now p : ℕ) (result : Option UploadError)
      → (job_at s.jobs p).phase ≡ returned result
      → Advance s (with_jobs s (settle now p result s.jobs))
  deregistering :
      {s : Server} (p : ℕ)
      → (job_at s.jobs p).phase ≡ settled
      → Advance s (with_jobs s (deregister p s.jobs))
  leaving :
      {s : Server} (now p : ℕ)
      → (job_at s.jobs p).phase ≡ deregistered
      → Advance s (with_jobs s (leave now p s.jobs))
  other_releasing :
      {s : Server}
      → 1 ≤ s.holders
      → Advance s (record s { jobs = release_other s.jobs; holders = s.holders - 1 })

-- Those, and what requests and the clock do. A run's id is new.
pub data Step : Server → Server → Type 0 where
  progressing : {s t : Server} → Advance s t → Step s t
  starting :
      {s : Server} (callback_valid : Bytes → Bool) (form : GradeForm) (now : ℕ) (run_id : Bytes)
      → lookup s.jobs.registered run_id ≡ none
      → Step s (with_jobs s (grade_async callback_valid form now (some run_id) s.jobs).0)
  cancelling : {s : Server} (run_id : Bytes) → Step s (with_jobs s (cancel_grade run_id s.jobs).0)
  timing_out : {s : Server} (p : ℕ) → Step s (with_jobs s (time_out p s.jobs))
  reporting :
      {s : Server} (now : ℕ) (token : Bytes) (fraction : ℕ) (stage : Bytes)
      → Step s (
          with_jobs s
            (record s.jobs { tracker = report_progress now token fraction stage s.jobs.tracker }))
  acquiring :
      {s : Server} (now : ℕ) (token : Bytes)
      → Step s (record s {
        jobs = (acquire_now now token s.jobs).0;
        holders = holders_after (acquire_now now token s.jobs).1 s.holders;
      })
  request_begins :
      {s : Server}
      → Step s (record s {
        jobs = record s.jobs { activity = begin s.jobs.activity };
        requests = s.requests + 1;
      })
  request_ends :
      {s : Server} (now : ℕ)
      → 1 ≤ s.requests
      → Step s (record s {
        jobs = record s.jobs { activity = end now s.jobs.activity };
        requests = s.requests - 1;
      })

-- Any number of steps.
pub data Steps : Server → Server → Type 0 where
  stay : {s : Server} → Steps s s
  go : {s t u : Server} → Step s t → Steps t u → Steps s u

-- A server that has just started.
abbrev pub new_server : ℕ → Server
new_server now = record {
  jobs = record { jobs = []; registered = []; slot = 0; tracker = []; activity = new_activity now };
  holders = 0;
  requests = 0;
}
