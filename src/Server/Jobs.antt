-- ===== src/Server/Jobs.antt =====
-- The background grading jobs of cmd/autoscan-server/grade_async.go: what the server keeps of each,
-- and the slot that only one may hold. Each operation is a part of a handler or of a job's goroutine
-- between two points where another may run. Fractions and times are as in Server/Progress.antt.
pub mod Steps
pub mod Invariant
pub mod Moves
pub mod Laws
pub mod Safety
pub mod Liveness
pub mod Settling
use aut_oscan_engine.Prelude.{
  ℕ, zero, suc, ◌+◌, ◌-◌, Bool, true, false, not, ◌||◌, List, [], ◌∷◌, ◌++◌, Option, none, some,
  ◌&&◌, ◌==◌, ltb, if◌then◌else◌, length, get_or, set,
}
use aut_oscan_engine.Prelude.Text.{Bytes, codes, bytes_eq, trim_space}
use aut_oscan_engine.Prelude.Maps.{lookup, insert, delete}
use aut_oscan_engine.Server.Progress.{
  Tracker, set_progress, finish, report_progress, valid_progress_token,
}
use aut_oscan_engine.Server.Activity.{Activity, begin, end}
use aut_oscan_engine.Uploads.Disk.{UploadError, http_error, system_error, bad_request}

-- `ctx.Err()`.
pub data ContextState : Type 0 where
  live canceled deadline_exceeded : ContextState

-- A job's goroutine: it waits for the slot, works in it, has returned from `executeGradeJob` with
-- what that returned, has finished its progress, is no more in the map of jobs, or has ended.
pub data Phase : Type 0 where
  waiting working : Phase
  returned : Option UploadError → Phase
  settled deregistered ended : Phase

pub record Job : Type 0 where
  pub run_id : Bytes
  pub phase : Phase
  pub context : ContextState

-- The channel `gradeSlot` holds `slot` values; the map of jobs leads to their places in `jobs`.

pub record Jobs : Type 0 where
  pub jobs : List Job
  pub registered : List (Bytes × ℕ)
  pub slot : ℕ
  pub tracker : Tracker
  pub activity : Activity

-- The capacity of the channel.
abbrev pub slot_capacity : ℕ
slot_capacity = 1

abbrev pub blank_job : Job
blank_job = record { run_id = []; phase = ended; context = live }

abbrev pub job_at : Jobs → ℕ → Job
job_at w p = get_or w.jobs p blank_job

abbrev pub set_job : Jobs → ℕ → Job → Jobs
set_job w p j = record w { jobs = set w.jobs p j }

abbrev pub move_to : Jobs → ℕ → Phase → Jobs
move_to w p phase = set_job w p (record (job_at w p) { phase = phase })

-- The fields of the form.
pub record GradeForm : Type 0 where
  pub assignment : Bytes
  pub r2_key : Bytes
  pub result_key_prefix : Bytes
  pub callback_url : Bytes

unfoldable pub has_byte : ℕ → Bytes → Bool
has_byte c [] = false
has_byte c (d ∷ s) = c == d || has_byte c s

-- strings.ContainsAny with a slash and a backslash.
unfoldable pub valid_assignment_name : Bytes → Bool
unfolding bytes_eq has_byte
valid_assignment_name name =
    not (bytes_eq name []) && not (has_byte b'/' name || has_byte b'\\' name)

-- The error that a form is refused with; `callback_valid` is callback.Valid.
unfoldable pub check_form : (Bytes → Bool) → GradeForm → Option UploadError
unfolding trim_space valid_assignment_name bytes_eq
check_form callback_valid form =
    let callback_url = trim_space form.callback_url in
    if not (valid_assignment_name (trim_space form.assignment))
    then some (bad_request "invalid assignment name")
    else if bytes_eq (trim_space form.r2_key) []
    then some (bad_request "missing 'r2_key' field")
    else if bytes_eq (trim_space form.result_key_prefix) []
    then some (bad_request "missing 'result_key_prefix' field")
    else if not (bytes_eq callback_url []) && not (callback_valid callback_url)
    then some (bad_request "invalid 'callback_url' field")
    else none

-- What a request for a run answers.
pub data Accepted : Type 0 where
  refused : UploadError → Accepted
  accepted : (run_id : Bytes) → Accepted

-- `newRunID` may fail.
unfoldable pub start_job : ℕ → Option Bytes → Jobs → Jobs × Accepted
unfolding insert begin set_progress
start_job now none w = (w, refused system_error)
start_job now (some run_id) w = (
  record w {
    jobs = w.jobs ++ (record { run_id = run_id; phase = waiting; context = live } ∷ []);
    registered = insert w.registered run_id (length w.jobs);
    activity = begin w.activity;
    tracker = set_progress now run_id 10000 (codes "Queued") w.tracker;
  },
  accepted run_id,
)

unfoldable pub grade_async : (Bytes → Bool) → GradeForm → ℕ → Option Bytes → Jobs → Jobs × Accepted
unfolding check_form start_job
grade_async callback_valid form now run_id w = elim (check_form callback_valid form) [
  | some e ↦ (w, refused e)
  | none ↦ start_job now run_id w
]

-- The `select` at the start of `executeGradeJob`: the job works if the channel has room, else it waits
-- on.
unfoldable pub take_slot : ℕ → Jobs → Jobs
take_slot p w =
    if ltb w.slot slot_capacity then (record (move_to w p working) { slot = w.slot + 1 }) else w

-- The same where the context is done.
unfoldable pub give_up : ℕ → Jobs → Jobs
give_up p w = move_to w p (returned (some system_error))

-- `executeGradeJob` returns, and its deferred call takes the value off the channel.
unfoldable pub release_slot : ℕ → Option UploadError → Jobs → Jobs
release_slot p err w = record (move_to w p (returned err)) { slot = w.slot - 1 }

unfoldable pub public_job_error : UploadError → Bytes
public_job_error (http_error status msg) = msg
public_job_error system_error = codes "grading failed"

unfoldable pub is_canceled : ContextState → Bool
is_canceled canceled = true
is_canceled _ = false

-- `runGradeJob` once `executeGradeJob` has returned.
unfoldable pub settle_with : ℕ → Job → Option UploadError → Tracker → Tracker
unfolding finish is_canceled public_job_error
settle_with now j none t = finish now j.run_id true [] t
settle_with now j (some e) t =
    if is_canceled j.context
    then finish now j.run_id false (codes "grading cancelled") t
    else finish now j.run_id false (public_job_error e) t

unfoldable pub settle : ℕ → ℕ → Option UploadError → Jobs → Jobs
unfolding settle_with
settle now p result w = record (move_to w p settled) {
  tracker = settle_with now (job_at w p) result w.tracker;
}

-- A cancelled context stays what it was first.
unfoldable pub cancel_context : ContextState → ContextState
cancel_context live = canceled
cancel_context c = c

-- The deferred calls, in the order in which they run: the context is cancelled and the job deleted
-- from the map, then it is no more activity. Cancelling a context again changes nothing, so the first
-- two are one part.
abbrev pub deregistered_job : Job → Job
deregistered_job j = record j { phase = deregistered; context = cancel_context j.context }

unfoldable pub deregister : ℕ → Jobs → Jobs
unfolding delete
deregister p w = record (set_job w p (deregistered_job (job_at w p))) {
  registered = delete w.registered (job_at w p).run_id;
}

unfoldable pub leave : ℕ → ℕ → Jobs → Jobs
unfolding end
leave now p w = record (move_to w p ended) { activity = end now w.activity }

unfoldable pub expire_context : ContextState → ContextState
expire_context live = deadline_exceeded
expire_context c = c

-- The deadline of a job's context passes.
unfoldable pub time_out : ℕ → Jobs → Jobs
unfolding expire_context
time_out p w = set_job w p (record (job_at w p) { context = expire_context (job_at w p).context })

-- `none` is 204, No Content.
unfoldable pub cancel_grade : Bytes → Jobs → Jobs × Option UploadError
unfolding valid_progress_token lookup cancel_context
cancel_grade run_id w =
    if not (valid_progress_token run_id)
    then (w, some (bad_request "invalid run id"))
    else elim (lookup w.registered run_id) [
      | none ↦ (w, some (http_error 404 (codes "unknown run")))
      | some p ↦ (
        set_job w p (record (job_at w p) { context = cancel_context (job_at w p).context }),
        none,
      )
    ]

-- `acquireGradeSlot` of sandbox_handler.go, for a handler that is no job: its first `select`, which
-- takes a free slot or reports that it waits.
unfoldable pub acquire_now : ℕ → Bytes → Jobs → Jobs × Bool
unfolding report_progress
acquire_now now token w =
    if ltb w.slot slot_capacity then (record w { slot = w.slot + 1 }, true) else (
      record w {
        tracker =
            report_progress now token 20000 (codes "Waiting for a grading run to finish") w.tracker;
      },
      false,
    )

-- A handler's deferred `<-s.gradeSlot`.
unfoldable pub release_other : Jobs → Jobs
release_other w = record w { slot = w.slot - 1 }
