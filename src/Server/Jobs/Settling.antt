-- ===== src/Server/Jobs/Settling.antt =====
-- What the progress of a run shows once its job has returned.
use aut_oscan_engine.Prelude.{
  ℕ, ◌≡◌, ◌≢◌, ◌∙◌, refl, sym, ap, Bool, true, false, [], Option, none, some, arith,
  get_or-set_same,
}
use aut_oscan_engine.Prelude.Text.{Bytes, codes, bytes_eq, bytes_eq_iff, bytes_eq_refl}
use aut_oscan_engine.Prelude.Maps.{lookup}
use aut_oscan_engine.Server.Progress.{ProgressEntry, Tracker, done, failed, finish, get_progress}
use aut_oscan_engine.Server.Progress.Spec.{fraction_of, stage_of, finished, finishing, token_step}
use aut_oscan_engine.Server.Progress.Refine.{finishing_lem}
use aut_oscan_engine.Uploads.Disk.{UploadError, http_error, system_error}
use aut_oscan_engine.Server.Jobs.{
  Job, Jobs, ContextState, live, canceled, deadline_exceeded, returned, settled, ended, job_at,
  blank_job, settle_with, settle, is_canceled, public_job_error,
}
use aut_oscan_engine.Server.Jobs.Invariant.{counts-lt}

-- What a run that failed says: that it was cancelled, or the message of a request error; nothing of
-- any other error is told.
abbrev pub shown_text : ContextState → UploadError → Bytes
shown_text canceled e = codes "grading cancelled"
shown_text live (http_error status msg) = msg
shown_text live system_error = codes "grading failed"
shown_text deadline_exceeded (http_error status msg) = msg
shown_text deadline_exceeded system_error = codes "grading failed"

-- The entry of a run by how its job returned and what its context was: a run without an error is
-- done, also where it was cancelled; one with an error failed, and its bar stays where it was.
abbrev pub ShowsResult : ContextState → Option UploadError → ℕ → ProgressEntry → Type 0
ShowsResult context none before e = (e.state ≡ done) × (e.fraction ≡ 1000000)
ShowsResult context (some x) before e =
    (e.state ≡ failed) × (e.detail ≡ shown_text context x) × (e.fraction ≡ before)

-- The call of `finish` that a return leads to.
abbrev is_ok : Option UploadError → Bool
is_ok none = true
is_ok (some x) = false

abbrev text_of : ContextState → Option UploadError → Bytes
text_of context none = []
text_of context (some x) = shown_text context x

settle_with-finish :
    (now : ℕ) (id : Bytes) (j : Job) (context : ContextState) (result : Option UploadError)
    (t : Tracker)
    → j.run_id ≡ id
    → j.context ≡ context
    → settle_with now j result t ≡ finish now id (is_ok result) (text_of context result) t
unfolding settle_with is_canceled public_job_error
settle_with-finish now id j context none t e c = ap (λ i. finish now i true [] t) e
settle_with-finish now id j canceled (some x) t e c =
    rw c (ap (λ i. finish now i false (codes "grading cancelled") t) e)
settle_with-finish now id j live (some (http_error status msg)) t e c =
    rw c (ap (λ i. finish now i false msg t) e)
settle_with-finish now id j live (some system_error) t e c =
    rw c (ap (λ i. finish now i false (codes "grading failed") t) e)
settle_with-finish now id j deadline_exceeded (some (http_error status msg)) t e c =
    rw c (ap (λ i. finish now i false msg t) e)
settle_with-finish now id j deadline_exceeded (some system_error) t e c =
    rw c (ap (λ i. finish now i false (codes "grading failed") t) e)

finished-ShowsResult :
    (now : ℕ) (context : ContextState) (result : Option UploadError) (o : Option ProgressEntry)
    → let e = finished now (is_ok result) (text_of context result) o in
      ShowsResult context result (fraction_of o) e × (e.stage ≡ stage_of o)
finished-ShowsResult now context none o = ((refl, refl), refl)
finished-ShowsResult now context (some x) o = ((refl, refl, refl), refl)

finish_same :
    (now : ℕ) (id : Bytes) (ok : Bool) (detail : Bytes) (t : Tracker)
    → id ≢ []
    → get_progress id (finish now id ok detail t)
      ≡ some (finished now ok detail (get_progress id t))
unfolding get_progress
finish_same now id ok detail t h =
    let named : bytes_eq id [] ≡ false = ground (arith, bytes_eq_iff id [], h) in
    let taken : token_step id (finishing now id ok detail) (lookup t id)
        ≡ some (finished now ok detail (lookup t id)) =
      rw (bytes_eq_refl id, named) refl in
    finishing_lem now id id ok detail t ∙ taken

finish_other :
    (now : ℕ) (id token : Bytes) (ok : Bool) (detail : Bytes) (t : Tracker)
    → token ≢ id
    → get_progress token (finish now id ok detail t) ≡ get_progress token t
unfolding get_progress
finish_other now id token ok detail t h =
    let differ : bytes_eq id token ≡ false =
      ground (arith, bytes_eq_iff id token, λ (e : id ≡ token). h (sym e)) in
    let left : token_step token (finishing now id ok detail) (lookup t token) ≡ lookup t token =
      rw differ refl in
    finishing_lem now id token ok detail t ∙ left

-- When the goroutine of a job goes on after `executeGradeJob` has returned, the job is settled, and
-- its run shows what it has come to: done with a whole bar if there was no error; and if there was
-- one, failed where its bar stood, with "grading cancelled" if the context was cancelled, the message
-- of a request error, or "grading failed" for any other error, which is not told. The stage that it
-- shows stays, and what every other run shows. The run has an id.
pub settle_lem :
    (now p : ℕ) (result : Option UploadError) (w : Jobs)
    → (job_at w p).phase ≡ returned result
    → (job_at w p).run_id ≢ []
    → let j = job_at w p in
      let after = settle now p result w in
      let before = get_progress j.run_id w.tracker in
      ((job_at after p).phase ≡ settled)
      × ((e : ProgressEntry) × (get_progress j.run_id after.tracker ≡ some e)
          × ShowsResult j.context result (fraction_of before) e
          × (e.stage ≡ stage_of before))
      × ((token : Bytes)
          → token ≢ j.run_id
          → get_progress token after.tracker ≡ get_progress token w.tracker)
unfolding settle
settle_lem now p result w ret named =
    let j = job_at w p in
    let ok = is_ok result in
    let detail = text_of j.context result in
    let lt = counts-lt w p (λ e. returned-not-ended result (sym ret ∙ e)) in
    let calls = settle_with-finish now j.run_id j j.context result w.tracker refl refl in
    let (shows, stage) =
      finished-ShowsResult now j.context result (get_progress j.run_id w.tracker) in
    (
      ap (λ (x : Job). x.phase)
          (get_or-set_same w.jobs p (record j { phase = settled }) blank_job lt),
      (
        finished now ok detail (get_progress j.run_id w.tracker),
        ap (get_progress j.run_id) calls ∙ finish_same now j.run_id ok detail w.tracker named,
        shows,
        stage,
      ),
      λ token other.
          ap (get_progress token) calls ∙ finish_other now j.run_id token ok detail w.tracker other,
    )
  where
    returned-not-ended : (r : Option UploadError) → ¬ (returned r ≡ ended)
    returned-not-ended r e = cc
