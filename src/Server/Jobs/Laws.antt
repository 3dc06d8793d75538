-- ===== src/Server/Jobs/Laws.antt =====
-- Every step keeps what holds of the jobs.
use aut_oscan_engine.Prelude.{
  ℕ, ◌≡◌, refl, Bool, [], none, some, inl, inr, arith, Bool-cases, Option-cases, not-none-eq-some,
  ltb,
}
use aut_oscan_engine.Prelude.Text.{Bytes}
use aut_oscan_engine.Prelude.Maps.{lookup}
use aut_oscan_engine.Server.Progress.{valid_progress_token}
use aut_oscan_engine.Server.Activity.{new_activity, begin, end}
use aut_oscan_engine.Server.Jobs.{
  Job, waiting, live, GradeForm, job_at, set_job, ContextState, check_form, start_job, grade_async,
  time_out, cancel_grade, cancel_context, expire_context, acquire_now, slot_capacity,
}
use aut_oscan_engine.Server.Jobs.Steps.{
  Server, with_jobs, Step, progressing, starting, cancelling, timing_out, reporting, acquiring,
  request_begins, request_ends, Steps, stay, go, new_server, holders_after,
}
use aut_oscan_engine.Server.Jobs.Invariant.{
  holds_slot, counts, sum_of, sum_of-set_same, sum_of-append, IsSound, set_job-IsTracked,
  insert-IsTracked,
}
use aut_oscan_engine.Server.Jobs.Moves.{Advance-IsSound}

-- The context of a job changes.
context-IsSound :
    (s : Server) (p : ℕ) (c : ContextState)
    → IsSound s
    → IsSound (with_jobs s (set_job s.jobs p (record (job_at s.jobs p) { context = c })))
context-IsSound s p c h =
    let j : Job = record (job_at s.jobs p) { context = c } in
    record {
      slot_held = omega (arith, h.slot_held, sum_of-set_same holds_slot s.jobs.jobs p j refl);
      slot_bound = h.slot_bound;
      active = omega (arith, h.active, sum_of-set_same counts s.jobs.jobs p j refl);
      tracked = set_job-IsTracked s.jobs p j refl refl h.tracked;
    }

cancel_grade-IsSound :
    (s : Server) (run_id : Bytes) → IsSound s → IsSound (with_jobs s (cancel_grade run_id s.jobs).0)
unfolding cancel_grade
cancel_grade-IsSound s run_id h = elim (Bool-cases (valid_progress_token run_id)) [
  | inr n ↦ rw n h
  | inl y ↦ elim (Option-cases (lookup s.jobs.registered run_id)) [
    | inl e ↦ rw (y, e) h
    | inr (p, e) ↦ rw (y, e) (context-IsSound s p (cancel_context (job_at s.jobs p).context) h)
  ]
]

acquire_now-IsSound :
    (s : Server) (now : ℕ) (token : Bytes)
    → IsSound s
    → IsSound (record s {
      jobs = (acquire_now now token s.jobs).0;
      holders = holders_after (acquire_now now token s.jobs).1 s.holders;
    })
unfolding acquire_now
acquire_now-IsSound s now token h = elim (Bool-cases (ltb s.jobs.slot slot_capacity)) [
  | inl free ↦ rw free (record {
    slot_held = omega (arith, h.slot_held);
    slot_bound = ground (arith, free);
    active = h.active;
    tracked = record { sound = h.tracked.sound; complete = h.tracked.complete };
  })
  | inr full ↦ rw full (record {
    slot_held = h.slot_held;
    slot_bound = h.slot_bound;
    active = h.active;
    tracked = record { sound = h.tracked.sound; complete = h.tracked.complete };
  })
]

start_job-IsSound :
    (s : Server) (now : ℕ) (run_id : Bytes)
    → lookup s.jobs.registered run_id ≡ none
    → IsSound s
    → IsSound (with_jobs s (start_job now (some run_id) s.jobs).0)
unfolding start_job begin
start_job-IsSound s now run_id new h =
    let j : Job = record { run_id = run_id; phase = waiting; context = live } in
    let t = insert-IsTracked s.jobs j new refl h.tracked in
    record {
      slot_held = omega (arith, h.slot_held, sum_of-append holds_slot s.jobs.jobs j);
      slot_bound = h.slot_bound;
      active = omega (arith, h.active, sum_of-append counts s.jobs.jobs j);
      tracked = record { sound = t.sound; complete = t.complete };
    }

grade_async-IsSound :
    (s : Server) (callback_valid : Bytes → Bool) (form : GradeForm) (now : ℕ) (run_id : Bytes)
    → lookup s.jobs.registered run_id ≡ none
    → IsSound s
    → IsSound (with_jobs s (grade_async callback_valid form now (some run_id) s.jobs).0)
unfolding grade_async
grade_async-IsSound s callback_valid form now run_id new h =
    elim (Option-cases (check_form callback_valid form)) [
      | inl e ↦ rw (e, grade_async) (start_job-IsSound s now run_id new h)
      | inr (x, e) ↦ rw (e, grade_async) h
    ]

pub Step-IsSound : {s t : Server} → Step s t → IsSound s → IsSound t
unfolding time_out begin end
Step-IsSound (progressing a) h = Advance-IsSound a h
Step-IsSound {s} (starting callback_valid form now run_id new) h =
    grade_async-IsSound s callback_valid form now run_id new h
Step-IsSound {s} (cancelling run_id) h = cancel_grade-IsSound s run_id h
Step-IsSound {s} (timing_out p) h = context-IsSound s p (expire_context (job_at s.jobs p).context) h
Step-IsSound (reporting now token fraction stage) h = record {
  slot_held = h.slot_held;
  slot_bound = h.slot_bound;
  active = h.active;
  tracked = record { sound = h.tracked.sound; complete = h.tracked.complete };
}
Step-IsSound {s} (acquiring now token) h = acquire_now-IsSound s now token h
Step-IsSound request_begins h = record {
  slot_held = h.slot_held;
  slot_bound = h.slot_bound;
  active = omega (arith, h.active);
  tracked = record { sound = h.tracked.sound; complete = h.tracked.complete };
}
Step-IsSound (request_ends now l) h = record {
  slot_held = h.slot_held;
  slot_bound = h.slot_bound;
  active = omega (arith, h.active, l);
  tracked = record { sound = h.tracked.sound; complete = h.tracked.complete };
}

pub Steps-IsSound : {s t : Server} → Steps s t → IsSound s → IsSound t
Steps-IsSound stay h = h
Steps-IsSound (go a r) h = Steps-IsSound r (Step-IsSound a h)

nowhere : (k : Bytes) (p : ℕ) → ¬ (lookup {A = ℕ} [] k ≡ some p)
unfolding lookup
nowhere k p h = not-none-eq-some h

pub new_server-IsSound : (now : ℕ) → IsSound (new_server now)
unfolding sum_of new_activity
new_server-IsSound now = record {
  slot_held = refl;
  slot_bound = omega arith;
  active = refl;
  tracked = record {
    sound = λ k p h. absurd (nowhere k p h);
    complete = λ p l r. absurd (omega (arith, l));
  };
}
