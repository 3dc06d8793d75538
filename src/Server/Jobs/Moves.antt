-- ===== src/Server/Jobs/Moves.antt =====
-- What the jobs do on their own keeps what holds of them.
use aut_oscan_engine.Prelude.{
  ℕ, ◌+◌, ◌-◌, ◌<◌, ◌≡◌, ◌≢◌, ◌∙◌, refl, sym, ap, some, inl, inr, arith, Bool-cases, ltb, length,
}
use aut_oscan_engine.Server.Progress.{Tracker}
use aut_oscan_engine.Server.Activity.{Activity, end}
use aut_oscan_engine.Uploads.Disk.{system_error}
use aut_oscan_engine.Server.Jobs.{
  Job, Jobs, Phase, waiting, working, returned, settled, deregistered, ended, job_at, move_to,
  take_slot, give_up, release_slot, settle, deregister, leave, release_other, slot_capacity,
  deregistered_job,
}
use aut_oscan_engine.Server.Jobs.Steps.{
  Server, with_jobs, Advance, taking, giving_up, releasing, settling, deregistering, leaving,
  other_releasing,
}
use aut_oscan_engine.Server.Jobs.Invariant.{
  phase_holds, holds_slot, phase_counts, counts, phase_registered, sum_of, sum_of-set, IsTracked,
  IsSound, counts-lt, set_job-IsTracked, delete-IsTracked,
}

-- What a job's move does to the sums.
record Moves (w : Jobs) (p : ℕ) (a b : Phase) : Type 0 where
  within : p < length w.jobs
  holds :
      sum_of holds_slot (move_to w p b).jobs + phase_holds a
      ≡ sum_of holds_slot w.jobs + phase_holds b
  count :
      sum_of counts (move_to w p b).jobs + phase_counts a ≡ sum_of counts w.jobs + phase_counts b

moves : (w : Jobs) (p : ℕ) (a b : Phase) → (job_at w p).phase ≡ a → a ≢ ended → Moves w p a b
moves w p a b e busy =
    let lt = counts-lt w p (λ h. busy (sym e ∙ h)) in
    let j : Job = record (job_at w p) { phase = b } in
    record {
      within = lt;
      holds = omega (arith, sum_of-set holds_slot w.jobs p j lt, ap phase_holds e);
      count = omega (arith, sum_of-set counts w.jobs p j lt, ap phase_counts e);
    }

-- A move between phases of which both are in the map of jobs, or neither is.
move-IsTracked :
    (w : Jobs) (p : ℕ) (a b : Phase)
    → (job_at w p).phase ≡ a
    → phase_registered b ≡ phase_registered a
    → IsTracked w
    → IsTracked (move_to w p b)
move-IsTracked w p a b e same t =
    set_job-IsTracked w p (record (job_at w p) { phase = b }) refl
      (same ∙ sym (ap phase_registered e)) t

-- The map of jobs does not depend on the rest of the state.
rest-IsTracked :
    (w : Jobs) (slot : ℕ) (tracker : Tracker) (activity : Activity)
    → IsTracked w
    → IsTracked (record w { slot = slot; tracker = tracker; activity = activity })
rest-IsTracked w slot tracker activity t = record { sound = t.sound; complete = t.complete }

settled-not-ended : ¬ (settled ≡ ended)
settled-not-ended e = cc

take_slot-IsSound :
    (s : Server) (p : ℕ)
    → (job_at s.jobs p).phase ≡ waiting
    → IsSound s
    → IsSound (with_jobs s (take_slot p s.jobs))
unfolding take_slot
take_slot-IsSound s p e h = elim (Bool-cases (ltb s.jobs.slot slot_capacity)) [
  | inr full ↦ rw full h
  | inl free ↦
      let m = moves s.jobs p waiting working e (λ q. cc) in
      let t = move-IsTracked s.jobs p waiting working e refl h.tracked in
      rw free (record {
        slot_held = omega (arith, h.slot_held, m.holds);
        slot_bound = ground (arith, free);
        active = omega (arith, h.active, m.count);
        tracked =
            rest-IsTracked (move_to s.jobs p working) (s.jobs.slot + 1) s.jobs.tracker
              s.jobs.activity t;
      })
]

pub Advance-IsSound : {s t : Server} → Advance s t → IsSound s → IsSound t
unfolding give_up release_slot settle deregister leave release_other end
Advance-IsSound {s} (taking p e) h = take_slot-IsSound s p e h
Advance-IsSound {s} (giving_up p e done) h =
    let b = returned (some system_error) in
    let m = moves s.jobs p waiting b e (λ q. cc) in
    record {
      slot_held = omega (arith, h.slot_held, m.holds);
      slot_bound = h.slot_bound;
      active = omega (arith, h.active, m.count);
      tracked = move-IsTracked s.jobs p waiting b e refl h.tracked;
    }
Advance-IsSound {s} (releasing p result e) h =
    let b = returned result in
    let m = moves s.jobs p working b e (λ q. cc) in
    let t = move-IsTracked s.jobs p working b e refl h.tracked in
    record {
      slot_held = omega (arith, h.slot_held, m.holds);
      slot_bound = omega (arith, h.slot_bound);
      active = omega (arith, h.active, m.count);
      tracked =
          rest-IsTracked (move_to s.jobs p b) (s.jobs.slot - 1) s.jobs.tracker s.jobs.activity t;
    }
Advance-IsSound {s} (settling now p result e) h =
    let m = moves s.jobs p (returned result) settled e (λ q. cc) in
    let t = move-IsTracked s.jobs p (returned result) settled e refl h.tracked in
    record {
      slot_held = omega (arith, h.slot_held, m.holds);
      slot_bound = h.slot_bound;
      active = omega (arith, h.active, m.count);
      tracked = record { sound = t.sound; complete = t.complete };
    }
Advance-IsSound {s} (deregistering p e) h =
    let j = deregistered_job (job_at s.jobs p) in
    let lt = counts-lt s.jobs p (λ q. settled-not-ended (sym e ∙ q)) in
    record {
      slot_held =
          omega (arith, h.slot_held, sum_of-set holds_slot s.jobs.jobs p j lt, ap phase_holds e);
      slot_bound = h.slot_bound;
      active = omega (arith, h.active, sum_of-set counts s.jobs.jobs p j lt, ap phase_counts e);
      tracked = delete-IsTracked s.jobs p j lt refl (ap phase_registered e) h.tracked;
    }
Advance-IsSound {s} (leaving now p e) h =
    let m = moves s.jobs p deregistered ended e (λ q. cc) in
    let t = move-IsTracked s.jobs p deregistered ended e refl h.tracked in
    record {
      slot_held = omega (arith, h.slot_held, m.holds);
      slot_bound = h.slot_bound;
      active = omega (arith, h.active, m.count);
      tracked = record { sound = t.sound; complete = t.complete };
    }
Advance-IsSound {s} (other_releasing l) h = record {
  slot_held = omega (arith, h.slot_held, l);
  slot_bound = omega (arith, h.slot_bound);
  active = h.active;
  tracked = rest-IsTracked s.jobs (s.jobs.slot - 1) s.jobs.tracker s.jobs.activity h.tracked;
}
