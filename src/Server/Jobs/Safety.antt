-- ===== src/Server/Jobs/Safety.antt =====
-- What a server with grading jobs never does.
use aut_oscan_engine.Prelude.{
  ℕ, ◌≤◌, ◌≡◌, ◌≢◌, ◌∙◌, refl, sym, ap, true, false, none, arith, set, get_or, length-set,
  Bool-cases, ◌==◌, ==_iff, get_or-set_cases, inl, inr,
}
use aut_oscan_engine.Server.Progress.{valid_progress_token}
use aut_oscan_engine.Server.Activity.{exits, idle_for}
use aut_oscan_engine.Server.Jobs.{
  Jobs, Phase, working, ended, job_at, blank_job, set_job, cancel_context, cancel_grade,
}
use aut_oscan_engine.Server.Jobs.Steps.{Server, Steps, new_server}
use aut_oscan_engine.Server.Jobs.Invariant.{
  phase_holds, holds_slot, phase_counts, phase_registered, counts, is_registered, sum_of,
  sum_of-set, get_or-le-sum_of, IsSound, counts-lt,
}
use aut_oscan_engine.Server.Jobs.Laws.{Steps-IsSound, new_server-IsSound}

abbrev pub IsReachable : Server → Type 0
IsReachable s = (now : ℕ) × Steps (new_server now) s

pub reachable-IsSound : (s : Server) → IsReachable s → IsSound s
reachable-IsSound s (now, r) = Steps-IsSound r (new_server-IsSound now)

ended-not-working : ¬ (ended ≡ working)
ended-not-working e = cc

pub phase_counts-busy : (a : Phase) → a ≢ ended → phase_counts a ≡ 1
phase_counts-busy ended h = absurd (h refl)
phase_counts-busy _ h = refl

-- Two jobs that hold the slot are one.
two_holders :
    (w : Jobs) (p q : ℕ)
    → sum_of holds_slot w.jobs ≤ 1
    → (job_at w p).phase ≡ working
    → (job_at w q).phase ≡ working
    → ¬ (p ≢ q)
two_holders w p q h hp hq differ =
    let lp = counts-lt w p (λ e. ended-not-working (sym e ∙ hp)) in
    let lq = counts-lt w q (λ e. ended-not-working (sym e ∙ hq)) in
    let rest = set w.jobs p blank_job in
    let still : holds_slot (get_or rest q blank_job) ≡ 1 =
      elim (get_or-set_cases w.jobs p q blank_job blank_job) [
        | inl (e, _, _) ↦ absurd (differ e)
        | inr e ↦ ap holds_slot e ∙ ap phase_holds hq
      ] in
    omega (
      arith,
      sum_of-set holds_slot w.jobs p blank_job lp,
      get_or-le-sum_of holds_slot rest q (omega (arith, lq, length-set w.jobs p blank_job)),
      still,
      ap phase_holds hp,
      h,
    )

-- In every state that a server reaches, at most one grading job works at a time, and none works while
-- a sandbox analysis or an AI refresh has the slot.
pub reachable-slot :
    (s : Server) (p q : ℕ)
    → IsReachable s
    → (job_at s.jobs p).phase ≡ working
    → (job_at s.jobs q).phase ≡ working
    → (p ≡ q) × (s.holders ≡ 0)
reachable-slot s p q r hp hq =
    let h = reachable-IsSound s r in
    let lp = counts-lt s.jobs p (λ e. ended-not-working (sym e ∙ hp)) in
    let own = get_or-le-sum_of holds_slot s.jobs.jobs p lp in
    let few : sum_of holds_slot s.jobs.jobs ≤ 1 = omega (arith, h.slot_held, h.slot_bound) in
    (
      elim (Bool-cases (p == q)) [
        | inl e ↦ (==_iff p q).0 e
        | inr e ↦ absurd (two_holders s.jobs p q few hp hq (λ f. ground (arith, e, f)))
      ],
      omega (arith, h.slot_held, h.slot_bound, own, ap phase_holds hp),
    )

-- The server does not exit for being idle while a job has not ended: in no state that it reaches do
-- its ticks decide so, whatever the time, with a timeout that is not 0.
pub reachable-exits :
    (s : Server) (p timeout now : ℕ)
    → IsReachable s
    → 1 ≤ timeout
    → (job_at s.jobs p).phase ≢ ended
    → exits timeout now s.jobs.activity ≡ false
unfolding exits idle_for
reachable-exits s p timeout now r ht busy =
    let h = reachable-IsSound s r in
    let own = get_or-le-sum_of counts s.jobs.jobs p (counts-lt s.jobs p busy) in
    let one = phase_counts-busy (job_at s.jobs p).phase busy in
    let some_active : 1 ≤ s.jobs.activity.active = omega (arith, h.active, own, one) in
    ground (arith, some_active, ht)

true-not-false : ¬ (true ≡ false)
true-not-false e = cc

-- A request to cancel a run that a server has not settled, or has just settled, is answered without
-- an error, and the context of this run's job, and of no other, is cancelled unless it was done
-- before; the run's id is one that the request is read with.
pub reachable-cancel_grade :
    (s : Server) (p : ℕ)
    → IsReachable s
    → is_registered (job_at s.jobs p) ≡ true
    → let j = job_at s.jobs p in
      valid_progress_token j.run_id ≡ true
      → cancel_grade j.run_id s.jobs
        ≡ (set_job s.jobs p (record j { context = cancel_context j.context }), none)
unfolding cancel_grade
reachable-cancel_grade s p r reg valid =
    let h = reachable-IsSound s r in
    let lt = counts-lt s.jobs p (λ e. true-not-false (sym reg ∙ ap phase_registered e)) in
    let found = h.tracked.complete p lt reg in rw (valid, found) refl
