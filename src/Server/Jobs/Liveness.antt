-- ===== src/Server/Jobs/Liveness.antt =====
-- The jobs can always go on to their end.
use aut_oscan_engine.Prelude.{
  ℕ, zero, suc, ◌+◌, ◌≤◌, ◌<◌, ◌≡◌, ◌≢◌, ◌⊎◌, ◌∙◌, refl, sym, ap, List, [], ◌∷◌, none, inl, inr,
  arith, get_or, set, true, ltb,
}
use aut_oscan_engine.Server.Jobs.{
  Job, Phase, waiting, working, returned, settled, deregistered, ended, job_at, blank_job,
  slot_capacity, deregistered_job, take_slot, release_slot, settle, deregister, leave,
  release_other,
}
use aut_oscan_engine.Server.Jobs.Steps.{
  Server, with_jobs, Advance, taking, releasing, settling, deregistering, leaving, other_releasing,
  progressing,
}
use aut_oscan_engine.Server.Jobs.Invariant.{
  phase_holds, holds_slot, phase_counts, counts, sum_of, sum_of-set, get_or-le-sum_of, sum_of-some,
  IsSound, counts-lt,
}
use aut_oscan_engine.Server.Jobs.Laws.{Step-IsSound}
use aut_oscan_engine.Server.Jobs.Safety.{IsReachable, reachable-IsSound, phase_counts-busy}

-- How many steps a job has left at most.
abbrev phase_left : Phase → ℕ
phase_left waiting = 5
phase_left working = 4
phase_left (returned _) = 3
phase_left settled = 2
phase_left deregistered = 1
phase_left ended = 0

abbrev left : Job → ℕ
left j = phase_left j.phase

abbrev steps_left : Server → ℕ
steps_left s = sum_of left s.jobs.jobs + s.holders

-- A step that a job or a handler takes on its own, after which fewer are left.
abbrev GoesOn : Server → Type 0
GoesOn s = (t : Server) × Advance s t × (steps_left t < steps_left s)

sets_on :
    (s : Server) (p : ℕ) (j : Job) (a : Phase)
    → (job_at s.jobs p).phase ≡ a
    → left j < phase_left a
    → sum_of left (set s.jobs.jobs p j) < sum_of left s.jobs.jobs
sets_on s p j a e l =
    let busy : (job_at s.jobs p).phase ≢ ended = λ h. omega (arith, l, ap phase_left (sym e ∙ h)) in
    omega (arith, sum_of-set left s.jobs.jobs p j (counts-lt s.jobs p busy), ap phase_left e, l)

moves_on :
    (s : Server) (p : ℕ) (a b : Phase)
    → (job_at s.jobs p).phase ≡ a
    → phase_left b < phase_left a
    → sum_of left (set s.jobs.jobs p (record (job_at s.jobs p) { phase = b }))
      < sum_of left s.jobs.jobs
moves_on s p a b e l = sets_on s p (record (job_at s.jobs p) { phase = b }) a e l

take_slot-lt :
    (s : Server) (p : ℕ)
    → (job_at s.jobs p).phase ≡ waiting
    → s.jobs.slot ≡ 0
    → steps_left (with_jobs s (take_slot p s.jobs)) < steps_left s
unfolding take_slot
take_slot-lt s p e free =
    let room : ltb s.jobs.slot slot_capacity ≡ true = ground (arith, free) in
    rw room (omega (arith, moves_on s p waiting working e (omega arith)))

Nat-cases : (n : ℕ) → (n ≡ 0) ⊎ (1 ≤ n)
Nat-cases zero = inl refl
Nat-cases (suc n) = inr (omega arith)

working_lem : (a : Phase) → 1 ≤ phase_holds a → a ≡ working
working_lem working h = refl
working_lem _ h = absurd (omega (arith, h))

-- The slot is not free: who has it gives it back.
holder-GoesOn : (s : Server) → IsSound s → 1 ≤ s.jobs.slot → GoesOn s
unfolding release_slot release_other
holder-GoesOn s h held = elim (Nat-cases s.holders) [
  | inr some_other ↦ (_, other_releasing some_other, omega (arith, some_other))
  | inl e ↦
      let (p, l, k) = sum_of-some holds_slot s.jobs.jobs (omega (arith, h.slot_held, held, e)) in
      let works = working_lem (job_at s.jobs p).phase k in
      (
        _,
        releasing p none works,
        omega (arith, moves_on s p working (returned none) works (omega arith)),
      )
]

job-GoesOn :
    (s : Server) (p : ℕ) (a : Phase)
    → IsSound s
    → (job_at s.jobs p).phase ≡ a
    → a ≢ ended
    → GoesOn s
unfolding release_slot settle deregister leave
job-GoesOn s p waiting h e busy = elim (Nat-cases s.jobs.slot) [
  | inl free ↦ (_, taking p e, take_slot-lt s p e free)
  | inr held ↦ holder-GoesOn s h held
]
job-GoesOn s p working h e busy =
    (_, releasing p none e, omega (arith, moves_on s p working (returned none) e (omega arith)))
job-GoesOn s p (returned result) h e busy = (
  _,
  settling 0 p result e,
  omega (arith, moves_on s p (returned result) settled e (omega arith)),
)
job-GoesOn s p settled h e busy = (
  _,
  deregistering p e,
  omega (arith, sets_on s p (deregistered_job (job_at s.jobs p)) settled e (omega arith)),
)
job-GoesOn s p deregistered h e busy =
    (_, leaving 0 p e, omega (arith, moves_on s p deregistered ended e (omega arith)))
job-GoesOn s p ended h e busy = absurd (busy refl)

-- Steps that the jobs and the handlers take on their own.
pub data Advances : Server → Server → Type 0 where
  arrived : {s : Server} → Advances s s
  onward : {s t u : Server} → Advance s t → Advances t u → Advances s u

-- No job is left, nothing is in the slot, and only requests count as activity.
pub record IsQuiet (s : Server) : Type 0 where
  pub all_ended : (p : ℕ) → (job_at s.jobs p).phase ≡ ended
  pub slot_free : s.jobs.slot ≡ 0
  pub only_requests : s.jobs.activity.active ≡ s.requests

Phase-cases : (a : Phase) → (a ≡ ended) ⊎ (a ≢ ended)
Phase-cases ended = inl refl
Phase-cases waiting = inr (λ e. cc)
Phase-cases working = inr (λ e. cc)
Phase-cases (returned r) = inr (λ e. cc)
Phase-cases settled = inr (λ e. cc)
Phase-cases deregistered = inr (λ e. cc)

none_held :
    (js : List Job) → ((p : ℕ) → (get_or js p blank_job).phase ≡ ended) → sum_of holds_slot js ≡ 0
unfolding sum_of
none_held [] h = refl
none_held (j ∷ js) h = omega (arith, ap phase_holds (h 0), none_held js (λ p. h (suc p)))

IsQuiet-or_on : (s : Server) → IsSound s → IsQuiet s ⊎ GoesOn s
unfolding release_other
IsQuiet-or_on s h = elim (Nat-cases (sum_of counts s.jobs.jobs)) [
  | inr some_left ↦
      let (p, l, k) = sum_of-some counts s.jobs.jobs some_left in
      inr (job-GoesOn s p (job_at s.jobs p).phase h refl (λ e. omega (arith, k, ap phase_counts e)))
  | inl e ↦ elim (Nat-cases s.holders) [
    | inr held ↦ inr (_, other_releasing held, omega (arith, held))
    | inl none_other ↦
        let ends : (p : ℕ) → (job_at s.jobs p).phase ≡ ended = λ p.
          elim (Phase-cases (job_at s.jobs p).phase) [
            | inl q ↦ q
            | inr busy ↦
                let own = get_or-le-sum_of counts s.jobs.jobs p (counts-lt s.jobs p busy) in
                let one = phase_counts-busy (job_at s.jobs p).phase busy in
                absurd (omega (arith, own, one, e))
          ] in
        inl (record {
          all_ended = ends;
          slot_free = omega (arith, h.slot_held, none_other, none_held s.jobs.jobs ends);
          only_requests = omega (arith, h.active, e);
        })
  ]
]

goes-IsQuiet :
    (n : ℕ) (s : Server) → steps_left s < n → IsSound s → (t : Server) × Advances s t × IsQuiet t
goes-IsQuiet zero s l h = absurd (omega (arith, l))
goes-IsQuiet (suc n) s l h = elim (IsQuiet-or_on s h) [
  | inl q ↦ (s, arrived, q)
  | inr (t, a, fewer) ↦
      let (u, rest, q) =
        goes-IsQuiet n t (omega (arith, fewer, l)) (Step-IsSound (progressing a) h) in
      (u, onward a rest, q)
]

-- The jobs of a server never wait for each other without end: from every state that the server
-- reaches, the steps that its jobs and the holders of the slot take on their own, without a
-- cancellation or a timeout, can lead to a state in which every job has ended, the slot is free, and
-- only requests count as activity.
pub reachable-IsQuiet : (s : Server) → IsReachable s → (t : Server) × Advances s t × IsQuiet t
reachable-IsQuiet s r = goes-IsQuiet (suc (steps_left s)) s (omega arith) (reachable-IsSound s r)
