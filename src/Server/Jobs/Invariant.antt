-- ===== src/Server/Jobs/Invariant.antt =====
-- What holds of a server's jobs between two steps: who holds the slot, what counts as activity, and
-- where the map of jobs leads.
use aut_oscan_engine.Prelude.{
  ℕ, zero, suc, ◌+◌, ◌≤◌, ◌<◌, ◌≡◌, ◌≢◌, ◌⊎◌, ◌∙◌, refl, sym, ap, Bool, true, false, List, [], ◌∷◌,
  ◌++◌, none, some, some_eq, not-none-eq-some, inl, inr, arith, length, get_or, set, length-set,
  length-append, get_or-set_same, get_or-set_cases, get_or-append_cases, get_or-append_new,
  get_or-append_old,
}
use aut_oscan_engine.Prelude.Text.{Bytes}
use aut_oscan_engine.Prelude.Maps.{
  lookup, insert, lookup-insert-some, lookup-insert_same, lookup-insert_other, delete,
  lookup-delete-some, lookup-delete_other,
}
use aut_oscan_engine.Server.Jobs.{
  Job, Jobs, Phase, working, deregistered, ended, job_at, set_job, blank_job,
}
use aut_oscan_engine.Server.Jobs.Steps.{Server}

-- 1 for a job that has the slot.
abbrev pub phase_holds : Phase → ℕ
phase_holds working = 1
phase_holds _ = 0

abbrev pub holds_slot : Job → ℕ
holds_slot j = phase_holds j.phase

-- 1 for a job that has not ended, as far as the server's activity goes.
abbrev pub phase_counts : Phase → ℕ
phase_counts ended = 0
phase_counts _ = 1

abbrev pub counts : Job → ℕ
counts j = phase_counts j.phase

-- 1 for a job that is in the map of jobs.
abbrev pub phase_registered : Phase → Bool
phase_registered deregistered = false
phase_registered ended = false
phase_registered _ = true

abbrev pub is_registered : Job → Bool
is_registered j = phase_registered j.phase

unfoldable pub sum_of : (Job → ℕ) → List Job → ℕ
sum_of f [] = 0
sum_of f (j ∷ js) = f j + sum_of f js

pub sum_of-set :
    (f : Job → ℕ) (js : List Job) (p : ℕ) (j : Job)
    → p < length js
    → sum_of f (set js p j) + f (get_or js p blank_job) ≡ sum_of f js + f j
unfolding sum_of
sum_of-set f [] p j h = absurd (omega (arith, h))
sum_of-set f (i ∷ js) zero j h = omega arith
sum_of-set f (i ∷ js) (suc p) j h = omega (arith, sum_of-set f js p j (omega (arith, h)))

pub sum_of-set_same :
    (f : Job → ℕ) (js : List Job) (p : ℕ) (j : Job)
    → f j ≡ f (get_or js p blank_job)
    → sum_of f (set js p j) ≡ sum_of f js
unfolding sum_of
sum_of-set_same f [] p j h = refl
sum_of-set_same f (i ∷ js) zero j h = omega (arith, h)
sum_of-set_same f (i ∷ js) (suc p) j h = omega (arith, sum_of-set_same f js p j h)

pub sum_of-append :
    (f : Job → ℕ) (js : List Job) (j : Job) → sum_of f (js ++ (j ∷ [])) ≡ sum_of f js + f j
unfolding sum_of
sum_of-append f [] j = omega arith
sum_of-append f (i ∷ js) j = omega (arith, sum_of-append f js j)

pub get_or-le-sum_of :
    (f : Job → ℕ) (js : List Job) (p : ℕ) → p < length js → f (get_or js p blank_job) ≤ sum_of f js
unfolding sum_of
get_or-le-sum_of f [] p h = absurd (omega (arith, h))
get_or-le-sum_of f (i ∷ js) zero h = omega arith
get_or-le-sum_of f (i ∷ js) (suc p) h = omega (arith, get_or-le-sum_of f js p (omega (arith, h)))

-- Who counts in a sum that is not 0.
pub sum_of-some :
    (f : Job → ℕ) (js : List Job)
    → 1 ≤ sum_of f js
    → (p : ℕ) × (p < length js) × (1 ≤ f (get_or js p blank_job))
unfolding sum_of
sum_of-some f [] h = absurd (omega (arith, h))
sum_of-some f (j ∷ js) h = elim (Nat-cases (f j)) [
  | inl e ↦ let (p, l, k) = sum_of-some f js (omega (arith, e, h)) in (suc p, omega (arith, l), k)
  | inr e ↦ (0, omega arith, e)
]
  where
    Nat-cases : (n : ℕ) → (n ≡ 0) ⊎ (1 ≤ n)
    Nat-cases zero = inl refl
    Nat-cases (suc n) = inr (omega arith)

-- The map of jobs leads to those jobs that are registered, by their ids.
pub record IsTracked (w : Jobs) : Type 0 where
  pub sound :
      (k : Bytes) (p : ℕ)
      → lookup w.registered k ≡ some p
      → (p < length w.jobs) × ((job_at w p).run_id ≡ k) × (is_registered (job_at w p) ≡ true)
  pub complete :
      (p : ℕ)
      → p < length w.jobs
      → is_registered (job_at w p) ≡ true
      → lookup w.registered (job_at w p).run_id ≡ some p

pub record IsSound (s : Server) : Type 0 where
  pub slot_held : s.jobs.slot ≡ sum_of holds_slot s.jobs.jobs + s.holders
  pub slot_bound : s.jobs.slot ≤ 1
  pub active : s.jobs.activity.active ≡ sum_of counts s.jobs.jobs + s.requests
  pub tracked : IsTracked s.jobs

-- A job that has not ended is one of the server's.
pub counts-lt : (w : Jobs) (p : ℕ) → (job_at w p).phase ≢ ended → p < length w.jobs
counts-lt w p h = within w.jobs p h
  where
    within : (js : List Job) (p : ℕ) → (get_or js p blank_job).phase ≢ ended → p < length js
    within [] p h = absurd (h refl)
    within (j ∷ js) zero h = omega arith
    within (j ∷ js) (suc p) h = omega (arith, within js p h)

not-true-eq-false : ¬ (true ≡ false)
not-true-eq-false e = cc

-- A place holds the job that it held, or the new one.
job_at-set_cases :
    (w : Jobs) (p q : ℕ) (j : Job)
    → ((p ≡ q) × (job_at (set_job w p j) q ≡ j)) ⊎ (job_at (set_job w p j) q ≡ job_at w q)
job_at-set_cases w p q j = elim (get_or-set_cases w.jobs p q j blank_job) [
  | inl (e, _, h) ↦ inl (e, h)
  | inr h ↦ inr h
]

-- A job changes, but neither its id nor whether it is registered.
pub set_job-IsTracked :
    (w : Jobs) (p : ℕ) (j : Job)
    → j.run_id ≡ (job_at w p).run_id
    → is_registered j ≡ is_registered (job_at w p)
    → IsTracked w
    → IsTracked (set_job w p j)
set_job-IsTracked w p j same reg t = record {
  sound = λ k q h.
      let (l, i, r) = t.sound k q h in
      let (ids, regs) = kept q in (omega (arith, l, length-set w.jobs p j), ids ∙ i, regs ∙ r);
  complete = λ q l r.
      let (ids, regs) = kept q in
      ap (lookup w.registered) ids
      ∙ t.complete q (omega (arith, l, length-set w.jobs p j)) (sym regs ∙ r);
}
  where
    kept :
        (q : ℕ)
        → ((job_at (set_job w p j) q).run_id ≡ (job_at w q).run_id)
          × (is_registered (job_at (set_job w p j) q) ≡ is_registered (job_at w q))
    kept q = elim (job_at-set_cases w p q j) [
      | inr e ↦ (ap (λ x. x.run_id) e, ap is_registered e)
      | inl (e, f) ↦ (
        ap (λ x. x.run_id) f ∙ (same ∙ ap (λ x. (job_at w x).run_id) e),
        ap is_registered f ∙ (reg ∙ ap (λ x. is_registered (job_at w x)) e),
      )
    ]

-- A job is taken out of the map.
pub delete-IsTracked :
    (w : Jobs) (p : ℕ) (j : Job)
    → p < length w.jobs
    → is_registered j ≡ false
    → is_registered (job_at w p) ≡ true
    → IsTracked w
    → IsTracked (record (set_job w p j) { registered = delete w.registered (job_at w p).run_id })
delete-IsTracked w p j lt reg old t =
    let id = (job_at w p).run_id in
    let own = t.complete p lt old in
    record {
      sound = λ k q h.
          let (differ, before) = lookup-delete-some w.registered id k q h in
          let (l, i, r) = t.sound k q before in
          elim (job_at-set_cases w p q j) [
            | inl (e, _) ↦ absurd (differ (ap (λ x. (job_at w x).run_id) e ∙ i))
            | inr e ↦ (
              omega (arith, l, length-set w.jobs p j),
              ap (λ x. x.run_id) e ∙ i,
              ap is_registered e ∙ r,
            )
          ];
      complete = λ q l r. elim (job_at-set_cases w p q j) [
        | inl (_, e) ↦ absurd (not-true-eq-false (sym r ∙ (ap is_registered e ∙ reg)))
        | inr e ↦
            let before =
              t.complete q (omega (arith, l, length-set w.jobs p j))
                (sym (ap is_registered e) ∙ r) in
            let differ : id ≢ (job_at w q).run_id = λ s.
              let pq : p ≡ q = some_eq (sym own ∙ (ap (lookup w.registered) s ∙ before)) in
              let at_p : job_at (set_job w p j) p ≡ j = get_or-set_same w.jobs p j blank_job lt in
              not-true-eq-false (
                sym r
                ∙ (ap (λ x. is_registered (job_at (set_job w p j) x)) (sym pq)
                    ∙ (ap is_registered at_p ∙ reg))) in
            ap (lookup (delete w.registered id)) (ap (λ x. x.run_id) e)
            ∙ (lookup-delete_other w.registered id (job_at w q).run_id differ ∙ before)
      ];
    }

-- A new job is registered under an id that led nowhere.
pub insert-IsTracked :
    (w : Jobs) (j : Job)
    → lookup w.registered j.run_id ≡ none
    → is_registered j ≡ true
    → IsTracked w
    → IsTracked (record w {
      jobs = w.jobs ++ (j ∷ []);
      registered = insert w.registered j.run_id (length w.jobs);
    })
insert-IsTracked w j new reg t =
    let n = length w.jobs in
    let size = length-append w.jobs (j ∷ []) in
    record {
      sound = λ k q h. elim (lookup-insert-some w.registered j.run_id k n q h) [
        | inl (e, nq) ↦
            let at_q : get_or (w.jobs ++ (j ∷ [])) q blank_job ≡ j =
              ap (λ x. get_or (w.jobs ++ (j ∷ [])) x blank_job) (sym nq)
              ∙ get_or-append_new w.jobs j blank_job in
            (omega (arith, size, nq), ap (λ x. x.run_id) at_q ∙ e, ap is_registered at_q ∙ reg)
        | inr before ↦
            let (l, i, r) = t.sound k q before in
            let at_q = get_or-append_old w.jobs (j ∷ []) q blank_job l in
            (omega (arith, size, l), ap (λ x. x.run_id) at_q ∙ i, ap is_registered at_q ∙ r)
      ];
      complete = λ q l r. elim (get_or-append_cases w.jobs q j blank_job) [
        | inl (e, at_q) ↦
            ap (lookup (insert w.registered j.run_id n)) (ap (λ x. x.run_id) at_q)
            ∙ (lookup-insert_same w.registered j.run_id n ∙ ap some (sym e))
        | inr at_q ↦
            let r' : is_registered (job_at w q) ≡ true = ap is_registered (sym at_q) ∙ r in
            let lt = counts-lt w q (λ e. not-true-eq-false (sym r' ∙ ap phase_registered e)) in
            let before = t.complete q lt r' in
            let differ : j.run_id ≢ (job_at w q).run_id =
              λ e. not-none-eq-some (sym new ∙ (ap (lookup w.registered) e ∙ before)) in
            ap (lookup (insert w.registered j.run_id n)) (ap (λ x. x.run_id) at_q)
            ∙ (lookup-insert_other w.registered j.run_id (job_at w q).run_id n differ ∙ before)
      ];
    }
