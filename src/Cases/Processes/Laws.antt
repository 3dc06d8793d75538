-- ===== src/Cases/Processes/Laws.antt =====
-- When a process of a scenario passes, and the order of the processes.
use aut_oscan_engine.Prelude.{
  subst, ◌≡◌, ◌≢◌, ◌↔◌, ◌∙◌, refl, ap, true, false, List, [], ◌∷◌, ◌++◌, map, Option, none, some,
  Option-cases, inl, inr, arith, All, All-append,
}
use aut_oscan_engine.Prelude.Text.{Bytes, bytes_eq_iff}
use aut_oscan_engine.Prelude.Maps.{lookup, insert, IsDistinct, lookup-insert_same}
use aut_oscan_engine.Output.{OutputMatch}
use aut_oscan_engine.Valgrind.{ValgrindResult, result_fails}
use aut_oscan_engine.Cases.Processes.{
  ProcessResult, MultiProcessResult, ScenarioOutcome, add_process, apply_outcome, all_pass,
  compute_multi_process_status,
}

-- A process of a scenario passes exactly if it was started without failure, was not killed, gave no
-- crash reason, its output was neither found to differ from nor to miss the expected one, and, if it
-- has a start time, its Valgrind result does not fail.
pub apply_outcome_passed :
    (file : Bytes) (expected : Option Bytes) (valgrind : Option ValgrindResult)
    (o : ScenarioOutcome) (r : ProcessResult)
    → let p = apply_outcome file expected valgrind o r in
      (p.passed ≡ true) ↔ (
        (o.start_failed ≡ false)
        × (o.killed ≡ false)
        × (o.crash_reason ≡ [])
        × (p.output_match ≢ OutputMatch.fail)
        × (p.output_match ≢ OutputMatch.missing)
        × (o.started_at ≢ none → result_fails valgrind ≡ false))
unfolding apply_outcome
apply_outcome_passed file expected valgrind o r = elim (Option-cases o.started_at) [
  | inl e ↦ (
    ground (arith, e, bytes_eq_iff o.crash_reason []),
    ground (arith, e, bytes_eq_iff o.crash_reason []),
  )
  | inr (s, e) ↦ (
    ground (arith, e, bytes_eq_iff o.crash_reason []),
    ground (arith, e, bytes_eq_iff o.crash_reason []),
  )
]

all_pass_lem :
    (m : List (Bytes × ProcessResult))
    → (all_pass m ≡ true) ↔ All (λ e. (e.1.killed ≡ false) × (e.1.passed ≡ true)) m
unfolding all_pass
all_pass_lem [] = (λ h. tt, λ h. refl)
all_pass_lem (e ∷ m) = (ground (arith, all_pass_lem m), ground (arith, all_pass_lem m))

-- A scenario passes exactly if each of its processes passed and was not killed.
pub compute_multi_process_status_lem :
    (m : MultiProcessResult)
    → ((compute_multi_process_status m).all_passed ≡ true)
      ↔ All (λ e. (e.1.killed ≡ false) × (e.1.passed ≡ true)) m.processes
unfolding compute_multi_process_status
compute_multi_process_status_lem m = all_pass_lem m.processes

abbrev keys : List (Bytes × ProcessResult) → List Bytes
keys m = map (λ e. e.0) m

keys-insert :
    (m : List (Bytes × ProcessResult)) (k : Bytes) (v : ProcessResult)
    → keys (insert m k v)
      ≡ elim (lookup m k) as (λ _. List Bytes) [ none ↦ keys m ++ (k ∷ []) | some _ ↦ keys m ]
unfolding insert lookup
keys-insert [] k v = refl
keys-insert (e ∷ m) k v = ground (arith, keys-insert m k v, bytes_eq_iff e.0 k)

absent_key :
    (m : List (Bytes × ProcessResult)) (k : Bytes) → lookup m k ≡ none → All (λ y. y ≢ k) (keys m)
unfolding lookup
absent_key [] k h = tt
absent_key (e ∷ m) k h = ground (arith, absent_key m k, bytes_eq_iff e.0 k, h)

IsDistinct-append :
    (xs : List Bytes) (k : Bytes)
    → IsDistinct xs
    → All (λ y. y ≢ k) xs
    → IsDistinct (xs ++ (k ∷ []))
IsDistinct-append [] k d h = (tt, tt)
IsDistinct-append (x ∷ xs) k d h =
    (All-append (λ y. x ≢ y) xs (k ∷ []) d.0 (h.0, tt), IsDistinct-append xs k d.1 h.1)

-- The order lists the keys of the map, each once.
abbrev pub IsOrdered : MultiProcessResult → Type 0
IsOrdered m = (keys m.processes ≡ m.order) × IsDistinct m.order

-- Adding a process, under a new or a known name, keeps the order a list of the map's keys without
-- repetition, and the added result is what the map then has under the name.
pub add_process-IsOrdered :
    (name : Bytes) (r : ProcessResult) (m : MultiProcessResult)
    → IsOrdered m
    → IsOrdered (add_process name r m) × (lookup (add_process name r m).processes name ≡ some r)
unfolding add_process
add_process-IsOrdered name r m (same, distinct) =
    let new = keys-insert m.processes name r in
    elim (Option-cases (lookup m.processes name)) [
      | inl e ↦
          let fresh = subst (λ ks. All (λ y. y ≢ name) ks) same (absent_key m.processes name e) in
          (
            rw (add_process, e)
                (
                  new ∙ (rw e (ap (λ ks. ks ++ (name ∷ [])) same)),
                  IsDistinct-append m.order name distinct fresh,
                ),
            lookup-insert_same m.processes name r,
          )
      | inr (old, e) ↦
          (rw (add_process, e) (new ∙ (rw e same), distinct), lookup-insert_same m.processes name r)
    ]
