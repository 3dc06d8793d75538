-- ===== src/Server/Progress/Laws.antt =====
-- How progress moves, and which run ids are accepted.
use aut_oscan_engine.Prelude.{
  subst, ℕ, ◌-◌, ◌≡◌, ◌≢◌, ◌≤◌, ◌↔◌, ◌⊎◌, ◌∙◌, refl, ap, sym, true, false, [], ◌∷◌, Option, none,
  some, Bool-cases, some_eq, inl, inr, arith, ltb, All,
}
use aut_oscan_engine.Prelude.Text.{Bytes, bytes_eq, bytes_eq_iff, trim_space}
use aut_oscan_engine.Prelude.Maps.{lookup, insert, lookup-insert_same}
use aut_oscan_engine.Server.Progress.{
  ProgressEntry, running, Tracker, entry_ttl, expire, set_progress, get_progress, shown_fraction,
  normalized, all_run_chars, is_run_char, normalize_run_id,
}

lookup-expire_fresh :
    (now : ℕ) (t : Tracker) (k : Bytes) (e : ProgressEntry)
    → lookup t k ≡ some e
    → now - e.updated_at ≤ entry_ttl
    → lookup (expire now t) k ≡ some e
unfolding lookup expire
lookup-expire_fresh now [] k e h f = ground (arith, h)
lookup-expire_fresh now (x ∷ t) k e h f = elim (Bool-cases (bytes_eq x.0 k)) [
  | inl b ↦
      let here : x.1 ≡ e = some_eq (sym (rw b refl) ∙ h) in
      let young : ltb entry_ttl (now - x.1.updated_at) ≡ false =
        ground (arith, f, ap (λ y. y.updated_at) here) in
      ground (arith, young, b, h)
  | inr b ↦ ground (arith, b, h, lookup-expire_fresh now t k e)
]

-- A byte that a run id may have.
abbrev pub IsRunChar : ℕ → Type 0
IsRunChar c =
    ((48 ≤ c) × (c ≤ 57))
    ⊎ (((97 ≤ c) × (c ≤ 122)) ⊎ (((65 ≤ c) × (c ≤ 90)) ⊎ ((c ≡ 45) ⊎ (c ≡ 95))))

all_run_chars_lem : (s : Bytes) → (all_run_chars s ≡ true) ↔ All IsRunChar s
unfolding all_run_chars is_run_char
all_run_chars_lem [] = (λ h. tt, λ h. refl)
all_run_chars_lem (c ∷ s) =
    (ground (arith, all_run_chars_lem s), ground (arith, all_run_chars_lem s))

-- A run id is normalized to a text exactly if this is the trimmed id, is not empty, and has only
-- ASCII letters, digits, dashes and underscores; so it is never a path with a separator or dots.
pub normalize_run_id_lem :
    (id n : Bytes)
    → (normalize_run_id id ≡ normalized n) ↔ ((n ≡ trim_space id) × (n ≢ []) × All IsRunChar n)
unfolding normalize_run_id
normalize_run_id_lem id n =
    let chars = all_run_chars_lem (trim_space id) in
    let empty = bytes_eq_iff (trim_space id) [] in
    (
      (λ h.
          let (same, kept, fine) : (trim_space id ≡ n)
              × (trim_space id ≢ [])
              × (all_run_chars (trim_space id) ≡ true) =
            ground (arith, h, empty) in
          (sym same, (λ e. kept (same ∙ e)), subst (All IsRunChar) same (chars.0 fine))),
      (λ h.
          let (same, kept, fine) = h in
          let ok = chars.1 (subst (All IsRunChar) same fine) in
          let some_id : trim_space id ≢ [] = λ e. kept (same ∙ e) in
          ground (arith, ok, empty, some_id, same)),
    )

shown-ge : (fraction : ℕ) (o : Option ProgressEntry) → fraction ≤ shown_fraction o fraction
shown-ge fraction none = omega arith
shown-ge fraction (some e) = ground arith

shown_old :
    (fraction : ℕ) (o : Option ProgressEntry) (old : ProgressEntry)
    → o ≡ some old
    → old.fraction ≤ shown_fraction o fraction
shown_old fraction none old h = ground (arith, h)
shown_old fraction (some e) old h = ground (arith, h)

-- After `set`, the entry of the token has the new stage and no less than both the new and the old
-- fraction, so the bar does not move back; it is marked as running and has no detail, whatever it
-- was before, also where the job had finished.
pub set_progress_lem :
    (now : ℕ) (token : Bytes) (fraction : ℕ) (stage : Bytes) (t : Tracker)
    → (e : ProgressEntry) × (get_progress token (set_progress now token fraction stage t) ≡ some e)
      × (fraction ≤ e.fraction)
      × ((old : ProgressEntry) → lookup t token ≡ some old → old.fraction ≤ e.fraction)
      × (e.stage ≡ stage)
      × (e.state ≡ running)
      × (e.detail ≡ [])
unfolding set_progress get_progress
set_progress_lem now token fraction stage t =
    let e : ProgressEntry = record {
      fraction = shown_fraction (lookup t token) fraction;
      stage = stage;
      state = running;
      detail = [];
      updated_at = now;
    } in
    (
      e,
      lookup-expire_fresh now (insert t token e) token e (lookup-insert_same t token e)
          (omega arith),
      shown-ge fraction (lookup t token),
      λ old h. shown_old fraction (lookup t token) old h,
      refl,
      refl,
      refl,
    )
