-- ===== src/Server/Progress/Refine.antt =====
-- The progress tracker refines its specification.
use aut_oscan_engine.Prelude.{
  ℕ, ◌≡◌, ◌∙◌, refl, sym, ap, Bool, true, false, List, [], ◌∷◌, Option, none, some, Bool-cases, inl,
  inr, arith, not, ◌&&◌, if◌then◌else◌,
}
use aut_oscan_engine.Prelude.Text.{Bytes, bytes_eq, bytes_eq_iff}
use aut_oscan_engine.Prelude.Maps.{lookup, insert}
use aut_oscan_engine.Server.Progress.{
  ProgressEntry, running, done, failed, Tracker, whole, set_progress, finish, drop_progress,
  get_progress, shown_fraction, entry_or_blank,
}
use aut_oscan_engine.Server.Progress.Spec.{
  Operation, setting, finishing, dropping, fraction_of, larger, kept_at, finished, token_step,
  token_steps,
}
use aut_oscan_engine.Server.Progress.Entries.{
  IsUnique, show, still_shown, lookup-insert, lookup-delete, kept, lookup-expire, insert-IsUnique,
  expire-IsUnique, delete-IsUnique,
}

-- The operation of the tracker.
abbrev pub performed : Operation → Tracker → Tracker
performed (setting now token fraction stage) t = set_progress now token fraction stage t
performed (finishing now token ok detail) t = finish now token ok detail t
performed (dropping token) t = drop_progress token t

performed-IsUnique : (o : Operation) (t : Tracker) → IsUnique t → IsUnique (performed o t)
unfolding set_progress finish drop_progress
performed-IsUnique (setting now token fraction stage) t u =
    expire-IsUnique now (insert t token _) (insert-IsUnique t token _ u)
performed-IsUnique (finishing now token ok detail) t u = elim (Bool-cases (bytes_eq token [])) [
  | inl y ↦ rw y u
  | inr n ↦ rw n (insert-IsUnique t token _ u)
]
performed-IsUnique (dropping token) t u = delete-IsUnique t token u

still_shown_lem : (now : ℕ) (o : Option ProgressEntry) → still_shown now o ≡ kept_at now o
still_shown_lem now none = refl
still_shown_lem now (some e) = ground arith

larger_lem :
    (o : Option ProgressEntry) (fraction : ℕ)
    → shown_fraction o fraction ≡ larger (fraction_of o) fraction
larger_lem none fraction = ground arith
larger_lem (some e) fraction = ground arith

finished_lem :
    (now : ℕ) (ok : Bool) (detail : Bytes) (o : Option ProgressEntry)
    → (if ok
        then (record (entry_or_blank o) { fraction = whole; state = done; updated_at = now })
        else record (entry_or_blank o) { state = failed; detail = detail; updated_at = now })
      ≡ finished now ok detail o
finished_lem now true detail none = refl
finished_lem now true detail (some e) = refl
finished_lem now false detail none = refl
finished_lem now false detail (some e) = refl

-- Where the operation's token is the one that is asked for.
setting_same :
    (now : ℕ) (token k : Bytes) (fraction : ℕ) (stage : Bytes) (t : Tracker)
    → IsUnique t
    → bytes_eq token k ≡ true
    → lookup (set_progress now token fraction stage t) k
      ≡ token_step k (setting now token fraction stage) (lookup t k)
unfolding set_progress
setting_same now token k fraction stage t u y =
    let entry : ℕ → ProgressEntry =
      λ n. record { fraction = n; stage = stage; state = running; detail = []; updated_at = now } in
    let e = entry (shown_fraction (lookup t token) fraction) in
    let shows : show token e t k ≡ some e = rw y refl in
    let asked : lookup t token ≡ lookup t k = ap (lookup t) ((bytes_eq_iff token k).0 y) in
    let reached =
      lookup-expire now (insert t token e) k (insert-IsUnique t token e u)
      ∙ (ap (still_shown now) (lookup-insert t token k e ∙ shows) ∙ kept now e (ground arith)) in
    let same : e ≡ entry (larger (fraction_of (lookup t k)) fraction) =
      ap (λ o. entry (shown_fraction o fraction)) asked
      ∙ ap entry (larger_lem (lookup t k) fraction) in
    rw y (reached ∙ ap some same)

setting_other :
    (now : ℕ) (token k : Bytes) (fraction : ℕ) (stage : Bytes) (t : Tracker)
    → IsUnique t
    → bytes_eq token k ≡ false
    → lookup (set_progress now token fraction stage t) k
      ≡ token_step k (setting now token fraction stage) (lookup t k)
unfolding set_progress
setting_other now token k fraction stage t u n =
    let e : ProgressEntry = record {
      fraction = shown_fraction (lookup t token) fraction;
      stage = stage;
      state = running;
      detail = [];
      updated_at = now;
    } in
    let shows : show token e t k ≡ lookup t k = rw n refl in
    rw n (
      lookup-expire now (insert t token e) k (insert-IsUnique t token e u)
      ∙ (ap (still_shown now) (lookup-insert t token k e ∙ shows)
          ∙ still_shown_lem now (lookup t k)))

pub finishing_lem :
    (now : ℕ) (token k : Bytes) (ok : Bool) (detail : Bytes) (t : Tracker)
    → lookup (finish now token ok detail t) k
      ≡ token_step k (finishing now token ok detail) (lookup t k)
unfolding finish
finishing_lem now token k ok detail t = elim (Bool-cases (bytes_eq token [])) [
  | inl y ↦
      let no_step : (bytes_eq token k && not (bytes_eq k [])) ≡ false =
        ground (arith, bytes_eq_iff token [], bytes_eq_iff token k, bytes_eq_iff k [], y) in
      rw (y, no_step) refl
  | inr n ↦ rw n (lookup-insert t token k _ ∙ shown n)
]
  where
    shown :
        bytes_eq token [] ≡ false
        → show token
            (if ok
              then (record (entry_or_blank (lookup t token)) {
                fraction = whole;
                state = done;
                updated_at = now;
              })
              else record (entry_or_blank (lookup t token)) {
                state = failed;
                detail = detail;
                updated_at = now;
              })
            t
            k
          ≡ token_step k (finishing now token ok detail) (lookup t k)
    shown n = elim (Bool-cases (bytes_eq token k)) [
      | inr other ↦ rw other refl
      | inl y ↦
          let same = (bytes_eq_iff token k).0 y in
          let some_id : bytes_eq k [] ≡ false = ap (λ x. bytes_eq x []) (sym same) ∙ n in
          rw (y, some_id)
            (ap some (
              finished_lem now ok detail (lookup t token)
              ∙ ap (λ x. finished now ok detail (lookup t x)) same))
    ]

performed_lem :
    (o : Operation) (t : Tracker) (k : Bytes)
    → IsUnique t
    → lookup (performed o t) k ≡ token_step k o (lookup t k)
unfolding drop_progress
performed_lem (setting now token fraction stage) t k u = elim (Bool-cases (bytes_eq token k)) [
  | inl y ↦ setting_same now token k fraction stage t u y
  | inr n ↦ setting_other now token k fraction stage t u n
]
performed_lem (finishing now token ok detail) t k u = finishing_lem now token k ok detail t
performed_lem (dropping token) t k u = lookup-delete t token k

pub perform_all : List Operation → Tracker → Tracker
perform_all [] t = t
perform_all (o ∷ os) t = perform_all os (performed o t)

all_refined :
    (os : List Operation) (t : Tracker) (k : Bytes)
    → IsUnique t
    → lookup (perform_all os t) k ≡ token_steps k os (lookup t k)
unfolding perform_all token_steps
all_refined [] t k u = refl
all_refined (o ∷ os) t k u =
    all_refined os (performed o t) k (performed-IsUnique o t u)
    ∙ ap (token_steps k os) (performed_lem o t k u)

-- After any operations on a new tracker, each token shows what the steps of the specification for
-- this token give: its bar is the larger of the old and the new fraction, a finished run has a whole
-- bar or its detail, a dropped one shows nothing, and operations on other tokens change nothing, but
-- that a `set` of another token forgets an entry last updated more than 15 minutes ago.
pub perform_all_refines :
    (os : List Operation) (token : Bytes)
    → get_progress token (perform_all os []) ≡ token_steps token os none
unfolding get_progress
perform_all_refines os token =
    all_refined os [] token tt ∙ ap (token_steps token os) (unfold lookup in refl)
