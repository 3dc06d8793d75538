-- ===== src/Terminal/Sessions/Invariant.antt =====
-- What it is for the sessions to be consistent, and that the single updates keep it.
use aut_oscan_engine.Prelude.{
  ℕ, ◌≡◌, ◌≤◌, ◌<◌, ◌≢◌, ◌⊎◌, ◌∙◌, refl, sym, ap, subst, true, false, [], ◌∷◌, some, Bool-cases,
  Option-cases, some_eq, not-none-eq-some, inl, inr, arith, ◌==◌, ==_iff, if◌then◌else◌, length,
  get_or, length-set, get_or-set_cases,
}
use aut_oscan_engine.Prelude.Text.{Bytes, codes}
use aut_oscan_engine.Prelude.Maps.{lookup, delete, lookup-delete-some, length-delete-le}
use aut_oscan_engine.Terminal.Sessions.{
  World, Session, session_at, update, new_session, max_sessions, forget, fail, Creation,
  scratch_failed, shell_failed, started, create, attach_session, attach, detach_session, detach,
  close_session, begin_teardown,
}

-- A session has at most its limit of panes, which is at most 4; its linger timer is armed only while
-- it has no pane and is open; what is done is closed.
abbrev pub IsSound : Session → Type 0
IsSound s =
    (s.panes ≤ s.max_panes)
    × (s.max_panes ≤ 4)
    × (s.lingering ≡ true → (s.panes ≡ 0) × (s.closed ≡ false))
    × (s.done ≡ true → s.closed ≡ true)

abbrev pub AllSound : World → Type 0
AllSound w = (p : ℕ) → IsSound (session_at w p)

-- The table leads from an id to a session with this id that is not done.
abbrev pub IsTracked : World → Type 0
IsTracked w =
    (k : Bytes) (p : ℕ)
    → lookup w.table k ≡ some p
    → (p < length w.store) × ((session_at w p).id ≡ k) × ((session_at w p).done ≡ false)

abbrev pub IsConsistent : World → Type 0
IsConsistent w = (length w.table ≤ max_sessions) × AllSound w × IsTracked w

pub update-AllSound :
    (w : World) (p : ℕ) (s : Session) → AllSound w → IsSound s → AllSound (update w p s)
update-AllSound w p s sound new q = elim (get_or-set_cases w.store p q s (new_session [] 0)) [
  | inl (e, l, h) ↦ subst IsSound (sym h) new
  | inr h ↦ subst IsSound (sym h) (sound q)
]

update-IsTracked :
    (w : World) (p : ℕ) (s : Session)
    → IsTracked w
    → s.id ≡ (session_at w p).id
    → s.done ≡ (session_at w p).done
    → IsTracked (update w p s)
update-IsTracked w p s tracked same_id same_done k q h =
    let (l, i, d) = tracked k q h in
    let kept : q < length (update w p s).store = omega (arith, l, length-set w.store p s) in
    elim (get_or-set_cases w.store p q s (new_session [] 0)) [
      | inl (e, _, f) ↦ (
        kept,
        ap (λ x. x.id) f ∙ same_id ∙ ap (λ x. (session_at w x).id) e ∙ i,
        ap (λ x. x.done) f ∙ same_done ∙ ap (λ x. (session_at w x).done) e ∙ d,
      )
      | inr f ↦ (kept, ap (λ x. x.id) f ∙ i, ap (λ x. x.done) f ∙ d)
    ]

-- Forgetting a session leaves the table as it was or takes the session's id out.
forget_cases :
    (p : ℕ) (w : World)
    → ((lookup w.table (session_at w p).id ≡ some p)
        × (forget p w ≡ record w { table = delete w.table (session_at w p).id }))
      ⊎ ((lookup w.table (session_at w p).id ≢ some p) × (forget p w ≡ w))
unfolding forget
forget_cases p w = elim (Option-cases (lookup w.table (session_at w p).id)) [
  | inl e ↦ inr (λ h. not-none-eq-some (sym e ∙ h), rw (forget, e) refl)
  | inr (q, e) ↦ elim (Bool-cases (q == p)) [
    | inl f ↦ inl (e ∙ ap some ((==_iff q p).0 f), rw (forget, e, f) refl)
    | inr f ↦ inr (λ h. ground (arith, some_eq (sym e ∙ h), f), rw (forget, e, f) refl)
  ]
]

forget-IsTracked : (p : ℕ) (w : World) → IsTracked w → IsTracked (forget p w)
forget-IsTracked p w tracked = elim (forget_cases p w) [
  | inl (h, e) ↦
      subst IsTracked (sym e)
        (λ k q f. tracked k q (lookup-delete-some w.table (session_at w p).id k q f).1)
  | inr (h, e) ↦ subst IsTracked (sym e) tracked
]

pub forget_store : (p : ℕ) (w : World) → (forget p w).store ≡ w.store
forget_store p w = elim (forget_cases p w) [
  | inl (h, e) ↦ ap (λ x. x.store) e
  | inr (h, e) ↦ ap (λ x. x.store) e
]

length-forget-le : (p : ℕ) (w : World) → length (forget p w).table ≤ length w.table
length-forget-le p w = elim (forget_cases p w) [
  | inl (h, e) ↦
      omega (arith, ap (λ x. length x.table) e, length-delete-le w.table (session_at w p).id)
  | inr (h, e) ↦ omega (arith, ap (λ x. length x.table) e)
]

forget-AllSound : (p : ℕ) (w : World) → AllSound w → AllSound (forget p w)
forget-AllSound p w sound q =
    subst IsSound (ap (λ s. get_or s q (new_session [] 0)) (sym (forget_store p w))) (sound q)

-- After it no id leads to the session.
pub forget_absent :
    (p : ℕ) (w : World) → IsTracked w → (k : Bytes) → lookup (forget p w).table k ≢ some p
forget_absent p w tracked k h = elim (forget_cases p w) [
  | inl (_, e) ↦
      let was =
        lookup-delete-some w.table (session_at w p).id k p
          (sym (ap (λ x. lookup x.table k) e) ∙ h) in
      was.0 ((tracked k p was.1).1)
  | inr (differ, e) ↦
      let was = sym (ap (λ x. lookup x.table k) e) ∙ h in
      differ (ap (lookup w.table) (tracked k p was).1 ∙ was)
]

pub IsConsistent-update :
    (w : World) (p : ℕ) (s : Session)
    → IsConsistent w
    → IsSound s
    → s.id ≡ (session_at w p).id
    → s.done ≡ (session_at w p).done
    → IsConsistent (update w p s)
IsConsistent-update w p s (bound, sound, tracked) new id done =
    (bound, update-AllSound w p s sound new, update-IsTracked w p s tracked id done)

pub IsConsistent-forget : (p : ℕ) (w : World) → IsConsistent w → IsConsistent (forget p w)
IsConsistent-forget p w (bound, sound, tracked) = (
  omega (arith, bound, length-forget-le p w),
  forget-AllSound p w sound,
  forget-IsTracked p w tracked,
)

IsConsistent-fail :
    (error : Bytes) (p : ℕ) (w : World) → IsConsistent w → IsConsistent (fail error p w)
unfolding fail
IsConsistent-fail error p w c =
    IsConsistent-forget p _ (IsConsistent-update w p _ c (c.1 p) refl refl)

IsConsistent-ready :
    (p : ℕ) (w : World)
    → IsConsistent w
    → IsConsistent (update w p (record (session_at w p) { ready = true }))
IsConsistent-ready p w c = IsConsistent-update w p _ c (c.1 p) refl refl

pub IsConsistent-create :
    (outcome : Creation) (p : ℕ) (w : World) → IsConsistent w → IsConsistent (create outcome p w)
unfolding create
IsConsistent-create (scratch_failed shown error) p w c =
    let text = if shown then error else codes "could not prepare workspace" in
    IsConsistent-ready p (fail text p w) (IsConsistent-fail text p w c)
IsConsistent-create (shell_failed folder) p w c =
    let at : Session = record (session_at w p) { scratch = folder } in
    let removed : World = record (update w p at) { removed_folders = folder ∷ w.removed_folders } in
    let text = codes "could not start shell" in
    IsConsistent-ready p (fail text p removed)
      (IsConsistent-fail text p removed (IsConsistent-update w p at c (c.1 p) refl refl))
IsConsistent-create (started folder) p w c = IsConsistent-update w p _ c (c.1 p) refl refl

attach_session-IsSound : (s : Session) → IsSound s → IsSound (attach_session s).0
unfolding attach_session
attach_session-IsSound s h = ground (arith, h)

detach_session-IsSound : (s : Session) → IsSound s → IsSound (detach_session s)
unfolding detach_session
detach_session-IsSound s h = ground (arith, h)

close_session-IsSound :
    (reason : Bytes) (s : Session) → IsSound s → IsSound (close_session reason s)
unfolding close_session
close_session-IsSound reason s h = ground (arith, h)

kept_attach :
    (s : Session) → ((attach_session s).0.id ≡ s.id) × ((attach_session s).0.done ≡ s.done)
unfolding attach_session
kept_attach s = ground arith

kept_close :
    (reason : Bytes) (s : Session)
    → ((close_session reason s).id ≡ s.id) × ((close_session reason s).done ≡ s.done)
unfolding close_session
kept_close reason s = ground arith

pub IsConsistent-attach : (p : ℕ) (w : World) → IsConsistent w → IsConsistent (attach p w).0
unfolding attach
IsConsistent-attach p w c =
    let kept = kept_attach (session_at w p) in
    IsConsistent-update w p _ c (attach_session-IsSound (session_at w p) (c.1 p)) kept.0 kept.1

pub IsConsistent-detach : (p : ℕ) (w : World) → IsConsistent w → IsConsistent (detach p w)
unfolding detach detach_session
IsConsistent-detach p w c =
    IsConsistent-update w p _ c (detach_session-IsSound (session_at w p) (c.1 p)) refl refl

pub IsConsistent-close :
    (reason : Bytes) (p : ℕ) (w : World) → IsConsistent w → IsConsistent (begin_teardown reason p w)
unfolding begin_teardown
IsConsistent-close reason p w c =
    let kept = kept_close reason (session_at w p) in
    IsConsistent-update w p _ c (close_session-IsSound reason (session_at w p) (c.1 p)) kept.0
      kept.1
