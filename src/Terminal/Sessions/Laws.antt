-- ===== src/Terminal/Sessions/Laws.antt =====
-- The invariants of the sessions, kept by every step.
use aut_oscan_engine.Prelude.{
  ℕ, ◌≡◌, ◌≤◌, ◌<◌, ◌≢◌, ◌⊎◌, ◌∙◌, refl, sym, ap, subst, true, false, [], ◌∷◌, ◌++◌, some,
  Bool-cases, Option-cases, inl, inr, arith, leb, length, get_or, length-set, length-append,
  get_or-set_cases, get_or-append_cases, get_or-append_new, get_or-append_old,
}
use aut_oscan_engine.Prelude.Text.{Bytes, bytes_eq}
use aut_oscan_engine.Prelude.Maps.{lookup, insert, lookup-insert-some, length-insert-le}
use aut_oscan_engine.Terminal.Token.{ℤ, pos, negsuc, Claims}
use aut_oscan_engine.Terminal.Token.Laws.{IsPaneCount}
use aut_oscan_engine.Terminal.Sessions.{
  World, Session, session_at, update, new_session, pane_limit, max_sessions, get_or_create, forget,
  end_teardown,
}
use aut_oscan_engine.Terminal.Sessions.Steps.{
  Step, enter, creating, attaching, detaching, closing, ending, Steps, stay, go, empty_world,
}
use aut_oscan_engine.Terminal.Sessions.Invariant.{
  IsSound, AllSound, IsTracked, IsConsistent, update-AllSound, forget_store, forget_absent,
  IsConsistent-update, IsConsistent-forget, IsConsistent-create, IsConsistent-attach,
  IsConsistent-detach, IsConsistent-close,
}

-- Marking a session that no id leads to as done.
done_IsTracked :
    (w : World) (p : ℕ) (s : Session)
    → IsTracked w
    → ((k : Bytes) → lookup w.table k ≢ some p)
    → IsTracked (update w p s)
done_IsTracked w p s tracked absent k q h =
    let (l, i, d) = tracked k q h in
    let kept : q < length (update w p s).store = omega (arith, l, length-set w.store p s) in
    elim (get_or-set_cases w.store p q s (new_session [] 0)) [
      | inl (e, _, f) ↦ absurd (absent k (h ∙ ap some (sym e)))
      | inr f ↦ (kept, ap (λ x. x.id) f ∙ i, ap (λ x. x.done) f ∙ d)
    ]

closed-update :
    (w : World) (p : ℕ) (s : Session)
    → s.closed ≡ (session_at w p).closed
    → (session_at (update w p s) p).closed ≡ (session_at w p).closed
closed-update w p s h = elim (get_or-set_cases w.store p p s (new_session [] 0)) [
  | inl (_, _, f) ↦ ap (λ x. x.closed) f ∙ h
  | inr f ↦ ap (λ x. x.closed) f
]

IsConsistent-end :
    (p : ℕ) (w : World)
    → (session_at w p).closed ≡ true
    → IsConsistent w
    → IsConsistent (end_teardown p w)
unfolding end_teardown
IsConsistent-end p w closed c =
    let quiet = record (session_at w p) { idle = false; lifetime = false } in
    let stopped = IsConsistent-update w p quiet c (c.1 p) refl refl in
    let w' = forget p (update w p quiet) in
    let (bound, sound, tracked) = IsConsistent-forget p (update w p quiet) stopped in
    let s : Session = record (session_at w' p) { done = true } in
    let same_store = forget_store p (update w p quiet) in
    let still : (session_at w' p).closed ≡ true =
      ap (λ xs. (get_or xs p (new_session [] 0)).closed) same_store
      ∙ closed-update w p quiet refl
      ∙ closed in
    let (a, b, l, d) = sound p in
    let new : IsSound s = (a, b, l, λ _. still) in
    let done : IsConsistent (update w' p s) = (
      bound,
      update-AllSound w' p s sound new,
      done_IsTracked w' p s tracked (forget_absent p (update w p quiet) stopped.2),
    ) in
    elim (Bool-cases (bytes_eq (session_at w' p).scratch [])) [
      | inl e ↦ rw e done
      | inr e ↦ rw e done
    ]

append_AllSound :
    (w : World) (s : Session)
    → AllSound w
    → IsSound s
    → AllSound (record w { store = w.store ++ (s ∷ []) })
append_AllSound w s sound new q = elim (get_or-append_cases w.store q s (new_session [] 0)) [
  | inl (e, h) ↦ subst IsSound (sym h) new
  | inr h ↦ subst IsSound (sym h) (sound q)
]

pane_limit-le : (n : ℤ) → IsPaneCount n → pane_limit n ≤ 4
pane_limit-le (pos n) h = h.1
pane_limit-le (negsuc n) h = absurd h

pub get_or_create_cases :
    (c : Claims) (w : World)
    → ((get_or_create c w).0 ≡ w)
      ⊎ ((length w.table < max_sessions)
          × ((get_or_create c w).0 ≡ record w {
            store = w.store ++ (new_session c.session_id (pane_limit c.panes) ∷ []);
            table = insert w.table c.session_id (length w.store);
          }))
unfolding get_or_create
get_or_create_cases c w = elim (Option-cases (lookup w.table c.session_id)) [
  | inr (p, e) ↦ inl (rw (get_or_create, e) refl)
  | inl e ↦ elim (Bool-cases (leb max_sessions (length w.table))) [
    | inl f ↦ inl (rw (get_or_create, e, f) refl)
    | inr f ↦ inr (ground (arith, f), rw (get_or_create, e, f) refl)
  ]
]

append_IsTracked :
    (w : World) (s : Session)
    → IsTracked w
    → s.done ≡ false
    → IsTracked
        (record w { store = w.store ++ (s ∷ []); table = insert w.table s.id (length w.store) })
append_IsTracked w s tracked fresh k q h =
    let more = length-append w.store (s ∷ []) in
    elim (lookup-insert-some w.table s.id k (length w.store) q h) [
      | inl (same, e) ↦
          let found =
            ap (λ i. get_or (w.store ++ (s ∷ [])) i (new_session [] 0)) (sym e)
            ∙ get_or-append_new w.store s (new_session [] 0) in
          (omega (arith, more, e), ap (λ x. x.id) found ∙ same, ap (λ x. x.done) found ∙ fresh)
      | inr was ↦
          let (l, i, d) = tracked k q was in
          let found = get_or-append_old w.store (s ∷ []) q (new_session [] 0) l in
          (omega (arith, more, l), ap (λ x. x.id) found ∙ i, ap (λ x. x.done) found ∙ d)
    ]

IsConsistent-enter :
    (c : Claims) (w : World)
    → IsPaneCount c.panes
    → IsConsistent w
    → IsConsistent (get_or_create c w).0
IsConsistent-enter c w few (bound, sound, tracked) = elim (get_or_create_cases c w) [
  | inl e ↦ subst IsConsistent (sym e) (bound, sound, tracked)
  | inr (room, e) ↦
      let s = new_session c.session_id (pane_limit c.panes) in
      let new : IsSound s =
        (omega arith, pane_limit-le c.panes few, λ x. ground arith, λ x. ground arith) in
      subst IsConsistent (sym e) (
        omega (arith, room, length-insert-le w.table c.session_id (length w.store)),
        append_AllSound w s sound new,
        append_IsTracked w s tracked refl,
      )
]

IsConsistent-Step : {v w : World} → Step v w → IsConsistent v → IsConsistent w
IsConsistent-Step (enter c few) = IsConsistent-enter c _ few
IsConsistent-Step (creating outcome p) = IsConsistent-create outcome p _
IsConsistent-Step (attaching p) = IsConsistent-attach p _
IsConsistent-Step (detaching p h) = IsConsistent-detach p _
IsConsistent-Step (closing reason p) = IsConsistent-close reason p _
IsConsistent-Step (ending p h) = IsConsistent-end p _ h

IsConsistent-Steps : {v w : World} → Steps v w → IsConsistent v → IsConsistent w
IsConsistent-Steps stay c = c
IsConsistent-Steps (go s r) c = IsConsistent-Steps r (IsConsistent-Step s c)

-- In every world that a freshly started server can reach by entering sessions with granted claims,
-- creating, attaching, detaching and tearing down in any order, at most 16 ids lead to a session;
-- every session has at most its limit of panes, which is at most 4; a linger timer is armed only for
-- an open session without panes; a session that is done is closed; and every id in the table leads to
-- a session with this id that is not done.
pub reachable-IsConsistent : (w : World) → Steps empty_world w → IsConsistent w
unfolding lookup
reachable-IsConsistent w steps =
    let sound : AllSound empty_world =
      λ p. (omega arith, omega arith, λ x. ground arith, λ x. ground arith) in
    IsConsistent-Steps steps (omega arith, sound, λ k p h. ground arith)
