-- ===== src/Terminal/Sessions/Closed.antt =====
-- Closed sessions stay closed, and a teardown is final.
use aut_oscan_engine.Prelude.{
  ℕ, ◌≡◌, ◌≤◌, ◌<◌, ◌∙◌, refl, sym, ap, true, false, [], ◌∷◌, some, Bool-cases, inl, inr, arith,
  if◌then◌else◌, length, get_or, get_or-set_same, get_or-set_cases, get_or-append_cases,
  get_or-length,
}
use aut_oscan_engine.Prelude.Text.{Bytes, codes, bytes_eq}
use aut_oscan_engine.Terminal.Token.{Claims}
use aut_oscan_engine.Terminal.Sessions.{
  World, Session, session_at, update, new_session, pane_limit, get_or_create, forget, fail,
  Creation, scratch_failed, shell_failed, started, create, session_closed, attach_session, attach,
  detach_session, detach, close_session, begin_teardown, end_teardown, teardown,
}
use aut_oscan_engine.Terminal.Sessions.Steps.{
  Step, enter, creating, attaching, detaching, closing, ending, Steps, stay, go,
}
use aut_oscan_engine.Terminal.Sessions.Invariant.{forget_store}
use aut_oscan_engine.Terminal.Sessions.Laws.{get_or_create_cases}

-- A closed session stays closed and gets no more panes.
abbrev pub StaysClosed : Session → Session → Type 0
StaysClosed s s' = s.closed ≡ true → (s'.closed ≡ true) × (s'.panes ≤ s.panes)

-- So for each session of the store.
abbrev pub AllStayClosed : World → World → Type 0
AllStayClosed v w = (q : ℕ) → StaysClosed (session_at v q) (session_at w q)

StaysClosed_trans : (u v w : World) → AllStayClosed u v → AllStayClosed v w → AllStayClosed u w
StaysClosed_trans u v w f g q h =
    let (c, l) = f q h in let (d, m) = g q c in (d, omega (arith, l, m))

update-StaysClosed :
    (w : World) (p : ℕ) (s : Session)
    → StaysClosed (session_at w p) s
    → AllStayClosed w (update w p s)
update-StaysClosed w p s f q h = elim (get_or-set_cases w.store p q s (new_session [] 0)) [
  | inl (e, _, g) ↦
      let (c, l) = f (ap (λ i. (session_at w i).closed) e ∙ h) in
      (
        ap (λ x. x.closed) g ∙ c,
        omega (arith, l, ap (λ x. x.panes) g, ap (λ i. (session_at w i).panes) e),
      )
  | inr g ↦ (ap (λ x. x.closed) g ∙ h, omega (arith, ap (λ x. x.panes) g))
]

same_store_StaysClosed : (v w : World) → w.store ≡ v.store → AllStayClosed v w
same_store_StaysClosed v w e q h = (
  ap (λ xs. (get_or xs q (new_session [] 0)).closed) e ∙ h,
  omega (arith, ap (λ xs. (get_or xs q (new_session [] 0)).panes) e),
)

forget_StaysClosed : (p : ℕ) (w : World) → AllStayClosed w (forget p w)
forget_StaysClosed p w = same_store_StaysClosed w (forget p w) (forget_store p w)

enter_StaysClosed : (c : Claims) (w : World) → AllStayClosed w (get_or_create c w).0
enter_StaysClosed c w q h = elim (get_or_create_cases c w) [
  | inl e ↦ same_store_StaysClosed w (get_or_create c w).0 (ap (λ x. x.store) e) q h
  | inr (room, e) ↦
      let s = new_session c.session_id (pane_limit c.panes) in
      elim (get_or-append_cases w.store q s (new_session [] 0)) [
        | inl (i, f) ↦
            let missing : session_at w q ≡ new_session [] 0 =
              ap (λ j. get_or w.store j (new_session [] 0)) i
              ∙ get_or-length w.store (new_session [] 0) in
            let opened : false ≡ true = sym (ap (λ x. x.closed) missing) ∙ h in
            absurd (ground (arith, opened))
        | inr f ↦
            let g = ap (λ x. session_at x q) e ∙ f in
            (ap (λ x. x.closed) g ∙ h, omega (arith, ap (λ x. x.panes) g))
      ]
]

fail_StaysClosed : (error : Bytes) (p : ℕ) (w : World) → AllStayClosed w (fail error p w)
unfolding fail
fail_StaysClosed error p w =
    let s : Session = record (session_at w p) { create_error = some error } in
    StaysClosed_trans w (update w p s) (forget p (update w p s))
      (update-StaysClosed w p s (λ h. (h, omega arith))) (forget_StaysClosed p (update w p s))

abbrev ready : ℕ → World → World
ready p w = update w p (record (session_at w p) { ready = true })

ready_StaysClosed : (p : ℕ) (w : World) → AllStayClosed w (ready p w)
ready_StaysClosed p w = update-StaysClosed w p _ (λ h. (h, omega arith))

create_StaysClosed : (outcome : Creation) (p : ℕ) (w : World) → AllStayClosed w (create outcome p w)
unfolding create
create_StaysClosed (scratch_failed shown error) p w =
    let text = if shown then error else codes "could not prepare workspace" in
    StaysClosed_trans w (fail text p w) (ready p (fail text p w)) (fail_StaysClosed text p w)
      (ready_StaysClosed p (fail text p w))
create_StaysClosed (shell_failed folder) p w =
    let at : Session = record (session_at w p) { scratch = folder } in
    let removed : World = record (update w p at) { removed_folders = folder ∷ w.removed_folders } in
    let text = codes "could not start shell" in
    StaysClosed_trans w removed (ready p (fail text p removed))
      (update-StaysClosed w p at (λ h. (h, omega arith)))
      (StaysClosed_trans removed (fail text p removed) (ready p (fail text p removed))
        (fail_StaysClosed text p removed) (ready_StaysClosed p (fail text p removed)))
create_StaysClosed (started folder) p w = update-StaysClosed w p _ (λ h. (h, omega arith))

attach_StaysClosed : (p : ℕ) (w : World) → AllStayClosed w (attach p w).0
unfolding attach attach_session
attach_StaysClosed p w =
    update-StaysClosed w p (attach_session (session_at w p)).0 (λ h. ground (arith, h))

detach_StaysClosed : (p : ℕ) (w : World) → AllStayClosed w (detach p w)
unfolding detach detach_session
detach_StaysClosed p w =
    update-StaysClosed w p (detach_session (session_at w p)) (λ h. ground (arith, h))

close_StaysClosed :
    (reason : Bytes) (p : ℕ) (w : World) → AllStayClosed w (begin_teardown reason p w)
unfolding begin_teardown close_session
close_StaysClosed reason p w =
    update-StaysClosed w p (close_session reason (session_at w p)) (λ h. ground (arith, h))

end_StaysClosed : (p : ℕ) (w : World) → AllStayClosed w (end_teardown p w)
unfolding end_teardown
end_StaysClosed p w =
    let quiet : Session = record (session_at w p) { idle = false; lifetime = false } in
    let w' = forget p (update w p quiet) in
    let s : Session = record (session_at w' p) { done = true } in
    let all : AllStayClosed w (update w' p s) =
      StaysClosed_trans w (update w p quiet) (update w' p s)
        (update-StaysClosed w p quiet (λ h. (h, omega arith)))
        (StaysClosed_trans (update w p quiet) w' (update w' p s)
          (forget_StaysClosed p (update w p quiet))
          (update-StaysClosed w' p s (λ h. (h, omega arith)))) in
    elim (Bool-cases (bytes_eq (session_at w' p).scratch [])) [
      | inl e ↦ rw e all
      | inr e ↦ rw e all
    ]

Step-StaysClosed : {v w : World} → Step v w → AllStayClosed v w
Step-StaysClosed (enter c few) = enter_StaysClosed c _
Step-StaysClosed (creating outcome p) = create_StaysClosed outcome p _
Step-StaysClosed (attaching p) = attach_StaysClosed p _
Step-StaysClosed (detaching p h) = detach_StaysClosed p _
Step-StaysClosed (closing reason p) = close_StaysClosed reason p _
Step-StaysClosed (ending p h) = end_StaysClosed p _

-- Whatever steps follow, a session that is closed stays closed, and its panes never become more.
pub Steps-StaysClosed : (v w : World) → Steps v w → AllStayClosed v w
Steps-StaysClosed v _ stay = λ q h. (h, omega arith)
Steps-StaysClosed v w (go {v = u} s r) =
    StaysClosed_trans v u w (Step-StaysClosed s) (Steps-StaysClosed u w r)

teardown_closed :
    (reason : Bytes) (p : ℕ) (w : World) → (session_at w p).closed ≡ true → teardown reason p w ≡ w
unfolding teardown
teardown_closed reason p w h = rw h refl

close_session_closed : (reason : Bytes) (s : Session) → (close_session reason s).closed ≡ true
unfolding close_session
close_session_closed reason s = ground arith

begin_teardown_closed :
    (reason : Bytes) (p : ℕ) (w : World)
    → p < length w.store
    → (session_at (begin_teardown reason p w) p).closed ≡ true
unfolding begin_teardown
begin_teardown_closed reason p w l =
    let s = close_session reason (session_at w p) in
    ap (λ x. x.closed) (get_or-set_same w.store p s (new_session [] 0) l)
    ∙ close_session_closed reason (session_at w p)

teardown_open :
    (reason : Bytes) (p : ℕ) (w : World)
    → (session_at w p).closed ≡ false
    → teardown reason p w ≡ end_teardown p (begin_teardown reason p w)
unfolding teardown
teardown_open reason p w h = rw h refl

closed-teardown :
    (reason : Bytes) (p : ℕ) (w : World)
    → p < length w.store
    → (session_at (teardown reason p w) p).closed ≡ true
closed-teardown reason p w l = elim (Bool-cases (session_at w p).closed) [
  | inl e ↦ ap (λ x. (session_at x p).closed) (teardown_closed reason p w e) ∙ e
  | inr e ↦
      ap (λ x. (session_at x p).closed) (teardown_open reason p w e)
      ∙ (end_StaysClosed p (begin_teardown reason p w) p (begin_teardown_closed reason p w l)).0
]

attach_closed :
    (p : ℕ) (w : World) → (session_at w p).closed ≡ true → (attach p w).1 ≡ session_closed
unfolding attach attach_session
attach_closed p w h = rw h refl

-- After the teardown of a session of the store it is closed, so that no pane attaches any more; and
-- tearing it down again, for whatever reason, changes nothing.
pub teardown_final :
    (w : World) (p : ℕ) (first second : Bytes)
    → p < length w.store
    → let w' = teardown first p w in
      ((attach p w').1 ≡ session_closed) × (teardown second p w' ≡ w')
teardown_final w p first second l =
    let closed = closed-teardown first p w l in
    (
      attach_closed p (teardown first p w) closed,
      teardown_closed second p (teardown first p w) closed,
    )
