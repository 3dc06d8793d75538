-- ===== src/Terminal/Sessions.antt =====
-- The sessions of internal/terminal/session.go. The store holds every session made; a session is
-- named by its place there, as by a pointer. The table is the map `sessions.m` from ids to these.
-- A timer is represented by whether it is armed. The pane host's process and its control socket are
-- not represented; that the process has ended is one of the causes of a teardown.
pub mod Steps
pub mod Invariant
pub mod Closed
pub mod Laws
use aut_oscan_engine.Prelude.{
  ℕ, zero, suc, ◌+◌, ◌-◌, Bool, true, false, not, ◌&&◌, ◌||◌, List, [], ◌∷◌, ◌++◌, Option, none,
  some, ltb, leb, ◌==◌, if◌then◌else◌, length, get_or, set,
}
use aut_oscan_engine.Prelude.Text.{Bytes, codes, bytes_eq}
use aut_oscan_engine.Prelude.Maps.{lookup, insert, delete}
use aut_oscan_engine.Terminal.Token.{ℤ, pos, negsuc, Claims}

pub record Session : Type 0 where
  pub id : Bytes
  pub scratch : Bytes
  pub max_panes : ℕ
  pub create_error : Option Bytes
  pub ready : Bool
  pub idle : Bool
  pub lifetime : Bool
  pub panes : ℕ
  pub closed : Bool
  pub lingering : Bool
  pub reason : Bytes
  pub done : Bool

pub record World : Type 0 where
  pub store : List Session
  pub table : List (Bytes × ℕ)
  pub removed_folders : List Bytes

abbrev pub max_sessions : ℕ
max_sessions = 16

-- A limit below 0 refuses every pane, as 0 does.
abbrev pub pane_limit : ℤ → ℕ
pane_limit (pos n) = n
pane_limit (negsuc n) = 0

abbrev pub new_session : Bytes → ℕ → Session
new_session id max_panes = record {
  id = id;
  scratch = [];
  max_panes = max_panes;
  create_error = none;
  ready = false;
  idle = false;
  lifetime = false;
  panes = 0;
  closed = false;
  lingering = false;
  reason = [];
  done = false;
}

abbrev pub session_at : World → ℕ → Session
session_at w p = get_or w.store p (new_session [] 0)

abbrev pub update : World → ℕ → Session → World
update w p s = record w { store = set w.store p s }

pub data Found : Type 0 where
  existing created : ℕ → Found
  session_limit : Found

unfoldable pub get_or_create : Claims → World → World × Found
unfolding lookup insert
get_or_create c w = elim (lookup w.table c.session_id) [
  | some p ↦ (w, existing p)
  | none ↦
      if leb max_sessions (length w.table)
      then (w, session_limit)
      else let p = length w.store in
        (
          record w {
            store = w.store ++ (new_session c.session_id (pane_limit c.panes) ∷ []);
            table = insert w.table c.session_id p;
          },
          created p,
        )
]

-- Removes the session from the table, if the table still has this very session under its id.
unfoldable pub forget : ℕ → World → World
unfolding lookup delete
forget p w =
    let id = (session_at w p).id in
    elim (lookup w.table id) [
      | none ↦ w
      | some q ↦ if q == p then record w { table = delete w.table id } else w
    ]

unfoldable pub fail : Bytes → ℕ → World → World
unfolding forget
fail error p w = forget p (update w p (record (session_at w p) { create_error = some error }))

-- How building the workspace and starting the pane host went. The text of an error is shown only if
-- it is a ShownError.
pub data Creation : Type 0 where
  scratch_failed : Bool → Bytes → Creation
  shell_failed : Bytes → Creation
  started : Bytes → Creation

unfoldable pub create : Creation → ℕ → World → World
unfolding fail
create (scratch_failed shown error) p w =
    let w' = fail (if shown then error else codes "could not prepare workspace") p w in
    update w' p (record (session_at w' p) { ready = true })
create (shell_failed folder) p w =
    let s = record (session_at w p) { scratch = folder } in
    let removed = record (update w p s) { removed_folders = folder ∷ w.removed_folders } in
    let w' = fail (codes "could not start shell") p removed in
    update w' p (record (session_at w' p) { ready = true })
create (started folder) p w =
    update w p
      (record (session_at w p) { scratch = folder; idle = true; lifetime = true; ready = true })

pub data Attached : Type 0 where
  attached session_closed pane_limit_reached : Attached

unfoldable pub attach_session : Session → Session × Attached
attach_session s =
    if s.closed
    then (s, session_closed)
    else if leb s.max_panes s.panes
    then (s, pane_limit_reached)
    else (record s { panes = s.panes + 1; lingering = false }, attached)

-- A detach follows an attach, so the count does not fall below 0.
unfoldable pub detach_session : Session → Session
detach_session s =
    let left = s.panes - 1 in
    record s {
      panes = left;
      lingering = if leb left 0 && not s.closed && not s.lingering then true else s.lingering;
    }

unfoldable pub attach : ℕ → World → World × Attached
unfolding attach_session
attach p w = let (s, a) = attach_session (session_at w p) in (update w p s, a)

unfoldable pub detach : ℕ → World → World
unfolding detach_session
detach p w = update w p (detach_session (session_at w p))

unfoldable pub close_reason : Session → Bytes
unfolding bytes_eq
close_reason s = if bytes_eq s.reason [] then codes "session ended" else s.reason

-- The first half of `teardown`, under the session's lock and its `closeOnce`.
unfoldable pub close_session : Bytes → Session → Session
close_session reason s =
    if s.closed then s else record s { closed = true; reason = reason; lingering = false }

unfoldable pub begin_teardown : Bytes → ℕ → World → World
unfolding close_session
begin_teardown reason p w = update w p (close_session reason (session_at w p))

-- The rest of it, which the same `closeOnce` runs once.
unfoldable pub end_teardown : ℕ → World → World
unfolding forget bytes_eq
end_teardown p w =
    let w' = forget p (update w p (record (session_at w p) { idle = false; lifetime = false })) in
    let s = session_at w' p in
    let w'' = update w' p (record s { done = true }) in
    if bytes_eq s.scratch []
    then w''
    else record w'' { removed_folders = s.scratch ∷ w''.removed_folders }

unfoldable pub teardown : Bytes → ℕ → World → World
unfolding begin_teardown end_teardown
teardown reason p w =
    if (session_at w p).closed then w else end_teardown p (begin_teardown reason p w)

unfoldable pub teardown_each : Bytes → List (Bytes × ℕ) → World → World
unfolding teardown
teardown_each reason [] w = w
teardown_each reason (e ∷ entries) w = teardown_each reason entries (teardown reason e.1 w)

unfoldable pub teardown_all : Bytes → World → World
unfolding teardown_each
teardown_all reason w = teardown_each reason w.table w
