-- ===== src/Terminal/Sessions/Steps.antt =====
-- The steps of a server with its sessions: each is one critical section of session.go.
use aut_oscan_engine.Prelude.{ℕ, ◌≡◌, ◌≤◌, true, []}
use aut_oscan_engine.Prelude.Text.{Bytes}
use aut_oscan_engine.Terminal.Token.{Claims}
use aut_oscan_engine.Terminal.Token.Laws.{IsPaneCount}
use aut_oscan_engine.Terminal.Sessions.{
  World, session_at, get_or_create, Creation, create, attach, detach, begin_teardown, end_teardown,
}

-- Claims come from an accepted token; a pane is detached after it was attached; the rest of a
-- teardown follows its first half.
pub data Step : World → World → Type 0 where
  enter : {w : World} (c : Claims) → IsPaneCount c.panes → Step w (get_or_create c w).0
  creating : {w : World} (outcome : Creation) (p : ℕ) → Step w (create outcome p w)
  attaching : {w : World} (p : ℕ) → Step w (attach p w).0
  detaching : {w : World} (p : ℕ) → 1 ≤ (session_at w p).panes → Step w (detach p w)
  closing : {w : World} (reason : Bytes) (p : ℕ) → Step w (begin_teardown reason p w)
  ending : {w : World} (p : ℕ) → (session_at w p).closed ≡ true → Step w (end_teardown p w)

-- Any number of steps.
pub data Steps : World → World → Type 0 where
  stay : {w : World} → Steps w w
  go : {u v w : World} → Step u v → Steps v w → Steps u w

-- The world of a server that has just started.
abbrev pub empty_world : World
empty_world = record { store = []; table = []; removed_folders = [] }
