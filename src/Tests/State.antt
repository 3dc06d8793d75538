-- ===== src/Tests/State.antt =====
-- Tokens, sessions, policies and the server's state at small inputs.
use mathlib.Core.List.{map}
use aut_oscan_engine.Prelude.{
  ◌≡◌, ◌≤◌, ◌<◌, ◌≢◌, ◌↔◌, refl, List, [], ◌∷◌, false, none, some, arith, length, All,
}
use aut_oscan_engine.Prelude.Text.{Bytes, codes}
use aut_oscan_engine.Prelude.Maps.{lookup, IsDistinct}
use aut_oscan_engine.Terminal.Token.{pos, Claims, Decoders, accepted, parse_token}
use aut_oscan_engine.Terminal.Token.Laws.{IsAccepted, parse_token-IsAccepted}
use aut_oscan_engine.Terminal.Sessions.{
  World, get_or_create, attach, started, create, begin_teardown, teardown, session_closed,
}
use aut_oscan_engine.Terminal.Sessions.Steps.{
  enter, creating, attaching, closing, Steps, stay, go, empty_world,
}
use aut_oscan_engine.Terminal.Sessions.Invariant.{IsConsistent}
use aut_oscan_engine.Terminal.Sessions.Laws.{reachable-IsConsistent}
use aut_oscan_engine.Terminal.Sessions.Closed.{AllStayClosed, Steps-StaysClosed, teardown_final}
use aut_oscan_engine.Policy.{ProcessConfig, process_name, validate}
use aut_oscan_engine.Policy.Dictionary.{Entry, validate_dictionary}
use aut_oscan_engine.Policy.Laws.{validate-IsDistinct}
use aut_oscan_engine.Policy.Valid.{IsFilled, trimmed_id, validate_dictionary_lem}
use aut_oscan_engine.Server.Progress.{ProgressEntry, running, set_progress, get_progress}
use aut_oscan_engine.Server.Progress.Laws.{set_progress_lem}
use aut_oscan_engine.Server.Activity.{new_activity, begin}
use aut_oscan_engine.Server.Activity.Laws.{Runs, fresh, began}

abbrev claims : Claims
claims = record {
  run_id = codes "r1";
  submission_id = codes "s1";
  assignment = [];
  solution = false;
  student = codes "Ada";
  session_id = codes "abc-1";
  panes = pos 9;
  exp = pos 100;
}

abbrev four_panes : Claims
four_panes = record claims { panes = pos 4 }

abbrev decoders : Decoders
decoders = record {
  signature = λ secret payload. codes "sig";
  decode_payload = λ payload. some payload;
  unmarshal = λ body. some claims;
}

token_read : parse_token decoders 50 (codes "key") (codes "load.sig") ≡ accepted four_panes
unfolding parse_token
token_read = refl

parse_token-IsAccepted_example : IsAccepted decoders 50 (codes "key") (codes "load.sig") four_panes
parse_token-IsAccepted_example =
    parse_token-IsAccepted decoders 50 (codes "key") (codes "load.sig") four_panes token_read

abbrev entered : World
entered = (get_or_create four_panes empty_world).0

abbrev running_world : World
running_world = create (started (codes "/tmp/s")) 0 entered

abbrev attached_world : World
attached_world = (attach 0 running_world).0

some-Steps : Steps empty_world attached_world
some-Steps =
    go (enter four_panes (omega arith))
      (go (creating (started (codes "/tmp/s")) 0) (go (attaching 0) stay))

reachable-IsConsistent_example : IsConsistent attached_world
reachable-IsConsistent_example = reachable-IsConsistent attached_world some-Steps

teardown-Steps : Steps attached_world (begin_teardown (codes "over") 0 attached_world)
teardown-Steps = go (closing (codes "over") 0) stay

Steps-StaysClosed_example :
    AllStayClosed attached_world (begin_teardown (codes "over") 0 attached_world)
Steps-StaysClosed_example =
    Steps-StaysClosed attached_world (begin_teardown (codes "over") 0 attached_world) teardown-Steps

one_session : 0 < length entered.store
unfolding get_or_create
one_session = omega arith

teardown_final_example :
    let w' = teardown (codes "over") 0 entered in
    ((attach 0 w').1 ≡ session_closed) × (teardown (codes "again") 0 w' ≡ w')
teardown_final_example = teardown_final entered 0 (codes "over") (codes "again") one_session

abbrev same_path : Bytes → Bytes
same_path s = s

abbrev processes : List ProcessConfig
processes =
    record { source_file = codes "c.c"; instance_name = [] }
    ∷ record { source_file = codes "c.c"; instance_name = codes "c2" }
    ∷ []

validate-IsDistinct_example :
    (validate same_path (some processes) ≡ none)
    ↔ IsDistinct (map (process_name same_path) processes)
validate-IsDistinct_example = validate-IsDistinct same_path processes

abbrev entries : List Entry
entries = record { id = codes "e1"; title = codes "loop"; code = codes "x" } ∷ []

validate_dictionary_lem_example :
    (validate_dictionary (some entries) ≡ [])
    ↔ ((entries ≢ []) × All IsFilled entries × IsDistinct (map trimmed_id entries))
validate_dictionary_lem_example = validate_dictionary_lem entries

set_progress_lem_example :
    (e : ProgressEntry) × (get_progress
        (codes "t")
        (set_progress 5 (codes "t") 250000 (codes "compile") [])
      ≡ some e)
    × (250000 ≤ e.fraction)
    × ((old : ProgressEntry) → lookup [] (codes "t") ≡ some old → old.fraction ≤ e.fraction)
    × (e.stage ≡ codes "compile")
    × (e.state ≡ running)
    × (e.detail ≡ [])
set_progress_lem_example = set_progress_lem 5 (codes "t") 250000 (codes "compile") []

one_request : Runs (begin (new_activity 10)) 1 10
one_request = began (fresh 10)
