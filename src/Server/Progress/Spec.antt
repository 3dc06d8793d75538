-- ===== src/Server/Progress/Spec.antt =====
-- What the progress tracker promises: each token on its own goes through the steps of a small state
-- machine, whatever happens to the other tokens and in whatever order the tracker keeps them.
use aut_oscan_engine.Prelude.{
  ℕ, Bool, true, false, List, [], ◌∷◌, Option, none, some, leb, ◌+◌, ◌*◌, not, ◌&&◌, if◌then◌else◌,
}
use aut_oscan_engine.Prelude.Text.{Bytes, bytes_eq}
use aut_oscan_engine.Server.Progress.{ProgressEntry, running, done, failed}

-- An operation on the tracker, with its time.
pub data Operation : Type 0 where
  setting : (now : ℕ) (token : Bytes) (fraction : ℕ) (stage : Bytes) → Operation
  finishing : (now : ℕ) (token : Bytes) (ok : Bool) (detail : Bytes) → Operation
  dropping : (token : Bytes) → Operation

-- What a token showed before; one that showed nothing counts as 0 with empty texts.
abbrev pub fraction_of : Option ProgressEntry → ℕ
fraction_of none = 0
fraction_of (some e) = e.fraction

abbrev pub stage_of : Option ProgressEntry → Bytes
stage_of none = []
stage_of (some e) = e.stage

abbrev pub detail_of : Option ProgressEntry → Bytes
detail_of none = []
detail_of (some e) = e.detail

abbrev pub larger : ℕ → ℕ → ℕ
larger a b = if leb a b then b else a

-- A token's entry is forgotten a quarter of an hour after its last update.
abbrev pub kept_at : ℕ → Option ProgressEntry → Option ProgressEntry
kept_at now none = none
kept_at now (some e) = if leb now (e.updated_at + 15 * 60) then some e else none

-- What `finish` makes of an entry: a whole bar, or a detail.
abbrev pub finished : ℕ → Bool → Bytes → Option ProgressEntry → ProgressEntry
finished now true detail o = record {
  fraction = 1000000;
  stage = stage_of o;
  state = done;
  detail = detail_of o;
  updated_at = now;
}
finished now false detail o = record {
  fraction = fraction_of o;
  stage = stage_of o;
  state = failed;
  detail = detail;
  updated_at = now;
}

-- One token on its own: what it shows after an operation, by what it showed before. An operation on
-- another token does nothing to it but that `set` forgets what is too old.
abbrev pub token_step : Bytes → Operation → Option ProgressEntry → Option ProgressEntry
token_step k (setting now token fraction stage) o =
    if bytes_eq token k
    then some (record {
      fraction = larger (fraction_of o) fraction;
      stage = stage;
      state = running;
      detail = [];
      updated_at = now;
    })
    else kept_at now o
token_step k (finishing now token ok detail) o =
    if bytes_eq token k && not (bytes_eq k []) then some (finished now ok detail o) else o
token_step k (dropping token) o = if bytes_eq token k then none else o

unfoldable pub token_steps : Bytes → List Operation → Option ProgressEntry → Option ProgressEntry
token_steps k [] o = o
token_steps k (p ∷ ps) o = token_steps k ps (token_step k p o)
