-- ===== src/Server/Progress.antt =====
-- The progress tracker of cmd/autoscan-server/progress.go and normalizeRunID of runs.go. A fraction
-- is a number of millionths, a time one of seconds; the clock is an argument.
pub mod Laws
pub mod Spec
pub mod Entries
pub mod Refine
use aut_oscan_engine.Prelude.{
  ℕ, zero, suc, ◌+◌, ◌-◌, ◌*◌, Bool, true, false, not, ◌&&◌, ◌||◌, List, [], ◌∷◌, ◌++◌, Option,
  none, some, ltb, leb, ◌==◌, if◌then◌else◌, length,
}
use aut_oscan_engine.Prelude.Text.{Bytes, codes, bytes_eq, trim_space}
use aut_oscan_engine.Prelude.Maps.{lookup, insert, delete}

pub data JobState : Type 0 where
  running done failed : JobState

pub record ProgressEntry : Type 0 where
  pub fraction : ℕ
  pub stage : Bytes
  pub state : JobState
  pub detail : Bytes
  pub updated_at : ℕ

abbrev pub Tracker : Type 0
Tracker = List (Bytes × ProgressEntry)

abbrev pub whole : ℕ
whole = 1000000

abbrev pub token_max_len : ℕ
token_max_len = 64

abbrev pub entry_ttl : ℕ
entry_ttl = 900

unfoldable pub is_token_char : ℕ → Bool
is_token_char c = c == 45 || leb 48 c && leb c 57 || leb 97 c && leb c 122 || leb 65 c && leb c 90

unfoldable pub all_token_chars : Bytes → Bool
unfolding is_token_char
all_token_chars [] = true
all_token_chars (c ∷ s) = is_token_char c && all_token_chars s

unfoldable pub valid_progress_token : Bytes → Bool
unfolding bytes_eq all_token_chars
valid_progress_token token =
    if bytes_eq token [] || ltb token_max_len (length token) then false else all_token_chars token

-- Drops the entries that were not updated for longer than they live.
unfoldable pub expire : ℕ → Tracker → Tracker
expire now [] = []
expire now (e ∷ t) =
    let rest = expire now t in if ltb entry_ttl (now - e.1.updated_at) then rest else e ∷ rest

abbrev pub shown_fraction : Option ProgressEntry → ℕ → ℕ
shown_fraction none fraction = fraction
shown_fraction (some prev) fraction = if ltb fraction prev.fraction then prev.fraction else fraction

unfoldable pub set_progress : ℕ → Bytes → ℕ → Bytes → Tracker → Tracker
unfolding lookup insert expire
set_progress now token fraction stage t =
    let entry : ProgressEntry = record {
      fraction = shown_fraction (lookup t token) fraction;
      stage = stage;
      state = running;
      detail = [];
      updated_at = now;
    } in
    expire now (insert t token entry)

abbrev blank_entry : ProgressEntry
blank_entry = record { fraction = 0; stage = []; state = running; detail = []; updated_at = 0 }

abbrev pub entry_or_blank : Option ProgressEntry → ProgressEntry
entry_or_blank none = blank_entry
entry_or_blank (some e) = e

unfoldable pub finish : ℕ → Bytes → Bool → Bytes → Tracker → Tracker
unfolding bytes_eq lookup insert
finish now token ok detail t =
    let entry = entry_or_blank (lookup t token) in
    if bytes_eq token []
    then t
    else insert t token (
        if ok
        then record entry { fraction = whole; state = done; updated_at = now }
        else record entry { state = failed; detail = detail; updated_at = now })

unfoldable pub drop_progress : Bytes → Tracker → Tracker
unfolding delete
drop_progress token t = delete t token

unfoldable pub get_progress : Bytes → Tracker → Option ProgressEntry
unfolding lookup
get_progress token t = lookup t token

-- `report` and `done` of a reporter; a reporter without a token does nothing.
unfoldable pub report_progress : ℕ → Bytes → ℕ → Bytes → Tracker → Tracker
unfolding bytes_eq set_progress
report_progress now token fraction stage t =
    if bytes_eq token [] then t else set_progress now token fraction stage t

unfoldable pub done_progress : Bytes → Tracker → Tracker
unfolding bytes_eq drop_progress
done_progress token t = if bytes_eq token [] then t else drop_progress token t

-- The reporter's token for the value of the form's field.
unfoldable pub reporter_token : Bytes → Bytes
unfolding trim_space valid_progress_token
reporter_token value =
    let token = trim_space value in if valid_progress_token token then token else []

pub data RunIdResult : Type 0 where
  missing_run_id invalid_run_id : RunIdResult
  normalized : Bytes → RunIdResult

unfoldable pub is_run_char : ℕ → Bool
is_run_char c =
    leb 48 c && leb c 57 || leb 97 c && leb c 122 || leb 65 c && leb c 90 || c == 45 || c == 95

unfoldable pub all_run_chars : Bytes → Bool
unfolding is_run_char
all_run_chars [] = true
all_run_chars (c ∷ s) = is_run_char c && all_run_chars s

unfoldable pub normalize_run_id : Bytes → RunIdResult
unfolding trim_space bytes_eq all_run_chars
normalize_run_id run_id =
    let n = trim_space run_id in
    if bytes_eq n []
    then missing_run_id
    else if all_run_chars n
    then normalized n
    else invalid_run_id
