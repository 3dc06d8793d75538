-- ===== src/Valgrind.antt =====
-- pkg/domain/valgrind.go. The four regular expressions are functions on the log that return their
-- captured groups; byte counts and numbers do not wrap at 64 bits.
pub mod Laws
use aut_oscan_engine.Prelude.{
  ℕ, zero, suc, ◌+◌, ◌-◌, ◌*◌, ◌^◌, ◌<◌, Bool, true, false, not, ◌&&◌, ◌||◌, List, [], ◌∷◌, ◌++◌,
  Option, none, some, ltb, leb, ◌==◌, if◌then◌else◌,
}
use aut_oscan_engine.Prelude.Text.{Bytes, codes, bytes_eq, trim_space}

pub data ValgrindStatus : Type 0 where
  pass fail missing : ValgrindStatus

pub record ValgrindResult : Type 0 where
  pub status : ValgrindStatus
  pub error_summary : ℕ
  pub definitely_lost_bytes : ℕ
  pub indirectly_lost_bytes : ℕ
  pub possibly_lost_bytes : ℕ
  pub still_reachable_bytes : ℕ
  pub open_file_descriptors : ℕ
  pub standard_file_descriptors : ℕ
  pub extra_open_file_descriptors : ℕ
  pub message : Bytes
  pub log : Bytes

abbrev pub blank_result : ValgrindStatus → Bytes → ValgrindResult
blank_result status message = record {
  status = status;
  error_summary = 0;
  definitely_lost_bytes = 0;
  indirectly_lost_bytes = 0;
  possibly_lost_bytes = 0;
  still_reachable_bytes = 0;
  open_file_descriptors = 0;
  standard_file_descriptors = 0;
  extra_open_file_descriptors = 0;
  message = message;
  log = [];
}

abbrev pub new_valgrind_missing_result : Bytes → ValgrindResult
new_valgrind_missing_result tool = blank_result missing (tool ++ codes " is not available.")

abbrev pub new_valgrind_failure_result : Bytes → ValgrindResult
new_valgrind_failure_result message = blank_result fail message

abbrev is_missing : ValgrindStatus → Bool
is_missing missing = true
is_missing _ = false

-- `Fails` of a result that is not nil.
unfoldable pub fails : ValgrindResult → Bool
fails r =
    if is_missing r.status
    then true
    else if ltb 0 r.error_summary
    then true
    else if ltb 0 r.definitely_lost_bytes
        || ltb 0 r.indirectly_lost_bytes
        || ltb 0 r.possibly_lost_bytes
        || ltb 0 r.still_reachable_bytes
    then true
    else ltb 0 r.extra_open_file_descriptors

-- A nil result does not fail.
unfoldable pub result_fails : Option ValgrindResult → Bool
unfolding fails
result_fails none = false
result_fails (some r) = fails r

abbrev is_digit : ℕ → Bool
is_digit c = leb b'0' c && leb c b'9'

-- The value of a decimal text, and `none` where ParseInt refuses it.
unfoldable pub parse_digits : ℕ → Bytes → Option ℕ
parse_digits acc [] = some acc
parse_digits acc (c ∷ s) =
    let rest = parse_digits (acc * 10 + (c - b'0')) s in if is_digit c then rest else none

unfoldable pub remove_commas : Bytes → Bytes
remove_commas [] = []
remove_commas (c ∷ s) = let rest = remove_commas s in if c == b',' then rest else c ∷ rest

-- ParseInt with 64 bits, on texts of digits and commas: an empty text and a number out of range
-- are errors, and an error reads as 0.
unfoldable pub parse_valgrind_number : Bytes → ℕ
unfolding parse_digits remove_commas bytes_eq
parse_valgrind_number value =
    let cleaned = remove_commas value in
    if bytes_eq cleaned []
    then 0
    else elim (parse_digits 0 cleaned) [ none ↦ 0 | some n ↦ if ltb n (2 ^ 63) then n else 0 ]

-- The captured groups. The second group of the descriptor pattern may be empty.
pub record Patterns : Type 0 where
  pub error_summary : Bytes → Option Bytes
  pub leaks : Bytes → List (Bytes × Bytes)
  pub descriptors : Bytes → Option (Bytes × Bytes)
  pub descriptor_entries : Bytes → List Bytes

-- A result with whether anything was parsed so far.
pub record Parsing : Type 0 where
  pub result : ValgrindResult
  pub parsed : Bool

unfoldable pub read_summary : Option Bytes → Parsing → Parsing
unfolding parse_valgrind_number
read_summary none p = p
read_summary (some text) p = record {
  result = record (p.result) { error_summary = parse_valgrind_number text };
  parsed = true;
}

unfoldable pub read_leak : Bytes → ℕ → ValgrindResult → ValgrindResult
unfolding bytes_eq
read_leak kind bytes r =
    if bytes_eq kind (codes "definitely lost")
    then record r { definitely_lost_bytes = bytes }
    else if bytes_eq kind (codes "indirectly lost")
    then record r { indirectly_lost_bytes = bytes }
    else if bytes_eq kind (codes "possibly lost")
    then record r { possibly_lost_bytes = bytes }
    else if bytes_eq kind (codes "still reachable")
    then record r { still_reachable_bytes = bytes }
    else r

unfoldable pub read_leaks : List (Bytes × Bytes) → Parsing → Parsing
unfolding read_leak parse_valgrind_number
read_leaks [] p = p
read_leaks ((kind, text) ∷ ls) p =
    read_leaks ls
      (record { result = read_leak kind (parse_valgrind_number text) p.result; parsed = true })

-- The loop with its `break`: the log file itself counts once, if it is listed.
unfoldable pub without_log_file : Bytes → List Bytes → ℕ → ℕ
unfolding bytes_eq
without_log_file log_path [] open_count = open_count
without_log_file log_path (entry ∷ es) open_count =
    let rest = without_log_file log_path es open_count in
    if bytes_eq entry log_path && ltb 0 open_count then open_count - 1 else rest

abbrev pub standard_count : Bytes → ℕ
standard_count text = if bytes_eq text [] then 3 else parse_valgrind_number text

abbrev pub open_count_of : Bytes → List Bytes → ℕ → ℕ
open_count_of log_path entries n =
    if bytes_eq log_path [] then n else without_log_file log_path entries n

unfoldable pub read_descriptors : Option (Bytes × Bytes) → List Bytes → Bytes → Parsing → Parsing
unfolding parse_valgrind_number without_log_file bytes_eq
read_descriptors none entries log_path p = p
read_descriptors (some (open_text, std_text)) entries log_path p =
    let open_count = open_count_of log_path entries (parse_valgrind_number open_text) in
    let standard = standard_count std_text in
    record {
      result = record (p.result) {
        open_file_descriptors = open_count;
        standard_file_descriptors = standard;
        extra_open_file_descriptors =
            if ltb standard open_count
            then open_count - standard
            else p.result.extra_open_file_descriptors;
      };
      parsed = true;
    }

-- What follows the three patterns.
unfoldable pub conclude : Parsing → ValgrindResult
unfolding fails
conclude p =
    if not p.parsed
    then record (p.result) { status = fail; message = codes "Valgrind report could not be parsed." }
    else if fails p.result
    then record (p.result) { status = fail }
    else p.result

unfoldable pub parse_valgrind_log : Patterns → Bytes → Bytes → ValgrindResult
unfolding read_summary read_leaks read_descriptors conclude bytes_eq trim_space
parse_valgrind_log patterns log log_path =
    let trimmed = trim_space log in
    if bytes_eq trimmed []
    then blank_result fail (codes "Valgrind did not produce a report.")
    else conclude (
        read_descriptors (patterns.descriptors log) (patterns.descriptor_entries log) log_path (
          read_leaks (patterns.leaks log) (
            read_summary (patterns.error_summary log) (record {
              result = record (blank_result pass []) { log = trimmed };
              parsed = false;
            }))))
