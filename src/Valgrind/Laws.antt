-- ===== src/Valgrind/Laws.antt =====
-- What the status of a Valgrind result says of its counts.
use aut_oscan_engine.Prelude.{
  ℕ, ◌-◌, ◌≡◌, ◌≢◌, ◌⊎◌, inl, inr, refl, ◌↔◌, true, false, Bool-cases, List, [], ◌∷◌, Option, none,
  some, arith, ltb,
}
use aut_oscan_engine.Prelude.Text.{Bytes, bytes_eq, trim_space}
use aut_oscan_engine.Valgrind.{
  pass, fail, missing, ValgrindResult, Patterns, Parsing, fails, read_summary, read_leak,
  read_leaks, read_descriptors, parse_valgrind_number, open_count_of, standard_count, conclude,
  parse_valgrind_log,
}

-- Until the descriptors are read, the status is a pass and no descriptor is counted.
record IsReading (p : Parsing) : Type 0 where
  passing : p.result.status ≡ pass
  silent : p.result.message ≡ []
  none_open : p.result.open_file_descriptors ≡ 0
  none_extra : p.result.extra_open_file_descriptors ≡ 0

-- Then the extra descriptors are those over the standard ones.
record IsRead (p : Parsing) : Type 0 where
  passing : p.result.status ≡ pass
  silent : p.result.message ≡ []
  extra :
      p.result.extra_open_file_descriptors
      ≡ p.result.open_file_descriptors - p.result.standard_file_descriptors

read_summary-IsReading :
    (m : Option Bytes) (p : Parsing) → IsReading p → IsReading (read_summary m p)
unfolding read_summary
read_summary-IsReading none p v = v
read_summary-IsReading (some text) p v = ground arith

read_leak-IsReading :
    (kind : Bytes) (n : ℕ) (p : Parsing)
    → IsReading p
    → IsReading (record { result = read_leak kind n p.result; parsed = true })
unfolding read_leak
read_leak-IsReading kind n p v = ground arith

read_leaks-IsReading :
    (ls : List (Bytes × Bytes)) (p : Parsing) → IsReading p → IsReading (read_leaks ls p)
unfolding read_leaks
read_leaks-IsReading [] p v = v
read_leaks-IsReading ((kind, text) ∷ ls) p v =
    read_leaks-IsReading ls _ (read_leak-IsReading kind (parse_valgrind_number text) p v)

read_descriptors-IsRead :
    (m : Option (Bytes × Bytes)) (entries : List Bytes) (log_path : Bytes) (p : Parsing)
    → IsReading p
    → IsRead (read_descriptors m entries log_path p)
unfolding read_descriptors
read_descriptors-IsRead none entries log_path p v = ground arith
read_descriptors-IsRead (some (open_text, std_text)) entries log_path p v =
    let open_count = open_count_of log_path entries (parse_valgrind_number open_text) in
    record {
      passing = v.passing;
      silent = v.silent;
      extra = elim (Bool-cases (ltb (standard_count std_text) open_count)) [
        | inl e ↦ rw e
        | inr e ↦ rw e (ground arith)
      ];
    }

abbrev pub NoIssues : ValgrindResult → Type 0
NoIssues r =
    (r.error_summary ≡ 0)
    × (r.definitely_lost_bytes ≡ 0)
    × (r.indirectly_lost_bytes ≡ 0)
    × (r.possibly_lost_bytes ≡ 0)
    × (r.still_reachable_bytes ≡ 0)
    × (r.extra_open_file_descriptors ≡ 0)

-- A result that is not "missing" does not fail exactly if all of its counts of errors, bytes and
-- extra descriptors are zero.
pub fails-NoIssues : (r : ValgrindResult) → r.status ≢ missing → (fails r ≡ false) ↔ NoIssues r
unfolding fails
fails-NoIssues r h = (ground arith, ground arith)

-- A status and its reason.
abbrev pub IsJudged : ValgrindResult → Type 0
IsJudged r =
    (r.status ≢ missing)
    × (r.status ≡ pass → NoIssues r × (r.message ≡ []))
    × (r.status ≡ fail → (fails r ≡ true) ⊎ (r.message ≢ []))
    × (r.extra_open_file_descriptors ≡ r.open_file_descriptors - r.standard_file_descriptors)

fails-fail :
    (r : ValgrindResult)
    → fails r ≡ true
    → r.status ≡ pass
    → fails (record r { status = fail }) ≡ true
unfolding fails
fails-fail r h e = ground arith

conclude-IsJudged : (p : Parsing) → IsRead p → IsJudged (conclude p)
unfolding conclude
conclude-IsJudged p v = elim (Bool-cases p.parsed) [
  | inr e ↦ rw e (ground arith)
  | inl e ↦ elim (Bool-cases (fails p.result)) [
    | inl f ↦ rw (e, f) (ground (arith, fails-fail p.result f))
    | inr f ↦ rw (e, f) (ground (arith, fails-NoIssues p.result))
  ]
]

-- Of every log, the result is a pass only with no error, no byte lost or reachable, no extra
-- descriptor and no message, a failure only with one of these or with a message, and never
-- "missing"; the extra descriptors are those beyond the standard ones.
pub parse_valgrind_log-IsJudged :
    (patterns : Patterns) (log log_path : Bytes)
    → IsJudged (parse_valgrind_log patterns log log_path)
unfolding parse_valgrind_log
parse_valgrind_log-IsJudged patterns log log_path =
    elim (Bool-cases (bytes_eq (trim_space log) [])) [
      | inl e ↦ rw e (ground arith)
      | inr e ↦ rw e (
          conclude-IsJudged _ (
            read_descriptors-IsRead (patterns.descriptors log) (patterns.descriptor_entries log)
              log_path _
              (read_leaks-IsReading (patterns.leaks log) _ (
                read_summary-IsReading (patterns.error_summary log) _ (record {
                  passing = refl;
                  silent = refl;
                  none_open = refl;
                  none_extra = refl;
                })))))
    ]

-- A log of white space only is given the status fail, and `Fails` of that result is false: what
-- asks `Fails` takes a run with no Valgrind report for a clean one.
pub parse_valgrind_log_blank :
    (patterns : Patterns) (log log_path : Bytes)
    → trim_space log ≡ []
    → ((parse_valgrind_log patterns log log_path).status ≡ fail)
      × (fails (parse_valgrind_log patterns log log_path) ≡ false)
unfolding parse_valgrind_log fails
parse_valgrind_log_blank patterns log log_path e = rw e (refl, refl)
