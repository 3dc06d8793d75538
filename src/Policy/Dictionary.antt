-- ===== src/Policy/Dictionary.antt =====
-- `Validate` of pkg/ai/dictionary.go. A problem is a value; its text is not built. The map `seen`
-- and the sorted ids of the entries that occur more than once become the list of these ids, in the
-- order of their first occurrence.
use aut_oscan_engine.Prelude.{ℕ, ◌+◌, List, [], ◌∷◌, ◌++◌, Option, none, some, ltb, if◌then◌else◌}
use aut_oscan_engine.Prelude.Text.{Bytes, bytes_eq, trim_space}
use aut_oscan_engine.Prelude.Maps.{lookup, insert}

pub record Entry : Type 0 where
  pub id : Bytes
  pub title : Bytes
  pub code : Bytes

pub data Problem : Type 0 where
  nil_dictionary no_entries : Problem
  id_required : ℕ → Problem
  title_required code_empty : ℕ → Bytes → Problem
  duplicate_id : Bytes → Problem

abbrev pub times_seen : List (Bytes × ℕ) → Bytes → ℕ
times_seen seen id = elim (lookup seen id) [ none ↦ 0 | some n ↦ n ]

unfoldable pub entry_problems : ℕ → Entry → List Problem
unfolding trim_space bytes_eq
entry_problems row e =
    let id = trim_space e.id in
    (if bytes_eq id [] then id_required row ∷ [] else [])
    ++ ((if bytes_eq (trim_space e.title) [] then title_required row id ∷ [] else [])
        ++ (if bytes_eq (trim_space e.code) [] then code_empty row id ∷ [] else []))

unfoldable pub all_problems : ℕ → List Entry → List Problem
unfolding entry_problems
all_problems row [] = []
all_problems row (e ∷ es) = entry_problems row e ++ all_problems (row + 1) es

unfoldable pub count_seen : List (Bytes × ℕ) → List Entry → List (Bytes × ℕ)
unfolding trim_space bytes_eq lookup insert
count_seen seen [] = seen
count_seen seen (e ∷ es) =
    let id = trim_space e.id in
    count_seen (if bytes_eq id [] then seen else insert seen id (times_seen seen id + 1)) es

unfoldable pub duplicates : List (Bytes × ℕ) → List Problem
duplicates [] = []
duplicates (s ∷ seen) =
    let rest = duplicates seen in if ltb 1 s.1 then duplicate_id s.0 ∷ rest else rest

abbrev no_entry_problem : List Entry → List Problem
no_entry_problem [] = no_entries ∷ []
no_entry_problem (e ∷ es) = []

-- The problems of a dictionary: it is valid if there are none.
unfoldable pub validate_dictionary : Option (List Entry) → List Problem
unfolding all_problems count_seen duplicates
validate_dictionary none = nil_dictionary ∷ []
validate_dictionary (some entries) =
    no_entry_problem entries ++ (all_problems 1 entries ++ duplicates (count_seen [] entries))
