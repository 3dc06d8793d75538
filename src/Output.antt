-- ===== src/Output.antt =====
-- `ComputeOutputDiff` of pkg/domain/execute.go: expected output against actual output.
pub mod Laws
pub mod Reading
use aut_oscan_engine.Prelude.{
  ℕ, suc, ◌+◌, Bool, true, false, ◌&&◌, List, [], ◌∷◌, ◌++◌, leb, ◌==◌, if◌then◌else◌, length,
}
use aut_oscan_engine.Prelude.Text.{Bytes, codes, bytes_eq, trim_suffix}

-- `unset` is the empty text, which a result holds before its output is compared.
pub data OutputMatch : Type 0 where
  unset none pass fail missing : OutputMatch

pub data LineType : Type 0 where
  same added removed : LineType

pub record DiffLine : Type 0 where
  pub line_type : LineType
  pub content : Bytes
  pub line_num : ℕ

abbrev pub max_diff_lines : ℕ
max_diff_lines = 500

abbrev starts_with_newline : Bytes → Bool
starts_with_newline [] = false
starts_with_newline (c ∷ s) = c == b'\n'

-- `strings.ReplaceAll(s, "\r\n", "\n")`: a return goes where a newline follows.
unfoldable pub replace_crlf : Bytes → Bytes
replace_crlf [] = []
replace_crlf (c ∷ s) =
    let rest = replace_crlf s in if c == b'\r' && starts_with_newline s then rest else c ∷ rest

unfoldable pub normalize : Bytes → Bytes
unfolding trim_suffix replace_crlf
normalize s = trim_suffix (replace_crlf s) (b'\n' ∷ [])

abbrev pub prepend : ℕ → List Bytes → List Bytes
prepend c [] = (c ∷ []) ∷ []
prepend c (l ∷ ls) = (c ∷ l) ∷ ls

-- `strings.Split(s, "\n")`.
unfoldable pub split_lines : Bytes → List Bytes
split_lines [] = [] ∷ []
split_lines (c ∷ s) = let rest = split_lines s in if c == b'\n' then [] ∷ rest else prepend c rest

abbrev line : LineType → Bytes → ℕ → DiffLine
line t content i = record { line_type = t; content = content; line_num = i + 1 }

-- What round `i` appends, from the lines that are left: a missing line reads as the empty one, and
-- is neither removed nor added.
unfoldable pub diff_at : ℕ → List Bytes → List Bytes → List DiffLine
unfolding bytes_eq
diff_at i [] [] = []
diff_at i (e ∷ es) (a ∷ as') =
    if bytes_eq e a then line same a i ∷ [] else line removed e i ∷ line added a i ∷ []
diff_at i (e ∷ es) [] = if bytes_eq e [] then line same [] i ∷ [] else line removed e i ∷ []
diff_at i [] (a ∷ as') = if bytes_eq [] a then line same a i ∷ [] else line added a i ∷ []

abbrev pub truncation : DiffLine
truncation = record { line_type = same; content = codes "... [diff truncated]"; line_num = 0 }

-- The loop from round `i`, with `count` lines in the diff so far.
unfoldable pub diff_from : ℕ → ℕ → List Bytes → List Bytes → List DiffLine
unfolding diff_at
diff_from i count [] [] = []
diff_from i count (e ∷ es) (a ∷ as') =
    let here = diff_at i (e ∷ es) (a ∷ as') in
    let rest = diff_from (i + 1) (count + length here) es as' in
    if leb max_diff_lines count then truncation ∷ [] else here ++ rest
diff_from i count (e ∷ es) [] =
    let here = diff_at i (e ∷ es) [] in
    let rest = diff_from (i + 1) (count + length here) es [] in
    if leb max_diff_lines count then truncation ∷ [] else here ++ rest
diff_from i count [] (a ∷ as') =
    let here = diff_at i [] (a ∷ as') in
    let rest = diff_from (i + 1) (count + length here) [] as' in
    if leb max_diff_lines count then truncation ∷ [] else here ++ rest

unfoldable pub compute_output_diff : Bytes → Bytes → OutputMatch × List DiffLine
unfolding normalize split_lines diff_from bytes_eq
compute_output_diff expected actual =
    let e = normalize expected in
    let a = normalize actual in
    if bytes_eq e a then (pass, []) else (fail, diff_from 0 0 (split_lines e) (split_lines a))
