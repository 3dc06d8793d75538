-- ===== src/Report/Lines.antt =====
-- The line endings of a source file that is read.
use aut_oscan_engine.Prelude.{
  subst, some_eq, ◌≡◌, ◌∙◌, ◌≢◌, refl, ap, sym, [], ◌∷◌, some, arith, All,
}
use aut_oscan_engine.Prelude.Text.{Bytes}
use aut_oscan_engine.Output.{replace_crlf}
use aut_oscan_engine.Report.{replace_cr, read_source_file}

-- A text without carriage returns.
abbrev pub HasNoCr : Bytes → Type 0
HasNoCr s = All (λ c. c ≢ 13) s

replace_cr-HasNoCr : (s : Bytes) → HasNoCr (replace_cr s)
unfolding replace_cr
replace_cr-HasNoCr [] = tt
replace_cr-HasNoCr (c ∷ s) = (ground arith, replace_cr-HasNoCr s)

replace_cr_unchanged : (s : Bytes) → HasNoCr s → replace_cr s ≡ s
unfolding replace_cr
replace_cr_unchanged [] h = refl
replace_cr_unchanged (c ∷ s) h = ground (arith, h.0, replace_cr_unchanged s h.1)

replace_crlf_unchanged : (s : Bytes) → HasNoCr s → replace_crlf s ≡ s
unfolding replace_crlf
replace_crlf_unchanged [] h = refl
replace_crlf_unchanged (c ∷ s) h = ground (arith, h.0, replace_crlf_unchanged s h.1)

-- A source file that can be read is read without carriage returns, and one that has none is read
-- as it is.
pub read_source_file-HasNoCr :
    (content read : Bytes)
    → read_source_file (some content) ≡ some read
    → HasNoCr read × (HasNoCr content → read ≡ content)
unfolding read_source_file
read_source_file-HasNoCr content read h = (
  subst HasNoCr (some_eq h) (replace_cr-HasNoCr (replace_crlf content)),
  λ clean.
      sym (some_eq h)
      ∙ ap replace_cr (replace_crlf_unchanged content clean)
      ∙ replace_cr_unchanged content clean,
)
