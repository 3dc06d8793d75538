-- ===== src/Uploads/Sources/Laws.antt =====
-- The manifest finds each file's lines in the text.
use aut_oscan_engine.Prelude.{
  ℕ, zero, suc, ◌+◌, ◌-◌, ◌≤◌, ◌≡◌, refl, sym, ap, ◌∙◌, true, false, List, [], ◌∷◌, ◌++◌, ◌==◌,
  take, drop, inl, inr, arith, Bool-cases, All, append_assoc,
}
use mathlib.Core.Path.{ap₂}
use aut_oscan_engine.Prelude.Ends.{ends_lem}
use aut_oscan_engine.Prelude.Text.{Bytes, codes, has_suffix, trim_suffix}
use aut_oscan_engine.Output.{split_lines, prepend}
use aut_oscan_engine.Uploads.Sources.{
  SandboxFile, count_newlines, content_lines, header_line, concat_from,
}

take-prepend :
    (k c : ℕ) (ls : List Bytes) → take (suc k) (prepend c ls) ≡ prepend c (take (suc k) ls)
take-prepend zero c [] = refl
take-prepend (suc k) c [] = refl
take-prepend k c (l ∷ ls) = refl

drop-prepend : (k c : ℕ) (ls : List Bytes) → drop (suc k) (prepend c ls) ≡ drop (suc k) ls
drop-prepend zero c [] = refl
drop-prepend (suc k) c [] = refl
drop-prepend k c (l ∷ ls) = refl

-- The first lines of a text, up to a newline.
take-split_lines :
    (p rest : Bytes)
    → take (suc (count_newlines p)) (split_lines (p ++ (b'\n' ∷ rest))) ≡ split_lines p
unfolding split_lines count_newlines
take-split_lines [] rest = refl
take-split_lines (c ∷ p) rest =
    let ls = split_lines (p ++ (b'\n' ∷ rest)) in
    elim (Bool-cases (c == b'\n')) [
      | inl e ↦ rw e (ap (λ x. [] ∷ x) (take-split_lines p rest))
      | inr e ↦
          rw e (take-prepend (count_newlines p) c ls ∙ ap (prepend c) (take-split_lines p rest))
    ]

-- The lines after those.
drop-split_lines :
    (p rest : Bytes)
    → drop (suc (count_newlines p)) (split_lines (p ++ (b'\n' ∷ rest))) ≡ split_lines rest
unfolding split_lines count_newlines
drop-split_lines [] rest = refl
drop-split_lines (c ∷ p) rest =
    let ls = split_lines (p ++ (b'\n' ∷ rest)) in
    elim (Bool-cases (c == b'\n')) [
      | inl e ↦ rw e (drop-split_lines p rest)
      | inr e ↦ rw e (drop-prepend (count_newlines p) c ls ∙ drop-split_lines p rest)
    ]

drop-empty {ℓ} : {A : Type ℓ} (n : ℕ) → drop {A = A} n [] ≡ []
drop-empty zero = refl
drop-empty (suc n) = refl

drop-drop {ℓ} : {A : Type ℓ} (a b c : ℕ) (xs : List A) → c ≡ a + b → drop c xs ≡ drop b (drop a xs)
drop-drop zero b c xs h = ap (λ n. drop n xs) (omega (arith, h))
drop-drop (suc a) b c [] h = drop-empty c ∙ sym (drop-empty b)
drop-drop (suc a) b zero (x ∷ xs) h = absurd (omega (arith, h))
drop-drop (suc a) b (suc c) (x ∷ xs) h = drop-drop a b c xs (omega (arith, h))

-- The lines of a file: what follows a last newline is no line.
abbrev pub source_lines : Bytes → List Bytes
source_lines src = split_lines (trim_suffix src (b'\n' ∷ []))

-- A file with its entry of the manifest, in the lines of the text.
abbrev pub IsFound : List Bytes → Bytes × Bytes → SandboxFile → Type 0
IsFound lines f m =
    (m.path ≡ f.0)
    × (take (m.end_line + 1 - m.start_line) (drop (m.start_line - 1) lines) ≡ source_lines f.1)

-- The same for each file of a list.
abbrev pub AreFound : List Bytes → List (Bytes × Bytes) → List SandboxFile → Type 0
AreFound lines [] [] = Unit
AreFound lines [] (m ∷ ms) = ⊥
AreFound lines (f ∷ fs) [] = ⊥
AreFound lines (f ∷ fs) (m ∷ ms) = IsFound lines f m × AreFound lines fs ms

count_newlines-append :
    (a b : Bytes) → count_newlines (a ++ b) ≡ count_newlines a + count_newlines b
unfolding count_newlines
count_newlines-append [] b = omega arith
count_newlines-append (c ∷ a) b = ground (arith, count_newlines-append a b)

header_line_lem : (rel : Bytes) → count_newlines rel ≡ 0 → count_newlines (header_line rel) ≡ 0
unfolding header_line
header_line_lem rel h =
    let start : count_newlines (codes "/* ==== ") ≡ 0 = unfold count_newlines in refl in
    let end : count_newlines (codes " ==== */") ≡ 0 = unfold count_newlines in refl in
    omega (
      arith,
      count_newlines-append (codes "/* ==== ") (rel ++ codes " ==== */"),
      count_newlines-append rel (codes " ==== */"),
      h,
    )

-- A text of whole lines, and one that ends within a line.
content_lines_whole :
    (src : Bytes)
    → has_suffix src (b'\n' ∷ []) ≡ true
    → content_lines src ≡ suc (count_newlines (trim_suffix src (b'\n' ∷ [])))
content_lines_whole src h =
    let body = trim_suffix src (b'\n' ∷ []) in
    let count : count_newlines src ≡ suc (count_newlines body) =
      ap count_newlines (ends_lem src h)
      ∙ (count_newlines-append body (b'\n' ∷ []) ∙ unfold count_newlines in omega arith) in
    unfold content_lines has_suffix in ground (arith, h, count)

content_lines_partial :
    (src : Bytes)
    → has_suffix src (b'\n' ∷ []) ≡ false
    → content_lines src ≡ suc (count_newlines src)
unfolding content_lines
content_lines_partial src h = ground (arith, h)

content_lem :
    (src t : Bytes)
    → (take (content_lines src) (split_lines (src ++ (b'\n' ∷ t))) ≡ source_lines src)
      × (1 ≤ content_lines src)
content_lem src t = elim (Bool-cases (has_suffix src (b'\n' ∷ []))) [
  | inl y ↦
      let body = trim_suffix src (b'\n' ∷ []) in
      let count = content_lines_whole src y in
      let whole : src ++ (b'\n' ∷ t) ≡ body ++ (b'\n' ∷ b'\n' ∷ t) =
        ap (λ s. s ++ (b'\n' ∷ t)) (ends_lem src y) ∙ append_assoc body (b'\n' ∷ []) (b'\n' ∷ t) in
      (
        ap₂ (λ n s. take n (split_lines s)) count whole ∙ take-split_lines body (b'\n' ∷ t),
        omega (arith, count),
      )
  | inr n ↦
      let count = content_lines_partial src n in
      (
        ap (λ k. take k (split_lines (src ++ (b'\n' ∷ t)))) count
            ∙ (take-split_lines src t ∙ ap split_lines (sym (unfold trim_suffix in rw n refl))),
        omega (arith, count),
      )
]

-- From a line on, where `k` lines are before it and those from there are the text of the files.
concat_from-AreFound :
    (fs : List (Bytes × Bytes)) (k line : ℕ) (lines : List Bytes)
    → line ≡ k + 1
    → All (λ f. count_newlines f.0 ≡ 0) fs
    → drop k lines ≡ split_lines (concat_from line fs).0
    → AreFound lines fs (concat_from line fs).1
unfolding concat_from
concat_from-AreFound [] k line lines q h e = tt
concat_from-AreFound (f ∷ fs) k line lines q h e =
    let (rel, src) = f in
    let n = count_newlines src in
    let text = (concat_from (line + 1 + (n + 1)) fs).0 in
    let body = src ++ (b'\n' ∷ text) in
    let blank : count_newlines (header_line rel) ≡ 0 = header_line_lem rel h.0 in
    let skipped : drop (k + 1) lines ≡ split_lines body =
      drop-drop k 1 (k + 1) lines refl
      ∙ (ap (drop 1) e
          ∙ (ap (λ c. drop (suc c) (split_lines (header_line rel ++ (b'\n' ∷ body)))) (sym blank)
              ∙ drop-split_lines (header_line rel) body)) in
    let (found, positive) = content_lem src text in
    let size : line + 1 + content_lines src - 1 + 1 - (line + 1) ≡ content_lines src =
      omega (arith, positive) in
    let before : line + 1 - 1 ≡ k + 1 = omega (arith, q) in
    (
      (
        refl,
        ap₂ (λ a b. take a (drop b lines)) size before
            ∙ (ap (take (content_lines src)) skipped ∙ found),
      ),
      concat_from-AreFound fs (k + 1 + suc n) (line + 1 + (n + 1)) lines (omega (arith, q)) h.1 (
          drop-drop (k + 1) (suc n) (k + 1 + suc n) lines refl
          ∙ (ap (drop (suc n)) skipped ∙ drop-split_lines src text)),
    )

-- In the text of all sources of a submission, each file's manifest entry finds that file: the lines
-- of the text from the entry's first to its last are the lines of the file, and the entries are in
-- the files' order. No file's path has a newline in it.
pub concat_from_manifest :
    (files : List (Bytes × Bytes))
    → All (λ f. count_newlines f.0 ≡ 0) files
    → let (text, manifest) = concat_from 1 files in AreFound (split_lines text) files manifest
concat_from_manifest files h =
    concat_from-AreFound files 0 1 (split_lines (concat_from 1 files).0) refl h refl
