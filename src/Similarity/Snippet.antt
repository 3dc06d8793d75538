-- ===== src/Similarity/Snippet.antt =====
-- The snippet of a match: its length, and that it is one line.
use mathlib.Core.List.{reverse, reverse-cons}
use aut_oscan_engine.Prelude.{
  ℕ, zero, suc, ◌-◌, ◌≡◌, ◌≤◌, ◌≢◌, refl, Bool-cases, inl, inr, [], ◌∷◌, arith, ltb, leb,
  if◌then◌else◌, length, length-append, length-take-le, take, drop, All, All-append,
}
use aut_oscan_engine.Prelude.Text.{Bytes, codes, trim_by, trim_space, space_width, last_space_width}
use aut_oscan_engine.Similarity.{extract_snippet, newlines_to_spaces, shorten}

length-shorten : (raw : Bytes) (max : ℕ) → 3 ≤ max → length (shorten raw max) ≤ max
unfolding shorten
length-shorten raw max h =
    ground (arith, length-append (take (max - 3) raw) (codes "..."), length-take-le (max - 3) raw)

-- A snippet is empty or a shortened piece of the source, on one line and trimmed.
extract_snippet_cases {ℓ} :
    (P : Bytes → Type ℓ) (content : Bytes) (start end max : ℕ)
    → P []
    → ((s : Bytes) → P (shorten (trim_space (newlines_to_spaces s)) max))
    → P (extract_snippet content start end max)
unfolding extract_snippet
extract_snippet_cases P content start end max empty piece =
    elim (Bool-cases (leb (if ltb (length content) end then length content else end) start)) [
      | inl e ↦ rw e empty
      | inr e ↦ rw e (
          piece (
            take ((if ltb (length content) end then length content else end) - start)
              (drop start content)))
    ]

-- A snippet is never longer than the limit that is asked for, where the three dots fit in it.
pub length-extract_snippet :
    (content : Bytes) (start end max : ℕ)
    → 3 ≤ max
    → length (extract_snippet content start end max) ≤ max
length-extract_snippet content start end max h =
    extract_snippet_cases (λ out. length out ≤ max) content start end max (omega arith)
      (λ s. length-shorten _ max h)

abbrev pub IsLine : Bytes → Type 0
IsLine = All (λ b. b ≢ b'\n')

IsLine-newlines_to_spaces : (s : Bytes) → IsLine (newlines_to_spaces s)
unfolding newlines_to_spaces
IsLine-newlines_to_spaces [] = tt
IsLine-newlines_to_spaces (b ∷ s) = (ground arith, IsLine-newlines_to_spaces s)

IsLine-trim_by :
    (width : Bytes → ℕ) (skip : ℕ) (s : Bytes) → IsLine s → IsLine (trim_by width skip s)
unfolding trim_by
IsLine-trim_by width skip [] h = tt
IsLine-trim_by width (suc skip) (c ∷ s) h = IsLine-trim_by width skip s h.1
IsLine-trim_by width zero (c ∷ s) h = go (width (c ∷ s)) refl (λ k. IsLine-trim_by width k s h.1)
  where
    go :
        (k : ℕ)
        → width (c ∷ s) ≡ k
        → ((k : ℕ) → IsLine (trim_by width k s))
        → IsLine (trim_by width 0 (c ∷ s))
    go zero e ih = rw (e, trim_by) h
    go (suc k) e ih = rw (e, trim_by) (ih k)

IsLine-reverse : (s : Bytes) → IsLine s → IsLine (reverse s)
IsLine-reverse [] h = tt
IsLine-reverse (c ∷ s) h =
    rw (reverse-cons c s)
      (All-append (λ b. b ≢ b'\n') (reverse s) (c ∷ []) (IsLine-reverse s h.1) (h.0, tt))

IsLine-take : (n : ℕ) (s : Bytes) → IsLine s → IsLine (take n s)
IsLine-take zero s h = tt
IsLine-take (suc n) [] h = tt
IsLine-take (suc n) (c ∷ s) h = (h.0, IsLine-take n s h.1)

IsLine-trim_space : (s : Bytes) → IsLine s → IsLine (trim_space s)
unfolding trim_space
IsLine-trim_space s h =
    IsLine-reverse _
      (IsLine-trim_by last_space_width 0 _ (IsLine-reverse _ (IsLine-trim_by space_width 0 s h)))

IsLine-shorten : (raw : Bytes) (max : ℕ) → IsLine raw → IsLine (shorten raw max)
unfolding shorten
IsLine-shorten raw max h = elim (Bool-cases (leb (length raw) max)) [
  | inl e ↦ rw e h
  | inr e ↦ rw e (
      All-append (λ b. b ≢ b'\n') (take (max - 3) raw) (codes "...") (IsLine-take (max - 3) raw h)
        (omega arith))
]

-- A snippet holds no newline, whatever range of the source it is taken from.
pub extract_snippet-IsLine :
    (content : Bytes) (start end max : ℕ) → IsLine (extract_snippet content start end max)
extract_snippet-IsLine content start end max =
    extract_snippet_cases IsLine content start end max tt
      (λ s. IsLine-shorten _ max (IsLine-trim_space _ (IsLine-newlines_to_spaces s)))
