-- ===== src/Discovery/Laws.antt =====
-- Discovery finds exactly the visible leaf folders with C files.
use aut_oscan_engine.Prelude.{
  ◌≡◌, ◌≢◌, ◌↔◌, ◌⊎◌, ◌∙◌, refl, sym, ap, subst, Bool, true, false, not, ◌&&◌, List, [], ◌∷◌, ◌++◌,
  Option, none, some, some_eq, not-none-eq-some, inl, inr, Bool-cases, if◌then◌else◌,
}
use mathlib.Core.Path.{ap₂}
use aut_oscan_engine.Prelude.Text.{Bytes, codes}
use aut_oscan_engine.Report.{Submission}
use aut_oscan_engine.Uploads.Paths.{join}
use aut_oscan_engine.Discovery.{
  Entries, no_entries, file, folder, is_skipped, has_subdirs, c_files_of, check_leaf_folder,
  is_empty, submission_at, rel_child, found_with, discover_in, discover,
}

-- A folder below the entries of another, by a way on which no folder is skipped, with its path from
-- the root and in full.
pub data IsBelow : (rel path : Bytes) → Entries → (rel' path' : Bytes) → Entries → Type 0 where
  after_file :
      {rel path r p name : Bytes} {rest es : Entries}
      → IsBelow rel path rest r p es
      → IsBelow rel path (file name rest) r p es
  after_folder :
      {rel path r p name : Bytes} {readable : Bool} {inside rest es : Entries}
      → IsBelow rel path rest r p es
      → IsBelow rel path (folder name readable inside rest) r p es
  this_one :
      {rel path name : Bytes} {readable : Bool} {inside rest : Entries}
      → is_skipped name ≡ false
      → IsBelow rel path
          (folder name readable inside rest)
          (rel_child rel name)
          (join path name)
          inside
  deeper :
      {rel path r p name : Bytes} {readable : Bool} {inside rest es : Entries}
      → is_skipped name ≡ false
      → IsBelow (rel_child rel name) (join path name) inside r p es
      → IsBelow rel path (folder name readable inside rest) r p es

-- A submission is one of a list.
abbrev pub In : Submission → List Submission → Type 0
In s [] = ⊥
In s (t ∷ ts) = (s ≡ t) ⊎ In s ts

In-append : (s : Submission) (xs ys : List Submission) → In s (xs ++ ys) ↔ (In s xs ⊎ In s ys)
In-append s [] ys = (λ h. inr h, λ h. elim h [ inl e ↦ absurd e | inr k ↦ k ])
In-append s (x ∷ xs) ys =
    let rest = In-append s xs ys in
    (
      λ h. elim h [
        | inl e ↦ inl (inl e)
        | inr k ↦ elim (rest.0 k) [ inl a ↦ inl (inr a) | inr b ↦ inr b ]
      ],
      λ h. elim h [
        | inl (inl e) ↦ inl e
        | inl (inr a) ↦ inr (rest.1 (inl a))
        | inr b ↦ inr (rest.1 (inr b))
      ],
    )

true-not-false : ¬ (true ≡ false)
true-not-false e = cc

-- The ways to a folder below a file or a folder.
IsBelow-file :
    {rel path r p name : Bytes} {rest es : Entries}
    → IsBelow rel path (file name rest) r p es
    → IsBelow rel path rest r p es
IsBelow-file (after_file h) = h

IsBelow-folder :
    {rel path name : Bytes} {readable : Bool} {inside rest : Entries} {r p : Bytes} {es : Entries}
    → IsBelow rel path (folder name readable inside rest) r p es
    → IsBelow rel path rest r p es
      ⊎ ((is_skipped name ≡ false)
          × (((r ≡ rel_child rel name) × (p ≡ join path name) × (es ≡ inside))
              ⊎ IsBelow (rel_child rel name) (join path name) inside r p es))
IsBelow-folder (after_folder h) = inl h
IsBelow-folder (this_one v) = inr (v, inl (refl, refl, refl))
IsBelow-folder (deeper v h) = inr (v, inr h)

nothing-IsBelow : {rel path r p : Bytes} {es : Entries} → ¬ IsBelow rel path no_entries r p es
nothing-IsBelow h = elim h [ ]

found_with-some :
    (a b : Option (List Submission)) (c : List Submission)
    → found_with a b ≡ some c
    → (x : List Submission) × (y : List Submission) × (a ≡ some x) × (b ≡ some y) × (c ≡ x ++ y)
found_with-some (some x) (some y) c e = (x, y, refl, refl, sym (some_eq e))
found_with-some (some x) none c e = absurd (not-none-eq-some e)
found_with-some none b c e = absurd (not-none-eq-some e)

-- A submission of a folder below.
abbrev IsSubmissionBelow : (Bytes → Bytes) → (rel path : Bytes) → Entries → Submission → Type 0
IsSubmissionBelow to_lower rel path es s =
    (r : Bytes) × (p : Bytes) × (fs : Entries) × IsBelow rel path es r p fs
    × In s (submission_at to_lower r p fs)

-- What is found in a visible folder, in the folders below it, and beside it.
visible_lem :
    (to_lower : Bytes → Bytes) (rel path name : Bytes) (readable : Bool) (inside rest : Entries)
    (a b : List Submission) (s : Submission)
    → let r' = rel_child rel name in
      let p' = join path name in
      is_skipped name ≡ false
      → In s a ↔ IsSubmissionBelow to_lower r' p' inside s
      → In s b ↔ IsSubmissionBelow to_lower rel path rest s
      → In s (submission_at to_lower r' p' inside ++ (a ++ b))
        ↔ IsSubmissionBelow to_lower rel path (folder name readable inside rest) s
visible_lem to_lower rel path name readable inside rest a b s v inner outer =
    let r' = rel_child rel name in
    let p' = join path name in
    let own = submission_at to_lower r' p' inside in
    let parts = In-append s own (a ++ b) in
    let others = In-append s a b in
    (
      λ h. elim (parts.0 h) [
        | inl k ↦ (r', p', inside, this_one v, k)
        | inr ab ↦ elim (others.0 ab) [
          | inl k ↦ let (r, p, fs, w, m) = inner.0 k in (r, p, fs, deeper v w, m)
          | inr k ↦ let (r, p, fs, w, m) = outer.0 k in (r, p, fs, after_folder w, m)
        ]
      ],
      λ (r, p, fs, w, m). parts.1 (elim (IsBelow-folder w) [
        | inl w' ↦ inr (others.1 (inr (outer.1 (r, p, fs, w', m))))
        | inr (_, inl (er, ep, ef)) ↦ inl (subst (In s) (ap₃ (submission_at to_lower) er ep ef) m)
        | inr (_, inr w') ↦ inr (others.1 (inl (inner.1 (r, p, fs, w', m))))
      ]),
    )
  where
    ap₃ :
        (f : Bytes → Bytes → Entries → List Submission) {r r' p p' : Bytes} {e e' : Entries}
        → r ≡ r'
        → p ≡ p'
        → e ≡ e'
        → f r p e ≡ f r' p' e'
    ap₃ f er ep ee = cc

discover_in_lem :
    (to_lower : Bytes → Bytes) (rel path : Bytes) (es : Entries) (found : List Submission)
    (s : Submission)
    → discover_in to_lower rel path es ≡ some found
    → In s found ↔ IsSubmissionBelow to_lower rel path es s
unfolding discover_in
discover_in_lem to_lower rel path no_entries found s e =
    (λ h. absurd (subst (In s) (sym (some_eq e)) h), λ (r, p, fs, h, k). absurd (nothing-IsBelow h))
discover_in_lem to_lower rel path (file name rest) found s e =
    let ih = discover_in_lem to_lower rel path rest found s e in
    (
      λ h. let (r, p, fs, b, k) = ih.0 h in (r, p, fs, after_file b, k),
      λ (r, p, fs, b, k). ih.1 (r, p, fs, IsBelow-file b, k),
    )
discover_in_lem to_lower rel path (folder name readable inside rest) found s e =
    elim (Bool-cases (is_skipped name)) [
      | inl y ↦
          let ih = discover_in_lem to_lower rel path rest found s (rw y at e) in
          (
            λ h. let (r, p, fs, b, k) = ih.0 h in (r, p, fs, after_folder b, k),
            λ (r, p, fs, b, k). elim (IsBelow-folder b) [
              | inl b' ↦ ih.1 (r, p, fs, b', k)
              | inr (v, _) ↦ absurd (true-not-false (sym y ∙ v))
            ],
          )
      | inr v ↦ elim (Bool-cases readable) [
        | inr n ↦ absurd (not-none-eq-some (rw (v, n) at e))
        | inl y ↦
            let rel' = rel_child rel name in
            let path' = join path name in
            let own = submission_at to_lower rel' path' inside in
            let (x, y', ex, ey, exy) =
              found_with-some (some own)
                (found_with (discover_in to_lower rel' path' inside)
                  (discover_in to_lower rel path rest))
                found (rw (v, y) at e) in
            let (a, b, ea, eb, eab) =
              found_with-some (discover_in to_lower rel' path' inside)
                (discover_in to_lower rel path rest) y' ey in
            let inner = discover_in_lem to_lower rel' path' inside a s ea in
            let outer = discover_in_lem to_lower rel path rest b s eb in
            let whole : found ≡ own ++ (a ++ b) =
              exy ∙ ap₂ (λ l r. l ++ r) (sym (some_eq ex)) eab in
            let both =
              visible_lem to_lower rel path name readable inside rest a b s v inner outer in
            (λ h. both.0 (subst (In s) whole h), λ k. subst (In s) (sym whole) (both.1 k))
      ]
    ]

own_lem :
    (rel path : Bytes) (subdirs : Bool) (names : List Bytes) (s : Submission)
    → let own : Submission = record { id = rel; path = path; c_files = names } in
      In s (if not subdirs && not (is_empty names) then own ∷ [] else [])
      ↔ ((subdirs ≡ false) × (names ≢ []) × (s ≡ own))
own_lem rel path true names s = (λ h. absurd h, λ k. absurd (true-not-false k.0))
own_lem rel path false [] s = (λ h. absurd h, λ k. absurd (k.1 refl))
own_lem rel path false (n ∷ names) s =
    (λ h. (refl, λ e. cc, elim h [ inl e ↦ e | inr q ↦ absurd q ]), λ k. inl k.2)

-- A folder is a submission: it has no visible folder in it, and a C file.
abbrev pub IsFolderOf : (Bytes → Bytes) → (rel path : Bytes) → Entries → Submission → Type 0
IsFolderOf to_lower rel path es s =
    (has_subdirs es ≡ false)
    × (c_files_of to_lower es ≢ [])
    × (s ≡ record { id = rel; path = path; c_files = c_files_of to_lower es })

submission_at_lem :
    (to_lower : Bytes → Bytes) (rel path : Bytes) (es : Entries) (s : Submission)
    → In s (submission_at to_lower rel path es) ↔ IsFolderOf to_lower rel path es s
unfolding submission_at check_leaf_folder
submission_at_lem to_lower rel path es s =
    own_lem rel path (has_subdirs es) (c_files_of to_lower es) s

-- What discovery finds, unless it fails: exactly the root, if it is a leaf folder with a C file, and
-- those folders below it that are, to which a way leads on which no folder is hidden or one of macOS
-- metadata; each with its path from the root, its path, and its C files.
pub discover_lem :
    (to_lower : Bytes → Bytes) (abs_root : Bytes) (es : Entries) (found : List Submission)
    (s : Submission)
    → discover to_lower abs_root (some es) ≡ some found
    → In s found ↔ (
        IsFolderOf to_lower (codes ".") abs_root es s
        ⊎ ((rel : Bytes) × (path : Bytes) × (fs : Entries) × IsBelow
              (codes ".")
              abs_root
              es
              rel
              path
              fs
            × IsFolderOf to_lower rel path fs s))
unfolding discover
discover_lem to_lower abs_root es found s e =
    let own = submission_at to_lower (codes ".") abs_root es in
    let (x, y, ex, ey, exy) =
      found_with-some (some own) (discover_in to_lower (codes ".") abs_root es) found e in
    let whole : found ≡ own ++ y = exy ∙ ap (λ l. l ++ y) (sym (some_eq ex)) in
    let parts = In-append s own y in
    let below = discover_in_lem to_lower (codes ".") abs_root es y s ey in
    let at_root = submission_at_lem to_lower (codes ".") abs_root es s in
    (
      λ h. elim (parts.0 (subst (In s) whole h)) [
        | inl k ↦ inl (at_root.0 k)
        | inr k ↦
            let (r, p, fs, w, m) = below.0 k in
            inr (r, p, fs, w, (submission_at_lem to_lower r p fs s).0 m)
      ],
      λ h. subst (In s) (sym whole) (
          parts.1 (elim h [
            | inl k ↦ inl (at_root.1 k)
            | inr (r, p, fs, w, m) ↦
                inr (below.1 (r, p, fs, w, (submission_at_lem to_lower r p fs s).1 m))
          ])),
    )
