-- ===== src/Uploads/Paths/Laws.antt =====
-- A cleaned path that begins at the root has no "..", and one with a folder's path and a slash in
-- front lies in that folder.
use aut_oscan_engine.Prelude.{
  ℕ, ◌≡◌, ◌≢◌, refl, sym, ap, true, List, [], ◌∷◌, ◌++◌, Option, none, some, ◌==◌, inl, inr, arith,
  All, Bool-cases, append_assoc, append-nil, some_eq, not-none-eq-some, ◌⊎◌, ◌∙◌,
}
use aut_oscan_engine.Prelude.Text.{Bytes, codes, bytes_eq, bytes_eq_iff, has_prefix}
use aut_oscan_engine.Uploads.Paths.{
  slash, prepend, split_path, go_up, clean_name, clean_from, absolute, starts_at_root, clean, join,
  abs, or_root,
}
use mathlib.Core.List.{reverse, reverse_aux}

abbrev pub HasNoSlash : Bytes → Type 0
HasNoSlash n = All (λ c. c ≢ slash) n

-- The name of an entry of a folder.
abbrev pub IsName : Bytes → Type 0
IsName n = (n ≢ []) × (n ≢ codes ".") × (n ≢ codes "..") × HasNoSlash n

prepend-HasNoSlash :
    (c : ℕ) → c ≢ slash → (ns : List Bytes) → All HasNoSlash ns → All HasNoSlash (prepend c ns)
prepend-HasNoSlash c h [] k = ((h, tt), tt)
prepend-HasNoSlash c h (n ∷ ns) k = ((h, k.0), k.1)

split_path-HasNoSlash : (s : Bytes) → All HasNoSlash (split_path s)
unfolding split_path
split_path-HasNoSlash [] = (tt, tt)
split_path-HasNoSlash (c ∷ s) = elim (Bool-cases (c == slash)) [
  | inl e ↦ rw e (tt, split_path-HasNoSlash s)
  | inr e ↦
      rw e (prepend-HasNoSlash c (λ h. ground (arith, h)) (split_path s) (split_path-HasNoSlash s))
]

go_up-IsName : (stack : List Bytes) → All IsName stack → All IsName (go_up true stack)
unfolding go_up
go_up-IsName [] h = tt
go_up-IsName (top ∷ stack) h = ground (arith, h, bytes_eq_iff top (codes ".."))

clean_name-IsName :
    (n : Bytes) (stack : List Bytes)
    → HasNoSlash n
    → All IsName stack
    → All IsName (clean_name true n stack)
unfolding clean_name
clean_name-IsName n stack k h = ground (
  arith,
  h,
  k,
  go_up-IsName stack h,
  bytes_eq_iff n (codes ".."),
  bytes_eq_iff n (codes "."),
  bytes_eq_iff n [],
)

clean_from-IsName :
    (names stack : List Bytes)
    → All HasNoSlash names
    → All IsName stack
    → All IsName (clean_from true stack names)
unfolding clean_from
clean_from-IsName [] stack k h = h
clean_from-IsName (n ∷ names) stack k h =
    clean_from-IsName names (clean_name true n stack) k.1 (clean_name-IsName n stack k.0 h)

All-reverse_aux :
    (xs ys : List Bytes) → All IsName xs → All IsName ys → All IsName (reverse_aux xs ys)
All-reverse_aux [] ys h k = k
All-reverse_aux (x ∷ xs) ys h k = All-reverse_aux xs (x ∷ ys) h.1 (h.0, k)

-- A path that is cleaned from the root is one of names.
pub clean-IsName :
    (path : Bytes)
    → starts_at_root path ≡ true
    → (ns : List Bytes) × (clean path ≡ or_root (absolute ns)) × All IsName ns
unfolding clean
clean-IsName path h =
    let stack = clean_from true [] (split_path path) in
    (
      reverse stack,
      rw h refl,
      All-reverse_aux stack []
          (clean_from-IsName (split_path path) [] (split_path-HasNoSlash path) tt) tt,
    )

-- A name is read up to the slash after it.
name_lem :
    (n r s t : Bytes)
    → HasNoSlash n
    → HasNoSlash r
    → (s ≡ []) ⊎ (starts_at_root s ≡ true)
    → has_prefix (n ++ s) (r ++ (slash ∷ t)) ≡ true
    → (n ≡ r) × (has_prefix s (slash ∷ t) ≡ true)
unfolding has_prefix starts_at_root
name_lem [] [] s t hn hr e h = (refl, h)
name_lem (c ∷ n) [] s t hn hr e h = ground (arith, hn)
name_lem [] (c ∷ r) [] t hn hr e h = ground arith
name_lem [] (c ∷ r) (d ∷ s) t hn hr e h = ground (arith, hr)
name_lem (c ∷ n) (d ∷ r) s t hn hr e h = ground (arith, name_lem n r s t hn.1 hr.1 e)

absolute-starts : (ns : List Bytes) → (absolute ns ≡ []) ⊎ (starts_at_root (absolute ns) ≡ true)
unfolding absolute starts_at_root
absolute-starts [] = inl refl
absolute-starts (n ∷ ns) = inr refl

absolute-append : (rs ns : List Bytes) → absolute (rs ++ ns) ≡ absolute rs ++ absolute ns
unfolding absolute
absolute-append [] ns = refl
absolute-append (r ∷ rs) ns =
    ap (λ s. slash ∷ s)
      (ap (λ s. r ++ s) (absolute-append rs ns) ∙ sym (append_assoc r (absolute rs) (absolute ns)))

absolute-slash : (rs : List Bytes) → (t : Bytes) × (absolute rs ++ (slash ∷ []) ≡ slash ∷ t)
unfolding absolute
absolute-slash [] = ([], refl)
absolute-slash (r ∷ rs) = ((r ++ absolute rs) ++ (slash ∷ []), refl)

-- What the names of a path are whose text begins with those of a folder and a slash.
below_lem :
    (rs ns : List Bytes)
    → All IsName rs
    → All IsName ns
    → has_prefix (absolute ns) (absolute rs ++ (slash ∷ [])) ≡ true
    → (ms : List Bytes) × (ns ≡ rs ++ ms) × All IsName ms
unfolding absolute has_prefix
below_lem [] ns hr hn h = (ns, refl, hn)
below_lem (r ∷ rs) [] hr hn h = ground (arith, h)
below_lem (r ∷ rs) (n ∷ ns) hr hn h =
    let (t, e) = absolute-slash rs in
    let whole : has_prefix (n ++ absolute ns) (r ++ (slash ∷ t)) ≡ true =
      ap (λ s. has_prefix (n ++ absolute ns) s)
        (ap (λ s. r ++ s) (sym e) ∙ sym (append_assoc r (absolute rs) (slash ∷ [])))
      ∙ h in
    let (same, under) = name_lem n r (absolute ns) t hn.0.3 hr.0.3 (absolute-starts ns) whole in
    let (ms, ms_eq, names) =
      below_lem rs ns hr.1 hn.1 (ap (λ s. has_prefix (absolute ns) s) e ∙ under) in
    (ms, ap (λ x. x ∷ ns) same ∙ ap (λ xs. r ∷ xs) ms_eq, names)

-- A path in the folder `root`: its path and the names of entries, of which none is "..".
abbrev pub IsInside : Bytes → Bytes → Type 0
IsInside root path = (names : List Bytes) × (path ≡ root ++ absolute names) × All IsName names

-- What the server tests before it writes to a target.
abbrev pub IsAllowed : Bytes → Bytes → Type 0
IsAllowed root target = (target ≡ root) ⊎ (has_prefix target (root ++ (slash ∷ [])) ≡ true)

IsInside-names :
    (rs ns : List Bytes)
    → All IsName rs
    → All IsName ns
    → IsAllowed (or_root (absolute rs)) (or_root (absolute ns))
    → IsInside (or_root (absolute rs)) (or_root (absolute ns))
unfolding absolute has_prefix
IsInside-names rs ns hr hn (inl e) = ([], e ∙ sym (append-nil _), tt)
IsInside-names [] [] hr hn (inr h) = ground (arith, h)
IsInside-names [] ([] ∷ ns) hr hn (inr h) = absurd (hn.0.0 refl)
IsInside-names [] ((c ∷ n) ∷ ns) hr hn (inr h) = ground (arith, h, hn.0.3)
IsInside-names ([] ∷ rs) ns hr hn (inr h) = absurd (hr.0.0 refl)
IsInside-names ((c ∷ r) ∷ rs) [] hr hn (inr h) = ground (arith, h)
IsInside-names (r ∷ rs) (n ∷ ns) hr hn (inr h) =
    let (ms, e, names) = below_lem (r ∷ rs) (n ∷ ns) hr hn h in
    (ms, ap absolute e ∙ absolute-append (r ∷ rs) ms, names)

-- The working directory, where there is one, is a path from the root.
abbrev pub IsRooted : Option Bytes → Type 0
IsRooted none = Unit
IsRooted (some cwd) = starts_at_root cwd ≡ true

join-starts :
    (cwd path : Bytes)
    → starts_at_root cwd ≡ true
    → (p : Bytes) × (join cwd path ≡ clean p) × (starts_at_root p ≡ true)
unfolding join starts_at_root bytes_eq
join-starts [] path h = ground (arith, h)
join-starts (c ∷ cwd) [] h = (c ∷ cwd, refl, h)
join-starts (c ∷ cwd) (d ∷ path) h = ((c ∷ cwd) ++ (slash ∷ d ∷ path), refl, h)

abs-starts :
    (cwd : Option Bytes) (path target : Bytes)
    → IsRooted cwd
    → abs cwd path ≡ some target
    → (p : Bytes) × (target ≡ clean p) × (starts_at_root p ≡ true)
unfolding abs
abs-starts none path target h e = elim (Bool-cases (starts_at_root path)) [
  | inl y ↦ (path, some_eq (sym e ∙ rw y refl), y)
  | inr n ↦ absurd (not-none-eq-some (sym (rw n refl) ∙ e))
]
abs-starts (some cwd) path target h e = elim (Bool-cases (starts_at_root path)) [
  | inl y ↦ (path, some_eq (sym e ∙ rw y refl), y)
  | inr n ↦
      let (p, same, starts) = join-starts cwd path h in
      (p, some_eq (sym e ∙ rw n refl) ∙ same, starts)
]

-- What `abs` returns is cleaned from the root.
pub abs-IsName :
    (cwd : Option Bytes) (path target : Bytes)
    → IsRooted cwd
    → abs cwd path ≡ some target
    → (ns : List Bytes) × (target ≡ or_root (absolute ns)) × All IsName ns
abs-IsName cwd path target h e =
    let (p, same, starts) = abs-starts cwd path target h e in
    let (ns, cleaned, names) = clean-IsName p starts in (ns, same ∙ cleaned, names)

-- Two absolute paths of which the second passes the server's test: it lies in the first.
pub IsAllowed-IsInside :
    (cwd : Option Bytes) (dest path root target : Bytes)
    → IsRooted cwd
    → abs cwd dest ≡ some root
    → abs cwd path ≡ some target
    → IsAllowed root target
    → IsInside root target
IsAllowed-IsInside cwd dest path root target h er et ok =
    let (rs, re, hr) = abs-IsName cwd dest root h er in
    let (ns, ne, hn) = abs-IsName cwd path target h et in
    rw (re, ne) (IsInside-names rs ns hr hn (rw (sym re, sym ne) ok))
