-- ===== src/Uploads/Paths.antt =====
-- The functions of Go's path/filepath that the server's archives go through, on Unix: Clean, Join,
-- Abs, Dir, Base. A path is cleaned by its names, on a stack whose top is the last name.
pub mod Laws
use aut_oscan_engine.Prelude.{
  ℕ, ◌≡◌, ◌||◌, refl, Bool, true, false, List, [], ◌∷◌, ◌++◌, Option, none, some, ◌==◌,
  if◌then◌else◌,
}
use aut_oscan_engine.Prelude.Text.{Bytes, codes, bytes_eq}
use mathlib.Core.List.{reverse}

abbrev pub slash : ℕ
slash = b'/'

abbrev pub prepend : ℕ → List Bytes → List Bytes
prepend c [] = (c ∷ []) ∷ []
prepend c (n ∷ ns) = (c ∷ n) ∷ ns

-- `strings.Split(path, "/")`.
unfoldable pub split_path : Bytes → List Bytes
split_path [] = [] ∷ []
split_path (c ∷ s) = let rest = split_path s in if c == slash then [] ∷ rest else prepend c rest

-- A parent's name takes the last name off; above the root is the root, and above the start of a
-- relative path is a path that begins with "..".
unfoldable pub go_up : Bool → List Bytes → List Bytes
unfolding bytes_eq
go_up rooted [] = if rooted then [] else codes ".." ∷ []
go_up rooted (top ∷ stack) = if bytes_eq top (codes "..") then codes ".." ∷ top ∷ stack else stack

-- What one name does to the stack.
unfoldable pub clean_name : Bool → Bytes → List Bytes → List Bytes
unfolding bytes_eq go_up
clean_name rooted name stack =
    if bytes_eq name [] || bytes_eq name (codes ".")
    then stack
    else if bytes_eq name (codes "..")
    then go_up rooted stack
    else name ∷ stack

unfoldable pub clean_from : Bool → List Bytes → List Bytes → List Bytes
unfolding clean_name
clean_from rooted stack [] = stack
clean_from rooted stack (name ∷ names) = clean_from rooted (clean_name rooted name stack) names

-- The names in order, each after a slash.
unfoldable pub absolute : List Bytes → Bytes
absolute [] = []
absolute (n ∷ ns) = slash ∷ (n ++ absolute ns)

unfoldable pub starts_at_root : Bytes → Bool
starts_at_root [] = false
starts_at_root (c ∷ _) = c == slash

abbrev drop_first : Bytes → Bytes
drop_first [] = []
drop_first (_ ∷ s) = s

abbrev or_root : Bytes → Bytes
or_root [] = slash ∷ []
or_root (c ∷ s) = c ∷ s

abbrev or_dot : Bytes → Bytes
or_dot [] = codes "."
or_dot (c ∷ s) = c ∷ s

-- `filepath.Clean`.
unfoldable pub clean : Bytes → Bytes
unfolding starts_at_root clean_from split_path absolute
clean path =
    if starts_at_root path
    then or_root (absolute (reverse (clean_from true [] (split_path path))))
    else or_dot (drop_first (absolute (reverse (clean_from false [] (split_path path)))))

-- `filepath.Join` of two names.
unfoldable pub join : Bytes → Bytes → Bytes
unfolding bytes_eq clean
join a b =
    if bytes_eq a []
    then (if bytes_eq b [] then [] else clean b)
    else clean (if bytes_eq b [] then a else a ++ (slash ∷ b))

-- `filepath.Abs`, where the working directory may be gone.
unfoldable pub abs : Option Bytes → Bytes → Option Bytes
unfolding starts_at_root clean join
abs none path = if starts_at_root path then some (clean path) else none
abs (some cwd) path = some (if starts_at_root path then clean path else join cwd path)

-- A list without its last name.
abbrev but_last : List Bytes → List Bytes
but_last [] = []
but_last (n ∷ []) = []
but_last (n ∷ m ∷ ns) = n ∷ but_last (m ∷ ns)

abbrev last_name : List Bytes → Bytes
last_name [] = []
last_name (n ∷ []) = n
last_name (_ ∷ m ∷ ns) = last_name (m ∷ ns)

-- `filepath.Dir` and `filepath.Base` of a cleaned path that begins at the root.
unfoldable pub dir : Bytes → Bytes
unfolding split_path absolute
dir path = or_root (drop_first (absolute (but_last (split_path path))))

unfoldable pub base : Bytes → Bytes
unfolding split_path
base path = last_name (split_path path)

path_tests :
    (clean (codes "/a/./b//../c/") ≡ codes "/a/c")
    × (clean (codes "/../..") ≡ codes "/")
    × (clean (codes "../a/../../b") ≡ codes "../../b")
    × (clean (codes "a/..") ≡ codes ".")
    × (join (codes "data/x") (codes "../../../e") ≡ codes "../e")
    × (abs (some (codes "/srv")) (codes "data/a.c") ≡ some (codes "/srv/data/a.c"))
    × (dir (codes "/srv/data/a.c") ≡ codes "/srv/data")
    × (dir (codes "/srv") ≡ codes "/")
    × (base (codes "/srv/data/a.c") ≡ codes "a.c")
unfolding clean join abs dir base
path_tests = (refl, refl, refl, refl, refl, refl, refl, refl, refl)
