-- ===== src/Discovery.antt =====
-- Submission discovery: internal/engine/discovery.go. A folder's entries are in the order of their
-- names, in which os.ReadDir and filepath.WalkDir both list them.
pub mod Laws
use aut_oscan_engine.Prelude.{
  Bool, true, false, not, ◌&&◌, ◌||◌, List, [], ◌∷◌, ◌++◌, Option, none, some, if◌then◌else◌,
}
use aut_oscan_engine.Prelude.Text.{Bytes, codes, bytes_eq, has_prefix, has_suffix}
use aut_oscan_engine.Report.{Submission}
use aut_oscan_engine.Uploads.Paths.{slash, join}

-- The entries of a folder; a folder among them comes with its own entries, or cannot be read.
pub data Entries : Type 0 where
  no_entries : Entries
  file : (name : Bytes) → (rest : Entries) → Entries
  folder : (name : Bytes) → (readable : Bool) → (inside rest : Entries) → Entries

-- Hidden folders, and those of AppleDouble copies.
unfoldable pub is_skipped : Bytes → Bool
unfolding has_prefix bytes_eq
is_skipped name = has_prefix name (codes ".") || bytes_eq name (codes "__MACOSX")

unfoldable pub has_subdirs : Entries → Bool
unfolding is_skipped
has_subdirs no_entries = false
has_subdirs (file name rest) = has_subdirs rest
has_subdirs (folder name readable inside rest) = not (is_skipped name) || has_subdirs rest

-- `to_lower` is strings.ToLower.
unfoldable pub c_files_of : (Bytes → Bytes) → Entries → List Bytes
unfolding has_prefix has_suffix
c_files_of to_lower no_entries = []
c_files_of to_lower (file name rest) =
    let names = c_files_of to_lower rest in
    if has_prefix name (codes "._")
    then names
    else if has_suffix (to_lower name) (codes ".c")
    then name ∷ names
    else names
c_files_of to_lower (folder name readable inside rest) = c_files_of to_lower rest

unfoldable pub check_leaf_folder : (Bytes → Bytes) → Entries → Bool × List Bytes
unfolding has_subdirs c_files_of
check_leaf_folder to_lower es = (not (has_subdirs es), c_files_of to_lower es)

abbrev pub is_empty : List Bytes → Bool
is_empty [] = true
is_empty (_ ∷ _) = false

-- A folder with its path from the root and in full: it is a submission, or not.
unfoldable pub submission_at : (Bytes → Bytes) → (rel path : Bytes) → Entries → List Submission
unfolding check_leaf_folder
submission_at to_lower rel path es =
    let (is_leaf, c_files) = check_leaf_folder to_lower es in
    if is_leaf && not (is_empty c_files)
    then record { id = rel; path = path; c_files = c_files } ∷ []
    else []

-- filepath.Rel of an entry; the root itself is ".".
unfoldable pub rel_child : Bytes → Bytes → Bytes
unfolding bytes_eq
rel_child rel name = if bytes_eq rel (codes ".") then name else rel ++ (slash ∷ name)

-- What two parts of the walk find, unless one fails.
abbrev pub found_with :
    Option (List Submission) → Option (List Submission) → Option (List Submission)
found_with (some a) (some b) = some (a ++ b)
found_with _ _ = none

-- The walk over the entries of a folder.
unfoldable pub discover_in :
    (Bytes → Bytes) → (rel path : Bytes) → Entries → Option (List Submission)
unfolding is_skipped rel_child join submission_at
discover_in to_lower rel path no_entries = some []
discover_in to_lower rel path (file name rest) = discover_in to_lower rel path rest
discover_in to_lower rel path (folder name readable inside rest) =
    let rel' = rel_child rel name in
    let path' = join path name in
    let deeper = discover_in to_lower rel' path' inside in
    let others = discover_in to_lower rel path rest in
    if is_skipped name
    then others
    else if readable
    then found_with (some (submission_at to_lower rel' path' inside)) (found_with deeper others)
    else none

-- `none` is an error; the root is read whatever its name.
unfoldable pub discover :
    (Bytes → Bytes) → (abs_root : Bytes) → Option Entries → Option (List Submission)
unfolding submission_at discover_in
discover to_lower abs_root none = none
discover to_lower abs_root (some es) =
    found_with (some (submission_at to_lower (codes ".") abs_root es))
      (discover_in to_lower (codes ".") abs_root es)
