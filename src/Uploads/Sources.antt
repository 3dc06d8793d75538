-- ===== src/Uploads/Sources.antt =====
-- `concatCSources` of cmd/autoscan-server/sandbox_handler.go: the C files of a folder as one text,
-- and the manifest of the lines that each has in it.
pub mod Laws
use aut_oscan_engine.Prelude.{
  ℕ, suc, ◌+◌, ◌-◌, map, not, Bool, true, false, ◌||◌, ◌&&◌, List, [], ◌∷◌, ◌++◌, ltb, ◌==◌,
  if◌then◌else◌, length, drop,
}
use aut_oscan_engine.Prelude.Text.{Bytes, codes, has_prefix, has_suffix}
use aut_oscan_engine.Uploads.Paths.{slash}
use aut_oscan_engine.Uploads.Disk.{Disk}

pub record SandboxFile : Type 0 where
  pub path : Bytes
  pub start_line : ℕ
  pub end_line : ℕ

-- The order of Go's strings.
unfoldable pub bytes_leb : Bytes → Bytes → Bool
bytes_leb [] b = true
bytes_leb (x ∷ a) [] = false
bytes_leb (x ∷ a) (y ∷ b) = ltb x y || x == y && bytes_leb a b

unfoldable pub insert_sorted :
    (Bytes → Bytes → Bool) → Bytes × Bytes → List (Bytes × Bytes) → List (Bytes × Bytes)
insert_sorted before f [] = f ∷ []
insert_sorted before f (g ∷ gs) =
    let rest = insert_sorted before f gs in if before f.0 g.0 then f ∷ g ∷ gs else g ∷ rest

-- Files with their contents, sorted by their paths.
unfoldable pub sort_files : (Bytes → Bytes → Bool) → List (Bytes × Bytes) → List (Bytes × Bytes)
unfolding insert_sorted
sort_files before [] = []
sort_files before (f ∷ fs) = insert_sorted before f (sort_files before fs)

-- A C or a header file in a folder.
unfoldable pub is_source_in : (Bytes → Bytes) → Bytes → Bytes → Bool
unfolding has_prefix has_suffix
is_source_in to_lower folder path =
    has_prefix path (folder ++ (slash ∷ []))
    && (has_suffix (to_lower path) (codes ".c") || has_suffix (to_lower path) (codes ".h"))

unfoldable pub sources_in : (Bytes → Bytes) → Bytes → List (Bytes × Bytes) → List (Bytes × Bytes)
unfolding is_source_in
sources_in to_lower folder [] = []
sources_in to_lower folder (f ∷ fs) =
    let rest = sources_in to_lower folder fs in
    if is_source_in to_lower folder f.0 then f ∷ rest else rest

-- `strings.Count(s, "\n")`.
unfoldable pub count_newlines : Bytes → ℕ
count_newlines [] = 0
count_newlines (c ∷ s) = let rest = count_newlines s in if c == b'\n' then suc rest else rest

unfoldable pub content_lines : Bytes → ℕ
unfolding count_newlines has_suffix
content_lines src =
    if length src == 0 || not (has_suffix src (b'\n' ∷ []))
    then count_newlines src + 1
    else count_newlines src

unfoldable pub header_line : Bytes → Bytes
header_line rel = codes "/* ==== " ++ (rel ++ codes " ==== */")

-- The loop over the files, given by their relative paths: the text from line `line` on.
unfoldable pub concat_from : ℕ → List (Bytes × Bytes) → Bytes × List SandboxFile
unfolding header_line content_lines count_newlines
concat_from line [] = ([], [])
concat_from line (f ∷ fs) =
    let (rel, src) = f in
    let start = line + 1 in
    let (text, manifest) = concat_from (start + (count_newlines src + 1)) fs in
    (
      header_line rel ++ (b'\n' ∷ (src ++ (b'\n' ∷ text))),
      record { path = rel; start_line = start; end_line = start + content_lines src - 1 }
          ∷ manifest,
    )

-- `filepath.Rel` of a path below the folder.
abbrev relative : Bytes → Bytes × Bytes → Bytes × Bytes
relative folder f = (drop (length folder + 1) f.0, f.1)

unfoldable pub concat_c_sources : (Bytes → Bytes) → Bytes → Disk → Bytes × List SandboxFile
unfolding concat_from sources_in sort_files bytes_leb
concat_c_sources to_lower folder d =
    concat_from 1
      (map (relative folder) (sort_files bytes_leb (sources_in to_lower folder d.files)))
