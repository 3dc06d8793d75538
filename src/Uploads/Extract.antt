-- ===== src/Uploads/Extract.antt =====
-- The extraction of archives: extractZip and writeZipEntry of cmd/autoscan-server/setup.go,
-- extractTar and extractArchive of sandbox_handler.go.
pub mod Good
pub mod Entries
pub mod Laws
use Prim.Native.String.{String}
use aut_oscan_engine.Prelude.{
  ℕ, ◌+◌, Bool, true, false, ◌||◌, List, [], ◌∷◌, ◌++◌, Option, none, some, ltb, if◌then◌else◌,
  length,
}
use aut_oscan_engine.Prelude.Text.{Bytes, codes, bytes_eq, has_prefix, has_suffix}
use aut_oscan_engine.Prelude.Maps.{lookup}
use aut_oscan_engine.Uploads.Paths.{slash, join, abs, dir, base}
use aut_oscan_engine.Uploads.Disk.{
  Disk, UploadError, http_error, system_error, bad_request, EntryType, type_dir, type_reg,
  type_other, TarEntry, TarReading, bad_gzip, entries_then, ZipEntry, Platform, Outcome, Round,
  at_budget, mkdir_all, store_file,
}

abbrev pub max_zip_entries : ℕ
max_zip_entries = 10000

abbrev pub max_zip_bytes : ℕ
max_zip_bytes = 1073741824

-- The target is the folder or lies below it.
unfoldable pub is_inside : Bytes → Bytes → Bool
unfolding bytes_eq has_prefix
is_inside root target = bytes_eq target root || has_prefix target (root ++ (slash ∷ []))

-- Goes on with what is left of the budget, unless there was an error.
abbrev pub and_then : Round → (ℕ → Disk → Round) → Round
and_then (budget, d, some e) next = (budget, d, some e)
and_then (budget, d, none) next = next budget d

abbrev pub loop_outcome : Round → Outcome
loop_outcome (budget, d, err) = (d, err)

-- What a loop does for an entry's name: `store` gets the target, if that is in the folder.
unfoldable pub checked :
    Platform → Bytes → Bytes → Bytes → String → ℕ → Disk → (Bytes → Round) → Round
unfolding abs join is_inside
checked os dest root name msg budget d store = elim (abs os.cwd (join dest name)) [
  | none ↦ (budget, d, some system_error)
  | some target ↦
      if is_inside root target then store target else (budget, d, some (bad_request msg))
]

-- The `switch hdr.Typeflag` for a target that passed the check.
unfoldable pub tar_entry : Platform → Bytes → EntryType → TarEntry → ℕ → Disk → Round
unfolding mkdir_all store_file dir
tar_entry os target type_dir e budget d = at_budget budget (mkdir_all os target d)
tar_entry os target type_reg e budget d =
    and_then (at_budget budget (mkdir_all os (dir target) d)) (λ b d'.
      store_file os (codes "archive is too large when decompressed") target e.content e.breaks b d')
tar_entry os target type_other e budget d = (budget, d, none)

-- The round for one entry: `n` is the number of entries with this one.
unfoldable pub tar_round : Platform → Bytes → Bytes → ℕ → TarEntry → ℕ → Disk → Round
unfolding checked tar_entry
tar_round os dest root n e budget d =
    if ltb max_zip_entries n
    then (budget, d, some (bad_request "archive has too many entries"))
    else checked os dest root e.name "archive contains an invalid path" budget d
        (λ target. tar_entry os target e.entry_type e budget d)

unfoldable pub tar_loop : Platform → Bytes → Bytes → Bool → List TarEntry → ℕ → ℕ → Disk → Round
unfolding tar_round
tar_loop os dest root ends_well [] n budget d =
    (budget, d, if ends_well then none else some (bad_request "invalid tar archive"))
tar_loop os dest root ends_well (e ∷ es) n budget d =
    and_then (tar_round os dest root (n + 1) e budget d)
      (λ b d'. tar_loop os dest root ends_well es (n + 1) b d')

pub data Opened : Type 0 where
  not_opened : UploadError → Opened
  opened : (root : Bytes) → Opened

abbrev pub opened_at : Outcome → Option Bytes → Disk × Opened
opened_at (made, some e) root = (made, not_opened e)
opened_at (made, none) none = (made, not_opened system_error)
opened_at (made, none) (some root) = (made, opened root)

-- Makes the folder that an archive is extracted to, and finds its absolute path.
unfoldable pub open_folder : Platform → Bytes → Disk → Disk × Opened
unfolding mkdir_all abs
open_folder os dest d = opened_at (mkdir_all os dest d) (abs os.cwd dest)

unfoldable pub tar_entries : Platform → Bytes → Bytes → TarReading → Disk → Outcome
unfolding tar_loop
tar_entries os dest root bad_gzip d = (d, some (bad_request "invalid gzip archive"))
tar_entries os dest root (entries_then entries ends_well) d =
    loop_outcome (tar_loop os dest root ends_well entries 0 max_zip_bytes d)

unfoldable pub tar_into : Platform → Bytes → Bytes → Bool → Disk × Opened → Outcome
unfolding tar_entries lookup
tar_into os dest archive_path gz (d, not_opened e) = (d, some e)
tar_into os dest archive_path gz (d, opened root) = elim (lookup d.files archive_path) [
  | none ↦ (d, some system_error)
  | some archive ↦ tar_entries os dest root (os.read_tar gz archive) d
]

unfoldable pub extract_tar : Platform → Bytes → Bytes → Bool → Disk → Outcome
unfolding open_folder tar_into
extract_tar os archive_path dest gz d = tar_into os dest archive_path gz (open_folder os dest d)

unfoldable pub write_zip_entry : Platform → Bytes → ZipEntry → ℕ → Disk → Round
unfolding store_file
write_zip_entry os target e budget d =
    if e.opens
    then store_file os (codes "zip archive is too large when decompressed") target e.content
        e.breaks budget d
    else (budget, d, some system_error)

unfoldable pub zip_entry : Platform → Bytes → ZipEntry → ℕ → Disk → Round
unfolding mkdir_all dir write_zip_entry
zip_entry os target e budget d =
    if e.is_dir
    then at_budget budget (mkdir_all os target d)
    else and_then (at_budget budget (mkdir_all os (dir target) d)) (write_zip_entry os target e)

unfoldable pub zip_round : Platform → Bytes → Bytes → ZipEntry → ℕ → Disk → Round
unfolding checked zip_entry
zip_round os dest root e budget d =
    checked os dest root e.name "zip archive contains an invalid path" budget d
      (λ target. zip_entry os target e budget d)

unfoldable pub zip_loop : Platform → Bytes → Bytes → List ZipEntry → ℕ → Disk → Round
unfolding zip_round
zip_loop os dest root [] budget d = (budget, d, none)
zip_loop os dest root (e ∷ es) budget d =
    and_then (zip_round os dest root e budget d) (zip_loop os dest root es)

-- `none` is a file that is no zip archive, or none at all.
unfoldable pub zip_entries : Platform → Bytes → Bytes → Option (List ZipEntry) → Disk → Outcome
unfolding zip_loop
zip_entries os dest root none d = (d, some (bad_request "uploaded file is not a valid zip archive"))
zip_entries os dest root (some entries) d =
    if ltb max_zip_entries (length entries)
    then (d, some (bad_request "zip archive has too many entries"))
    else loop_outcome (zip_loop os dest root entries max_zip_bytes d)

-- `zip.OpenReader`.
unfoldable pub open_zip : Platform → Option Bytes → Option (List ZipEntry)
open_zip os none = none
open_zip os (some archive) = os.read_zip archive

unfoldable pub zip_into : Platform → Bytes → Bytes → Disk × Opened → Outcome
unfolding zip_entries open_zip lookup
zip_into os dest archive_path (d, not_opened e) = (d, some e)
zip_into os dest archive_path (d, opened root) =
    zip_entries os dest root (open_zip os (lookup d.files archive_path)) d

unfoldable pub extract_zip : Platform → Bytes → Bytes → Disk → Outcome
unfolding open_folder zip_into
extract_zip os archive_path dest d = zip_into os dest archive_path (open_folder os dest d)

unfoldable pub extract_archive : Platform → Bytes → Bytes → Disk → Outcome
unfolding has_suffix extract_zip extract_tar base
extract_archive os archive_path dest d =
    let lower = os.to_lower archive_path in
    if has_suffix lower (codes ".zip")
    then extract_zip os archive_path dest d
    else if has_suffix lower (codes ".tar.gz") || has_suffix lower (codes ".tgz")
    then extract_tar os archive_path dest true d
    else if has_suffix lower (codes ".tar")
    then extract_tar os archive_path dest false d
    else (d, some (http_error 400 (codes "unsupported archive type: " ++ base archive_path)))
