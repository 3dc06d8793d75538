-- ===== src/Uploads/Extract/Laws.antt =====
-- Where an archive's files are written, and how much.
use aut_oscan_engine.Prelude.{
  ◌+◌, ◌≤◌, ◌≡◌, refl, sym, subst, ◌∙◌, ap, Bool, true, false, List, ◌∷◌, ◌++◌, ◌||◌, Option, none,
  some, not-none-eq-some, ltb, ◌⊎◌, inl, inr, arith, Bool-cases, Option-cases, length,
}
use mathlib.Core.Path.{ap₂}
use aut_oscan_engine.Prelude.Text.{has_suffix, Bytes, codes}
use aut_oscan_engine.Prelude.Maps.{lookup}
use aut_oscan_engine.Uploads.Paths.{abs, base}
use aut_oscan_engine.Uploads.Paths.Laws.{IsRooted}
use aut_oscan_engine.Uploads.Disk.{
  Disk, UploadError, http_error, system_error, bad_request, ZipEntry, TarReading, bad_gzip,
  entries_then, Platform, Outcome, Round, at_budget, mkdir_all,
}
use aut_oscan_engine.Uploads.Extract.{
  max_zip_bytes, max_zip_entries, loop_outcome, tar_loop, opened_at, open_folder, Opened, opened,
  not_opened, tar_into, open_zip, zip_into, extract_tar, zip_loop, tar_entries, zip_entries,
  extract_zip, extract_archive,
}
use aut_oscan_engine.Uploads.Extract.Good.{IsConfined, files_size, IsGood, unchanged-IsGood}
use aut_oscan_engine.Uploads.Extract.Entries.{tar_loop-IsGood, zip_loop-IsGood}

-- A result that is good for all the bytes that an archive may have.
abbrev IsExtracted : Bytes → Disk → Outcome → Type 0
IsExtracted root d r = IsGood root max_zip_bytes d (at_budget 0 r)

loop_outcome-IsExtracted :
    (root : Bytes) (d : Disk) (r : Round)
    → IsGood root max_zip_bytes d r
    → IsExtracted root d (loop_outcome r)
loop_outcome-IsExtracted root d (b, d', none) h = record {
  confined = h.confined;
  within = omega (arith, h.within);
}
loop_outcome-IsExtracted root d (b, d', some e) h = record {
  confined = h.confined;
  within = h.within;
}

failed-IsExtracted : (root : Bytes) (d : Disk) (e : UploadError) → IsExtracted root d (d, some e)
failed-IsExtracted root d e =
    loop_outcome-IsExtracted root d (max_zip_bytes, d, some e)
      (unchanged-IsGood root max_zip_bytes d (some e))

-- The folders do not count.
folders-IsExtracted :
    (root : Bytes) (d : Disk) (folders : List Bytes) (r : Outcome)
    → IsExtracted root (record d { folders = folders }) r
    → IsExtracted root d r
folders-IsExtracted root d folders (d', none) h = record {
  confined = h.confined;
  within = h.within;
}
folders-IsExtracted root d folders (d', some e) h = record {
  confined = h.confined;
  within = h.within;
}

mkdir_all-cases :
    (os : Platform) (path : Bytes) (d : Disk)
    → (mkdir_all os path d ≡ (record d { folders = path ∷ d.folders }, none))
      ⊎ (mkdir_all os path d ≡ (d, some system_error))
unfolding mkdir_all
mkdir_all-cases os path d = elim (Bool-cases (os.mkdir_ok d path)) [
  | inl y ↦ inl (rw y refl)
  | inr n ↦ inr (rw n refl)
]

open_folder-cases :
    (os : Platform) (dest root : Bytes) (d : Disk)
    → abs os.cwd dest ≡ some root
    → (open_folder os dest d ≡ (record d { folders = dest ∷ d.folders }, opened root))
      ⊎ (open_folder os dest d ≡ (d, not_opened system_error))
unfolding open_folder
open_folder-cases os dest root d er = elim (mkdir_all-cases os dest d) [
  | inl y ↦ inl (ap₂ opened_at y er)
  | inr n ↦ inr (ap₂ opened_at n er)
]

-- What is good for a folder that was opened is good for one that may not be.
open_folder-IsExtracted :
    (os : Platform) (dest root : Bytes) (next : Disk × Opened → Outcome) (d : Disk)
    → abs os.cwd dest ≡ some root
    → next (d, not_opened system_error) ≡ (d, some system_error)
    → ((made : Disk) → IsExtracted root made (next (made, opened root)))
    → IsExtracted root d (next (open_folder os dest d))
open_folder-IsExtracted os dest root next d er failed good =
    elim (open_folder-cases os dest root d er) [
      | inl y ↦
          let made : Disk = record d { folders = dest ∷ d.folders } in
          subst (λ o. IsExtracted root d (next o)) (sym y)
            (folders-IsExtracted root d made.folders (next (made, opened root)) (good made))
      | inr n ↦
          subst (IsExtracted root d) (sym failed ∙ ap next (sym n))
            (failed-IsExtracted root d system_error)
    ]

module _ (os : Platform) (dest root : Bytes) (h : IsRooted os.cwd)
    (er : abs os.cwd dest ≡ some root) where
  tar_entries-IsExtracted :
      (reading : TarReading) (d : Disk) → IsExtracted root d (tar_entries os dest root reading d)
  unfolding tar_entries
  tar_entries-IsExtracted bad_gzip d =
      failed-IsExtracted root d (bad_request "invalid gzip archive")
  tar_entries-IsExtracted (entries_then es ends_well) d =
      loop_outcome-IsExtracted root d (tar_loop os dest root ends_well es 0 max_zip_bytes d)
        (tar_loop-IsGood os dest root h er ends_well es 0 max_zip_bytes d)

  zip_entries-IsExtracted :
      (entries : Option (List ZipEntry)) (d : Disk)
      → IsExtracted root d (zip_entries os dest root entries d)
  unfolding zip_entries
  zip_entries-IsExtracted none d =
      failed-IsExtracted root d (bad_request "uploaded file is not a valid zip archive")
  zip_entries-IsExtracted (some es) d = elim (Bool-cases (ltb max_zip_entries (length es))) [
    | inl y ↦ rw y (failed-IsExtracted root d (bad_request "zip archive has too many entries"))
    | inr n ↦ rw n (
        loop_outcome-IsExtracted root d (zip_loop os dest root es max_zip_bytes d)
          (zip_loop-IsGood os dest root h er es max_zip_bytes d))
  ]

  tar_into-IsExtracted :
      (path : Bytes) (gz : Bool) (d : Disk)
      → IsExtracted root d (tar_into os dest path gz (d, opened root))
  unfolding tar_into
  tar_into-IsExtracted path gz d = elim (Option-cases (lookup d.files path)) [
    | inl n ↦ rw (n, tar_into) (failed-IsExtracted root d system_error)
    | inr (archive, e) ↦ rw (e, tar_into) (tar_entries-IsExtracted (os.read_tar gz archive) d)
  ]

  extract_tar-IsExtracted :
      (path : Bytes) (gz : Bool) (d : Disk) → IsExtracted root d (extract_tar os path dest gz d)
  unfolding extract_tar tar_into
  extract_tar-IsExtracted path gz d =
      open_folder-IsExtracted os dest root (tar_into os dest path gz) d er refl
        (tar_into-IsExtracted path gz)

  extract_zip-IsExtracted :
      (path : Bytes) (d : Disk) → IsExtracted root d (extract_zip os path dest d)
  unfolding extract_zip zip_into
  extract_zip-IsExtracted path d =
      open_folder-IsExtracted os dest root (zip_into os dest path) d er refl
        (λ made. zip_entries-IsExtracted (open_zip os (lookup made.files path)) made)

  extract_archive-IsExtracted :
      (path : Bytes) (d : Disk) → IsExtracted root d (extract_archive os path dest d)
  unfolding extract_archive
  extract_archive-IsExtracted path d =
      let lower = os.to_lower path in
      let gzipped = has_suffix lower (codes ".tar.gz") || has_suffix lower (codes ".tgz") in
      elim (Bool-cases (has_suffix lower (codes ".zip"))) [
        | inl y ↦ rw y (extract_zip-IsExtracted path d)
        | inr a ↦ elim (Bool-cases gzipped) [
          | inl y ↦ rw (a, y) (extract_tar-IsExtracted path true d)
          | inr b ↦ elim (Bool-cases (has_suffix lower (codes ".tar"))) [
            | inl y ↦ rw (a, b, y) (extract_tar-IsExtracted path false d)
            | inr c ↦
                rw (a, b, c)
                  (failed-IsExtracted root d
                    (http_error 400 (codes "unsupported archive type: " ++ base path)))
          ]
        ]
      ]

-- Extracting an archive to a folder changes no file outside it: a file whose path is not the
-- folder's absolute path with names of entries behind it, none of them "..", has the content that it
-- had, whatever the archive holds and wherever the extraction fails. The working directory is a path
-- from the root.
pub extract_archive-IsConfined :
    (os : Platform) (path dest root : Bytes) (d : Disk)
    → IsRooted os.cwd
    → abs os.cwd dest ≡ some root
    → IsConfined root d (extract_archive os path dest d).0
extract_archive-IsConfined os path dest root d h er =
    (extract_archive-IsExtracted os dest root h er path d).confined

outcome-bound :
    (root : Bytes) (d : Disk) (r : Outcome)
    → IsExtracted root d r
    → (files_size r.0.files ≤ files_size d.files + max_zip_bytes + 1)
      × (r.1 ≡ none → files_size r.0.files ≤ files_size d.files + max_zip_bytes)
outcome-bound root d (d', none) h = (omega (arith, h.within), λ e. omega (arith, h.within))
outcome-bound root d (d', some e) h = (h.within, λ q. absurd (not-none-eq-some (sym q)))

-- The files that extracting an archive leaves have at most 2^30 bytes more than those before it, and
-- one byte more than that where it fails, however much the archive's entries decompress to.
pub extract_archive_bound :
    (os : Platform) (path dest root : Bytes) (d : Disk)
    → IsRooted os.cwd
    → abs os.cwd dest ≡ some root
    → let (d', err) = extract_archive os path dest d in
      (files_size d'.files ≤ files_size d.files + max_zip_bytes + 1)
      × (err ≡ none → files_size d'.files ≤ files_size d.files + max_zip_bytes)
extract_archive_bound os path dest root d h er =
    outcome-bound root d (extract_archive os path dest d)
      (extract_archive-IsExtracted os dest root h er path d)
