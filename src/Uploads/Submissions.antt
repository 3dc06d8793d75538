-- ===== src/Uploads/Submissions.antt =====
-- `discoverSandboxSubmissions` of cmd/autoscan-server/sandbox_handler.go: one submission for each
-- archive in a folder.
pub mod Ids
pub mod Laws
use aut_oscan_engine.Prelude.{
  ◌&&◌, ℕ, zero, suc, ◌+◌, ◌-◌, ◌/◌, ◌%◌, map, Bool, true, false, ◌||◌, List, [], ◌∷◌, ◌++◌, Option,
  none, some, ltb, ◌==◌, if◌then◌else◌, length, drop, take,
}
use aut_oscan_engine.Prelude.Text.{Bytes, codes, bytes_eq, has_prefix, has_suffix}
use aut_oscan_engine.Prelude.Maps.{lookup, insert}
use aut_oscan_engine.Report.{Submission, number_at}
use aut_oscan_engine.Uploads.Paths.{slash, join, dir, base}
use aut_oscan_engine.Uploads.Disk.{Disk, UploadError, system_error, Platform, mkdir_all}
use aut_oscan_engine.Uploads.Extract.{extract_archive}
use aut_oscan_engine.Uploads.Sources.{
  SandboxFile, bytes_leb, sort_files, sources_in, concat_c_sources,
}

abbrev submission_archive_exts : List Bytes
submission_archive_exts = codes ".tar.gz" ∷ codes ".tgz" ∷ codes ".tar" ∷ codes ".zip" ∷ []

unfoldable pub has_any_suffix : Bytes → List Bytes → Bool
unfolding has_suffix
has_any_suffix s [] = false
has_any_suffix s (ext ∷ exts) = has_suffix s ext || has_any_suffix s exts

unfoldable pub is_submission_archive : (Bytes → Bytes) → Bytes → Bool
unfolding has_any_suffix
is_submission_archive to_lower path = has_any_suffix (to_lower path) submission_archive_exts

-- The name without the first of the extensions that its lower case ends in.
unfoldable pub without_ext : Bytes → Bytes → List Bytes → Bytes
unfolding has_suffix
without_ext name lower [] = name
without_ext name lower (ext ∷ exts) =
    let rest = without_ext name lower exts in
    if has_suffix lower ext then take (length name - length ext) name else rest

unfoldable pub submission_id : (Bytes → Bytes) → Bytes → Bytes
unfolding base without_ext
submission_id to_lower path =
    let name = base path in without_ext name (to_lower name) submission_archive_exts

-- An archive's id before it is made different from others: the folder that it is in, by the path from
-- `src_dir`, or its name if that is `src_dir` itself.
unfoldable pub base_id : (Bytes → Bytes) → Bytes → Bytes → Bytes
unfolding bytes_eq dir submission_id
base_id to_lower src_dir path =
    let folder = dir path in
    if bytes_eq folder src_dir
    then submission_id to_lower path
    else drop (length src_dir + 1) folder

-- The digits of a number, with a bound on their number.
unfoldable pub digits_of : ℕ → ℕ → Bytes
digits_of zero n = (b'0' + n % 10) ∷ []
digits_of (suc fuel) n =
    let rest = digits_of fuel (n / 10) in
    if ltb n 10 then (b'0' + n) ∷ [] else rest ++ ((b'0' + n % 10) ∷ [])

-- `%d`.
unfoldable pub decimal : ℕ → Bytes
unfolding digits_of
decimal n = digits_of n n

unfoldable pub numbered : Bytes → ℕ → Bytes
unfolding decimal
numbered id n = if ltb 1 n then id ++ (b'-' ∷ decimal n) else id

-- What the walk over the archives gathers.
pub record Gathered : Type 0 where
  pub disk : Disk
  pub seen : List (Bytes × ℕ)
  pub submissions : List Submission
  pub source_by_id : List (Bytes × Bytes)
  pub files_by_id : List (Bytes × List SandboxFile)

abbrev pub sandbox_source_file : Bytes
sandbox_source_file = codes "__sandbox.c"

-- `os.WriteFile`.
unfoldable pub write_file : Platform → Bytes → Bytes → Disk → Disk × Option UploadError
unfolding insert
write_file os path content d =
    if os.create_ok d path
    then (record d { files = insert d.files path content }, none)
    else (d, some system_error)

-- After the combined source was written to the submission's folder, or was not.
unfoldable pub register :
    Bytes
    → Bytes
    → Bytes × List SandboxFile
    → Disk × Option UploadError
    → Gathered
    → Gathered × Option UploadError
unfolding insert
register id sub_dir (combined, files) (d, some e) g = (record g { disk = d }, some e)
register id sub_dir (combined, files) (d, none) g = (
  record g {
    disk = d;
    submissions =
        g.submissions
        ++ (record { id = id; path = sub_dir; c_files = sandbox_source_file ∷ [] } ∷ []);
    source_by_id = insert g.source_by_id id combined;
    files_by_id = insert g.files_by_id id files;
  },
  none,
)

unfoldable pub all_readable : Platform → Disk → List (Bytes × Bytes) → Bool
all_readable os d [] = true
all_readable os d (f ∷ fs) = let rest = all_readable os d fs in os.read_ok d f.0 && rest

-- `concatCSources` with its errors: the walk of the folder, or reading one of its sources, fails.
unfoldable pub read_sources : Platform → Bytes → Disk → Option (Bytes × List SandboxFile)
unfolding all_readable sources_in concat_c_sources
read_sources os folder d =
    let sources =
      if all_readable os d (sources_in os.to_lower folder d.files)
      then some (concat_c_sources os.to_lower folder d)
      else none in
    elim (os.walk_stop d folder) [ some n ↦ none | none ↦ sources ]

-- After the sources were read, or were not.
unfoldable pub add_sources :
    Platform
    → Bytes
    → Bytes
    → Option (Bytes × List SandboxFile)
    → Gathered
    → Gathered × Option UploadError
unfolding bytes_eq join write_file register
add_sources os id sub_dir none g = (g, some system_error)
add_sources os id sub_dir (some sources) g =
    if bytes_eq sources.0 []
    then (g, none)
    else register id sub_dir sources
        (write_file os (join sub_dir sandbox_source_file) sources.0 g.disk) g

-- The sources of one extracted archive become a submission, if it has any.
unfoldable pub add_submission : Platform → Bytes → Bytes → Gathered → Gathered × Option UploadError
unfolding read_sources add_sources
add_submission os id sub_dir g = add_sources os id sub_dir (read_sources os sub_dir g.disk) g

-- After the archive was extracted, or was not.
unfoldable pub gather_extracted :
    Platform → Bytes → Bytes → Disk × Option UploadError → Gathered → Gathered × Option UploadError
unfolding add_submission
gather_extracted os id sub_dir (d, some e) g = (record g { disk = d }, some e)
gather_extracted os id sub_dir (d, none) g = add_submission os id sub_dir (record g { disk = d })

-- The callback of the walk for an archive.
unfoldable pub gather : Platform → Bytes → Bytes → Bytes → Gathered → Gathered × Option UploadError
unfolding base_id insert numbered join extract_archive gather_extracted
gather os src_dir dest_dir path g =
    let b = base_id os.to_lower src_dir path in
    let n = number_at g.seen b + 1 in
    let id = numbered b n in
    let sub_dir = join dest_dir id in
    gather_extracted os id sub_dir (extract_archive os path sub_dir g.disk)
      (record g { seen = insert g.seen b n })

-- The walk stops at the first error.
unfoldable pub gather_all :
    Platform → Bytes → Bytes → List Bytes → Gathered → Gathered × Option UploadError
unfolding gather
gather_all os src_dir dest_dir [] g = (g, none)
gather_all os src_dir dest_dir (path ∷ paths) g =
    let (g', err) = gather os src_dir dest_dir path g in
    let rest = gather_all os src_dir dest_dir paths g' in
    elim err [ some e ↦ (g', some e) | none ↦ rest ]

-- filepath.WalkDir goes through each folder in the order of its names, so that of two paths with a
-- common start the one with a slash after it comes first.
unfoldable pub walk_leb : Bytes → Bytes → Bool
unfolding bytes_leb
walk_leb a b = bytes_leb (map slash_first a) (map slash_first b)
  where
    slash_first : ℕ → ℕ
    slash_first c = if c == slash then 0 else c

unfoldable pub archives_in : (Bytes → Bytes) → Bytes → List (Bytes × Bytes) → List (Bytes × Bytes)
unfolding has_prefix is_submission_archive
archives_in to_lower src_dir [] = []
archives_in to_lower src_dir (f ∷ fs) =
    let rest = archives_in to_lower src_dir fs in
    if has_prefix f.0 (src_dir ++ (slash ∷ [])) && is_submission_archive to_lower f.0
    then f ∷ rest
    else rest

unfoldable pub insert_submission : Submission → List Submission → List Submission
unfolding bytes_leb
insert_submission s [] = s ∷ []
insert_submission s (t ∷ ts) =
    let rest = insert_submission s ts in if bytes_leb s.id t.id then s ∷ t ∷ ts else t ∷ rest

-- `sort.Slice` by id.
unfoldable pub sort_submissions : List Submission → List Submission
unfolding insert_submission
sort_submissions [] = []
sort_submissions (s ∷ ss) = insert_submission s (sort_submissions ss)

pub record SandboxSubmissionSource : Type 0 where
  pub id : Bytes
  pub source : Bytes
  pub files : List SandboxFile

-- Reading a map, where a missing key is an empty value.
abbrev pub found_or_empty {ℓ} : {A : Type ℓ} → Option (List A) → List A
found_or_empty none = []
found_or_empty (some a) = a

unfoldable pub source_of : Gathered → Submission → SandboxSubmissionSource
unfolding lookup
source_of g s = record {
  id = s.id;
  source = found_or_empty (lookup g.source_by_id s.id);
  files = found_or_empty (lookup g.files_by_id s.id);
}

pub data Discovered : Type 0 where
  discovery_failed : UploadError → Discovered
  discovered : List Submission → List SandboxSubmissionSource → Discovered

-- The files that the walk reaches, and its own error.
abbrev pub walked : Option ℕ → List Bytes → List Bytes × Option UploadError
walked none paths = (paths, none)
walked (some n) paths = (take n paths, some system_error)

unfoldable pub discover_sandbox_submissions : Platform → Bytes → Bytes → Disk → Disk × Discovered
unfolding mkdir_all sort_files archives_in walk_leb gather_all sort_submissions source_of
discover_sandbox_submissions os src_dir dest_dir d =
    let (made, failed) = mkdir_all os dest_dir d in
    let start : Gathered = record {
      disk = made;
      seen = [];
      submissions = [];
      source_by_id = [];
      files_by_id = [];
    } in
    let paths = map (λ f. f.0) (sort_files walk_leb (archives_in os.to_lower src_dir made.files)) in
    let (reached, stopped) = walked (os.walk_stop made src_dir) paths in
    let (g, err) = gather_all os src_dir dest_dir reached start in
    let submissions = sort_submissions g.submissions in
    elim failed [
      | some e ↦ (made, discovery_failed e)
      | none ↦ elim err [
        | some e ↦ (g.disk, discovery_failed e)
        | none ↦ elim stopped [
          | some e ↦ (g.disk, discovery_failed e)
          | none ↦ (g.disk, discovered submissions (map (source_of g) submissions))
        ]
      ]
    ]
