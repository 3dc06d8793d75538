-- ===== src/Tests/Uploads.antt =====
-- Archives that are extracted, and the submissions found in them.
use Prim.Native.String.{String}
use aut_oscan_engine.Prelude.{
  ◌+◌, ◌≤◌, ◌≡◌, refl, true, false, List, [], ◌∷◌, ◌++◌, none, some, ap, sym, ◌∙◌,
}
use aut_oscan_engine.Prelude.Text.{Bytes, codes}
use aut_oscan_engine.Prelude.Maps.{IsDistinct}
use aut_oscan_engine.Output.{split_lines}
use aut_oscan_engine.Uploads.Paths.{join, abs, starts_at_root}
use aut_oscan_engine.Uploads.Disk.{Disk, bad_request, ZipEntry, Platform, entries_then}
use aut_oscan_engine.Uploads.Extract.{max_zip_bytes, extract_archive}
use aut_oscan_engine.Uploads.Extract.Good.{IsConfined, files_size}
use aut_oscan_engine.Uploads.Extract.Laws.{extract_archive-IsConfined, extract_archive_bound}
use aut_oscan_engine.Uploads.Sources.{concat_from, count_newlines}
use aut_oscan_engine.Uploads.Sources.Laws.{AreFound, concat_from_manifest}
use aut_oscan_engine.Uploads.Submissions.{submission_id, base_id, gather_all, decimal}
use aut_oscan_engine.Uploads.Submissions.Laws.{ids, gather_all-IsDistinct}

abbrev entry : String → String → ZipEntry
entry name content = record {
  name = codes name;
  is_dir = false;
  opens = true;
  content = codes content;
  breaks = false;
}

-- Every archive is one of these: a source, or a source and a file above the folder.
abbrev one_source : List ZipEntry
one_source = entry "src/main.c" "int main;\n" ∷ entry "notes.txt" "x" ∷ []

abbrev with_escape : List ZipEntry
with_escape = entry "main.c" "int main;" ∷ entry "../up.zip" "x" ∷ entry "late.c" "x" ∷ []

abbrev platform : List ZipEntry → Platform
platform entries = record {
  cwd = some (codes "/srv");
  to_lower = λ s. s;
  mkdir_ok = λ d path. true;
  create_ok = λ d path. true;
  walk_stop = λ d path. none;
  read_ok = λ d path. true;
  read_tar = λ gz content. entries_then [] true;
  read_zip = λ content. some entries;
}

abbrev disk : Disk
disk = record {
  files = (codes "/srv/w/up.zip", codes "PK") ∷ (codes "/srv/w/x-2/b.zip", codes "PK") ∷ [];
  folders = [];
}

escape_is_refused :
    extract_archive (platform with_escape) (codes "/srv/w/up.zip") (codes "w/sub") disk ≡ (
      record {
        files =
            (codes "/srv/w/up.zip", codes "PK")
            ∷ (codes "/srv/w/x-2/b.zip", codes "PK")
            ∷ (codes "/srv/w/sub/main.c", codes "int main;")
            ∷ [];
        folders = codes "/srv/w/sub" ∷ codes "w/sub" ∷ [];
      },
      some (bad_request "zip archive contains an invalid path"),
    )
unfolding extract_archive
escape_is_refused = refl

extract_archive-IsConfined_example :
    IsConfined
      (codes "/srv/w/sub")
      disk
      (extract_archive (platform with_escape) (codes "/srv/w/up.zip") (codes "w/sub") disk).0
unfolding abs starts_at_root
extract_archive-IsConfined_example =
    extract_archive-IsConfined (platform with_escape) (codes "/srv/w/up.zip") (codes "w/sub")
      (codes "/srv/w/sub") disk refl refl

extract_archive_bound_example :
    let (d, err) =
      extract_archive (platform one_source) (codes "/srv/w/up.zip") (codes "w/sub") disk in
    (files_size d.files ≤ files_size disk.files + max_zip_bytes + 1)
    × (err ≡ none → files_size d.files ≤ files_size disk.files + max_zip_bytes)
unfolding abs starts_at_root
extract_archive_bound_example =
    extract_archive_bound (platform one_source) (codes "/srv/w/up.zip") (codes "w/sub")
      (codes "/srv/w/sub") disk refl refl

abbrev two_files : List (Bytes × Bytes)
two_files = (codes "a.c", codes "int a;\nint b;") ∷ (codes "b.h", codes "int c;\n") ∷ []

concat_from_manifest_example :
    let (text, manifest) = concat_from 1 two_files in AreFound (split_lines text) two_files manifest
unfolding count_newlines
concat_from_manifest_example = concat_from_manifest two_files (refl, (refl, tt))

manifest_of_two_files :
    (concat_from 1 two_files).1
    ≡ record { path = codes "a.c"; start_line = 2; end_line = 3 }
      ∷ record { path = codes "b.h"; start_line = 5; end_line = 5 }
      ∷ []
unfolding concat_from
manifest_of_two_files = refl

abbrev two_archives : List Bytes
two_archives = codes "/srv/w/x.zip" ∷ codes "/srv/w/x/b.zip" ∷ []

gather_all-IsDistinct_example : IsDistinct (
    ids
      (gather_all (platform one_source) (codes "/srv/w") (codes "/srv/subs") two_archives (record {
        disk = disk;
        seen = [];
        submissions = [];
        source_by_id = [];
        files_by_id = [];
      })).0.submissions)
unfolding base_id
gather_all-IsDistinct_example =
    gather_all-IsDistinct (λ b. b ≡ codes "x") (platform one_source) (codes "/srv/w")
      (codes "/srv/subs") two_archives disk
      (λ b c n hb hc l e.
        let q : codes "x" ≡ codes "x" ++ (b'-' ∷ decimal n) =
          sym hb ∙ (e ∙ ap (λ s. s ++ (b'-' ∷ decimal n)) hc) in
        cc)
      (refl, (refl, tt))

abbrev three_archives : Disk
three_archives = record {
  files =
      (codes "/srv/w/x.zip", codes "PK")
      ∷ (codes "/srv/w/x/b.zip", codes "PK")
      ∷ (codes "/srv/w/x-2/b.zip", codes "PK")
      ∷ [];
  folders = [];
}

-- Three archives of which the third has the id that the second gets: both submissions have this id.
archives_share_an_id :
    ids
      (gather_all
        (platform one_source)
        (codes "/srv/w")
        (codes "/srv/subs")
        (codes "/srv/w/x.zip" ∷ codes "/srv/w/x/b.zip" ∷ codes "/srv/w/x-2/b.zip" ∷ [])
        (record {
          disk = three_archives;
          seen = [];
          submissions = [];
          source_by_id = [];
          files_by_id = [];
        })).0.submissions
    ≡ codes "x" ∷ codes "x-2" ∷ codes "x-2" ∷ []
unfolding gather_all
archives_share_an_id = refl

-- An archive whose name is its extension behind two dots gets the id "..", which joins to the folder
-- above that of the submissions.
dots_as_id :
    (submission_id (λ s. s) (codes "/srv/w/...zip") ≡ codes "..")
    × (join (codes "/srv/subs") (codes "..") ≡ codes "/srv")
unfolding submission_id join
dots_as_id = (refl, refl)
