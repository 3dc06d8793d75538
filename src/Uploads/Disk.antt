-- ===== src/Uploads/Disk.antt =====
-- The files that the server's uploads are written to, and the parts of the operating system and of
-- Go's archive readers that can fail. Modes of files are left out.
use Prim.Native.String.{String}
use aut_oscan_engine.Prelude.{
  ℕ, ◌+◌, ◌-◌, Bool, false, List, ◌∷◌, Option, none, some, ltb, if◌then◌else◌, length, take,
}
use aut_oscan_engine.Prelude.Text.{Bytes, codes}
use aut_oscan_engine.Prelude.Maps.{insert}

-- The contents of files by their absolute paths, and the folders that were made, the last one first.
pub record Disk : Type 0 where
  pub files : List (Bytes × Bytes)
  pub folders : List Bytes

pub data UploadError : Type 0 where
  http_error : ℕ → Bytes → UploadError
  system_error : UploadError

abbrev pub bad_request : String → UploadError
bad_request msg = http_error 400 (codes msg)

pub data EntryType : Type 0 where
  type_dir type_reg type_other : EntryType

-- `breaks` if reading the entry fails after its content.
pub record TarEntry : Type 0 where
  pub name : Bytes
  pub entry_type : EntryType
  pub content : Bytes
  pub breaks : Bool

pub data TarReading : Type 0 where
  bad_gzip : TarReading
  entries_then : List TarEntry → (ends_well : Bool) → TarReading

-- `opens` unless opening the entry fails.
pub record ZipEntry : Type 0 where
  pub name : Bytes
  pub is_dir : Bool
  pub opens : Bool
  pub content : Bytes
  pub breaks : Bool

-- What the code asks the system and the readers of package archive for. A folder or a file cannot
-- always be made where a path says, and a file not always be read; the walk of a folder may stop with
-- an error after a number of the files that are looked for.
pub record Platform : Type 0 where
  pub cwd : Option Bytes
  pub to_lower : Bytes → Bytes
  pub mkdir_ok : Disk → Bytes → Bool
  pub create_ok : Disk → Bytes → Bool
  pub walk_stop : Disk → Bytes → Option ℕ
  pub read_ok : Disk → Bytes → Bool
  pub read_tar : (gz : Bool) → Bytes → TarReading
  pub read_zip : Bytes → Option (List ZipEntry)

-- A state after an operation, and the operation's error.
abbrev pub Outcome : Type 0
Outcome = Disk × Option UploadError

-- The same in a loop over entries, with what is left of the byte budget in front.
abbrev pub Round : Type 0
Round = ℕ × Disk × Option UploadError

abbrev pub at_budget : ℕ → Outcome → Round
at_budget budget (d, err) = (budget, d, err)

-- `os.MkdirAll`.
unfoldable pub mkdir_all : Platform → Bytes → Disk → Outcome
mkdir_all os path d =
    if os.mkdir_ok d path
    then (record d { folders = path ∷ d.folders }, none)
    else (d, some system_error)

-- `io.Copy` from an `io.LimitReader`: the bytes, and whether reading failed.
unfoldable pub copy_limited : ℕ → Bytes → Bool → Bytes × Bool
copy_limited limit content breaks =
    if ltb (length content) limit then (content, breaks) else (take limit content, false)

-- Creates a file and copies into it, as long as the budget and one byte allow; the error has the
-- given text if the budget is exceeded. The number is what is left of the budget.
unfoldable pub store_file : Platform → Bytes → Bytes → Bytes → Bool → ℕ → Disk → Round
unfolding copy_limited insert
store_file os too_large path content breaks budget d =
    let (copied, failed) = copy_limited (budget + 1) content breaks in
    let written : Disk = record d { files = insert d.files path copied } in
    if os.create_ok d path
    then (if failed
        then (budget, written, some system_error)
        else if ltb budget (length copied)
        then (budget, written, some (http_error 400 too_large))
        else (budget - length copied, written, none))
    else (budget, d, some system_error)
