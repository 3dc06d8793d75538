-- ===== src/Compiler.antt =====
-- The compiler driver: internal/engine/compiler.go. What gcc does, and what the files hold, is an
-- argument; a compilation has no time limit of its own here, but reports whether it ran out of time.
pub mod Multi
pub mod Laws
pub mod Workers
use aut_oscan_engine.Prelude.{
  ℕ, ◌||◌, Bool, true, false, not, ◌&&◌, List, [], ◌∷◌, ◌++◌, Option, none, some, ltb, ◌==◌,
  if◌then◌else◌,
}
use aut_oscan_engine.Prelude.Text.{Bytes, codes, bytes_eq, has_suffix, trim_suffix}
use aut_oscan_engine.Policy.{ProcessConfig, build_gcc_args, binary}
use aut_oscan_engine.Report.{Submission, CompileResult}
use aut_oscan_engine.Uploads.Paths.{starts_at_root, join, base}

pub record GccRun : Type 0 where
  pub cmd : List Bytes
  pub stdout : Bytes
  pub stderr : Bytes
  pub failed : Bool
  pub timed_out : Bool

-- `stat` is the size of a file that there is; `includes` matches a source's text against the
-- expression for an #include of a header; `mkdir_error` is what making
-- a folder fails with; `gcc` runs the compiler for a submission, with the folder
-- of the libraries, on arguments.
pub record Toolchain : Type 0 where
  pub stat : Bytes → Option ℕ
  pub read_file : Bytes → Option Bytes
  pub includes : (header text : Bytes) → Bool
  pub mkdir_error : Bytes → Option Bytes
  pub gcc : (source_dir output_dir lib_dir : Bytes) → List Bytes → GccRun

-- The parts of a policy that the compiler reads; `multi_process` is none unless it is enabled.
pub record CompilePolicy : Type 0 where
  pub gcc : Bytes
  pub flags : List Bytes
  pub source_file : Bytes
  pub library_files : List Bytes
  pub config_dir : Bytes
  pub multi_process : Option (List ProcessConfig)

-- The library files that were found, their folder, and warnings about the others. The engine keeps
-- the last answer; a kept answer without files is as good as none.
pub record Libraries : Type 0 where
  pub files : List Bytes
  pub lib_dir : Bytes
  pub warnings : List Bytes

abbrev pub no_libraries : Libraries
no_libraries = record { files = []; lib_dir = []; warnings = [] }

-- The warning about a library file that was found, and whether it is left out.
unfoldable pub check_object : Bytes → ℕ → List Bytes × Bool
unfolding has_suffix
check_object path size =
    if has_suffix path (codes ".o")
    then (if size == 0
        then ((codes "Warning: Object file is empty: " ++ path) ∷ [], true)
        else if ltb size 50
        then ((codes "Warning: Object file seems corrupted: " ++ path) ∷ [], false)
        else ([], false))
    else ([], false)

unfoldable pub full_path : Bytes → Bytes → Bytes
unfolding starts_at_root join
full_path lib_dir lib_file = if starts_at_root lib_file then lib_file else join lib_dir lib_file

abbrev pub with_library :
    Bytes → List Bytes × Bool → List Bytes × List Bytes → List Bytes × List Bytes
with_library path (warned, true) (files, warnings) = (files, warned ++ warnings)
with_library path (warned, false) (files, warnings) = (path ∷ files, warned ++ warnings)

-- The loop over the policy's library files: those that are used, and the warnings.
unfoldable pub find_libraries : Toolchain → Bytes → List Bytes → List Bytes × List Bytes
unfolding full_path check_object
find_libraries tools lib_dir [] = ([], [])
find_libraries tools lib_dir (lib_file ∷ lib_files) =
    let path = full_path lib_dir lib_file in
    let rest = find_libraries tools lib_dir lib_files in
    elim (tools.stat path) [
      | none ↦ (rest.0, (codes "Warning: Library file not found: " ++ path) ∷ rest.1)
      | some size ↦ with_library path (check_object path size) rest
    ]

-- What is kept and what is answered, by the policy's library files and the files that were kept.
abbrev pub keep_libraries : List Bytes → List Bytes → Libraries → Libraries → Libraries × Libraries
keep_libraries [] files cached found = (cached, no_libraries)
keep_libraries (_ ∷ _) [] cached found = (found, found)
keep_libraries (_ ∷ _) (_ ∷ _) cached found = (cached, cached)

unfoldable pub resolve_library_files : Toolchain → CompilePolicy → Libraries → Libraries × Libraries
unfolding join find_libraries
resolve_library_files tools p cached =
    let lib_dir = join p.config_dir (codes "libraries") in
    let (files, warnings) = find_libraries tools lib_dir p.library_files in
    keep_libraries p.library_files cached.files cached
      (record { files = files; lib_dir = lib_dir; warnings = warnings })

unfoldable pub headers_of : List Bytes → List Bytes
unfolding has_suffix base
headers_of [] = []
headers_of (lib ∷ libs) =
    let rest = headers_of libs in if has_suffix lib (codes ".h") then base lib ∷ rest else rest

unfoldable pub includes_any : Toolchain → Bytes → List Bytes → Bool
includes_any tools text [] = false
includes_any tools text (header ∷ headers) =
    tools.includes header text || includes_any tools text headers

unfoldable pub any_source_includes : Toolchain → List Bytes → List Bytes → Bool
unfolding includes_any
any_source_includes tools headers [] = false
any_source_includes tools headers (src ∷ srcs) =
    let rest = any_source_includes tools headers srcs in
    elim (tools.read_file src) [ none ↦ rest | some text ↦ includes_any tools text headers || rest ]

unfoldable pub sources_include_library : Toolchain → List Bytes → List Bytes → Bool
unfolding headers_of any_source_includes
sources_include_library tools source_files library_files = elim (headers_of library_files) [
  | [] ↦ true
  | header ∷ headers ↦ any_source_includes tools (header ∷ headers) source_files
]

unfoldable pub run_gcc :
    Toolchain → CompilePolicy → Submission → (output_dir lib_dir : Bytes) → List Bytes → GccRun
run_gcc tools p sub output_dir lib_dir args = record (tools.gcc sub.path output_dir lib_dir args) {
  cmd = p.gcc ∷ args;
}

unfoldable pub compile_executable :
    Toolchain
    → CompilePolicy
    → Submission
    → (output_dir : Bytes) → (source_files : List Bytes) → Libraries
    → (output_path : Bytes) → GccRun
unfolding sources_include_library build_gcc_args bytes_eq run_gcc
compile_executable tools p sub output_dir source_files libraries output_path =
    let libs =
      if sources_include_library tools source_files libraries.files then libraries.files else [] in
    let args = build_gcc_args p.flags source_files libs output_path in
    run_gcc tools p sub output_dir libraries.lib_dir
      (if bytes_eq libraries.lib_dir [] then args else codes "-I" ∷ libraries.lib_dir ∷ args)
