-- ===== src/Compiler/Multi.antt =====
-- What a submission is compiled to: `compile`, `compileMultiProcess` and `copySourceFiles` of
-- internal/engine/compiler.go.
use aut_oscan_engine.Prelude.{
  ℕ, Bool, true, false, not, ◌&&◌, ◌||◌, List, [], ◌∷◌, ◌++◌, Option, none, some, if◌then◌else◌,
}
use aut_oscan_engine.Prelude.Text.{Bytes, codes, bytes_eq, trim_suffix}
use aut_oscan_engine.Policy.{ProcessConfig, binary, mem_seen}
use aut_oscan_engine.Report.{Submission, CompileResult}
use aut_oscan_engine.Uploads.Paths.{join, base}
use aut_oscan_engine.Compiler.{
  GccRun, Toolchain, CompilePolicy, Libraries, resolve_library_files, compile_executable,
}

-- What the loop over the executables gathers; `built` holds the last source first.
pub record Build : Type 0 where
  pub built : List Bytes
  pub ok : Bool
  pub cmds : List Bytes
  pub stdout : Bytes
  pub stderr : Bytes
  pub timed_out : Bool

-- A program's output under its name, if there is any.
abbrev pub titled : Bytes → Bytes → Bytes
titled name [] = []
titled name (c ∷ s) = codes "=== " ++ (name ++ (codes " ===\n" ++ (c ∷ s)))

unfoldable pub add_run : Bytes → GccRun → Build → Build
add_run name run b = record b {
  ok = b.ok && not run.failed;
  cmds = b.cmds ++ (run.cmd ++ (codes ";" ∷ []));
  stdout = b.stdout ++ titled name run.stdout;
  stderr = b.stderr ++ titled name run.stderr;
  timed_out = b.timed_out || run.timed_out;
}

-- The compilation of one executable's source.
unfoldable pub run_process :
    Toolchain
    → CompilePolicy
    → Submission
    → (output_dir : Bytes) → Libraries
    → ProcessConfig
    → GccRun
unfolding join compile_executable binary
run_process tools p sub output_dir libraries proc =
    compile_executable tools p sub output_dir (join sub.path proc.source_file ∷ []) libraries
      (join output_dir (binary proc))

-- A source that was not built before, by what `os.Stat` says of it.
unfoldable pub build_new :
    Toolchain
    → CompilePolicy
    → Submission
    → (output_dir : Bytes) → Libraries
    → ProcessConfig
    → Option ℕ
    → Build
    → Build
unfolding base binary run_process add_run
build_new tools p sub output_dir libraries proc none b = record b {
  ok = false;
  stderr = b.stderr ++ (codes "Source file not found: " ++ (proc.source_file ++ codes "\n"));
}
build_new tools p sub output_dir libraries proc (some size) b =
    add_run (base (binary proc)) (run_process tools p sub output_dir libraries proc) b

unfoldable pub build_process :
    Toolchain
    → CompilePolicy
    → Submission
    → (output_dir : Bytes) → Libraries
    → ProcessConfig
    → Build
    → Build
unfolding mem_seen join build_new
build_process tools p sub output_dir libraries proc b =
    let source = proc.source_file in
    if mem_seen b.built source
    then b
    else build_new tools p sub output_dir libraries proc (tools.stat (join sub.path source))
        (record b { built = source ∷ b.built })

unfoldable pub build_all :
    Toolchain
    → CompilePolicy
    → Submission
    → (output_dir : Bytes) → Libraries
    → List ProcessConfig
    → Build
    → Build
unfolding build_process
build_all tools p sub output_dir libraries [] b = b
build_all tools p sub output_dir libraries (proc ∷ procs) b =
    build_all tools p sub output_dir libraries procs
      (build_process tools p sub output_dir libraries proc b)

abbrev pub no_build : Build
no_build = record { built = []; ok = true; cmds = []; stdout = []; stderr = []; timed_out = false }

-- The durations are the clock's.
unfoldable pub compile_multi_process :
    Toolchain
    → CompilePolicy
    → Submission
    → (output_dir : Bytes) → Libraries
    → List ProcessConfig
    → (duration : ℕ) → CompileResult
unfolding build_all
compile_multi_process tools p sub output_dir libraries procs duration =
    let b = build_all tools p sub output_dir libraries procs no_build in
    record {
      ok = b.ok;
      command = b.cmds;
      stdout = b.stdout;
      stderr = b.stderr;
      duration_ms = duration;
      timed_out = b.timed_out;
    }

abbrev pub failed_result : Bytes → ℕ → CompileResult
failed_result msg duration = record {
  ok = false;
  command = [];
  stdout = [];
  stderr = msg;
  duration_ms = duration;
  timed_out = false;
}

-- `strings.Join(lines, "\n") + "\n"`.
abbrev pub joined_lines : List Bytes → Bytes
joined_lines [] = []
joined_lines (l ∷ ls) = l ++ (b'\n' ∷ joined_lines ls)

-- The library warnings in front of the compiler's own messages; the rule is written in UTF-8.
unfoldable pub with_warnings : List Bytes → Bytes → Bytes
with_warnings [] stderr = stderr
with_warnings (w ∷ ws) [] = joined_lines (w ∷ ws)
with_warnings (w ∷ ws) (c ∷ stderr) =
    joined_lines (w ∷ ws)
    ++ (rule ++ (codes " Compilation Output " ++ (rule ++ (b'\n' ∷ c ∷ stderr))))
  where
    rule : Bytes
    rule = 0xE2 ∷ 0x94 ∷ 0x80 ∷ 0xE2 ∷ 0x94 ∷ 0x80 ∷ 0xE2 ∷ 0x94 ∷ 0x80 ∷ []

-- The result, and the answer about the libraries that the engine keeps.
unfoldable pub compile_single :
    Toolchain
    → CompilePolicy
    → Submission
    → (output_dir : Bytes) → (duration : ℕ) → Libraries
    → CompileResult × Libraries
unfolding bytes_eq join trim_suffix resolve_library_files compile_executable with_warnings
compile_single tools p sub output_dir duration cached =
    let source = join sub.path p.source_file in
    let (kept, libraries) = resolve_library_files tools p cached in
    let run =
      compile_executable tools p sub output_dir (source ∷ []) libraries
        (join output_dir (trim_suffix p.source_file (codes ".c"))) in
    let result : CompileResult = record {
      ok = not run.failed;
      command = run.cmd;
      stdout = run.stdout;
      stderr = with_warnings libraries.warnings run.stderr;
      duration_ms = duration;
      timed_out = run.timed_out;
    } in
    if bytes_eq p.source_file []
    then (
      failed_result (codes "Policy error: source_file must be set for single-process compilation")
          duration,
      cached,
    )
    else elim (tools.stat source) [
      | none ↦ (failed_result (codes "Source file not found: " ++ p.source_file) duration, cached)
      | some size ↦ (result, kept)
    ]

-- The files that are written beside the executables: those sources that can be read.
unfoldable pub copy_source_files : Toolchain → Bytes → Bytes → List Bytes → List (Bytes × Bytes)
unfolding join
copy_source_files tools path output_dir [] = []
copy_source_files tools path output_dir (c_file ∷ c_files) =
    let rest = copy_source_files tools path output_dir c_files in
    elim (tools.read_file (join path c_file)) [
      | none ↦ rest
      | some text ↦ (join output_dir c_file, text) ∷ rest
    ]

abbrev with_copies :
    List (Bytes × Bytes)
    → CompileResult × Libraries
    → CompileResult × List (Bytes × Bytes) × Libraries
with_copies copies (result, kept) = (result, copies, kept)

-- The result, the copies, and the answer about the libraries that the engine keeps.
unfoldable pub compile :
    Toolchain
    → CompilePolicy
    → (base_dir : Bytes) → (duration : ℕ) → Submission
    → Libraries
    → CompileResult × List (Bytes × Bytes) × Libraries
unfolding join copy_source_files resolve_library_files compile_multi_process compile_single
compile tools p base_dir duration sub cached =
    let output_dir = join base_dir sub.id in
    let copies = copy_source_files tools sub.path output_dir sub.c_files in
    let (kept, libraries) = resolve_library_files tools p cached in
    let single = with_copies copies (compile_single tools p sub output_dir duration cached) in
    elim (tools.mkdir_error output_dir) [
      | some msg ↦ (failed_result msg duration, [], cached)
      | none ↦ elim p.multi_process [
        | none ↦ single
        | some procs ↦ elim procs [
          | [] ↦ single
          | proc ∷ rest ↦ (
            compile_multi_process tools p sub output_dir libraries (proc ∷ rest) duration,
            copies,
            kept,
          )
        ]
      ]
    ]
