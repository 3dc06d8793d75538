-- ===== src/Tests/Runs.antt =====
-- A class of submissions that is discovered, and compiled by a pool of workers.
use aut_oscan_engine.Prelude.{
  ℕ, ◌+◌, ◌≤◌, ◌<◌, ◌≡◌, ◌↔◌, ◌⊎◌, refl, true, false, List, [], ◌∷◌, none, some, arith, All, get_or,
  if◌then◌else◌,
}
use mathlib.Core.List.{Mem}
use aut_oscan_engine.Prelude.Text.{Bytes, codes, bytes_eq}
use aut_oscan_engine.Prelude.Maps.{IsDistinct}
use aut_oscan_engine.Policy.{ProcessConfig}
use aut_oscan_engine.Report.{Submission}
use aut_oscan_engine.Discovery.{Entries, no_entries, file, folder, discover}
use aut_oscan_engine.Discovery.Laws.{In, IsBelow, IsFolderOf, discover_lem}
use aut_oscan_engine.Compiler.{Toolchain, CompilePolicy, no_libraries}
use aut_oscan_engine.Compiler.Multi.{build_all, no_build, compile_multi_process}
use aut_oscan_engine.Compiler.Laws.{Compiles, run_commands, compile_multi_process_ok}
use aut_oscan_engine.Compiler.Workers.{
  Pool, new_pool, PoolStep, receive, store, PoolRun, at_rest, then_step,
}
use aut_oscan_engine.Compiler.Workers.Laws.{new_pool_result}

abbrev class : Entries
class = folder (codes ".git") true (file (codes "x.c") no_entries) (
    folder (codes "ann") true
      (folder (codes "__MACOSX") true (file (codes "._main.c") no_entries)
        (file (codes "main.c") (file (codes "notes.txt") no_entries)))
      (folder (codes "bob") true
        (folder (codes "src") true (file (codes "a.c") no_entries) no_entries) no_entries))

abbrev ann : Submission
ann = record { id = codes "ann"; path = codes "/w/ann"; c_files = codes "main.c" ∷ [] }

abbrev bob : Submission
bob = record { id = codes "bob/src"; path = codes "/w/bob/src"; c_files = codes "a.c" ∷ [] }

class_lem : discover (λ s. s) (codes "/w") (some class) ≡ some (ann ∷ bob ∷ [])
unfolding discover
class_lem = refl

discover_lem_example : In bob (ann ∷ bob ∷ []) ↔ (
    IsFolderOf (λ s. s) (codes ".") (codes "/w") class bob
    ⊎ ((rel : Bytes) × (path : Bytes) × (fs : Entries) × IsBelow
          (codes ".")
          (codes "/w")
          class
          rel
          path
          fs
        × IsFolderOf (λ s. s) rel path fs bob))
discover_lem_example = discover_lem (λ s. s) (codes "/w") class (ann ∷ bob ∷ []) bob class_lem

-- A compiler that accepts everything; one source is missing.
abbrev tools : Toolchain
tools = record {
  stat = λ path. if bytes_eq path (codes "/w/ann/no.c") then none else some 100;
  read_file = λ path. some [];
  includes = λ header text. false;
  mkdir_error = λ path. none;
  gcc = λ source_dir output_dir lib_dir args. record {
    cmd = [];
    stdout = [];
    stderr = [];
    failed = false;
    timed_out = false;
  };
}

abbrev policy : CompilePolicy
policy = record {
  gcc = codes "gcc";
  flags = codes "-Wall" ∷ [];
  source_file = [];
  library_files = codes "util.o" ∷ [];
  config_dir = codes "/c";
  multi_process = none;
}

abbrev processes : List ProcessConfig
processes =
    record { source_file = codes "main.c"; instance_name = codes "one" }
    ∷ record { source_file = codes "main.c"; instance_name = codes "two" }
    ∷ record { source_file = codes "no.c"; instance_name = [] }
    ∷ []

compile_multi_process_ok_example :
    (((compile_multi_process tools policy ann (codes "/out") no_libraries processes 7).ok ≡ true)
      ↔ All
          (Compiles tools policy ann (codes "/out") no_libraries)
          (codes "main.c" ∷ codes "main.c" ∷ codes "no.c" ∷ []))
    × ((sources : List Bytes) × IsDistinct sources
        × All (λ s. Mem s (codes "main.c" ∷ codes "main.c" ∷ codes "no.c" ∷ [])) sources
        × All (λ s. Mem s sources) (codes "main.c" ∷ codes "main.c" ∷ codes "no.c" ∷ [])
        × ((compile_multi_process tools policy ann (codes "/out") no_libraries processes 7).command
            ≡ run_commands tools policy ann (codes "/out") no_libraries sources))
compile_multi_process_ok_example =
    compile_multi_process_ok tools policy ann (codes "/out") no_libraries processes 7

sources_built_once :
    (build_all tools policy ann (codes "/out") no_libraries processes no_build).built
    ≡ codes "no.c" ∷ codes "main.c" ∷ []
unfolding build_all
sources_built_once = refl

-- Two workers on two indices: the second is stored first.
abbrev after_both : Pool ℕ
after_both = record { queue = []; running = []; results = some 5 ∷ some 6 ∷ [] }

both_stored : PoolRun 2 (λ i. i + 5) 4 (new_pool 2) after_both
unfolding new_pool
both_stored =
    then_step
      (then_step
        (then_step (then_step at_rest (receive 0 (1 ∷ []) [] (none ∷ none ∷ []) (omega arith)))
          (receive 1 [] (0 ∷ []) (none ∷ none ∷ []) (omega arith)))
        (store 1 [] [] (0 ∷ []) (none ∷ none ∷ [])))
      (store 0 [] [] [] (none ∷ some 6 ∷ []))

new_pool_result_example :
    (4 ≤ 4)
    × (1 ≤ 2 → 4 < 4 → (t : Pool ℕ) × PoolStep 2 (λ i. i + 5) after_both t)
    × (◌≡◌ {A = ℕ} 4 4 → (i : ℕ) → i < 2 → get_or after_both.results i none ≡ some (i + 5))
new_pool_result_example = new_pool_result 2 (λ i. i + 5) 2 4 after_both both_stored
