-- ===== src/Compiler/Laws.antt =====
-- What a compilation of several executables builds, and what the engine keeps of the libraries.
use aut_oscan_engine.Prelude.{
  ℕ, ◌≡◌, ◌≢◌, ◌↔◌, ◌∙◌, refl, sym, ap, subst, Bool, true, false, not, ◌&&◌, List, [], ◌∷◌, map,
  Option, none, some, Bool-cases, not-none-eq-some, inl, inr, arith, All, append-nil, ◌++◌,
}
use mathlib.Core.List.{Mem, mem-cons_self, mem-cons_of_mem}
use aut_oscan_engine.Prelude.Text.{Bytes, codes, bytes_eq, bytes_eq_iff}
use aut_oscan_engine.Prelude.Maps.{IsDistinct}
use aut_oscan_engine.Policy.{ProcessConfig, mem_seen, binary}
use aut_oscan_engine.Report.{Submission}
use aut_oscan_engine.Uploads.Paths.{join}
use aut_oscan_engine.Compiler.{
  Toolchain, CompilePolicy, Libraries, no_libraries, keep_libraries, find_libraries,
  resolve_library_files,
}
use aut_oscan_engine.Compiler.Multi.{
  Build, add_run, run_process, build_new, build_process, build_all, no_build, compile_multi_process,
}

true-not-false : ¬ (true ≡ false)
true-not-false e = cc

and-parts : (a b : Bool) → (a && not b) ≡ true → (a ≡ true) × (b ≡ false)
and-parts a b h = ground (arith, h)

and-true : (a b : Bool) → a ≡ true → b ≡ false → (a && not b) ≡ true
and-true a b h k = ground (arith, h, k)

mem_seen-new : (seen : List Bytes) (s : Bytes) → mem_seen seen s ≡ false → All (λ t. s ≢ t) seen
unfolding mem_seen
mem_seen-new [] s h = tt
mem_seen-new (t ∷ seen) s h = ground (arith, h, bytes_eq_iff t s, mem_seen-new seen s)

mem_seen-All :
    (P : Bytes → Type 0) (seen : List Bytes) (s : Bytes) → mem_seen seen s ≡ true → All P seen → P s
unfolding mem_seen
mem_seen-All P [] s h k = absurd (true-not-false (sym h))
mem_seen-All P (t ∷ seen) s h k = elim (Bool-cases (bytes_eq t s)) [
  | inl e ↦ subst P ((bytes_eq_iff t s).0 e) k.0
  | inr e ↦ mem_seen-All P seen s (rw e at h) k.1
]

All-weaken :
    (P Q : Bytes → Type 0) → ((s : Bytes) → P s → Q s) → (ss : List Bytes) → All P ss → All Q ss
All-weaken P Q h [] k = tt
All-weaken P Q h (s ∷ ss) k = (h s k.0, All-weaken P Q h ss k.1)

All-Mem : (ss : List Bytes) → All (λ s. Mem s ss) ss
All-Mem [] = tt
All-Mem (s ∷ ss) = (
  mem-cons_self,
  All-weaken (λ t. Mem t ss) (λ t. Mem t (s ∷ ss)) (λ t m. mem-cons_of_mem s m) ss (All-Mem ss),
)

module _ (tools : Toolchain) (p : CompilePolicy) (sub : Submission) (output_dir : Bytes)
    (libraries : Libraries) where
  abbrev process_of : Bytes → ProcessConfig
  process_of source = record { source_file = source; instance_name = [] }

  -- The source of an executable is there, and the compiler accepts it.
  abbrev pub Compiles : Bytes → Type 0
  Compiles source =
      (tools.stat (join sub.path source) ≢ none)
      × ((run_process tools p sub output_dir libraries (process_of source)).failed ≡ false)

  -- What the compiler's run for a source adds to the command: nothing where the source is not there.
  abbrev pub run_command : Option ℕ → Bytes → List Bytes
  run_command none source = []
  run_command (some size) source =
      (run_process tools p sub output_dir libraries (process_of source)).cmd ++ (codes ";" ∷ [])

  -- One run for each of the sources, the last of the list first.
  abbrev pub run_commands : List Bytes → List Bytes
  run_commands [] = []
  run_commands (source ∷ sources) =
      run_commands sources ++ run_command (tools.stat (join sub.path source)) source

  -- What the loop has built, and what its verdict says so far.
  record IsBuilt (b : Build) : Type 0 where
    verdict : (b.ok ≡ true) ↔ All Compiles b.built
    once : IsDistinct b.built
    commands : b.cmds ≡ run_commands b.built

  build_new-IsBuilt :
      (proc : ProcessConfig) (size : Option ℕ) (b : Build)
      → tools.stat (join sub.path proc.source_file) ≡ size
      → All (λ s. proc.source_file ≢ s) b.built
      → IsBuilt b
      → IsBuilt (
          build_new tools p sub output_dir libraries proc size
            (record b { built = proc.source_file ∷ b.built }))
  unfolding build_new add_run run_process binary
  build_new-IsBuilt proc none b e new h = record {
    verdict = (λ q. absurd (true-not-false (sym q)), λ k. absurd (k.0.0 e));
    once = (new, h.once);
    commands =
        h.commands
        ∙ (sym (append-nil (run_commands b.built))
            ∙ ap (λ o. run_commands b.built ++ run_command o proc.source_file) (sym e));
  }
  build_new-IsBuilt proc (some size) b e new h =
      let run = run_process tools p sub output_dir libraries proc in
      record {
        verdict = (
          λ q. (
            (λ n. not-none-eq-some (sym n ∙ e), (and-parts b.ok run.failed q).1),
            h.verdict.0 (and-parts b.ok run.failed q).0,
          ),
          λ k. and-true b.ok run.failed (h.verdict.1 k.1) k.0.1,
        );
        once = (new, h.once);
        commands =
            ap (λ cs. cs ++ (run.cmd ++ (codes ";" ∷ []))) h.commands
            ∙ ap (λ o. run_commands b.built ++ run_command o proc.source_file) (sym e);
      }

  build_process-IsBuilt :
      (proc : ProcessConfig) (b : Build)
      → IsBuilt b
      → IsBuilt (build_process tools p sub output_dir libraries proc b)
  unfolding build_process
  build_process-IsBuilt proc b h = elim (Bool-cases (mem_seen b.built proc.source_file)) [
    | inl y ↦ rw y h
    | inr n ↦ rw n (
        build_new-IsBuilt proc (tools.stat (join sub.path proc.source_file)) b refl
          (mem_seen-new b.built proc.source_file n) h)
  ]

  build_all-IsBuilt :
      (procs : List ProcessConfig) (b : Build)
      → IsBuilt b
      → IsBuilt (build_all tools p sub output_dir libraries procs b)
  unfolding build_all
  build_all-IsBuilt [] b h = h
  build_all-IsBuilt (proc ∷ procs) b h =
      build_all-IsBuilt procs (build_process tools p sub output_dir libraries proc b)
        (build_process-IsBuilt proc b h)

  build_new-built :
      (proc : ProcessConfig) (size : Option ℕ) (b : Build)
      → (build_new tools p sub output_dir libraries proc size b).built ≡ b.built
  unfolding build_new add_run
  build_new-built proc none b = refl
  build_new-built proc (some size) b = refl

  build_process-All :
      (P : Bytes → Type 0) (proc : ProcessConfig) (b : Build)
      → All P (build_process tools p sub output_dir libraries proc b).built
        ↔ (P proc.source_file × All P b.built)
  unfolding build_process
  build_process-All P proc b =
      let source = proc.source_file in
      elim (Bool-cases (mem_seen b.built source)) [
        | inl y ↦ rw y (λ k. (mem_seen-All P b.built source y k, k), λ k. k.1)
        | inr n ↦
            let same =
              build_new-built proc (tools.stat (join sub.path source))
                (record b { built = source ∷ b.built }) in
            rw (n, same) (λ k. k, λ k. k)
      ]

  build_all-All :
      (P : Bytes → Type 0) (procs : List ProcessConfig) (b : Build)
      → All P (build_all tools p sub output_dir libraries procs b).built
        ↔ (All P (map (λ c. c.source_file) procs) × All P b.built)
  unfolding build_all
  build_all-All P [] b = (λ k. (tt, k), λ k. k.1)
  build_all-All P (proc ∷ procs) b =
      let rest = build_all-All P procs (build_process tools p sub output_dir libraries proc b) in
      let step = build_process-All P proc b in
      (
        λ k. let (ks, k') = rest.0 k in let (k0, kb) = step.0 k' in ((k0, ks), kb),
        λ k. rest.1 (k.0.1, step.1 (k.0.0, k.1)),
      )

  -- A multi-process submission compiles exactly if the source of each of its executables is there and
  -- is accepted by the compiler. Its command is put together from one run of the compiler for each of
  -- the sources that are there, in some order and without repetition, however many executables have
  -- the same source.
  pub compile_multi_process_ok :
      (procs : List ProcessConfig) (duration : ℕ)
      → (((compile_multi_process tools p sub output_dir libraries procs duration).ok ≡ true)
          ↔ All Compiles (map (λ c. c.source_file) procs))
        × ((sources : List Bytes) × IsDistinct sources
            × All (λ s. Mem s (map (λ c. c.source_file) procs)) sources
            × All (λ s. Mem s sources) (map (λ c. c.source_file) procs)
            × ((compile_multi_process tools p sub output_dir libraries procs duration).command
                ≡ run_commands sources))
  unfolding compile_multi_process
  compile_multi_process_ok procs duration =
      let start : IsBuilt no_build = record {
        verdict = (λ q. tt, λ k. refl);
        once = tt;
        commands = refl;
      } in
      let built = build_all-IsBuilt procs no_build start in
      let b = build_all tools p sub output_dir libraries procs no_build in
      let sources = build_all-All Compiles procs no_build in
      let named = map (λ c. c.source_file) procs in
      (
        (λ q. (sources.0 (built.verdict.0 q)).0, λ k. built.verdict.1 (sources.1 (k, tt))),
        (
          b.built,
          built.once,
          (build_all-All (λ s. Mem s named) procs no_build).1 (All-Mem named, tt),
          ((build_all-All (λ s. Mem s b.built) procs no_build).0 (All-Mem b.built)).0,
          built.commands,
        ),
      )

keep_libraries_again :
    (library_files files : List Bytes) (found : Libraries)
    → found.files ≡ files
    → let first = keep_libraries library_files [] no_libraries found in
      (keep_libraries library_files first.0.files first.0 found).1 ≡ first.1
keep_libraries_again [] files found e = refl
keep_libraries_again (l ∷ ls) [] found e = ap (λ fs. (keep_libraries (l ∷ ls) fs found found).1) e
keep_libraries_again (l ∷ ls) (f ∷ fs) found e =
    ap (λ fs. (keep_libraries (l ∷ ls) fs found found).1) e

-- Asking for the libraries again gives the answer that the first time gave, as long as the files are
-- the same; so a submission is compiled with the same libraries wherever it is in the order.
pub resolve_library_files_again :
    (tools : Toolchain) (p : CompilePolicy)
    → let first = resolve_library_files tools p no_libraries in
      (resolve_library_files tools p first.0).1 ≡ first.1
unfolding resolve_library_files
resolve_library_files_again tools p =
    let lib_dir = join p.config_dir (codes "libraries") in
    let (files, warnings) = find_libraries tools lib_dir p.library_files in
    keep_libraries_again p.library_files files
      (record { files = files; lib_dir = lib_dir; warnings = warnings }) refl
