-- ===== src/Lib.antt =====
-- Verification of the autOScan engine, a Go service that compiles, scans, runs and compares C
-- submissions. The library follows the data through the program: a submission's sources become
-- token fingerprints, fingerprints are compared by tiling, programs are run and judged, results are
-- summarised, and a server keeps sessions and progress beside it.
--
-- The parts, and how the files correspond to the code:
-- Tiling: greedyStringTiling, isMarked, tiledTokens of internal/engine/fingerprint.go. The
--   endless loop runs on fuel, one round more than there are tokens; each round but the last marks
--   at least one token. Marking, Runs, Search, Rounds and Sorted hold the lemmas, Laws the results.
-- Fingerprint: the rest of that file. A syntax tree is a data type; tree-sitter's parser and its
--   field access are parameters. Offsets is the search for line and column.
-- Similarity: internal/engine/plagiarism.go with the snippets of fingerprint.go. It calls the
--   tiling on two fingerprints. Scores are fractions. The sorts of equal scores are parameters.
-- Output: ComputeOutputDiff of pkg/domain/execute.go. Reading says which texts are compared.
-- Valgrind: pkg/domain/valgrind.go, its regular expressions as parameters.
-- Cases: the results and summaries of pkg/domain/execute.go, with the verdict of a run from
--   internal/engine/executor.go (Cases/Execute), runTestCases of cmd/autoscan-server/grade.go, and
--   the processes of a scenario (Cases/Processes). They use Output and Valgrind. What the process
--   and the files yield is an argument; ExecuteTestCase itself takes the run as one, with the folder
--   in which an earlier case may have left a file.
-- Report: pkg/domain/report.go, scan.go, compile.go and submission.go.
-- Scanner: walkTree and checkCallExpression of internal/engine/scanner.go, with insideMacro of
--   internal/engine/ai_style.go, over the trees of Fingerprint; the hits are those of Report.
-- Policy: pkg/policy/policy.go, and pkg/ai/dictionary.go in Policy/Dictionary.
-- Terminal: internal/terminal/token.go (Token) and session.go (Sessions). The sessions are a store
--   of records that the table of ids points into. Each critical section is one step of
--   Sessions/Steps, so that steps of different requests interleave in any order. Token's result
--   gives the bound on panes that the sessions rely on.
-- Server: cmd/autoscan-server/progress.go and normalizeRunID of runs.go (Progress); idle.go, and the
--   bounded buffer and unescapeInput of internal/engine/executor.go (Activity).
-- Server/Jobs: the background jobs of cmd/autoscan-server/grade_async.go and the slot that they share
--   with sandbox_handler.go. A job is a record with a phase; each part of a goroutine between two
--   points where another may run is one step of Server/Jobs/Steps. It uses Progress and Activity. The
--   capacity of the slot is that of main.go.
-- Uploads: Paths holds Clean, Join and Abs of Go's path/filepath on Unix; Disk the files that are
--   written and what may fail; Extract the loops of extractZip (setup.go) and extractTar
--   (sandbox_handler.go), with the readers of archives as parameters; Sources concatCSources, and
--   Submissions discoverSandboxSubmissions.
-- Discovery: internal/engine/discovery.go over a tree of entries.
-- Compiler: internal/engine/compiler.go, with gcc and the files as parameters (Multi holds the result
--   of a submission), and the worker pool of CompileAll and parallel.go (Workers) as steps.
-- Detection: fingerprintDictionary and compareSubmissionToDictionary of
--   internal/engine/ai_detection.go, on Tiling and Similarity.
-- Prelude: the shared names, Boolean tests, lists, texts as bytes (Ends: the newline at their end),
--   and maps as lists of pairs.
-- Tests: each result at a concrete input.
--
-- Numbers are natural numbers. A hash is reduced to 64 bits; the other counts of the code stay far
-- below the width of an int and are not reduced. A float64 is an exact fraction, or millionths for
-- progress. Clocks are arguments.
--
-- Not modelled: the rest of the AI detection report, the style heuristics, the declaration patterns,
-- the stages of a grading job between taking and releasing the slot, the scenario host and sandbox,
-- the pane host and its protocol, and the HTTP handlers; most of these are input, output, processes
-- or floating-point heuristics. The modes of files and the time limits of processes are left out.
pub mod Prelude
pub mod Tiling
pub mod Fingerprint
pub mod Similarity
pub mod Output
pub mod Valgrind
pub mod Cases
pub mod Terminal
pub mod Report
pub mod Policy
pub mod Server
pub mod Scanner
pub mod Uploads
pub mod Discovery
pub mod Compiler
pub mod Detection
pub mod Tests
