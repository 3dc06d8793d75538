-- ===== src/Policy/Laws.antt =====
-- Which policies and dictionaries are valid, and the order of the compiler's arguments.
use aut_oscan_engine.Prelude.{
  ◌≡◌, ◌≢◌, ◌↔◌, refl, true, false, ◌||◌, List, [], ◌∷◌, ◌++◌, map, none, some, Bool-cases, inl,
  inr, arith, All,
}
use aut_oscan_engine.Prelude.Text.{Bytes, codes, bytes_eq_iff, has_prefix, has_suffix}
use aut_oscan_engine.Prelude.Maps.{IsDistinct}
use aut_oscan_engine.Policy.{
  ProcessConfig, process_name, mem_seen, validate_from, validate, split_flags, compiled_libraries,
  build_gcc_args,
}

-- None of the names was seen.
abbrev AllNew : List Bytes → List Bytes → Type 0
AllNew seen names = All (λ n. mem_seen seen n ≡ false) names

AllNew-cons :
    (seen : List Bytes) (x : Bytes) (names : List Bytes)
    → AllNew (x ∷ seen) names ↔ (All (λ y. x ≢ y) names × AllNew seen names)
unfolding mem_seen
AllNew-cons seen x [] = (λ h. (tt, tt), λ h. tt)
AllNew-cons seen x (n ∷ names) =
    let rest = AllNew-cons seen x names in
    (ground (arith, rest, bytes_eq_iff x n), ground (arith, rest, bytes_eq_iff x n))

validate_from_lem :
    (base : Bytes → Bytes) (seen : List Bytes) (ps : List ProcessConfig)
    → let names = map (process_name base) ps in
      (validate_from base seen ps ≡ none) ↔ (AllNew seen names × IsDistinct names)
unfolding validate_from
validate_from_lem base seen [] = (λ h. (tt, tt), λ h. refl)
validate_from_lem base seen (p ∷ ps) =
    let name = process_name base p in
    let rest = validate_from_lem base (name ∷ seen) ps in
    let new = AllNew-cons seen name (map (process_name base) ps) in
    (ground (arith, rest, new), ground (arith, rest, new))

none_seen : (names : List Bytes) → AllNew [] names
unfolding mem_seen
none_seen [] = tt
none_seen (n ∷ names) = (refl, none_seen names)

-- A policy's processes are accepted exactly if no two of them have the same name.
pub validate-IsDistinct :
    (base : Bytes → Bytes) (ps : List ProcessConfig)
    → (validate base (some ps) ≡ none) ↔ IsDistinct (map (process_name base) ps)
unfolding validate
validate-IsDistinct base ps =
    let both = validate_from_lem base [] ps in
    (λ h. (both.0 h).1, λ h. both.1 (none_seen (map (process_name base) ps), h))

abbrev pub IsLinkerFlag : Bytes → Type 0
IsLinkerFlag flag = has_prefix flag (codes "-l") ≡ true

-- A list is two others, each in its order.
pub data IsMerge : List Bytes → List Bytes → List Bytes → Type 0 where
  both_empty : IsMerge [] [] []
  from_first : {x : Bytes} {xs ys zs : List Bytes} → IsMerge xs ys zs → IsMerge (x ∷ xs) ys (x ∷ zs)
  from_second :
      {y : Bytes} {xs ys zs : List Bytes} → IsMerge xs ys zs → IsMerge xs (y ∷ ys) (y ∷ zs)

abbrev pub AreFlags : List Bytes × List Bytes → List Bytes → Type 0
AreFlags parts flags =
    All (λ f. ¬ IsLinkerFlag f) parts.0 × All IsLinkerFlag parts.1 × IsMerge parts.0 parts.1 flags

split_flags_lem : (flags : List Bytes) → AreFlags (split_flags flags) flags
unfolding split_flags
split_flags_lem [] = (tt, tt, both_empty)
split_flags_lem (flag ∷ flags) =
    let (c, l, m) = split_flags_lem flags in
    elim (Bool-cases (has_prefix flag (codes "-l"))) [
      | inl e ↦ rw e (c, (e, l), from_second m)
      | inr e ↦ rw e ((λ h. ground (arith, e, h), c), l, from_first m)
    ]

-- A file of C or an object file.
abbrev pub IsCompiled : Bytes → Type 0
IsCompiled f = (has_suffix f (codes ".c") || has_suffix f (codes ".o")) ≡ true

compiled_libraries-IsCompiled : (files : List Bytes) → All IsCompiled (compiled_libraries files)
unfolding compiled_libraries
compiled_libraries-IsCompiled [] = tt
compiled_libraries-IsCompiled (f ∷ files) =
    elim (Bool-cases (has_suffix f (codes ".c") || has_suffix f (codes ".o"))) [
      | inl e ↦ rw e (e, compiled_libraries-IsCompiled files)
      | inr e ↦ rw e (compiled_libraries-IsCompiled files)
    ]

-- The arguments of the compiler are the policy's flags that are no -l flags, the sources, library
-- files of C and object files, the -l flags, and -o with the output path, in this order. The two
-- groups of flags are in their order in the policy, and together they are all its flags.
pub build_gcc_args_order :
    (flags sources libraries : List Bytes) (output : Bytes)
    → (compiler linker compiled : List Bytes) × AreFlags (compiler, linker) flags
      × All IsCompiled compiled
      × (build_gcc_args flags sources libraries output
          ≡ compiler ++ (sources ++ (compiled ++ (linker ++ (codes "-o" ∷ output ∷ [])))))
unfolding build_gcc_args
build_gcc_args_order flags sources libraries output = (
  (split_flags flags).0,
  (split_flags flags).1,
  compiled_libraries libraries,
  split_flags_lem flags,
  compiled_libraries-IsCompiled libraries,
  refl,
)
