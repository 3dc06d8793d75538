-- ===== src/Policy.antt =====
-- Policies: pkg/policy/policy.go, and the pattern dictionary of pkg/ai/dictionary.go.
pub mod Dictionary
pub mod Laws
pub mod Valid
use aut_oscan_engine.Prelude.{
  ℕ, zero, suc, ◌+◌, ◌-◌, Bool, true, false, not, ◌||◌, List, [], ◌∷◌, ◌++◌, Option, none, some,
  ltb, ◌==◌, if◌then◌else◌, length,
}
use aut_oscan_engine.Prelude.Text.{
  Bytes, codes, bytes_eq, has_prefix, has_suffix, trim_space, trim_suffix,
}
use aut_oscan_engine.Prelude.Maps.{lookup, insert}

pub record BannedConstructs : Type 0 where
  pub variable_length_arrays : Option Bool
  pub initialized_arrays : Option Bool
  pub pthread_attributes : Option Bool

-- A construct is banned unless the policy says otherwise.
abbrev or_true : Option Bool → Bool
or_true none = true
or_true (some b) = b

unfoldable pub ban_variable_length_arrays : BannedConstructs → Bool
ban_variable_length_arrays b = or_true b.variable_length_arrays

unfoldable pub ban_initialized_arrays : BannedConstructs → Bool
ban_initialized_arrays b = or_true b.initialized_arrays

unfoldable pub ban_pthread_attributes : BannedConstructs → Bool
ban_pthread_attributes b = or_true b.pthread_attributes

pub record ProcessConfig : Type 0 where
  pub source_file : Bytes
  pub instance_name : Bytes

-- `base` is filepath.Base.
unfoldable pub process_name : (Bytes → Bytes) → ProcessConfig → Bytes
unfolding trim_space trim_suffix bytes_eq
process_name base p =
    let name = trim_space p.instance_name in
    if bytes_eq name [] then trim_suffix (base p.source_file) (codes ".c") else name

unfoldable pub binary : ProcessConfig → Bytes
unfolding trim_suffix
binary p = trim_suffix p.source_file (codes ".c")

unfoldable pub mem_seen : List Bytes → Bytes → Bool
unfolding bytes_eq
mem_seen [] name = false
mem_seen (s ∷ seen) name = bytes_eq s name || mem_seen seen name

-- The name that two processes have, if `validate` finds one.
unfoldable pub validate_from : (Bytes → Bytes) → List Bytes → List ProcessConfig → Option Bytes
unfolding mem_seen process_name
validate_from base seen [] = none
validate_from base seen (p ∷ ps) =
    let name = process_name base p in
    let rest = validate_from base (name ∷ seen) ps in if mem_seen seen name then some name else rest

unfoldable pub validate : (Bytes → Bytes) → Option (List ProcessConfig) → Option Bytes
unfolding validate_from
validate base none = none
validate base (some executables) = validate_from base [] executables

-- The flags of the compiler and those of the linker, in order.
unfoldable pub split_flags : List Bytes → List Bytes × List Bytes
unfolding has_prefix
split_flags [] = ([], [])
split_flags (flag ∷ flags) =
    let (compiler, linker) = split_flags flags in
    if has_prefix flag (codes "-l") then (compiler, flag ∷ linker) else (flag ∷ compiler, linker)

unfoldable pub compiled_libraries : List Bytes → List Bytes
unfolding has_suffix
compiled_libraries [] = []
compiled_libraries (f ∷ fs) =
    let rest = compiled_libraries fs in
    if has_suffix f (codes ".c") || has_suffix f (codes ".o") then f ∷ rest else rest

unfoldable pub build_gcc_args : List Bytes → List Bytes → List Bytes → Bytes → List Bytes
unfolding split_flags compiled_libraries
build_gcc_args flags source_files library_files output_path =
    let (compiler, linker) = split_flags flags in
    compiler
    ++ (source_files
        ++ (compiled_libraries library_files ++ (linker ++ (codes "-o" ∷ output_path ∷ []))))
