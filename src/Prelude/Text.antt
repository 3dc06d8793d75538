-- ===== src/Prelude/Text.antt =====
-- Go strings and byte slices as lists of bytes, with the functions of package strings that the
-- engine uses: TrimSpace, HasPrefix, HasSuffix, TrimSuffix, Split on one byte.
use Prim.Native.Char.{code}
use Prim.Native.Nat.{ℕ, zero, suc, ◌-◌}
use Prim.Native.String.{String}
use mathlib.Core.Bool.{Bool, true, false, ◌&&◌, ◌||◌}
use mathlib.Core.List.{List, [], ◌∷◌, reverse}
use mathlib.Core.Logic.{◌↔◌}
use mathlib.Core.Path.{◌≡◌, refl}
use native.Mathlib.Omega.{arith}
use aut_oscan_engine.Prelude.Lists.{length, drop, take}
use aut_oscan_engine.Prelude.Tests.{leb, ◌==◌, if◌then◌else◌}

abbrev pub Bytes : Type 0
Bytes = List ℕ

-- The bytes of a text that is ASCII, as every literal here is.
abbrev pub codes : String → Bytes
codes String.[] = []
codes (String.◌∷◌ c s) = code c ∷ codes s

unfoldable pub bytes_eq : Bytes → Bytes → Bool
bytes_eq [] [] = true
bytes_eq (x ∷ xs) (y ∷ ys) = x == y && bytes_eq xs ys
bytes_eq _ _ = false

pub bytes_eq_iff : (a b : Bytes) → (bytes_eq a b ≡ true) ↔ (a ≡ b)
unfolding bytes_eq
bytes_eq_iff (x ∷ a) (y ∷ b) = ground (arith, bytes_eq_iff a b)
bytes_eq_iff _ _ = ground arith

pub bytes_eq_refl : (a : Bytes) → bytes_eq a a ≡ true
unfolding bytes_eq
bytes_eq_refl [] = refl
bytes_eq_refl (x ∷ a) = ground (arith, bytes_eq_refl a)

-- The strings of a Go `case "a", "b":`.
unfoldable pub one_of : Bytes → List String → Bool
unfolding bytes_eq
one_of b [] = false
one_of b (s ∷ ss) = bytes_eq b (codes s) || one_of b ss

unfoldable pub has_prefix : Bytes → Bytes → Bool
has_prefix s [] = true
has_prefix [] (p ∷ ps) = false
has_prefix (c ∷ s) (p ∷ ps) = c == p && has_prefix s ps

unfoldable pub has_suffix : Bytes → Bytes → Bool
unfolding bytes_eq
has_suffix s p = leb (length p) (length s) && bytes_eq (drop (length s - length p) s) p

unfoldable pub trim_suffix : Bytes → Bytes → Bytes
unfolding has_suffix
trim_suffix s p = if has_suffix s p then take (length s - length p) s else s

-- The width of the white-space character (unicode.IsSpace, in UTF-8) that a text begins with, or 0.
unfoldable pub space_width : Bytes → ℕ
space_width [] = 0
space_width (c ∷ []) = if leb 9 c && leb c 13 || c == 32 then 1 else 0
space_width (c ∷ d ∷ []) =
    if leb 9 c && leb c 13 || c == 32
    then 1
    else if c == 0xC2 && (d == 0x85 || d == 0xA0)
    then 2
    else 0
space_width (c ∷ d ∷ e ∷ _) =
    if leb 9 c && leb c 13 || c == 32
    then 1
    else if c == 0xC2 && (d == 0x85 || d == 0xA0)
    then 2
    else if c == 0xE1 && d == 0x9A && e == 0x80
        || c == 0xE2
          && d == 0x80
          && (leb 0x80 e && leb e 0x8A || e == 0xA8 || e == 0xA9 || e == 0xAF)
        || c == 0xE2 && d == 0x81 && e == 0x9F
        || c == 0xE3 && d == 0x80 && e == 0x80
    then 3
    else 0

-- The same for the character that a reversed text ends with.
unfoldable pub last_space_width : Bytes → ℕ
unfolding space_width
last_space_width [] = 0
last_space_width (c ∷ []) = space_width (c ∷ [])
last_space_width (d ∷ c ∷ []) =
    if space_width (d ∷ []) == 1 then 1 else if space_width (c ∷ d ∷ []) == 2 then 2 else 0
last_space_width (e ∷ d ∷ c ∷ _) =
    if space_width (e ∷ []) == 1
    then 1
    else if space_width (d ∷ e ∷ []) == 2
    then 2
    else if space_width (c ∷ d ∷ e ∷ []) == 3
    then 3
    else 0

-- Drops `skip` bytes, and then white space as long as `width` finds any.
unfoldable pub trim_by : (Bytes → ℕ) → ℕ → Bytes → Bytes
trim_by width skip [] = []
trim_by width (suc skip) (c ∷ s) = trim_by width skip s
trim_by width zero (c ∷ s) = elim (width (c ∷ s)) [ zero ↦ c ∷ s | suc k ↦ trim_by width k s ]

unfoldable pub trim_space : Bytes → Bytes
unfolding trim_by space_width last_space_width
trim_space s = reverse (trim_by last_space_width 0 (reverse (trim_by space_width 0 s)))

trim_space_tests :
    (trim_space (codes " \ta b\n ") ≡ codes "a b")
    × (trim_space (0xC2 ∷ 0xA0 ∷ b'x' ∷ 0xE3 ∷ 0x80 ∷ 0x80 ∷ []) ≡ b'x' ∷ [])
    × (trim_space (codes "  ") ≡ [])
unfolding trim_space
trim_space_tests = (refl, refl, refl)
