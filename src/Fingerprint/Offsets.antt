-- ===== src/Fingerprint/Offsets.antt =====
-- `buildLineOffsets` and `byteToLineCol` of internal/engine/fingerprint.go, with the binary search
-- of Go's sort.Search, against a walk over the bytes.
pub mod Search
pub mod Walk
use aut_oscan_engine.Prelude.{
  ℕ, zero, suc, ◌+◌, ◌-◌, ◌/◌, Bool, List, [], ◌∷◌, ltb, ◌==◌, if◌then◌else◌, length, get_or,
}
use aut_oscan_engine.Prelude.Text.{Bytes}

-- The offsets that the loop appends, from byte `i` on.
pub offsets_from : ℕ → Bytes → List ℕ
offsets_from i [] = []
offsets_from i (b ∷ bs) =
    if b == b'\n' then (i + 1) ∷ offsets_from (i + 1) bs else offsets_from (i + 1) bs

unfoldable pub build_line_offsets : Bytes → List ℕ
unfolding offsets_from
build_line_offsets content = 0 ∷ offsets_from 0 content

-- sort.Search: `for i < j { h := (i+j)/2; if !f(h) { i = h+1 } else { j = h } }; return i`.
pub search_from : ℕ → (ℕ → Bool) → ℕ → ℕ → ℕ
search_from zero f i j = i
search_from (suc fuel) f i j =
    let h = (i + j) / 2 in
    let rest = search_from fuel f (if f h then i else h + 1) (if f h then h else j) in
    if ltb i j then rest else i

unfoldable pub search : ℕ → (ℕ → Bool) → ℕ
unfolding search_from
search n f = search_from n f 0 n

-- Positions are byte offsets, so `pos` is never negative.
unfoldable pub byte_to_line_col : List ℕ → ℕ → ℕ × ℕ
unfolding search
byte_to_line_col line_offsets pos =
    let found = search (length line_offsets) (λ i. ltb pos (get_or line_offsets i 0)) in
    let line = if found == 0 then 0 else found - 1 in
    (line + 1, pos - get_or line_offsets line 0 + 1)
