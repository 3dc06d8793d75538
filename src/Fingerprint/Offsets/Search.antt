-- ===== src/Fingerprint/Offsets/Search.antt =====
-- The binary search finds the boundary of a test that fails below it and holds from it on.
use aut_oscan_engine.Prelude.{
  ℕ, zero, suc, ◌+◌, ◌/◌, ◌≡◌, ◌≤◌, ◌<◌, Bool, true, false, arith, Bool-cases, inl, inr, ltb,
}
use aut_oscan_engine.Fingerprint.Offsets.{search_from, search}

module _ (f : ℕ → Bool) (r : ℕ) where
  boundary_below : (h : ℕ) → f h ≡ true → ((q : ℕ) → q < r → f q ≡ false) → r ≤ h
  boundary_below h e low = ground (arith, low h)

  boundary_above :
      (h j : ℕ) → f h ≡ false → ((q : ℕ) → r ≤ q → q < j → f q ≡ true) → h < j → h + 1 ≤ r
  boundary_above h j e high lt = ground (arith, high h)

  search_from_lem :
      (fuel i j : ℕ)
      → ((h : ℕ) → h < r → f h ≡ false)
      → ((h : ℕ) → r ≤ h → h < j → f h ≡ true)
      → i ≤ r
      → r ≤ j
      → j ≤ i + fuel
      → search_from fuel f i j ≡ r
  unfolding search_from
  search_from_lem zero i j low high a b e = omega arith
  search_from_lem (suc fuel) i j low high a b e =
      let h = (i + j) / 2 in
      elim (Bool-cases (ltb i j)) [
        | inr stop ↦ rw (stop, search_from) (ground arith)
        | inl go ↦ elim (Bool-cases (f h)) [
          | inl yes' ↦
              rw (go, yes', search_from)
                (search_from_lem fuel i h low (λ q l u. high q l (ground arith)) a
                  (boundary_below h yes' low) (ground arith))
          | inr no' ↦
              rw (go, no', search_from)
                (search_from_lem fuel (h + 1) j low high
                  (boundary_above h j no' high (ground arith)) b (ground arith))
        ]
      ]

  pub search_lem :
      (n : ℕ)
      → r ≤ n
      → ((h : ℕ) → h < r → f h ≡ false)
      → ((h : ℕ) → r ≤ h → h < n → f h ≡ true)
      → search n f ≡ r
  unfolding search
  search_lem n h low high = search_from_lem n 0 n low high (omega arith) h (omega arith)
