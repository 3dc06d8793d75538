-- ===== src/Tiling/Runs.antt =====
-- The innermost loop: it counts exactly the pairs that agree, and its fuel is enough.
use aut_oscan_engine.Prelude.{
  ℕ, zero, suc, ◌+◌, ◌≡◌, ◌≤◌, ◌<◌, ◌≢◌, Bool, true, false, List, arith, ◌==◌, length, Bool-cases,
  inl, inr,
}
use aut_oscan_engine.Tiling.{token_at, marked, agrees, run_from, run_length}

module _ (xs ys : List ℕ) (mx my : List Bool) where
  pub agrees_parts :
      (i j : ℕ)
      → agrees xs ys mx my i j ≡ true
      → (i < length xs)
        × (j < length ys)
        × (token_at xs i ≢ 0)
        × (token_at xs i ≡ token_at ys j)
        × (marked mx i ≡ false)
        × (marked my j ≡ false)
  unfolding agrees
  agrees_parts i j h = ground arith

  pub agrees_of_parts :
      (i j : ℕ)
      → i < length xs
      → j < length ys
      → token_at xs i ≢ 0
      → token_at xs i ≡ token_at ys j
      → marked mx i ≡ false
      → marked my j ≡ false
      → agrees xs ys mx my i j ≡ true
  unfolding agrees
  agrees_of_parts i j h₁ h₂ h₃ h₄ h₅ h₆ = ground arith

  agrees_outside : (i j : ℕ) → length xs ≤ i → agrees xs ys mx my i j ≡ false
  unfolding agrees
  agrees_outside i j h = ground arith

  run_from_ge : (fuel i j k : ℕ) → k ≤ run_from fuel xs ys mx my i j k
  unfolding run_from
  run_from_ge zero i j k = omega arith
  run_from_ge (suc fuel) i j k = ground (arith, run_from_ge fuel i j (k + 1))

  run_from-agrees :
      (fuel i j k q : ℕ)
      → k ≤ q
      → q < run_from fuel xs ys mx my i j k
      → agrees xs ys mx my (i + q) (j + q) ≡ true
  unfolding run_from
  run_from-agrees zero i j k q lo hi = absurd (omega arith)
  run_from-agrees (suc fuel) i j k q lo hi = elim (Bool-cases (q == k)) [
    | inl e ↦ ground arith
    | inr e ↦ ground (arith, run_from-agrees fuel i j (k + 1) q)
  ]

  run_from_stops :
      (fuel i j k : ℕ)
      → length xs ≤ i + k + fuel
      → let r = run_from fuel xs ys mx my i j k in agrees xs ys mx my (i + r) (j + r) ≡ false
  unfolding run_from
  run_from_stops zero i j k h = agrees_outside (i + k) (j + k) (omega arith)
  run_from_stops (suc fuel) i j k h = ground (arith, run_from_stops fuel i j (k + 1))

  -- Every pair of the run agrees.
  pub run_length-agrees :
      (i j q : ℕ) → q < run_length xs ys mx my i j → agrees xs ys mx my (i + q) (j + q) ≡ true
  unfolding run_length
  run_length-agrees i j q h = run_from-agrees (length xs) i j 0 q (omega arith) h

  pub run_length_stops :
      (i j : ℕ) → let r = run_length xs ys mx my i j in agrees xs ys mx my (i + r) (j + r) ≡ false
  unfolding run_length
  run_length_stops i j = run_from_stops (length xs) i j 0 (omega arith)

  -- Where `m` pairs in a row agree, the run is at least `m` long.
  pub le-run_length :
      (i j m : ℕ)
      → ((q : ℕ) → q < m → agrees xs ys mx my (i + q) (j + q) ≡ true)
      → m ≤ run_length xs ys mx my i j
  le-run_length i j m h =
      let r = run_length xs ys mx my i j in ground (arith, h r, run_length_stops i j)
