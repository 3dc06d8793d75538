-- ===== src/Prelude/Maps.antt =====
-- Go maps with string keys, as lists of pairs in the order of insertion.
use Prim.Native.Nat.{suc, ◌≤◌}
use mathlib.Core.List.{List, [], ◌∷◌}
use mathlib.Core.Logic.{◌≢◌, ◌⊎◌, inl, inr}
use mathlib.Core.Option.{Option, none, some}
use mathlib.Core.Path.{◌≡◌, refl, sym, ap, ◌∙◌}
use native.Mathlib.Omega.{arith}
use aut_oscan_engine.Prelude.Lists.{length, All}
use aut_oscan_engine.Prelude.Tests.{Bool-cases, some_eq, not-none-eq-some, if◌then◌else◌}
use aut_oscan_engine.Prelude.Text.{Bytes, bytes_eq, bytes_eq_iff, bytes_eq_refl}

module _ {ℓ} {A : Type ℓ} where
  unfoldable pub lookup : List (Bytes × A) → Bytes → Option A
  lookup [] k = none
  lookup (e ∷ m) k = if bytes_eq e.0 k then some e.1 else lookup m k

  unfoldable pub insert : List (Bytes × A) → Bytes → A → List (Bytes × A)
  insert [] k v = (k, v) ∷ []
  insert (e ∷ m) k v = let rest = insert m k v in if bytes_eq e.0 k then (k, v) ∷ m else e ∷ rest

  unfoldable pub delete : List (Bytes × A) → Bytes → List (Bytes × A)
  delete [] k = []
  delete (e ∷ m) k = let rest = delete m k in if bytes_eq e.0 k then rest else e ∷ rest

  pub lookup-insert_same :
      (m : List (Bytes × A)) (k : Bytes) (v : A) → lookup (insert m k v) k ≡ some v
  unfolding lookup insert
  lookup-insert_same [] k v = rw (bytes_eq_refl k) refl
  lookup-insert_same (e ∷ m) k v = ground (arith, bytes_eq_refl k, lookup-insert_same m k v)

  pub lookup-insert_other :
      (m : List (Bytes × A)) (k j : Bytes) (v : A) → k ≢ j → lookup (insert m k v) j ≡ lookup m j
  unfolding lookup insert
  lookup-insert_other [] k j v h = ground (arith, bytes_eq_iff k j)
  lookup-insert_other (e ∷ m) k j v h = ground (
    arith,
    bytes_eq_iff k j,
    bytes_eq_iff e.0 k,
    bytes_eq_iff e.0 j,
    lookup-insert_other m k j v h,
  )

  pub lookup-delete_same : (m : List (Bytes × A)) (k : Bytes) → lookup (delete m k) k ≡ none
  unfolding lookup delete
  lookup-delete_same [] k = refl
  lookup-delete_same (e ∷ m) k = ground (arith, lookup-delete_same m k)

  pub lookup-delete_other :
      (m : List (Bytes × A)) (k j : Bytes) → k ≢ j → lookup (delete m k) j ≡ lookup m j
  unfolding lookup delete
  lookup-delete_other [] k j h = refl
  lookup-delete_other (e ∷ m) k j h =
      ground (arith, bytes_eq_iff e.0 k, bytes_eq_iff e.0 j, lookup-delete_other m k j h)

  pub length-delete-le : (m : List (Bytes × A)) (k : Bytes) → length (delete m k) ≤ length m
  unfolding delete
  length-delete-le [] k = omega arith
  length-delete-le (e ∷ m) k = ground (arith, length-delete-le m k)

  pub length-insert-le :
      (m : List (Bytes × A)) (k : Bytes) (v : A) → length (insert m k v) ≤ suc (length m)
  unfolding insert
  length-insert-le [] k v = omega arith
  length-insert-le (e ∷ m) k v = ground (arith, length-insert-le m k v)

  -- What a smaller or a larger map holds was there before, or is new.
  pub lookup-delete-some :
      (m : List (Bytes × A)) (k j : Bytes) (v : A)
      → lookup (delete m k) j ≡ some v
      → (k ≢ j) × (lookup m j ≡ some v)
  lookup-delete-some m k j v h = elim (Bool-cases (bytes_eq k j)) [
    | inl e ↦
        let same = (bytes_eq_iff k j).0 e in
        absurd (not-none-eq-some (sym (lookup-delete_same m k) ∙ ap (lookup (delete m k)) same ∙ h))
    | inr e ↦
        let differ : k ≢ j = λ s. ground (arith, bytes_eq_iff k j) in
        (differ, sym (lookup-delete_other m k j differ) ∙ h)
  ]

  pub lookup-insert-some :
      (m : List (Bytes × A)) (k j : Bytes) (u v : A)
      → lookup (insert m k u) j ≡ some v
      → ((k ≡ j) × (u ≡ v)) ⊎ (lookup m j ≡ some v)
  lookup-insert-some m k j u v h = elim (Bool-cases (bytes_eq k j)) [
    | inl e ↦
        let same = (bytes_eq_iff k j).0 e in
        inl (same, some_eq (sym (lookup-insert_same m k u) ∙ ap (lookup (insert m k u)) same ∙ h))
    | inr e ↦
        let differ : k ≢ j = λ s. ground (arith, bytes_eq_iff k j) in
        inr (sym (lookup-insert_other m k j u differ) ∙ h)
  ]

-- A list of strings without repetition.
abbrev pub IsDistinct : List Bytes → Type 0
IsDistinct [] = Unit
IsDistinct (x ∷ xs) = All (λ y. x ≢ y) xs × IsDistinct xs
