-- ===== src/Prelude/Lists.antt =====
-- Slices: lists measured and indexed by native numbers, under the library's names.
use Prim.Native.Nat.{ℕ, zero, suc, ◌+◌, ◌≤◌, ◌<◌}
use mathlib.Core.List.{List, [], ◌∷◌, ◌++◌, map}
use mathlib.Core.Logic.{◌⊎◌, inl, inr}
use mathlib.Core.Path.{◌≡◌, refl, ap}
use native.Mathlib.Omega.{arith}

module _ {ℓ} {A : Type ℓ} where
  abbrev pub length : List A → ℕ
  length [] = 0
  length (x ∷ xs) = suc (length xs)

  abbrev pub get_or : List A → ℕ → A → A
  get_or [] i d = d
  get_or (x ∷ xs) zero d = x
  get_or (x ∷ xs) (suc i) d = get_or xs i d

  abbrev pub set : List A → ℕ → A → List A
  set [] i v = []
  set (x ∷ xs) zero v = v ∷ xs
  set (x ∷ xs) (suc i) v = x ∷ set xs i v

  abbrev pub take : ℕ → List A → List A
  take zero xs = []
  take (suc n) [] = []
  take (suc n) (x ∷ xs) = x ∷ take n xs

  abbrev pub drop : ℕ → List A → List A
  drop zero xs = xs
  drop (suc n) [] = []
  drop (suc n) (x ∷ xs) = drop n xs

  abbrev pub replicate : ℕ → A → List A
  replicate zero a = []
  replicate (suc n) a = a ∷ replicate n a

  pub List-cases : (xs : List A) → (xs ≡ []) ⊎ ((x : A) × (r : List A) × (xs ≡ x ∷ r))
  List-cases [] = inl refl
  List-cases (x ∷ r) = inr (x, r, refl)

  pub length-append : (xs ys : List A) → length (xs ++ ys) ≡ length xs + length ys
  length-append [] ys = omega arith
  length-append (x ∷ xs) ys = omega (arith, length-append xs ys)

  pub length-set : (xs : List A) (i : ℕ) (v : A) → length (set xs i v) ≡ length xs
  length-set [] i v = refl
  length-set (x ∷ xs) zero v = refl
  length-set (x ∷ xs) (suc i) v = ap suc (length-set xs i v)

  pub length-replicate : (n : ℕ) (a : A) → length (replicate n a) ≡ n
  length-replicate zero a = refl
  length-replicate (suc n) a = ap suc (length-replicate n a)

  pub get_or-replicate : (n i : ℕ) (a : A) → get_or (replicate n a) i a ≡ a
  get_or-replicate zero i a = refl
  get_or-replicate (suc n) zero a = refl
  get_or-replicate (suc n) (suc i) a = get_or-replicate n i a

  pub length-take-le : (n : ℕ) (xs : List A) → length (take n xs) ≤ n
  length-take-le zero xs = omega arith
  length-take-le (suc n) [] = omega arith
  length-take-le (suc n) (x ∷ xs) = omega (arith, length-take-le n xs)

module _ {ℓ κ} {A : Type ℓ} {B : Type κ} where
  pub length-map : (f : A → B) (xs : List A) → length (map f xs) ≡ length xs
  length-map f [] = refl
  length-map f (x ∷ xs) = ap suc (length-map f xs)

-- A predicate on every element, by recursion, so that the tactics read its parts.
module _ {ℓ κ} {A : Type ℓ} where
  abbrev pub All : (A → Type κ) → List A → Type κ
  All P [] = Unit
  All P (x ∷ xs) = P x × All P xs

  pub All-append : (P : A → Type κ) (xs ys : List A) → All P xs → All P ys → All P (xs ++ ys)
  All-append P [] ys hx hy = hy
  All-append P (x ∷ xs) ys hx hy = (hx.0, All-append P xs ys hx.1 hy)

module _ {ℓ} {A : Type ℓ} where
  pub get_or-set_same :
      (xs : List A) (i : ℕ) (v d : A) → i < length xs → get_or (set xs i v) i d ≡ v
  get_or-set_same [] i v d h = ground (arith, h)
  get_or-set_same (x ∷ xs) zero v d h = refl
  get_or-set_same (x ∷ xs) (suc i) v d h = get_or-set_same xs i v d (omega (arith, h))

  -- A place of the list is the one that was set, or is as before.
  pub get_or-set_cases :
      (xs : List A) (i j : ℕ) (v d : A)
      → ((i ≡ j) × (i < length xs) × (get_or (set xs i v) j d ≡ v))
        ⊎ (get_or (set xs i v) j d ≡ get_or xs j d)
  get_or-set_cases [] i j v d = inr refl
  get_or-set_cases (x ∷ xs) zero zero v d = inl (refl, omega arith, refl)
  get_or-set_cases (x ∷ xs) zero (suc j) v d = inr refl
  get_or-set_cases (x ∷ xs) (suc i) zero v d = inr refl
  get_or-set_cases (x ∷ xs) (suc i) (suc j) v d = elim (get_or-set_cases xs i j v d) [
    | inl (e, l, h) ↦ inl (ap suc e, omega (arith, l), h)
    | inr h ↦ inr h
  ]

  pub get_or-append_cases :
      (xs : List A) (j : ℕ) (v d : A)
      → ((j ≡ length xs) × (get_or (xs ++ (v ∷ [])) j d ≡ v))
        ⊎ (get_or (xs ++ (v ∷ [])) j d ≡ get_or xs j d)
  get_or-append_cases [] zero v d = inl (refl, refl)
  get_or-append_cases [] (suc j) v d = inr refl
  get_or-append_cases (x ∷ xs) zero v d = inr refl
  get_or-append_cases (x ∷ xs) (suc j) v d = elim (get_or-append_cases xs j v d) [
    | inl (e, h) ↦ inl (ap suc e, h)
    | inr h ↦ inr h
  ]

  pub get_or-append_new : (xs : List A) (v d : A) → get_or (xs ++ (v ∷ [])) (length xs) d ≡ v
  get_or-append_new [] v d = refl
  get_or-append_new (x ∷ xs) v d = get_or-append_new xs v d

  pub get_or-append_old :
      (xs ys : List A) (j : ℕ) (d : A) → j < length xs → get_or (xs ++ ys) j d ≡ get_or xs j d
  get_or-append_old [] ys j d h = ground (arith, h)
  get_or-append_old (x ∷ xs) ys zero d h = refl
  get_or-append_old (x ∷ xs) ys (suc j) d h = get_or-append_old xs ys j d (omega (arith, h))

  pub get_or-length : (xs : List A) (d : A) → get_or xs (length xs) d ≡ d
  get_or-length [] d = refl
  get_or-length (x ∷ xs) d = get_or-length xs d
