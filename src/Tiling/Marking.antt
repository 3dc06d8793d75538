-- ===== src/Tiling/Marking.antt =====
-- What the mark slices say: marking a range, testing it, and counting.
use aut_oscan_engine.Prelude.{
  ℕ, zero, suc, ◌+◌, ◌≡◌, ◌≤◌, ◌<◌, ◌≢◌, refl, Bool, true, false, ◌&&◌, ◌||◌, List, [], ◌∷◌, arith,
  ltb, leb, ◌==◌, if◌then◌else◌, length, length-set, set, replicate, Bool-cases, inl, inr,
}
use aut_oscan_engine.Tiling.{marked, token_at, is_marked, mark_range}

-- The positions `start .. start + n - 1`.
abbrev pub in_range : ℕ → ℕ → ℕ → Bool
in_range start n p = leb start p && ltb p (start + n)

pub marked-set :
    (m : List Bool) (i p : ℕ) → i < length m → marked (set m i true) p ≡ (p == i || marked m p)
marked-set [] i p h = elim h [ ]
marked-set (x ∷ m) zero zero h = ground arith
marked-set (x ∷ m) zero (suc p) h = ground arith
marked-set (x ∷ m) (suc i) zero h = ground arith
marked-set (x ∷ m) (suc i) (suc p) h = ground (arith, marked-set m i p)

pub marked-mark_range :
    (m : List Bool) (start n p : ℕ)
    → start + n ≤ length m
    → marked (mark_range m start n) p ≡ (in_range start n p || marked m p)
unfolding mark_range
marked-mark_range m start zero p h = ground arith
marked-mark_range m start (suc n) p h = ground (
  arith,
  marked-mark_range (set m start true) (start + 1) n p,
  length-set m start true,
  marked-set m start p,
)

pub length-mark_range : (m : List Bool) (start n : ℕ) → length (mark_range m start n) ≡ length m
unfolding mark_range
length-mark_range m start zero = refl
length-mark_range m start (suc n) =
    omega (arith, length-mark_range (set m start true) (start + 1) n, length-set m start true)

-- `isMarked` fails only on a range with no mark.
pub is_marked_free :
    (m : List Bool) (start n p : ℕ)
    → is_marked m start n ≡ false
    → start ≤ p
    → p < start + n
    → marked m p ≡ false
unfolding is_marked
is_marked_free m start zero p h lo hi = absurd (omega arith)
is_marked_free m start (suc n) p h lo hi = elim (Bool-cases (p == start)) [
  | inl e ↦ ground arith
  | inr e ↦ ground (arith, is_marked_free m (start + 1) n p)
]

pub is_marked_of_free :
    (m : List Bool) (start n : ℕ)
    → ((p : ℕ) → start ≤ p → p < start + n → marked m p ≡ false)
    → is_marked m start n ≡ false
unfolding is_marked
is_marked_of_free m start zero h = refl
is_marked_of_free m start (suc n) h =
    ground (
      arith,
      h start,
      is_marked_of_free m (start + 1) n (λ p lo hi. h p (omega arith) (omega arith)),
    )

-- How many positions are marked.
unfoldable pub count_marked : List Bool → ℕ
count_marked [] = 0
count_marked (x ∷ m) = (if x then 1 else 0) + count_marked m

count_marked-set :
    (m : List Bool) (i : ℕ)
    → i < length m
    → marked m i ≡ false
    → count_marked (set m i true) ≡ suc (count_marked m)
unfolding count_marked
count_marked-set [] i h f = elim h [ ]
count_marked-set (x ∷ m) zero h f = ground arith
count_marked-set (x ∷ m) (suc i) h f = ground (arith, count_marked-set m i)

is_marked_after :
    (m : List Bool) (start n : ℕ)
    → start < length m
    → is_marked m (start + 1) n ≡ false
    → is_marked (set m start true) (start + 1) n ≡ false
is_marked_after m start n h f =
    is_marked_of_free (set m start true) (start + 1) n
      (λ p lo hi. ground (arith, marked-set m start p, is_marked_free m (start + 1) n p))

pub count_marked-mark_range :
    (m : List Bool) (start n : ℕ)
    → start + n ≤ length m
    → is_marked m start n ≡ false
    → count_marked (mark_range m start n) ≡ n + count_marked m
unfolding mark_range is_marked
count_marked-mark_range m start zero h f = omega arith
count_marked-mark_range m start (suc n) h f = ground (
  arith,
  count_marked-set m start,
  length-set m start true,
  count_marked-mark_range (set m start true) (start + 1) n,
  is_marked_after m start n,
)

pub count_marked-replicate : (n : ℕ) → count_marked (replicate n false) ≡ 0
unfolding count_marked
count_marked-replicate zero = refl
count_marked-replicate (suc n) = omega (arith, count_marked-replicate n)

pub count_marked-le : (m : List Bool) → count_marked m ≤ length m
unfolding count_marked
count_marked-le [] = omega arith
count_marked-le (x ∷ m) = ground (arith, count_marked-le m)

-- The tokens that can match at all.
unfoldable pub count_tokens : List ℕ → ℕ
count_tokens [] = 0
count_tokens (t ∷ ts) = (if t == 0 then 0 else 1) + count_tokens ts

pub count_marked-le-count_tokens :
    (m : List Bool) (xs : List ℕ)
    → length m ≡ length xs
    → ((p : ℕ) → marked m p ≡ true → token_at xs p ≢ 0)
    → count_marked m ≤ count_tokens xs
unfolding count_marked count_tokens
count_marked-le-count_tokens [] xs e h = omega arith
count_marked-le-count_tokens (x ∷ m) [] e h = absurd (omega arith)
count_marked-le-count_tokens (x ∷ m) (t ∷ ts) e h =
    ground (arith, count_marked-le-count_tokens m ts (omega arith) (λ p. h (suc p)), h 0)
