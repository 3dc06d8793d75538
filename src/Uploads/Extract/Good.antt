-- ===== src/Uploads/Extract/Good.antt =====
-- What every operation of an extraction keeps: the files outside the folder, and the byte budget.
use aut_oscan_engine.Prelude.{
  ℕ, ◌+◌, ◌≤◌, ◌≡◌, refl, subst, ◌∙◌, Bool, true, List, [], ◌∷◌, Option, none, some, ltb, inl, inr,
  arith, Bool-cases, length, length-take-le,
}
use aut_oscan_engine.Prelude.Text.{Bytes}
use aut_oscan_engine.Prelude.Maps.{lookup, insert, lookup-insert_other}
use aut_oscan_engine.Uploads.Paths.Laws.{IsInside}
use aut_oscan_engine.Uploads.Disk.{
  Disk, UploadError, system_error, Platform, Round, at_budget, mkdir_all, copy_limited, store_file,
}
use aut_oscan_engine.Uploads.Extract.{and_then}

-- Files outside the folder `root` are as they were.
abbrev pub IsConfined : Bytes → Disk → Disk → Type 0
IsConfined root d d' =
    (path : Bytes) → ¬ IsInside root path → lookup d'.files path ≡ lookup d.files path

-- The number of bytes in all files.
pub files_size : List (Bytes × Bytes) → ℕ
files_size [] = 0
files_size (f ∷ fs) = length f.1 + files_size fs

-- The bytes that were written are those that were taken off the budget, and one more at most where
-- there was an error.
abbrev pub IsWithin : ℕ → Disk → Round → Type 0
IsWithin budget d (b, d', none) = files_size d'.files + b ≤ files_size d.files + budget
IsWithin budget d (b, d', some e) = files_size d'.files ≤ files_size d.files + budget + 1

pub record IsGood (root : Bytes) (budget : ℕ) (d : Disk) (r : Round) : Type 0 where
  pub confined : IsConfined root d r.1
  pub within : IsWithin budget d r

files_size-insert :
    (m : List (Bytes × Bytes)) (k v : Bytes) → files_size (insert m k v) ≤ files_size m + length v
unfolding files_size insert
files_size-insert [] k v = omega arith
files_size-insert (f ∷ m) k v = ground (arith, files_size-insert m k v)

pub unchanged-IsGood :
    (root : Bytes) (budget : ℕ) (d : Disk) (err : Option UploadError)
    → IsGood root budget d (budget, d, err)
unchanged-IsGood root budget d none = record { confined = λ path h. refl; within = omega arith }
unchanged-IsGood root budget d (some e) = record { confined = λ path h. refl; within = omega arith }

IsWithin-later :
    (budget b : ℕ) (d d' : Disk) (r : Round)
    → files_size d'.files + b ≤ files_size d.files + budget
    → IsWithin b d' r
    → IsWithin budget d r
IsWithin-later budget b d d' (b'', d'', none) h k = omega (arith, h, k)
IsWithin-later budget b d d' (b'', d'', some e) h k = omega (arith, h, k)

pub and_then-IsGood :
    (root : Bytes) (budget : ℕ) (d : Disk) (r : Round) (next : ℕ → Disk → Round)
    → IsGood root budget d r
    → ((b : ℕ) (d' : Disk) → IsGood root b d' (next b d'))
    → IsGood root budget d (and_then r next)
and_then-IsGood root budget d (b, d', some e) next h k = h
and_then-IsGood root budget d (b, d', none) next h k = record {
  confined = λ path out. (k b d').confined path out ∙ h.confined path out;
  within = IsWithin-later budget b d d' (next b d') h.within (k b d').within;
}

pub mkdir_all-IsGood :
    (os : Platform) (root path : Bytes) (budget : ℕ) (d : Disk)
    → IsGood root budget d (at_budget budget (mkdir_all os path d))
unfolding mkdir_all
mkdir_all-IsGood os root path budget d = elim (Bool-cases (os.mkdir_ok d path)) [
  | inl y ↦ rw y (record { confined = λ p h. refl; within = omega arith })
  | inr n ↦ rw n (unchanged-IsGood root budget d (some system_error))
]

length-copy_limited-le :
    (budget : ℕ) (content : Bytes) (breaks : Bool)
    → let r = copy_limited (budget + 1) content breaks in
      (length r.0 ≤ budget + 1) × (r.1 ≡ true → length r.0 ≤ budget)
unfolding copy_limited
length-copy_limited-le budget content breaks = ground (arith, length-take-le (budget + 1) content)

-- A file that is written in the folder.
written-IsConfined :
    (root path content : Bytes) (d : Disk)
    → IsInside root path
    → IsConfined root d (record d { files = insert d.files path content })
written-IsConfined root path content d h p out =
    lookup-insert_other d.files path p content (λ e. out (subst (IsInside root) e h))

pub store_file-IsGood :
    (os : Platform) (root too_large path content : Bytes) (breaks : Bool) (budget : ℕ) (d : Disk)
    → IsInside root path
    → IsGood root budget d (store_file os too_large path content breaks budget d)
unfolding store_file
store_file-IsGood os root too_large path content breaks budget d h =
    let (copied, failed) = copy_limited (budget + 1) content breaks in
    let bound = length-copy_limited-le budget content breaks in
    let small = files_size-insert d.files path copied in
    let confined = written-IsConfined root path copied d h in
    elim (Bool-cases (os.create_ok d path)) [
      | inr n ↦ rw n (unchanged-IsGood root budget d (some system_error))
      | inl y ↦ rw y (elim (Bool-cases failed) [
        | inl f ↦ rw f (record { confined = confined; within = omega (arith, bound, small) })
        | inr f ↦ rw f (elim (Bool-cases (ltb budget (length copied))) [
          | inl l ↦ rw l (record { confined = confined; within = omega (arith, bound, small) })
          | inr l ↦ rw l (record { confined = confined; within = ground (arith, bound, small, l) })
        ])
      ])
    ]
