-- ===== src/Uploads/Extract/Entries.antt =====
-- The loops over an archive's entries keep the files outside the folder, and the byte budget.
use Prim.Native.String.{String}
use aut_oscan_engine.Prelude.{
  ℕ, ◌+◌, ◌≡◌, Bool, true, false, List, [], ◌∷◌, none, some, ltb, inl, inr, arith, Bool-cases,
  Option-cases,
}
use aut_oscan_engine.Prelude.Text.{Bytes, bytes_eq_iff}
use aut_oscan_engine.Uploads.Paths.{join, abs, dir}
use aut_oscan_engine.Uploads.Paths.Laws.{IsInside, IsAllowed, IsRooted, IsAllowed-IsInside}
use aut_oscan_engine.Uploads.Disk.{
  Disk, system_error, bad_request, EntryType, TarEntry, type_dir, type_reg, type_other, ZipEntry,
  Platform, Round, at_budget, mkdir_all, store_file,
}
use aut_oscan_engine.Uploads.Extract.{
  max_zip_entries, is_inside, checked, zip_entry, tar_entry, tar_round, tar_loop, write_zip_entry,
  zip_round, zip_loop,
}
use aut_oscan_engine.Uploads.Extract.Good.{
  IsGood, unchanged-IsGood, and_then-IsGood, mkdir_all-IsGood, store_file-IsGood,
}

is_inside-IsAllowed : (root target : Bytes) → is_inside root target ≡ true → IsAllowed root target
unfolding is_inside
is_inside-IsAllowed root target h = ground (arith, h, bytes_eq_iff target root)

-- What is good for every target in the folder is good after the check.
checked-IsGood :
    (os : Platform) (dest root name : Bytes) (msg : String) (budget : ℕ) (d : Disk)
    (store : Bytes → Round)
    → IsRooted os.cwd
    → abs os.cwd dest ≡ some root
    → ((target : Bytes) → IsInside root target → IsGood root budget d (store target))
    → IsGood root budget d (checked os dest root name msg budget d store)
unfolding checked
checked-IsGood os dest root name msg budget d store h er k =
    elim (Option-cases (abs os.cwd (join dest name))) [
      | inl e ↦ rw (e, checked) (unchanged-IsGood root budget d (some system_error))
      | inr (target, e) ↦
          rw (e, checked)
            (elim (Bool-cases (is_inside root target)) [
              | inl y ↦ rw y (
                  k target (
                    IsAllowed-IsInside os.cwd dest (join dest name) root target h er e
                      (is_inside-IsAllowed root target y)))
              | inr n ↦ rw n (unchanged-IsGood root budget d (some (bad_request msg)))
            ])
    ]

tar_entry-IsGood :
    (os : Platform) (root target : Bytes) (type : EntryType) (e : TarEntry) (budget : ℕ) (d : Disk)
    → IsInside root target
    → IsGood root budget d (tar_entry os target type e budget d)
unfolding tar_entry
tar_entry-IsGood os root target type_dir e budget d h = mkdir_all-IsGood os root target budget d
tar_entry-IsGood os root target type_reg e budget d h =
    let made = at_budget budget (mkdir_all os (dir target) d) in
    and_then-IsGood root budget d made (store_file os _ target e.content e.breaks)
      (mkdir_all-IsGood os root (dir target) budget d)
      (λ b d'. store_file-IsGood os root _ target e.content e.breaks b d' h)
tar_entry-IsGood os root target type_other e budget d h = unchanged-IsGood root budget d none

zip_entry-IsGood :
    (os : Platform) (root target : Bytes) (e : ZipEntry) (budget : ℕ) (d : Disk)
    → IsInside root target
    → IsGood root budget d (zip_entry os target e budget d)
unfolding zip_entry write_zip_entry
zip_entry-IsGood os root target e budget d h = elim (Bool-cases e.is_dir) [
  | inl y ↦ rw y (mkdir_all-IsGood os root target budget d)
  | inr n ↦ rw n (
      and_then-IsGood root budget d (at_budget budget (mkdir_all os (dir target) d))
        (write_zip_entry os target e) (mkdir_all-IsGood os root (dir target) budget d)
        (λ b d'. elim (Bool-cases e.opens) [
          | inl y ↦ rw y (store_file-IsGood os root _ target e.content e.breaks b d' h)
          | inr n ↦ rw n (unchanged-IsGood root b d' (some system_error))
        ]))
]

-- The loops, in a folder whose absolute path is `root`.
module _ (os : Platform) (dest root : Bytes) (h : IsRooted os.cwd)
    (er : abs os.cwd dest ≡ some root) where
  pub tar_loop-IsGood :
      (ends_well : Bool) (es : List TarEntry) (n budget : ℕ) (d : Disk)
      → IsGood root budget d (tar_loop os dest root ends_well es n budget d)
  unfolding tar_loop tar_round
  tar_loop-IsGood true [] n budget d = unchanged-IsGood root budget d none
  tar_loop-IsGood false [] n budget d = unchanged-IsGood root budget d _
  tar_loop-IsGood ends_well (e ∷ es) n budget d =
      and_then-IsGood root budget d (tar_round os dest root (n + 1) e budget d)
        (tar_loop os dest root ends_well es (n + 1))
        (elim (Bool-cases (ltb max_zip_entries (n + 1))) [
          | inl y ↦ rw y (unchanged-IsGood root budget d _)
          | inr l ↦ rw l (
              checked-IsGood os dest root e.name "archive contains an invalid path" budget d
                (λ target. tar_entry os target e.entry_type e budget d) h er
                (λ target i. tar_entry-IsGood os root target e.entry_type e budget d i))
        ])
        (λ b d'. tar_loop-IsGood ends_well es (n + 1) b d')

  pub zip_loop-IsGood :
      (es : List ZipEntry) (budget : ℕ) (d : Disk)
      → IsGood root budget d (zip_loop os dest root es budget d)
  unfolding zip_loop zip_round
  zip_loop-IsGood [] budget d = unchanged-IsGood root budget d none
  zip_loop-IsGood (e ∷ es) budget d =
      and_then-IsGood root budget d (zip_round os dest root e budget d) (zip_loop os dest root es)
        (checked-IsGood os dest root e.name "zip archive contains an invalid path" budget d
          (λ target. zip_entry os target e budget d) h er
          (λ target i. zip_entry-IsGood os root target e budget d i))
        (λ b d'. zip_loop-IsGood es b d')
