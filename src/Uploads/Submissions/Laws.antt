-- ===== src/Uploads/Submissions/Laws.antt =====
-- The ids of the submissions are distinct.
use aut_oscan_engine.Prelude.{
  ℕ, ◌+◌, ◌≤◌, ◌≡◌, ◌≢◌, sym, ap, ◌∙◌, subst, List, [], ◌∷◌, ◌++◌, none, some, inl, inr, arith,
  Bool-cases, Option-cases, All, All-append, map,
}
use aut_oscan_engine.Prelude.Text.{Bytes, bytes_eq, bytes_eq_iff}
use aut_oscan_engine.Prelude.Maps.{insert, lookup-insert_same, lookup-insert_other, IsDistinct}
use aut_oscan_engine.Report.{Submission, number_at}
use aut_oscan_engine.Uploads.Disk.{Disk, Platform}
use aut_oscan_engine.Uploads.Submissions.{numbered, base_id, Gathered, gather, gather_all}
use aut_oscan_engine.Uploads.Submissions.Ids.{IsUnambiguous, numbered_injective, Adds, gather-Adds}

All-mono {ℓ κ} :
    {A : Type ℓ} (P Q : A → Type κ) → ((a : A) → P a → Q a) → (xs : List A) → All P xs → All Q xs
All-mono P Q f [] h = tt
All-mono P Q f (x ∷ xs) h = (f x h.0, All-mono P Q f xs h.1)

abbrev pub ids : List Submission → List Bytes
ids ss = map (λ s. s.id) ss

All-ids-append :
    (x : Bytes) (ss : List Submission) (s : Submission)
    → All (λ y. x ≢ y) (ids ss)
    → x ≢ s.id
    → All (λ y. x ≢ y) (ids (ss ++ (s ∷ [])))
All-ids-append x [] s h k = (k, tt)
All-ids-append x (t ∷ ss) s h k = (h.0, All-ids-append x ss s h.1 k)

IsDistinct-append :
    (ss : List Submission) (s : Submission)
    → IsDistinct (ids ss)
    → All (λ t. t.id ≢ s.id) ss
    → IsDistinct (ids (ss ++ (s ∷ [])))
IsDistinct-append [] s h k = (tt, tt)
IsDistinct-append (t ∷ ss) s h k =
    (All-ids-append t.id ss s h.0 k.0, IsDistinct-append ss s h.1 k.1)

number_at-insert :
    (m : List (Bytes × ℕ)) (b c : Bytes) (n : ℕ)
    → number_at m b ≤ n
    → (number_at (insert m b n) b ≡ n) × (number_at m c ≤ number_at (insert m b n) c)
number_at-insert m b c n h =
    let same : number_at (insert m b n) b ≡ n =
      ap (λ o. elim o [ none ↦ 0 | some n ↦ n ]) (lookup-insert_same m b n) in
    elim (Bool-cases (bytes_eq b c)) [
      | inl y ↦
          let e = (bytes_eq_iff b c).0 y in
          (same, subst (λ x. number_at m x ≤ number_at (insert m b n) x) e (omega (arith, same, h)))
      | inr k ↦
          let differ : b ≢ c = λ e. ground (arith, bytes_eq_iff b c) in
          let other : number_at (insert m b n) c ≡ number_at m c =
            ap (λ o. elim o [ none ↦ 0 | some n ↦ n ]) (lookup-insert_other m b c n differ) in
          (same, omega (arith, other))
    ]

-- The id of a submission is its base id with one of the numbers that were used for it.
abbrev IsId : (Bytes → Type 0) → List (Bytes × ℕ) → Bytes → Type 0
IsId P seen id =
    (b : Bytes) × (n : ℕ) × P b × (1 ≤ n) × (n ≤ number_at seen b) × (id ≡ numbered b n)

record AreNumbered (P : Bytes → Type 0) (g : Gathered) : Type 0 where
  numbers : All (λ s. IsId P g.seen s.id) g.submissions
  distinct : IsDistinct (ids g.submissions)

IsId-later :
    (P : Bytes → Type 0) (b : Bytes) (m : List (Bytes × ℕ)) (id : Bytes)
    → IsId P m id
    → IsId P (insert m b (number_at m b + 1)) id
IsId-later P b m id (c, n, pc, low, high, e) =
    (c, n, pc, low, omega (arith, high, number_at-insert m b c (number_at m b + 1)), e)

-- An id with the next number of its base differs from all before.
new_id_lem :
    (P : Bytes → Type 0) (b : Bytes) (m : List (Bytes × ℕ)) (id : Bytes)
    → IsUnambiguous P
    → P b
    → IsId P m id
    → id ≢ numbered b (number_at m b + 1)
new_id_lem P b m id u pb (c, n, pc, low, high, e) same =
    let n' = number_at m b + 1 in
    let (cb, nn) = numbered_injective P c b n n' u pc pb low (omega arith) (sym e ∙ same) in
    let high' : n ≤ number_at m b = subst (λ x. n ≤ number_at m x) cb high in
    omega (arith, nn, high')

step-AreNumbered :
    (P : Bytes → Type 0) (b : Bytes) (g g' : Gathered)
    → IsUnambiguous P
    → P b
    → let n = number_at g.seen b + 1 in
      g'.seen ≡ insert g.seen b n → Adds (numbered b n) g g' → AreNumbered P g → AreNumbered P g'
step-AreNumbered P b g g' u pb seen adds h =
    let n = number_at g.seen b + 1 in
    let old : All (λ s. IsId P (insert g.seen b n) s.id) g.submissions =
      All-mono _ _ (λ s. IsId-later P b g.seen s.id) g.submissions h.numbers in
    elim adds [
      | inl same ↦ record { numbers = rw (same, seen) old; distinct = rw same h.distinct }
      | inr (s, is, more) ↦
          let count = number_at-insert g.seen b b n (omega arith) in
          let own : IsId P (insert g.seen b n) s.id =
            (b, n, pb, omega arith, omega (arith, count), is) in
          record {
            numbers = rw (more, seen) (All-append _ g.submissions (s ∷ []) old (own, tt));
            distinct = rw more (
                IsDistinct-append g.submissions s h.distinct (
                  All-mono _ _ (λ t i. rw is (new_id_lem P b g.seen t.id u pb i)) g.submissions
                    h.numbers));
          }
    ]

gather_all-AreNumbered :
    (P : Bytes → Type 0) (os : Platform) (src_dir dest_dir : Bytes) (paths : List Bytes)
    (g : Gathered)
    → IsUnambiguous P
    → All (λ p. P (base_id os.to_lower src_dir p)) paths
    → AreNumbered P g
    → AreNumbered P (gather_all os src_dir dest_dir paths g).0
unfolding gather_all
gather_all-AreNumbered P os src_dir dest_dir [] g u hp h = h
gather_all-AreNumbered P os src_dir dest_dir (path ∷ paths) g u hp h =
    let (g', err) = gather os src_dir dest_dir path g in
    let (seen, adds) = gather-Adds os src_dir dest_dir path g in
    let b = base_id os.to_lower src_dir path in
    let step = step-AreNumbered P b g g' u hp.0 seen adds h in
    elim (Option-cases err) [
      | inl e ↦
          rw (e, gather_all) (gather_all-AreNumbered P os src_dir dest_dir paths g' u hp.1 step)
      | inr (x, e) ↦ rw (e, gather_all) step
    ]

-- The submissions found in a folder of archives have distinct ids, whatever the archives hold and
-- wherever the walk stops, if no archive's base id (its folder, or its name at the top) is that of
-- an archive with a dash and a number from 2 on behind it.
pub gather_all-IsDistinct :
    (P : Bytes → Type 0) (os : Platform) (src_dir dest_dir : Bytes) (paths : List Bytes) (d : Disk)
    → IsUnambiguous P
    → All (λ p. P (base_id os.to_lower src_dir p)) paths
    → let start : Gathered = record {
      disk = d;
      seen = [];
      submissions = [];
      source_by_id = [];
      files_by_id = [];
    } in
      IsDistinct (ids (gather_all os src_dir dest_dir paths start).0.submissions)
gather_all-IsDistinct P os src_dir dest_dir paths d u hp =
    (gather_all-AreNumbered P os src_dir dest_dir paths _ u hp
      (record { numbers = tt; distinct = tt })).distinct
