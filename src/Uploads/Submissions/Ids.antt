-- ===== src/Uploads/Submissions/Ids.antt =====
-- Which ids the submissions of a folder of archives get.
use aut_oscan_engine.Prelude.{
  ℕ, zero, suc, ◌+◌, ◌-◌, ◌*◌, ◌/◌, ◌%◌, ◌≤◌, ◌<◌, ◌≡◌, ◌≢◌, refl, sym, ap, ◌∙◌, List, [], ◌∷◌,
  ◌++◌, Option, none, some, some_eq, ltb, inl, inr, ◌⊎◌, arith, Bool-cases, All, All-append,
}
use aut_oscan_engine.Prelude.Text.{Bytes, bytes_eq}
use aut_oscan_engine.Prelude.Maps.{insert}
use aut_oscan_engine.Report.{Submission, number_at}
use aut_oscan_engine.Valgrind.{parse_digits}
use aut_oscan_engine.Uploads.Paths.{join}
use aut_oscan_engine.Uploads.Extract.{extract_archive}
use aut_oscan_engine.Uploads.Sources.{SandboxFile}
use aut_oscan_engine.Uploads.Disk.{Disk, UploadError, Platform}
use aut_oscan_engine.Uploads.Submissions.{
  digits_of, decimal, numbered, base_id, Gathered, register, add_sources, add_submission,
  read_sources, gather_extracted, gather,
}

-- A decimal text goes on with its last digit.
parse_digits-append :
    (s : Bytes) (acc d n : ℕ)
    → d < 10
    → parse_digits acc s ≡ some n
    → parse_digits acc (s ++ ((b'0' + d) ∷ [])) ≡ some (n * 10 + d)
unfolding parse_digits
parse_digits-append [] acc d n l h = ground (arith, h, l)
parse_digits-append (c ∷ s) acc d n l h =
    ground (arith, h, parse_digits-append s (acc * 10 + (c - b'0')) d n l)

parse_digits-digits_of : (fuel n : ℕ) → n ≤ fuel → parse_digits 0 (digits_of fuel n) ≡ some n
unfolding digits_of
parse_digits-digits_of zero n h = unfold parse_digits in ground (arith, h)
parse_digits-digits_of (suc fuel) n h = elim (Bool-cases (ltb n 10)) [
  | inl y ↦ rw y (unfold parse_digits in ground (arith, y))
  | inr l ↦ rw l (
      parse_digits-append (digits_of fuel (n / 10)) 0 (n % 10) (n / 10) (omega arith)
        (parse_digits-digits_of fuel (n / 10) (ground (arith, h, l)))
      ∙ ap some (omega arith))
]

decimal_injective : (m n : ℕ) → decimal m ≡ decimal n → m ≡ n
unfolding decimal
decimal_injective m n e = some_eq (
    sym (parse_digits-digits_of m m (omega arith))
    ∙ (ap (parse_digits 0) e ∙ parse_digits-digits_of n n (omega arith)))

abbrev HasNoDash : Bytes → Type 0
HasNoDash s = All (λ c. c ≢ b'-') s

digits_of-HasNoDash : (fuel n : ℕ) → HasNoDash (digits_of fuel n)
unfolding digits_of
digits_of-HasNoDash zero n = (λ e. omega (arith, e), tt)
digits_of-HasNoDash (suc fuel) n = elim (Bool-cases (ltb n 10)) [
  | inl y ↦ rw y (λ e. omega (arith, e), tt)
  | inr l ↦ rw l (
      All-append (λ c. c ≢ b'-') (digits_of fuel (n / 10)) _ (digits_of-HasNoDash fuel (n / 10))
        (λ e. omega (arith, e), tt))
]

no_dash_in : (s t u : Bytes) → HasNoDash s → ¬ (s ≡ t ++ (b'-' ∷ u))
no_dash_in [] [] u h e = cc
no_dash_in [] (d ∷ t) u h e = cc
no_dash_in (c ∷ s) [] u h e = h.0 cc
no_dash_in (c ∷ s) (d ∷ t) u h e = no_dash_in s t u h.1 cc

-- A text is cut in one way at its last dash.
dash_lem :
    (a b x y : Bytes)
    → HasNoDash x
    → HasNoDash y
    → a ++ (b'-' ∷ x) ≡ b ++ (b'-' ∷ y)
    → (a ≡ b) × (x ≡ y)
dash_lem [] [] x y hx hy e = (refl, cc)
dash_lem [] (d ∷ b) x y hx hy e = absurd (no_dash_in x b y hx cc)
dash_lem (c ∷ a) [] x y hx hy e = absurd (no_dash_in y a x hy cc)
dash_lem (c ∷ a) (d ∷ b) x y hx hy e = let (s, t) = dash_lem a b x y hx hy cc in (cc, t)

-- None of the base ids is another with a dash and a number from 2 on behind it.
abbrev pub IsUnambiguous : (Bytes → Type 0) → Type 0
IsUnambiguous P = (b c : Bytes) (n : ℕ) → P b → P c → 2 ≤ n → b ≢ c ++ (b'-' ∷ decimal n)

pub numbered_injective :
    (P : Bytes → Type 0) (b c : Bytes) (m n : ℕ)
    → IsUnambiguous P
    → P b
    → P c
    → 1 ≤ m
    → 1 ≤ n
    → numbered b m ≡ numbered c n
    → (b ≡ c) × (m ≡ n)
unfolding numbered
numbered_injective P b c m n u pb pc hm hn e = elim (Bool-cases (ltb 1 m)) [
  | inl y ↦ elim (Bool-cases (ltb 1 n)) [
    | inl z ↦
        let e' : b ++ (b'-' ∷ decimal m) ≡ c ++ (b'-' ∷ decimal n) = rw (y, z) at e in
        let (s, t) =
          dash_lem b c _ _ (unfold decimal in digits_of-HasNoDash m m)
            (unfold decimal in digits_of-HasNoDash n n) e' in
        (s, decimal_injective m n t)
    | inr z ↦
        let e' : b ++ (b'-' ∷ decimal m) ≡ c = rw (y, z) at e in
        absurd (u c b m pc pb (ground (arith, y)) (sym e'))
  ]
  | inr y ↦ elim (Bool-cases (ltb 1 n)) [
    | inl z ↦
        let e' : b ≡ c ++ (b'-' ∷ decimal n) = rw (y, z) at e in
        absurd (u b c n pb pc (ground (arith, z)) e')
    | inr z ↦ (rw (y, z) at e, ground (arith, y, z))
  ]
]

-- An operation adds no submission, or one with the id.
abbrev pub Adds : Bytes → Gathered → Gathered → Type 0
Adds id g g' =
    (g'.submissions ≡ g.submissions)
    ⊎ ((s : Submission) × (s.id ≡ id) × (g'.submissions ≡ g.submissions ++ (s ∷ [])))

register-Adds :
    (id sub_dir : Bytes) (sources : Bytes × List SandboxFile) (w : Disk × Option UploadError)
    (g : Gathered)
    → let g' = (register id sub_dir sources w g).0 in (g'.seen ≡ g.seen) × Adds id g g'
unfolding register
register-Adds id sub_dir sources (d, some e) g = (refl, inl refl)
register-Adds id sub_dir sources (d, none) g = (refl, inr (_, refl, refl))

add_sources-Adds :
    (os : Platform) (id sub_dir : Bytes) (sources : Option (Bytes × List SandboxFile))
    (g : Gathered)
    → let g' = (add_sources os id sub_dir sources g).0 in (g'.seen ≡ g.seen) × Adds id g g'
unfolding add_sources
add_sources-Adds os id sub_dir none g = (refl, inl refl)
add_sources-Adds os id sub_dir (some sources) g = elim (Bool-cases (bytes_eq sources.0 [])) [
  | inl y ↦ rw y (refl, inl refl)
  | inr n ↦ rw n (register-Adds id sub_dir sources _ g)
]

gather_extracted-Adds :
    (os : Platform) (id sub_dir : Bytes) (w : Disk × Option UploadError) (g : Gathered)
    → let g' = (gather_extracted os id sub_dir w g).0 in (g'.seen ≡ g.seen) × Adds id g g'
unfolding gather_extracted
gather_extracted-Adds os id sub_dir (d, some e) g = (refl, inl refl)
gather_extracted-Adds os id sub_dir (d, none) g =
    unfold add_submission in
    add_sources-Adds os id sub_dir (read_sources os sub_dir d) (record g { disk = d })

pub gather-Adds :
    (os : Platform) (src_dir dest_dir path : Bytes) (g : Gathered)
    → let g' = (gather os src_dir dest_dir path g).0 in
      let b = base_id os.to_lower src_dir path in
      let n = number_at g.seen b + 1 in (g'.seen ≡ insert g.seen b n) × Adds (numbered b n) g g'
unfolding gather
gather-Adds os src_dir dest_dir path g =
    let b = base_id os.to_lower src_dir path in
    let n = number_at g.seen b + 1 in
    let sub_dir = join dest_dir (numbered b n) in
    gather_extracted-Adds os (numbered b n) sub_dir (extract_archive os path sub_dir g.disk)
      (record g { seen = insert g.seen b n })
