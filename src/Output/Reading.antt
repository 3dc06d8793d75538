-- ===== src/Output/Reading.antt =====
-- Which texts of two outputs are compared, said apart from the code.
use aut_oscan_engine.Prelude.{
  ℕ, ◌≡◌, ◌≢◌, ◌∙◌, ◌⊎◌, ◌↔◌, refl, sym, ap, subst, true, false, ◌&&◌, [], ◌∷◌, ◌++◌, arith, ◌==◌,
  Bool-cases, inl, inr,
}
use aut_oscan_engine.Prelude.Text.{Bytes, bytes_eq_iff, has_suffix, trim_suffix}
use aut_oscan_engine.Prelude.Ends.{newline, ends_lem, has_suffix-append, newline-cancel}
use aut_oscan_engine.Output.{pass, fail, replace_crlf, normalize, compute_output_diff}

-- A text and what it reads as: "\r\n" as "\n", and every other byte as itself.
pub data Reads : Bytes → Bytes → Type 0 where
  at_end : Reads [] []
  line_end : {s t : Bytes} → Reads s t → Reads (b'\r' ∷ b'\n' ∷ s) (b'\n' ∷ t)
  other :
      {s t : Bytes} (c : ℕ)
      → ((r : Bytes) → c ∷ s ≢ b'\r' ∷ b'\n' ∷ r)
      → Reads s t
      → Reads (c ∷ s) (c ∷ t)

-- A text without the one newline at its end, if it has one.
abbrev pub IsBody : Bytes → Bytes → Type 0
IsBody t body = (t ≡ body ++ newline) ⊎ ((t ≡ body) × ((r : Bytes) → t ≢ r ++ newline))

-- What of an output is compared.
abbrev pub IsCompared : Bytes → Bytes → Type 0
IsCompared output body = (t : Bytes) × Reads output t × IsBody t body

replace_crlf_end :
    (c : ℕ) (s : Bytes)
    → ((r : Bytes) → c ∷ s ≢ b'\r' ∷ b'\n' ∷ r)
    → replace_crlf (c ∷ s) ≡ c ∷ replace_crlf s
unfolding replace_crlf
replace_crlf_end c [] h = ground arith
replace_crlf_end c (d ∷ s) h = ground (arith, h s)

replace_crlf_pair : (s : Bytes) → replace_crlf (b'\r' ∷ b'\n' ∷ s) ≡ b'\n' ∷ replace_crlf s
unfolding replace_crlf
replace_crlf_pair s = refl

Reads-replace_crlf : (s : Bytes) → Reads s (replace_crlf s)
Reads-replace_crlf [] = unfold replace_crlf in at_end
Reads-replace_crlf (c ∷ []) =
    let alone : (r : Bytes) → c ∷ [] ≢ b'\r' ∷ b'\n' ∷ r = λ r e. ground (arith, e) in
    subst (Reads (c ∷ [])) (sym (replace_crlf_end c [] alone))
      (other c alone (Reads-replace_crlf []))
Reads-replace_crlf (c ∷ d ∷ s) = elim (Bool-cases (c == b'\r' && d == b'\n')) [
  | inl y ↦
      let is_return : c ≡ b'\r' = ground (arith, y) in
      let is_newline : d ≡ b'\n' = ground (arith, y) in
      subst (λ x. Reads (x ∷ d ∷ s) (replace_crlf (x ∷ d ∷ s))) (sym is_return)
        (subst (λ x. Reads (b'\r' ∷ x ∷ s) (replace_crlf (b'\r' ∷ x ∷ s))) (sym is_newline)
          (subst (Reads (b'\r' ∷ b'\n' ∷ s)) (sym (replace_crlf_pair s))
            (line_end (Reads-replace_crlf s))))
  | inr n ↦
      let apart : (r : Bytes) → c ∷ d ∷ s ≢ b'\r' ∷ b'\n' ∷ r = λ r e. ground (arith, n, e) in
      subst (Reads (c ∷ d ∷ s)) (sym (replace_crlf_end c (d ∷ s) apart))
        (other c apart (Reads-replace_crlf (d ∷ s)))
]

Reads-only : {s t : Bytes} → Reads s t → t ≡ replace_crlf s
Reads-only at_end = unfold replace_crlf in refl
Reads-only (line_end {s} r) = ap (λ u. b'\n' ∷ u) (Reads-only r) ∙ sym (replace_crlf_pair s)
Reads-only (other {s} c h r) = ap (λ u. c ∷ u) (Reads-only r) ∙ sym (replace_crlf_end c s h)

IsBody-trim_suffix : (t : Bytes) → IsBody t (trim_suffix t newline)
IsBody-trim_suffix t = elim (Bool-cases (has_suffix t newline)) [
  | inl y ↦ inl (ends_lem t y)
  | inr n ↦ inr (
    (unfold trim_suffix in rw n refl),
    λ r e. false-not-true (sym n ∙ (ap (λ u. has_suffix u newline) e ∙ has_suffix-append r)),
  )
]
  where
    false-not-true : ¬ (false ≡ true)
    false-not-true e = cc

IsBody-only : (t body : Bytes) → IsBody t body → body ≡ trim_suffix t newline
IsBody-only t body (inl e) =
    let ended : has_suffix t newline ≡ true =
      ap (λ u. has_suffix u newline) e ∙ has_suffix-append body in
    newline-cancel body (trim_suffix t newline) (sym e ∙ ends_lem t ended)
IsBody-only t body (inr (e, h)) = elim (Bool-cases (has_suffix t newline)) [
  | inl y ↦ absurd (h (trim_suffix t newline) (ends_lem t y))
  | inr n ↦ unfold trim_suffix in rw n (sym e)
]

IsCompared-normalize : (s : Bytes) → IsCompared s (normalize s)
unfolding normalize
IsCompared-normalize s = (replace_crlf s, Reads-replace_crlf s, IsBody-trim_suffix (replace_crlf s))

IsCompared-only : (s body : Bytes) → IsCompared s body → body ≡ normalize s
unfolding normalize
IsCompared-only s body (t, r, b) =
    IsBody-only t body b ∙ ap (λ u. trim_suffix u newline) (Reads-only r)

-- Two outputs have a text in common that is compared.
abbrev pub IsAlike : Bytes → Bytes → Type 0
IsAlike expected actual = (body : Bytes) × IsCompared expected body × IsCompared actual body

IsAlike-iff :
    (expected actual : Bytes) → IsAlike expected actual ↔ (normalize expected ≡ normalize actual)
IsAlike-iff expected actual = (
  λ (body, he, ha). sym (IsCompared-only expected body he) ∙ IsCompared-only actual body ha,
  λ e. (
    normalize expected,
    IsCompared-normalize expected,
    subst (IsCompared actual) (sym e) (IsCompared-normalize actual),
  ),
)

-- The status is a match exactly if the two outputs are alike: if they are the same text once "\r\n"
-- is read as "\n", and every other byte as itself, and one newline at the end is left out. It is a
-- failure exactly if they are not, and a match has no diff.
pub compute_output_diff_status :
    (expected actual : Bytes)
    → let (status, diff) = compute_output_diff expected actual in
      ((status ≡ pass) ↔ IsAlike expected actual)
      × ((status ≡ fail) ↔ (¬ IsAlike expected actual))
      × (status ≡ pass → diff ≡ [])
unfolding compute_output_diff
compute_output_diff_status expected actual =
    let eq = bytes_eq_iff (normalize expected) (normalize actual) in
    let alike = IsAlike-iff expected actual in
    let passes : ((compute_output_diff expected actual).0 ≡ pass)
        ↔ (normalize expected ≡ normalize actual) =
      (ground (arith, eq), ground (arith, eq)) in
    let fails : ((compute_output_diff expected actual).0 ≡ fail)
        ↔ (normalize expected ≢ normalize actual) =
      (ground (arith, eq), ground (arith, eq)) in
    (
      (λ h. alike.1 (passes.0 h), λ h. passes.1 (alike.0 h)),
      (λ h k. fails.0 h (alike.0 k), λ h. fails.1 (λ e. h (alike.1 e))),
      ground arith,
    )
