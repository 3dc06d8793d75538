-- ===== src/Prelude/Ends.antt =====
-- Texts and the newline at their end.
use aut_oscan_engine.Prelude.{
  ℕ, zero, suc, ◌-◌, ◌≡◌, ◌∙◌, refl, sym, ap, true, List, [], ◌∷◌, ◌++◌, arith, length,
  length-append, take, drop,
}
use aut_oscan_engine.Prelude.Text.{Bytes, bytes_eq, bytes_eq_iff, has_suffix, trim_suffix}

pub take-drop {ℓ} : {A : Type ℓ} (n : ℕ) (xs : List A) → take n xs ++ drop n xs ≡ xs
take-drop zero xs = refl
take-drop (suc n) [] = refl
take-drop (suc n) (x ∷ xs) = ap (λ r. x ∷ r) (take-drop n xs)

abbrev pub newline : Bytes
newline = b'\n' ∷ []

pub ends_lem :
    (src : Bytes) → has_suffix src newline ≡ true → src ≡ trim_suffix src newline ++ newline
unfolding has_suffix trim_suffix
ends_lem src h =
    let n = length src - 1 in
    let tail : drop n src ≡ newline = ground (arith, h, bytes_eq_iff (drop n src) newline) in
    sym (rw h (ap (λ r. take n src ++ r) (sym tail) ∙ take-drop n src))

drop-append : (s t : Bytes) → drop (length s) (s ++ t) ≡ t
drop-append [] t = refl
drop-append (c ∷ s) t = drop-append s t

pub has_suffix-append : (s : Bytes) → has_suffix (s ++ newline) newline ≡ true
unfolding has_suffix
has_suffix-append s =
    let size = length-append s newline in
    let at_end : length (s ++ newline) - 1 ≡ length s = omega (arith, size) in
    let tail : drop (length (s ++ newline) - 1) (s ++ newline) ≡ newline =
      ap (λ n. drop n (s ++ newline)) at_end ∙ drop-append s newline in
    let found : bytes_eq (drop (length (s ++ newline) - 1) (s ++ newline)) newline ≡ true =
      (bytes_eq_iff (drop (length (s ++ newline) - 1) (s ++ newline)) newline).1 tail in
    ground (arith, size, found)

pub newline-cancel : (s t : Bytes) → s ++ newline ≡ t ++ newline → s ≡ t
newline-cancel [] [] e = refl
newline-cancel [] (d ∷ t) e = absurd (ground (arith, ap length e, length-append t newline))
newline-cancel (c ∷ s) [] e = absurd (ground (arith, ap length e, length-append s newline))
newline-cancel (c ∷ s) (d ∷ t) e = ground (arith, e, newline-cancel s t)
