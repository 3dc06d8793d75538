-- ===== src/Server/Progress/Entries.antt =====
-- The entries of the progress tracker by their tokens, of which none has two.
use aut_oscan_engine.Prelude.{
  ℕ, ◌-◌, ◌≡◌, ◌≢◌, ◌∙◌, refl, sym, ap, true, false, [], ◌∷◌, Option, none, some, Bool-cases, inl,
  inr, arith, ltb, if◌then◌else◌,
}
use aut_oscan_engine.Prelude.Text.{Bytes, bytes_eq, bytes_eq_iff}
use aut_oscan_engine.Prelude.Maps.{
  lookup, insert, delete, lookup-insert_same, lookup-insert_other, lookup-delete_same,
  lookup-delete_other,
}
use aut_oscan_engine.Server.Progress.{ProgressEntry, Tracker, entry_ttl, expire}

-- No token has two entries.
abbrev pub IsUnique : Tracker → Type 0
IsUnique [] = Unit
IsUnique (x ∷ t) = (lookup t x.0 ≡ none) × IsUnique t

abbrev pub show : Bytes → ProgressEntry → Tracker → Bytes → Option ProgressEntry
show token e t k = if bytes_eq token k then some e else lookup t k

-- What `expire` leaves of an entry.
abbrev pub still_shown : ℕ → Option ProgressEntry → Option ProgressEntry
still_shown now none = none
still_shown now (some e) = if ltb entry_ttl (now - e.updated_at) then none else some e

pub lookup-insert :
    (t : Tracker) (token k : Bytes) (e : ProgressEntry)
    → lookup (insert t token e) k ≡ show token e t k
lookup-insert t token k e = elim (Bool-cases (bytes_eq token k)) [
  | inl y ↦ rw y (
      ap (lookup (insert t token e)) (sym ((bytes_eq_iff token k).0 y))
      ∙ lookup-insert_same t token e)
  | inr n ↦
      let differ : token ≢ k = λ q. ground (arith, n, bytes_eq_iff token k, q) in
      rw n (lookup-insert_other t token k e differ)
]

pub lookup-delete :
    (t : Tracker) (token k : Bytes)
    → lookup (delete t token) k ≡ (if bytes_eq token k then none else lookup t k)
lookup-delete t token k = elim (Bool-cases (bytes_eq token k)) [
  | inl y ↦
      rw y (
        ap (lookup (delete t token)) (sym ((bytes_eq_iff token k).0 y))
        ∙ lookup-delete_same t token)
  | inr n ↦
      let differ : token ≢ k = λ q. ground (arith, n, bytes_eq_iff token k, q) in
      rw n (lookup-delete_other t token k differ)
]

expired :
    (now : ℕ) (e : ProgressEntry)
    → ltb entry_ttl (now - e.updated_at) ≡ true
    → still_shown now (some e) ≡ none
expired now e h = rw h refl

pub kept :
    (now : ℕ) (e : ProgressEntry)
    → ltb entry_ttl (now - e.updated_at) ≡ false
    → still_shown now (some e) ≡ some e
kept now e h = rw h refl

pub lookup-expire :
    (now : ℕ) (t : Tracker) (k : Bytes)
    → IsUnique t
    → lookup (expire now t) k ≡ still_shown now (lookup t k)
unfolding lookup expire
lookup-expire now [] k u = refl
lookup-expire now (x ∷ t) k u =
    let ih = lookup-expire now t k u.1 in
    elim (Bool-cases (ltb entry_ttl (now - x.1.updated_at))) [
      | inl old ↦ elim (Bool-cases (bytes_eq x.0 k)) [
        | inl y ↦
            let gone : lookup t k ≡ none = ap (lookup t) (sym ((bytes_eq_iff x.0 k).0 y)) ∙ u.0 in
            rw (old, y) (ih ∙ (ap (still_shown now) gone ∙ sym (expired now x.1 old)))
        | inr n ↦ rw (old, n) ih
      ]
      | inr young ↦ elim (Bool-cases (bytes_eq x.0 k)) [
        | inl y ↦ rw (young, y) (sym (kept now x.1 young))
        | inr n ↦ rw (young, n) ih
      ]
    ]

pub insert-IsUnique :
    (t : Tracker) (token : Bytes) (e : ProgressEntry) → IsUnique t → IsUnique (insert t token e)
unfolding insert lookup
insert-IsUnique [] token e u = (refl, tt)
insert-IsUnique (x ∷ t) token e u = elim (Bool-cases (bytes_eq x.0 token)) [
  | inl y ↦ let same = (bytes_eq_iff x.0 token).0 y in rw y (ap (lookup t) (sym same) ∙ u.0, u.1)
  | inr n ↦
      let differ : token ≢ x.0 = λ q. ground (arith, n, bytes_eq_iff x.0 token, q) in
      rw n (lookup-insert_other t token x.0 e differ ∙ u.0, insert-IsUnique t token e u.1)
]

pub expire-IsUnique : (now : ℕ) (t : Tracker) → IsUnique t → IsUnique (expire now t)
unfolding expire
expire-IsUnique now [] u = tt
expire-IsUnique now (x ∷ t) u = elim (Bool-cases (ltb entry_ttl (now - x.1.updated_at))) [
  | inl y ↦ rw y (expire-IsUnique now t u.1)
  | inr n ↦ rw n (lookup-expire now t x.0 u.1 ∙ ap (still_shown now) u.0, expire-IsUnique now t u.1)
]

pub delete-IsUnique : (t : Tracker) (token : Bytes) → IsUnique t → IsUnique (delete t token)
unfolding delete
delete-IsUnique [] token u = tt
delete-IsUnique (x ∷ t) token u = elim (Bool-cases (bytes_eq x.0 token)) [
  | inl y ↦ rw y (delete-IsUnique t token u.1)
  | inr n ↦
      let differ : token ≢ x.0 = λ q. ground (arith, n, bytes_eq_iff x.0 token, q) in
      rw n (lookup-delete_other t token x.0 differ ∙ u.0, delete-IsUnique t token u.1)
]
