-- ===== src/Server/Activity/Laws.antt =====
-- When the server exits, and what a bounded buffer keeps.
use aut_oscan_engine.Prelude.{
  subst, ℕ, zero, suc, ◌-◌, ◌≡◌, ◌≤◌, ◌<◌, ◌↔◌, ◌∙◌, refl, ap, sym, true, false, List, [], ◌∷◌,
  ◌++◌, append-nil, append_assoc, Bool-cases, inl, inr, arith, ltb, length, take, length-append,
}
use aut_oscan_engine.Prelude.Text.{Bytes}
use aut_oscan_engine.Server.Activity.{
  Activity, new_activity, begin, end, idle_for, exits, CappedBuffer, write, write_all,
}

-- What happens to a server's activity: requests that begin and end, each with the time of its end.
pub data Runs : Activity → ℕ → ℕ → Type 0 where
  fresh : (now : ℕ) → Runs (new_activity now) 0 now
  began :
      {a : Activity} {pending last : ℕ} → Runs a pending last → Runs (begin a) (suc pending) last
  ended :
      {a : Activity} {pending last : ℕ} (now : ℕ)
      → Runs a (suc pending) last
      → Runs (end now a) pending now

Runs_lem :
    {a : Activity} {pending last : ℕ}
    → Runs a pending last
    → (a.active ≡ pending) × (a.last_done ≡ last)
unfolding new_activity begin end
Runs_lem (fresh now) = (refl, refl)
Runs_lem (began r) = let (x, y) = Runs_lem r in (omega (arith, x), y)
Runs_lem (ended now r) = let (x, y) = Runs_lem r in (omega (arith, x), refl)

-- After any requests that began and of which some ended, a tick makes the server exit exactly if no
-- request is open and the timeout has passed since the last end, or since the start if none ended;
-- this holds for a timeout that is not zero.
pub exits_lem :
    (a : Activity) (pending last timeout now : ℕ)
    → Runs a pending last
    → 0 < timeout
    → (exits timeout now a ≡ true) ↔ ((pending ≡ 0) × (timeout ≤ now - last))
unfolding exits idle_for
exits_lem a pending last timeout now r positive =
    let (x, y) = Runs_lem r in (ground (arith, x, y), ground (arith, x, y))

module _ {A : Type 0} where
  take_all : (n : ℕ) (xs : List A) → length xs ≤ n → take n xs ≡ xs
  take_all zero [] h = refl
  take_all zero (x ∷ xs) h = ground (arith, h)
  take_all (suc n) [] h = refl
  take_all (suc n) (x ∷ xs) h = ap (λ r. x ∷ r) (take_all n xs (omega (arith, h)))

  take_past :
      (n : ℕ) (xs ys : List A) → length xs ≤ n → take n (xs ++ ys) ≡ xs ++ take (n - length xs) ys
  take_past n [] ys h = ap (λ k. take k ys) (omega arith)
  take_past zero (x ∷ xs) ys h = ground (arith, h)
  take_past (suc n) (x ∷ xs) ys h =
      ap (λ r. x ∷ r)
        (take_past n xs ys (omega (arith, h)) ∙ ap (λ k. xs ++ take k ys) (omega arith))

  take_within : (n : ℕ) (xs ys : List A) → n ≤ length xs → take n (xs ++ ys) ≡ take n xs
  take_within zero xs ys h = refl
  take_within (suc n) [] ys h = ground (arith, h)
  take_within (suc n) (x ∷ xs) ys h = ap (λ r. x ∷ r) (take_within n xs ys (omega (arith, h)))

  take_empty : (n : ℕ) → take {A = A} n [] ≡ []
  take_empty zero = refl
  take_empty (suc n) = refl

  length-take_full : (n : ℕ) (xs : List A) → n ≤ length xs → length (take n xs) ≡ n
  length-take_full zero xs h = refl
  length-take_full (suc n) [] h = ground (arith, h)
  length-take_full (suc n) (x ∷ xs) h = ap suc (length-take_full n xs (omega (arith, h)))

-- A buffer that keeps the first bytes of all that was written, and tells whether some are missing.
abbrev pub Keeps : ℕ → Bytes → CappedBuffer → Type 0
Keeps limit all c =
    (c.limit ≡ limit) × (c.buf ≡ take limit all) × ((c.truncated ≡ true) ↔ (limit < length all))

write_room :
    (limit : ℕ) (all p : Bytes) (c : CappedBuffer)
    → length all < limit
    → Keeps limit all c
    → Keeps limit (all ++ p) (write p c).0
unfolding write
write_room limit all p c room (l, b, t) =
    let kept : c.buf ≡ all = b ∙ take_all limit all (omega (arith, room)) in
    let size = ap length kept in
    let sum = length-append all p in
    let past = take_past limit all p (omega (arith, room)) in
    let left : c.limit - length c.buf ≡ limit - length all = omega (arith, size, l) in
    let has_room : ltb 0 (c.limit - length c.buf) ≡ true = ground (arith, size, l, room) in
    elim (Bool-cases (ltb (c.limit - length c.buf) (length p))) [
      | inl e ↦
          let over : limit < length (all ++ p) = ground (arith, e, left, sum) in
          rw (has_room, e)
            (
              l,
              ap (λ k. c.buf ++ take k p) left
                  ∙ ap (λ s. s ++ take (limit - length all) p) kept
                  ∙ sym past,
              ((λ _. over), (λ _. refl)),
            )
      | inr e ↦
          let fits : length p ≤ limit - length all = ground (arith, e, left) in
          rw (has_room, e)
            (
              l,
              ap (λ s. s ++ p) kept
                  ∙ ap (λ s. all ++ s) (sym (take_all (limit - length all) p fits))
                  ∙ sym past,
              (
                (λ h. absurd (omega (arith, t.0 h, room))),
                (λ h. absurd (omega (arith, h, sum, fits, room))),
              ),
            )
    ]

write_full :
    (limit : ℕ) (all p : Bytes) (c : CappedBuffer)
    → limit ≤ length all
    → Keeps limit all c
    → Keeps limit (all ++ p) (write p c).0
unfolding write
write_full limit all p c full (l, b, t) =
    let size = ap length b ∙ length-take_full limit all full in
    let sum = length-append all p in
    let same = take_within limit all p full in
    let none_left : ltb 0 (c.limit - length c.buf) ≡ false = ground (arith, size, l) in
    elim (Bool-cases (ltb 0 (length p))) [
      | inl e ↦
          rw (none_left, e) (l, b ∙ sym same, ((λ _. ground (arith, e, sum, full)), (λ _. refl)))
      | inr e ↦
          let empty : length (all ++ p) ≡ length all = ground (arith, e, sum) in
          rw (none_left, e)
            (
              l,
              b ∙ sym same,
              ((λ h. omega (arith, t.0 h, empty)), (λ h. t.1 (omega (arith, h, empty)))),
            )
    ]

write-Keeps :
    (limit : ℕ) (all p : Bytes) (c : CappedBuffer)
    → Keeps limit all c
    → Keeps limit (all ++ p) (write p c).0
write-Keeps limit all p c k = elim (Bool-cases (ltb (length all) limit)) [
  | inl e ↦ write_room limit all p c (ground (arith, e)) k
  | inr e ↦ write_full limit all p c (ground (arith, e)) k
]

-- All the bytes of several writes.
pub concat : List Bytes → Bytes
concat [] = []
concat (p ∷ ps) = p ++ concat ps

write_all-Keeps_from :
    (limit : ℕ) (all : Bytes) (ps : List Bytes) (c : CappedBuffer)
    → Keeps limit all c
    → Keeps limit (all ++ concat ps) (write_all ps c)
unfolding write_all concat
write_all-Keeps_from limit all [] c k = rw (append-nil all) k
write_all-Keeps_from limit all (p ∷ ps) c k =
    subst (λ s. Keeps limit s (write_all ps (write p c).0)) (append_assoc all p (concat ps))
      (write_all-Keeps_from limit (all ++ p) ps (write p c).0 (write-Keeps limit all p c k))

-- After any writes to an empty buffer, it holds the first bytes of all that was written, up to its
-- limit, and it is marked as truncated exactly if more than the limit was written.
pub write_all-Keeps :
    (limit : ℕ) (ps : List Bytes)
    → Keeps limit (concat ps) (write_all ps (record { buf = []; limit = limit; truncated = false }))
write_all-Keeps limit ps =
    write_all-Keeps_from limit [] ps _
      (refl, sym (take_empty limit), ((λ h. ground (arith, h)), (λ h. ground (arith, h))))
