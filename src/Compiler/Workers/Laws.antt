-- ===== src/Compiler/Workers/Laws.antt =====
-- A pool of workers computes what a loop would.
use aut_oscan_engine.Prelude.{
  ℕ, zero, suc, ◌+◌, ◌*◌, ◌≤◌, ◌<◌, ◌≡◌, ◌⊎◌, ◌∙◌, refl, sym, ap, subst, inl, inr, arith, List, [],
  ◌∷◌, ◌++◌, Option, none, some, length, get_or, set, length-set, length-append, length-replicate,
  get_or-set_same, get_or-set_cases, Bool-cases, ◌==◌,
}
use aut_oscan_engine.Compiler.Workers.{
  indices_from, Pool, new_pool, PoolStep, receive, store, PoolRun, at_rest, then_step,
}

-- An index is in a list.
abbrev In : ℕ → List ℕ → Type 0
In i [] = ⊥
In i (x ∷ xs) = (i ≡ x) ⊎ In i xs

In-append : (i : ℕ) (xs ys : List ℕ) → In i (xs ++ ys) → In i xs ⊎ In i ys
In-append i [] ys h = inr h
In-append i (x ∷ xs) ys (inl e) = inl (inl e)
In-append i (x ∷ xs) ys (inr h) = elim (In-append i xs ys h) [ inl a ↦ inl (inr a) | inr b ↦ inr b ]

append-In : (i : ℕ) (xs ys : List ℕ) → In i xs ⊎ In i ys → In i (xs ++ ys)
append-In i [] ys (inl h) = absurd h
append-In i [] ys (inr h) = h
append-In i (x ∷ xs) ys (inl (inl e)) = inl e
append-In i (x ∷ xs) ys (inl (inr h)) = inr (append-In i xs ys (inl h))
append-In i (x ∷ xs) ys (inr h) = inr (append-In i xs ys (inr h))

indices_from-In : (n j i : ℕ) → j ≤ i → i < j + n → In i (indices_from j n)
unfolding indices_from
indices_from-In zero j i l h = absurd (omega (arith, l, h))
indices_from-In (suc n) j i l h = elim (Bool-cases (i == j)) [
  | inl e ↦ inl (ground (arith, e))
  | inr e ↦ inr (indices_from-In n (suc j) i (ground (arith, l, e)) (omega (arith, h)))
]

length-indices_from : (n j : ℕ) → length (indices_from j n) ≡ n
unfolding indices_from
length-indices_from zero j = refl
length-indices_from (suc n) j = ap suc (length-indices_from n (suc j))

empty_lem : (xs : List ℕ) → length xs ≡ 0 → xs ≡ []
empty_lem [] h = refl
empty_lem (x ∷ xs) h = absurd (omega (arith, h))

module _ {ℓ} {A : Type ℓ} (workers : ℕ) (job : ℕ → A) where
  -- Each index waits, is worked on, or has its result.
  record Covers (n : ℕ) (s : Pool A) : Type ℓ where
    size : length s.results ≡ n
    each :
        (i : ℕ) → i < n → In i s.queue ⊎ (In i s.running ⊎ (get_or s.results i none ≡ some (job i)))

  -- Steps that are left.
  work_left : Pool A → ℕ
  work_left s = 2 * length s.queue + length s.running

  step-Covers : {n : ℕ} {s t : Pool A} → PoolStep workers job s t → Covers n s → Covers n t
  step-Covers (receive i queue running results free) h = record {
    size = h.size;
    each = λ j l. elim (h.each j l) [
      | inl (inl e) ↦ inr (inl (inl e))
      | inl (inr q) ↦ inl q
      | inr (inl r) ↦ inr (inl (inr r))
      | inr (inr d) ↦ inr (inr d)
    ];
  }
  step-Covers (store i queue before after results) h =
      let stored : (j : ℕ)
          → get_or results j none ≡ some (job j)
          → get_or (set results i (some (job i))) j none ≡ some (job j) =
        λ j e. elim (get_or-set_cases results i j (some (job i)) none) [
          | inl (ij, _, g) ↦ g ∙ ap (λ k. some (job k)) ij
          | inr g ↦ g ∙ e
        ] in
      let done : (j : ℕ)
          → j < length results
          → j ≡ i
          → get_or (set results i (some (job i))) j none ≡ some (job j) =
        λ j l e.
          ap (λ k. get_or (set results i (some (job i))) k none) e
          ∙ (get_or-set_same results i (some (job i)) none (omega (arith, l, e))
              ∙ ap (λ k. some (job k)) (sym e)) in
      record {
        size = length-set results i (some (job i)) ∙ h.size;
        each = λ j l. elim (h.each j l) [
          | inl q ↦ inl q
          | inr (inr d) ↦ inr (inr (stored j d))
          | inr (inl r) ↦ elim (In-append j before (i ∷ after) r) [
            | inl b ↦ inr (inl (append-In j before after (inl b)))
            | inr (inr a) ↦ inr (inl (append-In j before after (inr a)))
            | inr (inl e) ↦ inr (inr (done j (omega (arith, l, h.size)) e))
          ]
        ];
      }

  step_left : {s t : Pool A} → PoolStep workers job s t → work_left t + 1 ≡ work_left s
  unfolding work_left
  step_left (receive i queue running results free) = omega arith
  step_left (store i queue before after results) =
      omega (arith, length-append before after, length-append before (i ∷ after))

  run-Covers :
      {n k : ℕ} {s t : Pool A}
      → PoolRun workers job k s t
      → Covers n s
      → Covers n t × (work_left t + k ≡ work_left s)
  run-Covers at_rest h = (h, omega arith)
  run-Covers (then_step r a) h =
      let (c, left) = run-Covers r h in (step-Covers a c, omega (arith, left, step_left a))

  new_pool-Covers : (n : ℕ) → Covers n (new_pool n)
  unfolding new_pool
  new_pool-Covers n = record {
    size = length-replicate n none;
    each = λ i l. inl (indices_from-In n 0 i (omega arith) (omega (arith, l)));
  }

  -- A pool with a worker that has not done all can go on.
  goes_on :
      (queue running : List ℕ) (results : List (Option A))
      → 1 ≤ workers
      → 1 ≤ 2 * length queue + length running
      → (t : Pool A) × PoolStep workers job
          (record { queue = queue; running = running; results = results })
          t
  goes_on queue (i ∷ rest) results hw l = (_, store i queue [] rest results)
  goes_on (i ∷ queue) [] results hw l = (_, receive i queue [] results hw)
  goes_on [] [] results hw l = absurd (omega (arith, l))

  -- Where nothing waits and nothing is worked on, the results are there.
  all_done :
      (n : ℕ) (s : Pool A)
      → Covers n s
      → work_left s ≡ 0
      → (i : ℕ) → i < n
      → get_or s.results i none ≡ some (job i)
  unfolding work_left
  all_done n s h e i l =
      let no_queue : s.queue ≡ [] = empty_lem s.queue (omega (arith, e)) in
      let no_running : s.running ≡ [] = empty_lem s.running (omega (arith, e)) in
      elim (h.each i l) [
        | inl q ↦ absurd (subst (In i) no_queue q)
        | inr (inl r) ↦ absurd (subst (In i) no_running r)
        | inr (inr d) ↦ d
      ]

  -- However the steps of a pool's workers interleave, there are at most two for each index; as long as
  -- there are fewer than two for each a worker can take one, if there is a worker; and after these each
  -- index has what its job computes as its result.
  pub new_pool_result :
      (n k : ℕ) (s : Pool A)
      → PoolRun workers job k (new_pool n) s
      → (k ≤ 2 * n)
        × (1 ≤ workers → k < 2 * n → (t : Pool A) × PoolStep workers job s t)
        × (k ≡ 2 * n → (i : ℕ) → i < n → get_or s.results i none ≡ some (job i))
  unfolding work_left
  new_pool_result n k s r =
      let (c, left) = run-Covers r (new_pool-Covers n) in
      let whole : work_left (new_pool n) ≡ 2 * n =
        unfold new_pool in omega (arith, length-indices_from n 0) in
      (
        omega (arith, left, whole),
        λ hw l. goes_on s.queue s.running s.results hw (omega (arith, left, whole, l)),
        λ e. all_done n s c (omega (arith, left, whole, e)),
      )
