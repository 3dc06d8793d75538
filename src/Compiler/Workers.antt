-- ===== src/Compiler/Workers.antt =====
-- The worker pools of internal/engine: CompileAll of compiler.go and parallelForEach of parallel.go.
-- Workers take indices off a channel and store what they compute under the index. A step is one
-- worker's receive or store, so that the steps of several workers interleave in any order. What a
-- worker computes is taken as a function of its index: the answer about the libraries that `compile`
-- reads and writes in the engine without a lock (compiler.go, cachedLibFiles) is left out here.
pub mod Laws
use aut_oscan_engine.Prelude.{
  ℕ, zero, suc, ◌+◌, ◌<◌, ◌≡◌, List, [], ◌∷◌, ◌++◌, Option, none, some, length, set, replicate,
}

-- The indices from `i` on that the channel holds.
unfoldable pub indices_from : ℕ → ℕ → List ℕ
indices_from i zero = []
indices_from i (suc n) = i ∷ indices_from (suc i) n

-- The channel, what the workers are busy with, and the slice of results.
pub record Pool {ℓ} (A : Type ℓ) : Type ℓ where
  pub queue : List ℕ
  pub running : List ℕ
  pub results : List (Option A)

module _ {ℓ} {A : Type ℓ} where
  unfoldable pub new_pool : ℕ → Pool A
  unfolding indices_from
  new_pool n = record { queue = indices_from 0 n; running = []; results = replicate n none }

  -- A worker that is free takes the next index; one that has computed `job i` stores it.
  pub data PoolStep (workers : ℕ) (job : ℕ → A) : Pool A → Pool A → Type ℓ where
    receive :
        (i : ℕ) (queue running : List ℕ) (results : List (Option A))
        → length running < workers
        → PoolStep workers job
            (record { queue = i ∷ queue; running = running; results = results })
            (record { queue = queue; running = i ∷ running; results = results })
    store :
        (i : ℕ) (queue before after : List ℕ) (results : List (Option A))
        → PoolStep workers job
            (record { queue = queue; running = before ++ (i ∷ after); results = results })
            (record {
              queue = queue;
              running = before ++ after;
              results = set results i (some (job i));
            })

  -- A number of steps.
  pub data PoolRun (workers : ℕ) (job : ℕ → A) : ℕ → Pool A → Pool A → Type ℓ where
    at_rest : {s : Pool A} → PoolRun workers job 0 s s
    then_step :
        {n : ℕ} {s t u : Pool A}
        → PoolRun workers job n s t
        → PoolStep workers job t u
        → PoolRun workers job (suc n) s u
