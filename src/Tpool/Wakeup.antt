-- ===== src/Tpool/Wakeup.antt =====
-- What every reachable state of the thread pool of tpool.c promises: jobs start in the order in
-- which they were added, and no wake-up is lost.
use model_lib.Base.{ℕ, ◌<◌, ◌≡◌, refl, ◌≢◌, true, false, List, [], ◌∷◌, ◌++◌, arith, ap, ◌∙◌}
use model_lib.Work.{Args}
use model_lib.Tpool.Queue.{Slots, jobs, IsQueue, take_job-cons}
use model_lib.Tpool.Threads.{
  Phase, ready, asleep, running, ended, System, take, finish, Reach, Steps, here, then_step,
}
use model_lib.Tpool.Invariant.{awake, Reach-Inv}

-- In every reachable state of a pool with at least one thread, the jobs taken so far are the first
-- of the jobs added, each taken once and in their order, and the queue holds all the others, also
-- in their order.
pub fifo :
    {n : ℕ} {s : System}
    → 0 < n
    → Reach n s
    → (xs : Slots) × IsQueue s.pool xs × (s.submitted ≡ s.started ++ jobs xs)
fifo pos r = let inv = Reach-Inv pos r in (inv.slots, inv.queue, inv.order)

-- A run from `s` in which the job `j` starts next and no job is added.
abbrev pub Starts : ℕ → System → Args → Type 0
Starts n s j =
    (t : System) × Steps n s t × (t.started ≡ s.started ++ j ∷ []) × (t.submitted ≡ s.submitted)

module _ {n : ℕ} where
  -- An awake thread takes the first job at once, or when its own job has ended.
  starts :
      (s : System) (i : ℕ) (p : Phase) (xs : Slots)
      → i < n
      → s.phase i ≡ p
      → awake p ≡ true
      → IsQueue s.pool xs
      → s.pool.shutdown ≡ false
      → s.pool.queue_head ≢ 0
      → (j : Args) × (rest : List Args) × (jobs xs ≡ j ∷ rest) × Starts n s j
  starts s i p [] lt at_i up q on full = absurd (full q)
  starts s i asleep ((a, j) ∷ xs) lt at_i up q on full = cc
  starts s i ended ((a, j) ∷ xs) lt at_i up q on full = cc
  starts s i ready ((a, j) ∷ xs) lt at_i up q on full =
      let (pool, run, q', on') = take_job-cons s.pool a j xs q on in
      (j, jobs xs, refl, (_, then_step here (take i j lt at_i run), refl, refl))
  starts s i (running k) ((a, j) ∷ xs) lt at_i up q on full =
      let (pool, run, q', on') = take_job-cons s.pool a j xs q on in
      (
        j,
        jobs xs,
        refl,
        (
          _,
          then_step (then_step here (finish i lt at_i)) (take i j lt (ground arith) run),
          refl,
          refl,
        ),
      )

  -- No lost wake-up: in every reachable state of a pool with at least one thread, with a job queued
  -- and no shutdown, the job that was added first among those not yet taken starts next in some run
  -- in which no job is added.
  pub next_job-Starts :
      {s : System}
      → 0 < n
      → Reach n s
      → s.pool.shutdown ≡ false
      → s.pool.queue_head ≢ 0
      → (j : Args) × (rest : List Args) × (s.submitted ≡ s.started ++ j ∷ rest) × Starts n s j
  next_job-Starts {s} pos r on full =
      let inv = Reach-Inv pos r in
      let (i, lt, up) = inv.watched on full in
      let (j, rest, first, reached) =
        starts s i (s.phase i) inv.slots lt refl up inv.queue on full in
      (j, rest, inv.order ∙ ap (λ t. s.started ++ t) first, reached)
