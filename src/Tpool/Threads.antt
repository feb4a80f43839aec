-- ===== src/Tpool/Threads.antt =====
-- The threads of tpool.c over one pool, interleaved in any order. A step is what one thread does
-- under `queue_lock`, or one call of the main thread.
use model_lib.Base.{ℕ, ◌<◌, ◌≡◌, ◌≢◌, true, none, some, List, [], ◌∷◌, ◌++◌, ◌==◌, if◌then◌else◌}
use model_lib.Work.{Args}
use model_lib.Tpool.{Ptr, Pool, empty_pool, work_info, tpool_add_work, wait, leave, job, take_job}

-- Where a worker thread stands: about to lock, inside `pthread_cond_wait`, in a job's routine, or
-- ended.
pub data Phase : Type 0 where
  ready asleep : Phase
  running : Args → Phase
  ended : Phase

abbrev pub update : (ℕ → Phase) → ℕ → Phase → ℕ → Phase
update f i p k = if k == i then p else f k

-- `submitted` and `started` are the jobs added and taken so far, in their order.
pub record System : Type 0 where
  pub pool : Pool
  pub phase : ℕ → Phase
  pub submitted : List Args
  pub started : List Args

-- `tpool_create`: every thread begins in front of its loop.
abbrev pub init : System
init = record { pool = empty_pool; phase = λ _. ready; submitted = []; started = [] }

-- `pthread_cond_signal`: some sleeping thread wakes, if any sleeps.
pub data Signal (n : ℕ) (f g : ℕ → Phase) : Type 0 where
  woke : (i : ℕ) → i < n → f i ≡ asleep → g ≡ update f i ready → Signal n f g
  nobody : ((i : ℕ) → i < n → f i ≢ asleep) → g ≡ f → Signal n f g

-- `pthread_cond_broadcast`
abbrev pub wake : Phase → Phase
wake asleep = ready
wake p = p

pub data Step (n : ℕ) (s : System) : System → Type 0 where
  -- `tpool_add_work` with an address that `malloc` has not given out before.
  add :
      (work : Ptr) (arg info : Args) {pool : Pool} {phase : ℕ → Phase}
      → work ≢ 0
      → s.pool.cell work ≡ none
      → work_info arg ≡ some info
      → tpool_add_work s.pool work arg ≡ some pool
      → Signal n s.phase phase
      → Step n s (record s { pool = pool; phase = phase; submitted = s.submitted ++ info ∷ [] })
  -- `tpool_add_work` when `malloc` fails.
  no_memory :
      (arg : Args) {pool : Pool}
      → tpool_add_work s.pool 0 arg ≡ some pool
      → Step n s (record s { pool = pool })
  take :
      (i : ℕ) (j : Args) {pool : Pool}
      → i < n
      → s.phase i ≡ ready
      → take_job s.pool ≡ job j pool
      → Step n s (record s {
        pool = pool;
        phase = update s.phase i (running j);
        started = s.started ++ j ∷ [];
      })
  sleep :
      (i : ℕ)
      → i < n
      → s.phase i ≡ ready
      → take_job s.pool ≡ wait
      → Step n s (record s { phase = update s.phase i asleep })
  quit :
      (i : ℕ)
      → i < n
      → s.phase i ≡ ready
      → take_job s.pool ≡ leave
      → Step n s (record s { phase = update s.phase i ended })
  finish :
      (i : ℕ) {j : Args}
      → i < n
      → s.phase i ≡ running j
      → Step n s (record s { phase = update s.phase i ready })
  -- `tpool_destroy` sets the switch with no lock held, and wakes the threads under the lock.
  switch_off : Step n s (record s { pool = record (s.pool) { shutdown = true } })
  broadcast : s.pool.shutdown ≡ true → Step n s (record s { phase = λ i. wake (s.phase i) })

pub data Reach (n : ℕ) : System → Type 0 where
  start : Reach n init
  next : {s t : System} → Reach n s → Step n s t → Reach n t

pub data Steps (n : ℕ) (s : System) : System → Type 0 where
  here : Steps n s s
  then_step : {t u : System} → Steps n s t → Step n t u → Steps n s u
