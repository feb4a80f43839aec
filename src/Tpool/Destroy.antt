-- ===== src/Tpool/Destroy.antt =====
-- tpool_destroy of epoll+tpool/server/tpool.c: the threads that it joins, and the jobs that it frees.
use model_lib.Base.{
  ℕ, zero, suc, ◌<◌, ◌≤◌, ◌≡◌, refl, ◌≢◌, ◌∙◌, true, Option, none, some, [], ◌∷◌, arith, ◌==◌,
  if◌then◌else◌,
}
use native.Mathlib.Decide.{dec_lt}
use model_lib.Work.{Args}
use model_lib.Tpool.{Ptr, Work, Pool, append_tail, enqueue, tpool_add_work}
use model_lib.Tpool.Queue.{Slots, IsQueue, head_ne, take_job-shutdown}
use model_lib.Tpool.Threads.{
  Phase, ready, asleep, running, ended, System, update, Signal, woke, nobody, wake, Step, add,
  no_memory, take, sleep, quit, finish, switch_off, broadcast, Steps, here, then_step,
}

-- What `free` gets: the start of a node, or its field `info`, which stands behind `routine`.
pub data Address : Type 0 where
  block info_of : Ptr → Address

-- `free`; `none` is an address that `malloc` did not return, or that is free already.
unfoldable pub free : (Ptr → Option Work) → Address → Option (Ptr → Option Work)
free h (info_of p) = none
free h (block p) = elim (h p) [ none ↦ none | some w ↦ some (λ a. if a == p then none else h a) ]

abbrev pub free_both : (Ptr → Option Work) → Ptr → Option (Ptr → Option Work)
free_both h p = elim (free h (info_of p)) [ none ↦ none | some h' ↦ free h' (block p) ]

-- `while(tpool->queue_head)`, with the pool that is left; `none` is a fault.
unfoldable pub free_jobs : (fuel : ℕ) → Pool → Option Pool
unfolding free
free_jobs zero pool = none
free_jobs (suc k) pool =
    if pool.queue_head == 0 then some pool else elim (pool.cell pool.queue_head) [
      | none ↦ none
      | some w ↦ elim (free_both pool.cell pool.queue_head) [
        | none ↦ none
        | some h ↦ free_jobs k (record pool { queue_head = w.next; cell = h })
      ]
    ]

-- The threads that wait for a job are woken, under the lock.
abbrev pub woken : System → System
woken s = record s { phase = λ i. wake (s.phase i) }

-- The first node of a queue is freed at its field `info`.
free_jobs-queued :
    (fuel : ℕ) (pool : Pool) (x : Ptr × Args) (xs : Slots)
    → IsQueue pool (x ∷ xs)
    → free_jobs (suc fuel) pool ≡ none
unfolding free_jobs
free_jobs-queued k pool x xs q =
    let full = head_ne pool.cell pool.queue_tail pool.queue_head x xs q in ground arith

free_jobs-empty : (fuel : ℕ) (pool : Pool) → IsQueue pool [] → free_jobs (suc fuel) pool ≡ some pool
unfolding free_jobs
free_jobs-empty fuel pool q = rw q refl

-- Nobody sleeps in a pool that is shut down.
pub record Down (s : System) : Type 0 where
  pub off : s.pool.shutdown ≡ true
  pub up : (i : ℕ) → s.phase i ≢ asleep

add-shutdown :
    (pool pool' : Pool) (work : Ptr) (arg : Args)
    → tpool_add_work pool work arg ≡ some pool'
    → pool'.shutdown ≡ pool.shutdown
unfolding tpool_add_work enqueue append_tail
add-shutdown pool pool' work arg run = ground arith

Signal-up :
    (n : ℕ) (f g : ℕ → Phase) → Signal n f g → ((i : ℕ) → f i ≢ asleep) → (i : ℕ) → g i ≢ asleep
Signal-up n f g (woke j lt at_j same) up i = absurd (up j at_j)
Signal-up n f g (nobody none_asleep same) up i = rw same (up i)

wake_up : (p : Phase) → wake p ≢ asleep
wake_up ready e = cc
wake_up (running j) e = cc
wake_up asleep e = cc
wake_up ended e = cc

module _ {n : ℕ} where
  Step-Down : {s t : System} → Step n s t → Down s → Down t
  Step-Down {s} (add work arg info {pool} {phase} ne free made run sig) d = record {
    off = add-shutdown s.pool pool work arg run ∙ d.off;
    up = Signal-up n s.phase phase sig d.up;
  }
  Step-Down {s} (no_memory arg {pool} run) d = record {
    off = add-shutdown s.pool pool 0 arg run ∙ d.off;
    up = d.up;
  }
  Step-Down {s} (take i j lt at_i run) d = absurd (cc (take_job-shutdown s.pool d.off))
  Step-Down {s} (sleep i lt at_i run) d = absurd (cc (take_job-shutdown s.pool d.off))
  Step-Down {s} (quit i lt at_i run) d = record { off = d.off; up = λ k. ground (arith, d.up k) }
  Step-Down {s} (finish i lt at_i) d = record { off = d.off; up = λ k. ground (arith, d.up k) }
  Step-Down {s} switch_off d = record { off = refl; up = d.up }
  Step-Down {s} (broadcast down) d = record { off = d.off; up = λ k. wake_up (s.phase k) }

  Steps-Down : {s t : System} → Steps n s t → Down s → Down t
  Steps-Down here d = d
  Steps-Down (then_step steps st) d = Step-Down st (Steps-Down steps d)

  Steps-trans : {s t u : System} → Steps n s t → Steps n t u → Steps n s u
  Steps-trans a here = a
  Steps-trans a (then_step b st) = then_step (Steps-trans a b) st

  end_one :
      (s : System) (i : ℕ) (p : Phase)
      → i < n
      → s.phase i ≡ p
      → Down s
      → (t : System) × Steps n s t
        × (t.phase i ≡ ended)
        × ((k : ℕ) → s.phase k ≡ ended → t.phase k ≡ ended)
  end_one s i ended lt at_i d = (s, here, at_i, λ k e. e)
  end_one s i asleep lt at_i d = absurd (d.up i at_i)
  end_one s i ready lt at_i d =
      let t = record s { phase = update s.phase i ended } in
      (
        t,
        then_step here (quit i lt at_i (take_job-shutdown s.pool d.off)),
        ground arith,
        λ k e. ground arith,
      )
  end_one s i (running j) lt at_i d =
      let u = record s { phase = update s.phase i ready } in
      let t = record u { phase = update u.phase i ended } in
      (
        t,
        then_step (then_step here (finish i lt at_i))
            (quit i lt (ground arith) (take_job-shutdown s.pool d.off)),
        ground arith,
        λ k e. ground arith,
      )

  end_all :
      (k : ℕ) (s : System)
      → k ≤ n
      → Down s
      → (t : System) × Steps n s t × ((i : ℕ) → i < k → t.phase i ≡ ended)
  end_all zero s le d = (s, here, λ i lt. absurd (omega arith))
  end_all (suc k) s le d =
      let (t, steps, done) = end_all k s (omega arith) d in
      let (u, more, last, stays) =
        end_one t k (t.phase k) (omega arith) refl (Steps-Down steps d) in
      (
        u,
        Steps-trans steps more,
        λ i lt. elim (dec_lt i k) [
          | yes below ↦ stays i (done i below)
          | no above ↦ let same : i ≡ k = omega arith in rw same last
        ],
      )

  -- With shutdown set and the waiting threads woken, every state that the threads reach from there
  -- is followed by a run in which every thread has ended, so that no order of steps makes it
  -- impossible for the joins of tpool_destroy to return.
  pub woken-joins :
      (s t : System)
      → s.pool.shutdown ≡ true
      → Steps n (woken s) t
      → (u : System) × Steps n t u × ((i : ℕ) → i < n → u.phase i ≡ ended)
  woken-joins s t off steps =
      let down : Down (woken s) = record { off = off; up = λ i. wake_up (s.phase i) } in
      end_all n t (omega arith) (Steps-Down steps down)
