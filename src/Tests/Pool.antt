-- ===== src/Tests/Pool.antt =====
-- A pool of two threads to which one job has been added.
use model_lib.Base.{◌≡◌, refl, List, [], ◌∷◌, ◌++◌, arith, pos, ℕ, ◌<◌, true, false, some, none}
use model_lib.CString.{c_str, copy_str}
use model_lib.Work.{Args, zero_args, handle_show}
use model_lib.Work.Copy.{copy_sendpack}
use model_lib.Tpool.{Pool, store, empty_pool, work_info, tpool_add_work}
use model_lib.Tpool.Queue.{Slots, jobs, node, IsQueue}
use model_lib.Tpool.Threads.{
  asleep, ended, Steps, here, ready, System, nobody, add, Reach, start, next,
}
use model_lib.Tpool.Destroy.{woken, woken-joins}
use model_lib.Tpool.Wakeup.{fifo, Starts, next_job-Starts}

abbrev show_job : Args
show_job = record zero_args { fd = pos 5; handle1 = some handle_show }

abbrev one_pool : Pool
one_pool = record {
  shutdown = false;
  queue_head = 1;
  queue_tail = 1;
  cell = store (λ a. none) 1 (node show_job 0);
}

abbrev one_job : System
one_job = record { pool = one_pool; phase = λ i. ready; submitted = show_job ∷ []; started = [] }

show_job-info : work_info show_job ≡ some show_job
unfolding work_info copy_sendpack c_str copy_str
show_job-info = refl

added : tpool_add_work empty_pool 1 show_job ≡ some one_pool
unfolding tpool_add_work
added = rw show_job-info

one_job-Reach : Reach 2 one_job
one_job-Reach = next start (
    add 1 show_job show_job (omega arith) refl show_job-info added
      (nobody (λ i lt. ground arith) refl))

fifo_example : (xs : Slots) × IsQueue one_pool xs × (show_job ∷ [] ≡ [] ++ jobs xs)
fifo_example = fifo (omega arith) one_job-Reach

next_job-Starts_example :
    (j : Args) × (rest : List Args) × (show_job ∷ [] ≡ [] ++ j ∷ rest) × Starts 2 one_job j
next_job-Starts_example = next_job-Starts (omega arith) one_job-Reach refl (omega arith)

-- The pool is destroyed while both threads wait for a job.
abbrev shut : System
shut = record {
  pool = record empty_pool { shutdown = true };
  phase = λ i. asleep;
  submitted = [];
  started = [];
}

woken-joins_example : (u : System) × Steps 2 (woken shut) u × ((i : ℕ) → i < 2 → u.phase i ≡ ended)
woken-joins_example = woken-joins shut (woken shut) refl here
