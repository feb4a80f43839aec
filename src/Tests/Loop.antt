-- ===== src/Tests/Loop.antt =====
-- The main loop with one connection, whose packet a thread handles.
use model_lib.Base.{
  ◌+◌, ◌≤◌, ◌<◌, ◌≡◌, ◌≢◌, refl, false, true, some, none, List, [], ◌∷◌, ◌++◌, arith, ℤ, pos, ℕ,
  Bool, Bool-cases, inl, inr, ◌==◌,
}
use model_lib.CString.{c_str, copy_str}
use model_lib.Packet.{SendPack, zero_pack}
use model_lib.Packet.Cmd
use model_lib.Work.{Args, init_args}
use model_lib.Work.Copy.{copy_sendpack}
use model_lib.Tpool.{Pool, store, empty_pool, work_info, tpool_add_work, job, take_job}
use model_lib.Tpool.Queue.{node}
use model_lib.Tpool.Threads.{ready, asleep, running, nobody, update}
use model_lib.MainLoop.{Loop, set, args_of, accept, packet, take, Reach, start, next}
use model_lib.MainLoop.Count.{bit, total, occurs}
use model_lib.MainLoop.Single.{one_per_connection, two_threads}
use model_lib.Tests.{connection}

abbrev asking : SendPack
asking = record zero_pack { send_cmd = Cmd.show }

-- The job of a connection.
abbrev job_of : ℤ → Args
job_of fd = args_of fd asking asking

asking-copied : copy_sendpack zero_pack asking ≡ some asking
unfolding copy_sendpack c_str copy_str
asking-copied = refl

job_of-info : (fd : ℤ) → work_info (job_of fd) ≡ some (job_of fd)
unfolding work_info copy_sendpack c_str copy_str init_args
job_of-info fd = refl

abbrev other_connection : ℤ
other_connection = pos 6

abbrev first_job : Args
first_job = job_of connection

abbrev second_job : Args
second_job = job_of other_connection

-- The pool with one job, without it, and with the other one.
abbrev pool_1 : Pool
pool_1 = record {
  shutdown = false;
  queue_head = 1;
  queue_tail = 1;
  cell = store (λ a. none) 1 (node first_job 0);
}

abbrev pool_2 : Pool
pool_2 = record pool_1 { queue_head = 0 }

abbrev pool_3 : Pool
pool_3 = record pool_2 {
  queue_head = 2;
  queue_tail = 2;
  cell = store pool_1.cell 2 (node second_job 0);
}

abbrev pool_4 : Pool
pool_4 = record pool_3 { queue_head = 0 }

first_added : tpool_add_work empty_pool 1 first_job ≡ some pool_1
unfolding tpool_add_work
first_added = rw (job_of-info connection)

first_taken : take_job pool_1 ≡ job first_job pool_2
unfolding take_job store
first_taken = refl

second_added : tpool_add_work pool_2 2 second_job ≡ some pool_3
unfolding tpool_add_work
second_added = rw (job_of-info other_connection)

second_taken : take_job pool_3 ≡ job second_job pool_4
unfolding take_job store
second_taken = refl

new_cell : pool_2.cell 2 ≡ none
unfolding store
new_cell = refl

abbrev both_open : ℤ → Bool
both_open = set (set (λ fd. false) connection true) other_connection true

abbrev handling : Loop
handling = record {
  sys = record {
    pool = pool_4;
    phase = update (update (λ i. ready) 0 (running first_job)) 1 (running second_job);
    submitted = first_job ∷ second_job ∷ [];
    started = first_job ∷ second_job ∷ [];
  };
  armed = set (set both_open connection false) other_connection false;
  opened = both_open;
}

abbrev first_half : Loop
first_half = record {
  sys = record {
    pool = pool_2;
    phase = update (λ i. ready) 0 (running first_job);
    submitted = first_job ∷ [];
    started = first_job ∷ [];
  };
  armed = set both_open connection false;
  opened = both_open;
}

first_half-Reach : Reach 2 first_half
unfolding init_args
first_half-Reach =
    next
      (next (next (next start (accept connection refl)) (accept other_connection refl)) (
        packet connection asking asking 1 first_job refl refl asking-copied (omega arith) refl
          (job_of-info connection) first_added (nobody (λ i lt. ground arith) refl)))
      (take 0 first_job (omega arith) refl first_taken)

no_sleeper : (i : ℕ) → i < 2 → update (λ k. ready) 0 (running first_job) i ≢ asleep
no_sleeper i lt = elim (Bool-cases (i == 0)) [
  | inl e ↦ rw e (ground arith)
  | inr e ↦ rw e (ground arith)
]

handling-Reach : Reach 2 handling
unfolding init_args
handling-Reach =
    next
      (next first_half-Reach (
        packet other_connection asking asking 2 second_job refl refl asking-copied (omega arith)
          new_cell (job_of-info other_connection) second_added (nobody no_sleeper refl)))
      (take 1 second_job (omega arith) refl second_taken)

one_per_connection_example :
    (waiting : List Args) × (handling.sys.submitted ≡ handling.sys.started ++ waiting)
    × (bit (handling.armed connection)
          + occurs connection waiting
          + total 2 handling.sys.phase connection
        ≤ 1)
one_per_connection_example = one_per_connection 2 handling connection (omega arith) handling-Reach

two_threads_example : first_job.fd ≢ second_job.fd
two_threads_example =
    two_threads 2 handling 0 1 first_job second_job handling-Reach (omega arith) (omega arith)
      (omega arith) refl refl
