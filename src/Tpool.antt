-- ===== src/Tpool.antt =====
-- epoll+tpool/server/tpool.c: the job queue, on an explicit heap of work nodes.
pub mod Queue
pub mod Threads
pub mod Invariant
pub mod Wakeup
pub mod Destroy
use model_lib.Base.{ℕ, Bool, true, false, Option, none, some, ◌==◌, if◌then◌else◌, ℤ, pos}
use model_lib.Packet.{SendPack, zero_pack}
use model_lib.Work.{Args}
use model_lib.Work.Copy.{copy_sendpack}

abbrev pub Ptr : Type 0
Ptr = ℕ

-- `tpool_work_t`. The routine is `worker` in every job and is left out.
pub record Work : Type 0 where
  pub info : Args
  pub next : Ptr

-- `tpool_t`: the switch, the two ends of the queue, and the heap of work nodes.
pub record Pool : Type 0 where
  pub shutdown : Bool
  pub queue_head : Ptr
  pub queue_tail : Ptr
  pub cell : Ptr → Option Work

unfoldable pub store : (Ptr → Option Work) → Ptr → Work → Ptr → Option Work
store h p w a = if a == p then some w else h a

-- `tpool_create`, without its threads.
abbrev pub empty_pool : Pool
empty_pool = record { shutdown = false; queue_head = 0; queue_tail = 0; cell = λ _. none }

-- The new node's `info`; `flag` is UNFINISHED. `none` if `copy_sendpack` runs past an array.
unfoldable pub work_info : Args → Option Args
work_info arg = elim (copy_sendpack zero_pack arg.sdpk) [
  | none ↦ none
  | some sdpk ↦ some (record arg { flag = pos 0; sdpk = sdpk })
]

-- The write of `queue_tail->next`: a fault if there is no node.
unfoldable pub append_tail : Pool → Ptr → Option Pool
unfolding store
append_tail pool work = elim (pool.cell pool.queue_tail) [
  | none ↦ none
  | some t ↦ some (record pool {
    cell = store pool.cell pool.queue_tail (record t { next = work });
    queue_tail = work;
  })
]

-- The node at the end of the queue.
unfoldable pub enqueue : Pool → (work : Ptr) → Args → Option Pool
unfolding append_tail
enqueue pool work info =
    let pool' = record pool { cell = store pool.cell work (record { info = info; next = 0 }) } in
    if pool.queue_head == 0
    then some (record pool' { queue_head = work; queue_tail = work })
    else append_tail pool' work

-- `tpool_add_work`, where `work` is what `malloc` returned; NULL leaves the pool alone.
unfoldable pub tpool_add_work : Pool → (work : Ptr) → Args → Option Pool
unfolding work_info enqueue
tpool_add_work pool work arg =
    if work == 0
    then some pool
    else elim (work_info arg) [ none ↦ none | some info ↦ enqueue pool work info ]

-- What a thread finds under the lock: it goes to sleep, it ends, it gets a job, or it reads
-- through a dangling pointer.
pub data Turn : Type 0 where
  wait : Turn
  leave : Turn
  job : Args → Pool → Turn
  fault : Turn

-- One pass of `thread_routine` from the lock to the unlock.
unfoldable pub take_job : Pool → Turn
take_job pool =
    if pool.shutdown
    then leave
    else if pool.queue_head == 0
    then wait
    else elim (pool.cell pool.queue_head) [
      | none ↦ fault
      | some w ↦ job w.info (record pool { queue_head = w.next })
    ]
