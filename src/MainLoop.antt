-- ===== src/MainLoop.antt =====
-- The main loop of epoll+tpool/server/server.c over the pool of threads, with the function worker of
-- work.c as every job's routine. A connection is watched with EPOLLONESHOT: an event is reported once,
-- and then none until `epoll_ctl` of the worker asks for it again.
pub mod Count
pub mod Single
use model_lib.Base.{
  ℕ, ◌<◌, ◌≡◌, ◌≢◌, Bool, true, false, none, some, List, [], ◌∷◌, ◌++◌, if◌then◌else◌, ℤ, int_eq,
}
use model_lib.Packet.{SendPack, zero_pack}
use model_lib.Packet.Cmd
use model_lib.Work.{Args, zero_args, init_args}
use model_lib.Work.Copy.{copy_sendpack}
use model_lib.Tpool.{Ptr, Pool, work_info, tpool_add_work, wait, leave, job, take_job}
use model_lib.Tpool.Threads.{Phase, ready, asleep, running, ended, System, Signal, update, init}

abbrev pub set : (ℤ → Bool) → ℤ → Bool → ℤ → Bool
set f fd b d = if int_eq d fd then b else f d

-- The pool, the connections that the kernel watches, and those that are open.
pub record Loop : Type 0 where
  pub sys : System
  pub armed : ℤ → Bool
  pub opened : ℤ → Bool

abbrev pub started_loop : Loop
started_loop = record { sys = init; armed = λ fd. false; opened = λ fd. false }

-- `p_args` for a packet.
abbrev pub args_of : ℤ → SendPack → SendPack → Args
args_of sockfd temp_recv sdpk = init_args sockfd temp_recv (record zero_args { sdpk = sdpk })

pub data Step (n : ℕ) (s : Loop) : Loop → Type 0 where
  -- A new connection, under a descriptor that is not in use.
  accept :
      (connfd : ℤ)
      → s.opened connfd ≡ false
      → Step n s (record s { armed = set s.armed connfd true; opened = set s.opened connfd true })
  -- An event whose packet becomes a job.
  packet :
      (sockfd : ℤ) (temp_recv sdpk : SendPack) (work : Ptr) (info : Args) {pool : Pool}
      {phase : ℕ → Phase}
      → s.armed sockfd ≡ true
      → int_eq temp_recv.send_cmd Cmd.client_exit ≡ false
      → copy_sendpack zero_pack temp_recv ≡ some sdpk
      → work ≢ 0
      → s.sys.pool.cell work ≡ none
      → work_info (args_of sockfd temp_recv sdpk) ≡ some info
      → tpool_add_work s.sys.pool work (args_of sockfd temp_recv sdpk) ≡ some pool
      → Signal n s.sys.phase phase
      → Step n s (record s {
        sys = record (s.sys) {
          pool = pool;
          phase = phase;
          submitted = s.sys.submitted ++ info ∷ [];
        };
        armed = set s.armed sockfd false;
      })
  -- An event whose packet says that the client ends.
  exit :
      (sockfd : ℤ)
      → s.armed sockfd ≡ true
      → Step n s (record s { armed = set s.armed sockfd false; opened = set s.opened sockfd false })
  -- A thread of the pool takes a job, and worker begins.
  take :
      (i : ℕ) (j : Args) {pool : Pool}
      → i < n
      → s.sys.phase i ≡ ready
      → take_job s.sys.pool ≡ job j pool
      → Step n s (record s {
        sys = record (s.sys) {
          pool = pool;
          phase = update s.sys.phase i (running j);
          started = s.sys.started ++ j ∷ [];
        };
      })
  sleep :
      (i : ℕ)
      → i < n
      → s.sys.phase i ≡ ready
      → take_job s.sys.pool ≡ wait
      → Step n s (record s { sys = record (s.sys) { phase = update s.sys.phase i asleep } })
  -- The handler has returned, and worker asks for the next event of its connection.
  rearm :
      (i : ℕ) (j : Args)
      → i < n
      → s.sys.phase i ≡ running j
      → Step n s (record s {
        sys = record (s.sys) { phase = update s.sys.phase i ready };
        armed = set s.armed j.fd true;
      })

pub data Reach (n : ℕ) : Loop → Type 0 where
  start : Reach n started_loop
  next : {s t : Loop} → Reach n s → Step n s t → Reach n t
