-- ===== src/MainLoop/Single.antt =====
-- No connection has two handlers at a time.
use model_lib.Base.{
  ℕ, zero, suc, ◌+◌, ◌≤◌, ◌<◌, ◌≡◌, ◌≢◌, refl, sym, ap, ◌∙◌, Bool, true, false, Option, none, some,
  List, [], ◌∷◌, ◌++◌, arith, ℤ, pos, int_eq, int_eq_iff, int_eq_refl, Bool-cases, Option-cases,
  inl, inr,
}
use model_lib.Packet.{SendPack, zero_pack}
use model_lib.Work.{Args, init_args}
use model_lib.Work.Copy.{copy_sendpack}
use model_lib.Tpool.{work_info}
use model_lib.Tpool.Queue.{jobs}
use model_lib.Tpool.Threads
use model_lib.Tpool.Threads.{Phase, ready, asleep, running, System, Signal, update}
use model_lib.Tpool.Wakeup.{fifo}
use model_lib.MainLoop.{
  Loop, set, args_of, Step, accept, packet, exit, take, sleep, rearm, Reach, start, next,
}
use model_lib.MainLoop.Count.{
  bit, runs, total, occurs, occurs-append, total-update, total-Signal, two_running,
}

abbrev fd_of : ℤ → Option Args → ℤ
fd_of fd none = fd
fd_of fd (some j) = j.fd

-- A job keeps its connection's descriptor.
work_info-fd : (arg info : Args) → work_info arg ≡ some info → info.fd ≡ arg.fd
unfolding work_info
work_info-fd arg info h = elim (Option-cases (copy_sendpack zero_pack arg.sdpk)) [
  | inl bad ↦ let z : work_info arg ≡ none = rw (work_info, bad) refl in absurd (cc)
  | inr (p, good) ↦
      let z : work_info arg ≡ some (record arg { flag = pos 0; sdpk = p }) =
        rw (work_info, good) refl in
      ap (fd_of arg.fd) (sym h ∙ z)
]

args_of-fd : (sockfd : ℤ) (temp_recv sdpk : SendPack) → (args_of sockfd temp_recv sdpk).fd ≡ sockfd
unfolding init_args
args_of-fd sockfd temp_recv sdpk = refl

-- What of a connection is watched, waits, or runs, in a loop that has started some of its jobs.
abbrev Bounded : ℕ → Loop → Type 0
Bounded n s =
    (fd : ℤ)
    → bit (s.armed fd) + occurs fd s.sys.submitted + total n s.sys.phase fd
      ≤ occurs fd s.sys.started + bit (s.opened fd)

bit_le : (b : Bool) → bit b ≤ 1
bit_le true = omega arith
bit_le false = omega arith

accept-Bounded :
    (n : ℕ) (s : Loop) (connfd : ℤ)
    → s.opened connfd ≡ false
    → Bounded n s
    → Bounded n (record s { armed = set s.armed connfd true; opened = set s.opened connfd true })
accept-Bounded n s connfd free inv fd = elim (Bool-cases (int_eq fd connfd)) [
  | inl e ↦
      let same : fd ≡ connfd = (int_eq_iff fd connfd).0 e in
      let z : bit (s.opened fd) ≡ 0 = rw (same, free) refl in rw e (omega (arith, inv fd, z))
  | inr other ↦ rw other (inv fd)
]

-- The event is gone, and its job is queued.
packet-Bounded :
    (n : ℕ) (s : Loop) (sockfd : ℤ) (info : Args) (phase : ℕ → Phase) (sys : System)
    → s.armed sockfd ≡ true
    → info.fd ≡ sockfd
    → Signal n s.sys.phase phase
    → sys.submitted ≡ s.sys.submitted ++ info ∷ []
    → sys.started ≡ s.sys.started
    → sys.phase ≡ phase
    → Bounded n s
    → Bounded n (record s { sys = sys; armed = set s.armed sockfd false })
unfolding occurs
packet-Bounded n s sockfd info phase sys armed at sig sub begun ph inv fd =
    let more = occurs-append fd s.sys.submitted (info ∷ []) in
    let threads = total-Signal n s.sys.phase phase fd sig in
    elim (Bool-cases (int_eq fd sockfd)) [
      | inl e ↦
          let same : fd ≡ sockfd = (int_eq_iff fd sockfd).0 e in
          let one : bit (s.armed fd) ≡ 1 = rw (same, armed) refl in
          rw (sub, begun, ph, e, more, at, e) (omega (arith, inv fd, one, threads))
      | inr other ↦ rw (sub, begun, ph, other, more, at, other) (omega (arith, inv fd, threads))
    ]

exit-Bounded :
    (n : ℕ) (s : Loop) (sockfd : ℤ)
    → s.armed sockfd ≡ true
    → Bounded n s
    → Bounded n (record s { armed = set s.armed sockfd false; opened = set s.opened sockfd false })
exit-Bounded n s sockfd armed inv fd = elim (Bool-cases (int_eq fd sockfd)) [
  | inl e ↦
      let same : fd ≡ sockfd = (int_eq_iff fd sockfd).0 e in
      let one : bit (s.armed fd) ≡ 1 = rw (same, armed) refl in
      rw e (omega (arith, inv fd, one, bit_le (s.opened fd)))
  | inr other ↦ rw other (inv fd)
]

take-Bounded :
    (n : ℕ) (s : Loop) (i : ℕ) (j : Args) (sys : System)
    → i < n
    → s.sys.phase i ≡ ready
    → sys.submitted ≡ s.sys.submitted
    → sys.started ≡ s.sys.started ++ j ∷ []
    → sys.phase ≡ update s.sys.phase i (running j)
    → Bounded n s
    → Bounded n (record s { sys = sys })
unfolding occurs
take-Bounded n s i j sys lt at sub begun ph inv fd =
    let more = occurs-append fd s.sys.started (j ∷ []) in
    let idle : bit (runs fd (s.sys.phase i)) ≡ 0 = rw at refl in
    let threads = total-update n i s.sys.phase (running j) fd lt in
    rw (sub, begun, ph, more) (omega (arith, inv fd, threads, idle))

sleep-Bounded :
    (n : ℕ) (s : Loop) (i : ℕ)
    → i < n
    → s.sys.phase i ≡ ready
    → Bounded n s
    → Bounded n (record s { sys = record (s.sys) { phase = update s.sys.phase i asleep } })
sleep-Bounded n s i lt at inv fd =
    let idle : bit (runs fd (s.sys.phase i)) ≡ 0 = rw at refl in
    omega (arith, inv fd, total-update n i s.sys.phase asleep fd lt, idle)

rearm-Bounded :
    (n : ℕ) (s : Loop) (i : ℕ) (j : Args)
    → i < n
    → s.sys.phase i ≡ running j
    → Bounded n s
    → Bounded n (record s {
      sys = record (s.sys) { phase = update s.sys.phase i ready };
      armed = set s.armed j.fd true;
    })
rearm-Bounded n s i j lt at inv fd =
    let threads = total-update n i s.sys.phase ready fd lt in
    let busy : bit (runs fd (s.sys.phase i)) ≡ bit (int_eq fd j.fd) = rw at refl in
    elim (Bool-cases (int_eq fd j.fd)) [
      | inl e ↦
          let one : bit (int_eq fd j.fd) ≡ 1 = rw e refl in
          rw e (omega (arith, inv fd, threads, busy, one))
      | inr other ↦
          let none : bit (int_eq fd j.fd) ≡ 0 = rw other refl in
          rw other (omega (arith, inv fd, threads, busy, none))
    ]

Step-Bounded : (n : ℕ) (s t : Loop) → Step n s t → Bounded n s → Bounded n t
Step-Bounded n s _ (accept connfd free) inv = accept-Bounded n s connfd free inv
Step-Bounded n s _
      (packet sockfd temp_recv sdpk work info {pool} {phase} armed stays copied ne new is added sig)
      inv =
    packet-Bounded n s sockfd info phase
      (record (s.sys) { pool = pool; phase = phase; submitted = s.sys.submitted ++ info ∷ [] })
      armed (work_info-fd _ info is ∙ args_of-fd sockfd temp_recv sdpk) sig refl refl refl inv
Step-Bounded n s _ (exit sockfd armed) inv = exit-Bounded n s sockfd armed inv
Step-Bounded n s _ (take i j {pool} lt at got) inv =
    take-Bounded n s i j
      (record (s.sys) {
        pool = pool;
        phase = update s.sys.phase i (running j);
        started = s.sys.started ++ j ∷ [];
      })
      lt at refl refl refl inv
Step-Bounded n s _ (sleep i lt at none_there) inv = sleep-Bounded n s i lt at inv
Step-Bounded n s _ (rearm i j lt at) inv = rearm-Bounded n s i j lt at inv

started_loop-total : (n : ℕ) (fd : ℤ) → total n (λ i. ready) fd ≡ 0
unfolding total
started_loop-total zero fd = refl
started_loop-total (suc n) fd = rw (started_loop-total n fd) (omega arith)

Reach-Bounded : (n : ℕ) {s : Loop} → Reach n s → Bounded n s
unfolding occurs
Reach-Bounded n start fd = rw (started_loop-total n fd) (omega arith)
Reach-Bounded n (next r step) fd = Step-Bounded n _ _ step (Reach-Bounded n r) fd

-- What the loop does to the pool is a run of the pool.
Step-Threads : (n : ℕ) {s t : Loop} → Step n s t → Threads.Reach n s.sys → Threads.Reach n t.sys
Step-Threads n (accept connfd free) r = r
Step-Threads n (packet sockfd temp_recv sdpk work info armed stays copied ne new is added sig) r =
    Threads.next r (Threads.add work _ info ne new is added sig)
Step-Threads n (exit sockfd armed) r = r
Step-Threads n (take i j lt at got) r = Threads.next r (Threads.take i j lt at got)
Step-Threads n (sleep i lt at none_there) r = Threads.next r (Threads.sleep i lt at none_there)
Step-Threads n (rearm i j lt at) r = Threads.next r (Threads.finish i lt at)

Reach-Threads : (n : ℕ) {s : Loop} → Reach n s → Threads.Reach n s.sys
Reach-Threads n start = Threads.start
Reach-Threads n (next r step) = Step-Threads n step (Reach-Threads n r)

-- In every reachable state of the main loop over a pool with at least one thread, the jobs added
-- are those started and some that wait, in this order; and of each connection at most one thing
-- holds: it is watched for an event, one of its jobs waits, or one thread runs one.
pub one_per_connection :
    (n : ℕ) (s : Loop) (fd : ℤ)
    → 0 < n
    → Reach n s
    → (waiting : List Args) × (s.sys.submitted ≡ s.sys.started ++ waiting)
      × (bit (s.armed fd) + occurs fd waiting + total n s.sys.phase fd ≤ 1)
one_per_connection n s fd threads r =
    let (xs, queue, order) = fifo threads (Reach-Threads n r) in
    let parts = occurs-append fd s.sys.started (jobs xs) in
    let whole : occurs fd s.sys.submitted ≡ occurs fd s.sys.started + occurs fd (jobs xs) =
      ap (occurs fd) order ∙ parts in
    (jobs xs, order, omega (arith, Reach-Bounded n r fd, whole, bit_le (s.opened fd)))

-- In every reachable state of the main loop over the pool, two different threads that run jobs run
-- them for different connections: the handlers of one connection never overlap.
pub two_threads :
    (n : ℕ) (s : Loop) (i k : ℕ) (a b : Args)
    → Reach n s
    → i < n
    → k < n
    → i ≢ k
    → s.sys.phase i ≡ running a
    → s.sys.phase k ≡ running b
    → a.fd ≢ b.fd
two_threads n s i k a b r hi hk other at_i at_k same =
    let (waiting, order, few) = one_per_connection n s a.fd (omega arith) r in
    let runs_i : runs a.fd (s.sys.phase i) ≡ true = rw at_i (int_eq_refl a.fd) in
    let runs_k : runs a.fd (s.sys.phase k) ≡ true = rw (at_k, same) (int_eq_refl b.fd) in
    omega (arith, few, two_running n i k s.sys.phase a.fd hi hk other runs_i runs_k)
