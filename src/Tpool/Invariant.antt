-- ===== src/Tpool/Invariant.antt =====
-- The invariant of the thread pool of tpool.c: what the queue holds, and who watches it.
use model_lib.Base.{
  ℕ, ◌<◌, ◌≡◌, refl, ◌≢◌, Bool, true, false, inl, inr, some, List, [], ◌∷◌, ◌++◌, append_assoc,
  arith, ◌==◌, ap, sym, ◌∙◌, Bool-cases,
}
use mathlib.Core.Path.{subst}
use model_lib.Work.{Args}
use model_lib.Tpool.{Ptr, Pool, work_info, enqueue, tpool_add_work, wait, leave, job, take_job}
use model_lib.Tpool.Queue.{
  Slots, jobs, IsQueue, jobs-append, enqueue-IsQueue, take_job-cons, take_job-nil,
  take_job-shutdown,
}
use model_lib.Tpool.Threads.{
  Phase, ready, asleep, running, ended, System, init, Signal, woke, nobody, wake, Step, add,
  no_memory, take, sleep, quit, finish, switch_off, broadcast, Reach, start, next,
}

abbrev pub awake : Phase → Bool
awake ready = true
awake (running j) = true
awake asleep = false
awake ended = false

pub record Inv (n : ℕ) (s : System) : Type 0 where
  pub slots : Slots
  pub queue : IsQueue s.pool slots
  -- First in, first out: what was added is what was taken and then what is queued.
  pub order : s.submitted ≡ s.started ++ jobs slots
  pub alive : s.pool.shutdown ≡ false → (i : ℕ) → s.phase i ≢ ended
  pub watched :
      s.pool.shutdown ≡ false
      → s.pool.queue_head ≢ 0
      → (i : ℕ) × (i < n) × (awake (s.phase i) ≡ true)

Inv-init : (n : ℕ) → Inv n init
Inv-init n = record {
  slots = [];
  queue = refl;
  order = refl;
  alive = λ up i e. ground arith;
  watched = λ up full. absurd (full refl);
}

tpool_add_work_ok :
    (pool : Pool) (work : Ptr) (arg info : Args)
    → work ≢ 0
    → work_info arg ≡ some info
    → tpool_add_work pool work arg ≡ enqueue pool work info
unfolding tpool_add_work
tpool_add_work_ok pool work arg info ne e =
    let got : (work == 0) ≡ false = ground arith in rw (got, e)

awake_of : (p : Phase) → p ≢ asleep → p ≢ ended → awake p ≡ true
awake_of ready a b = refl
awake_of (running j) a b = refl
awake_of asleep a b = absurd (a refl)
awake_of ended a b = absurd (b refl)

-- After a signal some thread is awake.
Signal-awake :
    (n : ℕ) (f g : ℕ → Phase)
    → Signal n f g
    → 0 < n
    → ((i : ℕ) → f i ≢ ended)
    → (i : ℕ) × (i < n) × (awake (g i) ≡ true)
Signal-awake n f g (woke i lt e eq) pos alive = (i, lt, rw eq (ground arith))
Signal-awake n f g (nobody none_asleep eq) pos alive =
    (0, pos, rw eq (awake_of (f 0) (none_asleep 0 pos) (alive 0)))

Signal-alive :
    (n : ℕ) (f g : ℕ → Phase) → Signal n f g → ((i : ℕ) → f i ≢ ended) → (i : ℕ) → g i ≢ ended
Signal-alive n f g (woke j lt e eq) alive i = rw eq (ground (arith, alive i))
Signal-alive n f g (nobody none_asleep eq) alive i = rw eq (alive i)

-- A job that a thread gets was the first of the queue.
record Taken (pool pool' : Pool) (j : Args) (xs : Slots) : Type 0 where
  rest : Slots
  first : jobs xs ≡ j ∷ jobs rest
  queue : IsQueue pool' rest
  up : pool.shutdown ≡ false

take_job-Taken :
    (pool pool' : Pool) (j : Args) (xs : Slots)
    → IsQueue pool xs
    → take_job pool ≡ job j pool'
    → Taken pool pool' j xs
take_job-Taken pool pool' j xs q e = elim (Bool-cases pool.shutdown) [
  | inl down ↦ absurd (cc (take_job-shutdown pool down))
  | inr up ↦ taken xs q up
]
  where
    taken : (ys : Slots) → IsQueue pool ys → pool.shutdown ≡ false → Taken pool pool' j ys
    taken [] q' up = absurd (cc (take_job-nil pool q' up))
    taken ((a, k) ∷ ys) q' up =
        let (p, run, q'', up') = take_job-cons pool a k ys q' up in
        let same : p ≡ pool' = cc in
        let first : k ≡ j = cc in
        record {
          rest = ys;
          first = ap (λ t. t ∷ jobs ys) first;
          queue = subst (λ t. IsQueue t ys) same q'';
          up = up;
        }

-- A thread that goes to sleep has seen an empty queue.
wait_empty : (pool : Pool) → take_job pool ≡ wait → pool.queue_head ≡ 0
unfolding take_job
wait_empty pool e = ground arith

no_memory_pool : (p q : Pool) (arg : Args) → tpool_add_work p 0 arg ≡ some q → p ≡ q
unfolding tpool_add_work
no_memory_pool p q arg e = cc

add_order :
    (submitted started : List Args) (xs : Slots) (work : Ptr) (info : Args)
    → submitted ≡ started ++ jobs xs
    → submitted ++ info ∷ [] ≡ started ++ jobs (xs ++ (work, info) ∷ [])
add_order submitted started xs work info e = rw (e, jobs-append) (simp append_assoc)

take_order :
    (submitted started : List Args) (j : Args) (xs ys : Slots)
    → submitted ≡ started ++ jobs xs
    → jobs xs ≡ j ∷ jobs ys
    → submitted ≡ (started ++ j ∷ []) ++ jobs ys
take_order submitted started j xs ys e first = rw (e, first) (simp append_assoc)

awake-wake : (p : Phase) → awake p ≡ true → awake (wake p) ≡ true
awake-wake ready a = refl
awake-wake (running j) a = refl
awake-wake asleep a = cc
awake-wake ended a = cc

wake_ended : (p : Phase) → p ≢ ended → wake p ≢ ended
wake_ended ready a = ground arith
wake_ended (running j) a = ground arith
wake_ended asleep a = ground arith
wake_ended ended a = a

leave_down : (pool : Pool) → pool.shutdown ≡ false → take_job pool ≡ leave → ⊥
unfolding take_job
leave_down pool up e = ground arith

module _ {n : ℕ} (pos : 0 < n) where
  pub Step-Inv : {s t : System} → Step n s t → Inv n s → Inv n t
  Step-Inv {s} (add work arg info {pool} {phase} ne free made run sig) inv =
      let (pool', run', q, down) = enqueue-IsQueue s.pool inv.slots work info inv.queue ne free in
      let same : pool' ≡ pool = cc (tpool_add_work_ok s.pool work arg info ne made) in
      let down' : pool.shutdown ≡ s.pool.shutdown = cc in
      record {
        slots = inv.slots ++ (work, info) ∷ [];
        queue = subst (λ p. IsQueue p (inv.slots ++ (work, info) ∷ [])) same q;
        order = add_order s.submitted s.started inv.slots work info inv.order;
        alive = λ up. Signal-alive n s.phase phase sig (inv.alive (sym down' ∙ up));
        watched = λ up full. Signal-awake n s.phase phase sig pos (inv.alive (sym down' ∙ up));
      }
  Step-Inv {s} (no_memory arg {pool} run) inv =
      subst (λ p. Inv n (record s { pool = p })) (no_memory_pool s.pool pool arg run) inv
  Step-Inv {s} (take i j {pool} lt at_i run) inv =
      let t = take_job-Taken s.pool pool j inv.slots inv.queue run in
      record {
        slots = t.rest;
        queue = t.queue;
        order = take_order s.submitted s.started j inv.slots t.rest inv.order t.first;
        alive = λ up k. ground (arith, inv.alive t.up k);
        watched = λ up full. (i, lt, ground arith);
      }
  Step-Inv {s} (sleep i lt at_i run) inv = record {
    slots = inv.slots;
    queue = inv.queue;
    order = inv.order;
    alive = λ up k. ground (arith, inv.alive up k);
    watched = λ up full. absurd (full (wait_empty s.pool run));
  }
  Step-Inv {s} (quit i lt at_i run) inv = record {
    slots = inv.slots;
    queue = inv.queue;
    order = inv.order;
    alive = λ up. absurd (leave_down s.pool up run);
    watched = λ up full. absurd (leave_down s.pool up run);
  }
  Step-Inv {s} (finish i lt at_i) inv = record {
    slots = inv.slots;
    queue = inv.queue;
    order = inv.order;
    alive = λ up k. ground (arith, inv.alive up k);
    watched = λ up full. (i, lt, ground arith);
  }
  Step-Inv {s} switch_off inv = record {
    slots = inv.slots;
    queue = inv.queue;
    order = inv.order;
    alive = λ up. absurd (cc);
    watched = λ up full. absurd (cc);
  }
  Step-Inv {s} (broadcast down) inv = record {
    slots = inv.slots;
    queue = inv.queue;
    order = inv.order;
    alive = λ up k. wake_ended (s.phase k) (inv.alive up k);
    watched = λ up full. let (i, lt, a) = inv.watched up full in (i, lt, awake-wake (s.phase i) a);
  }

  pub Reach-Inv : {s : System} → Reach n s → Inv n s
  Reach-Inv start = Inv-init n
  Reach-Inv (next r st) = Step-Inv st (Reach-Inv r)
