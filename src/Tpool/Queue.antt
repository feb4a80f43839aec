-- ===== src/Tpool/Queue.antt =====
-- The pointers of the job queue against a list of jobs: `enqueue` and `take_job` are the two ends
-- of a first-in first-out queue.
use model_lib.Base.{
  ◌≡◌, refl, ◌≢◌, Bool, true, false, ◌||◌, Option, none, some, List, [], ◌∷◌, ◌++◌, arith, ◌==◌,
  ◌∙◌,
}
use model_lib.Work.{Args}
use model_lib.Tpool.{Ptr, Work, Pool, store, append_tail, enqueue, wait, leave, job, take_job}

abbrev pub node : Args → Ptr → Work
node a q = record { info = a; next = q }

abbrev pub Slots : Type 0
Slots = List (Ptr × Args)

abbrev pub has : Ptr → Slots → Bool
has a [] = false
has a ((p, j) ∷ xs) = (a == p) || has a xs

abbrev pub jobs : Slots → List Args
jobs [] = []
jobs ((p, j) ∷ xs) = j ∷ jobs xs

-- From `p` the `next` pointers lead through `xs` to NULL, and the last node is at `tail`.
abbrev pub Chain : (Ptr → Option Work) → Ptr → Ptr → Slots → Type 0
Chain h tail p [] = p ≡ 0
Chain h tail p ((a, j) ∷ []) = (p ≡ a) × (a ≢ 0) × (h a ≡ some (node j 0)) × (tail ≡ a)
Chain h tail p ((a, j) ∷ (b, k) ∷ xs) =
    (p ≡ a)
    × (a ≢ 0)
    × (h a ≡ some (node j b))
    × (has a ((b, k) ∷ xs) ≡ false)
    × Chain h tail b ((b, k) ∷ xs)

-- The queue of a pool. While it is empty, `queue_tail` may point anywhere.
abbrev pub IsQueue : Pool → Slots → Type 0
IsQueue pool xs = Chain pool.cell pool.queue_tail pool.queue_head xs

-- A write at a new address.
Chain-store :
    (h : Ptr → Option Work) (tail p a : Ptr) (w : Work) (xs : Slots)
    → Chain h tail p xs
    → has a xs ≡ false
    → Chain (store h a w) tail p xs
unfolding store
Chain-store h tail p a w [] c out = c
Chain-store h tail p a w ((b, j) ∷ []) c out = ground arith
Chain-store h tail p a w ((b, j) ∷ (d, k) ∷ xs) (at_b, ne, holds, own, rest) out =
    (at_b, ne, ground arith, own, Chain-store h tail d a w ((d, k) ∷ xs) rest (ground arith))

-- The tail's node is in the queue.
tail_cell :
    (h : Ptr → Option Work) (tail p : Ptr) (x : Ptr × Args) (xs : Slots)
    → Chain h tail p (x ∷ xs)
    → (j : Args) × (h tail ≡ some (node j 0)) × (has tail (x ∷ xs) ≡ true)
tail_cell h tail p (a, j) [] c = (j, ground arith, ground arith)
tail_cell h tail p (a, j) (y ∷ xs) (at_a, ne, holds, own, rest) =
    let (k, at_tail, in_tail) = tail_cell h tail y.0 y xs rest in (k, at_tail, ground arith)

has-append : (a : Ptr) (xs ys : Slots) → has a (xs ++ ys) ≡ (has a xs || has a ys)
has-append a [] ys = refl
has-append a ((b, j) ∷ xs) ys = ground (arith, has-append a xs ys)

-- A node that hangs at the tail is the last of the queue.
Chain-snoc :
    (h : Ptr → Option Work) (tail p work : Ptr) (info last : Args) (x : Ptr × Args) (xs : Slots)
    → Chain h tail p (x ∷ xs)
    → h tail ≡ some (node last 0)
    → h work ≡ some (node info 0)
    → work ≢ 0
    → has work (x ∷ xs) ≡ false
    → Chain (store h tail (node last work)) work p (x ∷ xs ++ (work, info) ∷ [])
unfolding store
Chain-snoc h tail p work info last (a, j) [] (at_a, ne, holds, at_tail) last_at new ne_w out =
    (at_a, ne, ground arith, ground arith, (refl, ne_w, ground arith, refl))
Chain-snoc h tail p work info last (a, j) ((b, k) ∷ xs) (at_a, ne, holds, own, rest) last_at new
      ne_w out =
    let (m, at_tail, in_tail) = tail_cell h tail b (b, k) xs rest in
    let other : a ≢ tail = λ e. ground arith in
    (
      at_a,
      ne,
      ground arith,
      has-append a ((b, k) ∷ xs) ((work, info) ∷ []) ∙ ground arith,
      Chain-snoc h tail b work info last (b, k) xs rest last_at new ne_w (ground arith),
    )

pub jobs-append : (xs ys : Slots) → jobs (xs ++ ys) ≡ jobs xs ++ jobs ys
jobs-append [] ys = refl
jobs-append ((a, j) ∷ xs) ys = rw (jobs-append xs ys)

-- A node of the queue is allocated.
not-has-none :
    (h : Ptr → Option Work) (tail p a : Ptr) (xs : Slots)
    → Chain h tail p xs
    → h a ≡ none
    → has a xs ≡ false
not-has-none h tail p a [] c free = refl
not-has-none h tail p a ((b, j) ∷ []) c free = ground arith
not-has-none h tail p a ((b, j) ∷ (d, k) ∷ xs) (at_b, ne, holds, own, rest) free =
    ground (arith, not-has-none h tail d a ((d, k) ∷ xs) rest free)

pub head_ne :
    (h : Ptr → Option Work) (tail p : Ptr) (x : Ptr × Args) (xs : Slots)
    → Chain h tail p (x ∷ xs)
    → p ≢ 0
head_ne h tail p (a, j) [] c = ground arith
head_ne h tail p (a, j) (y ∷ xs) c = ground arith

enqueue_more :
    (pool : Pool) (work : Ptr) (info last : Args)
    → pool.queue_head ≢ 0
    → store pool.cell work (node info 0) pool.queue_tail ≡ some (node last 0)
    → enqueue pool work info
      ≡ some (record pool {
        cell = store (store pool.cell work (node info 0)) pool.queue_tail (node last work);
        queue_tail = work;
      })
unfolding enqueue append_tail
enqueue_more pool work info last ne at_tail = ground arith

-- Adding a job at an address that malloc has not given out before makes it the last one of the
-- queue, never goes through a dangling queue_tail, and leaves the shutdown switch.
pub enqueue-IsQueue :
    (pool : Pool) (xs : Slots) (work : Ptr) (info : Args)
    → IsQueue pool xs
    → work ≢ 0
    → pool.cell work ≡ none
    → (pool' : Pool) × (enqueue pool work info ≡ some pool')
      × IsQueue pool' (xs ++ (work, info) ∷ [])
      × (pool'.shutdown ≡ pool.shutdown)
unfolding enqueue store
enqueue-IsQueue pool [] work info q ne free = (
  record {
    shutdown = pool.shutdown;
    queue_head = work;
    queue_tail = work;
    cell = store pool.cell work (node info 0);
  },
  rw q,
  (refl, ne, ground arith, refl),
  refl,
)
enqueue-IsQueue pool (x ∷ xs) work info q ne free =
    let out = not-has-none pool.cell pool.queue_tail pool.queue_head work (x ∷ xs) q free in
    let h = store pool.cell work (node info 0) in
    let q' =
      Chain-store pool.cell pool.queue_tail pool.queue_head work (node info 0) (x ∷ xs) q out in
    let (last, at_tail, in_tail) = tail_cell h pool.queue_tail pool.queue_head x xs q' in
    (
      record pool { cell = store h pool.queue_tail (node last work); queue_tail = work },
      enqueue_more pool work info last (head_ne pool.cell pool.queue_tail pool.queue_head x xs q)
          at_tail,
      Chain-snoc h pool.queue_tail pool.queue_head work info last x xs q' at_tail (ground arith) ne
          out,
      refl,
    )

-- On a well-formed queue of a pool that is not shut down, a thread gets the job at the front, and
-- the others stay queued in their order.
pub take_job-cons :
    (pool : Pool) (a : Ptr) (j : Args) (xs : Slots)
    → IsQueue pool ((a, j) ∷ xs)
    → pool.shutdown ≡ false
    → (pool' : Pool) × (take_job pool ≡ job j pool') × IsQueue pool' xs × (pool'.shutdown ≡ false)
unfolding take_job
take_job-cons pool a j [] (at_a, ne, holds, at_tail) up =
    (record pool { queue_head = 0 }, ground arith, refl, up)
take_job-cons pool a j ((b, k) ∷ xs) (at_a, ne, holds, own, rest) up =
    (record pool { queue_head = b }, ground arith, rest, up)

-- A thread goes to sleep exactly on an empty queue that is not shut down.
pub take_job-nil : (pool : Pool) → IsQueue pool [] → pool.shutdown ≡ false → take_job pool ≡ wait
unfolding take_job
take_job-nil pool q up = rw (up, q)

pub take_job-shutdown : (pool : Pool) → pool.shutdown ≡ true → take_job pool ≡ leave
unfolding take_job
take_job-shutdown pool down = rw down
