-- ===== src/Link.antt =====
-- epoll+tpool/server/link.c: singly linked lists behind a dummy head, on an explicit heap.
pub mod Chain
pub mod Search
pub mod Unlink
pub mod Remove
pub mod Insert
pub mod Refine
use model_lib.Base.{
  ℕ, zero, suc, Bool, true, false, ◌&&◌, not, Option, none, some, ◌==◌, if◌then◌else◌, ℤ, int_eq,
}
use model_lib.CString.{Buf, mem_eq}
use model_lib.CString.Decimal.{atoi}
use model_lib.Packet.{Node}

abbrev pub Ptr : Type 0
Ptr = ℕ

abbrev pub null : Ptr
null = 0

-- `struct node`, its `next` pointer apart.
pub record Cell : Type 0 where
  pub node : Node
  pub next : Ptr

abbrev pub Heap : Type 0
Heap = Ptr → Option Cell

unfoldable pub write : Heap → Ptr → Cell → Heap
write h p c a = if a == p then some c else h a

-- A fault is a read through NULL or through a pointer to nothing.
pub data Run (A : Type 0) : Type 0 where
  ok : A → Heap → Run A
  fault : Run A
  out_of_fuel : Run A

abbrev pub Op : Type 0 → Type 0
Op A = Heap → Run A

abbrev pub pure : {A : Type 0} → A → Op A
pure = ok

infixl 5 ◌>>=◌ ◌>>◌
abbrev pub after : {A B : Type 0} → Run A → (A → Op B) → Run B
after (ok a h) k = k a h
after fault k = fault
after out_of_fuel k = out_of_fuel

abbrev pub ◌>>=◌ : {A B : Type 0} → Op A → (A → Op B) → Op B
m >>= k = λ h. after (m h) k

abbrev pub ◌>>◌ : {B : Type 0} → Op (Unit {0}) → Op B → Op B
m >> k = m >>= λ _. k

-- `*p`
unfoldable pub load : Ptr → Op Cell
load p h = if p == null then fault else elim (h p) [ none ↦ fault | some c ↦ ok c h ]

-- `p->next = q`
unfoldable pub set_next : Ptr → Ptr → Op (Unit {0})
unfolding load write
set_next p q = do c ← load p; λ h. ok tt (write h p (record c { next = q }))

-- `init_node`: `fresh` is what `malloc` returned, and the new node's other bytes are `junk`.
unfoldable pub init_node : (fresh : Ptr) → Node → Op Ptr
unfolding write
init_node fresh junk h =
    if fresh == null then fault else ok fresh (write h fresh (record { node = junk; next = null }))

unfoldable pub insert_node : (new head : Ptr) → Op (Unit {0})
unfolding set_next
insert_node new head = do c ← load head; set_next new c.next; set_next head new

-- The test of `search_node` on a node, for its three ranges: `content` is a number's digits for an
-- id or a descriptor. For a name the node is taken when `memcmp` finds a difference.
unfoldable pub matches : (content : Buf) → (range : ℕ) → Node → Bool
matches content range n =
    if range == 1
    then int_eq (atoi content) n.id1
    else if range == 2
    then int_eq (atoi content) n.fd
    else if range == 3
    then not (mem_eq content n.name)
    else false

-- The loop from `p`; `object` keeps its value if no node is taken.
unfoldable pub search_loop : (fuel : ℕ) → (Node → Bool) → Ptr → (object : Ptr) → Op Ptr
unfolding load
search_loop zero test p object = λ _. out_of_fuel
search_loop (suc k) test p object =
    if p == null
    then pure object
    else do c ← load p; if test c.node then pure p else search_loop k test c.next object

unfoldable pub search_node :
    (fuel : ℕ) → (head object : Ptr) → (content : Buf) → (range : ℕ) → Op Ptr
unfolding search_loop
search_node fuel head object content range = do
  c ← load head
  search_loop fuel (matches content range) c.next object

-- `while(1) { if(q->next == p) break; q = q->next; }`
unfoldable pub find_prev : (fuel : ℕ) → (q p : Ptr) → Op Ptr
unfolding load
find_prev zero q p = λ _. out_of_fuel
find_prev (suc k) q p = do c ← load q; if c.next == p then pure q else find_prev k c.next p

-- The general case of `remove_node`, where `p` is not the first node and `next` is `p->next`.
unfoldable pub unlink : (fuel : ℕ) → (q p next : Ptr) → Op (Unit {0})
unfolding find_prev set_next
unlink fuel q p next = do prev ← find_prev fuel q p; set_next prev next

-- The three ways out of the list: the only node, the first one, a later one.
unfoldable pub detach : (fuel : ℕ) → (head p : Ptr) → (first next : Ptr) → Op (Unit {0})
unfolding unlink
detach fuel head p first next =
    if (next == null) && (first == p)
    then set_next head null
    else if first == p
    then set_next head next
    else unlink fuel first p next

unfoldable pub remove_node :
    (fuel : ℕ) → (head : Ptr) → (content : Buf) → (range : ℕ) → Op (Unit {0})
unfolding search_node detach
remove_node fuel head content range = do
  p ← search_node fuel head null content range
  h ← load head
  c ← load p
  detach fuel head p h.next c.next
