-- ===== src/Client/Links.antt =====
-- The lists of epoll+tpool/client/link.c. Its init_node and insert_node are those of the server's
-- link.c; search and removal differ.
pub mod Last
pub mod Walk
pub mod Refine
use model_lib.Base.{ℕ, zero, suc, Bool, true, false, ◌==◌, if◌then◌else◌}
use model_lib.CString.{Buf}
use model_lib.Packet.{Node}
use model_lib.Link.{Ptr, null, Op, pure, ◌>>=◌, out_of_fuel, load, set_next, matches, find_prev}

-- The loop from `p`. The `break` of the server's loop is missing: a later node that is taken
-- replaces an earlier one.
unfoldable pub search_loop : (fuel : ℕ) → (Node → Bool) → Ptr → (object : Ptr) → Op Ptr
unfolding load
search_loop zero test p object = λ _. out_of_fuel
search_loop (suc k) test p object =
    if p == null
    then pure object
    else do c ← load p; search_loop k test c.next (if test c.node then p else object)

unfoldable pub search_node :
    (fuel : ℕ) → (head object : Ptr) → (content : Buf) → (range : ℕ) → Op Ptr
unfolding search_loop
search_node fuel head object content range = do
  c ← load head
  search_loop fuel (matches content range) c.next object

-- There is no case for the first node: the walk begins at it, and looks at its `next` only.
unfoldable pub remove_node :
    (fuel : ℕ) → (head : Ptr) → (content : Buf) → (range : ℕ) → Op (Unit {0})
unfolding search_node find_prev set_next
remove_node fuel head content range = do
  p ← search_node fuel head null content range
  h ← load head
  q ← find_prev fuel h.next p
  c ← load p
  set_next q c.next
