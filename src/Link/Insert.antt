-- ===== src/Link/Insert.antt =====
-- `insert_node` of link.c puts a node in front of the list.
use model_lib.Base.{◌≡◌, refl, ◌≢◌, false, some, ◌∷◌, arith}
use model_lib.Packet.{Node}
use model_lib.Link.{Ptr, Heap, write, ok, insert_node}
use model_lib.Link.Chain.{cell, Cells, has, IsList, Chain-write, load-ok, set_next-ok}

insert_node_run :
    (h : Heap) (new head first r : Ptr) (d n : Node)
    → new ≢ 0
    → head ≢ 0
    → new ≢ head
    → h head ≡ some (cell d first)
    → h new ≡ some (cell n r)
    → insert_node new head h ≡ ok tt (write (write h new (cell n first)) head (cell d new))
unfolding insert_node write
insert_node_run h new head first r d n ne ne' other at_head at_new =
    rw (load-ok head ne' at_head, set_next-ok h new first ne at_new)
      (set_next-ok (write h new (cell n first)) head new {n = d} {r = first} ne' (ground arith))

-- insert_node with a node that is in no list makes it the first of the list, in front of all others
-- in their old order, and changes no other node.
insert_node-IsList :
    {h : Heap} {head : Ptr} {xs : Cells} (new : Ptr) {n : Node} {r : Ptr}
    → IsList h head xs
    → new ≢ 0
    → new ≢ head
    → has new xs ≡ false
    → h new ≡ some (cell n r)
    → (g : Heap) × (insert_node new head h ≡ ok tt g)
      × IsList g head ((new, n) ∷ xs)
      × ((a : Ptr) → a ≢ head → a ≢ new → g a ≡ h a)
unfolding write
insert_node-IsList {h} {head} {xs} new {n} {r} is ne other out at_new = (
  write (write h new (cell n is.first)) head (cell is.dummy new),
  insert_node_run h new head is.first r is.dummy n ne is.head_ne other is.holds at_new,
  record {
    first = new;
    dummy = is.dummy;
    head_ne = is.head_ne;
    holds = ground arith;
    apart = ground (arith, is.apart);
    chain = (
      is.first,
      refl,
      ne,
      ground arith,
      out,
      Chain-write (write h new (cell n is.first)) is.first head (cell is.dummy new) xs
          (Chain-write h is.first new (cell n is.first) xs is.chain out) is.apart,
    );
  },
  λ a a_ne a_new. ground arith,
)
