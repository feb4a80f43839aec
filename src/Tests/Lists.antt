-- ===== src/Tests/Lists.antt =====
-- A linked list of two nodes, for the server's link.c and for the client's.
use model_lib.Base.{refl, [], ◌∷◌, arith, pos, some, none, ℕ, ◌==◌, if◌then◌else◌}
use model_lib.CString.{Text}
use model_lib.Packet.{Node, zero_node}
use model_lib.Link.{Heap, matches, remove_node}
use model_lib.Link.Chain.{cell, Cells, IsList}
use model_lib.Link.Refine.{take_out, Refines, remove_node-Refines}
use model_lib.Client.Links
use model_lib.Client.Links.Refine.{take_out_last, remove_node-take_out_last}

abbrev user : ℕ → Node
user id = record zero_node { id1 = pos id }

-- The dummy node at 1, user 4 at 2, user 6 at 3, and user 9 at 5, in no list.
abbrev heap : Heap
heap a =
    if a == 1
    then some (cell zero_node 2)
    else if a == 2
    then some (cell (user 4) 3)
    else if a == 3
    then some (cell (user 6) 0)
    else if a == 5
    then some (cell (user 9) 0)
    else none

abbrev two_users : Cells
two_users = (2, user 4) ∷ (3, user 6) ∷ []

heap-IsList : IsList heap 1 two_users
heap-IsList = record {
  first = 2;
  dummy = zero_node;
  head_ne = omega arith;
  holds = refl;
  apart = refl;
  chain = (3, refl, omega arith, refl, refl, (0, refl, omega arith, refl, refl, refl));
}

-- The digit 6.
abbrev six : Text
six = 54 ∷ []

remove_node-Refines_example :
    Refines 1 (remove_node 3 1 six 1 heap) (take_out (matches six 1) (user 4 ∷ user 6 ∷ []))
remove_node-Refines_example = remove_node-Refines 3 six 1 heap-IsList (omega arith)

remove_node-take_out_last_example :
    Refines 1
      (Links.remove_node 3 1 six 1 heap)
      (take_out_last (matches six 1) (user 4 ∷ user 6 ∷ []))
remove_node-take_out_last_example = remove_node-take_out_last 3 six 1 heap-IsList (omega arith)
