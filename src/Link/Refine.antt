-- ===== src/Link/Refine.antt =====
-- The lists of link.c as plain lists of nodes, which the handlers use.
use model_lib.Base.{
  ℕ, ◌<◌, ◌≡◌, refl, Bool, true, false, inl, inr, Option, none, some, List, [], ◌∷◌, arith,
  if◌then◌else◌, length, Bool-cases,
}
use model_lib.CString.{Buf}
use model_lib.Packet.{Node}
use model_lib.Link.{Ptr, Heap, Run, ok, fault, out_of_fuel, matches, remove_node}
use model_lib.Link.Chain.{Cells, IsList}
use model_lib.Link.Search.{any}
use model_lib.Link.Unlink.{erase_first}
use model_lib.Link.Remove.{remove_node-erase_first, remove_node-missing}

abbrev pub nodes : Cells → List Node
nodes [] = []
nodes ((a, n) ∷ xs) = n ∷ nodes xs

-- `remove_node` on a plain list: `none` where no node is taken.
unfoldable pub take_out : (Node → Bool) → List Node → Option (List Node)
take_out test [] = none
take_out test (n ∷ ns) =
    if test n then some ns else elim (take_out test ns) [ none ↦ none | some r ↦ some (n ∷ r) ]

-- A run on the heap does what the plain list says: the list behind `head` has the nodes that are
-- left, or both fail.
abbrev pub Refines : Ptr → Run (Unit {0}) → Option (List Node) → Type 0
Refines head (ok u g) (some ns) = (zs : Cells) × IsList g head zs × (nodes zs ≡ ns)
Refines head fault none = Unit
Refines head (ok u g) none = ⊥
Refines head fault (some ns) = ⊥
Refines head out_of_fuel r = ⊥

take_out-erase_first :
    (test : Node → Bool) (xs : Cells)
    → any test xs ≡ true
    → take_out test (nodes xs) ≡ some (nodes (erase_first test xs))
unfolding take_out
take_out-erase_first test [] h = absurd (cc)
take_out-erase_first test ((a, n) ∷ xs) h = elim (Bool-cases (test n)) [
  | inl now ↦ rw now
  | inr later ↦ rw later (rw (take_out-erase_first test xs (ground arith)) refl)
]

take_out-none :
    (test : Node → Bool) (xs : Cells) → any test xs ≡ false → take_out test (nodes xs) ≡ none
unfolding take_out
take_out-none test [] h = refl
take_out-none test ((a, n) ∷ xs) h = ground (arith, take_out-none test xs)

-- On every well-formed list, with a fuel above its length, the pointer code of remove_node and the
-- removal of the first matching node from a plain list agree: both leave the same nodes in the same
-- order, or both fail.
pub remove_node-Refines :
    (fuel : ℕ) {h : Heap} {head : Ptr} {xs : Cells} (content : Buf) (range : ℕ)
    → IsList h head xs
    → length xs < fuel
    → Refines head
        (remove_node fuel head content range h)
        (take_out (matches content range) (nodes xs))
remove_node-Refines fuel {xs} content range is lt =
    elim (Bool-cases (any (matches content range) xs)) [
      | inl hit ↦
          let (g, run, is', same) = remove_node-erase_first fuel content range is hit lt in
          rw (run, take_out-erase_first (matches content range) xs hit)
            (erase_first (matches content range) xs, is', refl)
      | inr miss ↦
          rw (remove_node-missing fuel content range is miss lt, take_out-none _ xs miss) tt
    ]
