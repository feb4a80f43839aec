-- ===== src/Link/Search.antt =====
-- `search_node` of link.c finds the first node that its test takes.
use model_lib.Base.{
  ℕ, zero, suc, ◌<◌, ◌≡◌, Bool, false, ◌||◌, inl, inr, [], ◌∷◌, arith, ◌==◌, if◌then◌else◌, length,
  Bool-cases,
}
use model_lib.CString.{Buf}
use model_lib.Packet.{Node}
use model_lib.Link.{Ptr, null, Heap, ok, matches, search_loop, search_node}
use model_lib.Link.Chain.{Cells, Chain, IsList, load-ok}

-- The address of the first node taken, or what the pointer held before.
abbrev pub found : (Node → Bool) → Ptr → Cells → Ptr
found test object [] = object
found test object ((a, n) ∷ xs) = if test n then a else found test object xs

abbrev pub any : (Node → Bool) → Cells → Bool
any test [] = false
any test ((a, n) ∷ xs) = test n || any test xs

pub search_loop-found :
    (fuel : ℕ) (test : Node → Bool) (h : Heap) (p object : Ptr) (xs : Cells)
    → Chain h p xs
    → length xs < fuel
    → search_loop fuel test p object h ≡ ok (found test object xs) h
unfolding search_loop
search_loop-found zero test h p object xs c lt = absurd (omega arith)
search_loop-found (suc k) test h p object [] c lt = rw c
search_loop-found (suc k) test h p object ((a, n) ∷ xs) (q, at_a, ne, holds, out, rest) lt =
    let open_p : (a == null) ≡ false = ground arith in
    rw (at_a, open_p, load-ok a ne holds)
      (elim (Bool-cases (test n)) [
        | inl hit ↦ rw hit
        | inr miss ↦ rw miss (search_loop-found k test h q object xs rest (omega arith))
      ])

-- On a well-formed list, with a fuel above its length, search_node stores the address of the first
-- node that matches, leaves the pointer alone if none does, and writes no node.
pub search_node-found :
    (fuel : ℕ) {h : Heap} {head : Ptr} {xs : Cells} (object : Ptr) (content : Buf) (range : ℕ)
    → IsList h head xs
    → length xs < fuel
    → search_node fuel head object content range h ≡ ok (found (matches content range) object xs) h
unfolding search_node
search_node-found fuel {h} {xs} object content range is lt =
    rw (load-ok _ is.head_ne is.holds)
      (search_loop-found fuel (matches content range) h is.first object xs is.chain lt)
