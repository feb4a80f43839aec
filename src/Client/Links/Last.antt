-- ===== src/Client/Links/Last.antt =====
-- `search_node` of epoll+tpool/client/link.c finds the last node that its test takes.
use model_lib.Base.{
  ℕ, zero, suc, ◌<◌, ◌≡◌, refl, Bool, true, false, inl, inr, [], ◌∷◌, arith, ◌==◌, if◌then◌else◌,
  length, Bool-cases,
}
use model_lib.CString.{Buf}
use model_lib.Packet.{Node}
use model_lib.Link.{Ptr, null, Heap, ok, matches}
use model_lib.Link.Chain.{Cells, has, Chain, IsList, load-ok}
use model_lib.Link.Search.{any}
use model_lib.Client.Links.{search_loop, search_node}

abbrev pub found_last : (Node → Bool) → Ptr → Cells → Ptr
found_last test object [] = object
found_last test object ((a, n) ∷ xs) = found_last test (if test n then a else object) xs

search_loop-found_last :
    (fuel : ℕ) (test : Node → Bool) (h : Heap) (p object : Ptr) (xs : Cells)
    → Chain h p xs
    → length xs < fuel
    → search_loop fuel test p object h ≡ ok (found_last test object xs) h
unfolding search_loop
search_loop-found_last zero test h p object xs c lt = absurd (omega arith)
search_loop-found_last (suc k) test h p object [] c lt = rw c
search_loop-found_last (suc k) test h p object ((a, n) ∷ xs) (q, at_a, ne, holds, out, rest) lt =
    let open_p : (a == null) ≡ false = ground arith in
    rw (at_a, open_p, load-ok a ne holds)
      (search_loop-found_last k test h q (if test n then a else object) xs rest (omega arith))

pub search_node-found_last :
    (fuel : ℕ) {h : Heap} {head : Ptr} {xs : Cells} (object : Ptr) (content : Buf) (range : ℕ)
    → IsList h head xs
    → length xs < fuel
    → search_node fuel head object content range h
      ≡ ok (found_last (matches content range) object xs) h
unfolding search_node
search_node-found_last fuel {h} {xs} object content range is lt =
    rw (load-ok _ is.head_ne is.holds)
      (search_loop-found_last fuel (matches content range) h is.first object xs is.chain lt)

-- What the pointer held before is of no account once a node is taken, and kept otherwise.
pub found_last_same :
    (test : Node → Bool) (o p : Ptr) (xs : Cells)
    → any test xs ≡ true
    → found_last test o xs ≡ found_last test p xs
found_last_same test o p [] hit = absurd (cc)
found_last_same test o p ((a, n) ∷ xs) hit = elim (Bool-cases (test n)) [
  | inl now ↦ rw now refl
  | inr later ↦ rw later (found_last_same test o p xs (ground arith))
]

pub found_last_none :
    (test : Node → Bool) (o : Ptr) (xs : Cells) → any test xs ≡ false → found_last test o xs ≡ o
found_last_none test o [] miss = refl
found_last_none test o ((a, n) ∷ xs) miss =
    let no : test n ≡ false = ground arith in rw no (found_last_none test o xs (ground arith))

pub has-found_last :
    (test : Node → Bool) (o : Ptr) (xs : Cells)
    → any test xs ≡ true
    → has (found_last test o xs) xs ≡ true
has-found_last test o [] hit = absurd (cc)
has-found_last test o ((a, n) ∷ xs) hit = elim (Bool-cases (any test xs)) [
  | inl later ↦ ground (arith, has-found_last test (if test n then a else o) xs later)
  | inr none_later ↦
      let now : test n ≡ true = ground arith in
      rw (now, found_last_none test a xs none_later) (ground arith)
]
