-- ===== src/Link/Remove.antt =====
-- `remove_node` of link.c takes the first matching node out of the list.
use model_lib.Base.{
  ℕ, ◌<◌, ◌≡◌, refl, ap, ◌∙◌, ◌≢◌, Bool, true, false, inl, inr, some, [], ◌∷◌, arith, ◌==◌, length,
  Bool-cases,
}
use mathlib.Core.Path.{subst}
use model_lib.CString.{Buf}
use model_lib.Packet.{Node}
use model_lib.Link.{Ptr, null, Heap, write, ok, fault, matches, load, unlink, detach, remove_node}
use model_lib.Link.Chain.{cell, Cells, has, Chain, IsList, Chain-write, load-ok, set_next-ok}
use model_lib.Link.Unlink.{erase_first, has-found, found_none, has-erase_first, unlink-Unlinked}
use model_lib.Link.Search.{found, any, search_node-found}

-- The cell of the node that is found.
found_cell :
    (test : Node → Bool) (h : Heap) (p : Ptr) (xs : Cells)
    → Chain h p xs
    → any test xs ≡ true
    → (m : Node) × (r : Ptr) × (found test null xs ≢ 0) × (h (found test null xs) ≡ some (cell m r))
found_cell test h p [] c hit = absurd (cc)
found_cell test h p ((a, n) ∷ xs) (q, at_a, ne, holds, out, rest) hit = elim (Bool-cases (test n)) [
  | inl now ↦ (n, q, ground arith, ground arith)
  | inr later ↦
      let (m, r, ne', holds') = found_cell test h q xs rest (ground arith) in
      (m, r, ground arith, ground arith)
]

-- The two tests and the load in front of `detach`.
remove_node_run :
    (fuel : ℕ) {h : Heap} {head : Ptr} {xs : Cells} (content : Buf) (range : ℕ) {m : Node} {r : Ptr}
    → (is : IsList h head xs) → found (matches content range) null xs ≢ 0
    → h (found (matches content range) null xs) ≡ some (cell m r)
    → length xs < fuel
    → remove_node fuel head content range h
      ≡ detach fuel head (found (matches content range) null xs) is.first r h
unfolding remove_node
remove_node_run fuel {head} content range is ne holds lt = rw (
  search_node-found fuel null content range is lt,
  load-ok head is.head_ne is.holds,
  load-ok _ ne holds,
)

-- Both cases where the first node goes write the same pointer into the dummy.
detach_first :
    (fuel : ℕ) (h : Heap) (head p r : Ptr) (d : Node)
    → head ≢ 0
    → h head ≡ some (cell d p)
    → detach fuel head p p r h ≡ ok tt (write h head (cell d r))
unfolding detach
detach_first fuel h head p r d ne holds =
    let here : (p == p) ≡ true = ground arith in
    elim (Bool-cases (r == null)) [
      | inl last ↦
          let r_is : r ≡ 0 = ground arith in rw (here, r_is) (set_next-ok h head 0 ne holds)
      | inr more ↦ rw (here, more) (set_next-ok h head r ne holds)
    ]

detach_later :
    (fuel : ℕ) (h : Heap) (head p first r : Ptr)
    → first ≢ p
    → detach fuel head p first r h ≡ unlink fuel first p r h
unfolding detach
detach_later fuel h head p first r other =
    let away : (first == p) ≡ false = ground arith in
    elim (Bool-cases (r == null)) [ inl last ↦ rw (last, away) | inr more ↦ rw (more, away) ]

module _ (test : Node → Bool) where
  detach-IsList :
      (fuel : ℕ) (h : Heap) (head first : Ptr) (d : Node) (xs : Cells) (p r : Ptr) (m : Node)
      → head ≢ 0
      → h head ≡ some (cell d first)
      → has head xs ≡ false
      → Chain h first xs
      → any test xs ≡ true
      → p ≡ found test null xs
      → h p ≡ some (cell m r)
      → length xs < fuel
      → (g : Heap) × (detach fuel head p first r h ≡ ok tt g)
        × IsList g head (erase_first test xs)
        × ((a : Ptr) → a ≢ head → has a xs ≡ false → g a ≡ h a)
  unfolding write
  detach-IsList fuel h head first d [] p r m ne at_head apart c hit at_p holds lt = absurd (cc)
  detach-IsList fuel h head first d ((a, n) ∷ xs) p r m ne at_head apart
        (q, at_a, ne_a, a_holds, out, rest) hit at_p holds lt =
      elim (Bool-cases (test n)) [
        | inl now ↦
            let p_is : first ≡ p = ground arith in
            let r_is : q ≡ r = ground arith in
            let away : has head xs ≡ false = ground arith in
            (
              write h head (cell d r),
              ap (λ t. detach fuel head p t r h) p_is
                  ∙ detach_first fuel h head p r d ne (ground arith),
              rw now (record {
                first = r;
                dummy = d;
                head_ne = ne;
                holds = ground arith;
                apart = away;
                chain =
                    Chain-write h r head (cell d r) xs (subst (λ t. Chain h t xs) r_is rest) away;
              }),
              λ b b_ne b_out. ground arith,
            )
        | inr later ↦
            let p_in : has p xs ≡ true = rw (at_p, later) (has-found test xs (ground arith)) in
            let (g, run, done) =
              unlink-Unlinked test fuel h a n xs p r m (q, refl, ne_a, a_holds, out, rest)
                (ground arith) (ground arith) holds (omega arith) in
            (
              g,
              detach_later fuel h head p first r (ground arith)
                  ∙ ap (λ t. unlink fuel t p r h) at_a
                  ∙ run,
              rw later (record {
                first = a;
                dummy = d;
                head_ne = ne;
                holds = done.same head apart ∙ at_head ∙ ap (λ t. some (cell d t)) at_a;
                apart = ground (arith, has-erase_first test head xs);
                chain = done.chain;
              }),
              λ b b_ne b_out. done.same b b_out,
            )
      ]

-- On a well-formed list with a matching node, and a fuel above the list's length, remove_node takes
-- out the first such node, keeps the order of the others and changes nothing outside the list.
pub remove_node-erase_first :
    (fuel : ℕ) {h : Heap} {head : Ptr} {xs : Cells} (content : Buf) (range : ℕ)
    → IsList h head xs
    → any (matches content range) xs ≡ true
    → length xs < fuel
    → (g : Heap) × (remove_node fuel head content range h ≡ ok tt g)
      × IsList g head (erase_first (matches content range) xs)
      × ((a : Ptr) → a ≢ head → has a xs ≡ false → g a ≡ h a)
remove_node-erase_first fuel {h} {head} {xs} content range is hit lt =
    let test = matches content range in
    let (m, r, ne, holds) = found_cell test h is.first xs is.chain hit in
    let (g, run, is', same) =
      detach-IsList test fuel h head is.first is.dummy xs (found test null xs) r m is.head_ne
        is.holds is.apart is.chain hit refl holds lt in
    (g, remove_node_run fuel content range is ne holds lt ∙ run, is', same)

-- On a well-formed list where no node matches, with a fuel above its length, remove_node reads
-- through NULL.
pub remove_node-missing :
    (fuel : ℕ) {h : Heap} {head : Ptr} {xs : Cells} (content : Buf) (range : ℕ)
    → IsList h head xs
    → any (matches content range) xs ≡ false
    → length xs < fuel
    → remove_node fuel head content range h ≡ fault
unfolding remove_node
remove_node-missing fuel {h} {head} {xs} content range is miss lt = rw (
  search_node-found fuel null content range is lt,
  found_none _ xs miss,
  load-ok head is.head_ne is.holds,
  load,
)
