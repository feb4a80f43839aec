-- ===== src/Link/Unlink.antt =====
-- The walk of `remove_node` in link.c to the node before the one to go, and the write behind it.
use model_lib.Base.{
  ℕ, zero, suc, ◌≤◌, ◌≡◌, refl, ap, ◌∙◌, ◌≢◌, Bool, true, false, inl, inr, some, [], ◌∷◌, arith,
  ◌==◌, if◌then◌else◌, length, Bool-cases,
}
use mathlib.Core.Path.{subst}
use model_lib.Packet.{Node}
use model_lib.Link.{Ptr, null, Heap, write, ok, find_prev, unlink}
use model_lib.Link.Chain.{cell, Cells, has, Chain, SameOutside, Chain-write, load-ok, set_next-ok}
use model_lib.Link.Search.{found, any}

abbrev pub erase_first : (Node → Bool) → Cells → Cells
erase_first test [] = []
erase_first test ((a, n) ∷ xs) = if test n then xs else (a, n) ∷ erase_first test xs

-- A node that is found lies in the list, and NULL stands for none.
pub has-found :
    (test : Node → Bool) (xs : Cells) → any test xs ≡ true → has (found test null xs) xs ≡ true
has-found test [] h = absurd (cc)
has-found test ((a, n) ∷ xs) h = ground (arith, has-found test xs)

pub found_none : (test : Node → Bool) (xs : Cells) → any test xs ≡ false → found test null xs ≡ null
found_none test [] h = refl
found_none test ((a, n) ∷ xs) h = ground (arith, found_none test xs)

pub has-erase_first :
    (test : Node → Bool) (a : Ptr) (xs : Cells)
    → has a xs ≡ false
    → has a (erase_first test xs) ≡ false
has-erase_first test a [] h = refl
has-erase_first test a ((b, n) ∷ xs) h = ground (arith, has-erase_first test a xs)

-- What a removal leaves: the chain without the node, all else as it was.
pub record Unlinked (test : Node → Bool) (h g : Heap) (q : Ptr) (n : Node) (xs : Cells)
    : Type 0 where
  pub chain : Chain g q ((q, n) ∷ erase_first test xs)
  pub same : SameOutside ((q, n) ∷ xs) h g

unlink_here :
    (f : ℕ) (h : Heap) (q p r : Ptr) (n : Node)
    → q ≢ 0
    → h q ≡ some (cell n p)
    → unlink (suc f) q p r h ≡ ok tt (write h q (cell n r))
unfolding unlink find_prev
unlink_here f h q p r n ne holds =
    let here : (p == p) ≡ true = ground arith in
    rw (load-ok q ne holds, here, set_next-ok h q r ne holds)

unlink_later :
    (f : ℕ) (h : Heap) (q a p r : Ptr) (n : Node)
    → q ≢ 0
    → h q ≡ some (cell n a)
    → a ≢ p
    → unlink (suc f) q p r h ≡ unlink f a p r h
unfolding unlink find_prev
unlink_later f h q a p r n ne holds other =
    let away : (a == p) ≡ false = ground arith in rw (load-ok q ne holds, away)

module _ (test : Node → Bool) where
  -- `q` is a node before the one to go, `p`, whose successor is `r`.
  pub unlink-Unlinked :
      (fuel : ℕ) (h : Heap) (q : Ptr) (n : Node) (xs : Cells) (p r : Ptr) (m : Node)
      → Chain h q ((q, n) ∷ xs)
      → any test xs ≡ true
      → p ≡ found test null xs
      → h p ≡ some (cell m r)
      → length xs ≤ fuel
      → (g : Heap) × (unlink fuel q p r h ≡ ok tt g) × Unlinked test h g q n xs
  unfolding write
  unlink-Unlinked fuel h q n [] p r m c hit at_p holds lt = absurd (cc)
  unlink-Unlinked zero h q n ((a, k) ∷ xs) p r m c hit at_p holds lt = absurd (omega arith)
  unlink-Unlinked (suc f) h q n ((a, k) ∷ xs) p r m
        (b, at_q, ne, q_holds, out, (s, at_b, ne_a, a_holds, out_a, rest)) hit at_p holds lt =
      elim (Bool-cases (test k)) [
        | inl now ↦
            let p_is : p ≡ a = ground arith in
            let r_is : s ≡ r = ground arith in
            let q_at : h q ≡ some (cell n p) = ground arith in
            let away : has q xs ≡ false = ground arith in
            (
              write h q (cell n r),
              unlink_here f h q p r n ne q_at,
              record {
                chain = rw now (
                  r,
                  refl,
                  ne,
                  ground arith,
                  away,
                  Chain-write h r q (cell n r) xs (subst (λ t. Chain h t xs) r_is rest) away,
                );
                same = λ c o. ground arith;
              },
            )
        | inr later ↦
            let p_in : has p xs ≡ true = rw (at_p, later) (has-found test xs (ground arith)) in
            let other : b ≢ p = ground arith in
            let (g, run, done) =
              unlink-Unlinked f h a k xs p r m (s, refl, ne_a, a_holds, out_a, rest) (ground arith)
                (ground arith) holds (omega arith) in
            (
              g,
              unlink_later f h q b p r n ne q_holds other ∙ ap (λ t. unlink f t p r h) at_b ∙ run,
              record {
                chain = rw later (
                  a,
                  refl,
                  ne,
                  done.same q out ∙ q_holds ∙ ap (λ t. some (cell n t)) at_b,
                  ground (arith, has-erase_first test q xs),
                  done.chain,
                );
                same = λ c o. done.same c (ground arith);
              },
            )
      ]
