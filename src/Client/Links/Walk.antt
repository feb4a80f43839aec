-- ===== src/Client/Links/Walk.antt =====
-- The walk of `remove_node` in epoll+tpool/client/link.c from the first node on.
use model_lib.Base.{
  ℕ, zero, suc, ◌<◌, ◌≤◌, ◌≡◌, refl, ap, ◌∙◌, ◌≢◌, Bool, true, false, inl, inr, some, [], ◌∷◌,
  arith, ◌==◌, if◌then◌else◌, length, Bool-cases,
}
use mathlib.Core.Path.{subst}
use model_lib.Packet.{Node}
use model_lib.Link.{Ptr, null, Heap, write, ok, fault, load, find_prev}
use model_lib.Link.Chain.{cell, Cells, has, Chain, Chain-write, load-ok}
use model_lib.Link.Search.{any}
use model_lib.Client.Links.Last.{found_last, found_last_same, found_last_none, has-found_last}

pub find_prev-null : (fuel : ℕ) (h : Heap) (p : Ptr) → 0 < fuel → find_prev fuel null p h ≡ fault
unfolding find_prev load
find_prev-null zero h p lt = absurd (omega arith)
find_prev-null (suc k) h p lt = refl

here :
    (k : ℕ) (h : Heap) (q p : Ptr) (n : Node)
    → q ≢ 0
    → h q ≡ some (cell n p)
    → find_prev (suc k) q p h ≡ ok q h
unfolding find_prev
here k h q p n ne holds = let hit : (p == p) ≡ true = ground arith in rw (load-ok q ne holds, hit)

further :
    (k : ℕ) (h : Heap) (q a p : Ptr) (n : Node)
    → q ≢ 0
    → h q ≡ some (cell n a)
    → a ≢ p
    → find_prev (suc k) q p h ≡ find_prev k a p h
unfolding find_prev
further k h q a p n ne holds other =
    let away : (a == p) ≡ false = ground arith in rw (load-ok q ne holds, away)

-- If no later node is `p`, the walk goes through NULL.
pub find_prev-off :
    (fuel : ℕ) (h : Heap) (q p : Ptr) (n : Node) (xs : Cells)
    → Chain h q ((q, n) ∷ xs)
    → has p xs ≡ false
    → p ≢ 0
    → suc (length xs) < fuel
    → find_prev fuel q p h ≡ fault
find_prev-off zero h q p n xs c out ne lt = absurd (omega arith)
find_prev-off (suc zero) h q p n xs c out ne lt = absurd (omega arith)
find_prev-off (suc (suc k)) h q p n [] (b, at_q, ne_q, holds, out_q, rest) out ne lt =
    let b_is : b ≡ 0 = rest in
    further (suc k) h q b p n ne_q holds (omega arith)
    ∙ ap (λ t. find_prev (suc k) t p h) b_is
    ∙ find_prev-null (suc k) h p (omega arith)
find_prev-off (suc (suc k)) h q p n ((a, m) ∷ xs)
      (b, at_q, ne_q, holds, out_q, (s, at_b, ne_a, a_holds, out_a, rest)) out ne lt =
    let other : b ≢ p = ground arith in
    further (suc k) h q b p n ne_q holds other
    ∙ ap (λ t. find_prev (suc k) t p h) at_b
    ∙ find_prev-off (suc k) h a p m xs (s, refl, ne_a, a_holds, out_a, rest) (ground arith) ne
        (omega arith)

-- The walk to NULL ends at the last node.
pub find_prev-end :
    (fuel : ℕ) (h : Heap) (q : Ptr) (n : Node) (xs : Cells)
    → Chain h q ((q, n) ∷ xs)
    → length xs < fuel
    → (last : Ptr) × (find_prev fuel q null h ≡ ok last h)
find_prev-end zero h q n xs c lt = absurd (omega arith)
find_prev-end (suc k) h q n [] (b, at_q, ne_q, holds, out_q, rest) lt =
    (q, here k h q null n ne_q (ground arith))
find_prev-end (suc k) h q n ((a, m) ∷ xs)
      (b, at_q, ne_q, holds, out_q, (s, at_b, ne_a, a_holds, out_a, rest)) lt =
    let (last, run) =
      find_prev-end k h a m xs (s, refl, ne_a, a_holds, out_a, rest) (omega arith) in
    let other : b ≢ null = ground arith in
    (last, further k h q b null n ne_q holds other ∙ ap (λ t. find_prev k t null h) at_b ∙ run)

-- The list without the last node that is taken.
abbrev pub erase_last : (Node → Bool) → Cells → Cells
erase_last test [] = []
erase_last test ((a, n) ∷ xs) =
    if any test xs then (a, n) ∷ erase_last test xs else if test n then xs else (a, n) ∷ xs

pub has-erase_last :
    (test : Node → Bool) (a : Ptr) (xs : Cells)
    → has a xs ≡ false
    → has a (erase_last test xs) ≡ false
has-erase_last test a [] out = refl
has-erase_last test a ((b, n) ∷ xs) out = ground (arith, has-erase_last test a xs)

-- Where the walk to a later node `p` ends, and what the write there leaves.
pub record Removed (test : Node → Bool) (fuel : ℕ) (h : Heap) (q p r : Ptr) (n : Node) (xs : Cells)
    : Type 0 where
  pub prev : Ptr
  pub node : Node
  pub run : find_prev fuel q p h ≡ ok prev h
  pub prev_ne : prev ≢ 0
  pub holds : h prev ≡ some (cell node p)
  pub inside : has prev ((q, n) ∷ xs) ≡ true
  pub chain : Chain (write h prev (cell node r)) q ((q, n) ∷ erase_last test xs)

module _ (test : Node → Bool) where
  -- `q` is a node before the last one that is taken, `p`, whose successor is `r`.
  pub find_prev-Removed :
      (fuel : ℕ) (h : Heap) (q : Ptr) (n : Node) (xs : Cells) (p r : Ptr) (m : Node)
      → Chain h q ((q, n) ∷ xs)
      → any test xs ≡ true
      → p ≡ found_last test null xs
      → h p ≡ some (cell m r)
      → length xs ≤ fuel
      → Removed test fuel h q p r n xs
  unfolding write
  find_prev-Removed fuel h q n [] p r m c hit at_p holds le = absurd (cc)
  find_prev-Removed zero h q n ((a, k) ∷ xs) p r m c hit at_p holds le = absurd (omega arith)
  find_prev-Removed (suc f) h q n ((a, k) ∷ xs) p r m
        (b, at_q, ne, q_holds, out, (s, at_b, ne_a, a_holds, out_a, rest)) hit at_p holds le =
      elim (Bool-cases (any test xs)) [
        | inl later ↦
            let at_p' : p ≡ found_last test null xs =
              at_p ∙ found_last_same test (if test k then a else null) null xs later in
            let p_in : has p xs ≡ true = rw at_p' (has-found_last test null xs later) in
            let other : b ≢ p = ground arith in
            let done =
              find_prev-Removed f h a k xs p r m (s, refl, ne_a, a_holds, out_a, rest) later at_p'
                holds (omega arith) in
            let away : q ≢ done.prev = ground (arith, done.inside) in
            record {
              prev = done.prev;
              node = done.node;
              run =
                  further f h q b p n ne q_holds other
                  ∙ ap (λ t. find_prev f t p h) at_b
                  ∙ done.run;
              prev_ne = done.prev_ne;
              holds = done.holds;
              inside = ground (arith, done.inside);
              chain =
                  rw later (
                    a,
                    refl,
                    ne,
                    ground arith,
                    ground (arith, has-erase_last test q xs),
                    done.chain,
                  );
            }
        | inr none_later ↦
            let now : test k ≡ true = ground arith in
            let p_is : p ≡ a = rw (at_p, now, found_last_none test a xs none_later) refl in
            let r_is : s ≡ r = ground arith in
            let q_at : h q ≡ some (cell n p) = ground arith in
            let away : has q xs ≡ false = ground arith in
            record {
              prev = q;
              node = n;
              run = here f h q p n ne q_at;
              prev_ne = ne;
              holds = q_at;
              inside = ground arith;
              chain =
                  rw (none_later, now)
                    (
                      r,
                      refl,
                      ne,
                      ground arith,
                      away,
                      Chain-write h r q (cell n r) xs (subst (λ t. Chain h t xs) r_is rest) away,
                    );
            }
      ]
