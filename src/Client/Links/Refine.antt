-- ===== src/Client/Links/Refine.antt =====
-- `remove_node` of epoll+tpool/client/link.c against a removal from a plain list of nodes.
use model_lib.Base.{
  ℕ, suc, ◌<◌, ◌≡◌, refl, ap, ◌∙◌, ◌≢◌, Bool, true, false, inl, inr, Option, none, some, List, [],
  ◌∷◌, ◌||◌, arith, if◌then◌else◌, length, Bool-cases,
}
use model_lib.CString.{Buf}
use model_lib.Packet.{Node}
use model_lib.Link.{
  Ptr, null, Heap, Op, Cell, write, ok, ◌>>=◌, fault, load, set_next, matches, find_prev,
}
use model_lib.Link.Chain.{cell, Cells, Chain, IsList, load-ok, set_next-ok}
use model_lib.Link.Search.{any}
use model_lib.Link.Refine.{nodes, Refines}
use model_lib.Client.Links.{remove_node}
use model_lib.Client.Links.Last.{
  found_last, search_node-found_last, found_last_same, found_last_none,
}
use model_lib.Client.Links.Walk.{
  find_prev-null, find_prev-off, find_prev-end, erase_last, has-erase_last, find_prev-Removed,
}

abbrev takes : (Node → Bool) → List Node → Bool
takes test [] = false
takes test (n ∷ ns) = test n || takes test ns

abbrev without_last : (Node → Bool) → List Node → List Node
without_last test [] = []
without_last test (n ∷ ns) =
    if takes test ns then n ∷ without_last test ns else if test n then ns else n ∷ ns

-- `remove_node` on a plain list: a node behind the first has to be taken.
unfoldable pub take_out_last : (Node → Bool) → List Node → Option (List Node)
take_out_last test [] = none
take_out_last test (n ∷ ns) = if takes test ns then some (n ∷ without_last test ns) else none

takes-nodes : (test : Node → Bool) (xs : Cells) → takes test (nodes xs) ≡ any test xs
takes-nodes test [] = refl
takes-nodes test ((a, n) ∷ xs) = rw (takes-nodes test xs) refl

without_last-nodes :
    (test : Node → Bool) (xs : Cells) → without_last test (nodes xs) ≡ nodes (erase_last test xs)
without_last-nodes test [] = refl
without_last-nodes test ((a, n) ∷ xs) = elim (Bool-cases (any test xs)) [
  | inl later ↦ rw (takes-nodes test xs, later, without_last-nodes test xs) refl
  | inr none_later ↦ elim (Bool-cases (test n)) [
    | inl now ↦ rw (takes-nodes test xs, none_later, now) refl
    | inr not_now ↦ rw (takes-nodes test xs, none_later, not_now) refl
  ]
]

-- What is left of the search when the first node is the last one taken, or none is.
found_last-off :
    (test : Node → Bool) (a : Ptr) (n : Node) (xs : Cells)
    → any test xs ≡ false
    → found_last test null ((a, n) ∷ xs) ≡ (if test n then a else null)
found_last-off test a n xs miss = found_last_none test (if test n then a else null) xs miss

found_cell :
    (test : Node → Bool) (h : Heap) (p : Ptr) (xs : Cells)
    → Chain h p xs
    → any test xs ≡ true
    → (m : Node) × (r : Ptr) × (h (found_last test null xs) ≡ some (cell m r))
      × (found_last test null xs ≢ 0)
found_cell test h p [] c hit = absurd (cc)
found_cell test h p ((a, n) ∷ xs) (q, at_a, ne, holds, out, rest) hit =
    elim (Bool-cases (any test xs)) [
      | inl later ↦
          let same = found_last_same test (if test n then a else null) null xs later in
          let (m, r, holds', ne') = found_cell test h q xs rest later in
          (m, r, rw same holds', rw same ne')
      | inr none_later ↦
          let now : test n ≡ true = ground arith in
          let is_a : found_last test null ((a, n) ∷ xs) ≡ a =
            rw (now, found_last_none test a xs none_later) refl in
          (n, q, rw is_a holds, rw is_a ne)
    ]

take_out_last-none :
    (test : Node → Bool) (a : Ptr) (n : Node) (xs : Cells)
    → take_out_last test (nodes ((a, n) ∷ xs)) ≡ none
    → any test xs ≡ false
unfolding take_out_last
take_out_last-none test a n xs miss = ground (arith, takes-nodes test xs)

take_out_last-some :
    (test : Node → Bool) (a : Ptr) (n : Node) (xs : Cells)
    → any test xs ≡ true
    → take_out_last test (nodes ((a, n) ∷ xs)) ≡ some (nodes ((a, n) ∷ erase_last test xs))
unfolding take_out_last
take_out_last-some test a n xs hit = rw (takes-nodes test xs, hit, without_last-nodes test xs) refl

write_elsewhere :
    (h : Heap) (p a : Ptr) (c d : Cell) → a ≢ p → h a ≡ some d → write h p c a ≡ some d
unfolding write
write_elsewhere h p a c d other holds = ground arith

-- The walk, and the write behind it.
unlink_from : (fuel : ℕ) → (first p : Ptr) → Op (Unit {0})
unfolding find_prev set_next
unlink_from fuel first p = do q ← find_prev fuel first p; c ← load p; set_next q c.next

unlink_from-fault :
    (fuel : ℕ) (h : Heap) (first p : Ptr)
    → find_prev fuel first p h ≡ fault
    → unlink_from fuel first p h ≡ fault
unfolding unlink_from
unlink_from-fault fuel h first p off = rw off

unlink_from-null :
    (fuel : ℕ) (h : Heap) (first q : Ptr)
    → find_prev fuel first null h ≡ ok q h
    → unlink_from fuel first null h ≡ fault
unfolding unlink_from load
unlink_from-null fuel h first q run = rw run

module _ (fuel : ℕ) {h : Heap} {head : Ptr} (content : Buf) (range : ℕ) where
  remove_node_run :
      {xs : Cells} (is : IsList h head xs)
      → length xs < fuel
      → remove_node fuel head content range h
        ≡ unlink_from fuel is.first (found_last (matches content range) null xs) h
  unfolding remove_node unlink_from
  remove_node_run {xs} is lt =
      rw (search_node-found_last fuel null content range is lt, load-ok head is.head_ne is.holds)

  -- A node behind the first is taken.
  removes :
      (a : Ptr) (n : Node) (xs : Cells)
      → IsList h head ((a, n) ∷ xs)
      → any (matches content range) xs ≡ true
      → suc (length xs) < fuel
      → (g : Heap) × (remove_node fuel head content range h ≡ ok tt g)
        × IsList g head ((a, n) ∷ erase_last (matches content range) xs)
  unfolding unlink_from
  removes a n xs is hit lt =
      let test = matches content range in
      let (b, at_a, ne, holds, out, rest) = is.chain in
      let same = found_last_same test (if test n then a else null) null xs hit in
      let (m, r, p_holds, p_ne) = found_cell test h b xs rest hit in
      let p = found_last test null xs in
      let done =
        find_prev-Removed test fuel h a n xs p r m (b, refl, ne, holds, out, rest) hit refl p_holds
          (omega arith) in
      let run : unlink_from fuel a p h ≡ ok tt (write h done.prev (cell done.node r)) =
        rw (done.run, load-ok p p_ne p_holds) (set_next-ok h done.prev r done.prev_ne done.holds) in
      let away : head ≢ done.prev = ground (arith, done.inside, is.apart) in
      (
        write h done.prev (cell done.node r),
        remove_node_run is lt
            ∙ ap (λ t. unlink_from fuel is.first t h) same
            ∙ ap (λ t. unlink_from fuel t p h) at_a
            ∙ run,
        record {
          first = a;
          dummy = is.dummy;
          head_ne = is.head_ne;
          holds =
              write_elsewhere h done.prev head (cell done.node r) (cell is.dummy a) away
                (is.holds ∙ ap (λ t. some (cell is.dummy t)) at_a);
          apart = ground (arith, is.apart, has-erase_last test head xs);
          chain = done.chain;
        },
      )

  -- Otherwise the walk or the load behind it goes through NULL.
  fails :
      (xs : Cells)
      → IsList h head xs
      → take_out_last (matches content range) (nodes xs) ≡ none
      → length xs < fuel
      → remove_node fuel head content range h ≡ fault
  fails [] is miss lt =
      remove_node_run is lt
      ∙ unlink_from-fault fuel h is.first null
          (ap (λ t. find_prev fuel t null h) is.chain ∙ find_prev-null fuel h null lt)
  fails ((a, n) ∷ xs) is miss lt =
      let test = matches content range in
      let off : any test xs ≡ false = take_out_last-none test a n xs miss in
      let (b, at_a, ne, holds, out, rest) = is.chain in
      let run =
        remove_node_run is lt
        ∙ ap (λ t. unlink_from fuel is.first t h) (found_last-off test a n xs off)
        ∙ ap (λ t. unlink_from fuel t (if test n then a else null) h) at_a in
      elim (Bool-cases (test n)) [
        | inl now ↦
            run
            ∙ rw now (
                unlink_from-fault fuel h a a
                  (find_prev-off fuel h a a n xs (b, refl, ne, holds, out, rest) out ne lt))
        | inr not_now ↦
            let (last, end) =
              find_prev-end fuel h a n xs (b, refl, ne, holds, out, rest) (omega arith) in
            run ∙ rw not_now (unlink_from-null fuel h a last end)
      ]

-- On every well-formed list, with a fuel above its length, the client's remove_node and a removal
-- from a plain list agree: if a node behind the first matches, the last such node is taken out and
-- the others keep their order; if only the first matches, or none, both fail, the code by reading
-- through NULL.
pub remove_node-take_out_last :
    (fuel : ℕ) {h : Heap} {head : Ptr} {xs : Cells} (content : Buf) (range : ℕ)
    → IsList h head xs
    → length xs < fuel
    → Refines head
        (remove_node fuel head content range h)
        (take_out_last (matches content range) (nodes xs))
unfolding take_out_last
remove_node-take_out_last fuel {xs = []} content range is lt =
    rw (fails fuel content range [] is refl lt) tt
remove_node-take_out_last fuel {xs = (a, n) ∷ xs} content range is lt =
    let test = matches content range in
    elim (Bool-cases (any test xs)) [
      | inl hit ↦
          let (g, run, is') = removes fuel content range a n xs is hit lt in
          rw (run, take_out_last-some test a n xs hit) ((a, n) ∷ erase_last test xs, is', refl)
      | inr miss ↦
          let gone : take_out_last test (nodes ((a, n) ∷ xs)) ≡ none =
            rw (takes-nodes test xs, miss) in
          rw (fails fuel content range ((a, n) ∷ xs) is gone lt, gone) tt
    ]
