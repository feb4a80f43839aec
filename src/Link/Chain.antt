-- ===== src/Link/Chain.antt =====
-- What a list of link.c stands for: its nodes in order, with their addresses.
use model_lib.Base.{◌≡◌, ◌≢◌, Bool, true, false, ◌||◌, some, List, [], ◌∷◌, arith, ◌==◌}
use model_lib.Packet.{Node}
use model_lib.Link.{Ptr, null, Cell, Heap, write, ok, load, set_next}

abbrev pub cell : Node → Ptr → Cell
cell n q = record { node = n; next = q }

abbrev pub Cells : Type 0
Cells = List (Ptr × Node)

abbrev pub has : Ptr → Cells → Bool
has a [] = false
has a ((p, n) ∷ xs) = (a == p) || has a xs

-- From `p` the `next` pointers lead through the distinct nodes of `xs` to NULL.
abbrev pub Chain : Heap → Ptr → Cells → Type 0
Chain h p [] = p ≡ null
Chain h p ((a, n) ∷ xs) =
    (q : Ptr) × (p ≡ a) × (a ≢ 0) × (h a ≡ some (cell n q)) × (has a xs ≡ false) × Chain h q xs

-- The list behind the dummy node `head`.
pub record IsList (h : Heap) (head : Ptr) (xs : Cells) : Type 0 where
  pub first : Ptr
  pub dummy : Node
  pub head_ne : head ≢ 0
  pub holds : h head ≡ some (cell dummy first)
  pub apart : has head xs ≡ false
  pub chain : Chain h first xs

abbrev pub SameOutside : Cells → Heap → Heap → Type 0
SameOutside xs h g = (a : Ptr) → has a xs ≡ false → g a ≡ h a

-- A change away from the nodes keeps the chain.
pub Chain-frame :
    {h g : Heap} (p : Ptr) (xs : Cells)
    → Chain h p xs
    → ((a : Ptr) → has a xs ≡ true → g a ≡ h a)
    → Chain g p xs
Chain-frame p [] c same = c
Chain-frame p ((a, n) ∷ xs) (q, at_a, ne, holds, out, rest) same =
    (q, at_a, ne, ground (arith, same a), out, Chain-frame q xs rest λ b i. ground (arith, same b))

pub Chain-write :
    (h : Heap) (p a : Ptr) (c : Cell) (xs : Cells)
    → Chain h p xs
    → has a xs ≡ false
    → Chain (write h a c) p xs
unfolding write
Chain-write h p a c xs chain out = Chain-frame p xs chain λ b i. ground arith

pub load-ok : {h : Heap} (p : Ptr) {c : Cell} → p ≢ 0 → h p ≡ some c → load p h ≡ ok c h
unfolding load
load-ok p ne e = ground arith

pub set_next-ok :
    (h : Heap) (p q : Ptr) {n : Node} {r : Ptr}
    → p ≢ 0
    → h p ≡ some (cell n r)
    → set_next p q h ≡ ok tt (write h p (cell n q))
unfolding set_next
set_next-ok h p q ne e = rw (load-ok p ne e)
