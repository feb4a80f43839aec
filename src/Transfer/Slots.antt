-- ===== src/Transfer/Slots.antt =====
-- The search for a free slot of `gconn` in recv_fileinfo (epoll+tpool/server/work.c).
use model_lib.Base.{
  ℕ, zero, suc, ◌+◌, ◌-◌, ◌%◌, ◌<◌, ◌≡◌, refl, false, some, ◌⊎◌, List, [], ◌∷◌, arith, Bool-cases,
  inl, inr, length,
}
use mathlib.Core.Path.{subst}
use model_lib.Transfer.Receive.{Conn, conn_max, get_conn, found_at, find_slot, undisturbed}
use model_lib.Server.Keeps.{All}

-- A slot in which no transfer is going on.
abbrev pub Free : List Conn → ℕ → Type 0
Free gconn i = (c : Conn) × (get_conn gconn i ≡ some c) × (c.used ≡ false)

get_conn-inside :
    (gconn : List Conn) (i : ℕ) → i < length gconn → (c : Conn) × (get_conn gconn i ≡ some c)
unfolding get_conn
get_conn-inside [] i h = absurd (omega arith)
get_conn-inside (c ∷ gconn) zero h = (c, refl)
get_conn-inside (c ∷ gconn) (suc i) h = get_conn-inside gconn i (omega arith)

-- The slots at a test: ten of them, `j` free.
abbrev pub Open : ℕ → List Conn → Type 0
Open j gconn = (length gconn ≡ conn_max) × Free gconn j

-- At some test the slot is free.
abbrev pub FreeAt : ℕ → List (List Conn) → Type 0
FreeAt k [] = ⊥
FreeAt k (gconn ∷ tables) = Free gconn k ⊎ FreeAt k tables

-- The walk from `i` reaches the free slot that is `d` places further on.
find_slot-ahead :
    (d i j : ℕ) (tables : List (List Conn))
    → All (Open j) tables
    → i < conn_max
    → d < length tables
    → (i + d) % conn_max ≡ j
    → (k : ℕ) × (find_slot tables i ≡ found_at k) × (k < conn_max) × FreeAt k tables
unfolding find_slot
find_slot-ahead d i j [] opens lt f e = absurd (omega arith)
find_slot-ahead zero i j (gconn ∷ tables) opens lt f e =
    let k : j ≡ i = omega arith in
    let (c, g, u) = subst (Free gconn) k opens.0.1 in (i, rw (find_slot, g, u), lt, inl (c, g, u))
find_slot-ahead (suc d) i j (gconn ∷ tables) opens lt f e =
    let (c, g) = get_conn-inside gconn i (omega (arith, opens.0.0)) in
    elim (Bool-cases (c.used)) [
      | inl u ↦
          let (k, walk, inside, free) =
            find_slot-ahead d ((i + 1) % conn_max) j tables opens.1 (omega arith) (omega arith)
              (omega arith) in
          (k, rw (find_slot, g, u) walk, inside, inr free)
      | inr u ↦ (i, rw (find_slot, g, u), lt, inl (c, g, u))
    ]

pub find_slot-Free :
    (tables : List (List Conn)) (freeid j : ℕ)
    → length tables ≡ conn_max
    → All (Open j) tables
    → freeid < conn_max
    → j < conn_max
    → (k : ℕ) × (find_slot tables freeid ≡ found_at k) × (k < conn_max) × FreeAt k tables
find_slot-Free tables freeid j len opens lt below =
    find_slot-ahead ((j + conn_max - freeid) % conn_max) freeid j tables opens lt (omega arith)
      (omega arith)

pub undisturbed-Open :
    (n j : ℕ) (gconn : List Conn) → Open j gconn → All (Open j) (undisturbed n gconn)
unfolding undisturbed
undisturbed-Open zero j gconn o = tt
undisturbed-Open (suc n) j gconn o = (o, undisturbed-Open n j gconn o)

pub length-undisturbed : (n : ℕ) (gconn : List Conn) → length (undisturbed n gconn) ≡ n
unfolding undisturbed
length-undisturbed zero gconn = refl
length-undisturbed (suc n) gconn = omega (arith, length-undisturbed n gconn)

undisturbed-FreeAt : (n k : ℕ) (gconn : List Conn) → FreeAt k (undisturbed n gconn) → Free gconn k
unfolding undisturbed
undisturbed-FreeAt zero k gconn f = absurd f
undisturbed-FreeAt (suc n) k gconn (inl f) = f
undisturbed-FreeAt (suc n) k gconn (inr f) = undisturbed-FreeAt n k gconn f

-- A search that is not disturbed ends at a slot that is free in the table.
pub undisturbed-Free :
    (gconn : List Conn) (freeid j : ℕ)
    → length gconn ≡ conn_max
    → freeid < conn_max
    → j < conn_max
    → Free gconn j
    → (k : ℕ) × (find_slot (undisturbed conn_max gconn) freeid ≡ found_at k)
      × (k < conn_max)
      × Free gconn k
undisturbed-Free gconn freeid j len lt below free =
    let tables = undisturbed conn_max gconn in
    let (k, walk, inside, at) =
      find_slot-Free tables freeid j (length-undisturbed conn_max gconn)
        (undisturbed-Open conn_max j gconn (len, free)) lt below in
    (k, walk, inside, undisturbed-FreeAt conn_max k gconn at)
