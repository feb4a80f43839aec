-- ===== src/Transfer/Roundtrip.antt =====
-- The blocks of a whole file, cut as in handle_recv of epoll+tpool/server/handle.c, and put together
-- as in recv_filedata of epoll+tpool/server/work.c; the client has the same code.
use model_lib.Base.{
  ℕ, zero, suc, ◌+◌, ◌-◌, ◌%◌, ◌^◌, ◌≤◌, ◌<◌, ◌≡◌, refl, sym, ap, ◌∙◌, Option, none, some, List, [],
  ◌∷◌, ◌++◌, append-nil, arith, ◌==◌, false, take, drop, length, length-drop, take_all, drop_all,
  ==_iff, lt→ltb,
}
use model_lib.Transfer.{Head, send_filedata}
use model_lib.Transfer.Receive.{Conn, zero_conn, get_conn, set_conn, count_block, recv_filedata}
use model_lib.Transfer.Rebuild.{partial, send-recv_data}

abbrev pub finish : List Head → List Conn → List ℕ → Option (List Conn × Option (List ℕ))
finish [] gconn file = some (gconn, some file)
finish (h ∷ hs) gconn file = none

-- What follows a block: `later` is what the other blocks do.
abbrev pub go_on :
    (unmapped : Option (List ℕ))
    → List Head
    → List Conn
    → (later : Option (List Conn × Option (List ℕ))) → Option (List Conn × Option (List ℕ))
go_on none hs gconn later = later
go_on (some file) hs gconn later = finish hs gconn file

-- The blocks sent and received one after the other: the slots at the end, and what the file holds
-- when it is unmapped, which no block but the last may do.
unfoldable pub transfer :
    List Conn → (file : List ℕ) → List Head → Option (List Conn × Option (List ℕ))
transfer gconn file [] = some (gconn, none)
transfer gconn file (h ∷ hs) = elim (send_filedata file h) [
  | none ↦ none
  | some (h', pieces) ↦ elim (recv_filedata gconn h' pieces) [
    | none ↦ none
    | some (gconn', unmapped) ↦ go_on unmapped hs gconn' (transfer gconn' file hs)
  ]
]

-- The blocks follow each other from `off` to the file's end, all for the slot `i`.
abbrev pub Tiles : (file : List ℕ) → (i off : ℕ) → List Head → Type 0
Tiles file i off [] = off ≡ length file
Tiles file i off (h ∷ hs) =
    (h.id ≡ i)
    × (h.offset ≡ off)
    × (off < 2 ^ 31)
    × (off + h.bs ≤ length file)
    × Tiles file i (off + h.bs) hs

pub get-set_conn :
    (gconn : List Conn) (i : ℕ) (c : Conn)
    → i < length gconn
    → get_conn (set_conn gconn i c) i ≡ some c
unfolding get_conn set_conn
get-set_conn [] i c h = absurd (omega arith)
get-set_conn (d ∷ gconn) zero c h = refl
get-set_conn (d ∷ gconn) (suc i) c h = get-set_conn gconn i c (omega arith)

pub set-set_conn :
    (gconn : List Conn) (i : ℕ) (c d : Conn)
    → set_conn (set_conn gconn i c) i d ≡ set_conn gconn i d
unfolding set_conn
set-set_conn [] i c d = refl
set-set_conn (e ∷ gconn) zero c d = refl
set-set_conn (e ∷ gconn) (suc i) c d = rw (set-set_conn gconn i c d)

pub length-set_conn :
    (gconn : List Conn) (i : ℕ) (c : Conn) → length (set_conn gconn i c) ≡ length gconn
unfolding set_conn
length-set_conn [] i c = refl
length-set_conn (d ∷ gconn) zero c = refl
length-set_conn (d ∷ gconn) (suc i) c = rw (length-set_conn gconn i c)

count_block-last :
    (c : Conn) (map : List ℕ)
    → c.count ≡ c.recvcount + 1
    → c.count < 2 ^ 32
    → count_block c map ≡ (zero_conn, some (map ++ c.behind))
unfolding count_block
count_block-last c map e h =
    let m : (c.recvcount + 1) % 2 ^ 32 ≡ c.count = omega arith in
    rw (count_block, m, (==_iff c.count c.count).1 refl)

count_block-more :
    (c : Conn) (map : List ℕ)
    → c.recvcount + 1 < c.count
    → c.count < 2 ^ 32
    → count_block c map ≡ (record c { mbegin = map; recvcount = c.recvcount + 1 }, none)
unfolding count_block
count_block-more c map e h =
    let m : (c.recvcount + 1) % 2 ^ 32 ≡ c.recvcount + 1 = omega arith in
    let n : (c.recvcount + 1 == c.count) ≡ false = ground arith in rw (count_block, m, n)

-- A block that is sent and received, whatever `count_block` makes of it.
transfer-block :
    (gconn : List Conn) (file rest : List ℕ) (h : Head) (hs : List Head) (c : Conn) (i : ℕ)
    (c' : Conn) (unmapped : Option (List ℕ))
    → h.id ≡ i
    → h.offset < 2 ^ 31
    → h.offset + h.bs ≤ length file
    → h.offset + length rest ≡ length file
    → get_conn gconn i ≡ some c
    → c.mbegin ≡ partial file h.offset rest
    → count_block c (partial file (h.offset + h.bs) (drop h.bs rest)) ≡ (c', unmapped)
    → transfer gconn file (h ∷ hs)
      ≡ go_on unmapped hs (set_conn gconn i c') (transfer (set_conn gconn i c') file hs)
unfolding transfer recv_filedata
transfer-block gconn file rest h hs c i c' unmapped at b fits len g m k =
    let (pieces, s, r) = send-recv_data file rest h b fits len in
    rw (transfer, s, recv_filedata, at, g, lt→ltb h.offset (2 ^ 31) b, m, r, k, at)

-- The blocks from `off` on, for a slot whose file is filled up to there.
pub transfer-Tiles :
    (h : Head) (hs : List Head) (gconn : List Conn) (file rest : List ℕ) (i off : ℕ) (c : Conn)
    → i < length gconn
    → off + length rest ≡ length file
    → get_conn gconn i ≡ some c
    → c.mbegin ≡ partial file off rest
    → c.count ≡ c.recvcount + suc (length hs)
    → c.count < 2 ^ 32
    → Tiles file i off (h ∷ hs)
    → transfer gconn file (h ∷ hs) ≡ some (set_conn gconn i zero_conn, some (file ++ c.behind))
transfer-Tiles h [] gconn file rest i off c lt len g m k w (at, o, b, fits, end) =
    let l : h.offset + h.bs ≡ length file = omega arith in
    let f : partial file (h.offset + h.bs) (drop h.bs rest) ≡ file =
      ap (λ r. take (h.offset + h.bs) file ++ r) (drop_all h.bs rest (omega arith))
      ∙ append-nil (take (h.offset + h.bs) file)
      ∙ take_all (h.offset + h.bs) file (omega arith) in
    transfer-block gconn file rest h [] c i zero_conn (some (file ++ c.behind)) at (omega arith)
      (omega arith) (omega arith) g (m ∙ ap (λ o. partial file o rest) (sym o))
      (ap (count_block c) f ∙ count_block-last c file (omega arith) w)
transfer-Tiles h (h' ∷ hs) gconn file rest i off c lt len g m k w (at, o, b, fits, tiles) =
    let map = partial file (h.offset + h.bs) (drop h.bs rest) in
    let c' = record c { mbegin = map; recvcount = c.recvcount + 1 } in
    let r : length (drop h.bs rest) ≡ length rest - h.bs = length-drop h.bs rest in
    transfer-block gconn file rest h (h' ∷ hs) c i c' none at (omega arith) (omega arith)
      (omega arith) g (m ∙ ap (λ o. partial file o rest) (sym o))
      (count_block-more c map (omega arith) w)
    ∙ transfer-Tiles h' hs (set_conn gconn i c') file (drop h.bs rest) i (off + h.bs) c'
        (omega (arith, length-set_conn gconn i c')) (omega arith) (get-set_conn gconn i c' lt)
        (ap (λ o. partial file (o + h.bs) (drop h.bs rest)) o) (omega arith) w tiles
    ∙ ap (λ g. some (g, some (file ++ c.behind))) (set-set_conn gconn i c' zero_conn)
