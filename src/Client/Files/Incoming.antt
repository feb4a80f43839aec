-- ===== src/Client/Files/Incoming.antt =====
-- recvfile of epoll+tpool/client/work.c receives what handle_recv of epoll+tpool/server/handle.c sends.
use model_lib.Base.{
  take, drop, ℕ, zero, suc, ◌+◌, ◌/◌, ◌%◌, ◌^◌, ◌≡◌, refl, sym, ap, ◌∙◌, Option, none, some, List,
  [], ◌∷◌, ◌++◌, map, arith, ◌==◌, ltb, length, length-append, inl, inr, Bool-cases, Option-cases,
}
use model_lib.Transfer
use model_lib.Transfer.{Head, send_size, full_pieces}
use model_lib.Transfer.Receive
use model_lib.Transfer.Receive.{Conn}
use model_lib.Transfer.Roundtrip.{go_on, transfer}
use model_lib.Client.{Message, block, bytes, Arrival, message, Client, ok}
use model_lib.Client.Files.{keep, piece_count, recv_head, recv_pieces, recv_filedata, times}

-- A block as it goes over the connection.
abbrev pub block_messages : Option (Head × List (List ℕ)) → List Message
block_messages none = []
block_messages (some r) = block r.0 ∷ map bytes r.1

-- The blocks of a file as send_filedata sends them one after the other.
abbrev pub stream : List ℕ → List Head → List Message
stream file [] = []
stream file (h ∷ hs) = block_messages (Transfer.send_filedata file h) ++ stream file hs

abbrev pub arriving : List Message → List Arrival → List Arrival
arriving ms more = map message ms ++ more

map-message :
    (ms ns : List Message) (more : List Arrival)
    → arriving (ms ++ ns) more ≡ arriving ms (arriving ns more)
map-message [] ns more = refl
map-message (m ∷ ms) ns more = rw (map-message ms ns more)

recv_pieces-bytes :
    (ps : List (List ℕ)) (rest : List Arrival) (s : Client)
    → recv_pieces (length ps) (arriving (map bytes ps) rest) s ≡ ok ps (record s { arrived = rest })
unfolding recv_pieces
recv_pieces-bytes [] rest s = refl
recv_pieces-bytes (p ∷ ps) rest s = rw (recv_pieces-bytes ps rest s)

length-full_pieces : (n : ℕ) (file : List ℕ) (fp : ℕ) → length (full_pieces n file fp).0 ≡ n
unfolding full_pieces
length-full_pieces zero file fp = refl
length-full_pieces (suc n) file fp = rw (length-full_pieces n file (fp + send_size))

-- The head is the block's, and there are as many pieces as the receiver makes calls.
abbrev Counted : Head → Option (Head × List (List ℕ)) → Type 0
Counted h none = Unit
Counted h (some r) = (r.0 ≡ h) × (length r.1 ≡ piece_count h.bs)

send_filedata-Counted : (file : List ℕ) (h : Head) → Counted h (Transfer.send_filedata file h)
unfolding Transfer.send_filedata
send_filedata-Counted file h = elim (Bool-cases (ltb h.offset (2 ^ 31))) [
  | inr far ↦ rw far tt
  | inl near ↦
      let whole = full_pieces (h.bs / send_size) file h.offset in
      let n = length-full_pieces (h.bs / send_size) file h.offset in
      elim (Bool-cases (h.bs % send_size == 0)) [
        | inl e ↦ rw (near, e, e) (refl, n)
        | inr e ↦
            let last = take (h.bs % send_size) (drop whole.1 file) in
            rw (near, e, e) (refl, length-append whole.0 (last ∷ []) ∙ ap (λ k. k + 1) n)
      ]
]

-- One block.
recv_filedata-block :
    (h : Head) (ps : List (List ℕ)) (rest : List Arrival) (g g' : List Conn)
    (unmapped : Option (List ℕ)) (s : Client)
    → length ps ≡ piece_count h.bs
    → Transfer.Receive.recv_filedata g h ps ≡ some (g', unmapped)
    → recv_filedata
        (record s { gconn = g; arrived = message (block h) ∷ arriving (map bytes ps) rest })
      ≡ ok tt (record s { gconn = g'; arrived = rest; saved = keep unmapped s.saved })
unfolding recv_filedata recv_head
recv_filedata-block h ps rest g g' unmapped s n r =
    let s1 = record s { gconn = g; arrived = arriving (map bytes ps) rest } in
    rw (sym n, recv_pieces-bytes ps rest s1, r) refl

-- The rest of the file, when the blocks are received as `transfer` says.
abbrev Follows : List ℕ → List ℕ → List Conn → List Arrival → List Head → Type 0
Follows file f g' more hs =
    (g : List Conn) (s : Client)
    → transfer g file hs ≡ some (g', some f)
    → times (length hs) recv_filedata
        (record s { gconn = g; arrived = arriving (stream file hs) more })
      ≡ ok tt (record s { gconn = g'; arrived = more; saved = s.saved ++ f ∷ [] })

go_on-Follows :
    (file f : List ℕ) (g g' : List Conn) (more : List Arrival) (hs : List Head)
    (unmapped : Option (List ℕ)) (s : Client)
    → Follows file f g' more hs
    → go_on unmapped hs g (transfer g file hs) ≡ some (g', some f)
    → times (length hs) recv_filedata (record s {
      gconn = g;
      arrived = arriving (stream file hs) more;
      saved = keep unmapped s.saved;
    })
      ≡ ok tt (record s { gconn = g'; arrived = more; saved = s.saved ++ f ∷ [] })
unfolding times
go_on-Follows file f g g' more hs none s later h = later g s h
go_on-Follows file f g g' more [] (some f0) s later h =
    let conns : g ≡ g' = ground arith in
    let content : f0 ≡ f = ground arith in rw (conns, content) refl
go_on-Follows file f g g' more (b ∷ hs) (some f0) s later h = absurd (cc)

-- One block that was sent, and the others.
block-Follows :
    (file f : List ℕ) (g' : List Conn) (more : List Arrival) (h : Head) (hs : List Head)
    (sent : Option (Head × List (List ℕ)))
    → Counted h sent
    → Transfer.send_filedata file h ≡ sent
    → Follows file f g' more hs
    → Follows file f g' more (h ∷ hs)
unfolding transfer times
block-Follows file f g' more h hs none n e later g s t =
    let z : transfer g file (h ∷ hs) ≡ none = rw (transfer, e) refl in absurd (cc)
block-Follows file f g' more h hs (some (h', ps)) (same, n) e later g s t =
    elim (Option-cases (Transfer.Receive.recv_filedata g h' ps)) [
      | inl bad ↦
          let z : transfer g file (h ∷ hs) ≡ none = rw (transfer, e, bad) refl in absurd (cc)
      | inr (r, good) ↦
          let z : transfer g file (h ∷ hs) ≡ go_on r.1 hs r.0 (transfer r.0 file hs) =
            rw (transfer, e, good) refl in
          let t' : go_on r.1 hs r.0 (transfer r.0 file hs) ≡ some (g', some f) = sym z ∙ t in
          let rest = arriving (stream file hs) more in
          let size : length ps ≡ piece_count h'.bs = rw same n in
          rw
            (
              e,
              map-message (block h' ∷ map bytes ps) (stream file hs) more,
              recv_filedata-block h' ps rest g r.0 r.1 s size good,
            )
            (go_on-Follows file f r.0 g' more hs r.1 s later t')
    ]

pub stream-Follows :
    (file f : List ℕ) (g' : List Conn) (more : List Arrival) (hs : List Head)
    → Follows file f g' more hs
unfolding transfer
stream-Follows file f g' more [] g s t = absurd (cc)
stream-Follows file f g' more (h ∷ hs) g s t =
    block-Follows file f g' more h hs (Transfer.send_filedata file h) (send_filedata-Counted file h)
      refl (stream-Follows file f g' more hs) g s t
