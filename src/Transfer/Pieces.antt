-- ===== src/Transfer/Pieces.antt =====
-- The pieces of SEND_SIZE bytes that send_filedata (epoll+tpool/server/handle.c) makes of a block.
use model_lib.Base.{
  ℕ, zero, suc, ◌+◌, ◌*◌, ◌/◌, ◌%◌, ◌≡◌, refl, ap, ◌∙◌, List, [], ◌∷◌, ◌++◌, append-nil,
  append_assoc, arith, ◌==◌, take, drop, take-append, drop-drop, inl, inr, Bool-cases, lt→ltb, ◌<◌,
  ◌^◌, some, ==_iff,
}
use model_lib.Transfer.{send_size, Head, full_pieces, send_filedata}

abbrev pub flatten : List (List ℕ) → List ℕ
flatten [] = []
flatten (p ∷ ps) = p ++ flatten ps

flatten-append : (ps qs : List (List ℕ)) → flatten (ps ++ qs) ≡ flatten ps ++ flatten qs
flatten-append [] qs = refl
flatten-append (p ∷ ps) qs = rw (flatten-append ps qs) (simp append_assoc)

-- The part of a file that a block stands for.
abbrev pub block : List ℕ → Head → List ℕ
block file h = take h.bs (drop h.offset file)

pub full_pieces-end :
    (n : ℕ) (file : List ℕ) (fp : ℕ) → (full_pieces n file fp).1 ≡ fp + n * send_size
unfolding full_pieces
full_pieces-end zero file fp = omega arith
full_pieces-end (suc n) file fp = omega (arith, full_pieces-end n file (fp + send_size))

full_pieces-flatten :
    (n : ℕ) (file : List ℕ) (fp : ℕ)
    → flatten (full_pieces n file fp).0 ≡ take (n * send_size) (drop fp file)
unfolding full_pieces
full_pieces-flatten zero file fp =
    let e : 0 ≡ 0 * send_size = omega arith in ap (λ k. take k (drop fp file)) e
full_pieces-flatten (suc n) file fp =
    let e : suc n * send_size ≡ send_size + n * send_size = omega arith in
    rw (full_pieces-flatten n file (fp + send_size), e, ← drop-drop send_size fp file)
      (take-append send_size (n * send_size) (drop fp file))

-- Whole pieces, and a last one of `r` bytes.
pieces-remainder :
    (n r : ℕ) (file : List ℕ) (fp : ℕ)
    → flatten ((full_pieces n file fp).0 ++ take r (drop (full_pieces n file fp).1 file) ∷ [])
      ≡ take (n * send_size + r) (drop fp file)
pieces-remainder n r file fp =
    rw
      (
        flatten-append (full_pieces n file fp).0
            (take r (drop (full_pieces n file fp).1 file) ∷ []),
        full_pieces-flatten n file fp,
        full_pieces-end n file fp,
        append-nil (take r (drop (fp + n * send_size) file)),
        ← drop-drop (n * send_size) fp file,
      )
      (take-append (n * send_size) r (drop fp file))

-- For a block at an offset that an int holds, send_filedata sends the block's head, and behind it
-- pieces that, put together, are the block's part of the file.
pub send_filedata-flatten :
    (file : List ℕ) (h : Head)
    → h.offset < 2 ^ 31
    → (pieces : List (List ℕ)) × ((send_filedata file h ≡ some (h, pieces))
        × (flatten pieces ≡ block file h))
unfolding send_filedata
send_filedata-flatten file h b =
    let l = lt→ltb h.offset (2 ^ 31) b in
    elim (Bool-cases (h.bs % send_size == 0)) [
      | inl e ↦
          let z = (==_iff (h.bs % send_size) 0).0 e in
          let k : (h.bs / send_size) * send_size ≡ h.bs = omega arith in
          (
            (full_pieces (h.bs / send_size) file h.offset).0,
            (
              rw (l, e),
              full_pieces-flatten (h.bs / send_size) file h.offset
                  ∙ ap (λ k. take k (drop h.offset file)) k,
            ),
          )
      | inr e ↦
          let k : (h.bs / send_size) * send_size + h.bs % send_size ≡ h.bs = omega arith in
          let last =
            take (h.bs % send_size) (drop (full_pieces (h.bs / send_size) file h.offset).1 file) in
          (
            (full_pieces (h.bs / send_size) file h.offset).0 ++ last ∷ [],
            (
              rw (l, e),
              pieces-remainder (h.bs / send_size) (h.bs % send_size) file h.offset
                  ∙ ap (λ k. take k (drop h.offset file)) k,
            ),
          )
    ]
