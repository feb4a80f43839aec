-- ===== src/Transfer/Rebuild.antt =====
-- What the code of recv_filedata makes of blocks that arrive as they were sent.
use model_lib.Base.{
  ℕ, zero, suc, ◌+◌, ◌-◌, ◌*◌, ◌/◌, ◌%◌, ◌^◌, ◌≤◌, ◌<◌, ◌≡◌, refl, sym, ap, ◌∙◌, some, List, [],
  ◌∷◌, ◌++◌, append-nil, append_assoc, arith, ◌==◌, take, drop, length, length-append, length-drop,
  take-append, drop-drop, take_all, drop_all, Bool-cases, ==_iff, le→leb, lt→ltb, inl, inr,
}
use model_lib.Transfer.{send_size, Head, full_pieces, send_filedata}
use model_lib.Transfer.Pieces.{full_pieces-end}
use model_lib.Transfer.Receive.{write_at, left_over, recv_piece, recv_pieces, recv_data}

pub length-take : (k : ℕ) (xs : List ℕ) → k ≤ length xs → length (take k xs) ≡ k
length-take zero xs h = refl
length-take (suc k) [] h = absurd (omega arith)
length-take (suc k) (x ∷ xs) h = omega (arith, length-take k xs (omega arith))

take-length-append : (xs ys : List ℕ) → take (length xs) (xs ++ ys) ≡ xs
take-length-append [] ys = refl
take-length-append (x ∷ xs) ys = rw (take-length-append xs ys)

pub drop-length-append : (xs ys : List ℕ) (k : ℕ) → drop (length xs + k) (xs ++ ys) ≡ drop k ys
drop-length-append [] ys k = let e : 0 + k ≡ k = omega arith in rw e
drop-length-append (x ∷ xs) ys k =
    let e : suc (length xs) + k ≡ suc (length xs + k) = omega arith in
    rw e (drop-length-append xs ys k)

-- A map that holds the file up to `off` and something else behind it.
abbrev pub partial : List ℕ → ℕ → List ℕ → List ℕ
partial file off rest = take off file ++ rest

-- The next `k` bytes written in their place.
pub write_at-partial :
    (file rest : List ℕ) (off k : ℕ)
    → off + k ≤ length file
    → off + length rest ≡ length file
    → write_at (partial file off rest) off (take k (drop off file))
      ≡ some (partial file (off + k) (drop k rest))
unfolding write_at
write_at-partial file rest off k fits len =
    let t : length (take off file) ≡ off = length-take off file (omega arith) in
    let d : length (drop off file) ≡ length file - off = length-drop off file in
    let l : length (take k (drop off file)) ≡ k = length-take k (drop off file) (omega arith) in
    let m : length (take off file ++ rest) ≡ length file =
      omega (arith, length-append (take off file) rest) in
    let a : take off (take off file ++ rest) ≡ take off file =
      ap (λ n. take n (take off file ++ rest)) (sym t) ∙ take-length-append (take off file) rest in
    let b : drop (off + k) (take off file ++ rest) ≡ drop k rest =
      ap (λ n. drop (n + k) (take off file ++ rest)) (sym t)
      ∙ drop-length-append (take off file) rest k in
    rw (l, m, le→leb (off + k) (length file) fits, a, b, ← take-append off k file, append_assoc)

left_over-all : (k : ℕ) (p : List ℕ) (ps : List (List ℕ)) → length p ≤ k → left_over k p ps ≡ ps
unfolding left_over
left_over-all k p [] h = rw (le→leb (length p) k h) refl
left_over-all k p (q ∷ ps) h = rw (drop_all k p h) refl

-- A piece that is no longer than the `recv` asks for.
recv_piece-partial :
    (file rest : List ℕ) (off k : ℕ) (ps : List (List ℕ))
    → off + k ≤ length file
    → off + length rest ≡ length file
    → recv_piece k (partial file off rest) off (take k (drop off file) ∷ ps)
      ≡ some (partial file (off + k) (drop k rest), ps)
unfolding recv_piece
recv_piece-partial file rest off k ps fits len =
    let d : length (drop off file) ≡ length file - off = length-drop off file in
    let l : length (take k (drop off file)) ≡ k = length-take k (drop off file) (omega arith) in
    let w : take k (take k (drop off file)) ≡ take k (drop off file) =
      take_all k (take k (drop off file)) (omega arith) in
    rw (
      recv_piece,
      w,
      write_at-partial file rest off k fits len,
      left_over-all k (take k (drop off file)) ps (omega arith),
    )

-- Whole pieces, in their order.
recv_pieces-partial :
    (n : ℕ) (file rest : List ℕ) (off : ℕ) (ps : List (List ℕ))
    → off + n * send_size ≤ length file
    → off + length rest ≡ length file
    → recv_pieces n (partial file off rest) off ((full_pieces n file off).0 ++ ps)
      ≡ some
          (partial file (off + n * send_size) (drop (n * send_size) rest), off + n * send_size, ps)
unfolding recv_pieces full_pieces
recv_pieces-partial zero file rest off ps fits len =
    let a : off ≡ off + 0 = omega arith in ap (λ o. some (partial file o rest, o, ps)) a
recv_pieces-partial (suc n) file rest off ps fits len =
    let r : length (drop send_size rest) ≡ length rest - send_size = length-drop send_size rest in
    let e : send_size + n * send_size ≡ suc n * send_size = omega arith in
    let o : off + send_size + n * send_size ≡ off + suc n * send_size = omega arith in
    rw (
      recv_pieces,
      recv_piece-partial file rest off send_size ((full_pieces n file (off + send_size)).0 ++ ps)
          (omega arith) len,
      recv_pieces-partial n file (drop send_size rest) (off + send_size) ps (omega arith)
          (omega arith),
      drop-drop (n * send_size) send_size rest,
      e,
      o,
    )

-- A block that is sent can be received: its part of the file is filled in.
pub send-recv_data :
    (file rest : List ℕ) (h : Head)
    → h.offset < 2 ^ 31
    → h.offset + h.bs ≤ length file
    → h.offset + length rest ≡ length file
    → (pieces : List (List ℕ)) × (send_filedata file h ≡ some (h, pieces))
      × (recv_data (partial file h.offset rest) h pieces
          ≡ some (partial file (h.offset + h.bs) (drop h.bs rest)))
unfolding send_filedata recv_data
send-recv_data file rest h b fits len =
    let n = h.bs / send_size in
    let k = h.bs % send_size in
    let ps = (full_pieces n file h.offset).0 in
    let l = lt→ltb h.offset (2 ^ 31) b in
    elim (Bool-cases (k == 0)) [
      | inl e ↦
          let z = (==_iff k 0).0 e in
          let a : n * send_size ≡ h.bs = omega arith in
          let q : recv_pieces n (partial file h.offset rest) h.offset ps
              ≡ some (partial file (h.offset + h.bs) (drop h.bs rest), h.offset + h.bs, []) =
            ap (recv_pieces n (partial file h.offset rest) h.offset) (sym (append-nil ps))
            ∙ recv_pieces-partial n file rest h.offset [] (omega arith) len
            ∙ ap (λ m. some (partial file (h.offset + m) (drop m rest), h.offset + m, [])) a in
          (ps, rw (l, e), rw (recv_data, q, e))
      | inr e ↦
          let a : n * send_size + k ≡ h.bs = omega arith in
          let o = h.offset + n * send_size in
          let last = take k (drop (full_pieces n file h.offset).1 file) in
          let r : length (drop (n * send_size) rest) ≡ length rest - n * send_size =
            length-drop (n * send_size) rest in
          let f : o + k ≡ h.offset + h.bs = omega arith in
          (
            ps ++ last ∷ [],
            rw (l, e),
            rw (
              recv_data,
              full_pieces-end n file h.offset,
              recv_pieces-partial n file rest h.offset (take k (drop o file) ∷ []) (omega arith)
                  len,
              e,
              recv_piece-partial file (drop (n * send_size) rest) o k [] (omega arith)
                  (omega arith),
              drop-drop k (n * send_size) rest,
              a,
              f,
            ),
          )
    ]
