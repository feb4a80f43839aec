-- ===== src/Udp/Bytes.antt =====
-- A block that was cut into pieces and is received in datagrams by epoll+tpool/server/udp.c.
use model_lib.Base.{
  ℕ, zero, suc, ◌+◌, ◌-◌, ◌*◌, ◌/◌, ◌%◌, ◌^◌, ◌≤◌, ◌<◌, ◌≡◌, refl, ap, some, List, [], ◌∷◌, ◌++◌,
  append_assoc, arith, ◌==◌, take, drop, length, length-drop, drop-drop, take_all, Bool-cases,
  ==_iff, lt→ltb, inl, inr,
}
use model_lib.Transfer.{send_size, Head, full_pieces, send_filedata}
use model_lib.Transfer.Pieces.{full_pieces-end}
use model_lib.Transfer.Rebuild.{length-take, partial, write_at-partial}
use model_lib.Udp.{Datagram, got, recv_into, recv_full, recv_rest, recv_block}

recv_into-partial :
    (file rest : List ℕ) (off k : ℕ) (ds : List Datagram)
    → off + k ≤ length file
    → off + length rest ≡ length file
    → recv_into k (partial file off rest) off (take k (drop off file) ∷ ds)
      ≡ got (partial file (off + k) (drop k rest)) ds
unfolding recv_into
recv_into-partial file rest off k ds fits len =
    let d : length (drop off file) ≡ length file - off = length-drop off file in
    let l : length (take k (drop off file)) ≡ k = length-take k (drop off file) (omega arith) in
    let w : take k (take k (drop off file)) ≡ take k (drop off file) =
      take_all k (take k (drop off file)) (omega arith) in
    rw (w, write_at-partial file rest off k fits len)

recv_full-partial :
    (n : ℕ) (file rest : List ℕ) (off : ℕ) (ds : List Datagram)
    → off + n * send_size ≤ length file
    → off + length rest ≡ length file
    → recv_full n (partial file off rest) off ((full_pieces n file off).0 ++ ds)
      ≡ got (partial file (off + n * send_size) (drop (n * send_size) rest), off + n * send_size) ds
unfolding recv_full full_pieces
recv_full-partial zero file rest off ds fits len =
    let a : off ≡ off + 0 = omega arith in ap (λ o. got (partial file o rest, o) ds) a
recv_full-partial (suc n) file rest off ds fits len =
    let r : length (drop send_size rest) ≡ length rest - send_size = length-drop send_size rest in
    let e : send_size + n * send_size ≡ suc n * send_size = omega arith in
    let o : off + send_size + n * send_size ≡ off + suc n * send_size = omega arith in
    rw (
      recv_into-partial file rest off send_size ((full_pieces n file (off + send_size)).0 ++ ds)
          (omega arith) len,
      recv_full-partial n file (drop send_size rest) (off + send_size) ds (omega arith)
          (omega arith),
      drop-drop (n * send_size) send_size rest,
      e,
      o,
    )

-- The pieces that send_filedata makes of a block fill in its part of the file, and no other datagram
-- is touched.
pub recv_block-partial :
    (file rest : List ℕ) (h : Head)
    → h.offset < 2 ^ 31
    → h.bs < 2 ^ 31
    → h.offset + h.bs ≤ length file
    → h.offset + length rest ≡ length file
    → (pieces : List (List ℕ)) × (send_filedata file h ≡ some (h, pieces))
      × ((ds : List Datagram)
          → recv_block h (partial file h.offset rest) (pieces ++ ds)
            ≡ got (partial file (h.offset + h.bs) (drop h.bs rest)) ds)
unfolding send_filedata recv_block recv_rest
recv_block-partial file rest h b int fits len =
    let n = h.bs / send_size in
    let k = h.bs % send_size in
    let ps = (full_pieces n file h.offset).0 in
    let l = lt→ltb h.offset (2 ^ 31) b in
    let small = lt→ltb h.bs (2 ^ 31) int in
    elim (Bool-cases (k == 0)) [
      | inl e ↦
          let z = (==_iff k 0).0 e in
          let a : n * send_size ≡ h.bs = omega arith in
          (
            ps,
            rw (l, e),
            λ ds.
                rw (small, recv_full-partial n file rest h.offset ds (omega arith) len, e, a) refl,
          )
      | inr e ↦
          let a : n * send_size + k ≡ h.bs = omega arith in
          let o = h.offset + n * send_size in
          let last = take k (drop (full_pieces n file h.offset).1 file) in
          let r : length (drop (n * send_size) rest) ≡ length rest - n * send_size =
            length-drop (n * send_size) rest in
          let f : o + k ≡ h.offset + h.bs = omega arith in
          (
            ps ++ last ∷ [],
            rw (l, e),
            λ ds.
                rw
                  (
                    small,
                    append_assoc,
                    full_pieces-end n file h.offset,
                    recv_full-partial n file rest h.offset (take k (drop o file) ∷ ds) (omega arith)
                        len,
                    e,
                    recv_into-partial file (drop (n * send_size) rest) o k ds (omega arith)
                        (omega arith),
                    drop-drop k (n * send_size) rest,
                    a,
                    f,
                  )
                  refl,
          )
    ]
