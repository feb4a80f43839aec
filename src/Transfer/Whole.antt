-- ===== src/Transfer/Whole.antt =====
-- The slot of gconn (epoll+tpool/server/work.c) that is set up from the sizes of send_fileinfo.
use model_lib.Base.{
  ℕ, zero, suc, ◌+◌, ◌-◌, ◌*◌, ◌/◌, ◌%◌, ◌^◌, ◌≤◌, ◌<◌, ◌≡◌, ◌≢◌, refl, sym, ap, ◌∙◌, some, List,
  [], ◌∷◌, ◌++◌, append-nil, arith, ◌==◌, take, drop, length, length-append, Bool-cases, ==_iff,
  inl, inr, ℤ,
}
use mathlib.Core.Path.{subst}
use model_lib.Transfer.Rebuild.{length-take, drop-length-append}
use model_lib.CString.{Text}
use model_lib.Transfer.{blocksize, FileInfo, Head, new_fb_head, full_heads, file_heads}
use model_lib.Transfer.Blocks.{full_heads-end, info_of}
use model_lib.Transfer.Receive.{Conn, zero_conn, zeros, createfile, set_conn, new_conn}
use model_lib.Transfer.Roundtrip.{
  transfer, Tiles, transfer-Tiles, get-set_conn, set-set_conn, length-set_conn,
}

length-zeros : (n : ℕ) → length (zeros n) ≡ n
unfolding zeros
length-zeros zero = refl
length-zeros (suc n) = omega (arith, length-zeros n)

length-createfile_le : (old : List ℕ) (n : ℕ) → n ≤ length (createfile old n)
unfolding createfile
length-createfile_le old zero = omega arith
length-createfile_le old (suc n) =
    let enough : n ≤ length (old ++ zeros n) =
      omega (arith, length-append old (zeros n), length-zeros n) in
    let front = length-take n (old ++ zeros n) enough in
    omega (arith, front, length-append (take n (old ++ zeros n)) (0 ∷ drop (suc n) old))

-- The part that is mapped has the size asked for.
pub length-mapped : (old : List ℕ) (n : ℕ) → length (take n (createfile old n)) ≡ n
length-mapped old n = length-take n (createfile old n) (length-createfile_le old n)

-- Behind it the bytes of the file that was there stay.
pub drop-createfile : (old : List ℕ) (n : ℕ) → n ≢ 0 → drop n (createfile old n) ≡ drop n old
unfolding createfile
drop-createfile old zero h = absurd (h refl)
drop-createfile old (suc n) h =
    let enough : n ≤ length (old ++ zeros n) =
      omega (arith, length-append old (zeros n), length-zeros n) in
    let front = length-take n (old ++ zeros n) enough in
    let e : length (take n (old ++ zeros n)) + 1 ≡ suc n = omega (arith, front) in
    ap (λ k. drop k (take n (old ++ zeros n) ++ 0 ∷ drop (suc n) old)) (sym e)
    ∙ drop-length-append (take n (old ++ zeros n)) (0 ∷ drop (suc n) old) 1

-- Full blocks, and what follows them.
full_heads-Tiles :
    (n : ℕ) (name : Text) (i off : ℕ) (file : List ℕ) (hs : List Head)
    → off + n * blocksize ≤ length file
    → length file < 2 ^ 31
    → Tiles file i (off + n * blocksize) hs
    → Tiles file i off ((full_heads n name i off).0 ++ hs)
unfolding full_heads new_fb_head
full_heads-Tiles zero name i off file hs fits h t =
    let e : off + 0 * blocksize ≡ off = omega arith in subst (λ o. Tiles file i o hs) e t
full_heads-Tiles (suc n) name i off file hs fits h t =
    let w : (off + blocksize) % 2 ^ 32 ≡ off + blocksize = omega arith in
    let e : off + blocksize + n * blocksize ≡ off + suc n * blocksize = omega arith in
    let later =
      full_heads-Tiles n name i (off + blocksize) file hs (omega arith) h
        (subst (λ o. Tiles file i o hs) (sym e) t) in
    (refl, refl, omega arith, omega arith, rw w later)

length-full_heads : (n : ℕ) (name : Text) (i off : ℕ) → length (full_heads n name i off).0 ≡ n
unfolding full_heads new_fb_head
length-full_heads zero name i off = refl
length-full_heads (suc n) name i off = rw (length-full_heads n name i ((off + blocksize) % 2 ^ 32))

-- The blocks of a file follow each other to its end, and there are as many as the receiver is told.
pub file_heads-Tiles :
    (fname : Text) (i : ℕ) (file : List ℕ)
    → length file < 2 ^ 31
    → Tiles file i 0
        (file_heads (info_of fname (length file)).0 (info_of fname (length file)).1 fname i)
      × (length (file_heads (info_of fname (length file)).0 (info_of fname (length file)).1 fname i)
          ≡ (info_of fname (length file)).0.count)
unfolding file_heads
file_heads-Tiles fname i file h =
    let size = length file in
    let n = size / blocksize in
    elim (Bool-cases (size % blocksize == 0)) [
      | inl e ↦
          let z = (==_iff (size % blocksize) 0).0 e in
          let f : 0 + n * blocksize ≡ length file = omega arith in
          let t = full_heads-Tiles n fname i 0 file [] (omega arith) h f in
          rw (e, ← append-nil (full_heads n fname i 0).0)
            (
              t,
              omega (
                arith,
                length-append (full_heads n fname i 0).0 [],
                length-full_heads n fname i 0,
              ),
            )
      | inr e ↦
          let z : size % blocksize ≢ 0 = ground arith in
          let m : n + 1 - 1 ≡ n = omega arith in
          let last : Head = record {
            filename = fname;
            id = i;
            offset = (full_heads n fname i 0).1;
            bs = size % blocksize;
          } in
          let o : (full_heads n fname i 0).1 ≡ 0 + n * blocksize =
            full_heads-end n fname i 0 (omega arith) in
          let f : 0 + n * blocksize + size % blocksize ≡ length file = omega arith in
          let t =
            full_heads-Tiles n fname i 0 file (last ∷ []) (omega arith) h
              (refl, o, omega arith, omega arith, f) in
          let k = length-append (full_heads n fname i 0).0 (last ∷ []) in
          rw (e, m, e) (t, omega (arith, k, length-full_heads n fname i 0))
    ]

pub info_of-filesize : (fname : Text) (size : ℕ) → (info_of fname size).0.filesize ≡ size % 2 ^ 32
info_of-filesize fname size = elim (Bool-cases (size % blocksize == 0)) [
  | inl e ↦ rw e
  | inr e ↦ rw e
]

pub info_of-count_lt :
    (fname : Text) (size : ℕ) → size < 2 ^ 31 → (info_of fname size).0.count < 2 ^ 32
info_of-count_lt fname size h = elim (Bool-cases (size % blocksize == 0)) [
  | inl e ↦ rw e (omega arith)
  | inr e ↦ rw e (omega arith)
]

pub new_conn-Tiles :
    (hs : List Head) (gconn : List Conn) (file : List ℕ) (i : ℕ) (sockfd : ℤ) (finfo : FileInfo)
    (old : List ℕ)
    → i < length gconn
    → length file < 2 ^ 31
    → length file ≢ 0
    → finfo.filesize ≡ length file
    → length hs ≡ finfo.count
    → finfo.count < 2 ^ 32
    → Tiles file i 0 hs
    → transfer (set_conn gconn i (new_conn sockfd finfo old)) file hs
      ≡ some (set_conn gconn i zero_conn, some (file ++ drop (length file) old))
unfolding new_conn
new_conn-Tiles [] gconn file i sockfd finfo old lt h full size k w end = absurd (full (sym end))
new_conn-Tiles (b ∷ hs) gconn file i sockfd finfo old lt h full size k w tiles =
    let c = new_conn sockfd finfo old in
    let mapped = take (length file) (createfile old (length file)) in
    let n = length-mapped old (length file) in
    let tail : c.behind ≡ drop (length file) old =
      ap (λ m. drop m (createfile old m)) size ∙ drop-createfile old (length file) full in
    transfer-Tiles b hs (set_conn gconn i c) file mapped i 0 c
      (omega (arith, length-set_conn gconn i c)) (omega arith) (get-set_conn gconn i c lt)
      (ap (λ m. take m (createfile old m)) size) (omega arith) w tiles
    ∙ ap (λ g. some (g, some (file ++ c.behind))) (set-set_conn gconn i c zero_conn)
    ∙ ap (λ t. some (set_conn gconn i zero_conn, some (file ++ t))) tail
