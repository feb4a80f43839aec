-- ===== src/Transfer/Blocks.antt =====
-- The blocks that handle_recv (epoll+tpool/server/handle.c) makes of a file.
use model_lib.Base.{
  ℕ, zero, suc, ◌+◌, ◌-◌, ◌*◌, ◌/◌, ◌%◌, ◌^◌, ◌<◌, ◌≡◌, ◌≢◌, refl, sym, ap, ◌∙◌, some, List, [],
  ◌∷◌, ◌++◌, append-nil, append_assoc, arith, ◌==◌, false, if◌then◌else◌, take, drop, take-append,
  take_all, drop-drop, length, inl, inr, Bool-cases, ==_iff,
}
use model_lib.CString.{Text, put_str-nil}
use model_lib.Transfer.{
  filename_maxlen, blocksize, FileInfo, Head, send_fileinfo, new_fb_head, full_heads, file_heads,
}
use model_lib.Transfer.Pieces.{block}

-- What the blocks stand for, in the order they are sent.
abbrev pub covered : List ℕ → List Head → List ℕ
covered file [] = []
covered file (h ∷ hs) = block file h ++ covered file hs

covered-append :
    (file : List ℕ) (gs hs : List Head)
    → covered file (gs ++ hs) ≡ covered file gs ++ covered file hs
covered-append file [] hs = refl
covered-append file (g ∷ gs) hs = rw (covered-append file gs hs) (simp append_assoc)

pub full_heads-end :
    (n : ℕ) (name : Text) (id offset : ℕ)
    → offset + n * blocksize < 2 ^ 32
    → (full_heads n name id offset).1 ≡ offset + n * blocksize
unfolding full_heads new_fb_head
full_heads-end zero name id offset h = omega arith
full_heads-end (suc n) name id offset h =
    let e : (offset + blocksize) % 2 ^ 32 ≡ offset + blocksize = omega arith in
    rw e (full_heads-end n name id (offset + blocksize) (omega arith) ∙ omega arith)

full_heads-covered :
    (n : ℕ) (name : Text) (id offset : ℕ) (file : List ℕ)
    → offset + n * blocksize < 2 ^ 32
    → covered file (full_heads n name id offset).0 ≡ take (n * blocksize) (drop offset file)
unfolding full_heads new_fb_head
full_heads-covered zero name id offset file h =
    let e : 0 ≡ 0 * blocksize = omega arith in ap (λ k. take k (drop offset file)) e
full_heads-covered (suc n) name id offset file h =
    let w : (offset + blocksize) % 2 ^ 32 ≡ offset + blocksize = omega arith in
    let e : suc n * blocksize ≡ blocksize + n * blocksize = omega arith in
    rw
      (
        w,
        full_heads-covered n name id (offset + blocksize) file (omega arith),
        e,
        ← drop-drop blocksize offset file,
      )
      (take-append blocksize (n * blocksize) (drop offset file))

-- The whole of a file of fewer than 2 ^ 32 bytes, with a last block or without.
heads-covered :
    (finfo : FileInfo) (last_bs : ℕ) (name : Text) (id : ℕ) (file : List ℕ)
    → length file < 2 ^ 32
    → last_bs ≡ length file % blocksize
    → (last_bs ≡ 0 → finfo.count ≡ length file / blocksize)
    → (last_bs ≢ 0 → finfo.count ≡ length file / blocksize + 1)
    → covered file (file_heads finfo last_bs name id) ≡ file
unfolding file_heads
heads-covered finfo last_bs name id file h m whole part = elim (Bool-cases (last_bs == 0)) [
  | inl e ↦
      let z = (==_iff last_bs 0).0 e in
      let c = whole z in
      rw (e, full_heads-covered finfo.count name id 0 file (omega arith))
        (take_all (finfo.count * blocksize) file (omega arith))
  | inr e ↦
      let z : last_bs ≢ 0 = ground arith in
      let c = part z in
      let n = finfo.count - 1 in
      let k : n ≡ length file / blocksize = omega arith in
      let o : 0 + n * blocksize ≡ n * blocksize = omega arith in
      rw
        (
          e,
          covered-append file (full_heads n name id 0).0 (
              record { filename = name; id = id; offset = (full_heads n name id 0).1; bs = last_bs }
              ∷ []),
          full_heads-covered n name id 0 file (omega arith),
          full_heads-end n name id 0 (omega arith),
          append-nil (take last_bs (drop (0 + n * blocksize) file)),
        )
        (ap (λ k. take (n * blocksize) file ++ take last_bs (drop k file)) o
          ∙ take-append (n * blocksize) last_bs file
          ∙ take_all (n * blocksize + last_bs) file (omega arith))
]

-- What the receiver is told of a file: the block count and the last block's size.
abbrev pub info_of : Text → ℕ → FileInfo × ℕ
info_of fname size =
    if size % blocksize == 0
    then (
      record {
        filename = fname ++ 0 ∷ [];
        filesize = size % 2 ^ 32;
        count = size / blocksize;
        bs = blocksize;
      },
      0,
    )
    else (
      record {
        filename = fname ++ 0 ∷ [];
        filesize = size % 2 ^ 32;
        count = size / blocksize + 1;
        bs = blocksize;
      },
      size % blocksize,
    )

pub send_fileinfo-info_of :
    (fname : Text) (size : ℕ)
    → length fname < filename_maxlen
    → size < 2 ^ 32
    → send_fileinfo fname size ≡ some (info_of fname size)
unfolding send_fileinfo
send_fileinfo-info_of fname size short h =
    let c : (size / blocksize) % 2 ^ 32 ≡ size / blocksize = omega arith in
    let d : (size / blocksize + 1) % 2 ^ 32 ≡ size / blocksize + 1 = omega arith in
    elim (Bool-cases (size % blocksize == 0)) [
      | inl e ↦ rw (send_fileinfo, put_str-nil filename_maxlen fname short, e, c)
      | inr e ↦
          let r : (size % 2 ^ 32 + 2 ^ 32 - (blocksize * (size / blocksize)) % 2 ^ 32) % 2 ^ 32
              ≡ size % blocksize =
            omega arith in
          rw (send_fileinfo, put_str-nil filename_maxlen fname short, e, c, d, r)
    ]

pub info_of-last : (fname : Text) (size : ℕ) → (info_of fname size).1 ≡ size % blocksize
info_of-last fname size = elim (Bool-cases (size % blocksize == 0)) [
  | inl e ↦ let z = (==_iff (size % blocksize) 0).0 e in rw e (sym z)
  | inr e ↦ rw e
]

pub info_of-count_whole :
    (fname : Text) (size : ℕ)
    → size % blocksize ≡ 0
    → (info_of fname size).0.count ≡ size / blocksize
info_of-count_whole fname size z = rw ((==_iff (size % blocksize) 0).1 z)

pub info_of-count_part :
    (fname : Text) (size : ℕ)
    → size % blocksize ≢ 0
    → (info_of fname size).0.count ≡ size / blocksize + 1
info_of-count_part fname size z = let e : (size % blocksize == 0) ≡ false = ground arith in rw e

-- For a name of fewer than 30 bytes and a file of fewer than 2 ^ 31, send_fileinfo tells the
-- receiver sizes such that the blocks that handle_recv makes of them cover the file exactly: put
-- together in the order they are sent, they are the file.
send_fileinfo-covered :
    (fname : Text) (id : ℕ) (file : List ℕ)
    → length fname < filename_maxlen
    → length file < 2 ^ 31
    → (finfo : FileInfo) × ((last_bs : ℕ) × ((send_fileinfo fname (length file)
            ≡ some (finfo, last_bs))
          × (covered file (file_heads finfo last_bs fname id) ≡ file)))
send_fileinfo-covered fname id file short l =
    let size = length file in
    let h : size < 2 ^ 32 = omega arith in
    let last = info_of-last fname size in
    (
      (info_of fname size).0,
      (
        (info_of fname size).1,
        (
          send_fileinfo-info_of fname size short h,
          heads-covered (info_of fname size).0 (info_of fname size).1 fname id file h last
              (λ z. info_of-count_whole fname size (sym last ∙ z))
              (λ n. info_of-count_part fname size (λ z. n (last ∙ z))),
        ),
      ),
    )
