-- ===== src/Transfer/Receive.antt =====
-- Receiving a file: `createfile`, the slots `gconn` of recv_fileinfo, and recv_filedata, in
-- epoll+tpool/server/work.c. An `int` is its 32-bit pattern.
use model_lib.Base.{
  ℕ, zero, suc, ◌+◌, ◌/◌, ◌%◌, ◌^◌, Bool, true, false, Option, none, some, List, [], ◌∷◌, ◌++◌,
  ◌==◌, leb, ltb, ◌||◌, if◌then◌else◌, take, drop, length, ℤ, pos,
}
use model_lib.CString.{Buf}
use model_lib.Transfer.{send_size, FileInfo, Head}

abbrev pub conn_max : ℕ
conn_max = 10

-- `struct conn`. `mbegin` is the part of the file on disk that is mapped, `filesize` bytes, and the
-- empty list is NULL or a failed `mmap`; `behind` is what the file holds behind that part.
pub record Conn : Type 0 where
  pub info_fd : ℤ
  pub filename : Buf
  pub filesize : ℕ
  pub bs : ℕ
  pub count : ℕ
  pub recvcount : ℕ
  pub mbegin : List ℕ
  pub behind : List ℕ
  pub used : Bool

-- `memset(&gconn[recv_id], 0, sizeof(gconn[recv_id]))`
abbrev pub zero_conn : Conn
zero_conn = record {
  info_fd = pos 0;
  filename = [];
  filesize = 0;
  bs = 0;
  count = 0;
  recvcount = 0;
  mbegin = [];
  behind = [];
  used = false;
}

unfoldable pub zeros : ℕ → List ℕ
zeros zero = []
zeros (suc n) = 0 ∷ zeros n

-- `createfile`: what the file holds whose bytes were `old` before, none if there was no such file. It
-- is not cut off; the seek leaves a gap of zeros behind a shorter one, and one byte is written. The
-- seek to one byte in front of the start fails, and the byte is written at the start.
unfoldable pub createfile : (old : List ℕ) → (size : ℕ) → List ℕ
createfile old zero = 0 ∷ drop 1 old
createfile old (suc n) = take n (old ++ zeros n) ++ 0 ∷ drop (suc n) old

unfoldable pub get_conn : List Conn → ℕ → Option Conn
get_conn [] i = none
get_conn (c ∷ cs) zero = some c
get_conn (c ∷ cs) (suc i) = get_conn cs i

unfoldable pub set_conn : List Conn → ℕ → Conn → List Conn
set_conn [] i c' = []
set_conn (c ∷ cs) zero c' = c' ∷ cs
set_conn (c ∷ cs) (suc i) c' = c ∷ set_conn cs i c'

-- Where the search for a slot is: at a free one, at an index past the array, or still going on.
pub data Search : Type 0 where
  found_at : ℕ → Search
  past_end searching : Search

-- `while(gconn[freeid].used) { ++freeid; freeid = freeid % CONN_MAX; }`, after as many tests as
-- there are tables: other threads may change gconn, so that each test has its own.
unfoldable pub find_slot : (tables : List (List Conn)) → (freeid : ℕ) → Search
find_slot [] freeid = searching
find_slot (gconn ∷ tables) freeid =
    let rest = find_slot tables ((freeid + 1) % conn_max) in
    elim (get_conn gconn freeid) [
      | none ↦ past_end
      | some c ↦ if c.used then rest else found_at freeid
    ]

-- The tables of a search that no other thread disturbs, which has met every slot after ten tests.
unfoldable pub undisturbed : ℕ → List Conn → List (List Conn)
undisturbed zero gconn = []
undisturbed (suc n) gconn = gconn ∷ undisturbed n gconn

-- What `recv_fileinfo` writes into the slot, for a file that held `old`. The name's array is as long as
-- that of `finfo`.
unfoldable pub new_conn : (sockfd : ℤ) → FileInfo → (old : List ℕ) → Conn
new_conn sockfd finfo old = record {
  info_fd = sockfd;
  filename = finfo.filename;
  filesize = finfo.filesize;
  bs = finfo.bs;
  count = finfo.count;
  recvcount = 0;
  mbegin = take finfo.filesize (createfile old finfo.filesize);
  behind = drop finfo.filesize (createfile old finfo.filesize);
  used = true;
}

-- Bytes put into the mapped file from `fp` on; `none` is a write past its end.
unfoldable pub write_at : (map : List ℕ) → (fp : ℕ) → List ℕ → Option (List ℕ)
write_at map fp bytes =
    if leb (fp + length bytes) (length map) || (length bytes == 0)
    then some (take fp map ++ bytes ++ drop (fp + length bytes) map)
    else none

-- What a `recv` of `size` bytes leaves to the next one, which also finds what came in meanwhile.
unfoldable pub left_over : (size : ℕ) → List ℕ → List (List ℕ) → List (List ℕ)
left_over size p [] = if leb (length p) size then [] else drop size p ∷ []
left_over size p (q ∷ ps) = (drop size p ++ q) ∷ ps

-- `recv(sockfd, fp, size, 0)` on a stream. The list has, for each call that is still to come, the bytes
-- that come in before it, in parts of any length, whatever the sends wrote: a call gets what is there,
-- up to `size`, and may come back short. A socket with nothing more writes nothing.
unfoldable pub recv_piece :
    (size : ℕ) → (map : List ℕ) → (fp : ℕ) → List (List ℕ) → Option (List ℕ × List (List ℕ))
recv_piece size map fp [] = some (map, [])
recv_piece size map fp (p ∷ ps) = elim (write_at map fp (take size p)) [
  | none ↦ none
  | some map' ↦ some (map', left_over size p ps)
]

-- The loop over whole pieces. The pointer moves on by SEND_SIZE whatever `recv` returned.
unfoldable pub recv_pieces :
    (n : ℕ) → (map : List ℕ) → (fp : ℕ) → List (List ℕ) → Option (List ℕ × ℕ × List (List ℕ))
recv_pieces zero map fp incoming = some (map, fp, incoming)
recv_pieces (suc n) map fp incoming = elim (recv_piece send_size map fp incoming) [
  | none ↦ none
  | some (map', rest) ↦ recv_pieces n map' (fp + send_size) rest
]

-- The data of a block, written to its place. What a part has behind the block's end would be found by
-- the recv of the next head; it is not followed.
unfoldable pub recv_data : (map : List ℕ) → Head → List (List ℕ) → Option (List ℕ)
recv_data map h incoming = elim (recv_pieces (h.bs / send_size) map h.offset incoming) [
  | none ↦ none
  | some (map', fp, rest) ↦
      if h.bs % send_size == 0
      then some map'
      else elim (recv_piece (h.bs % send_size) map' fp rest) [
        | none ↦ none
        | some (map'', rest') ↦ some map''
      ]
]

-- The slot after a block: counted, or cleared if it was the last one. With the latter the file is
-- unmapped, and the second component is what it holds on disk.
unfoldable pub count_block : Conn → (map : List ℕ) → Conn × Option (List ℕ)
count_block c map =
    let recvcount = (c.recvcount + 1) % 2 ^ 32 in
    if recvcount == c.count
    then (zero_conn, some (map ++ c.behind))
    else (record c { mbegin = map; recvcount = recvcount }, none)

-- `recv_filedata` for a head that came in and the pieces behind it. `none` is an id past the slots, a
-- negative offset, or a write past the file.
unfoldable pub recv_filedata :
    List Conn → Head → List (List ℕ) → Option (List Conn × Option (List ℕ))
recv_filedata gconn h incoming = elim (get_conn gconn h.id) [
  | none ↦ none
  | some c ↦
      if ltb h.offset (2 ^ 31)
      then elim (recv_data c.mbegin h incoming) [
        | none ↦ none
        | some map' ↦
            let (c', unmapped) = count_block c map' in some (set_conn gconn h.id c', unmapped)
      ]
      else none
]
