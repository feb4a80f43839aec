-- ===== src/Udp.antt =====
-- The server of epoll+tpool/server/udp.c, which receives files in datagrams. An `int` is its 32-bit
-- pattern.
pub mod Bytes
pub mod FirstBlock
use model_lib.Base.{
  ℕ, zero, suc, ◌+◌, ◌-◌, ◌/◌, ◌%◌, ◌^◌, Bool, true, false, ◌&&◌, not, Option, none, some, List, [],
  ◌∷◌, ◌++◌, ◌==◌, ltb, if◌then◌else◌, length, take,
}
use model_lib.CString.{Text, c_str}
use model_lib.Transfer.{filename_maxlen, send_size, FileInfo, Head}
use model_lib.Transfer.Receive.{createfile, write_at}

abbrev pub Datagram : Type 0
Datagram = List ℕ

-- What is not in the repository: how the compiler lays out the two structures, whether a file can be
-- opened, and what a file holds before, nothing if there is none.
pub record Layout : Type 0 where
  pub info_bytes : FileInfo → Datagram
  pub info_of : Datagram → FileInfo
  pub head_bytes : Head → Datagram
  pub head_of : Datagram → Head
  pub opens : Text → Bool
  pub old : Text → List ℕ

-- A value and the datagrams left; a `recvfrom` that finds none; or undefined behaviour.
pub data Got (A : Type 0) : Type 0 where
  got : A → List Datagram → Got A
  blocked broken exited : Got A

abbrev pub and_then : {A B : Type 0} → Got A → (A → List Datagram → Got B) → Got B
and_then (got a ds) k = k a ds
and_then blocked k = blocked
and_then broken k = broken
and_then exited k = exited

-- `tempdata`, with the part of the file that is mapped, and whether it still is; the file is not cut
-- off behind that part.
pub record Tempdata : Type 0 where
  pub filename : Text
  pub filesize : ℕ
  pub count : ℕ
  pub bs : ℕ
  pub recvcount : ℕ
  pub mbegin : List ℕ
  pub mapped : Bool

abbrev pub or_broken : {A : Type 0} → Option A → List Datagram → Got A
or_broken none ds = broken
or_broken (some a) ds = got a ds

-- `recvfrom(sockfd, fp, size, …)`: what of the datagram is longer is lost.
unfoldable pub recv_into : (size : ℕ) → List ℕ → (fp : ℕ) → List Datagram → Got (List ℕ)
recv_into size map fp [] = blocked
recv_into size map fp (p ∷ ds) = or_broken (write_at map fp (take size p)) ds

-- `for(i = 0; i < num; i++)` over whole pieces.
unfoldable pub recv_full : (num : ℕ) → List ℕ → (fp : ℕ) → List Datagram → Got (List ℕ × ℕ)
unfolding recv_into
recv_full zero map fp ds = got (map, fp) ds
recv_full (suc num) map fp ds =
    and_then (recv_into send_size map fp ds) (λ map' rest. recv_full num map' (fp + send_size) rest)

-- A negative `bs` has no whole pieces.
abbrev pub num_of : ℕ → ℕ
num_of bs = if ltb bs (2 ^ 31) then bs / send_size else 0

-- The last piece. A negative size counts as a very large one.
unfoldable pub recv_rest : (bs : ℕ) → List ℕ → (fp : ℕ) → List Datagram → Got (List ℕ)
recv_rest bs map fp ds =
    if bs % send_size == 0
    then got map ds
    else if ltb bs (2 ^ 31)
    then recv_into (bs % send_size) map fp ds
    else recv_into (2 ^ 32) map fp ds

-- The data of a block.
unfoldable pub recv_block : Head → List ℕ → List Datagram → Got (List ℕ)
unfolding recv_full recv_rest
recv_block h map ds =
    and_then (recv_full (num_of h.bs) map h.offset ds) λ r rest. recv_rest h.bs r.0 r.1 rest

-- The count of the block, and the unmapping at the last one.
unfoldable pub count_block : Tempdata → List ℕ → Tempdata
count_block t map =
    let recvcount = (t.recvcount + 1) % 2 ^ 32 in
    record t {
      mbegin = map;
      recvcount = recvcount;
      mapped = t.mapped && not (recvcount == t.count);
    }

-- One round of the loop over the blocks, where a block behind the unmapping or at a negative offset is
-- taken to write outside the file even when it has no data; and `i` at its end, which the loop over the pieces has set.
unfoldable pub block_round : Layout → Tempdata → List Datagram → Got (Tempdata × ℕ)
unfolding recv_block count_block
block_round y t [] = blocked
block_round y t (d ∷ ds) =
    let h = y.head_of d in
    if ltb h.offset (2 ^ 31) && t.mapped
    then and_then (recv_block h t.mbegin ds) (λ map rest. got (count_block t map, num_of h.bs) rest)
    else broken

-- `for(i = 0; i < info.count; i++)`. A round takes a datagram, so that no fuel left is no datagram
-- left.
unfoldable pub blocks_loop : (fuel : ℕ) → Layout → (i : ℕ) → Tempdata → List Datagram → Got Tempdata
unfolding block_round
blocks_loop zero y i t ds = if ltb i t.count && ltb t.count (2 ^ 31) then blocked else got t ds
blocks_loop (suc fuel) y i t ds =
    let next = and_then (block_round y t ds) (λ r rest. blocks_loop fuel y (r.1 + 1) r.0 rest) in
    if ltb i t.count && ltb t.count (2 ^ 31) then next else got t ds

-- `tempdata` for the sizes that came in, and a file that held `old`.
unfoldable pub new_tempdata : Text → FileInfo → (old : List ℕ) → Tempdata
new_tempdata name info old = record {
  filename = name;
  filesize = info.filesize;
  count = info.count;
  bs = info.bs;
  recvcount = 0;
  mbegin = take info.filesize (createfile old info.filesize);
  mapped = true;
}

abbrev open_file : Layout → FileInfo → Option Text → List Datagram → Got Tempdata
open_file y info none ds = broken
open_file y info (some name) ds =
    if y.opens name then got (new_tempdata name info (y.old name)) ds else exited

-- A round of the server's loop: one file.
unfoldable pub file_round : Layout → List Datagram → Got Tempdata
unfolding blocks_loop new_tempdata
file_round y [] = blocked
file_round y (d ∷ ds) =
    let info = y.info_of d in
    and_then (open_file y info (c_str filename_maxlen info.filename) ds)
      λ t rest. blocks_loop (length rest) y 0 t rest

-- What the server has when it waits for the next datagram: the files so far.
unfoldable pub serve_files : (fuel : ℕ) → Layout → List Datagram → Got (List Tempdata)
unfolding file_round
serve_files zero y ds = got [] ds
serve_files (suc fuel) y ds =
    and_then (file_round y ds)
      λ t rest. and_then (serve_files fuel y rest) λ ts last. got (t ∷ ts) last
