-- ===== src/Transfer.antt =====
-- Sending a file in blocks: `send_fileinfo`, `new_fb_head`, `send_filedata` and the loops around
-- them in epoll+tpool/server/handle.c. An `int` is its 32-bit pattern.
pub mod Pieces
pub mod Blocks
pub mod Receive
pub mod Slots
pub mod Rebuild
pub mod Roundtrip
pub mod Whole
pub mod Upload
pub mod Sender
use model_lib.Base.{
  ℕ, zero, suc, ◌+◌, ◌-◌, ◌*◌, ◌/◌, ◌%◌, ◌^◌, Option, none, some, List, [], ◌∷◌, ◌++◌, ◌==◌,
  if◌then◌else◌, take, drop, Bool, ltb,
}
use model_lib.CString.{Text, put_str}

abbrev pub filename_maxlen : ℕ
filename_maxlen = 30

abbrev pub send_size : ℕ
send_size = 8192

-- 64 MiB.
abbrev pub blocksize : ℕ
blocksize = 67108864

abbrev u32 : ℕ → ℕ
u32 n = n % 2 ^ 32

-- `struct fileinfo`
pub record FileInfo : Type 0 where
  pub filename : Text
  pub filesize : ℕ
  pub count : ℕ
  pub bs : ℕ

-- `struct head`
pub record Head : Type 0 where
  pub filename : Text
  pub id : ℕ
  pub offset : ℕ
  pub bs : ℕ

-- `send_fileinfo`: what it sends, and `*p_last_bs`, which the caller has set to 0. `none` is a name
-- that runs past its array.
unfoldable pub send_fileinfo : (fname : Text) → (st_size : ℕ) → Option (FileInfo × ℕ)
send_fileinfo fname st_size = elim (put_str filename_maxlen [] fname) [
  | none ↦ none
  | some filename ↦
      let count = u32 (st_size / blocksize) in
      if st_size % blocksize == 0
      then some
          (record { filename = filename; filesize = u32 st_size; count = count; bs = blocksize }, 0)
      else some (
        record {
          filename = filename;
          filesize = u32 st_size;
          count = u32 (count + 1);
          bs = blocksize;
        },
        u32 (u32 st_size + 2 ^ 32 - u32 (blocksize * count)),
      )
]

-- `new_fb_head`, which moves `*offset` on.
unfoldable pub new_fb_head : (filename : Text) → (freeid offset : ℕ) → Head × ℕ
new_fb_head filename freeid offset = (
  record { filename = filename; id = freeid; offset = offset; bs = blocksize },
  u32 (offset + blocksize),
)

-- `for(j = 0; j < n; j++)` over full blocks, and the offset behind them.
unfoldable pub full_heads : (n : ℕ) → Text → (freeid offset : ℕ) → List Head × ℕ
unfolding new_fb_head
full_heads zero filename freeid offset = ([], offset)
full_heads (suc n) filename freeid offset =
    let (h, offset') = new_fb_head filename freeid offset in
    let (hs, end) = full_heads n filename freeid offset' in (h ∷ hs, end)

-- The blocks that `handle_recv` sends for a file.
unfoldable pub file_heads : FileInfo → (last_bs : ℕ) → Text → (freeid : ℕ) → List Head
unfolding full_heads
file_heads finfo last_bs filename freeid =
    if last_bs == 0
    then (full_heads finfo.count filename freeid 0).0
    else (let (hs, offset) = full_heads (finfo.count - 1) filename freeid 0 in
        hs ++ record { filename = filename; id = freeid; offset = offset; bs = last_bs } ∷ [])

-- `n` pieces of SEND_SIZE bytes from `mbegin + fp`, and what the pointer is then. Every `send` takes
-- its whole piece.
unfoldable pub full_pieces : (n : ℕ) → (file : List ℕ) → (fp : ℕ) → List (List ℕ) × ℕ
full_pieces zero file fp = ([], fp)
full_pieces (suc n) file fp =
    let (ps, end) = full_pieces n file (fp + send_size) in (take send_size (drop fp file) ∷ ps, end)

-- `send_filedata`: the head that it sends, and the data behind it. An offset of 2 ^ 31 and more is a
-- negative `int`, and the data would be read from in front of the mapped file: `none`.
unfoldable pub send_filedata : (file : List ℕ) → Head → Option (Head × List (List ℕ))
unfolding full_pieces
send_filedata file h =
    let (ps, fp) = full_pieces (h.bs / send_size) file h.offset in
    let remain_len = h.bs % send_size in
    if ltb h.offset (2 ^ 31)
    then (if remain_len == 0
        then some (h, ps)
        else some (h, ps ++ take remain_len (drop fp file) ∷ []))
    else none
