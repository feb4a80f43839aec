-- ===== src/Transfer/Upload.antt =====
-- recv_fileinfo in epoll+tpool/server/work.c: the file is entered in the database, created, and given
-- a slot of gconn.
pub mod Enter
use model_lib.Base.{
  ℕ, Bool, Option, none, some, List, [], ◌++◌, if◌then◌else◌, ℤ, pos, int_eq, int_inc,
}
use model_lib.CString.{Text, text, c_str, max_size}
use model_lib.CString.Decimal.{show_int}
use model_lib.Packet.{SendPack, zero_pack, count}
use model_lib.Server.{Env, M, pure, exit, ◌>>=◌, or_fault, sprintf}
use model_lib.Sqlite.{search_data}
use model_lib.Sqlite.Write.{c_string, insert_data}
use model_lib.Handle.Common.{memcpy_str, strcpy}
use model_lib.Transfer.{filename_maxlen, FileInfo}
use model_lib.Transfer.Receive.{
  Conn, conn_max, set_conn, new_conn, Search, found_at, past_end, searching, find_slot, undisturbed,
}

-- The receiver of the file: a user with 1, a group with 2, nobody with another result.
unfoldable pub set_receiver : SendPack → SendPack → M SendPack
set_receiver recv_pack row =
    if int_eq recv_pack.result (pos 1)
    then (do
      to ← c_string recv_pack.send_msg0
      user ← memcpy_str [] to
      null ← strcpy [] (text "null")
      pure (record row { send_msg1 = user; send_msg2 = null }))
    else if int_eq recv_pack.result (pos 2)
    then (do
      to ← c_string recv_pack.send_msg0
      group ← memcpy_str [] to
      null ← strcpy [] (text "null")
      pure (record row { send_msg1 = null; send_msg2 = group }))
    else pure row

-- The row of `filelist`: the file's name, its sender and its receiver.
unfoldable pub file_row : SendPack → (temp_id : ℤ) → M SendPack
file_row recv_pack temp_id = do
  file ← c_string recv_pack.send_msg1
  name ← memcpy_str [] file
  sender ← c_string recv_pack.sourse_name
  msg0 ← memcpy_str [] sender
  set_receiver recv_pack
      (record zero_pack { sourse_name = name; send_msg0 = msg0; send_id1 = temp_id })

-- The slot, which is what the client is told, set up if one is found. No other thread changes gconn
-- meanwhile, so that a search which is still going on after ten tests goes on for ever.
unfoldable pub open_slot :
    List Conn → (freeid : ℕ) → (sockfd : ℤ) → FileInfo → (old : List ℕ) → Search × List Conn
open_slot gconn freeid sockfd finfo old = elim (find_slot (undisturbed conn_max gconn) freeid) [
  | found_at i ↦ (found_at i, set_conn gconn i (new_conn sockfd finfo old))
  | past_end ↦ (past_end, gconn)
  | searching ↦ (searching, gconn)
]

-- `opens` says of a path whether the new file can be opened; if not, the process exits. `old` is what
-- the file of a path holds before, nothing if there is none.
unfoldable pub recv_fileinfo :
    Env
    → (opens : Text → Bool) → (old : Text → List ℕ) → List Conn
    → (freeid : ℕ) → (sockfd : ℤ) → SendPack
    → FileInfo
    → M (Search × List Conn)
recv_fileinfo e opens old gconn freeid sockfd recv_pack finfo = do
  files ← search_data e (text "filelist") none none count
  let temp_id = int_inc files
  row ← file_row recv_pack temp_id
  _ ← insert_data e (text "filelist") row 7
  fname ← or_fault (c_str filename_maxlen finfo.filename)
  filepath ← sprintf max_size (show_int temp_id ++ (text "_" ++ fname))
  if opens filepath then pure (open_slot gconn freeid sockfd finfo (old filepath)) else exit
