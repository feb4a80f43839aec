-- ===== src/Client/Files.antt =====
-- The transfer of files in epoll+tpool/client/work.c: sendfile, recvfile and what they call. The
-- functions that cut a file into blocks and put it together are the same text as the server's.
pub mod Incoming
pub mod Download
pub mod Sending
use model_lib.Base.{
  ℕ, zero, suc, ◌+◌, ◌-◌, ◌/◌, ◌%◌, ◌^◌, Bool, true, false, Option, none, some, List, [], ◌∷◌, ◌++◌,
  map, ◌==◌, ltb, if◌then◌else◌, length, ℤ, pos,
}
use model_lib.CString.{Buf, Text, c_str}
use model_lib.Packet.{SendPack, zero_pack}
use model_lib.Packet.Cmd
use model_lib.Transfer
use model_lib.Transfer.{filename_maxlen, send_size, FileInfo, Head, send_fileinfo, file_heads}
use model_lib.Transfer.Receive
use model_lib.Transfer.Receive.{Search, found_at, past_end, searching}
use model_lib.Transfer.Upload.{open_slot}
use model_lib.Client.{
  Message, packet, file_info, block, bytes, slot, Arrival, message, closed, failed, Env, Client, C,
  ok, waiting, exited, endless, fault, pure, crash, ◌>>=◌, ◌>>◌, gets, modify, or_fault,
}
use model_lib.Client.Console.{scanf_word, scanf_int, string_of, memcpy_string, show_text, send_pk}

abbrev pub zero_info : FileInfo
zero_info = record { filename = []; filesize = 0; count = 0; bs = 0 }

abbrev pub zero_head : Head
zero_head = record { filename = []; id = 0; offset = 0; bs = 0 }

-- `recv` into a cleared structure, its result unread: what is no message leaves the zeros.
abbrev taken : {A : Type 0} → (Message → Option A) → A → List Arrival → C A
taken get zeros [] s = waiting s
taken get zeros (message m ∷ rest) s = or_fault (get m) (record s { arrived = rest })
taken get zeros (closed ∷ rest) s = ok zeros s
taken get zeros (failed ∷ rest) s = ok zeros s

abbrev get_info : Message → Option FileInfo
get_info (file_info f) = some f
get_info m = none

abbrev get_head : Message → Option Head
get_head (block h) = some h
get_head m = none

abbrev get_slot : Message → Option ℕ
get_slot (slot n) = some n
get_slot m = none

unfoldable pub recv_info : C FileInfo
recv_info s = taken get_info zero_info s.arrived s

unfoldable pub recv_head : C Head
recv_head s = taken get_head zero_head s.arrived s

unfoldable pub recv_slot : C ℕ
recv_slot s = taken get_slot 0 s.arrived s

abbrev push : List ℕ → C (List (List ℕ)) → C (List (List ℕ))
push p m = m >>= λ ps. pure (p ∷ ps)

-- What comes in before each of the calls that take a block: parts of the stream, of any length and
-- cut anywhere; how much of it a call gets is the server's recv_piece. A closed connection has no
-- more of them.
unfoldable pub recv_pieces : ℕ → List Arrival → C (List (List ℕ))
recv_pieces zero rest s = ok [] (record s { arrived = rest })
recv_pieces (suc n) [] s = waiting s
recv_pieces (suc n) (message (bytes p) ∷ rest) s = push p (recv_pieces n rest) s
recv_pieces (suc n) (message m ∷ rest) s = fault
recv_pieces (suc n) (closed ∷ rest) s = ok [] s
recv_pieces (suc n) (failed ∷ rest) s = ok [] s

-- How many calls a block takes.
abbrev pub piece_count : ℕ → ℕ
piece_count bs = if bs % send_size == 0 then bs / send_size else bs / send_size + 1

abbrev pub keep : Option (List ℕ) → List (List ℕ) → List (List ℕ)
keep none files = files
keep (some f) files = files ++ f ∷ []

-- The head and the data of a block; the file is whole when its last block is counted.
unfoldable pub recv_filedata : C (Unit {0})
unfolding recv_head recv_pieces
recv_filedata = do
  h ← recv_head
  pieces ← (λ s. recv_pieces (piece_count h.bs) s.arrived s)
  gconn ← gets λ s. s.gconn
  r ← or_fault (Transfer.Receive.recv_filedata gconn h pieces)
  modify λ s. record s { gconn = r.0; saved = keep r.1 s.saved }

-- `for(i = 0; i < n; i++)`
unfoldable pub times : ℕ → C (Unit {0}) → C (Unit {0})
times zero body = pure tt
times (suc n) body = body >> times n body

abbrev or_exit : Bool → C (Unit {0})
or_exit true s = ok tt s
or_exit false s = exited s

module _ (e : Env) where
  -- `send`, its result unread.
  unfoldable pub put : Message → C (Unit {0})
  put m s = ok tt (if e.send_ok then record s { sent = s.sent ++ m ∷ [] } else s)

  unfoldable pub put_all : List Message → C (Unit {0})
  unfolding put
  put_all [] = pure tt
  put_all (m ∷ ms) = put m >> put_all ms

  -- A block: a packet that announces it, its head and its data.
  unfoldable pub send_filedata : List ℕ → Head → C (Unit {0})
  unfolding put_all
  send_filedata file h = do
    send_pk e (record zero_pack { send_cmd = Cmd.file_data })
    r ← or_fault (Transfer.send_filedata file h)
    put_all (block r.0 ∷ map bytes r.1)

  unfoldable pub send_blocks : List ℕ → List Head → C (Unit {0})
  unfolding send_filedata
  send_blocks file [] = pure tt
  send_blocks file (h ∷ hs) = send_filedata file h >> send_blocks file hs

  -- A file that cannot be opened ends the process, after the server was told of it.
  abbrev pub opened : Option (List ℕ) → C (List ℕ)
  opened none s = exited s
  opened (some file) s = ok file s

  -- What the server is told first: the file, its sender and its receiver.
  unfoldable pub announce : Buf → C (Unit {0})
  unfolding string_of memcpy_string
  announce filename = do
    msg1 ← memcpy_string [] filename
    me ← gets λ s. s.temp_data0
    sender ← memcpy_string [] me.current_name
    cmd ← scanf_int (pos 0)
    to ← scanf_word []
    send_pk e (record zero_pack {
      send_cmd = Cmd.file_info;
      result = cmd;
      sourse_name = sender;
      send_msg0 = to;
      send_msg1 = msg1;
    })

  -- The sizes, and the blocks under the slot's number that comes back.
  unfoldable pub send_whole : Text → List ℕ → C (Unit {0})
  unfolding put recv_slot send_blocks
  send_whole name file = do
    r ← or_fault (send_fileinfo name (length file))
    put (file_info r.0)
    tempid ← recv_slot
    send_blocks file (file_heads r.0 r.1 name tempid)

  unfoldable pub sendfile : C (Unit {0})
  unfolding announce send_whole
  sendfile = do
    modify λ s. record s { flag = pos 0 }
    filename ← scanf_word []
    announce filename
    name ← string_of filename
    file ← opened (e.file name)
    send_whole name file
    modify λ s. record s { flag = pos 1 }

  abbrev into : Search × List Transfer.Receive.Conn → C ℕ
  into (found_at i, gconn) s = ok i (record s { gconn = gconn; freeid = i })
  into (past_end, gconn) s = fault
  into (searching, gconn) s = endless s

  -- What is on the client's disk under the name.
  abbrev pub on_disk : Option (List ℕ) → List ℕ
  on_disk none = []
  on_disk (some old) = old

  -- A free slot for the file; the search does not end when all are used, since no other thread of the
  -- client frees one.
  unfoldable pub take_slot : FileInfo → Text → C ℕ
  take_slot finfo filepath s =
      into (open_slot s.gconn s.freeid e.sockfd finfo (on_disk (e.file filepath))) s

  -- The new file, its slot, and the slot's number sent back; then how many blocks to expect.
  unfoldable pub recv_fileinfo : C ℕ
  unfolding recv_info show_text put take_slot
  recv_fileinfo = do
    finfo ← recv_info
    filepath ← or_fault (c_str filename_maxlen finfo.filename)
    show_text filepath
    or_exit (e.opens filepath)
    i ← take_slot finfo filepath
    put (slot i)
    pure finfo.count

  unfoldable pub recvfile : C (Unit {0})
  unfolding recv_fileinfo times recv_filedata memcpy_string
  recvfile = do
    me ← gets λ s. s.temp_data0
    name ← memcpy_string [] me.current_name
    let mine = record zero_pack { sourse_name = name; send_id1 = me.current_id1 }
    send_pk e (record mine { send_cmd = Cmd.show; result = pos 5 })
    id ← scanf_int (pos 0)
    modify λ s. record s { flag = pos 0 }
    send_pk e (record mine { send_cmd = Cmd.recv_file; send_id2 = id })
    count ← recv_fileinfo
    (if ltb count (2 ^ 31) then times count recv_filedata else pure tt)
    modify λ s. record s { flag = pos 1 }
