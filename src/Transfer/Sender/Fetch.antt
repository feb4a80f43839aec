-- ===== src/Transfer/Sender/Fetch.antt =====
-- A file on its way from handle_recv of epoll+tpool/server/handle.c to recvfile of
-- epoll+tpool/client/work.c.
use mathlib.Core.List.{reverse_aux}
use mathlib.Core.Path.{subst}
use model_lib.Base.{
  ℕ, ◌+◌, ◌^◌, ◌<◌, ◌≡◌, ◌≢◌, refl, true, Option, some, List, [], ◌∷◌, ◌++◌, arith, drop, length,
  lt→ltb, ℤ, pos, map, ◌∙◌,
}
use model_lib.CString.{Text, IsClean, text, max_size}
use model_lib.CString.Decimal.{show_int, IsInt, length-show_int-le}
use model_lib.Packet.{SendPack, Node, inport}
use model_lib.Server
use model_lib.Server.{Answer, Server, sprintf}
use model_lib.Work.Copy.{IsString}
use model_lib.Sqlite.{search_by_id}
use model_lib.Sqlite.Sql.{select_int}
use model_lib.Sqlite.Insert.{c_string-ok}
use model_lib.Sqlite.Search.{
  int_bound, Imports, searched, search_data-inport, search_sql-id, length-select_int, length-id1,
}
use model_lib.Transfer.{filename_maxlen, Head, send_filedata}
use model_lib.Transfer.Blocks.{send_fileinfo-info_of}
use model_lib.Transfer.Pieces.{send_filedata-flatten}
use model_lib.Transfer.Receive.{conn_max, zero_conn, set_conn, found_at, find_slot, undisturbed}
use model_lib.Transfer.Roundtrip.{Tiles}
use model_lib.Transfer.Whole.{file_heads-Tiles}
use model_lib.Transfer.Sender.{send_blocks, handle_recv}
use model_lib.Client
use model_lib.Client.{Message, file_info, block, bytes, slot, Arrival, Client}
use model_lib.Client.Scan.{got, scan_int}
use model_lib.Client.Files.{recvfile}
use model_lib.Client.Files.Incoming.{stream, arriving}
use model_lib.Client.Files.Download.{
  file_sent, blocks_sent, file_packet, requested, recvfile-whole, old,
}

-- The search of the file.
abbrev pub file_query : ℤ → Text
file_query id = select_int (text "filelist") (text "id1") id

length-file_query : (id : ℤ) → IsInt id → length (file_query id) < max_size
unfolding text
length-file_query id i = omega (
  arith,
  length-select_int (text "filelist") (text "id1") id,
  length-id1,
  length-show_int-le id i,
)

search_file :
    (e : Server.Env) (id : ℤ) (s : Server) (a : Answer) (ns : List Node)
    → IsInt id
    → e.exec s.db (file_query id) ≡ a
    → Imports a.rows ns
    → length a.rows < int_bound
    → search_by_id e (text "filelist") (text "id1") id inport s
      ≡ Server.ok
          (pos (length a.rows))
          (searched s (file_query id) (length a.rows) (reverse_aux ns []))
unfolding search_by_id
search_file e id s a ns int run im few =
    subst
      (λ q.
        e.exec s.db q ≡ a
        → length q < max_size
        → search_by_id e (text "filelist") (text "id1") id inport s
          ≡ Server.ok (pos (length a.rows)) (searched s q (length a.rows) (reverse_aux ns [])))
      (search_sql-id (text "filelist") id)
      (λ r f.
        search_data-inport e (text "filelist") (some (text "id1")) (some (show_int id)) s a ns r im
          f few)
      run (length-file_query id int)

-- One more block.
send_blocks-cons :
    (file : List ℕ) (h : Head) (hs : List Head) (pieces : List (List ℕ)) (ms : List Message)
    → send_filedata file h ≡ some (h, pieces)
    → send_blocks file hs ≡ some ms
    → send_blocks file (h ∷ hs) ≡ some (block h ∷ map bytes pieces ++ ms)
unfolding send_blocks
send_blocks-cons file h hs pieces ms sent rest = rw (send_blocks, sent, rest) refl

-- Blocks that follow each other in a file are all sent.
send_blocks-stream :
    (file : List ℕ) (i off : ℕ) (hs : List Head)
    → Tiles file i off hs
    → send_blocks file hs ≡ some (stream file hs)
unfolding send_blocks
send_blocks-stream file i off [] t = refl
send_blocks-stream file i off (h ∷ hs) (same, at, near, fits, rest) =
    let (pieces, (sent, content)) = send_filedata-flatten file h (omega arith) in
    let later = send_blocks-stream file i (off + h.bs) hs rest in
    send_blocks-cons file h hs pieces (stream file hs) sent later ∙ rw sent refl

-- The file's name on the server's disk.
abbrev pub disk_name : Node → Text
disk_name p = show_int p.id1 ++ (text "_" ++ p.name)

-- What goes over the connection for a file, to the slot i.
abbrev pub file_messages : Client.Env → Text → List ℕ → ℕ → List Message
file_messages host fname file i =
    file_info (file_sent host fname file i) ∷ stream file (blocks_sent host fname file i)

sprintf-ok : (t : Text) (s : Server) → length t < max_size → sprintf max_size t s ≡ Server.ok t s
unfolding sprintf
sprintf-ok t s h = rw (lt→ltb _ _ h)

module _ (e : Server.Env) (disk : Text → Option (List ℕ)) (file : List ℕ) (i : ℕ)
    (host : Client.Env) (s : Server) (a : Answer) (ns ps : List Node) (p : Node)
    (im : Imports a.rows ns) (few : length a.rows < int_bound) (first : reverse_aux ns [] ≡ p ∷ ps)
    (str : IsString p.name) (short : length (disk_name p) < filename_maxlen)
    (there : disk (disk_name p) ≡ some file) (size : length file < 2 ^ 31) where
  handle_recv-sends :
      (recv : SendPack)
      → IsInt recv.send_id2
      → e.exec s.db (file_query recv.send_id2) ≡ a
      → handle_recv e disk (λ finfo. i) recv s
        ≡ Server.ok
            (file_messages host (disk_name p) file i)
            (searched s (file_query recv.send_id2) (length a.rows) (p ∷ ps))
  unfolding handle_recv
  handle_recv-sends recv int run =
      let s1 = searched s (file_query recv.send_id2) (length a.rows) (p ∷ ps) in
      let (tiles, k) = file_heads-Tiles (disk_name p) i file size in
      rw
        (
          search_file e recv.send_id2 s a ns int run im few,
          first,
          c_string-ok p.name s1 str,
          sprintf-ok (disk_name p) s1 (omega arith),
          there,
          send_fileinfo-info_of (disk_name p) (length file) short (omega arith),
          send_blocks-stream file i 0 (blocks_sent host (disk_name p) file i) tiles,
        )
        refl

  -- A client on a connection that is up, with a file's number typed and a free slot i, asks for the
  -- file; the number is found in filelist, the last row found having a name that is a string, and
  -- the file of that row's id and name, of at least one byte and fewer than 2 ^ 31, is on the
  -- server's disk under a name of fewer than 30 bytes that holds no NUL and that the client can
  -- open. Then handle_recv, given the packet that the client sent and the slot i, executes the one
  -- search and sends the file's sizes and blocks. And if the thread that receives has taken the
  -- listing that recvfile asks for first, and then exactly what handle_recv sends arrives at
  -- recvfile, every recv getting what one send wrote, with no short read, recvfile saves the file,
  -- byte for byte, frees the slot, and reads nothing of what comes behind. If a file of that name
  -- was there and was longer, what it holds behind the new file's length stays behind the new
  -- bytes.
  pub fetch :
      (c : Client) (file_id : ℤ) (keys : List ℕ) (more : List Arrival)
      → IsInt file_id
      → e.exec s.db (file_query file_id) ≡ a
      → IsClean (disk_name p)
      → length file ≢ 0
      → IsString c.temp_data0.current_name
      → scan_int c.typed ≡ got (some file_id) keys
      → find_slot (undisturbed conn_max c.gconn) c.freeid ≡ found_at i
      → i < length c.gconn
      → host.opens (disk_name p) ≡ true
      → host.send_ok ≡ true
      → c.arrived ≡ arriving (file_messages host (disk_name p) file i) more
      → let sent = file_messages host (disk_name p) file i in
        let me = c.temp_data0 in
        (handle_recv e disk (λ finfo. i) (file_packet me.current_name me.current_id1 file_id) s
          ≡ Server.ok sent (searched s (file_query file_id) (length a.rows) (p ∷ ps)))
        × (recvfile host c
            ≡ Client.ok tt (record (requested host (disk_name p) file i c file_id keys) {
              flag = pos 1;
              arrived = more;
              gconn = set_conn c.gconn i zero_conn;
              freeid = i;
              shown = c.shown ++ disk_name p ∷ [];
              saved = c.saved ++ (file ++ drop (length file) (old host (disk_name p) file i)) ∷ [];
              sent = (requested host (disk_name p) file i c file_id keys).sent ++ slot i ∷ [];
            }))
  fetch c file_id keys more int run clean full me num free lt opens up at = (
    handle_recv-sends (file_packet c.temp_data0.current_name c.temp_data0.current_id1 file_id) int
        run,
    recvfile-whole host (disk_name p) file i c file_id keys more clean short size full me num free
        lt opens up at,
  )
