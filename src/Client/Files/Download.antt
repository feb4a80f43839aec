-- ===== src/Client/Files/Download.antt =====
-- recvfile of epoll+tpool/client/work.c on a whole file.
use model_lib.Base.{
  ℕ, ◌%◌, ◌^◌, ◌<◌, ◌≡◌, ◌≢◌, refl, sym, ◌∙◌, true, some, List, [], ◌∷◌, ◌++◌, arith, ◌==◌, drop,
  length, ℤ, pos, inl, inr, Bool-cases, lt→ltb,
}
use model_lib.CString.{Text, IsClean, c_str-put}
use model_lib.Packet.{SendPack, zero_pack}
use model_lib.Packet.Cmd
use model_lib.Work.Copy.{IsString}
use model_lib.Transfer.{filename_maxlen, blocksize, Head, FileInfo, file_heads}
use model_lib.Transfer.Blocks.{info_of}
use model_lib.Transfer.Receive.{
  conn_max, Conn, zero_conn, set_conn, new_conn, found_at, find_slot, undisturbed,
}
use model_lib.Transfer.Upload.{open_slot}
use model_lib.Transfer.Whole.{file_heads-Tiles, new_conn-Tiles, info_of-filesize, info_of-count_lt}
use model_lib.Client.{packet, file_info, slot, Arrival, message, Env, Client, ok}
use model_lib.Client.Scan.{got, scan_int}
use model_lib.Client.Console.{scanf_int, show_text, send_pk}
use model_lib.Client.Account.Login.{memcpy_string-IsString}
use model_lib.Client.Files.{
  recv_info, put, on_disk, take_slot, recv_fileinfo, recvfile, recv_filedata, times,
}
use model_lib.Client.Files.Incoming.{stream, arriving, stream-Follows}

pub info_of-filename : (fname : Text) (size : ℕ) → (info_of fname size).0.filename ≡ fname ++ 0 ∷ []
info_of-filename fname size = elim (Bool-cases (size % blocksize == 0)) [
  | inl e ↦ rw e
  | inr e ↦ rw e
]

pub info_of-count_int :
    (fname : Text) (size : ℕ) → size < 2 ^ 31 → (info_of fname size).0.count < 2 ^ 31
info_of-count_int fname size h = elim (Bool-cases (size % blocksize == 0)) [
  | inl e ↦ rw e (omega arith)
  | inr e ↦ rw e (omega arith)
]

pub scanf_int-some :
    (old z : ℤ) (rest : List ℕ) (s : Client)
    → scan_int s.typed ≡ got (some z) rest
    → scanf_int old s ≡ ok z (record s { typed = rest })
unfolding scanf_int
scanf_int-some old z rest s h = rw h refl

pub send_pk-up :
    (e : Env) (pk : SendPack) (s : Client)
    → e.send_ok ≡ true
    → send_pk e pk s ≡ ok tt (record s { sent = s.sent ++ packet pk ∷ [] })
unfolding send_pk
send_pk-up e pk s up = rw up refl

-- What recvfile asks the server for: the list of files, and then one of them.
abbrev pub list_packet : Text → ℤ → SendPack
list_packet name id = record zero_pack {
  send_cmd = Cmd.show;
  result = pos 5;
  sourse_name = name;
  send_id1 = id;
}

abbrev pub file_packet : Text → ℤ → ℤ → SendPack
file_packet name id file_id = record zero_pack {
  send_cmd = Cmd.recv_file;
  sourse_name = name;
  send_id1 = id;
  send_id2 = file_id;
}

module _ (e : Env) (fname : Text) (file : List ℕ) (i : ℕ) where
  -- The sizes and the blocks, as handle_recv makes them for the slot.
  abbrev pub file_sent : FileInfo
  file_sent = (info_of fname (length file)).0

  abbrev pub blocks_sent : List Head
  blocks_sent = file_heads file_sent (info_of fname (length file)).1 fname i

  -- What the client's disk has under the name.
  abbrev pub old : List ℕ
  old = on_disk e (e.file fname)

  take_slot-free :
      (s : Client)
      → find_slot (undisturbed conn_max s.gconn) s.freeid ≡ found_at i
      → take_slot e file_sent fname s
        ≡ ok i
            (record s { gconn = set_conn s.gconn i (new_conn e.sockfd file_sent old); freeid = i })
  unfolding take_slot open_slot
  take_slot-free s free = rw (take_slot, open_slot, free) refl

  recv_fileinfo-opens :
      (s : Client) (rest : List Arrival)
      → IsClean fname
      → length fname < filename_maxlen
      → find_slot (undisturbed conn_max s.gconn) s.freeid ≡ found_at i
      → e.opens fname ≡ true
      → e.send_ok ≡ true
      → s.arrived ≡ message (file_info file_sent) ∷ rest
      → recv_fileinfo e s
        ≡ ok file_sent.count (record s {
          arrived = rest;
          shown = s.shown ++ fname ∷ [];
          gconn = set_conn s.gconn i (new_conn e.sockfd file_sent old);
          freeid = i;
          sent = s.sent ++ slot i ∷ [];
        })
  unfolding recv_fileinfo recv_info show_text put
  recv_fileinfo-opens s rest clean short free opens up at =
      rw
        (
          at,
          info_of-filename fname (length file),
          c_str-put filename_maxlen fname [] clean short,
          opens,
          take_slot-free (record s { arrived = rest; shown = s.shown ++ fname ∷ [] }) free,
          up,
        )
        refl

  -- All the blocks, into the slot that was set up.
  blocks-received :
      (s : Client) (g : List Conn) (more : List Arrival)
      → i < length g
      → length file < 2 ^ 31
      → length file ≢ 0
      → s.gconn ≡ set_conn g i (new_conn e.sockfd file_sent old)
      → s.arrived ≡ arriving (stream file blocks_sent) more
      → times file_sent.count recv_filedata s
        ≡ ok tt (record s {
          gconn = set_conn g i zero_conn;
          arrived = more;
          saved = s.saved ++ (file ++ drop (length file) old) ∷ [];
        })
  blocks-received s g more lt h full conns at =
      let (tiles, k) = file_heads-Tiles fname i file h in
      let size : file_sent.filesize ≡ length file =
        info_of-filesize fname (length file) ∙ omega arith in
      let whole =
        new_conn-Tiles blocks_sent g file i e.sockfd file_sent old lt h full size k
          (info_of-count_lt fname (length file) h) tiles in
      rw (conns, at, sym k)
        (stream-Follows file (file ++ drop (length file) old) (set_conn g i zero_conn) more
          blocks_sent (set_conn g i (new_conn e.sockfd file_sent old)) s whole)

  -- The client when the sizes of the file come in.
  abbrev pub requested : Client → ℤ → List ℕ → Client
  requested s file_id keys = record s {
    typed = keys;
    flag = pos 0;
    sent =
        s.sent
        ++ packet (list_packet s.temp_data0.current_name s.temp_data0.current_id1) ∷ []
        ++ packet (file_packet s.temp_data0.current_name s.temp_data0.current_id1 file_id) ∷ [];
  }

  -- recvfile of the client, on a connection that is up, with a number typed, a free slot and a file
  -- name that is a string of fewer than 30 bytes and can be opened, asks for the file and receives
  -- it: if each call of recv gets what one send of handle_recv wrote, then a file of at least one
  -- byte and fewer than 2 ^ 31 is afterwards saved, in front of what a longer old file of this name
  -- holds behind it; the slot is free again, and nothing of what comes behind is read.
  pub recvfile-whole :
      (s : Client) (file_id : ℤ) (keys : List ℕ) (more : List Arrival)
      → IsClean fname
      → length fname < filename_maxlen
      → length file < 2 ^ 31
      → length file ≢ 0
      → IsString s.temp_data0.current_name
      → scan_int s.typed ≡ got (some file_id) keys
      → find_slot (undisturbed conn_max s.gconn) s.freeid ≡ found_at i
      → i < length s.gconn
      → e.opens fname ≡ true
      → e.send_ok ≡ true
      → s.arrived ≡ arriving (file_info file_sent ∷ stream file blocks_sent) more
      → recvfile e s
        ≡ ok tt (record (requested s file_id keys) {
          flag = pos 1;
          arrived = more;
          gconn = set_conn s.gconn i zero_conn;
          freeid = i;
          shown = s.shown ++ fname ∷ [];
          saved = s.saved ++ (file ++ drop (length file) old) ∷ [];
          sent = (requested s file_id keys).sent ++ slot i ∷ [];
        })
  unfolding recvfile
  recvfile-whole s file_id keys more clean short h full str num free lt opens up at =
      let me = s.temp_data0.current_name in
      let my_id = s.temp_data0.current_id1 in
      let s1 = record s { sent = s.sent ++ packet (list_packet me my_id) ∷ [] } in
      let s2 = requested s file_id keys in
      let s3 = record s2 {
        arrived = arriving (stream file blocks_sent) more;
        shown = s.shown ++ fname ∷ [];
        gconn = set_conn s.gconn i (new_conn e.sockfd file_sent old);
        freeid = i;
        sent = s2.sent ++ slot i ∷ [];
      } in
      let few = lt→ltb _ _ (info_of-count_int fname (length file) h) in
      rw
        (
          memcpy_string-IsString me s str,
          send_pk-up e (list_packet me my_id) s up,
          scanf_int-some (pos 0) file_id keys s1 num,
          send_pk-up e (file_packet me my_id file_id) (record s1 { typed = keys; flag = pos 0 }) up,
          recv_fileinfo-opens s2 (arriving (stream file blocks_sent) more) clean short free opens up
              at,
          few,
          blocks-received s3 s.gconn more lt h full refl refl,
        )
        refl
