-- ===== src/Client/Files/Sending.antt =====
-- What sendfile of epoll+tpool/client/work.c puts on the connection.
use model_lib.Base.{
  ℕ, ◌+◌, ◌^◌, ◌<◌, ◌≡◌, refl, ◌∙◌, true, some, List, [], ◌∷◌, ◌++◌, map, append_assoc, take, drop,
  drop_all, drop-drop, take-append-drop, sym, ap, append-nil, arith, length, ℤ, pos,
}
use model_lib.CString.{Text, max_size, c_str-put, copy_str-nil}
use model_lib.Packet.{SendPack, zero_pack}
use model_lib.Packet.Cmd
use model_lib.Work.Copy.{IsString}
use model_lib.Transfer
use model_lib.Transfer.{filename_maxlen, Head, send_fileinfo, file_heads}
use model_lib.Transfer.Blocks.{info_of, send_fileinfo-info_of}
use model_lib.Transfer.Pieces.{flatten, send_filedata-flatten}
use model_lib.Transfer.Roundtrip.{Tiles}
use model_lib.Transfer.Whole.{file_heads-Tiles}
use model_lib.Client.{
  Message, packet, file_info, block, bytes, slot, Arrival, message, Env, Client, ok,
}
use model_lib.Client.Scan.{got, skip_spaces, scan_int}
use model_lib.Client.Scan.Words.{IsWord, scanf_word-IsWord}
use model_lib.Client.Console.{string_of, memcpy_string}
use model_lib.Client.Account.Login.{memcpy_string-IsString}
use model_lib.Client.Files.{
  put, put_all, send_filedata, send_blocks, recv_slot, announce, send_whole, sendfile,
}
use model_lib.Client.Files.Incoming.{block_messages}
use model_lib.Client.Files.Download.{scanf_int-some, send_pk-up}

abbrev block_packet : Message
block_packet = packet (record zero_pack { send_cmd = Cmd.file_data })

-- Every block behind the packet that announces it.
abbrev pub announced : List ℕ → List Head → List Message
announced file [] = []
announced file (h ∷ hs) =
    block_packet ∷ block_messages (Transfer.send_filedata file h) ++ announced file hs

module _ (e : Env) (up : e.send_ok ≡ true) where
  put_all-up :
      (ms : List Message) (s : Client) → put_all e ms s ≡ ok tt (record s { sent = s.sent ++ ms })
  unfolding put_all
  put_all-up [] s = rw append-nil refl
  put_all-up (m ∷ ms) s =
      rw (up, put_all-up ms (record s { sent = s.sent ++ m ∷ [] })) (simp append_assoc)

  send_filedata-up :
      (file : List ℕ) (h : Head) (pieces : List (List ℕ)) (s : Client)
      → Transfer.send_filedata file h ≡ some (h, pieces)
      → send_filedata e file h s
        ≡ ok tt (record s { sent = s.sent ++ block_packet ∷ block h ∷ map bytes pieces })
  unfolding send_filedata
  send_filedata-up file h pieces s cut =
      rw
        (
          send_pk-up e (record zero_pack { send_cmd = Cmd.file_data }) s up,
          cut,
          put_all-up (block h ∷ map bytes pieces) (record s { sent = s.sent ++ block_packet ∷ [] }),
        )
        (simp append_assoc)

  send_blocks-announced :
      (file : List ℕ) (i off : ℕ) (hs : List Head) (s : Client)
      → Tiles file i off hs
      → send_blocks e file hs s ≡ ok tt (record s { sent = s.sent ++ announced file hs })
  unfolding send_blocks
  send_blocks-announced file i off [] s t = rw append-nil refl
  send_blocks-announced file i off (h ∷ hs) s (same, at, near, fits, rest) =
      let (pieces, (cut, content)) = send_filedata-flatten file h (omega arith) in
      let s1 = record s { sent = s.sent ++ block_packet ∷ block h ∷ map bytes pieces } in
      rw
        (
          send_filedata-up file h pieces s cut,
          send_blocks-announced file i (off + h.bs) hs s1 rest,
          cut,
        )
        (simp append_assoc)

  send_whole-sends :
      (name : Text) (file : List ℕ) (i : ℕ) (rest : List Arrival) (s : Client)
      → length name < filename_maxlen
      → length file < 2 ^ 31
      → s.arrived ≡ message (slot i) ∷ rest
      → let r = info_of name (length file) in
        send_whole e name file s
        ≡ ok tt (record s {
          arrived = rest;
          sent = s.sent ++ file_info r.0 ∷ announced file (file_heads r.0 r.1 name i);
        })
  unfolding send_whole put recv_slot
  send_whole-sends name file i rest s short size at =
      let r = info_of name (length file) in
      let (tiles, k) = file_heads-Tiles name i file size in
      let s1 = record s { arrived = rest; sent = s.sent ++ file_info r.0 ∷ [] } in
      rw (send_fileinfo-info_of name (length file) short (omega arith)) (
        simp up (
          rw (at, send_blocks-announced file i 0 (file_heads r.0 r.1 name i) s1 tiles)
            (simp append_assoc)))

string_of-word : (t : Text) (s : Client) → IsString t → string_of (t ++ 0 ∷ []) s ≡ ok t s
unfolding string_of
string_of-word t s str = rw (c_str-put max_size t [] str.clean str.fits) refl

memcpy_string-word :
    (t : Text) (s : Client) → IsString t → memcpy_string [] (t ++ 0 ∷ []) s ≡ ok t s
unfolding memcpy_string string_of
memcpy_string-word t s str =
    rw
      (
        c_str-put max_size t [] str.clean str.fits,
        copy_str-nil max_size t (omega (arith, str.fits)),
      )
      refl

-- What the server is told first.
abbrev pub info_packet : (me : Text) → ℤ → (to name : Text) → SendPack
info_packet me cmd to name = record zero_pack {
  send_cmd = Cmd.file_info;
  result = cmd;
  sourse_name = me;
  send_msg0 = to ++ 0 ∷ [];
  send_msg1 = name;
}

-- The three answers that sendfile asks for: the file's name, a number, and the receiver.
pub record Typed (typed : List ℕ) (name : Text) (cmd : ℤ) (to : Text) (rest : List ℕ) : Type 0 where
  pub keys1 : List ℕ
  pub keys2 : List ℕ
  pub name_typed : skip_spaces typed ≡ name ++ 10 ∷ keys1
  pub name-IsWord : IsWord name
  pub cmd_typed : scan_int (10 ∷ keys1) ≡ got (some cmd) keys2
  pub to_typed : skip_spaces keys2 ≡ to ++ 10 ∷ rest
  pub to-IsWord : IsWord to

-- The data behind the heads, in the order in which it is sent.
abbrev pub payload : List Message → List ℕ
payload [] = []
payload (bytes p ∷ ms) = p ++ payload ms
payload (packet pk ∷ ms) = payload ms
payload (file_info f ∷ ms) = payload ms
payload (block h ∷ ms) = payload ms
payload (slot n ∷ ms) = payload ms

payload-bytes :
    (ps : List (List ℕ)) (ms : List Message)
    → payload (map bytes ps ++ ms) ≡ flatten ps ++ payload ms
payload-bytes [] ms = refl
payload-bytes (p ∷ ps) ms = rw (payload-bytes ps ms, append_assoc p (flatten ps) (payload ms)) refl

-- From an offset on, the blocks carry the rest of the file.
payload-announced :
    (file : List ℕ) (i off : ℕ) (hs : List Head)
    → Tiles file i off hs
    → payload (announced file hs) ≡ drop off file
payload-announced file i off [] end = sym (drop_all off file (omega (arith, end)))
payload-announced file i off (h ∷ hs) (same, at, near, fits, rest) =
    let (pieces, (cut, content)) = send_filedata-flatten file h (omega arith) in
    let later = payload-announced file i (off + h.bs) hs rest in
    let whole : take h.bs (drop off file) ++ drop (off + h.bs) file ≡ drop off file =
      ap (λ t. take h.bs (drop off file) ++ t) (sym (drop-drop h.bs off file))
      ∙ take-append-drop h.bs (drop off file) in
    rw (cut, payload-bytes pieces (announced file hs), content, later, at) whole

-- If a client on a connection that is up is given the name of a file of fewer than 30 bytes, a
-- number and a receiver, and the file has fewer than 2 ^ 31 bytes, and the server sends a slot i
-- back, then sendfile sends the packet with name, number and receiver, the file's sizes, and every
-- block behind the head that announces it, and nothing else. There are as many heads as the sizes
-- tell, each block begins where the one before ends, the last ends at the file's end, and the bytes
-- that are sent behind the heads are the file, byte for byte. Nothing is said of how they are
-- received.
pub sendfile-payload :
    (e : Env) (s : Client) (name to : Text) (cmd : ℤ) (file rest : List ℕ) (i : ℕ)
    (more : List Arrival)
    → Typed s.typed name cmd to rest
    → IsString name
    → length name < filename_maxlen
    → length to < max_size
    → IsString s.temp_data0.current_name
    → e.file name ≡ some file
    → length file < 2 ^ 31
    → e.send_ok ≡ true
    → s.arrived ≡ message (slot i) ∷ more
    → let r = info_of name (length file) in
      let heads = file_heads r.0 r.1 name i in
      (sendfile e s
        ≡ ok tt (record s {
          flag = pos 1;
          typed = 10 ∷ rest;
          arrived = more;
          sent =
              s.sent
              ++ packet (info_packet s.temp_data0.current_name cmd to name)
                ∷ file_info r.0
                ∷ announced file heads;
        }))
      × (length heads ≡ r.0.count)
      × Tiles file i 0 heads
      × (payload (announced file heads) ≡ file)
unfolding sendfile announce
sendfile-payload e s name to cmd file rest i more ty str short fits me there size up at =
    let own = s.temp_data0.current_name in
    let pk = info_packet own cmd to name in
    let s0 = record s { flag = pos 0 } in
    let s1 = record s0 { typed = 10 ∷ ty.keys1 } in
    let s2 = record s0 { typed = ty.keys2 } in
    let s3 = record s0 { typed = 10 ∷ rest } in
    let s4 = record s3 { sent = s.sent ++ packet pk ∷ [] } in
    let (tiles, k) = file_heads-Tiles name i file size in
    let r = info_of name (length file) in
    (
      rw
          (
            scanf_word-IsWord name 10 ty.keys1 s0 ty.name_typed ty.name-IsWord refl str.fits,
            memcpy_string-word name s1 str,
            memcpy_string-IsString own s1 me,
            scanf_int-some (pos 0) cmd ty.keys2 s1 ty.cmd_typed,
            scanf_word-IsWord to 10 rest s2 ty.to_typed ty.to-IsWord refl fits,
            send_pk-up e pk s3 up,
            string_of-word name s4 str,
            there,
            send_whole-sends e up name file i more s4 short size at,
          )
          (simp append_assoc),
      k,
      tiles,
      payload-announced file i 0 (file_heads r.0 r.1 name i) tiles,
    )
