-- ===== src/Handle/Send/Everyone.antt =====
-- A message to all: `handle_send` of epoll+tpool/server/handle.c with `result` 4.
use mathlib.Core.List.{reverse_aux}
use model_lib.Base.{
  ◌<◌, ◌≤◌, ◌≡◌, ◌∙◌, true, some, none, suc, List, [], ◌∷◌, ◌++◌, append-nil, append_assoc, arith,
  length, length-append, drop_all, le→leb, lt→ltb, ℕ, ℤ, pos,
}
use model_lib.CString.{
  Text, text, max_size, copy_str, put_str, copy_str-nil, put_str-nil, c_str-put, c_str-clean,
}
use model_lib.CString.Decimal.{IsInt}
use model_lib.Packet.{SendPack, zero_pack, Node, inport}
use model_lib.Packet.Cmd
use model_lib.Server.{Env, Answer, Server, ok, for_each}
use model_lib.Server.Keeps.{All}
use model_lib.Work.Copy.{IsString}
use model_lib.Sqlite.{search_sql, search_data}
use model_lib.Sqlite.Sql.{select_all}
use model_lib.Sqlite.Search.{int_bound, Imports, searched, search_data-inport}
use model_lib.Sqlite.Insert.{c_string-ok, entry_stmt, executed, insert_data-entry}
use model_lib.Handle.Common.{memcpy_str, strcpy, fold_each}
use model_lib.Handle.Account.ByName.{all_query}
use model_lib.Handle.Account.Signup.{send_pk-ok}
use model_lib.Handle.Send.{forward, deliver_all, store_message, send_all, handle_send}
use model_lib.Handle.Send.Single.{message_pack, message_row-ok, unchecked-IsString}

-- A text over itself, without and with its NUL.
copy_str_same : (cap : ℕ) (t : Text) → length t ≤ cap → copy_str cap t t ≡ some t
unfolding copy_str
copy_str_same cap t h = rw (le→leb _ _ h, drop_all (length t) t (omega arith), append-nil)

put_str_same :
    (cap : ℕ) (t : Text) → length t < cap → put_str cap (t ++ 0 ∷ []) t ≡ some (t ++ 0 ∷ [])
unfolding put_str
put_str_same cap t h = rw (
  lt→ltb _ _ h,
  drop_all (suc (length t)) (t ++ 0 ∷ []) (omega (arith, length-append t (0 ∷ []))),
)

-- The packet that every online user gets.
abbrev pub broadcast : SendPack → SendPack
broadcast pk = record zero_pack {
  send_cmd = Cmd.muti_send;
  sourse_name = pk.sourse_name;
  send_msg0 = pk.send_msg0 ++ 0 ∷ [];
}

abbrev pub copies : SendPack → List Node → List (ℤ × SendPack)
copies pk [] = []
copies pk (p ∷ ps) = (p.fd, broadcast pk) ∷ copies pk ps

-- The row that every user's table gets.
abbrev pub entries : SendPack → List Node → List Text
entries pk [] = []
entries pk (q ∷ qs) = entry_stmt q.name (text "unchecked") pk.send_id1 pk.send_msg0 ∷ entries pk qs

pub forward-fresh :
    (pk : SendPack) (s : Server)
    → IsString pk.sourse_name
    → IsString pk.send_msg0
    → forward zero_pack pk.sourse_name pk.send_msg0 s ≡ ok (broadcast pk) s
unfolding forward memcpy_str strcpy
forward-fresh pk s n m = rw (
  copy_str-nil max_size pk.sourse_name (omega (arith, n.fits)),
  put_str-nil max_size pk.send_msg0 m.fits,
)

-- The packet of the round before is written over with the same texts.
pub forward-broadcast :
    (pk : SendPack) (s : Server)
    → IsString pk.sourse_name
    → IsString pk.send_msg0
    → forward (broadcast pk) pk.sourse_name pk.send_msg0 s ≡ ok (broadcast pk) s
unfolding forward memcpy_str strcpy
forward-broadcast pk s n m = rw (
  copy_str_same max_size pk.sourse_name (omega (arith, n.fits)),
  put_str_same max_size pk.send_msg0 m.fits,
)

module _ (e : Env) (pk : SendPack) (n : IsString pk.sourse_name) (m : IsString pk.send_msg0) where
  deliver_all-ok :
      (ps : List Node) (recv : SendPack) (s : Server)
      → ((fd : ℤ) → e.send_ok fd ≡ true)
      → ((t : Server) → forward recv pk.sourse_name pk.send_msg0 t ≡ ok (broadcast pk) t)
      → (last : SendPack) × (fold_each ps recv (deliver_all e pk) s
          ≡ ok last (record s { sent = s.sent ++ copies pk ps }))
  unfolding fold_each deliver_all
  deliver_all-ok [] recv s up over = (recv, rw append-nil)
  deliver_all-ok (p ∷ ps) recv s up over =
      let s1 = record s { sent = s.sent ++ (p.fd, broadcast pk) ∷ [] } in
      let (last, run) = deliver_all-ok ps (broadcast pk) s1 up (λ t. forward-broadcast pk t n m) in
      (
        last,
        rw (
          c_string-ok pk.sourse_name s n,
          c_string-ok pk.send_msg0 s m,
          over s,
          send_pk-ok e (broadcast pk) p.fd s (up p.fd),
          run,
          append_assoc s.sent ((p.fd, broadcast pk) ∷ []) (copies pk ps),
        ),
      )

  store_message-ok :
      (q : Node) (s : Server)
      → IsString q.name
      → IsInt pk.send_id1
      → store_message e pk q s
        ≡ ok tt (executed s (entry_stmt q.name (text "unchecked") pk.send_id1 pk.send_msg0))
  unfolding store_message
  store_message-ok q s str i =
      let kind = unchecked-IsString in
      rw (
        c_string-ok pk.send_msg0 s m,
        message_row-ok pk.send_id1 pk.send_msg0 s m,
        c_string-ok q.name s str,
        insert_data-entry e (message_pack pk.send_id1 pk.send_msg0) s q.name (text "unchecked")
            pk.send_msg0 str.fits (c_str-put max_size (text "unchecked") [] kind.clean kind.fits)
            kind.fits (c_str-clean max_size pk.send_msg0 m.clean m.fits) m.fits i,
      )

  store_each-ok :
      (qs : List Node) (s : Server)
      → All (λ (q : Node). IsString q.name) qs
      → IsInt pk.send_id1
      → for_each qs (store_message e pk) s ≡ ok tt (record s { db = s.db ++ entries pk qs })
  unfolding for_each
  store_each-ok [] s strs i = rw append-nil
  store_each-ok (q ∷ qs) s strs i =
      let entry = entry_stmt q.name (text "unchecked") pk.send_id1 pk.send_msg0 in
      rw (
        store_message-ok q s strs.0 i,
        store_each-ok qs (executed s entry) strs.1 i,
        append_assoc s.db (entry ∷ []) (entries pk qs),
      )

pub All-reverse_aux :
    {A : Type 0} (P : A → Type 0) (xs ys : List A) → All P xs → All P ys → All P (reverse_aux xs ys)
All-reverse_aux P [] ys all all' = all'
All-reverse_aux P (x ∷ xs) ys all all' = All-reverse_aux P xs (x ∷ ys) all.1 (all.0, all')

search_all :
    (e : Env) (s : Server) (a : Answer) (ns : List Node)
    → e.exec s.db all_query ≡ a
    → Imports a.rows ns
    → length a.rows < int_bound
    → search_data e (text "userdata") none none inport s
      ≡ ok (pos (length a.rows)) (searched s all_query (length a.rows) (reverse_aux ns []))
unfolding search_sql select_all text
search_all e s a ns run im few =
    search_data-inport e (text "userdata") none none s a ns run im (omega arith) few

handle_send_to_all :
    (e : Env) (cfd : ℤ) (pk : SendPack) (s : Server)
    → pk.result ≡ pos 4
    → handle_send e cfd pk s ≡ send_all e pk s
unfolding handle_send
handle_send_to_all e cfd pk s four = simp four

-- With result 4, strings in the packet for the sender and the message, rows of userdata whose names
-- are strings and which are fewer than an int can count, and all connections up, handle_send sends
-- the message with its sender's name to every user online, in the list's order, then searches all
-- users and adds the message as unchecked to the table of each, in the order of cb_head's list, the
-- last row first.
pub handle_send-everyone :
    (e : Env) (cfd : ℤ) (pk : SendPack) (s : Server) (a : Answer) (ns : List Node)
    → pk.result ≡ pos 4
    → IsString pk.sourse_name
    → IsString pk.send_msg0
    → IsInt pk.send_id1
    → e.exec s.db all_query ≡ a
    → Imports a.rows ns
    → length a.rows < int_bound
    → All (λ (q : Node). IsString q.name) ns
    → ((fd : ℤ) → e.send_ok fd ≡ true)
    → handle_send e cfd pk s
      ≡ ok tt (record s {
        flag = pos (length a.rows);
        cb_list = reverse_aux ns [];
        db = s.db ++ all_query ∷ entries pk (reverse_aux ns []);
        sent = s.sent ++ copies pk s.online_user;
      })
unfolding send_all
handle_send-everyone e cfd pk s a ns four n m i run im few strs up =
    let (last, delivered) =
      deliver_all-ok e pk n m s.online_user zero_pack s up (λ t. forward-fresh pk t n m) in
    let s1 = record s { sent = s.sent ++ copies pk s.online_user } in
    let users = reverse_aux ns [] in
    handle_send_to_all e cfd pk s four
    ∙ rw (
      delivered,
      search_all e s1 a ns run im few,
      store_each-ok e pk n m users (searched s1 all_query (length a.rows) users)
          (All-reverse_aux (λ (q : Node). IsString q.name) ns [] strs tt) i,
      append_assoc s.db (all_query ∷ []) (entries pk users),
    )
