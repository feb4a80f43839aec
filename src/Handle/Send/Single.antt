-- ===== src/Handle/Send/Single.antt =====
-- A message to one user: `handle_send` of handle.c with `result` 1.
use mathlib.Core.Path.{subst}
use model_lib.Base.{
  ◌<◌, ◌≡◌, true, Option, none, some, List, [], ◌∷◌, ◌++◌, arith, length, append-nil, ◌∙◌, ℤ, pos,
}
use model_lib.CString.{Text, text, max_size, c_str-put, c_str-clean, put_str-nil}
use model_lib.CString.Decimal.{show_int, IsInt, length-show_int-le}
use model_lib.Packet.{SendPack, zero_pack, Node, exchange}
use model_lib.Packet.Cmd
use model_lib.Server.{Env, Answer, Server, ok}
use model_lib.Work.Copy.{IsString}
use model_lib.Sqlite.{search_by_id}
use model_lib.Sqlite.Sql.{select_int}
use model_lib.Sqlite.Search.{
  int_bound, Named, kept_name, searched, search_data-exchange, search_sql-id, length-select_int,
  length-userdata, length-id1,
}
use model_lib.Sqlite.Insert.{c_string-ok, entry_stmt, executed, insert_data-entry}
use model_lib.Handle.Common.{strcpy}
use model_lib.Handle.Account.Signup.{send_pk-ok}
use model_lib.Handle.Account.Login.{memcpy_str-nil}
use model_lib.Handle.Send.{message_row, find_online, deliver_one, send_single, handle_send}

abbrev pub id_query : ℤ → Text
id_query id = select_int (text "userdata") (text "id1") id

-- The search of a user's name by id.
pub search_name_by_id :
    (e : Env) (id : ℤ) (s : Server) (a : Answer)
    → IsInt id
    → e.exec s.db (id_query id) ≡ a
    → Named a.rows
    → length a.rows < int_bound
    → search_by_id e (text "userdata") (text "id1") id exchange s
      ≡ ok (pos (length a.rows)) (record (searched s (id_query id) (length a.rows) []) {
        temp_name = kept_name a.rows s.temp_name;
      })
unfolding search_by_id
search_name_by_id e id s a int run named few =
    subst
      (λ q.
        e.exec s.db q ≡ a
        → length q < max_size
        → search_by_id e (text "userdata") (text "id1") id exchange s
          ≡ ok (pos (length a.rows)) (record (searched s q (length a.rows) []) {
            temp_name = kept_name a.rows s.temp_name;
          }))
      (search_sql-id (text "userdata") id)
      (λ r f.
        search_data-exchange e (text "userdata") (some (text "id1")) (some (show_int id)) s a r
          named f few)
      run
      (omega (
        arith,
        length-select_int (text "userdata") (text "id1") id,
        length-userdata,
        length-id1,
        length-show_int-le id int,
      ))

pub unchecked-IsString : IsString (text "unchecked")
unfolding text
unchecked-IsString = omega arith

-- The stored row: its kind with its NUL, the sender and the message.
abbrev pub message_pack : ℤ → Text → SendPack
message_pack sender message = record zero_pack {
  send_msg0 = text "unchecked" ++ 0 ∷ [];
  send_msg1 = message;
  send_id1 = sender;
}

pub message_row-ok :
    (sender : ℤ) (message : Text) (s : Server)
    → IsString message
    → message_row (text "unchecked") sender message s ≡ ok (message_pack sender message) s
unfolding message_row strcpy
message_row-ok sender message s str =
    rw (
      put_str-nil max_size (text "unchecked") unchecked-IsString.fits,
      memcpy_str-nil message s str,
    )

-- The packet for an online receiver, if there is one.
abbrev pub delivered : SendPack → Option Node → List (ℤ × SendPack)
delivered pk none = []
delivered pk (some p) =
    (
      p.fd,
      record zero_pack {
        send_cmd = Cmd.muti_send;
        send_msg0 = pk.send_msg0;
        sourse_name = pk.sourse_name;
      },
    )
    ∷ []

deliver_one-ok :
    (e : Env) (pk : SendPack) (p : Option Node) (s : Server)
    → IsString pk.send_msg0
    → IsString pk.sourse_name
    → ((fd : ℤ) → e.send_ok fd ≡ true)
    → deliver_one e pk p s ≡ ok tt (record s { sent = s.sent ++ delivered pk p })
unfolding deliver_one
deliver_one-ok e pk none s m n up = rw append-nil
deliver_one-ok e pk (some p) s m n up = rw (
  c_string-ok pk.send_msg0 s m,
  memcpy_str-nil pk.send_msg0 s m,
  c_string-ok pk.sourse_name s n,
  memcpy_str-nil pk.sourse_name s n,
  send_pk-ok e _ p.fd s (up p.fd),
)

handle_send_to_one :
    (e : Env) (cfd : ℤ) (pk : SendPack) (s : Server)
    → pk.result ≡ pos 1
    → handle_send e cfd pk s ≡ send_single e pk s
unfolding handle_send
handle_send_to_one e cfd pk s one = simp one

-- With result 1, strings in the packet and all connections up, handle_send stores the message as
-- unchecked in the table named by temp_name, which is the receiver's name if the id is known and
-- otherwise what an earlier search left there; it sends the message on to the first online user
-- with the id, and to nobody if there is none.
pub handle_send_single :
    (e : Env) (cfd : ℤ) (pk : SendPack) (s : Server) (a : Answer)
    → pk.result ≡ pos 1
    → IsString pk.send_msg0
    → IsString pk.sourse_name
    → IsInt pk.send_id1
    → IsInt pk.send_id2
    → e.exec s.db (id_query pk.send_id2) ≡ a
    → Named a.rows
    → length a.rows < int_bound
    → IsString (kept_name a.rows s.temp_name)
    → ((fd : ℤ) → e.send_ok fd ≡ true)
    → let table = kept_name a.rows s.temp_name in
      handle_send e cfd pk s
      ≡ ok tt (record s {
        flag = pos (length a.rows);
        cb_list = [];
        temp_name = table;
        db =
            s.db
            ++ id_query pk.send_id2 ∷ []
            ++ entry_stmt table (text "unchecked") pk.send_id1 pk.send_msg0 ∷ [];
        sent = s.sent ++ delivered pk (find_online pk.send_id2 s.online_user);
      })
unfolding send_single
handle_send_single e cfd pk s a one m n i1 i2 run named few str up =
    let table = kept_name a.rows s.temp_name in
    let s1 = record (searched s (id_query pk.send_id2) (length a.rows) []) { temp_name = table } in
    let row = message_pack pk.send_id1 pk.send_msg0 in
    let kind = unchecked-IsString in
    handle_send_to_one e cfd pk s one
    ∙ rw (
      search_name_by_id e pk.send_id2 s a i2 run named few,
      c_string-ok pk.send_msg0 s1 m,
      message_row-ok pk.send_id1 pk.send_msg0 s1 m,
      c_string-ok table s1 str,
      insert_data-entry e row s1 table (text "unchecked") pk.send_msg0 str.fits
          (c_str-put max_size (text "unchecked") [] kind.clean kind.fits) kind.fits
          (c_str-clean max_size pk.send_msg0 m.clean m.fits) m.fits i1,
      deliver_one-ok e pk (find_online pk.send_id2 s.online_user)
          (executed s1 (entry_stmt table (text "unchecked") pk.send_id1 pk.send_msg0)) m n up,
    )
