-- ===== src/Handle/Send/Group/Sent.antt =====
-- What `handle_send` of epoll+tpool/server/handle.c does with a message to a group.
use mathlib.Core.Path.{subst}
use mathlib.Core.List.{reverse_aux}
use model_lib.Base.{
  ◌+◌, ◌<◌, ◌≡◌, refl, inl, ◌∙◌, true, false, some, suc, List, [], ◌∷◌, ◌++◌, arith, length, ℕ, ℤ,
  pos, int_eq,
}
use model_lib.CString.{Text, text, max_size, str_eq}
use model_lib.CString.Decimal.{IsInt}
use model_lib.Packet.{SendPack, zero_pack, Node, inport}
use model_lib.Server.{Env, Answer, Server, ok}
use model_lib.Server.Keeps.{All}
use model_lib.Work.Copy.{IsString}
use model_lib.Sqlite.{search_sql, search_data}
use model_lib.Sqlite.Sql.{select_text}
use model_lib.Sqlite.Search.{int_bound, Imports, searched, search_data-inport, length-select_text}
use model_lib.Sqlite.Insert.{c_string-ok, entry_stmt, executed}
use model_lib.Handle.Account.Signup.{send_pk-ok}
use model_lib.Handle.Groups.Join.{group_query, count_group}
use model_lib.Handle.Send.{send_group_members, send_group, handle_send}
use model_lib.Handle.Send.Rows.{group_row-ok, insert_text}
use model_lib.Handle.Send.Everyone.{All-reverse_aux}
use model_lib.Handle.Send.Group.{Fitting, reached, member_entries, Ready, closing, inform-Ready}
use model_lib.Handle.Send.Group.Members.{members_each}

message-IsString : IsString (text "message")
unfolding text
message-IsString = omega arith

-- The search of a group's members.
abbrev pub members_query : Text → Text
members_query group = select_text group (text "dec") (text "member")

members_sql :
    (group : Text)
    → search_sql group (some (text "dec")) (some (text "member")) ≡ members_query group
unfolding search_sql text str_eq
members_sql group = refl

length-members_query : (group : Text) → length (members_query group) ≡ 34 + length group
unfolding text
length-members_query group = omega (arith, length-select_text group (text "dec") (text "member"))

search_members :
    (e : Env) (group : Text) (s : Server) (a : Answer) (ns : List Node)
    → e.exec s.db (members_query group) ≡ a
    → Imports a.rows ns
    → length group < 92
    → length a.rows < int_bound
    → search_data e group (some (text "dec")) (some (text "member")) inport s
      ≡ ok
          (pos (length a.rows))
          (searched s (members_query group) (length a.rows) (reverse_aux ns []))
search_members e group s a ns run im short few =
    subst
      (λ q.
        e.exec s.db q ≡ a
        → length q < max_size
        → search_data e group (some (text "dec")) (some (text "member")) inport s
          ≡ ok (pos (length a.rows)) (searched s q (length a.rows) (reverse_aux ns [])))
      (members_sql group)
      (λ r f.
        search_data-inport e group (some (text "dec")) (some (text "member")) s a ns r im f few)
      run (omega (arith, length-members_query group))

handle_send_to_group :
    (e : Env) (cfd : ℤ) (pk : SendPack) (s : Server)
    → pk.result ≡ pos 2
    → handle_send e cfd pk s ≡ send_group e cfd pk s
unfolding handle_send
handle_send_to_group e cfd pk s two = simp two

-- The statements in front of those for the members.
abbrev pub group_entered : Server → SendPack → Server
group_entered s pk = record s {
  db =
      s.db
      ++ group_query pk.sourse_name ∷ []
      ++ entry_stmt pk.sourse_name (text "message") pk.send_id1 pk.send_msg0 ∷ [];
}

-- With result 2, for a group that has a row in grouplist, a group name and a message that are
-- strings of fewer than 92 bytes together, the name of fewer than 90, rows fewer than an int can
-- count, members whose names are strings, and all connections up, handle_send stores the message in
-- the group's table, searches its members, and then, member by member, the last row first, adds the
-- message with the group's name to the table that is named by the member's name field and sends it
-- to every online user with the member's id. At the end the sender gets the line that the message
-- was sent; its packet is the last one that went to a member, or a cleared one, with the command
-- and the line written over, and nothing of the old text stays behind the line.
pub handle_send-group :
    (e : Env) (cfd : ℤ) (pk : SendPack) (s : Server) (groups members : Answer) (k : ℕ)
    (ns : List Node)
    → pk.result ≡ pos 2
    → Fitting pk.sourse_name pk.send_msg0
    → length pk.sourse_name < 90
    → IsInt pk.send_id1
    → e.exec s.db (group_query pk.sourse_name) ≡ groups
    → length groups.rows ≡ suc k
    → length groups.rows < int_bound
    → e.exec (group_entered s pk).db (members_query pk.sourse_name) ≡ members
    → Imports members.rows ns
    → length members.rows < int_bound
    → All (λ (p : Node). IsString p.name) ns
    → ((fd : ℤ) → e.send_ok fd ≡ true)
    → let ps = reverse_aux ns [] in
      (last : SendPack) × Ready pk last
      × (handle_send e cfd pk s
          ≡ ok tt (record s {
            flag = pos (length members.rows);
            cb_list = ps;
            db =
                (group_entered s pk).db
                ++ members_query pk.sourse_name ∷ []
                ++ member_entries pk ps;
            sent = s.sent ++ reached pk s.online_user ps ++ (cfd, closing pk last) ∷ [];
          }))
unfolding send_group send_group_members
handle_send-group e cfd pk s groups members k ns two f short i run one few run' im few' strs up =
    let group = pk.sourse_name in
    let ps = reverse_aux ns [] in
    let s1 = searched s (group_query group) (length groups.rows) [] in
    let s2 = executed s1 (entry_stmt group (text "message") pk.send_id1 pk.send_msg0) in
    let s3 = searched s2 (members_query group) (length members.rows) ps in
    let (last, ready, loop) =
      members_each e pk f ps zero_pack s3 (inl refl)
        (All-reverse_aux (λ (p : Node). IsString p.name) ns [] strs tt) i up in
    let s4 = record s3 {
      db = s3.db ++ member_entries pk ps;
      sent = s3.sent ++ reached pk s.online_user ps;
    } in
    let some_group : int_eq (pos (length groups.rows)) (pos 0) ≡ false = ground (arith, one) in
    (
      last,
      ready,
      handle_send_to_group e cfd pk s two
          ∙ rw (
            c_string-ok group s f.name_str,
            count_group e group s groups short run few,
            some_group,
            c_string-ok group s1 f.name_str,
            c_string-ok pk.send_msg0 s1 f.text_str,
            group_row-ok (text "message") pk.send_id1 pk.send_msg0 message-IsString f.text_str s1,
            insert_text (text "message") pk.send_id1 pk.send_msg0 message-IsString f.text_str e
                group s1 f.name_str i,
            search_members e group s2 members ns run' im (omega (arith, short)) few',
            loop,
            inform-Ready pk f last s4 ready,
            send_pk-ok e (closing pk last) cfd s4 (up cfd),
          ),
    )
