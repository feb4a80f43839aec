-- ===== src/Handle/Groups/Join.antt =====
-- Joining a group: `handle_group` of handle.c with command 3.
use mathlib.Core.List.{reverse_aux}
use mathlib.Core.Path.{subst}
use model_lib.Base.{
  ◌+◌, ◌<◌, ◌≡◌, refl, true, some, List, [], ◌∷◌, ◌++◌, arith, length, length-append, append_assoc,
  lt→ltb, ◌∙◌, if◌then◌else◌, ℤ, pos,
}
use model_lib.CString.{Text, str_eq, text, max_size, c_str-put, c_str-clean, put_str-nil}
use model_lib.CString.Decimal.{IsInt}
use model_lib.Packet.{SendPack, zero_pack, CurrentData, Node, inport, count, success, fail}
use model_lib.Server.{Answer, Env, Server, ok, sprintf}
use model_lib.Work.Copy.{IsString}
use model_lib.Sqlite.{search_sql, search_data}
use model_lib.Sqlite.Sql.{select_text}
use model_lib.Sqlite.Write.{insert_data}
use model_lib.Sqlite.Insert.{c_string-ok, entry_stmt, executed, insert_data-entry}
use model_lib.Sqlite.Search.{
  int_bound, Imports, searched, search_data-count, search_data-inport, length-select_text,
}
use model_lib.Handle.Common.{strcpy}
use model_lib.Handle.Account.Signup.{send_pk-ok}
use model_lib.Handle.Account.Login.{memcpy_str-nil}
use model_lib.Handle.Send.{message_row}
use model_lib.Handle.Show.Listing.{line_pack}
use model_lib.Handle.Friends.Requests.{inform-line}
use model_lib.Handle.Groups.{joined, answer, enter_group, join_group, handle_group}

abbrev pub group_query : Text → Text
group_query name = select_text (text "grouplist") (text "name") name

group_sql :
    (name : Text)
    → search_sql (text "grouplist") (some (text "name")) (some name) ≡ group_query name
unfolding search_sql text str_eq
group_sql name = refl

length-group_query : (name : Text) → length (group_query name) ≡ 38 + length name
unfolding text
length-group_query name = omega (arith, length-select_text (text "grouplist") (text "name") name)

module _ (e : Env) (name : Text) (s : Server) (a : Answer) (short : length name < 90) where
  pub count_group :
      e.exec s.db (group_query name) ≡ a
      → length a.rows < int_bound
      → search_data e (text "grouplist") (some (text "name")) (some name) count s
        ≡ ok (pos (length a.rows)) (searched s (group_query name) (length a.rows) [])
  count_group run few =
      subst
        (λ q.
          e.exec s.db q ≡ a
          → length q < max_size
          → search_data e (text "grouplist") (some (text "name")) (some name) count s
            ≡ ok (pos (length a.rows)) (searched s q (length a.rows) []))
        (group_sql name)
        (λ r f. search_data-count e (text "grouplist") (some (text "name")) (some name) s a r f few)
        run (omega (arith, length-group_query name))

  inport_group :
      (ns : List Node)
      → e.exec s.db (group_query name) ≡ a
      → Imports a.rows ns
      → length a.rows < int_bound
      → search_data e (text "grouplist") (some (text "name")) (some name) inport s
        ≡ ok
            (pos (length a.rows))
            (searched s (group_query name) (length a.rows) (reverse_aux ns []))
  inport_group ns run im few =
      subst
        (λ q.
          e.exec s.db q ≡ a
          → length q < max_size
          → search_data e (text "grouplist") (some (text "name")) (some name) inport s
            ≡ ok (pos (length a.rows)) (searched s q (length a.rows) (reverse_aux ns [])))
        (group_sql name)
        (λ r f.
          search_data-inport e (text "grouplist") (some (text "name")) (some name) s a ns r im f
            few)
        run (omega (arith, length-group_query name))

-- The kinds of rows in the tables of groups and users.
member-IsString : IsString (text "member")
unfolding text
member-IsString = omega arith

group-IsString : IsString (text "group")
unfolding text
group-IsString = omega arith

-- A row of some kind: the packet that holds it, and its insert into a table.
abbrev kind_pack : Text → ℤ → Text → SendPack
kind_pack kind id message = record zero_pack {
  send_msg0 = kind ++ 0 ∷ [];
  send_msg1 = message;
  send_id1 = id;
}

module _ (kind : Text) (id : ℤ) (message : Text) (k : IsString kind) (str : IsString message) where
  kind_row-ok : (s : Server) → message_row kind id message s ≡ ok (kind_pack kind id message) s
  unfolding message_row strcpy
  kind_row-ok s = rw (put_str-nil max_size kind k.fits, memcpy_str-nil message s str)

  insert_kind :
      (e : Env) (s : Server) (table : Text)
      → length table < max_size
      → IsInt id
      → let sql = entry_stmt table kind id message in
        insert_data e table (kind_pack kind id message) 6 s
        ≡ ok (if (e.exec s.db sql).rc_ok then success else fail) (executed s sql)
  insert_kind e s table t i =
      insert_data-entry e (kind_pack kind id message) s table kind message t
        (c_str-put max_size kind [] k.clean k.fits) k.fits
        (c_str-clean max_size message str.clean str.fits) str.fits i

joined-lt :
    (user group : Text) → length user + length group < 98 → length (joined user group) < max_size
unfolding joined text
joined-lt user group h = simp length-append (omega arith)

answer-line :
    (e : Env) (cfd : ℤ) (line : Text) (s : Server)
    → length line < max_size
    → e.send_ok cfd ≡ true
    → answer e cfd zero_pack line s
      ≡ ok tt (record s { sent = s.sent ++ (cfd, line_pack line) ∷ [] })
unfolding answer
answer-line e cfd line s h up = rw (inform-line line s h, send_pk-ok e (line_pack line) cfd s up)

sprintf-ok : (t : Text) (s : Server) → length t < max_size → sprintf max_size t s ≡ ok t s
unfolding sprintf
sprintf-ok t s h = rw (lt→ltb _ _ h)

handle_group_three :
    (e : Env) (cfd : ℤ) (recv : SendPack) (temp : CurrentData) (s : Server)
    → recv.send_cmd ≡ pos 3
    → handle_group e cfd recv temp s ≡ join_group e cfd recv temp s
unfolding handle_group
handle_group_three e cfd recv temp s three = simp three

join_group_found :
    (e : Env) (cfd : ℤ) (recv : SendPack) (temp : CurrentData) (s : Server) (a : Answer)
    → IsString recv.sourse_name
    → length recv.sourse_name < 90
    → e.exec s.db (group_query recv.sourse_name) ≡ a
    → length a.rows ≡ 1
    → join_group e cfd recv temp s
      ≡ enter_group e cfd recv.sourse_name temp (searched s (group_query recv.sourse_name) 1 [])
unfolding join_group
join_group_found e cfd recv temp s a str short run one = rw (
  c_string-ok recv.sourse_name s str,
  count_group e recv.sourse_name s a short run (omega (arith, one)),
  one,
)

-- What is added to the history by a user who joins a group with an id.
abbrev pub join_stmts : CurrentData → (name : Text) → ℤ → List Text
join_stmts temp name id =
    group_query name
    ∷ entry_stmt name (text "member") temp.current_id1 temp.current_name
    ∷ group_query name
    ∷ entry_stmt temp.current_name (text "group") id name
    ∷ []

-- With command 3, strings for the group's and the user's names, the group's of fewer than 90
-- characters and both together of fewer than 98, exactly one group of the name, and on a connection
-- that is up, handle_group enters the user as a member into the group's table and the group, with
-- the id of the first node that the second search brings, into the user's table, and tells the
-- user; it executes the two searches and the two inserts in this order and changes no other global
-- than the counter and cb_head's list.
pub handle_group-join :
    (e : Env) (cfd : ℤ) (recv : SendPack) (temp : CurrentData) (s : Server) (known listed : Answer)
    (ns ps : List Node) (p : Node)
    → recv.send_cmd ≡ pos 3
    → IsString recv.sourse_name
    → IsString temp.current_name
    → length recv.sourse_name < 90
    → length temp.current_name + length recv.sourse_name < 98
    → IsInt temp.current_id1
    → IsInt p.id1
    → e.exec s.db (group_query recv.sourse_name) ≡ known
    → length known.rows ≡ 1
    → let name = recv.sourse_name in
      e.exec
          (s.db
            ++ group_query name ∷ []
            ++ entry_stmt name (text "member") temp.current_id1 temp.current_name ∷ [])
          (group_query name)
        ≡ listed
      → Imports listed.rows ns
      → length listed.rows < int_bound
      → reverse_aux ns [] ≡ p ∷ ps
      → e.send_ok cfd ≡ true
      → handle_group e cfd recv temp s
        ≡ ok tt (record s {
          flag = pos (length listed.rows);
          cb_list = p ∷ ps;
          db = s.db ++ join_stmts temp recv.sourse_name p.id1;
          sent = s.sent ++ (cfd, line_pack (joined temp.current_name recv.sourse_name)) ∷ [];
        })
unfolding enter_group
handle_group-join e cfd recv temp s known listed ns ps p three n u short room i j run one run' im
      few first up =
    let name = recv.sourse_name in
    let user = temp.current_name in
    let s1 = searched s (group_query name) 1 [] in
    let s2 = executed s1 (entry_stmt name (text "member") temp.current_id1 user) in
    let s3 = searched s2 (group_query name) (length listed.rows) (p ∷ ps) in
    let s4 = executed s3 (entry_stmt user (text "group") p.id1 name) in
    handle_group_three e cfd recv temp s three
    ∙ join_group_found e cfd recv temp s known n short run one
    ∙ rw
        (
          c_string-ok user s1 u,
          kind_row-ok (text "member") temp.current_id1 user member-IsString u s1,
          insert_kind (text "member") temp.current_id1 user member-IsString u e s1 name n.fits i,
          inport_group e name s2 listed short ns run' im few,
          first,
          kind_row-ok (text "group") p.id1 name group-IsString n s3,
          insert_kind (text "group") p.id1 name group-IsString n e s3 user u.fits j,
          sprintf-ok (joined user name) s4 (joined-lt user name room),
          answer-line e cfd (joined user name) s4 (joined-lt user name room) up,
        )
        (simp append_assoc)
